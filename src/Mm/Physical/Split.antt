-- ===== src/Mm/Physical/Split.antt =====
-- What `vmm_alloc` in CORE/src/mm/vmm.c leaves of the map when it takes pages out of a block.
use supernova_os.Prelude.{
  ℕ, ◌+◌, ◌-◌, ◌*◌, ◌≤◌, ◌<◌, ◌≡◌, refl, inl, inr, ◌&&◌, Option, none, some, List, [], ◌∷◌, arith,
  ltb, leb, ◌==◌, if◌then◌else◌, nonzero, Bool-cases,
}
use supernova_os.Mm.Block.{Block}
use supernova_os.Mm.Block.Map.{
  IsBlock, Before, Heads, IsMap, in_block, type_at, Clear, type_at-cons, type_at_after,
}
use supernova_os.Mm.Physical.{fresh_block, Taken, split_node}

-- The map with the pages from `at` on taken out.
abbrev pub without : ℕ → ℕ → Option ℕ → ℕ → Option ℕ
without at pages was x = if leb at x && ltb x (at + pages * 4096) then none else was

abbrev pub SpareFits : Option Block → List Block → Type 0
SpareFits none l = Unit {0}
SpareFits (some s) l = IsBlock s × Clear s l

-- Blocks of the list are clear of the spare block when the first one ends in front of it.
abbrev pub SpareBehind : Block → Option Block → Type 0
SpareBehind a none = Unit {0}
SpareBehind a (some s) = a.addr + a.size ≤ s.addr

-- The types when the spare block has its own.
abbrev pub type_with : Option Block → List Block → ℕ → Option ℕ
type_with none l x = type_at l x
type_with (some s) l x = if in_block s x then some s.typ else type_at l x

-- What `split_node` and the loop around it leave.
pub record IsTaken (l : List Block) (at pages : ℕ) (t : Taken) : Type 0 where
  pub place : t.at ≡ at
  pub map : IsMap t.left
  pub spare : SpareFits t.spare t.left
  pub front :
      (a : Block) → Heads a l → (a.addr + a.size ≤ at) × Heads a t.left × SpareBehind a t.spare
  pub types : (x : ℕ) → type_with t.spare t.left x ≡ without at pages (type_at l x) x

pub type_at_free :
    (n : Block) (l : List Block) (x : ℕ)
    → n.typ ≡ 0
    → type_at (n ∷ l) x ≡ (if in_block n x then some 0 else type_at l x)
unfolding type_at
type_at_free n l x e = rw e refl

split_step :
    (node : Block) (rest : List Block) (at pages : ℕ)
    → IsBlock node
    → node.addr ≤ at
    → at + pages * 4096 ≤ node.addr + node.size
    → (split_node node rest at pages ≡ (
        let size = node.addr + node.size - (at + pages * 4096) in
        if at == node.addr
        then record {
          at = at;
          left =
              if nonzero size
              then record node { addr = at + pages * 4096; size = size } ∷ rest
              else rest;
          spare = none;
        }
        else record {
          at = at;
          left = record node { size = at - node.addr } ∷ rest;
          spare = if nonzero size then some (fresh_block (at + pages * 4096) size) else none;
        }))
unfolding split_node
split_step node rest at pages v lo hi = ground (arith, v.inside)

-- A block that is cut off in front is followed by the same blocks.
Heads-cut :
    (n : Block) (l : List Block) (addr size : ℕ)
    → Heads n l
    → addr + size ≡ n.addr + n.size
    → Heads (record n { addr = addr; size = size }) l
Heads-cut n [] a s h e = tt
Heads-cut n (c ∷ r) a s h e = record {
  below = omega (arith, h.below);
  gap = λ u. omega (arith, h.gap u);
}

-- So is one that is cut off behind.
Heads-shrink :
    (n : Block) (l : List Block) (size : ℕ)
    → Heads n l
    → size ≤ n.size
    → Heads (record n { size = size }) l
Heads-shrink n [] s h e = tt
Heads-shrink n (c ∷ r) s h e = record {
  below = omega (arith, h.below);
  gap = λ u. omega (arith, h.gap u);
}

pub Heads-skip : (a n : Block) (l : List Block) → Before a n → IsBlock n → Heads n l → Heads a l
Heads-skip a n [] b v h = tt
Heads-skip a n (c ∷ r) b v h = record {
  below = omega (arith, h.below, b.below);
  gap = λ u. omega (arith, h.below, b.below, v.some_size);
}

-- Blocks behind `n` are clear of a block that ends where `n` does.
pub Clear-behind :
    (n : Block) (l : List Block) (k : Block)
    → Heads n l
    → IsMap l
    → k.addr + k.size ≤ n.addr + n.size
    → Clear k l
Clear-behind n [] k h ml e = tt
Clear-behind n (c ∷ r) k h (vc, hc, mr) e =
    (inr (omega (arith, h.below)), Clear-behind c r k hc mr (omega (arith, h.below)))

pub split_node-IsTaken :
    (node : Block) (rest : List Block) (at pages : ℕ)
    → IsMap (node ∷ rest)
    → node.typ ≡ 0
    → 0 < pages
    → node.addr ≤ at
    → at + pages * 4096 ≤ node.addr + node.size
    → IsTaken (node ∷ rest) at pages (split_node node rest at pages)
split_node-IsTaken node rest at pages (vn, hn, mr) free more lo hi =
    rw (split_step node rest at pages vn lo hi) (elim (Bool-cases (at == node.addr)) [
      | inl e ↦ rw e (elim (Bool-cases (nonzero (node.addr + node.size - (at + pages * 4096)))) [
        | inl f ↦ rw f (record {
          place = refl;
          map = (
            record { vald = vn.vald; some_size = ground arith; inside = ground (arith, vn.inside) },
            Heads-cut node rest (at + pages * 4096) (node.addr + node.size - (at + pages * 4096)) hn
                (omega arith),
            mr,
          );
          spare = tt;
          front = λ a h. (
            omega (arith, h.below),
            record { below = omega (arith, h.below); gap = λ u. omega (arith, h.below) },
            tt,
          );
          types = λ x.
              rw
                (
                  type_at_free node rest x free,
                  type_at_free
                      (record node {
                        addr = at + pages * 4096;
                        size = node.addr + node.size - (at + pages * 4096);
                      })
                      rest x free,
                )
                (ground (arith, type_at_after node rest x hn mr));
        })
        | inr f ↦ rw f (record {
          place = refl;
          map = mr;
          spare = tt;
          front = λ a h. (omega (arith, h.below), Heads-skip a node rest h vn hn, tt);
          types = λ x.
              rw (type_at_free node rest x free) (ground (arith, type_at_after node rest x hn mr));
        })
      ])
      | inr e ↦ rw e (elim (Bool-cases (nonzero (node.addr + node.size - (at + pages * 4096)))) [
        | inl f ↦ rw f (record {
          place = refl;
          map = (
            record { vald = vn.vald; some_size = ground arith; inside = ground (arith, vn.inside) },
            Heads-shrink node rest (at - node.addr) hn (omega arith),
            mr,
          );
          spare = (
            record { vald = refl; some_size = ground arith; inside = ground (arith, vn.inside) },
            (
              inl (omega arith),
              Clear-behind node rest
                  (fresh_block (at + pages * 4096) (node.addr + node.size - (at + pages * 4096))) hn
                  mr (omega arith),
            ),
          );
          front = λ a h. (
            omega (arith, h.below),
            record { below = h.below; gap = h.gap },
            omega (arith, h.below),
          );
          types = λ x.
              rw
                (
                  type_at_free node rest x free,
                  type_at_free (record node { size = at - node.addr }) rest x free,
                )
                (ground (arith, type_at_after node rest x hn mr));
        })
        | inr f ↦ rw f (record {
          place = refl;
          map = (
            record { vald = vn.vald; some_size = ground arith; inside = ground (arith, vn.inside) },
            Heads-shrink node rest (at - node.addr) hn (omega arith),
            mr,
          );
          spare = tt;
          front = λ a h. (omega (arith, h.below), record { below = h.below; gap = h.gap }, tt);
          types = λ x.
              rw
                (
                  type_at_free node rest x free,
                  type_at_free (record node { size = at - node.addr }) rest x free,
                )
                (ground (arith, type_at_after node rest x hn mr));
        })
      ])
    ])

SpareFits-cons :
    (n : Block) (s : Option Block) (l : List Block)
    → SpareFits s l
    → SpareBehind n s
    → SpareFits s (n ∷ l)
SpareFits-cons n none l h b = tt
SpareFits-cons n (some s) l (v, cl) b = (v, (inl b, cl))

SpareBehind-Before :
    (a n : Block) (s : Option Block) → Before a n → SpareBehind n s → SpareBehind a s
SpareBehind-Before a n none b h = tt
SpareBehind-Before a n (some s) b h = omega (arith, b.below)

type_with-cons :
    (n : Block) (s : Option Block) (l : List Block) (x : ℕ)
    → SpareBehind n s
    → type_with s (n ∷ l) x ≡ (if in_block n x then some n.typ else type_with s l x)
unfolding type_at
type_with-cons n none l x b = refl
type_with-cons n (some s) l x b = ground arith

-- A node that is passed over stays in front of what is left.
pub keep_node-IsTaken :
    (node : Block) (rest : List Block) (at pages : ℕ) (t : Taken)
    → IsMap (node ∷ rest)
    → IsTaken rest at pages t
    → IsTaken (node ∷ rest) at pages (record t { left = node ∷ t.left })
keep_node-IsTaken node rest at pages t (vn, hn, mr) k =
    let (beyond, heads, behind) = k.front node hn in
    record {
      place = k.place;
      map = (vn, heads, k.map);
      spare = SpareFits-cons node t.spare t.left k.spare behind;
      front = λ a h. (
        omega (arith, h.below),
        record { below = h.below; gap = h.gap },
        SpareBehind-Before a node t.spare h behind,
      );
      types = λ x.
          rw (type_with-cons node t.spare t.left x behind, type_at-cons node rest x, k.types x)
            (ground arith);
    }
