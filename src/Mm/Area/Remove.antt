-- ===== src/Mm/Area/Remove.antt =====
-- The node that `vmm_alloc` in CORE/src/mm/vmm.c takes out of the areas of a process.
use supernova_os.Prelude.{
  ℕ, ◌+◌, ◌≤◌, ◌<◌, ◌≡◌, refl, ap, inl, none, some, List, [], ◌∷◌, arith, if◌then◌else◌,
}
use supernova_os.Mm.Block.{Block}
use supernova_os.Mm.Block.Map.{
  IsBlock, Before, Heads, IsMap, in_block, type_at, Clear, type_at-cons,
}
use supernova_os.Mm.Physical.Split.{Heads-skip, Clear-behind}

-- A list, one of its nodes, and the list without it.
pub record IsRemoved (l : List Block) (node : Block) (left : List Block) : Type 0 where
  pub block : IsBlock node
  pub map : IsMap left
  pub apart : Clear node left
  pub front : (a : Block) → Heads a l → Before a node × Heads a left
  pub types : (x : ℕ) → type_at l x ≡ (if in_block node x then some node.typ else type_at left x)

pub here-IsRemoved : (n : Block) (l : List Block) → IsMap (n ∷ l) → IsRemoved (n ∷ l) n l
here-IsRemoved n l (vn, hn, ml) = record {
  block = vn;
  map = ml;
  apart = Clear-behind n l n hn ml (omega arith);
  front = λ a h. (h, Heads-skip a n l h vn hn);
  types = type_at-cons n l;
}

pub skip-IsRemoved :
    (n : Block) (l : List Block) (node : Block) (left : List Block)
    → IsMap (n ∷ l)
    → IsRemoved l node left
    → IsRemoved (n ∷ l) node (n ∷ left)
skip-IsRemoved n l node left (vn, hn, ml) r =
    let (before, heads) = r.front n hn in
    record {
      block = r.block;
      map = (vn, heads, r.map);
      apart = (inl before.below, r.apart);
      front = λ a h. (
        record {
          below = omega (arith, h.below, before.below);
          gap = λ u. omega (arith, h.below, before.below, vn.some_size);
        },
        record { below = h.below; gap = h.gap },
      );
      types = λ x.
          rw (type_at-cons n l x, type_at-cons n left x, r.types x) (ground (arith, before.below));
    }

-- A block that is clear of all blocks has no address in the map.
pub Clear-type_at :
    (k : Block) (l : List Block) (x : ℕ)
    → Clear k l
    → k.addr ≤ x
    → x < k.addr + k.size
    → type_at l x ≡ none
unfolding type_at
Clear-type_at k [] x cl h h' = refl
Clear-type_at k (b ∷ l) x (ap, cl) h h' = ground (arith, ap, Clear-type_at k l x cl h h')
