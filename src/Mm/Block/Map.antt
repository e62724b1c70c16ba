-- ===== src/Mm/Block/Map.antt =====
-- The map of memory blocks of CORE/src/mm/pmm.c as a function from addresses to types.
use supernova_os.Prelude.{
  ℕ, ◌+◌, ◌^◌, ◌≤◌, ◌<◌, ◌≡◌, refl, sym, ap, ◌∙◌, ◌⊎◌, inl, inr, Bool, true, false, ◌&&◌, Option,
  none, some, List, [], ◌∷◌, arith, ltb, leb, ◌==◌, if◌then◌else◌, Bool-cases,
}
use supernova_os.Mm.Block.{Block, pmm_merge, absorb_next, pmm_insert_link}

-- A block of the map: in use, not empty, inside the 56 bits of a size.
pub record IsBlock (b : Block) : Type 0 where
  pub vald : b.vald ≡ true
  pub some_size : 0 < b.size
  pub inside : b.addr + b.size < 2 ^ 56

-- `a` ends where `b` begins or before; of one type, there is a gap between them.
pub record Before (a b : Block) : Type 0 where
  pub below : a.addr + a.size ≤ b.addr
  pub gap : a.typ ≡ b.typ → a.addr + a.size < b.addr

abbrev pub Heads : Block → List Block → Type 0
Heads a [] = Unit {0}
Heads a (b ∷ bs) = Before a b

-- The blocks stand in the order of their addresses, apart, and as few as can be.
abbrev pub IsMap : List Block → Type 0
IsMap [] = Unit {0}
IsMap (b ∷ bs) = IsBlock b × Heads b bs × IsMap bs

abbrev pub in_block : Block → ℕ → Bool
in_block b x = leb b.addr x && ltb x (b.addr + b.size)

-- The type of the block that holds an address.
unfoldable pub type_at : List Block → ℕ → Option ℕ
type_at [] x = none
type_at (b ∷ bs) x = if in_block b x then some b.typ else type_at bs x

pub type_at-cons :
    (n : Block) (l : List Block) (x : ℕ)
    → type_at (n ∷ l) x ≡ (if in_block n x then some n.typ else type_at l x)
unfolding type_at
type_at-cons n l x = refl

-- No address up to the end of a block stands behind it.
pub type_at_after :
    (n : Block) (l : List Block) (x : ℕ)
    → Heads n l
    → IsMap l
    → x < n.addr + n.size
    → type_at l x ≡ none
unfolding type_at
type_at_after n [] x h ml lt = refl
type_at_after n (c ∷ r) x h (vc, hc, mr) lt =
    ground (arith, h.below, vc.some_size, type_at_after c r x hc mr)

-- Two blocks that share no address.
abbrev pub Apart : Block → Block → Type 0
Apart a b = (a.addr + a.size ≤ b.addr) ⊎ (b.addr + b.size ≤ a.addr)

abbrev joins : Block → Block → Bool
joins a b = a.typ == b.typ && a.addr + a.size == b.addr

-- What a merge of blocks that are apart means.
merge_cases :
    (a b : Block)
    → IsBlock a
    → IsBlock b
    → Apart a b
    → (pmm_merge a b ≡ (if joins a b then some (record a { size = a.size + b.size }) else none))
unfolding pmm_merge
merge_cases a b va vb ap = ground arith

absorb_step :
    (a b : Block) (l : List Block)
    → IsBlock a
    → IsBlock b
    → Apart a b
    → (absorb_next a (b ∷ l)
        ≡ (if joins a b then record a { size = a.size + b.size } ∷ l else a ∷ b ∷ l))
unfolding absorb_next
absorb_step a b l va vb ap = ground (arith, merge_cases a b va vb ap)

insert_step :
    (n k : Block) (l : List Block)
    → IsBlock n
    → IsBlock k
    → Apart n k
    → Apart k n
    → (pmm_insert_link (n ∷ l) k ≡ (
        if joins n k
        then absorb_next (record n { size = n.size + k.size }) l
        else if joins k n
        then record n { addr = k.addr; size = k.size + n.size } ∷ l
        else if leb k.addr n.addr
        then k ∷ n ∷ l
        else n ∷ pmm_insert_link l k))
unfolding pmm_insert_link
insert_step n k l vn vk ap ap' = ground (arith, merge_cases n k vn vk ap, merge_cases k n vk vn ap')

-- The next block of a list stands behind `b`.
abbrev Above : Block → List Block → Type 0
Above b [] = Unit {0}
Above b (c ∷ r) = b.addr + b.size ≤ c.addr

joins-true : (a b : Block) → joins a b ≡ true → (a.typ ≡ b.typ) × (a.addr + a.size ≡ b.addr)
joins-true a b h = ground arith

Before_lem : (a b : Block) → joins a b ≡ false → a.addr + a.size ≤ b.addr → Before a b
Before_lem a b h le = record { below = le; gap = λ t. ground arith }

-- What stands behind a block depends on its end and type alone.
Heads-end :
    (a a' : Block) (l : List Block)
    → Heads a l
    → a'.addr + a'.size ≡ a.addr + a.size
    → a'.typ ≡ a.typ
    → Heads a' l
Heads-end a a' [] h e t = tt
Heads-end a a' (c ∷ r) h e t = record {
  below = omega (arith, h.below);
  gap = λ u. omega (arith, h.gap (sym t ∙ u));
}

Above-Heads : (a : Block) (l : List Block) → Heads a l → Above a l
Above-Heads a [] h = tt
Above-Heads a (c ∷ r) h = h.below

absorb-IsMap :
    (b : Block) (l : List Block) → IsBlock b → IsMap l → Above b l → IsMap (absorb_next b l)
absorb-IsMap b [] vb ml below = unfold absorb_next in (vb, tt, tt)
absorb-IsMap b (c ∷ r) vb (vc, hc, mr) below =
    rw (absorb_step b c r vb vc (inl below)) (elim (Bool-cases (joins b c)) [
      | inl e ↦
          let (t, at) = joins-true b c e in
          rw e (
            record { vald = vb.vald; some_size = ground arith; inside = ground arith },
            Heads-end c (record b { size = b.size + c.size }) r hc (omega arith) t,
            mr,
          )
      | inr e ↦ rw e (vb, Before_lem b c e below, (vc, hc, mr))
    ])

-- All blocks of a list are apart from `k`.
abbrev pub Clear : Block → List Block → Type 0
Clear k [] = Unit {0}
Clear k (b ∷ bs) = Apart b k × Clear k bs

-- A block that takes in one which it touches stays in front of the list behind it.
Above-behind :
    (n k : Block) (l : List Block)
    → IsMap l
    → Heads n l
    → Clear k l
    → n.addr + n.size ≡ k.addr
    → Above (record n { size = n.size + k.size }) l
Above-behind n k [] ml h cl e = tt
Above-behind n k (c ∷ r) (vc, hc, mr) h (inl lo, cl) e =
    absurd (omega (arith, h.below, vc.some_size))
Above-behind n k (c ∷ r) ml h (inr hi, cl) e = omega arith

Heads-absorb :
    (a b : Block) (l : List Block)
    → IsBlock b
    → IsMap l
    → Above b l
    → Before a b
    → Heads a (absorb_next b l)
Heads-absorb a b [] vb ml ab h = unfold absorb_next in h
Heads-absorb a b (c ∷ r) vb (vc, hc, mr) ab h =
    rw (absorb_step b c r vb vc (inl ab)) (elim (Bool-cases (joins b c)) [
      | inl e ↦ rw e (record { below = h.below; gap = h.gap })
      | inr e ↦ rw e h
    ])

-- The block in front of the place of insertion.
Heads-insert :
    (a k : Block) (l : List Block)
    → IsMap l
    → IsBlock k
    → Clear k l
    → Heads a l
    → Before a k
    → Heads a (pmm_insert_link l k)
Heads-insert a k [] ml vk cl h b = unfold pmm_insert_link in b
Heads-insert a k (n ∷ l) (vn, hn, ml) vk (ap, cl) h b =
    rw (insert_step n k l vn vk ap (ground arith)) (elim (Bool-cases (joins n k)) [
      | inl e ↦
          let (t, at) = joins-true n k e in
          rw e (
            Heads-absorb a (record n { size = n.size + k.size }) l
              (record { vald = vn.vald; some_size = ground arith; inside = ground arith }) ml
              (Above-behind n k l ml hn cl at) (record { below = h.below; gap = h.gap }))
      | inr e ↦ rw e (elim (Bool-cases (joins k n)) [
        | inl f ↦
            let (t, at) = joins-true k n f in
            rw f (record { below = b.below; gap = λ u. b.gap (u ∙ sym t) })
        | inr f ↦ rw f (elim (Bool-cases (leb k.addr n.addr)) [ inl g ↦ rw g b | inr g ↦ rw g h ])
      ])
    ])

-- The blocks of a map stay in the order of their addresses, apart and merged with what they touch,
-- when a block that is apart from all of them is inserted.
pub insert-IsMap :
    (l : List Block) (k : Block) → IsMap l → IsBlock k → Clear k l → IsMap (pmm_insert_link l k)
insert-IsMap [] k ml vk cl = unfold pmm_insert_link in (vk, tt, tt)
insert-IsMap (n ∷ l) k (vn, hn, ml) vk (ap, cl) =
    let rest = insert-IsMap l k ml vk cl in
    rw (insert_step n k l vn vk ap (ground arith)) (elim (Bool-cases (joins n k)) [
      | inl e ↦
          let (t, at) = joins-true n k e in
          rw e (
            absorb-IsMap (record n { size = n.size + k.size }) l
              (record { vald = vn.vald; some_size = ground arith; inside = ground arith }) ml
              (Above-behind n k l ml hn cl at))
      | inr e ↦ rw e (elim (Bool-cases (joins k n)) [
        | inl f ↦
            let (t, at) = joins-true k n f in
            rw f (
              record { vald = vn.vald; some_size = ground arith; inside = ground arith },
              Heads-end n (record n { addr = k.addr; size = k.size + n.size }) l hn (omega arith)
                  refl,
              ml,
            )
        | inr f ↦ rw f (elim (Bool-cases (leb k.addr n.addr)) [
          | inl g ↦ rw g (vk, Before_lem k n f (ground arith), (vn, hn, ml))
          | inr g ↦
              rw g (vn, Heads-insert n k l ml vk cl hn (Before_lem n k e (ground arith)), rest)
        ])
      ])
    ])

type_at-absorb :
    (b : Block) (l : List Block) (x : ℕ)
    → IsBlock b
    → IsMap l
    → Above b l
    → type_at (absorb_next b l) x ≡ type_at (b ∷ l) x
unfolding type_at
type_at-absorb b [] x vb ml ab = unfold absorb_next in refl
type_at-absorb b (c ∷ r) x vb (vc, hc, mr) ab = rw (absorb_step b c r vb vc (inl ab)) (ground arith)

-- Inserting a block that is apart from all blocks of a map gives its type to the addresses of the
-- block, and changes the type of no other address.
pub type_at-insert :
    (l : List Block) (k : Block) (x : ℕ)
    → IsMap l
    → IsBlock k
    → Clear k l
    → type_at (pmm_insert_link l k) x ≡ (if in_block k x then some k.typ else type_at l x)
unfolding type_at
type_at-insert [] k x ml vk cl = unfold pmm_insert_link in refl
type_at-insert (n ∷ l) k x (vn, hn, ml) vk (ap, cl) =
    let rest = type_at-insert l k x ml vk cl in
    rw (insert_step n k l vn vk ap (ground arith)) (elim (Bool-cases (joins n k)) [
      | inl e ↦
          let (t, at) = joins-true n k e in
          rw
            (
              e,
              type_at-absorb (record n { size = n.size + k.size }) l x
                  (record { vald = vn.vald; some_size = ground arith; inside = ground arith }) ml
                  (Above-behind n k l ml hn cl at),
            )
            (ground arith)
      | inr e ↦ rw e (elim (Bool-cases (joins k n)) [
        | inl f ↦ let (t, at) = joins-true k n f in rw f (ground arith)
        | inr f ↦ rw f (elim (Bool-cases (leb k.addr n.addr)) [
          | inl g ↦ rw g (ground arith)
          | inr g ↦ rw g (ground arith)
        ])
      ])
    ])
