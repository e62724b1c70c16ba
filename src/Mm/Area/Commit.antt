-- ===== src/Mm/Area/Commit.antt =====
-- The faults at committed addresses of CORE/src/mm/vmm.c: `vmm_alloc` and then `INT0E`.
use supernova_os.Prelude.{
  ℕ, ◌+◌, ◌-◌, ◌*◌, ◌/◌, ◌^◌, ◌≤◌, ◌<◌, ◌≡◌, refl, sym, ap, ◌∙◌, ◌≢◌, ◌⊎◌, inl, inr, Bool, true,
  false, ◌&&◌, Option, none, some, List, [], ◌∷◌, map, arith, ltb, leb, ◌==◌, if◌then◌else◌,
  Bool-cases,
}
use mathlib.Core.Path.{subst}
use supernova_os.Prelude.Words.{add64}
use supernova_os.Mm.Block.{Block}
use supernova_os.Mm.Block.Map.{IsBlock, IsMap, in_block, type_at, type_at-cons, type_at_after}
use supernova_os.Mm.Paging.{World}
use supernova_os.Mm.Paging.Fresh.{Laws}
use supernova_os.Mm.Paging.Loop.{Fits, IsPaged}
use supernova_os.Mm.Paging.Space.{Translated}
use supernova_os.Mm.Paging.Fault.{
  core_address_linear, is_linear, is_committed, is_user, page_fault, page_fault-Resolved,
}
use supernova_os.Mm.Area.{AreaType, blk_type, vmm_alloc_area}
use supernova_os.Mm.Area.Claim.{Claimed, Granted, vmm_alloc_area-Granted}

abbrev has_type : ℕ → Option ℕ → Bool
has_type t none = false
has_type t (some u) = u == t

block_test :
    (n : Block) (x : ℕ)
    → IsBlock n
    → (leb n.addr x && ltb x (add64 n.addr n.size) && n.typ == 2) ≡ (in_block n x && n.typ == 2)
block_test n x v = ground (arith, v.inside)

-- The loop of the handler looks for the type of the address.
pub is_committed-type_at :
    (l : List Block) (x : ℕ) → IsMap l → is_committed l x ≡ has_type 2 (type_at l x)
unfolding is_committed
is_committed-type_at [] x ml = unfold type_at in refl
is_committed-type_at (n ∷ l) x (vn, hn, ml) =
    let rest = is_committed-type_at l x ml in
    rw (type_at-cons n l x, block_test n x vn, rest)
      (elim (Bool-cases (in_block n x)) [
        | inl i ↦
            let z : type_at l x ≡ none = type_at_after n l x hn ml (ground arith) in
            rw (i, z) (ground arith)
        | inr o ↦ rw o refl
      ])

-- What the call did, where it succeeded.
claimed :
    (map map' : List Block) (addr pages align at : ℕ) (typ : AreaType)
    → IsMap map
    → 0 < pages
    → addr < 2 ^ 55
    → align ≤ 63
    → vmm_alloc_area map addr pages align typ ≡ (0, at, map')
    → Claimed map ((addr + 4095) / 4096 * 4096) pages align at typ map'
claimed map map' addr pages align at typ ml hp ha hl e =
    elim (subst (Granted map ((addr + 4095) / 4096 * 4096) pages align typ) e
      (vmm_alloc_area-Granted map addr pages align typ ml hp ha hl)) [
        | inl (z, c) ↦ c
        | inr (o, z, s, r) ↦ absurd (omega (arith, o))
      ]

user_case :
    (p q : Bool) (A B C : Type 0) → p ≡ false → q ≡ true → (if p then A else if q then B else C) → B
user_case p q A B C e f = rw (e, f) (λ x. x)

low_address : (x : ℕ) → x < 0x800000000000 → is_linear x ≡ false
low_address x h = ground arith

module _ {S : Type 0} (alloc : S → ℕ × S) (L : Laws alloc) (cr3 : ℕ) where
  committed_fault :
      (map : List Block) (w : World S) (x : ℕ)
      → IsMap map
      → type_at map x ≡ some 2
      → IsPaged alloc L cr3 w
      → (alloc w.pages).0 ≢ 0
      → Fits w.mem cr3 0 x 1
      → 0x100 ≤ x
      → x < 0x800000000000
      → Translated alloc L cr3
          (record w { pages = (alloc w.pages).1 })
          0
          x
          (alloc w.pages).0
          1
          (page_fault alloc cr3 (some map) x w)
  committed_fault map w x ml c i nz fits lo hi =
      let lin = low_address x hi in
      let cmt : is_committed map x ≡ true = is_committed-type_at map x ml ∙ ap (has_type 2) c in
      let user : is_user (some map) x ≡ true = ground (arith, cmt) in
      user_case (is_linear x) (is_user (some map) x)
        (Translated alloc L cr3 w 1 x (x - core_address_linear) 1
          (page_fault alloc cr3 (some map) x w))
        (Translated alloc L cr3 (record w { pages = (alloc w.pages).1 }) 0 x (alloc w.pages).0 1
          (page_fault alloc cr3 (some map) x w))
        (page_fault alloc cr3 (some map) x w ≡ none) lin user
        (page_fault-Resolved alloc L cr3 (some map) x w (omega arith) i nz
          (subst (λ (b : Bool). Fits w.mem cr3 (if b then 1 else 0) x 1) (sym lin) fits))

  same_fault :
      (map map' : List Block) (w : World S) (x : ℕ)
      → is_committed map' x ≡ is_committed map x
      → page_fault alloc cr3 (some map') x w ≡ page_fault alloc cr3 (some map) x w
  unfolding page_fault
  same_fault map map' w x e = rw e refl

  -- A process commits pages, and one of its addresses from 0x100 on and below 2 ^ 47 faults, where
  -- the tables are a tree outside of the free memory, no larger page is in the way, and a page of
  -- memory is free: inside the pages committed, the fault maps a free page at the address, or fails
  -- where no page is left for a table; outside it does what it did before.
  pub page_fault-vmm_alloc_area :
      (map map' : List Block) (addr pages align at : ℕ) (typ : AreaType) (w : World S) (x : ℕ)
      → IsMap map
      → 0 < pages
      → addr < 2 ^ 55
      → align ≤ 63
      → blk_type typ ≡ 2
      → vmm_alloc_area map addr pages align typ ≡ (0, at, map')
      → IsPaged alloc L cr3 w
      → (alloc w.pages).0 ≢ 0
      → Fits w.mem cr3 0 x 1
      → 0x100 ≤ x
      → x < 0x800000000000
      → (at ≤ x
          → x < at + pages * 4096
          → Translated alloc L cr3
              (record w { pages = (alloc w.pages).1 })
              0
              x
              (alloc w.pages).0
              1
              (page_fault alloc cr3 (some map') x w))
        × ((x < at) ⊎ (at + pages * 4096 ≤ x)
            → page_fault alloc cr3 (some map') x w ≡ page_fault alloc cr3 (some map) x w)
  page_fault-vmm_alloc_area map map' addr pages align at typ w x ml hp ha hl two e i nz fits lo hi =
      let c = claimed map map' addr pages align at typ ml hp ha hl e in
      (
        λ h h'. committed_fault map' w x c.left (c.types x ∙ ground (arith, two)) i nz fits lo hi,
        λ out. same_fault map map' w x (
            is_committed-type_at map' x c.left
            ∙ ap (has_type 2) {y = type_at map x} (c.types x ∙ ground (arith, out))
            ∙ sym (is_committed-type_at map x ml)),
      )
