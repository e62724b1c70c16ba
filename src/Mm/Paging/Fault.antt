-- ===== src/Mm/Paging/Fault.antt =====
-- The handler of page faults of CORE/src/mm/vmm.c, INT0E.
use supernova_os.Prelude.{
  ℕ, ◌+◌, ◌-◌, ◌*◌, ◌/◌, ◌%◌, ◌^◌, ◌≤◌, ◌<◌, ◌≡◌, refl, sym, ap, ◌∙◌, ◌≢◌, inl, inr, Bool, true,
  false, ◌&&◌, ◌||◌, Option, none, some, List, [], ◌∷◌, arith, ltb, leb, ◌==◌, if◌then◌else◌,
  Bool-cases,
}
use mathlib.Core.Path.{subst}
use supernova_os.Prelude.Words.{add64}
use supernova_os.Mm.Block.{Block}
use supernova_os.Mm.Paging.{World, virtual_mapping, physical_address}
use supernova_os.Mm.Paging.Fresh.{Laws}
use supernova_os.Mm.Paging.Numbers.{page_number}
use supernova_os.Mm.Paging.Loop.{nth, Fits, IsPaged}
use supernova_os.Mm.Paging.Space.{Translated, physical_address-virtual_mapping}

-- `CORE_ADDRESS_LINEAR`
abbrev pub core_address_linear : ℕ
core_address_linear = 0xffff800000000000

-- `CORE_ADDRESS_HEAP`
abbrev pub core_address_heap : ℕ
core_address_heap = 0xffff808000000000

abbrev pub is_linear : ℕ → Bool
is_linear addr = leb core_address_linear addr && ltb addr core_address_heap

-- The loop over the blocks of the process: one of them holds the address and is committed.
unfoldable pub is_committed : List Block → ℕ → Bool
is_committed [] addr = false
is_committed (b ∷ bs) addr =
    (leb b.addr addr && ltb addr (add64 b.addr b.size) && b.typ == 2) || is_committed bs addr

-- The blocks of the process that runs, or none of it.
abbrev pub is_user : Option (List Block) → ℕ → Bool
is_user none addr = false
is_user (some vmma) addr = leb 0x100 addr && ltb addr 0x800000000000 && is_committed vmma addr

module _ {S : Type 0} (alloc : S → ℕ × S) (cr3 : ℕ) where
  -- `alloc_physical_memory(1, 0)` for a page of a process. The code does not test its result.
  abbrev user_page : ℕ → World S → Option (World S)
  user_page addr w =
      let r = alloc w.pages in virtual_mapping alloc cr3 r.0 addr 1 0 6 (record w { pages = r.1 })

  -- `none` is a panic.
  unfoldable pub page_fault : Option (List Block) → ℕ → World S → Option (World S)
  page_fault proc addr w =
      if is_linear addr
      then virtual_mapping alloc cr3 (addr % 2 ^ 39 / 2 ^ 21 * 2 ^ 21) (addr / 2 ^ 21 * 2 ^ 21) 1 1
          2 w
      else if is_user proc addr
      then user_page addr w
      else none

module _ {S : Type 0} (alloc : S → ℕ × S) (L : Laws alloc) (cr3 : ℕ) where
  -- What the address is translated to after the fault.
  abbrev pub Resolved : Option (List Block) → ℕ → World S → Option (World S) → Type 0
  Resolved proc addr w r =
      if is_linear addr
      then Translated alloc L cr3 w 1 addr (addr - core_address_linear) 1 r
      else if is_user proc addr
      then Translated alloc L cr3 (record w { pages = (alloc w.pages).1 }) 0 addr (alloc w.pages).0
          1 r
      else r ≡ none

  user-IsPaged :
      (w : World S)
      → IsPaged alloc L cr3 w
      → (alloc w.pages).0 ≢ 0
      → IsPaged alloc L cr3 (record w { pages = (alloc w.pages).1 })
  user-IsPaged w i nz = record {
    good = L.keeps w.pages i.good;
    tree = i.tree;
    apart = λ g x. i.apart g (L.taken w.pages i.good nz g x).0;
  }

  same_page :
      (addr k : ℕ)
      → (page_number 1 (nth 1 (addr / 2 ^ 21 * 2 ^ 21) k) ≡ page_number 1 (nth 1 addr k))
  same_page addr k = omega arith

  -- The translation of the whole page of 2 MB, whichever of its addresses is named.
  Translated-page :
      (addr phy : ℕ) (w : World S) (r : Option (World S))
      → addr % 2 ^ 39 / 2 ^ 21 ≡ phy / 2 ^ 21
      → Translated alloc L cr3 w 1 (addr / 2 ^ 21 * 2 ^ 21) (addr % 2 ^ 39 / 2 ^ 21 * 2 ^ 21) 1 r
      → Translated alloc L cr3 w 1 addr phy 1 r
  Translated-page addr phy w none e x = x
  Translated-page addr phy w (some w') e (f, g) = (
    λ off lo.
        let a : addr / 2 ^ 21 * 2 ^ 21 / 2 ^ 21 * 2 ^ 21 ≡ addr / 2 ^ 21 * 2 ^ 21 = omega arith in
        let b : addr % 2 ^ 39 / 2 ^ 21 * 2 ^ 21 / 2 ^ 21 * 2 ^ 21 + off
            ≡ phy / 2 ^ 21 * 2 ^ 21 + off =
          omega arith in
        ap (λ (x : ℕ). physical_address w'.mem cr3 ((x + off) % 2 ^ 64)) (sym a)
        ∙ f off lo
        ∙ ap some b,
    λ va' no. g va' (λ k lk p. no k lk (p ∙ same_page addr k)),
  )

  linear-Translated :
      (addr : ℕ) (w : World S)
      → is_linear addr ≡ true
      → IsPaged alloc L cr3 w
      → Fits w.mem cr3 1 addr 1
      → Translated alloc L cr3 w 1 addr (addr - core_address_linear) 1 (
          virtual_mapping alloc cr3
            (addr % 2 ^ 39 / 2 ^ 21 * 2 ^ 21)
            (addr / 2 ^ 21 * 2 ^ 21)
            1
            1
            2
            w)
  linear-Translated addr w q i fits =
      let va = addr / 2 ^ 21 * 2 ^ 21 in
      let phy = addr % 2 ^ 39 / 2 ^ 21 * 2 ^ 21 in
      let l : addr < core_address_heap = ground arith in
      let h : core_address_linear ≤ addr = ground arith in
      Translated-page addr (addr - core_address_linear) w (virtual_mapping alloc cr3 phy va 1 1 2 w)
        (omega arith)
        (physical_address-virtual_mapping alloc L cr3 phy va 1 1 2 w (omega arith) (omega arith)
          (omega arith) (omega arith) i
          (λ k va' t e lk p. fits k va' t e lk (p ∙ same_page addr k)))

  -- A fault at an address of the linear window of physical memory maps the 2 MB around it, so that the
  -- address stands for its distance from the start of the window; one at an address that the process
  -- has committed maps a page of free memory there, where there is one; both leave every address
  -- outside of the page as it was, or panic where no page is left for a table. A fault at any other
  -- address panics. The tables are a tree outside of the free memory, and no larger page is in the way.
  pub page_fault-Resolved :
      (proc : Option (List Block)) (addr : ℕ) (w : World S)
      → addr < 2 ^ 64
      → IsPaged alloc L cr3 w
      → (alloc w.pages).0 ≢ 0
      → Fits w.mem cr3 (if is_linear addr then 1 else 0) addr 1
      → Resolved proc addr w (page_fault alloc cr3 proc addr w)
  unfolding page_fault
  page_fault-Resolved proc addr w l i nz fits = elim (Bool-cases (is_linear addr)) [
    | inl q ↦ rw q (
        linear-Translated addr w q i
          (subst (λ (b : Bool). Fits w.mem cr3 (if b then 1 else 0) addr 1) q fits))
    | inr q ↦ elim (Bool-cases (is_user proc addr)) [
      | inl u ↦
          rw (q, u)
            (physical_address-virtual_mapping alloc L cr3 (alloc w.pages).0 addr 1 0 6
              (record w { pages = (alloc w.pages).1 }) (omega arith) l (omega arith)
              (omega (arith, L.aligned w.pages i.good, L.small w.pages i.good))
              (user-IsPaged w i nz)
              (subst (λ (b : Bool). Fits w.mem cr3 (if b then 1 else 0) addr 1) q fits))
      | inr u ↦ rw (q, u) refl
    ]
  ]
