-- ===== src/Mm/Paging/Uncommit/Unmap.antt =====
-- The address space after `vmm_uncommit` of CORE/src/mm/vmm.c, and the pages given back.
use supernova_os.Prelude.{
  ℕ, zero, suc, ◌+◌, ◌-◌, ◌*◌, ◌%◌, ◌^◌, ◌≤◌, ◌<◌, ◌≡◌, refl, sym, ap, ◌∙◌, inl, inr, Option, none,
  some, arith, Option-cases,
}
use mathlib.Core.Path.{subst}
use supernova_os.Mm.Paging.{Memory, World, frame_of, page_size, search_page_entry, physical_address}
use supernova_os.Mm.Paging.Tree.{IsTree}
use supernova_os.Mm.Paging.Graft.{eq_or_ne}
use supernova_os.Mm.Paging.Numbers.{page_number}
use supernova_os.Mm.Paging.Loop.{entry_of, nth, nth_zero, nth-suc, page_number_later, span_suc}
use supernova_os.Mm.Paging.Space.{read_entry, address_of, physical_address-entry_of}
use supernova_os.Mm.Paging.Uncommit.{uncommit_page, vmm_uncommit}
use supernova_os.Mm.Paging.Uncommit.Pages.{
  InPage, InPage_entry, InPage-cases, InPage-trans, Dropped, entry_of-search, uncommit_page-Dropped,
  found_bound,
}

-- One of the addresses of the range is found in a page, and `va` is in it.
abbrev pub Covered : Memory → ℕ → ℕ → ℕ → ℕ → Type 0
Covered m cr3 addr count va = (k : ℕ) × (k < count) × InPage m cr3 (nth 0 addr k) va

-- No address of the range is found in a large page.
abbrev pub AllSmall : Memory → ℕ → ℕ → ℕ → Type 0
AllSmall m cr3 addr count =
    (k t e : ℕ) → k < count → entry_of m cr3 (nth 0 addr k) ≡ some (t, e) → t ≡ 0

-- The address space afterwards.
pub record Uncommitted (m : Memory) (cr3 addr count : ℕ) (m' : Memory) : Type 0 where
  pub tree : IsTree m' 3 (frame_of cr3)
  pub gone : (va : ℕ) → Covered m cr3 addr count va → entry_of m' cr3 va ≡ none
  pub stays : (va : ℕ) → entry_of m cr3 va ≡ none → entry_of m' cr3 va ≡ none
  pub rest : (va : ℕ) → ¬ Covered m cr3 addr count va → entry_of m' cr3 va ≡ entry_of m cr3 va

Dropped-stays :
    (m m' : Memory) (cr3 addr va : ℕ)
    → Dropped m cr3 addr m'
    → entry_of m cr3 va ≡ none
    → entry_of m' cr3 va ≡ none
Dropped-stays m m' cr3 addr va d z = elim (InPage-cases m cr3 addr va) [
  | inl i ↦ d.gone va i
  | inr n ↦ d.rest va n ∙ z
]

-- A page that is left was there before.
Dropped-was :
    (m m' : Memory) (cr3 addr va t e : ℕ)
    → Dropped m cr3 addr m'
    → entry_of m' cr3 va ≡ some (t, e)
    → entry_of m cr3 va ≡ some (t, e)
Dropped-was m m' cr3 addr va t e d q = elim (InPage-cases m cr3 addr va) [
  | inl i ↦ let s : none ≡ some (t, e) = sym (d.gone va i) ∙ q in absurd (ground (arith, s))
  | inr n ↦ sym (d.rest va n) ∙ q
]

InPage-at : (m : Memory) (cr3 a b va : ℕ) → a ≡ b → InPage m cr3 a va → InPage m cr3 b va
InPage-at m cr3 a b va e i = subst (λ (x : ℕ). InPage m cr3 x va) e i

-- The first turn and then the others.
module _ (m m1 m2 : Memory) (cr3 addr count : ℕ) (la : addr < 2 ^ 64) (d : Dropped m cr3 addr m1)
    (u : Uncommitted m1 cr3 ((addr + 0x1000) % 2 ^ 64) count m2) where
  next : (k : ℕ) → nth 0 ((addr + 0x1000) % 2 ^ 64) k ≡ nth 0 addr (suc k)
  next k = nth-suc 0 addr k (omega arith)

  Covered-gone : (va : ℕ) → Covered m cr3 addr (suc count) va → entry_of m2 cr3 va ≡ none
  Covered-gone va (k, l, i) = elim (eq_or_ne k 0) [
    | inl z ↦ u.stays va (
        d.gone va
          (InPage-at m cr3 (nth 0 addr k) addr va (ap (nth 0 addr) z ∙ nth_zero 0 addr la) i))
    | inr nz ↦ elim (InPage-cases m cr3 addr (nth 0 addr k)) [
      | inl j ↦ u.stays va (d.gone va (InPage-trans m cr3 addr (nth 0 addr k) va j i))
      | inr n ↦
          let (t, e, q, p) = i in
          let kp : suc (k - 1) ≡ k = omega arith in
          u.gone va (
            k - 1,
            omega arith,
            InPage-at m1 cr3 (nth 0 addr k) (nth 0 ((addr + 0x1000) % 2 ^ 64) (k - 1)) va
                (sym (next (k - 1) ∙ ap (nth 0 addr) kp)) (t, e, d.rest (nth 0 addr k) n ∙ q, p),
          )
    ]
  ]

  Covered-before :
      (va : ℕ)
      → Covered m1 cr3 ((addr + 0x1000) % 2 ^ 64) count va
      → Covered m cr3 addr (suc count) va
  Covered-before va (k, l, (t, e, q, p)) = (
    suc k,
    omega arith,
    InPage-at m cr3 (nth 0 ((addr + 0x1000) % 2 ^ 64) k) (nth 0 addr (suc k)) va (next k)
        (t, e, Dropped-was m m1 cr3 addr (nth 0 ((addr + 0x1000) % 2 ^ 64) k) t e d q, p),
  )

  more-Uncommitted : Uncommitted m cr3 addr (suc count) m2
  more-Uncommitted = record {
    tree = u.tree;
    gone = Covered-gone;
    stays = λ va z. u.stays va (Dropped-stays m m1 cr3 addr va d z);
    rest = λ va no.
        u.rest va (λ c. no (Covered-before va c))
        ∙ d.rest va (λ i.
          no (0, omega arith, InPage-at m cr3 addr (nth 0 addr 0) va (sym (nth_zero 0 addr la)) i));
  }

-- Addresses in one page of 4 KB are in one page of any type.
page_number_small :
    (t a b : ℕ) → t ≤ 2 → page_number 0 a ≡ page_number 0 b → page_number t a ≡ page_number t b
page_number_small zero a b t2 p = p
page_number_small (suc zero) a b t2 p = omega arith
page_number_small (suc (suc zero)) a b t2 p = omega arith
page_number_small (suc (suc (suc t))) a b t2 p = absurd (omega arith)

-- The pages of the range that are translated, given back one after the other.
module _ {S : Type 0} (free : S → ℕ → ℕ → S) (cr3 : ℕ) where
  abbrev pub release : Option ℕ → S → S
  release none s = s
  release (some p) s = free s p 1

  unfoldable pub released : Memory → ℕ → ℕ → S → S
  released m addr zero s = s
  released m addr (suc count) s =
      released m ((addr + 0x1000) % 2 ^ 64) count (release (physical_address m cr3 addr) s)

  loop-Uncommitted :
      (count addr : ℕ) (w : World S)
      → addr < 2 ^ 64
      → IsTree w.mem 3 (frame_of cr3)
      → Uncommitted w.mem cr3 addr count (vmm_uncommit free cr3 addr count w).mem
  unfolding vmm_uncommit
  loop-Uncommitted zero addr w la tr = record {
    tree = tr;
    gone = λ va (k, l, i). absurd (omega arith);
    stays = λ va z. z;
    rest = λ va no. refl;
  }
  loop-Uncommitted (suc count) addr w la tr =
      let w1 = uncommit_page free cr3 addr w in
      let d = uncommit_page-Dropped free cr3 addr w tr in
      more-Uncommitted w.mem w1.mem (vmm_uncommit free cr3 ((addr + 0x1000) % 2 ^ 64) count w1).mem
        cr3 addr count la d
        (loop-Uncommitted count ((addr + 0x1000) % 2 ^ 64) w1 (omega arith) d.tree)

  page_released :
      (addr : ℕ) (m : Memory) (w : World S)
      → entry_of w.mem cr3 addr ≡ entry_of m cr3 addr
      → ((t e : ℕ) → entry_of m cr3 addr ≡ some (t, e) → t ≡ 0)
      → ((uncommit_page free cr3 addr w).pages ≡ release (physical_address m cr3 addr) w.pages)
  unfolding uncommit_page
  page_released addr m w same small = elim (Option-cases (search_page_entry w.mem cr3 addr)) [
    | inl z ↦
        let n : entry_of m cr3 addr ≡ none =
          sym same ∙ entry_of-search w.mem cr3 addr ∙ ap (read_entry w.mem) z in
        rw (z, uncommit_page, physical_address-entry_of m cr3 addr, n) refl
    | inr ((t, a), z) ↦
        let q : entry_of m cr3 addr ≡ some (t, w.mem a) =
          sym same ∙ entry_of-search w.mem cr3 addr ∙ ap (read_entry w.mem) z in
        let tz = small t (w.mem a) q in
        rw (z, uncommit_page, physical_address-entry_of m cr3 addr, q, tz) refl
  ]

  loop_released :
      (count addr : ℕ) (m : Memory) (w : World S)
      → addr < 2 ^ 64
      → count * page_size 0 ≤ 2 ^ 48
      → IsTree w.mem 3 (frame_of cr3)
      → ((k : ℕ) → k < count → entry_of w.mem cr3 (nth 0 addr k) ≡ entry_of m cr3 (nth 0 addr k))
      → AllSmall m cr3 addr count
      → (vmm_uncommit free cr3 addr count w).pages ≡ released m addr count w.pages
  unfolding vmm_uncommit released
  loop_released zero addr m w la h tr same small = refl
  loop_released (suc count) addr m w la h tr same small =
      let w1 = uncommit_page free cr3 addr w in
      let addr' = (addr + 0x1000) % 2 ^ 64 in
      let d = uncommit_page-Dropped free cr3 addr w tr in
      let z0 = nth_zero 0 addr la in
      let first : entry_of w.mem cr3 addr ≡ entry_of m cr3 addr =
        subst (λ (x : ℕ). entry_of w.mem cr3 x ≡ entry_of m cr3 x) z0 (same 0 (omega arith)) in
      let next : (k : ℕ) → nth 0 addr' k ≡ nth 0 addr (suc k) =
        λ k. nth-suc 0 addr k (omega arith) in
      let later : (k : ℕ) → k < count → ¬ InPage w.mem cr3 addr (nth 0 addr' k) =
        λ k l (t, e, q, p).
          let tz : t ≡ 0 =
            small 0 t e (omega arith)
              (subst (λ (x : ℕ). entry_of m cr3 x ≡ some (t, e)) (sym z0) (sym first ∙ q)) in
          page_number_later 0 addr k (suc count) (omega arith) (omega arith) h (
            ap (page_number 0) (sym (next k))
            ∙ subst (λ (x : ℕ). page_number x (nth 0 addr' k) ≡ page_number x addr) tz p) in
      loop_released count addr' m w1 (omega arith) (span_suc 0 count h) d.tree
        (λ k l.
          d.rest (nth 0 addr' k) (later k l)
          ∙ subst (λ (x : ℕ). entry_of w.mem cr3 x ≡ entry_of m cr3 x) (sym (next k))
              (same (suc k) (omega arith)))
        (λ k t e l q.
          small (suc k) t e (omega arith)
            (subst (λ (x : ℕ). entry_of m cr3 x ≡ some (t, e)) (next k) q))
      ∙ ap (released m addr' count) (
          page_released addr m w first (λ t e q.
            small 0 t e (omega arith)
              (subst (λ (x : ℕ). entry_of m cr3 x ≡ some (t, e)) (sym z0) q)))

  -- What addresses are translated to afterwards, and what was given back.
  pub record Unmapped (w : World S) (addr count : ℕ) (w' : World S) : Type 0 where
    pub tree : IsTree w'.mem 3 (frame_of cr3)
    pub gone :
        (va k : ℕ)
        → k < count
        → page_number 0 va ≡ page_number 0 (nth 0 addr k)
        → physical_address w'.mem cr3 va ≡ none
    pub rest :
        (va : ℕ)
        → ¬ Covered w.mem cr3 addr count va
        → physical_address w'.mem cr3 va ≡ physical_address w.mem cr3 va
    pub pages : AllSmall w.mem cr3 addr count → w'.pages ≡ released w.mem addr count w.pages

  small_gone :
      (addr count va k : ℕ) (m m' : Memory)
      → Uncommitted m cr3 addr count m'
      → k < count
      → page_number 0 va ≡ page_number 0 (nth 0 addr k)
      → entry_of m' cr3 va ≡ none
  small_gone addr count va k m m' u l p = elim (Option-cases (entry_of m cr3 va)) [
    | inl z ↦ u.stays va z
    | inr ((t, e), z) ↦
        let t2 = (found_bound m 3 (frame_of cr3) va t e z).1 in
        let pt = page_number_small t va (nth 0 addr k) t2 p in
        u.gone va (k, l, (t, e, InPage_entry m cr3 va (nth 0 addr k) t e z (sym pt), pt))
  ]

  -- Pages of 4 KB are given back from an address below 2 ^ 64 on, at most 2 ^ 48 bytes together, and
  -- the tables are a tree: then no address of the pages is translated any more, an address in no page
  -- that holds an address of the range is translated as before, and the tables are a tree again.
  -- Where no large page is in the range, each page that was translated is given back once to the free
  -- memory, by the address that it was translated to.
  pub vmm_uncommit-Unmapped :
      (addr count : ℕ) (w : World S)
      → addr < 2 ^ 64
      → count * page_size 0 ≤ 2 ^ 48
      → IsTree w.mem 3 (frame_of cr3)
      → Unmapped w addr count (vmm_uncommit free cr3 addr count w)
  vmm_uncommit-Unmapped addr count w la h tr =
      let w' = vmm_uncommit free cr3 addr count w in
      let u = loop-Uncommitted count addr w la tr in
      record {
        tree = u.tree;
        gone = λ va k l p.
            physical_address-entry_of w'.mem cr3 va
            ∙ ap (address_of va) (small_gone addr count va k w.mem w'.mem u l p);
        rest = λ va no.
            physical_address-entry_of w'.mem cr3 va
            ∙ ap (address_of va) (u.rest va no)
            ∙ sym (physical_address-entry_of w.mem cr3 va);
        pages = loop_released count addr w.mem w la h tr (λ k l. refl);
      }
