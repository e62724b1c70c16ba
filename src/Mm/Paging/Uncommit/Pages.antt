-- ===== src/Mm/Paging/Uncommit/Pages.antt =====
-- The page that an address is found in, and one turn of `vmm_uncommit` of CORE/src/mm/vmm.c.
use supernova_os.Prelude.{
  ℕ, zero, suc, ◌+◌, ◌*◌, ◌≤◌, ◌≡◌, refl, sym, ap, ◌∙◌, ◌⊎◌, inl, inr, true, false, none, some,
  arith, Bool-cases, Option-cases,
}
use mathlib.Core.Path.{subst}
use supernova_os.Mm.Paging.{
  Memory, World, slot, is_present, is_large, frame_of, search_from, search_page_entry,
}
use supernova_os.Mm.Paging.Tree.{IsTree, found, frame_aligned, found_zero, found_suc}
use supernova_os.Mm.Paging.Graft.{eq_or_ne}
use supernova_os.Mm.Paging.Refine.{Aims}
use supernova_os.Mm.Paging.Numbers.{page_number, Aims-page_number, page_number-Parts}
use supernova_os.Mm.Paging.Loop.{entry_of}
use supernova_os.Mm.Paging.Space.{read_entry, found-search_from}
use supernova_os.Mm.Paging.Uncommit.{uncommit_page}
use supernova_os.Mm.Paging.Uncommit.Erase.{search-Erased}

found_zero_cases :
    (m : Memory) (f va t e : ℕ)
    → found m 0 f va ≡ some (t, e)
    → (is_present (m (slot 0 f va)) ≡ true) × (t ≡ 0) × (e ≡ m (slot 0 f va))
found_zero_cases m f va t e =
    rw (found_zero m f va (m (slot 0 f va)) refl)
      (elim (Bool-cases (is_present (m (slot 0 f va)))) [
        | inl p ↦ rw p (λ q. (refl, ground (arith, q), ground (arith, q)))
        | inr p ↦ rw p (λ q. absurd (ground (arith, q)))
      ])

found_suc_cases :
    (m : Memory) (n f va t e c : ℕ)
    → m (slot (suc n) f va) ≡ c
    → found m (suc n) f va ≡ some (t, e)
    → (is_present c ≡ true)
      × (((is_large n c ≡ true) × (t ≡ suc n) × (e ≡ c))
          ⊎ ((is_large n c ≡ false) × (found m n (frame_of c) va ≡ some (t, e))))
found_suc_cases m n f va t e c h = rw (found_suc m n f va c h) (elim (Bool-cases (is_present c)) [
  | inr p ↦ rw p (λ q. absurd (ground (arith, q)))
  | inl p ↦ elim (Bool-cases (is_large n c)) [
    | inl l ↦ rw (p, l) (λ q. (refl, inl (refl, ground (arith, q), ground (arith, q))))
    | inr l ↦ rw (p, l) (λ q. (refl, inr (refl, q)))
  ]
])

-- Pages are of three types, and no higher than the table that they are searched from.
pub found_bound : (m : Memory) (n f va t e : ℕ) → found m n f va ≡ some (t, e) → (t ≤ n) × (t ≤ 2)
found_bound m zero f va t e q = let (p, z, c) = found_zero_cases m f va t e q in omega arith
found_bound m (suc n) f va t e q =
    let (p, o) = found_suc_cases m n f va t e (m (slot (suc n) f va)) refl q in
    elim o [
      | inl (l, z, c) ↦ ground (arith, l, z)
      | inr (l, r) ↦ omega (arith, found_bound m n (frame_of (m (slot (suc n) f va))) va t e r)
    ]

-- The addresses of one page have one entry.
found-Aims :
    (m : Memory) (n f va va' t e : ℕ)
    → found m n f va ≡ some (t, e)
    → Aims n t va va'
    → found m n f va' ≡ some (t, e)
found-Aims m zero f va va' t e q aim =
    let (p, z, c) = found_zero_cases m f va t e q in
    found_zero m f va' (m (slot 0 f va))
      (ap (λ (i : ℕ). m (f + 8 * i)) (aim 0 (omega arith) (omega arith)))
    ∙ rw (p, z, c) refl
found-Aims m (suc n) f va va' t e q aim =
    let c = m (slot (suc n) f va) in
    let (p, o) = found_suc_cases m n f va t e c refl q in
    let (tn, t2) = found_bound m (suc n) f va t e q in
    let s =
      found_suc m n f va' c
        (ap (λ (i : ℕ). m (f + 8 * i)) (aim (suc n) (omega arith) (omega arith))) in
    elim o [
      | inl (l, z, ec) ↦ s ∙ rw (p, l, z, ec) refl
      | inr (l, r) ↦
          s
          ∙ rw (p, l) (found-Aims m n (frame_of c) va va' t e r (λ k lo hi. aim k lo (omega arith)))
    ]

-- `addr` is found in a page, and `va` is in it.
abbrev pub InPage : Memory → ℕ → ℕ → ℕ → Type 0
InPage m cr3 addr va =
    (t : ℕ) × (e : ℕ) × (entry_of m cr3 addr ≡ some (t, e))
    × (page_number t va ≡ page_number t addr)

pub InPage_entry :
    (m : Memory) (cr3 addr va t e : ℕ)
    → entry_of m cr3 addr ≡ some (t, e)
    → page_number t va ≡ page_number t addr
    → entry_of m cr3 va ≡ some (t, e)
InPage_entry m cr3 addr va t e q p =
    found-Aims m 3 (frame_of cr3) addr va t e q
      (Aims-page_number t addr va (found_bound m 3 (frame_of cr3) addr t e q).1 p)

pub InPage-cases : (m : Memory) (cr3 addr va : ℕ) → InPage m cr3 addr va ⊎ ¬ InPage m cr3 addr va
InPage-cases m cr3 addr va = elim (Option-cases (entry_of m cr3 addr)) [
  | inl z ↦ inr (λ (t, e, q, p). ground (arith, z, q))
  | inr ((t, e), z) ↦ elim (eq_or_ne (page_number t va) (page_number t addr)) [
    | inl p ↦ inl (t, e, z, p)
    | inr ne ↦ inr (λ (t', e', q, p).
        let s : some (t', e') ≡ some (t, e) = sym q ∙ z in
        let st : t' ≡ t = ground (arith, s) in
        ne (subst (λ (x : ℕ). page_number x va ≡ page_number x addr) st p))
  ]
]

pub InPage-trans :
    (m : Memory) (cr3 addr b va : ℕ)
    → InPage m cr3 addr b
    → InPage m cr3 b va
    → InPage m cr3 addr va
InPage-trans m cr3 addr b va (t, e, q, p) (t', e', q', p') =
    let s : some (t', e') ≡ some (t, e) = sym q' ∙ InPage_entry m cr3 addr b t e q p in
    let st : t' ≡ t = ground (arith, s) in
    (t, e, q, subst (λ (x : ℕ). page_number x va ≡ page_number x b) st p' ∙ p)

-- The page that holds `addr` is gone, all others are as before.
pub record Dropped (m : Memory) (cr3 addr : ℕ) (m' : Memory) : Type 0 where
  pub tree : IsTree m' 3 (frame_of cr3)
  pub gone : (va : ℕ) → InPage m cr3 addr va → entry_of m' cr3 va ≡ none
  pub rest : (va : ℕ) → ¬ InPage m cr3 addr va → entry_of m' cr3 va ≡ entry_of m cr3 va

search_of :
    (m : Memory) (cr3 va : ℕ) → search_page_entry m cr3 va ≡ search_from m 3 (frame_of cr3) va
unfolding search_page_entry
search_of m cr3 va = refl

pub entry_of-search :
    (m : Memory) (cr3 va : ℕ) → entry_of m cr3 va ≡ read_entry m (search_page_entry m cr3 va)
unfolding search_page_entry
entry_of-search m cr3 va = found-search_from m 3 (frame_of cr3) va

module _ {S : Type 0} (free : S → ℕ → ℕ → S) (cr3 : ℕ) where
  pub uncommit_page-Dropped :
      (addr : ℕ) (w : World S)
      → IsTree w.mem 3 (frame_of cr3)
      → Dropped w.mem cr3 addr (uncommit_page free cr3 addr w).mem
  unfolding uncommit_page
  uncommit_page-Dropped addr w tr = elim (Option-cases (search_page_entry w.mem cr3 addr)) [
    | inl z ↦
        let n : entry_of w.mem cr3 addr ≡ none =
          entry_of-search w.mem cr3 addr ∙ ap (read_entry w.mem) z in
        rw (z, uncommit_page)
          (record {
            tree = tr;
            gone = λ va (t, e, q, p). let s : none ≡ some (t, e) = sym n ∙ q in ground (arith, s);
            rest = λ va no. refl;
          })
    | inr ((t, a), z) ↦
        let q : entry_of w.mem cr3 addr ≡ some (t, w.mem a) =
          entry_of-search w.mem cr3 addr ∙ ap (read_entry w.mem) z in
        let (tn, er) =
          search-Erased w.mem 3 (frame_of cr3) addr t a (frame_aligned cr3) tr
            (sym (search_of w.mem cr3 addr) ∙ z) in
        let t2 = (found_bound w.mem 3 (frame_of cr3) addr t (w.mem a) q).1 in
        rw (z, uncommit_page)
          (record {
            tree = er.tree;
            gone = λ va (t', e', q', p).
                let s : some (t', e') ≡ some (t, w.mem a) = sym q' ∙ q in
                let st : t' ≡ t = ground (arith, s) in
                er.hit va (
                  Aims-page_number t addr va t2
                    (subst (λ (x : ℕ). page_number x va ≡ page_number x addr) st p));
            rest = λ va no.
                let (k, lo, hi, d) = page_number-Parts t addr va t2 (λ p. no (t, w.mem a, q, p)) in
                er.miss va k lo hi d;
          })
  ]
