-- ===== src/Mm/Paging/Loop.antt =====
-- The pages that virtual_mapping of CORE/src/mm/vmm.c maps, one behind the other.
use supernova_os.Prelude.{
  ℕ, zero, suc, ◌+◌, ◌-◌, ◌*◌, ◌/◌, ◌%◌, ◌^◌, ◌≤◌, ◌<◌, ◌≡◌, refl, sym, ap, ◌∙◌, ◌≢◌, inl, inr,
  Option, none, some, arith, Bool-cases, Option-cases,
}
use mathlib.Core.Path.{subst}
use supernova_os.Mm.Paging.{
  Memory, World, slot, is_large, frame_of, page_size, map_from, mapping_loop,
}
use supernova_os.Mm.Paging.Tree.{Owns, IsTree, found, frame_aligned, found_suc}
use supernova_os.Mm.Paging.Graft.{eq_or_ne}
use supernova_os.Mm.Paging.Fresh.{Laws}
use supernova_os.Mm.Paging.Refine.{leaf, IsOpen, later, Fails, Mapped, Answers}
use supernova_os.Mm.Paging.Round.{map_from-Answers}
use supernova_os.Mm.Paging.Numbers.{
  page_number, Aims-page_number, page_number-Parts, page_number_ne,
}

-- What an address space makes of an address: the type of the page and its entry.
abbrev pub entry_of : Memory → ℕ → ℕ → Option (ℕ × ℕ)
entry_of m cr3 va = found m 3 (frame_of cr3) va

-- No larger page is in the way.
IsOpen-of_found :
    (m : Memory) (n typ f va : ℕ)
    → typ ≤ n
    → ((t e : ℕ) → found m n f va ≡ some (t, e) → t ≤ typ)
    → IsOpen m n typ f va
IsOpen-of_found m zero typ f va tn h = tt
IsOpen-of_found m (suc n) typ f va tn h = λ ne p.
    let e = m (slot (suc n) f va) in
    let s = found_suc m n f va e refl in
    elim (Bool-cases (is_large n e)) [
      | inl l ↦
          let big : suc n ≤ typ = h (suc n) e (s ∙ rw (p, l) refl) in absurd (ne (omega arith))
      | inr l ↦ (
        l,
        IsOpen-of_found m n typ (frame_of e) va (omega arith) (λ t e' q. h t e' (s ∙ rw (p, l) q)),
      )
    ]

-- The k-th page of a mapping.
abbrev pub nth : ℕ → ℕ → ℕ → ℕ
nth typ x k = (x + k * page_size typ) % 2 ^ 64

pub nth_zero : (typ x : ℕ) → x < 2 ^ 64 → nth typ x 0 ≡ x
nth_zero typ x h = omega arith

pub nth-suc : (typ x k : ℕ) → typ ≤ 2 → nth typ ((x + page_size typ) % 2 ^ 64) k ≡ nth typ x (suc k)
nth-suc zero x k t = omega arith
nth-suc (suc zero) x k t = omega arith
nth-suc (suc (suc zero)) x k t = omega arith
nth-suc (suc (suc (suc typ))) x k t = absurd (omega arith)

page_number-nth :
    (typ va k : ℕ) → page_number typ (nth typ va k) ≡ page_number typ (va + k * page_size typ)
page_number-nth typ va k =
    ap (λ (x : ℕ). x / page_size typ)
      (let e : (va + k * page_size typ) % 2 ^ 64 % 2 ^ 48 ≡ (va + k * page_size typ) % 2 ^ 48 =
          omega arith in
        e)

pub page_number_later :
    (typ va k count : ℕ)
    → typ ≤ 2
    → suc k < count
    → count * page_size typ ≤ 2 ^ 48
    → page_number typ (nth typ va (suc k)) ≢ page_number typ va
page_number_later zero va k count t l h =
    rw (page_number-nth 0 va (suc k)) (page_number_ne 0 va (suc k) t (omega arith) (omega arith))
page_number_later (suc zero) va k count t l h =
    rw (page_number-nth 1 va (suc k)) (page_number_ne 1 va (suc k) t (omega arith) (omega arith))
page_number_later (suc (suc zero)) va k count t l h =
    rw (page_number-nth 2 va (suc k)) (page_number_ne 2 va (suc k) t (omega arith) (omega arith))
page_number_later (suc (suc (suc typ))) va k count t l h = absurd (omega arith)

pub span_suc : (typ count : ℕ) → suc count * page_size typ ≤ 2 ^ 48 → count * page_size typ ≤ 2 ^ 48
span_suc typ count h = grind arith

-- No page of the mapping has a larger page where it would stand.
abbrev pub Fits : Memory → ℕ → ℕ → ℕ → ℕ → Type 0
Fits m cr3 typ va count =
    (k va' t e : ℕ)
    → k < count
    → page_number typ va' ≡ page_number typ (nth typ va k)
    → entry_of m cr3 va' ≡ some (t, e)
    → t ≤ typ

module _ {S : Type 0} (alloc : S → ℕ × S) (L : Laws alloc) (cr3 : ℕ) where
  -- The tables are a tree, and none of them is free memory.
  pub record IsPaged (w : World S) : Type 0 where
    pub good : L.Good w.pages
    pub tree : IsTree w.mem 3 (frame_of cr3)
    pub apart : (g : ℕ) → L.Free w.pages g → ¬ Owns w.mem 3 (frame_of cr3) g

  -- The address space after a mapping: the pages that were asked for, and all others as before.
  pub record Maps (w : World S) (typ va phy attr count : ℕ) (w' : World S) : Type 0 where
    pub paged : IsPaged w'
    pub hit :
        (va' k : ℕ)
        → k < count
        → page_number typ va' ≡ page_number typ (nth typ va k)
        → entry_of w'.mem cr3 va' ≡ some (typ, leaf typ (nth typ phy k) attr)
    pub miss :
        (va' : ℕ)
        → ((k : ℕ) → k < count → page_number typ va' ≢ page_number typ (nth typ va k))
        → entry_of w'.mem cr3 va' ≡ entry_of w.mem cr3 va'

  -- The mapping is made, or one of the three allocations for each page gives none.
  abbrev pub Result : World S → ℕ → ℕ → ℕ → ℕ → ℕ → Option (World S) → Type 0
  Result w typ va phy attr count none = Fails alloc L (3 * count) w.pages
  Result w typ va phy attr count (some w') = Maps w typ va phy attr count w'

  later-later : (i j : ℕ) (s : S) → later alloc L i (later alloc L j s) ≡ later alloc L (j + i) s
  later-later i zero s = ap (λ (x : ℕ). later alloc L x s) (let e : i ≡ 0 + i = omega arith in e)
  later-later i (suc j) s =
      later-later i j (alloc s).1
      ∙ ap (λ (x : ℕ). later alloc L x s) (let e : suc (j + i) ≡ suc j + i = omega arith in e)

  one-IsPaged :
      (typ va e : ℕ) (w w' : World S)
      → IsPaged w
      → Mapped alloc L w 3 typ (frame_of cr3) va e w'
      → IsPaged w'
  one-IsPaged typ va e w w' i mp = record {
    good = mp.good;
    tree = mp.tree;
    apart = λ g x o. elim (mp.owns g o) [ inl p ↦ i.apart g (mp.free g x) p | inr q ↦ q.1 x ];
  }

  -- The address space after one page.
  one_hit :
      (typ va e va' : ℕ) (w w' : World S)
      → typ ≤ 2
      → Mapped alloc L w 3 typ (frame_of cr3) va e w'
      → page_number typ va' ≡ page_number typ va
      → entry_of w'.mem cr3 va' ≡ some (typ, e)
  one_hit typ va e va' w w' t mp q = mp.hit va' (Aims-page_number typ va va' t q)

  one_miss :
      (typ va e va' : ℕ) (w w' : World S)
      → typ ≤ 2
      → Mapped alloc L w 3 typ (frame_of cr3) va e w'
      → page_number typ va' ≢ page_number typ va
      → entry_of w'.mem cr3 va' ≡ entry_of w.mem cr3 va'
  one_miss typ va e va' w w' t mp ne =
      let (k, lo, hi, d) = page_number-Parts typ va va' t ne in mp.miss va' k lo hi d

  loop_fails :
      (count typ va phy attr : ℕ) (w : World S)
      → map_from alloc 3 typ (frame_of cr3) va phy attr w ≡ none
      → mapping_loop alloc (suc count) typ cr3 va phy attr w ≡ none
  unfolding mapping_loop
  loop_fails count typ va phy attr w e = rw (e, mapping_loop) refl

  loop_step :
      (count typ va phy attr : ℕ) (w w' : World S)
      → map_from alloc 3 typ (frame_of cr3) va phy attr w ≡ some w'
      → (mapping_loop alloc (suc count) typ cr3 va phy attr w
          ≡ mapping_loop alloc count typ cr3
              ((va + page_size typ) % 2 ^ 64)
              ((phy + page_size typ) % 2 ^ 64)
              attr
              w')
  unfolding mapping_loop
  loop_step count typ va phy attr w w' e = rw (e, mapping_loop) refl

  -- The mapping of the first page and then that of the others.
  more-Result :
      (count typ va phy attr : ℕ) (w w' : World S) (r : Option (World S))
      → typ ≤ 2
      → va < 2 ^ 64
      → phy < 2 ^ 64
      → suc count * page_size typ ≤ 2 ^ 48
      → Mapped alloc L w 3 typ (frame_of cr3) va (leaf typ phy attr) w'
      → Result w' typ ((va + page_size typ) % 2 ^ 64) ((phy + page_size typ) % 2 ^ 64) attr count r
      → Result w typ va phy attr (suc count) r
  more-Result count typ va phy attr w w' none t lv lp h mp (k, l, z) =
      let (j, lj, s) = mp.steps in
      (
        j + k,
        omega arith,
        ap (λ (x : S). (alloc x).0) (sym (ap (later alloc L k) s ∙ later-later k j w.pages)) ∙ z,
      )
  more-Result count typ va phy attr w w' (some u) t lv lp h mp m =
      let first : (va' : ℕ)
          → page_number typ va' ≡ page_number typ (nth typ va 0)
          → page_number typ va' ≡ page_number typ va =
        λ va' q. q ∙ ap (page_number typ) (nth_zero typ va lv) in
      let same : (k : ℕ)
          → (page_number typ (nth typ ((va + page_size typ) % 2 ^ 64) k)
              ≡ page_number typ (nth typ va (suc k))) =
        λ k. ap (page_number typ) (nth-suc typ va k t) in
      let hits : (va' k : ℕ)
          → k < suc count
          → page_number typ va' ≡ page_number typ (nth typ va k)
          → entry_of u.mem cr3 va' ≡ some (typ, leaf typ (nth typ phy k) attr) =
        λ va' k lk q. elim (eq_or_ne k 0) [
          | inl z ↦
              let q0 = first va' (q ∙ ap (λ (x : ℕ). page_number typ (nth typ va x)) z) in
              m.miss va' (λ j lj p.
                page_number_later typ va j (suc count) t (omega arith) h
                  (sym (same j) ∙ sym p ∙ q0))
              ∙ one_hit typ va (leaf typ phy attr) va' w w' t mp q0
              ∙ ap (λ (x : ℕ). some (typ, leaf typ x attr))
                  (sym (ap (nth typ phy) z ∙ nth_zero typ phy lp))
          | inr nz ↦
              let p : k ≡ suc (k - 1) = omega arith in
              m.hit va' (k - 1) (omega arith)
                (q ∙ ap (λ (x : ℕ). page_number typ (nth typ va x)) p ∙ sym (same (k - 1)))
              ∙ ap (λ (x : ℕ). some (typ, leaf typ x attr))
                  (nth-suc typ phy (k - 1) t ∙ sym (ap (nth typ phy) p))
        ] in
      record {
        paged = m.paged;
        hit = hits;
        miss = λ va' no.
            m.miss va' (λ k lk p. no (suc k) (omega arith) (p ∙ same k))
            ∙ one_miss typ va (leaf typ phy attr) va' w w' t mp
                (λ p. no 0 (omega arith) (p ∙ sym (ap (page_number typ) (nth_zero typ va lv))));
      }

  -- The first page takes no room from the others.
  Fits-later :
      (count typ va phy attr : ℕ) (w w' : World S)
      → typ ≤ 2
      → Fits w.mem cr3 typ va (suc count)
      → Mapped alloc L w 3 typ (frame_of cr3) va (leaf typ phy attr) w'
      → Fits w'.mem cr3 typ ((va + page_size typ) % 2 ^ 64) count
  Fits-later count typ va phy attr w w' t fits mp = λ k va' x e lk q s.
      elim (eq_or_ne (page_number typ va') (page_number typ va)) [
        | inl p ↦
            let z : some (typ, leaf typ phy attr) ≡ some (x, e) =
              sym (one_hit typ va (leaf typ phy attr) va' w w' t mp p) ∙ s in
            let y : typ ≡ x = ground (arith, z) in omega arith
        | inr ne ↦
            fits (suc k) va' x e (omega arith) (q ∙ ap (page_number typ) (nth-suc typ va k t))
              (sym (one_miss typ va (leaf typ phy attr) va' w w' t mp ne) ∙ s)
      ]

  pub mapping_loop-Result :
      (count typ va phy attr : ℕ) (w : World S)
      → typ ≤ 2
      → va < 2 ^ 64
      → phy < 2 ^ 64
      → count * page_size typ ≤ 2 ^ 48
      → IsPaged w
      → Fits w.mem cr3 typ va count
      → Result w typ va phy attr count (mapping_loop alloc count typ cr3 va phy attr w)
  mapping_loop-Result zero typ va phy attr w t lv lp h i fits =
      unfold mapping_loop in
      record { paged = i; hit = λ va' k l q. absurd (omega arith); miss = λ va' no. refl }
  mapping_loop-Result (suc count) typ va phy attr w t lv lp h i fits =
      let open_here : IsOpen w.mem 3 typ (frame_of cr3) va =
        IsOpen-of_found w.mem 3 typ (frame_of cr3) va (omega arith) (λ x e q.
          fits 0 va x e (omega arith) (ap (page_number typ) (sym (nth_zero typ va lv))) q) in
      let a =
        map_from-Answers alloc L 3 typ (frame_of cr3) va phy attr w (omega arith) t
          (frame_aligned cr3) i.good i.tree i.apart open_here in
      elim (Option-cases (map_from alloc 3 typ (frame_of cr3) va phy attr w)) [
        | inl e ↦
            let (k, l, z) =
              subst (Answers alloc L w 3 typ (frame_of cr3) va (leaf typ phy attr)) e a in
            rw (loop_fails count typ va phy attr w e) (k, omega arith, z)
        | inr (w', e) ↦
            let mp = subst (Answers alloc L w 3 typ (frame_of cr3) va (leaf typ phy attr)) e a in
            rw (loop_step count typ va phy attr w w' e) (
              more-Result count typ va phy attr w w'
                (mapping_loop alloc count typ cr3 ((va + page_size typ) % 2 ^ 64)
                  ((phy + page_size typ) % 2 ^ 64) attr w')
                t lv lp h mp
                (mapping_loop-Result count typ ((va + page_size typ) % 2 ^ 64)
                  ((phy + page_size typ) % 2 ^ 64) attr w' t (omega arith) (omega arith)
                  (span_suc typ count h) (one-IsPaged typ va (leaf typ phy attr) w w' i mp)
                  (Fits-later count typ va phy attr w w' t fits mp)))
      ]
