-- ===== src/Mm/Paging/Round.antt =====
-- One round of virtual_mapping of CORE/src/mm/vmm.c, from the PML4 down.
use supernova_os.Prelude.{
  ℕ, zero, suc, ◌+◌, ◌*◌, ◌%◌, ◌^◌, ◌≤◌, ◌<◌, ◌≡◌, refl, sym, ap, ◌∙◌, ◌≢◌, ◌⊎◌, inl, inr, true,
  false, ◌&&◌, Option, none, some, arith, ltb, ◌==◌, Bool-cases,
}
use mathlib.Core.Path.{subst}
use supernova_os.Mm.Paging.{
  Memory, World, index, slot, is_present, is_large, frame_of, write, table_entry, ensure_table,
  map_from,
}
use supernova_os.Mm.Paging.Tree.{
  links, Owns, IsTree, page_of, found, index_bound, page_of-entry, frame_aligned, found_suc,
}
use supernova_os.Mm.Paging.Fresh.{
  Laws, IsBlank, blank_Owns, blank-IsTree, blank_found, linked, linked-IsBlank, linked_entry,
  linked_others, linked_elsewhere, table_entry_frame, table_entry-links,
}
use supernova_os.Mm.Paging.Refine.{leaf, IsOpen, later, Taken, Answers, page-Mapped, large-Mapped}
use supernova_os.Mm.Paging.Deepen.{deepen-Mapped}

links_parts : (n e : ℕ) → is_present e ≡ true → is_large n e ≡ false → links n e ≡ true
links_parts n e p l = rw (p, l) refl

pub parts_links : (n e : ℕ) → links n e ≡ true → (is_present e ≡ true) × (is_large n e ≡ false)
parts_links n e k = elim (Bool-cases (is_present e)) [
  | inl p ↦ (p, elim (Bool-cases (is_large n e)) [ inl l ↦ absurd (ground arith) | inr l ↦ l ])
  | inr p ↦ absurd (ground arith)
]

module _ {S : Type 0} (alloc : S → ℕ × S) (L : Laws alloc) where
  -- Below an entry that leads to a table.
  present-Answers :
      (n typ f va e : ℕ) (w : World S) (r : Option (World S))
      → typ ≤ n
      → f % 4096 ≡ 0
      → IsTree w.mem (suc n) f
      → ((g : ℕ) → L.Free w.pages g → ¬ Owns w.mem (suc n) f g)
      → links n (w.mem (slot (suc n) f va)) ≡ true
      → Answers alloc L w n typ (frame_of (w.mem (slot (suc n) f va))) va e r
      → Answers alloc L w (suc n) typ f va e r
  present-Answers n typ f va e w none tn h t fr k (j, lj, x) = (j, omega arith, x)
  present-Answers n typ f va e w (some w') tn h t fr k mp =
      let i = index (suc n) va in
      let li = index_bound (suc n) va in
      let a = slot (suc n) f va in
      let c = w.mem a in
      let (deep, root, apart) = t i li k in
      let Q : ℕ → Type 0 = λ g. Owns w.mem n (frame_of c) g ⊎ Taken alloc L w.pages w'.pages g in
      let nf : ¬ Q f = λ q. elim q [ inl o ↦ root o | inr x ↦ fr f x.0 (inl refl) ] in
      let at_f : (j : ℕ) → j < 512 → w'.mem (f + 8 * j) ≡ w.mem (f + 8 * j) = λ j lj.
        mp.kept (f + 8 * j)
          (λ o. root (subst (Owns w.mem n (frame_of c)) (page_of-entry f j h lj) o))
          (λ x. fr f (subst (L.Free w.pages) (page_of-entry f j h lj) x.0) (inl refl)) in
      deepen-Mapped alloc L w w' n typ f va e c Q h tn mp.good (mp.steps.0, omega arith, mp.steps.2)
        mp.free t nf
        (λ j lj nj kj g o q. elim q [
          | inl o' ↦ apart j lj nj kj g o' o
          | inr x ↦ fr g x.0 (inr (j, lj, kj, o))
        ])
        (λ g q. elim q [ inl o ↦ inl (inr (i, li, k, o)) | inr x ↦ inr x ]) (λ j lj nj. at_f j lj)
        (λ b nb nq. mp.kept b (λ o. nq (inl o)) (λ x. nq (inr x))) (at_f i li) (parts_links n c k)
        mp.tree mp.owns mp.hit
        (λ va' k' lo hi q ne.
          mp.miss va' k' lo hi ne
          ∙ sym (
              found_suc w.mem n f va' c (ap (λ (i : ℕ). w.mem (f + 8 * i)) q)
              ∙ rw ((parts_links n c k).0, (parts_links n c k).1) refl))

  -- Below an entry for which a table was made.
  fresh-Answers :
      (n typ f va e p : ℕ) (s : S) (w : World S) (r : Option (World S))
      → typ ≤ n
      → f % 4096 ≡ 0
      → L.Good w.pages
      → IsTree w.mem (suc n) f
      → ((g : ℕ) → L.Free w.pages g → ¬ Owns w.mem (suc n) f g)
      → is_present (w.mem (slot (suc n) f va)) ≡ false
      → (alloc w.pages).0 ≢ 0
      → p ≡ (alloc w.pages).0
      → s ≡ (alloc w.pages).1
      → Answers alloc L
          (record { mem = linked w.mem (slot (suc n) f va) p; pages = s })
          n
          typ
          p
          va
          e
          r
      → Answers alloc L w (suc n) typ f va e r
  fresh-Answers n typ f va e p s w none tn h good t fr np nz pe se (j, lj, x) =
      (suc j, omega arith, subst (λ y. (alloc (later alloc L j y)).0 ≡ 0) se x)
  fresh-Answers n typ f va e p s w (some w') tn h good t fr np nz pe se mp =
      let i = index (suc n) va in
      let li = index_bound (suc n) va in
      let a = slot (suc n) f va in
      let c = table_entry p in
      let hp : p % 4096 ≡ 0 = rw pe (L.aligned w.pages good) in
      let lp : p < 2 ^ 63 = rw pe (L.small w.pages good) in
      let m1 : Memory = linked w.mem a p in
      let was : L.Free w.pages p = rw pe (L.was_free w.pages good nz) in
      let gone : (g : ℕ) → L.Free s g → L.Free w.pages g × (g ≢ p) =
        λ g x. rw pe (L.taken w.pages good nz g (subst (λ y. L.Free y g) se x)) in
      let fp : f ≢ p = λ q. fr p was (inl (sym q)) in
      let Q : ℕ → Type 0 = Taken alloc L w.pages w'.pages in
      let new : (g : ℕ) → g ≡ p → Q g =
        λ g q. subst Q (sym q) (was, λ x. (gone p (mp.free p x)).1 refl) in
      let up : (g : ℕ) → Taken alloc L s w'.pages g → Q g = λ g x. ((gone g x.0).0, x.1) in
      let blank : IsBlank m1 p = linked-IsBlank w.mem f i p h li hp fp in
      let at_f : (j : ℕ) → j < 512 → w'.mem (f + 8 * j) ≡ m1 (f + 8 * j) = λ j lj.
        mp.kept (f + 8 * j)
          (λ o. fp (sym (page_of-entry f j h lj) ∙ blank_Owns m1 n p (page_of (f + 8 * j)) blank o))
          (λ x.
            fr f
              (subst (L.Free w.pages) (page_of-entry f j h lj) (gone (page_of (f + 8 * j)) x.0).0)
              (inl refl)) in
      let fc : frame_of c ≡ p = table_entry_frame p hp lp in
      deepen-Mapped alloc L w w' n typ f va e c Q h tn mp.good
        (
          suc mp.steps.0,
          omega arith,
          subst (λ y. w'.pages ≡ later alloc L mp.steps.0 y) se mp.steps.2,
        )
        (λ g x. (gone g (mp.free g x)).0) t (λ x. fr f x.0 (inl refl))
        (λ j lj nj kj g o x. fr g x.0 (inr (j, lj, kj, o))) (λ g x. inr x)
        (λ j lj nj. at_f j lj ∙ linked_others w.mem f i p h li hp fp j lj nj)
        (λ b nb nq.
          mp.kept b (λ o. nq (new (page_of b) (blank_Owns m1 n p (page_of b) blank o)))
            (λ x. nq (up (page_of b) x))
          ∙ linked_elsewhere w.mem f i p h li hp fp b nb (λ q. nq (new (page_of b) q)))
        (at_f i li ∙ linked_entry w.mem f i p h li hp fp)
        (parts_links n c (table_entry-links n p hp)) (rw fc mp.tree)
        (λ g o. elim (mp.owns g (subst (λ x. Owns w'.mem n x g) fc o)) [
          | inl q ↦ new g (blank_Owns m1 n p g blank q)
          | inr x ↦ up g x
        ])
        (λ va' aim. rw fc (mp.hit va' aim))
        (λ va' k lo hi q ne.
          ap (λ (x : ℕ). found w'.mem n x va') fc
          ∙ mp.miss va' k lo hi ne
          ∙ blank_found m1 n p va' blank
          ∙ sym (
              found_suc w.mem n f va' (w.mem a) (ap (λ (i : ℕ). w.mem (f + 8 * i)) q) ∙ rw np refl))

  step_here :
      (n typ f va phy attr : ℕ) (w : World S)
      → (suc n == typ && ltb n 2) ≡ true
      → (map_from alloc (suc n) typ f va phy attr w
          ≡ some (record w { mem = write w.mem (slot (suc n) f va) (leaf (suc n) phy attr) }))
  unfolding map_from
  step_here n typ f va phy attr w q = rw q refl

  step_on :
      (n typ f va phy attr : ℕ) (w w' : World S)
      → (suc n == typ && ltb n 2) ≡ false
      → ensure_table alloc w (slot (suc n) f va) ≡ some w'
      → (map_from alloc (suc n) typ f va phy attr w
          ≡ map_from alloc n typ (frame_of (w'.mem (slot (suc n) f va))) va phy attr w')
  unfolding map_from
  step_on n typ f va phy attr w w' q s = rw (q, s) refl

  step_fails :
      (n typ f va phy attr : ℕ) (w : World S)
      → (suc n == typ && ltb n 2) ≡ false
      → ensure_table alloc w (slot (suc n) f va) ≡ none
      → map_from alloc (suc n) typ f va phy attr w ≡ none
  unfolding map_from
  step_fails n typ f va phy attr w q s = rw (q, s) refl

  blank-IsOpen : (m : Memory) (n typ p va : ℕ) → IsBlank m p → IsOpen m n typ p va
  blank-IsOpen m zero typ p va b = tt
  blank-IsOpen m (suc n) typ p va b =
      λ ne k. absurd (ground (arith, b (index (suc n) va) (index_bound (suc n) va)))

  -- Below the PML4, or a table further down, the page is mapped, or a page for a table is missing.
  pub map_from-Answers :
      (n typ f va phy attr : ℕ) (w : World S)
      → typ ≤ n
      → typ ≤ 2
      → f % 4096 ≡ 0
      → L.Good w.pages
      → IsTree w.mem n f
      → ((g : ℕ) → L.Free w.pages g → ¬ Owns w.mem n f g)
      → IsOpen w.mem n typ f va
      → Answers alloc L w n typ f va (leaf typ phy attr) (map_from alloc n typ f va phy attr w)
  map_from-Answers zero typ f va phy attr w tn t2 h good t fr op =
      let z : typ ≡ 0 = omega arith in
      unfold map_from in rw z (page-Mapped alloc L 0 f va phy attr w refl h good)
  map_from-Answers (suc n) typ f va phy attr w tn t2 h good t fr op =
      let a = slot (suc n) f va in
      elim (Bool-cases (suc n == typ && ltb n 2)) [
        | inl q ↦
            let z : typ ≡ suc n = ground arith in
            rw (step_here n typ f va phy attr w q, z)
              (large-Mapped alloc L n (suc n) f va phy attr w refl (omega arith) h good t)
        | inr q ↦
            let tn' : typ ≤ n = ground arith in
            elim (Bool-cases (is_present (w.mem a))) [
              | inl p ↦
                  let s : ensure_table alloc w a ≡ some w = unfold ensure_table in rw p refl in
                  let (small, below) = op (λ z. absurd (omega arith)) p in
                  let k = links_parts n (w.mem a) p small in
                  rw (step_on n typ f va phy attr w w q s) (
                    present-Answers n typ f va (leaf typ phy attr) w
                      (map_from alloc n typ (frame_of (w.mem a)) va phy attr w) tn' h t fr k
                      (map_from-Answers n typ (frame_of (w.mem a)) va phy attr w tn' t2
                        (frame_aligned (w.mem a)) good
                        (t (index (suc n) va) (index_bound (suc n) va) k).0
                        (λ g x o. fr g x (inr (index (suc n) va, index_bound (suc n) va, k, o)))
                        below))
              | inr p ↦
                  let r = alloc w.pages in
                  let good' = L.keeps w.pages good in
                  elim (Bool-cases (r.0 == 0)) [
                    | inl z ↦
                        let s : ensure_table alloc w a ≡ none =
                          unfold ensure_table in rw (p, z) refl in
                        rw (step_fails n typ f va phy attr w q s) (0, omega arith, ground arith)
                    | inr z ↦
                        let w1 : World S = record { mem = linked w.mem a r.0; pages = r.1 } in
                        let s : ensure_table alloc w a ≡ some w1 =
                          unfold ensure_table in rw (p, z) refl in
                        let nz : r.0 ≢ 0 = λ x. ground arith in
                        let hp = L.aligned w.pages good in
                        let fp : f ≢ r.0 = λ x. fr r.0 (L.was_free w.pages good nz) (inl (sym x)) in
                        let i = index (suc n) va in
                        let li = index_bound (suc n) va in
                        let blank = linked-IsBlank w.mem f i r.0 h li hp fp in
                        let e : frame_of (w1.mem a) ≡ r.0 =
                          ap frame_of (linked_entry w.mem f i r.0 h li hp fp)
                          ∙ table_entry_frame r.0 hp (L.small w.pages good) in
                        rw (step_on n typ f va phy attr w w1 q s, e)
                          (fresh-Answers n typ f va (leaf typ phy attr) r.0 r.1 w
                            (map_from alloc n typ r.0 va phy attr w1) tn' h good t fr p nz refl refl
                            (map_from-Answers n typ r.0 va phy attr w1 tn' t2 hp good'
                              (blank-IsTree w1.mem n r.0 blank)
                              (λ g x o.
                                (L.taken w.pages good nz g x).1 (blank_Owns w1.mem n r.0 g blank o))
                              (blank-IsOpen w1.mem n typ r.0 va blank)))
                  ]
            ]
      ]
