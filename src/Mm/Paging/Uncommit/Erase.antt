-- ===== src/Mm/Paging/Uncommit/Erase.antt =====
-- The entry that `vmm_uncommit` of CORE/src/mm/vmm.c clears in the tables.
use supernova_os.Prelude.{
  ℕ, zero, suc, ◌+◌, ◌*◌, ◌%◌, ◌≤◌, ◌<◌, ◌≡◌, refl, sym, ap, ◌∙◌, ◌≢◌, ◌⊎◌, inl, inr, true, none,
  some, arith, Bool-cases,
}
use mathlib.Core.Path.{subst}
use supernova_os.Mm.Paging.{Memory, index, slot, is_present, is_large, frame_of, write, search_from}
use supernova_os.Mm.Paging.Tree.{
  links, Owns, IsTree, page_of, found, index_bound, page_of-entry, frame_aligned, found_zero,
  found_suc,
}
use supernova_os.Mm.Paging.Graft.{
  eq_or_ne, write_ne, write_self, graft_Owns, graft-IsTree, graft-found,
}
use supernova_os.Mm.Paging.Refine.{Aims}
use supernova_os.Mm.Paging.Round.{parts_links}

-- The page of type `t` that `va` was found in is gone, and all else is found as before.
pub record Erased (m : Memory) (n f va t : ℕ) (m' : Memory) : Type 0 where
  pub tree : IsTree m' n f
  pub owns : (g : ℕ) → Owns m' n f g → Owns m n f g
  pub kept : (a : ℕ) → ¬ Owns m n f (page_of a) → m' a ≡ m a
  pub hit : (va' : ℕ) → Aims n t va va' → found m' n f va' ≡ none
  pub miss :
      (va' k : ℕ) → t ≤ k → k ≤ n → index k va' ≢ index k va → found m' n f va' ≡ found m n f va'

page-Erased : (m : Memory) (f va : ℕ) → f % 4096 ≡ 0 → Erased m 0 f va 0 (write m (slot 0 f va) 0)
page-Erased m f va h =
    let a = slot 0 f va in
    record {
      tree = tt;
      owns = λ g o. o;
      kept = λ k no.
          write_ne m a 0 k
            (λ q. no (ap page_of q ∙ page_of-entry f (index 0 va) h (index_bound 0 va)));
      hit = λ va' aim. found_zero (write m a 0) f va' 0 (
          ap (λ (i : ℕ). write m a 0 (f + 8 * i)) (aim 0 (omega arith) (omega arith))
          ∙ write_self m a 0);
      miss = λ va' k lo hi ne.
          let k0 : k ≡ 0 = omega arith in
          let ne0 : index 0 va' ≢ index 0 va = subst (λ (x : ℕ). index x va' ≢ index x va) k0 ne in
          found_zero (write m a 0) f va' (m (slot 0 f va'))
            (write_ne m a 0 (slot 0 f va') (λ q. ne0 (omega arith)))
          ∙ sym (found_zero m f va' (m (slot 0 f va')) refl);
    }

large-Erased :
    (m : Memory) (n f va : ℕ)
    → f % 4096 ≡ 0
    → IsTree m (suc n) f
    → Erased m (suc n) f va (suc n) (write m (slot (suc n) f va) 0)
large-Erased m n f va h t =
    let i = index (suc n) va in
    let li = index_bound (suc n) va in
    let a = slot (suc n) f va in
    let m' : Memory = write m a 0 in
    let here : m' a ≡ 0 = write_self m a 0 in
    let shut : links n (m' a) ≢ true = λ k. ground (arith, subst (λ x. links n x ≡ true) here k) in
    let oth : (k : ℕ) → page_of k ≢ f → ¬ ⊥ → m' k ≡ m k =
      λ k np nq. write_ne m a 0 k (λ q. np (ap page_of q ∙ page_of-entry f i h li)) in
    let ent : (j : ℕ) → j < 512 → j ≢ i → m' (f + 8 * j) ≡ m (f + 8 * j) =
      λ j lj nj. write_ne m a 0 (f + 8 * j) (λ q. nj (omega arith)) in
    record {
      tree =
          graft-IsTree n f i m m' (λ g. ⊥) h t (λ x. x) (λ j lj nj kj g o x. x) ent oth
            (λ k. absurd (shut k));
      owns = λ g o.
          elim (graft_Owns n f i m m' (λ g. ⊥) h t (λ x. x) (λ j lj nj kj g o x. x) ent oth
            (λ k. absurd (shut k)) g o) [ inl p ↦ p | inr q ↦ absurd q ];
      kept = λ k no. oth k (λ q. no (inl q)) (λ x. x);
      hit = λ va' aim.
          found_suc m' n f va' 0
            (ap (λ (i : ℕ). m' (f + 8 * i)) (aim (suc n) (omega arith) (omega arith)) ∙ here);
      miss = λ va' k lo hi ne.
          let k0 : k ≡ suc n = omega arith in
          graft-found n f i m m' (λ g. ⊥) h t (λ x. x) (λ j lj nj kj g o x. x) ent oth
            (λ k. absurd (shut k)) va' (subst (λ (x : ℕ). index x va' ≢ index x va) k0 ne);
    }

-- A table above the one in which the entry was cleared.
module _ (m m' : Memory) (n f va t : ℕ) (h : f % 4096 ≡ 0) (tr : IsTree m (suc n) f) (tn : t ≤ n)
    (k : links n (m (slot (suc n) f va)) ≡ true)
    (er : Erased m n (frame_of (m (slot (suc n) f va))) va t m') where
  at_f : (j : ℕ) → j < 512 → m' (f + 8 * j) ≡ m (f + 8 * j)
  at_f j lj = er.kept (f + 8 * j) (λ o.
      (tr (index (suc n) va) (index_bound (suc n) va) k).1
        (subst (Owns m n (frame_of (m (slot (suc n) f va)))) (page_of-entry f j h lj) o))

  -- The search comes to the same table.
  found_below :
      (u : Memory) (va' : ℕ)
      → u (slot (suc n) f va) ≡ m (slot (suc n) f va)
      → index (suc n) va' ≡ index (suc n) va
      → found u (suc n) f va' ≡ found u n (frame_of (m (slot (suc n) f va))) va'
  found_below u va' e q =
      let c = m (slot (suc n) f va) in
      found_suc u n f va' c (ap (λ (i : ℕ). u (f + 8 * i)) q ∙ e)
      ∙ rw ((parts_links n c k).0, (parts_links n c k).1) refl

  above-Erased : Erased m (suc n) f va t m'
  above-Erased =
      let i = index (suc n) va in
      let li = index_bound (suc n) va in
      let c = m (slot (suc n) f va) in
      let Q : ℕ → Type 0 = Owns m n (frame_of c) in
      let nq : (j : ℕ)
          → j < 512
          → j ≢ i
          → links n (m (f + 8 * j)) ≡ true
          → (g : ℕ) → Owns m n (frame_of (m (f + 8 * j))) g
          → ¬ Q g =
        λ j lj nj kj g o q. (tr i li k).2 j lj nj kj g q o in
      let ent : (j : ℕ) → j < 512 → j ≢ i → m' (f + 8 * j) ≡ m (f + 8 * j) = λ j lj nj. at_f j lj in
      let oth : (a : ℕ) → page_of a ≢ f → ¬ Q (page_of a) → m' a ≡ m a =
        λ a nf nq'. er.kept a nq' in
      let sub : links n (m' (f + 8 * i)) ≡ true
          → IsTree m' n (frame_of (m' (f + 8 * i)))
            × ((g : ℕ) → Owns m' n (frame_of (m' (f + 8 * i))) g → Q g) =
        λ k'. rw (at_f i li) (er.tree, er.owns) in
      record {
        tree = graft-IsTree n f i m m' Q h tr (tr i li k).1 nq ent oth sub;
        owns = λ g o. elim (graft_Owns n f i m m' Q h tr (tr i li k).1 nq ent oth sub g o) [
          | inl p ↦ p
          | inr q ↦ inr (i, li, k, q)
        ];
        kept = λ a no. er.kept a (λ o. no (inr (i, li, k, o)));
        hit = λ va' aim.
            found_below m' va' (at_f i li) (aim (suc n) (omega arith) (omega arith))
            ∙ er.hit va' (λ j lo hi. aim j lo (omega arith));
        miss = λ va' j lo hi ne. elim (eq_or_ne (index (suc n) va') i) [
          | inl q ↦
              let jn : j ≢ suc n =
                λ s. ne (ap (λ (x : ℕ). index x va') s ∙ q ∙ sym (ap (λ (x : ℕ). index x va) s)) in
              found_below m' va' (at_f i li) q
              ∙ er.miss va' j lo (omega arith) ne
              ∙ sym (found_below m va' refl q)
          | inr q ↦ graft-found n f i m m' Q h tr (tr i li k).1 nq ent oth sub va' q
        ];
      }

search_zero :
    (m : Memory) (f va t a : ℕ) → search_from m 0 f va ≡ some (t, a) → (t ≡ 0) × (a ≡ slot 0 f va)
unfolding search_from
search_zero m f va t a e = elim (Bool-cases (is_present (m (slot 0 f va)))) [
  | inl p ↦ ground (arith, e)
  | inr p ↦ absurd (ground (arith, e))
]

search_cases :
    (m : Memory) (n f va t a : ℕ)
    → search_from m (suc n) f va ≡ some (t, a)
    → ((t ≡ suc n) × (a ≡ slot (suc n) f va))
      ⊎ ((links n (m (slot (suc n) f va)) ≡ true)
          × (search_from m n (frame_of (m (slot (suc n) f va))) va ≡ some (t, a)))
unfolding search_from
search_cases m n f va t a =
    let c = m (slot (suc n) f va) in
    elim (Bool-cases (is_present c)) [
      | inr p ↦ rw p (λ e. absurd (ground (arith, e)))
      | inl p ↦ elim (Bool-cases (is_large n c)) [
        | inl l ↦ rw (p, l) (λ e. inl (ground (arith, e)))
        | inr l ↦ rw (p, l) (λ e. inr (refl, e))
      ]
    ]

-- The entry that a search finds is cleared.
pub search-Erased :
    (m : Memory) (n f va t a : ℕ)
    → f % 4096 ≡ 0
    → IsTree m n f
    → search_from m n f va ≡ some (t, a)
    → (t ≤ n) × Erased m n f va t (write m a 0)
search-Erased m zero f va t a h tr e =
    let (tz, az) = search_zero m f va t a e in
    (
      omega arith,
      subst (λ (x : ℕ). Erased m 0 f va x (write m a 0)) (sym tz)
          (subst (λ (x : ℕ). Erased m 0 f va 0 (write m x 0)) (sym az) (page-Erased m f va h)),
    )
search-Erased m (suc n) f va t a h tr e = elim (search_cases m n f va t a e) [
  | inl (tz, az) ↦ (
    omega arith,
    subst (λ (x : ℕ). Erased m (suc n) f va x (write m a 0)) (sym tz)
        (subst (λ (x : ℕ). Erased m (suc n) f va (suc n) (write m x 0)) (sym az)
          (large-Erased m n f va h tr)),
  )
  | inr (k, s) ↦
      let c = m (slot (suc n) f va) in
      let (tn, er) =
        search-Erased m n (frame_of c) va t a (frame_aligned c)
          (tr (index (suc n) va) (index_bound (suc n) va) k).0 s in
      (omega arith, above-Erased m (write m a 0) n f va t h tr tn k er)
]
