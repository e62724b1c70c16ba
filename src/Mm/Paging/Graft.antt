-- ===== src/Mm/Paging/Graft.antt =====
-- One entry of a table of CORE/src/mm/vmm.c is written, and what is behind it.
use supernova_os.Prelude.{
  ℕ, suc, ◌+◌, ◌*◌, ◌%◌, ◌<◌, ◌≡◌, refl, sym, ◌∙◌, ◌≢◌, ◌⊎◌, inl, inr, true, none, some, arith,
  ◌==◌, Bool-cases,
}
use mathlib.Core.Path.{subst}
use supernova_os.Mm.Paging.{Memory, index, slot, is_present, is_large, frame_of, write}
use supernova_os.Mm.Paging.Tree.{
  links, Owns, Disjoint, IsTree, page_of, Same, found, index_bound, frame_aligned, Owns-Same,
  IsTree-Same, behind_ap, found_suc, found-Same,
}

pub eq_or_ne : (i j : ℕ) → (i ≡ j) ⊎ (i ≢ j)
eq_or_ne i j = elim (Bool-cases (i == j)) [
  | inl e ↦ inl (ground arith)
  | inr e ↦ inr (λ h. ground arith)
]

pub write_ne : (m : Memory) (a v k : ℕ) → k ≢ a → write m a v k ≡ m k
write_ne m a v k h = ground arith

pub write_self : (m : Memory) (a v : ℕ) → write m a v a ≡ v
write_self m a v = ground arith

-- `Q` are the pages behind the entry that is written, before and after.
module _ (n f idx : ℕ) (m m' : Memory) (Q : ℕ → Type 0) (h : f % 4096 ≡ 0) (t : IsTree m (suc n) f)
    (nf : ¬ Q f)
    (nq : (j : ℕ)
      → j < 512
      → j ≢ idx
      → links n (m (f + 8 * j)) ≡ true
      → (g : ℕ) → Owns m n (frame_of (m (f + 8 * j))) g
      → ¬ Q g)
    (ent : (j : ℕ) → j < 512 → j ≢ idx → m' (f + 8 * j) ≡ m (f + 8 * j))
    (oth : (a : ℕ) → page_of a ≢ f → ¬ Q (page_of a) → m' a ≡ m a)
    (sub : links n (m' (f + 8 * idx)) ≡ true
      → IsTree m' n (frame_of (m' (f + 8 * idx)))
        × ((g : ℕ) → Owns m' n (frame_of (m' (f + 8 * idx))) g → Q g)) where
  sub_at :
      (i : ℕ)
      → i ≡ idx
      → links n (m' (f + 8 * i)) ≡ true
      → IsTree m' n (frame_of (m' (f + 8 * i)))
        × ((g : ℕ) → Owns m' n (frame_of (m' (f + 8 * i))) g → Q g)
  sub_at i e =
      subst
        (λ (x : ℕ).
          links n (m' (f + 8 * x)) ≡ true
          → IsTree m' n (frame_of (m' (f + 8 * x)))
            × ((g : ℕ) → Owns m' n (frame_of (m' (f + 8 * x))) g → Q g))
        (sym e) sub

  links_before :
      (j : ℕ) → j < 512 → j ≢ idx → links n (m' (f + 8 * j)) ≡ true → links n (m (f + 8 * j)) ≡ true
  links_before j l ne k = subst (λ x. links n x ≡ true) (ent j l ne) k

  other-Same :
      (j : ℕ)
      → j < 512
      → j ≢ idx
      → links n (m (f + 8 * j)) ≡ true
      → Same m m' (Owns m n (frame_of (m (f + 8 * j))))
  other-Same j l ne k a p =
      oth a (λ e. (t j l k).1 (subst (Owns m n (frame_of (m (f + 8 * j)))) e p))
        (nq j l ne k (page_of a) p)

  other_Owns :
      (j : ℕ)
      → j < 512
      → j ≢ idx
      → links n (m' (f + 8 * j)) ≡ true
      → (g : ℕ) → Owns m' n (frame_of (m' (f + 8 * j))) g
      → Owns m n (frame_of (m (f + 8 * j))) g
  other_Owns j l ne k g o =
      Owns-Same n (frame_of (m (f + 8 * j))) m m' (frame_aligned (m (f + 8 * j)))
        (other-Same j l ne (links_before j l ne k)) g
        (subst (λ x. Owns m' n (frame_of x) g) (ent j l ne) o)

  pub graft_Owns : (g : ℕ) → Owns m' (suc n) f g → Owns m (suc n) f g ⊎ Q g
  graft_Owns g (inl e) = inl (inl e)
  graft_Owns g (inr (i, l, k, o)) = elim (eq_or_ne i idx) [
    | inl e ↦ inr ((sub_at i e k).1 g o)
    | inr ne ↦ inl (inr (i, l, links_before i l ne k, other_Owns i l ne k g o))
  ]

  graft_apart :
      (i : ℕ)
      → i < 512
      → i ≢ idx
      → links n (m' (f + 8 * i)) ≡ true
      → (j : ℕ) → j < 512
      → j ≢ i
      → links n (m' (f + 8 * j)) ≡ true
      → Disjoint m' n (m' (f + 8 * i)) (m' (f + 8 * j))
  graft_apart i l ne k j lj nj kj g o o' =
      let k' = links_before i l ne k in
      elim (eq_or_ne j idx) [
        | inl e ↦ nq i l ne k' g (other_Owns i l ne k g o) ((sub_at j e kj).1 g o')
        | inr nej ↦
            (t i l k').2 j lj nj (links_before j lj nej kj) g (other_Owns i l ne k g o)
              (other_Owns j lj nej kj g o')
      ]

  pub graft-IsTree : IsTree m' (suc n) f
  graft-IsTree i l k = elim (eq_or_ne i idx) [
    | inl e ↦
        let (deep, inside) = sub_at i e k in
        (
          deep,
          λ o. nf (inside f o),
          λ j lj nj kj g o o'.
              let nej : j ≢ idx = λ q. nj (q ∙ sym e) in
              nq j lj nej (links_before j lj nej kj) g (other_Owns j lj nej kj g o') (inside g o),
        )
    | inr ne ↦
        let k' = links_before i l ne k in
        (
          subst (λ x. IsTree m' n (frame_of x)) (sym (ent i l ne))
              (IsTree-Same n (frame_of (m (f + 8 * i))) m m' (frame_aligned (m (f + 8 * i)))
                (other-Same i l ne k') (t i l k').0),
          λ o. (t i l k').1 (other_Owns i l ne k f o),
          graft_apart i l ne k,
        )
  ]

  -- A search that takes another entry finds what it found.
  pub graft-found : (va : ℕ) → index (suc n) va ≢ idx → found m' (suc n) f va ≡ found m (suc n) f va
  graft-found va ne =
      let i = index (suc n) va in
      let a = slot (suc n) f va in
      let l = index_bound (suc n) va in
      found_suc m' n f va (m a) (ent i l ne)
      ∙ behind_ap (is_present (m a)) (is_large n (m a)) none (some (suc n, m a))
          (found m' n (frame_of (m a)) va) (found m n (frame_of (m a)) va)
          (λ k. found-Same n (frame_of (m a)) va m m' (frame_aligned (m a)) (other-Same i l ne k))
      ∙ sym (found_suc m n f va (m a) refl)
