-- ===== src/Mm/Paging/Refine.antt =====
-- What one round of virtual_mapping of CORE/src/mm/vmm.c does to the tables.
use supernova_os.Prelude.{
  ℕ, zero, suc, ◌+◌, ◌*◌, ◌%◌, ◌≤◌, ◌<◌, ◌≡◌, refl, sym, ap, ◌∙◌, ◌≢◌, ◌⊎◌, inl, inr, true, false,
  Option, none, some, arith,
}
use mathlib.Core.Path.{subst}
use supernova_os.Mm.Paging.{
  Memory, World, index, slot, is_present, is_large, frame_of, write, page_entry, modify_page_attr,
}
use supernova_os.Mm.Paging.Tree.{
  links, Owns, IsTree, page_of, found, index_bound, page_of-entry, found_zero, found_suc,
}
use supernova_os.Mm.Paging.Graft.{write_ne, write_self, graft_Owns, graft-IsTree, graft-found}
use supernova_os.Mm.Paging.Fresh.{Laws}

-- The entry of a page of a level.
abbrev pub leaf : ℕ → ℕ → ℕ → ℕ
leaf n phy attr = modify_page_attr (page_entry n phy) attr

leaf_present : (n phy attr : ℕ) → is_present (leaf n phy attr) ≡ true
leaf_present zero phy attr = ground arith
leaf_present (suc n) phy attr = ground arith

leaf_large : (n phy attr : ℕ) → n < 2 → is_large n (leaf (suc n) phy attr) ≡ true
leaf_large n phy attr h = ground arith

-- The two addresses take the same entries from level n down to that of the page.
abbrev pub Aims : ℕ → ℕ → ℕ → ℕ → Type 0
Aims n typ va va' = (k : ℕ) → typ ≤ k → k ≤ n → index k va' ≡ index k va

-- No larger page stands on the way to the level of the page.
abbrev pub IsOpen : Memory → ℕ → ℕ → ℕ → ℕ → Type 0
IsOpen m zero typ f va = Unit {0}
IsOpen m (suc n) typ f va =
    suc n ≢ typ
    → is_present (m (slot (suc n) f va)) ≡ true
    → (is_large n (m (slot (suc n) f va)) ≡ false)
      × IsOpen m n typ (frame_of (m (slot (suc n) f va))) va

module _ {S : Type 0} (alloc : S → ℕ × S) (L : Laws alloc) where
  abbrev pub later : ℕ → S → S
  later zero s = s
  later (suc k) s = later k (alloc s).1

  -- One of the next n allocations gives no page.
  abbrev pub Fails : ℕ → S → Type 0
  Fails n s = (k : ℕ) × (k < n) × ((alloc (later k s)).0 ≡ 0)

  -- The page was taken meanwhile.
  abbrev pub Taken : S → S → ℕ → Type 0
  Taken s s' g = L.Free s g × ¬ L.Free s' g

  -- The entry for `va` is new, and all else is found as before.
  pub record Mapped (w : World S) (n typ f va e : ℕ) (w' : World S) : Type 0 where
    pub good : L.Good w'.pages
    pub steps : (j : ℕ) × (j ≤ n) × (w'.pages ≡ later j w.pages)
    pub free : (g : ℕ) → L.Free w'.pages g → L.Free w.pages g
    pub tree : IsTree w'.mem n f
    pub owns : (g : ℕ) → Owns w'.mem n f g → Owns w.mem n f g ⊎ Taken w.pages w'.pages g
    pub kept :
        (a : ℕ)
        → ¬ Owns w.mem n f (page_of a)
        → ¬ Taken w.pages w'.pages (page_of a)
        → w'.mem a ≡ w.mem a
    pub hit : (va' : ℕ) → Aims n typ va va' → found w'.mem n f va' ≡ some (typ, e)
    pub miss :
        (va' k : ℕ)
        → typ ≤ k
        → k ≤ n
        → index k va' ≢ index k va
        → found w'.mem n f va' ≡ found w.mem n f va'

  abbrev pub Answers : World S → ℕ → ℕ → ℕ → ℕ → ℕ → Option (World S) → Type 0
  Answers w n typ f va e none = Fails n w.pages
  Answers w n typ f va e (some w') = Mapped w n typ f va e w'

  pub page-Mapped :
      (typ f va phy attr : ℕ) (w : World S)
      → typ ≡ 0
      → f % 4096 ≡ 0
      → L.Good w.pages
      → Mapped w 0 typ f va
          (leaf 0 phy attr)
          (record w { mem = write w.mem (slot 0 f va) (leaf 0 phy attr) })
  page-Mapped typ f va phy attr w z h good =
      let e = leaf 0 phy attr in
      let a = slot 0 f va in
      record {
        good = good;
        steps = (0, omega arith, refl);
        free = λ g x. x;
        tree = tt;
        owns = λ g o. inl o;
        kept = λ k no nt.
            write_ne w.mem a e k
              (λ q. no (ap page_of q ∙ page_of-entry f (index 0 va) h (index_bound 0 va)));
        hit = λ va' aim.
            found_zero (write w.mem a e) f va' e (
              ap (λ (i : ℕ). write w.mem a e (f + 8 * i)) (aim 0 (omega arith) (omega arith))
              ∙ write_self w.mem a e)
            ∙ rw (leaf_present 0 phy attr, z) refl;
        miss = λ va' k lo hi ne.
            let k0 : k ≡ 0 = omega arith in
            let ne0 : index 0 va' ≢ index 0 va =
              subst (λ (x : ℕ). index x va' ≢ index x va) k0 ne in
            found_zero (write w.mem a e) f va' (w.mem (slot 0 f va'))
              (write_ne w.mem a e (slot 0 f va') (λ q. ne0 (omega arith)))
            ∙ sym (found_zero w.mem f va' (w.mem (slot 0 f va')) refl);
      }

  pub large-Mapped :
      (n typ f va phy attr : ℕ) (w : World S)
      → typ ≡ suc n
      → n < 2
      → f % 4096 ≡ 0
      → L.Good w.pages
      → IsTree w.mem (suc n) f
      → Mapped w
          (suc n)
          typ
          f
          va
          (leaf (suc n) phy attr)
          (record w { mem = write w.mem (slot (suc n) f va) (leaf (suc n) phy attr) })
  large-Mapped n typ f va phy attr w z l2 h good t =
      let e = leaf (suc n) phy attr in
      let i = index (suc n) va in
      let li = index_bound (suc n) va in
      let a = slot (suc n) f va in
      let m' : Memory = write w.mem a e in
      let here : m' a ≡ e = write_self w.mem a e in
      let shut : links n (m' a) ≢ true =
        λ k. ground (arith, subst (λ x. links n x ≡ true) here k, leaf_large n phy attr l2) in
      let oth : (k : ℕ) → page_of k ≢ f → ¬ ⊥ → m' k ≡ w.mem k =
        λ k np nq. write_ne w.mem a e k (λ q. np (ap page_of q ∙ page_of-entry f i h li)) in
      let ent : (j : ℕ) → j < 512 → j ≢ i → m' (f + 8 * j) ≡ w.mem (f + 8 * j) =
        λ j lj nj. write_ne w.mem a e (f + 8 * j) (λ q. nj (omega arith)) in
      record {
        good = good;
        steps = (0, omega arith, refl);
        free = λ g x. x;
        tree =
            graft-IsTree n f i w.mem m' (λ g. ⊥) h t (λ x. x) (λ j lj nj kj g o x. x) ent oth
              (λ k. absurd (shut k));
        owns = λ g o.
            elim (graft_Owns n f i w.mem m' (λ g. ⊥) h t (λ x. x) (λ j lj nj kj g o x. x) ent oth
              (λ k. absurd (shut k)) g o) [ inl p ↦ inl p | inr q ↦ absurd q ];
        kept = λ k no nt. oth k (λ q. no (inl q)) (λ x. x);
        hit = λ va' aim.
            found_suc m' n f va' e
              (ap (λ (i : ℕ). m' (f + 8 * i)) (aim (suc n) (omega arith) (omega arith)) ∙ here)
            ∙ rw (leaf_present (suc n) phy attr, leaf_large n phy attr l2, z) refl;
        miss = λ va' k lo hi ne.
            let k0 : k ≡ suc n = omega arith in
            graft-found n f i w.mem m' (λ g. ⊥) h t (λ x. x) (λ j lj nj kj g o x. x) ent oth
              (λ k. absurd (shut k)) va' (subst (λ (x : ℕ). index x va' ≢ index x va) k0 ne);
      }
