-- ===== src/Mm/Paging/Deepen.antt =====
-- A table of CORE/src/mm/vmm.c above one in which a page was mapped.
use supernova_os.Prelude.{
  ℕ, suc, ◌+◌, ◌*◌, ◌%◌, ◌≤◌, ◌<◌, ◌≡◌, refl, sym, ap, ◌∙◌, ◌≢◌, ◌⊎◌, inl, inr, true, false, some,
  arith,
}
use supernova_os.Mm.Paging.{World, index, slot, is_present, is_large, frame_of}
use supernova_os.Mm.Paging.Tree.{links, Owns, IsTree, page_of, found, found_suc}
use supernova_os.Mm.Paging.Graft.{eq_or_ne, graft_Owns, graft-IsTree, graft-found}
use supernova_os.Mm.Paging.Fresh.{Laws}
use supernova_os.Mm.Paging.Refine.{Aims, later, Taken, Mapped}

-- `Q` are the pages behind the entry for `va`, and `c` is what the entry is now.
module _ {S : Type 0} (alloc : S → ℕ × S) (L : Laws alloc) (w w' : World S) (n typ f va e c : ℕ)
    (Q : ℕ → Type 0) (h : f % 4096 ≡ 0) (tn : typ ≤ n) (good : L.Good w'.pages)
    (steps : (j : ℕ) × (j ≤ suc n) × (w'.pages ≡ later alloc L j w.pages))
    (free : (g : ℕ) → L.Free w'.pages g → L.Free w.pages g) (t : IsTree w.mem (suc n) f)
    (nf : ¬ Q f)
    (nq : (j : ℕ)
      → j < 512
      → j ≢ index (suc n) va
      → links n (w.mem (f + 8 * j)) ≡ true
      → (g : ℕ) → Owns w.mem n (frame_of (w.mem (f + 8 * j))) g
      → ¬ Q g)
    (qin : (g : ℕ) → Q g → Owns w.mem (suc n) f g ⊎ Taken alloc L w.pages w'.pages g)
    (ent : (j : ℕ) → j < 512 → j ≢ index (suc n) va → w'.mem (f + 8 * j) ≡ w.mem (f + 8 * j))
    (oth : (a : ℕ) → page_of a ≢ f → ¬ Q (page_of a) → w'.mem a ≡ w.mem a)
    (here : w'.mem (slot (suc n) f va) ≡ c)
    (open_c : (is_present c ≡ true) × (is_large n c ≡ false)) (deep : IsTree w'.mem n (frame_of c))
    (inside : (g : ℕ) → Owns w'.mem n (frame_of c) g → Q g)
    (hits : (va' : ℕ) → Aims n typ va va' → found w'.mem n (frame_of c) va' ≡ some (typ, e))
    (misses : (va' k : ℕ)
      → typ ≤ k
      → k ≤ n
      → index (suc n) va' ≡ index (suc n) va
      → index k va' ≢ index k va
      → found w'.mem n (frame_of c) va' ≡ found w.mem (suc n) f va') where
  sub_c :
      links n (w'.mem (slot (suc n) f va)) ≡ true
      → IsTree w'.mem n (frame_of (w'.mem (slot (suc n) f va)))
        × ((g : ℕ) → Owns w'.mem n (frame_of (w'.mem (slot (suc n) f va))) g → Q g)
  sub_c k = rw here (deep, inside)

  -- The search comes to the table behind the entry.
  found_c :
      (va' : ℕ)
      → index (suc n) va' ≡ index (suc n) va
      → found w'.mem (suc n) f va' ≡ found w'.mem n (frame_of c) va'
  found_c va' q =
      found_suc w'.mem n f va' c (ap (λ (i : ℕ). w'.mem (f + 8 * i)) q ∙ here)
      ∙ rw (open_c.0, open_c.1) refl

  pub deepen-Mapped : Mapped alloc L w (suc n) typ f va e w'
  deepen-Mapped =
      let i = index (suc n) va in
      record {
        good = good;
        steps = steps;
        free = free;
        tree = graft-IsTree n f i w.mem w'.mem Q h t nf nq ent oth sub_c;
        owns = λ g o. elim (graft_Owns n f i w.mem w'.mem Q h t nf nq ent oth sub_c g o) [
          | inl p ↦ inl p
          | inr q ↦ qin g q
        ];
        kept = λ a no nt.
            oth a (λ q. no (inl q)) (λ q. elim (qin (page_of a) q) [ inl p ↦ no p | inr x ↦ nt x ]);
        hit = λ va' aim.
            found_c va' (aim (suc n) (omega arith) (omega arith))
            ∙ hits va' (λ k lo hi. aim k lo (omega arith));
        miss = λ va' k lo hi ne. elim (eq_or_ne (index (suc n) va') i) [
          | inl q ↦
              found_c va' q
              ∙ misses va' k lo
                  (elim (eq_or_ne k (suc n)) [
                    | inl s ↦ absurd (
                        ne (ap (λ (x : ℕ). index x va') s ∙ q ∙ sym (ap (λ (x : ℕ). index x va) s)))
                    | inr s ↦ omega arith
                  ])
                  q ne
          | inr q ↦ graft-found n f i w.mem w'.mem Q h t nf nq ent oth sub_c va' q
        ];
      }
