-- ===== src/Mm/Paging/Fresh.antt =====
-- A page that CORE/src/mm/vmm.c takes for a table.
use supernova_os.Prelude.{
  ℕ, zero, suc, ◌+◌, ◌*◌, ◌%◌, ◌^◌, ◌<◌, ◌≡◌, ◌≢◌, inl, inr, true, none, arith,
}
use supernova_os.Mm.Paging.{Memory, index, frame_of, write, clear_page, table_entry}
use supernova_os.Mm.Paging.Tree.{
  links, Owns, IsTree, page_of, found, index_bound, found_zero, found_suc,
}

-- What the code relies on where it takes a page of free memory: of a state that is good, the page is
-- aligned, was free and is not free any longer, or is 0, where no page is left.
pub record Laws {S : Type 0} (alloc : S → ℕ × S) : Type 1 where
  pub Good : S → Type 0
  pub Free : S → ℕ → Type 0
  pub keeps : (s : S) → Good s → Good (alloc s).1
  pub aligned : (s : S) → Good s → (alloc s).0 % 4096 ≡ 0
  pub small : (s : S) → Good s → (alloc s).0 < 2 ^ 63
  pub was_free : (s : S) → Good s → (alloc s).0 ≢ 0 → Free s (alloc s).0
  pub taken :
      (s : S)
      → Good s
      → (alloc s).0 ≢ 0
      → (g : ℕ) → Free (alloc s).1 g
      → Free s g × (g ≢ (alloc s).0)

-- All entries of the table at `p` are 0.
abbrev pub IsBlank : Memory → ℕ → Type 0
IsBlank m p = (i : ℕ) → i < 512 → m (p + 8 * i) ≡ 0

blank_links : (m : Memory) (n p i : ℕ) → IsBlank m p → i < 512 → links n (m (p + 8 * i)) ≢ true
blank_links m n p i b l k = ground (arith, b i l)

pub blank_Owns : (m : Memory) (n p g : ℕ) → IsBlank m p → Owns m n p g → g ≡ p
blank_Owns m zero p g b o = o
blank_Owns m (suc n) p g b (inl e) = e
blank_Owns m (suc n) p g b (inr (i, l, k, o)) = absurd (blank_links m n p i b l k)

pub blank-IsTree : (m : Memory) (n p : ℕ) → IsBlank m p → IsTree m n p
blank-IsTree m zero p b = tt
blank-IsTree m (suc n) p b = λ i l k. absurd (blank_links m n p i b l k)

pub blank_found : (m : Memory) (n p va : ℕ) → IsBlank m p → found m n p va ≡ none
blank_found m zero p va b = found_zero m p va 0 (b (index 0 va) (index_bound 0 va))
blank_found m (suc n) p va b = found_suc m n p va 0 (b (index (suc n) va) (index_bound (suc n) va))

-- The memory with a new table at `p`, linked by the entry at `a`.
abbrev pub linked : Memory → ℕ → ℕ → Memory
linked m a p = clear_page (write m a (table_entry p)) p

module _ (m : Memory) (f idx p : ℕ) (h : f % 4096 ≡ 0) (l : idx < 512) (hp : p % 4096 ≡ 0)
    (ne : f ≢ p) where
  pub linked-IsBlank : IsBlank (linked m (f + 8 * idx) p) p
  linked-IsBlank i li = ground arith

  pub linked_entry : linked m (f + 8 * idx) p (f + 8 * idx) ≡ table_entry p
  linked_entry = ground arith

  pub linked_others :
      (j : ℕ) → j < 512 → j ≢ idx → linked m (f + 8 * idx) p (f + 8 * j) ≡ m (f + 8 * j)
  linked_others j lj nj = ground arith

  pub linked_elsewhere : (a : ℕ) → page_of a ≢ f → page_of a ≢ p → linked m (f + 8 * idx) p a ≡ m a
  linked_elsewhere a nf np = ground arith

pub table_entry_frame : (p : ℕ) → p % 4096 ≡ 0 → p < 2 ^ 63 → frame_of (table_entry p) ≡ p
table_entry_frame p h l = omega arith

pub table_entry-links : (n p : ℕ) → p % 4096 ≡ 0 → links n (table_entry p) ≡ true
table_entry-links n p h = ground arith
