-- ===== src/Mm/Paging/Space.antt =====
-- The address space that virtual_mapping and physical_address of CORE/src/mm/vmm.c work on.
use supernova_os.Prelude.{
  ℕ, zero, suc, ◌+◌, ◌*◌, ◌/◌, ◌%◌, ◌^◌, ◌≤◌, ◌<◌, ◌≡◌, refl, sym, ap, ◌∙◌, ◌≢◌, inl, inr, Option,
  none, some, arith, leb, if◌then◌else◌, Bool-cases,
}
use supernova_os.Mm.Paging.{
  Memory, World, slot, is_present, is_large, frame_of, page_size, address_in, search_from,
  search_page_entry, physical_address, virtual_mapping,
}
use supernova_os.Mm.Paging.Tree.{found, found_zero, found_suc}
use supernova_os.Mm.Paging.Fresh.{Laws}
use supernova_os.Mm.Paging.Refine.{leaf, Fails}
use supernova_os.Mm.Paging.Numbers.{page_number, address_in-leaf}
use supernova_os.Mm.Paging.Loop.{entry_of, nth, Fits, IsPaged, Result, mapping_loop-Result}

-- The entry at the address that a search gives.
abbrev pub read_entry : Memory → Option (ℕ × ℕ) → Option (ℕ × ℕ)
read_entry m none = none
read_entry m (some (t, a)) = some (t, m a)

pub found-search_from :
    (m : Memory) (n f va : ℕ) → found m n f va ≡ read_entry m (search_from m n f va)
unfolding search_from
found-search_from m zero f va =
    found_zero m f va (m (slot 0 f va)) refl
    ∙ elim (Bool-cases (is_present (m (slot 0 f va)))) [ inl p ↦ rw p refl | inr p ↦ rw p refl ]
found-search_from m (suc n) f va =
    let e = m (slot (suc n) f va) in
    found_suc m n f va e refl ∙ elim (Bool-cases (is_present e)) [
      | inr p ↦ rw p refl
      | inl p ↦ elim (Bool-cases (is_large n e)) [
        | inl l ↦ rw (p, l) refl
        | inr l ↦ rw (p, l) (found-search_from m n (frame_of e) va)
      ]
    ]

-- The address that an entry gives.
abbrev pub address_of : ℕ → Option (ℕ × ℕ) → Option ℕ
address_of va none = none
address_of va (some (t, e)) = some (address_in (if leb t 2 then t else 0) e va)

address_of-read_entry :
    (m : Memory) (va : ℕ) (o : Option (ℕ × ℕ))
    → (elim o as (λ _. Option ℕ) [
      | none ↦ none
      | some (typ, a) ↦ some (address_in (if leb typ 2 then typ else 0) (m a) va)
    ]
        ≡ address_of va (read_entry m o))
address_of-read_entry m va none = refl
address_of-read_entry m va (some (t, a)) = refl

pub physical_address-entry_of :
    (m : Memory) (cr3 va : ℕ) → physical_address m cr3 va ≡ address_of va (entry_of m cr3 va)
unfolding physical_address search_page_entry
physical_address-entry_of m cr3 va =
    address_of-read_entry m va (search_from m 3 (frame_of cr3) va)
    ∙ ap (address_of va) (sym (found-search_from m 3 (frame_of cr3) va))

-- The page of an address of the mapping.
offset_page :
    (typ va off : ℕ)
    → typ ≤ 2
    → (page_number typ ((va / page_size typ * page_size typ + off) % 2 ^ 64)
        ≡ page_number typ (nth typ va (off / page_size typ)))
offset_page zero va off t = omega arith
offset_page (suc zero) va off t = omega arith
offset_page (suc (suc zero)) va off t = omega arith
offset_page (suc (suc (suc typ))) va off t = absurd (omega arith)

offset_in :
    (typ count off : ℕ) → typ ≤ 2 → off < count * page_size typ → off / page_size typ < count
offset_in zero count off t h = omega arith
offset_in (suc zero) count off t h = omega arith
offset_in (suc (suc zero)) count off t h = omega arith
offset_in (suc (suc (suc typ))) count off t h = absurd (omega arith)

offset_address :
    (typ va phy off count attr : ℕ)
    → typ ≤ 2
    → phy + count * page_size typ ≤ 2 ^ 63
    → off < count * page_size typ
    → (address_in typ
          (leaf typ (nth typ (phy / page_size typ * page_size typ) (off / page_size typ)) attr)
          ((va / page_size typ * page_size typ + off) % 2 ^ 64)
        ≡ phy / page_size typ * page_size typ + off)
offset_address zero va phy off count attr t l lo =
    address_in-leaf 0 (nth 0 (phy / 2 ^ 12 * 2 ^ 12) (off / 2 ^ 12)) attr
      ((va / 2 ^ 12 * 2 ^ 12 + off) % 2 ^ 64) t (omega arith) (omega arith)
    ∙ omega arith
offset_address (suc zero) va phy off count attr t l lo =
    address_in-leaf 1 (nth 1 (phy / 2 ^ 21 * 2 ^ 21) (off / 2 ^ 21)) attr
      ((va / 2 ^ 21 * 2 ^ 21 + off) % 2 ^ 64) t (omega arith) (omega arith)
    ∙ omega arith
offset_address (suc (suc zero)) va phy off count attr t l lo =
    address_in-leaf 2 (nth 2 (phy / 2 ^ 30 * 2 ^ 30) (off / 2 ^ 30)) attr
      ((va / 2 ^ 30 * 2 ^ 30 + off) % 2 ^ 64) t (omega arith) (omega arith)
    ∙ omega arith
offset_address (suc (suc (suc typ))) va phy off count attr t l lo = absurd (omega arith)

round_down : (typ phy : ℕ) → typ ≤ 2 → phy < 2 ^ 64 → phy / page_size typ * page_size typ < 2 ^ 64
round_down zero phy t l = omega arith
round_down (suc zero) phy t l = omega arith
round_down (suc (suc zero)) phy t l = omega arith
round_down (suc (suc (suc typ))) phy t l = absurd (omega arith)

type_test : (typ : ℕ) → typ ≤ 2 → (if leb typ 2 then typ else 0) ≡ typ
type_test typ t = ground arith

module _ {S : Type 0} (alloc : S → ℕ × S) (L : Laws alloc) (cr3 : ℕ) where
  -- What addresses are translated to after a mapping.
  abbrev pub Translated : World S → ℕ → ℕ → ℕ → ℕ → Option (World S) → Type 0
  Translated w typ va phy count none = Fails alloc L (3 * count) w.pages
  Translated w typ va phy count (some w') =
      ((off : ℕ)
        → off < count * page_size typ
        → (physical_address w'.mem cr3 ((va / page_size typ * page_size typ + off) % 2 ^ 64)
            ≡ some (phy / page_size typ * page_size typ + off)))
      × ((va' : ℕ)
          → ((k : ℕ) → k < count → page_number typ va' ≢ page_number typ (nth typ va k))
          → physical_address w'.mem cr3 va' ≡ physical_address w.mem cr3 va')

  Maps-Translated :
      (phy va count typ attr : ℕ) (w : World S) (r : Option (World S))
      → typ ≤ 2
      → phy + count * page_size typ ≤ 2 ^ 63
      → Result alloc L cr3 w typ va (phy / page_size typ * page_size typ) attr count r
      → Translated w typ va phy count r
  Maps-Translated phy va count typ attr w none t lp x = x
  Maps-Translated phy va count typ attr w (some w') t lp m = (
    λ off lo.
        let va' = (va / page_size typ * page_size typ + off) % 2 ^ 64 in
        let k = off / page_size typ in
        physical_address-entry_of w'.mem cr3 va'
        ∙ ap (address_of va')
            (m.hit va' k (offset_in typ count off t lo) (offset_page typ va off t))
        ∙ ap
            (λ (x : ℕ).
              some (
                address_in x (leaf typ (nth typ (phy / page_size typ * page_size typ) k) attr) va'))
            (type_test typ t)
        ∙ ap some (offset_address typ va phy off count attr t lp lo),
    λ va' no.
        physical_address-entry_of w'.mem cr3 va'
        ∙ ap (address_of va') (m.miss va' no)
        ∙ sym (physical_address-entry_of w.mem cr3 va'),
  )

  -- A mapping of pages of 4 KB, 2 MB or 1 GB, at most 2 ^ 48 bytes together, from an address below
  -- 2 ^ 64 on, where the tables are a tree that is not part of the free memory, and no larger page
  -- stands where one of the pages would: either one of the three allocations for each page gives no
  -- page, or the pages asked for have the entries that belong to them, with the frame moving on by the
  -- size of a page, every other address has the entry that it had, and the tables are such a tree again.
  pub virtual_mapping-Maps :
      (phy va count typ attr : ℕ) (w : World S)
      → typ ≤ 2
      → va < 2 ^ 64
      → phy < 2 ^ 64
      → count * page_size typ ≤ 2 ^ 48
      → IsPaged alloc L cr3 w
      → Fits w.mem cr3 typ va count
      → Result alloc L cr3 w typ va
          (phy / page_size typ * page_size typ)
          attr
          count
          (virtual_mapping alloc cr3 phy va count typ attr w)
  unfolding virtual_mapping
  virtual_mapping-Maps phy va count typ attr w t lv lp h i fits =
      mapping_loop-Result alloc L cr3 count typ va (phy / page_size typ * page_size typ) attr w t lv
        (round_down typ phy t lp) h i fits

  -- Under the conditions of `virtual_mapping-Maps`, where the frames end by 2 ^ 63: unless an allocation fails,
  -- `physical_address` gives for each byte of the pages from that of the address on the byte of the
  -- frames at the same distance from their start, and for each address outside what it gave before.
  pub physical_address-virtual_mapping :
      (phy va count typ attr : ℕ) (w : World S)
      → typ ≤ 2
      → va < 2 ^ 64
      → count * page_size typ ≤ 2 ^ 48
      → phy + count * page_size typ ≤ 2 ^ 63
      → IsPaged alloc L cr3 w
      → Fits w.mem cr3 typ va count
      → Translated w typ va phy count (virtual_mapping alloc cr3 phy va count typ attr w)
  physical_address-virtual_mapping phy va count typ attr w t lv h lp i fits =
      Maps-Translated phy va count typ attr w (virtual_mapping alloc cr3 phy va count typ attr w) t
        lp (virtual_mapping-Maps phy va count typ attr w t lv (omega arith) h i fits)
