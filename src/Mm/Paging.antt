-- ===== src/Mm/Paging.antt =====
-- The page tables of CORE/src/mm/vmm.c: the search for an entry, the mapping of pages and the address that an entry gives.
use supernova_os.Prelude.{
  ℕ, zero, suc, ◌+◌, ◌-◌, ◌*◌, ◌/◌, ◌%◌, ◌^◌, ◌≤◌, ◌<◌, min, max, bit_and, bit_or, bit_xor, ◌≡◌,
  refl, sym, ap, ◌∙◌, ◌≢◌, ◌↔◌, ◌⊎◌, inl, inr, Bool, true, false, not, ◌&&◌, ◌||◌, Option, none,
  some, List, [], ◌∷◌, ◌++◌, map, append_assoc, append-nil, arith, ltb, leb, ◌==◌, if◌then◌else◌,
  nonzero, ltb→lt, ltb→le, lt→ltb, le→ltb, leb→le, ==_iff, Bool-cases, Option-cases, length,
  get_elem?, get_or, set, take, drop, replicate, All, length-append, length-replicate, length-set,
  length-take, get_elem?-set_self, get_elem?-set_ne, get_elem?_out, get_elem?-append_left,
  get_elem?-append_right,
}
pub mod Tree
pub mod Graft
pub mod Fresh
pub mod Refine
pub mod Deepen
pub mod Round
pub mod Numbers
pub mod Loop
pub mod Space
pub mod Supply
pub mod Fault
pub mod Uncommit
pub mod Tests

-- Physical memory, by the address of a QWORD. The code reaches it at core_mapping of the address.
abbrev pub Memory : Type 0
Memory = ℕ → ℕ

abbrev pub write : Memory → ℕ → ℕ → Memory
write m a v k = if k == a then v else m k

-- `__memset128(pageBuf, pageBuf, 0x100)` behind `pageBuf[0] = pageBuf[1] = 0`.
abbrev pub clear_page : Memory → ℕ → Memory
clear_page m p k = if leb p k && ltb k (p + 4096) then 0 else m k

-- `va.offset1` for n = 0 up to `va.offset4` for n = 3.
unfoldable pub index : ℕ → ℕ → ℕ
index n va = va / 2 ^ (12 + 9 * n) % 2 ^ 9

-- Where the entry for `va` stands in the table at `f`.
abbrev pub slot : ℕ → ℕ → ℕ → ℕ
slot n f va = f + 8 * index n va

-- `PAGING_PRESENT`
abbrev pub is_present : ℕ → Bool
is_present e = e % 2 == 1

-- `PAGING_PAGESIZE`, which is looked at above the tables of level 0 and below that of level 3.
abbrev pub is_large : ℕ → ℕ → Bool
is_large n e = ltb n 2 && e / 2 ^ 7 % 2 == 1

-- `& addrMask`
abbrev pub frame_of : ℕ → ℕ
frame_of e = e % 2 ^ 63 / 2 ^ 12 * 2 ^ 12

-- `search_page_entry` from a table on: the type of the page and the address of its entry. The level
-- counts from the page table, 0, to the PML4, 3.
unfoldable pub search_from : Memory → ℕ → ℕ → ℕ → Option (ℕ × ℕ)
search_from m zero f va = if is_present (m (slot 0 f va)) then some (0, slot 0 f va) else none
search_from m (suc n) f va =
    let e = m (slot (suc n) f va) in
    let rest = search_from m n (frame_of e) va in
    if not (is_present e)
    then none
    else if is_large n e
    then some (suc n, slot (suc n) f va)
    else rest

unfoldable pub search_page_entry : Memory → ℕ → ℕ → Option (ℕ × ℕ)
search_page_entry m cr3 va = search_from m 3 (frame_of cr3) va

-- `0x1000 << (pageType * 9)`
abbrev pub page_size : ℕ → ℕ
page_size typ = 2 ^ 12 * 2 ^ (9 * typ)

-- `(*pEntry & ~(offset | PAGING_EXED)) | (virtAddr & offset)`
abbrev pub address_in : ℕ → ℕ → ℕ → ℕ
address_in typ e va = e % 2 ^ 63 / page_size typ * page_size typ + va % page_size typ

-- `none` where the code reads at the null pointer, since no entry was found.
unfoldable pub physical_address : Memory → ℕ → ℕ → Option ℕ
physical_address m cr3 va = elim (search_page_entry m cr3 va) [
  | none ↦ none
  | some (typ, a) ↦ some (address_in (if leb typ 2 then typ else 0) (m a) va)
]

-- `e | PAGING_PRESENT | PAGING_WRITE | PAGING_USER`
abbrev pub table_entry : ℕ → ℕ
table_entry p = p / 8 * 8 + 7

-- `phyAddr | PAGING_PRESENT`, with `PAGING_PAGESIZE` above the page tables.
abbrev pub page_entry : ℕ → ℕ → ℕ
page_entry n phy =
    if n == 0 then phy / 2 * 2 + 1 else phy / 2 ^ 8 * 2 ^ 8 + 2 ^ 7 + phy % 2 ^ 7 / 2 * 2 + 1

-- Bits 1, 2 and 63 are those of `attr`.
abbrev pub modify_page_attr : ℕ → ℕ → ℕ
modify_page_attr e attr = e % 2 ^ 63 / 8 * 8 + attr / 2 % 4 * 2 + e % 2 + attr / 2 ^ 63 % 2 * 2 ^ 63

-- Memory, and what `S` holds of the free memory.
pub record World (S : Type 0) : Type 0 where
  pub mem : Memory
  pub pages : S

-- `alloc` is `alloc_physical_memory(1, 0)`.
module _ {S : Type 0} (alloc : S → ℕ × S) where
  -- The table behind the entry at `a`, made where there is none. Without a page the code writes to
  -- address 0, which panics.
  unfoldable pub ensure_table : World S → ℕ → Option (World S)
  ensure_table w a =
      let r = alloc w.pages in
      if is_present (w.mem a)
      then some w
      else if r.0 == 0
      then none
      else some (record { mem = clear_page (write w.mem a (table_entry r.0)) r.0; pages = r.1 })

  -- One round of `virtual_mapping` from a table on.
  unfoldable pub map_from : ℕ → ℕ → ℕ → ℕ → ℕ → ℕ → World S → Option (World S)
  map_from zero typ f va phy attr w =
      some (record w { mem = write w.mem (slot 0 f va) (modify_page_attr (page_entry 0 phy) attr) })
  map_from (suc n) typ f va phy attr w =
      let a = slot (suc n) f va in
      let rest : Option (World S) = elim (ensure_table w a) [
        | none ↦ none
        | some w' ↦ map_from n typ (frame_of (w'.mem a)) va phy attr w'
      ] in
      if suc n == typ && ltb n 2
      then some (record w { mem = write w.mem a (modify_page_attr (page_entry (suc n) phy) attr) })
      else rest

  -- `while (pageCount--)`
  unfoldable pub mapping_loop : ℕ → ℕ → ℕ → ℕ → ℕ → ℕ → World S → Option (World S)
  mapping_loop zero typ cr3 va phy attr w = some w
  mapping_loop (suc count) typ cr3 va phy attr w =
      elim (map_from 3 typ (frame_of cr3) va phy attr w) [
        | none ↦ none
        | some w' ↦
            mapping_loop count typ cr3 ((va + page_size typ) % 2 ^ 64)
              ((phy + page_size typ) % 2 ^ 64) attr w'
      ]

  -- `virtual_mapping`, with the page table that `__readcr3` gives.
  unfoldable pub virtual_mapping : ℕ → ℕ → ℕ → ℕ → ℕ → ℕ → World S → Option (World S)
  virtual_mapping cr3 phy va count typ attr w =
      mapping_loop count typ cr3 va (phy / page_size typ * page_size typ) attr w
