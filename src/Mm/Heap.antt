-- ===== src/Mm/Heap.antt =====
-- The heap of CORE/src/mm/vmm.c: `heap_alloc`, `heap_free`, `expand_heap`.
use supernova_os.Prelude.{
  ℕ, zero, suc, ◌+◌, ◌-◌, ◌*◌, ◌/◌, ◌%◌, ◌^◌, ◌≤◌, ◌<◌, min, max, bit_and, bit_or, bit_xor, ◌≡◌,
  refl, sym, ap, ◌∙◌, ◌≢◌, ◌↔◌, ◌⊎◌, inl, inr, Bool, true, false, not, ◌&&◌, ◌||◌, Option, none,
  some, List, [], ◌∷◌, ◌++◌, map, append_assoc, append-nil, arith, ltb, leb, ◌==◌, if◌then◌else◌,
  nonzero, ltb→lt, ltb→le, lt→ltb, le→ltb, leb→le, ==_iff, Bool-cases, Option-cases, length,
  get_elem?, get_or, set, take, drop, replicate, All, length-append, length-replicate, length-set,
  length-take, get_elem?-set_self, get_elem?-set_ne, get_elem?_out, get_elem?-append_left,
  get_elem?-append_right,
}
pub mod Shape
pub mod Expand
pub mod Alloc
pub mod Free
use supernova_os.Prelude.Words.{add64}
use supernova_os.Mm.Paging.{World, virtual_mapping}

-- A block of the heap is its head, a QWORD of the size and three flags: the size is a multiple of 8.
-- The heap is the list of the heads from HEAPK on: `heap += 1 + (*heap >> 3)` is its tail.
abbrev pub size_of : ℕ → ℕ
size_of h = h / 8 * 8

-- HEAP_FLAG_USING and HEAP_FLAG_LAST.
abbrev pub using : ℕ → Bool
using h = h % 2 == 1

abbrev pub last : ℕ → Bool
last h = h / 2 % 2 == 1

-- What a call of `heap_alloc` ends in: the address, the heads, and the memory and its free pages.
pub data Found (S : Type 0) : Type 0 where
  allocated : (addr : ℕ) → (blocks : List ℕ) → (w : World S) → Found S
  refused : Found S
  panic : Found S
  endless : Found S

-- The size is at least 8, and a multiple of 8.
abbrev pub alloc_size : ℕ → ℕ
alloc_size n = add64 (if n == 0 then 8 else n) 7 / 8 * 8

abbrev pub serves : ℕ → ℕ → Bool
serves h size = not (using h) && leb size h

-- The heads of a free block once it is in use: the flags of a size are 0, so `|` is `+`.
abbrev pub split_block : ℕ → ℕ → List ℕ → List ℕ
split_block h size rest =
    if ltb size (size_of h)
    then (size + 1) ∷ (size_of h - size - 8 + h % 8) ∷ rest
    else (h + 1) ∷ rest

abbrev pub keep_block : {S : Type 0} → ℕ → Found S → Found S
keep_block h (allocated addr blocks w) = allocated addr (h ∷ blocks) w
keep_block h refused = refused
keep_block h panic = panic
keep_block h endless = endless

-- `alloc` is `alloc_physical_memory(1, 0)`, and `cr3` the page table that `__readcr3` gives.
module _ {S : Type 0} (alloc : S → ℕ × S) (cr3 : ℕ) where
  -- `expand_heap`: a page is mapped at `end`, behind the block, and the head is its new size; `none` is
  -- a panic, of this function or of `virtual_mapping`.
  unfoldable pub expand_heap : ℕ → ℕ → World S → Option (ℕ × World S)
  expand_heap end h w =
      let r = alloc w.pages in
      let mapped : Option (ℕ × World S) =
        elim (virtual_mapping alloc cr3 r.0 end 1 0 2 (record w { pages = r.1 })) [
          | none ↦ none
          | some w' ↦ some (add64 h 0x1000, w')
        ] in
      if r.0 == 0 then none else mapped

  abbrev pub take_expanded : ℕ → ℕ → List ℕ → Option (ℕ × World S) → Found S
  take_expanded base size rest none = panic
  take_expanded base size rest (some (h, w)) = allocated (base + 8) (split_block h size rest) w

  -- A last block of just the size is expanded first.
  unfoldable pub take_block : ℕ → ℕ → ℕ → List ℕ → World S → Found S
  take_block base size h rest w =
      if last h && size_of h == size
      then take_expanded base size rest (expand_heap (base + 8 + size_of h) h w)
      else allocated (base + 8) (split_block h size rest) w

  -- `while ((*heap & (~7ULL)) < allocSize) expand_heap(heap);`, on fuel: `none` where it is at an end,
  -- and `some none` for a panic.
  unfoldable pub grow : ℕ → ℕ → ℕ → ℕ → World S → Option (Option (ℕ × World S))
  grow zero base size h w = if ltb (size_of h) size then none else some (some (h, w))
  grow (suc fuel) base size h w =
      let more : Option (Option (ℕ × World S)) = elim (expand_heap (base + 8 + size_of h) h w) [
        | none ↦ some none
        | some (h', w') ↦ grow fuel base size h' w'
      ] in
      if ltb (size_of h) size then more else some (some (h, w))

  -- The outer loop goes on with the block that has grown: in use, it would end the inner loop again.
  abbrev pub after_grow : ℕ → ℕ → List ℕ → Option (Option (ℕ × World S)) → Found S
  after_grow base size rest none = endless
  after_grow base size rest (some none) = panic
  after_grow base size rest (some (some (h, w))) =
      if serves h size then take_block base size h rest w else endless

  -- The loops over the blocks. `user` is the test `__getcs() & 3`.
  unfoldable pub heap_search : Bool → ℕ → ℕ → World S → List ℕ → Found S
  heap_search user base size w [] = endless
  heap_search user base size w (h ∷ rest) =
      let later = keep_block h (heap_search user (base + 8 + size_of h) size w rest) in
      if serves h size
      then take_block base size h rest w
      else if last h
      then (if user
          then refused
          else after_grow base size rest (grow (size / 4096 + 1) base size h w))
      else later

  -- `heap_alloc(n)`: the first call maps a page at `base`, CORE_ADDRESS_HEAP, and makes a heap of it.
  unfoldable pub heap_alloc : Bool → ℕ → ℕ → World S → Option (List ℕ) → Found S
  heap_alloc user base n w none =
      let r = alloc w.pages in
      elim (virtual_mapping alloc cr3 r.0 base 1 0 2 (record w { pages = r.1 })) [
        | none ↦ panic
        | some w' ↦ heap_search user base (alloc_size n) w' (0xffa ∷ [])
      ]
  heap_alloc user base n w (some blocks) = heap_search user base (alloc_size n) w blocks

-- `*heap &= ~HEAP_FLAG_USING`
abbrev pub release : ℕ → ℕ
release h = h - h % 2

-- The merge with the next block. The flags of a free block that is not the last are 0.
unfoldable pub merge_next : ℕ → List ℕ → List ℕ
merge_next h [] = h ∷ []
merge_next h (next ∷ rest) =
    if last h
    then h ∷ next ∷ rest
    else if using next
    then h ∷ next ∷ rest
    else (h + 8 + size_of next + next % 8) ∷ rest

-- The loop of `heap_free` behind the block `prev`.
unfoldable pub free_behind : ℕ → ℕ → ℕ → List ℕ → List ℕ
free_behind prev base addr [] = prev ∷ []
free_behind prev base addr (h ∷ rest) =
    let later = prev ∷ free_behind h (base + 8 + size_of h) addr rest in
    if base + 8 == addr
    then (if using prev
        then prev ∷ merge_next (release h) rest
        else merge_next (prev + 8 + size_of h) rest)
    else if last h
    then prev ∷ h ∷ rest
    else later

-- `heap_free(addr)`
unfoldable pub heap_free : ℕ → ℕ → List ℕ → List ℕ
heap_free base addr [] = []
heap_free base addr (h ∷ rest) =
    if addr == 0
    then h ∷ rest
    else if base + 8 == addr
    then merge_next (release h) rest
    else if last h
    then h ∷ rest
    else free_behind h (base + 8 + size_of h) addr rest
