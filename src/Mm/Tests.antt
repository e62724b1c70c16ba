-- ===== src/Mm/Tests.antt =====
-- Runs of the memory maps of CORE/src/mm, and their theorems at concrete inputs.
use supernova_os.Prelude.{
  ℕ, ◌+◌, ◌*◌, ◌≤◌, ◌<◌, ◌≡◌, refl, inl, inr, Bool, true, false, Option, none, some, List, [], ◌∷◌,
  arith,
}
use supernova_os.Mm.Block.{Block, pmm_merge, absorb_next, pmm_insert_link}
use supernova_os.Mm.Block.Map.{IsBlock, IsMap, type_at, Clear, insert-IsMap, type_at-insert}
use supernova_os.Mm.Physical.{
  align_up, fresh_block, split_node, take_from, put_back, vmm_alloc, alloc_physical_memory,
  free_physical_memory,
}
use supernova_os.Mm.Physical.Allocate.{
  Allocated, Returned, vmm_alloc-Returned, free-alloc_physical_memory,
}
use supernova_os.Mm.Paging.{virtual_mapping, mapping_loop, map_from, ensure_table, index}
use supernova_os.Mm.Paging.Supply.{take_page}
use supernova_os.Mm.Paging.Tests.{empty_world}
use supernova_os.Mm.Heap.{
  Found, allocated, refused, panic, endless, alloc_size, take_block, grow, expand_heap, heap_search,
  heap_alloc, merge_next, free_behind, heap_free,
}
use supernova_os.Mm.Heap.Shape.{IsHeap}
use supernova_os.Mm.Heap.Expand.{Serves}
use supernova_os.Mm.Heap.Alloc.{Starts, heap_alloc-Serves}
use supernova_os.Mm.Heap.Free.{Freed, heap_free-Freed}

-- Four pages at 4096 and eight at 65536.
abbrev pages4 : Block
pages4 = fresh_block 4096 16384

abbrev pages8 : Block
pages8 = fresh_block 65536 32768

abbrev memory : List Block
memory = pages4 ∷ pages8 ∷ []

memory-IsMap : IsMap memory
memory-IsMap = (
  record { vald = refl; some_size = omega arith; inside = omega arith },
  record { below = omega arith; gap = λ e. omega arith },
  (record { vald = refl; some_size = omega arith; inside = omega arith }, tt, tt),
)

-- The page between them that touches the first four.
abbrev page : Block
page = fresh_block 20480 4096

page-IsBlock : IsBlock page
page-IsBlock = record { vald = refl; some_size = omega arith; inside = omega arith }

page-Clear : Clear page memory
page-Clear = (inl (omega arith), (inr (omega arith), tt))

inserted : pmm_insert_link memory page ≡ fresh_block 4096 20480 ∷ pages8 ∷ []
unfolding pmm_insert_link absorb_next pmm_merge
inserted = refl

insert-IsMap_example : IsMap (pmm_insert_link memory page)
insert-IsMap_example = insert-IsMap memory page memory-IsMap page-IsBlock page-Clear

type_at-insert_example : type_at (pmm_insert_link memory page) 20481 ≡ some 0
type_at-insert_example = type_at-insert memory page 20481 memory-IsMap page-IsBlock page-Clear

-- Two pages at an alignment of 65536 bytes come from the eight.
from_pages8 : alloc_physical_memory memory 2 16 ≡ (65536, pages4 ∷ fresh_block 73728 24576 ∷ [])
unfolding alloc_physical_memory vmm_alloc take_from split_node put_back align_up
from_pages8 = refl

vmm_alloc-Returned_example : Returned memory 8192 2 13 (vmm_alloc memory 5000 2 13)
vmm_alloc-Returned_example =
    vmm_alloc-Returned memory 5000 2 13 memory-IsMap (refl, (refl, tt)) (omega arith) (omega arith)
      (omega arith)

pages8_free : (x : ℕ) → 65536 ≤ x → x < 65536 + 2 * 4096 → type_at memory x ≡ some 0
unfolding type_at
pages8_free x h h' = ground arith

free-alloc_physical_memory_example :
    let r = alloc_physical_memory memory 2 16 in
    Allocated memory 0 2 16 r.0 r.1 × (free_physical_memory r.1 r.0 2 ≡ memory)
free-alloc_physical_memory_example =
    free-alloc_physical_memory memory 2 16 65536 memory-IsMap (refl, (refl, tt)) (omega arith)
      (omega arith) refl pages8_free

-- No 16 pages stand together.
fails : alloc_physical_memory memory 16 12 ≡ (0, memory)
unfolding alloc_physical_memory vmm_alloc take_from split_node put_back align_up
fails = refl

-- A heap of one page: 32 bytes in use, 16 free, 24 in use, and the rest.
abbrev heads : List ℕ
heads = 33 ∷ 16 ∷ 25 ∷ 3994 ∷ []

heads-IsHeap : IsHeap heads
heads-IsHeap = (
  omega arith,
  (λ q. omega arith),
  (omega arith, (λ q. refl), (omega arith, (λ q. omega arith), refl)),
)

-- The address and the heads, or none for a call that fails or panics.
abbrev found_blocks : {S : Type 0} → Found S → Option (ℕ × List ℕ)
found_blocks (allocated addr blocks w) = some (addr, blocks)
found_blocks refused = none
found_blocks panic = none
found_blocks endless = none

-- The heap where the kernel has it, and an address space with free pages.
abbrev heap_base : ℕ
heap_base = 0xffff808000000000

abbrev call : Bool → ℕ → Found (List Block)
call user n = heap_alloc take_page 0x1000 user heap_base n empty_world (some heads)

second_block : found_blocks (call false 10) ≡ some (heap_base + 48, 33 ∷ 17 ∷ 25 ∷ 3994 ∷ [])
unfolding heap_alloc heap_search take_block grow
second_block = refl

grown : found_blocks (call false 4000) ≡ some (heap_base + 104, 33 ∷ 16 ∷ 25 ∷ 4001 ∷ 4082 ∷ [])
unfolding heap_alloc heap_search take_block grow expand_heap virtual_mapping mapping_loop map_from
    ensure_table index alloc_physical_memory vmm_alloc take_from split_node put_back align_up
grown = refl

in_user_mode : call true 4000 ≡ refused
unfolding heap_alloc heap_search take_block grow
in_user_mode = refl

heap_alloc-Serves_example :
    (4000 ≤ alloc_size 4000)
    × (8 ≤ alloc_size 4000)
    × Serves take_page 0x1000 false heads heap_base 4000 empty_world (call false 4000)
    × Starts take_page 0x1000 false heap_base 4000 empty_world
        (heap_alloc take_page 0x1000 false heap_base 4000 empty_world none)
heap_alloc-Serves_example =
    heap_alloc-Serves take_page 0x1000 false heap_base 4000 empty_world heads heads-IsHeap
      (omega arith)

three_merged : heap_free 4096 4168 heads ≡ 33 ∷ 4050 ∷ []
unfolding heap_free free_behind merge_next
three_merged = refl

heap_free-Freed_example : Freed 4096 4168 heads (heap_free 4096 4168 heads)
heap_free-Freed_example = heap_free-Freed 4096 4168 heads heads-IsHeap (λ e. omega arith)
