-- ===== src/Mm/Paging/Uncommit/Tests.antt =====
-- Runs of `vmm_uncommit` of CORE/src/mm/vmm.c, and its theorems at concrete inputs.
use supernova_os.Prelude.{ℕ, ◌+◌, ◌<◌, ◌≡◌, refl, ◌≢◌, Option, none, some, List, arith}
use mathlib.Core.Path.{subst}
use supernova_os.Mm.Block.{Block}
use supernova_os.Mm.Physical.{
  alloc_physical_memory, vmm_alloc, take_from, split_node, put_back, align_up, free_physical_memory,
}
use supernova_os.Mm.Paging.{
  World, index, frame_of, search_from, search_page_entry, physical_address, ensure_table, map_from,
  mapping_loop, virtual_mapping,
}
use supernova_os.Mm.Paging.Tree.{IsTree}
use supernova_os.Mm.Paging.Numbers.{page_number}
use supernova_os.Mm.Paging.Loop.{nth, Result}
use supernova_os.Mm.Paging.Space.{virtual_mapping-Maps}
use supernova_os.Mm.Paging.Supply.{take_page, supply}
use supernova_os.Mm.Paging.Tests.{empty_world, empty-IsPaged, empty-Fits, user_va}
use supernova_os.Mm.Paging.Uncommit.{uncommit_page, vmm_uncommit}
use supernova_os.Mm.Paging.Uncommit.Unmap.{Unmapped, vmm_uncommit-Unmapped}
use supernova_os.Mm.Paging.Uncommit.Cycle.{frames_back, vmm_uncommit-virtual_mapping}

abbrev after_mapping : Option (World (List Block)) → World (List Block)
after_mapping none = empty_world
after_mapping (some w) = w

-- Two pages mapped.
abbrev two_mapped : World (List Block)
two_mapped = after_mapping (virtual_mapping take_page 0x1000 0x200000 user_va 2 0 6 empty_world)

two_mapped-some :
    virtual_mapping take_page 0x1000 0x200000 user_va 2 0 6 empty_world ≡ some two_mapped
unfolding virtual_mapping mapping_loop map_from ensure_table index alloc_physical_memory vmm_alloc
    take_from split_node put_back align_up
two_mapped-some = refl

two_mapped-IsTree : IsTree two_mapped.mem 3 (frame_of 0x1000)
two_mapped-IsTree =
    let m =
      subst (Result take_page supply 0x1000 empty_world 0 user_va 0x200000 6 2) two_mapped-some (
        virtual_mapping-Maps take_page supply 0x1000 0x200000 user_va 2 0 6 empty_world
          (omega arith) (omega arith) (omega arith) (omega arith) empty-IsPaged
          (empty-Fits 0 user_va 2)) in
    m.paged.tree

-- The second page is given back, the first stays.
second_back :
    let w = vmm_uncommit free_physical_memory 0x1000 (user_va + 0x1000) 1 two_mapped in
    (physical_address w.mem 0x1000 user_va ≡ some 0x200000)
    × (physical_address w.mem 0x1000 (user_va + 0x1004) ≡ none)
unfolding vmm_uncommit uncommit_page virtual_mapping mapping_loop map_from ensure_table index
    physical_address search_page_entry search_from alloc_physical_memory vmm_alloc take_from
    split_node put_back align_up
second_back = (refl, refl)

vmm_uncommit-Unmapped_example :
    Unmapped free_physical_memory 0x1000 two_mapped
      (user_va + 0x1000)
      3
      (vmm_uncommit free_physical_memory 0x1000 (user_va + 0x1000) 3 two_mapped)
vmm_uncommit-Unmapped_example =
    vmm_uncommit-Unmapped free_physical_memory 0x1000 (user_va + 0x1000) 3 two_mapped (omega arith)
      (omega arith) two_mapped-IsTree

vmm_uncommit-virtual_mapping_example :
    let u = vmm_uncommit free_physical_memory 0x1000 user_va 2 two_mapped in
    ((va' k : ℕ)
      → k < 2
      → page_number 0 va' ≡ page_number 0 (nth 0 user_va k)
      → physical_address u.mem 0x1000 va' ≡ none)
    × ((va' : ℕ)
        → ((k : ℕ) → k < 2 → page_number 0 va' ≢ page_number 0 (nth 0 user_va k))
        → physical_address u.mem 0x1000 va' ≡ physical_address empty_world.mem 0x1000 va')
    × (u.pages ≡ frames_back free_physical_memory 0x200000 2 two_mapped.pages)
vmm_uncommit-virtual_mapping_example =
    vmm_uncommit-virtual_mapping take_page supply free_physical_memory 0x1000 0x200000 user_va 2 6
      empty_world two_mapped (omega arith) (omega arith) (omega arith) (omega arith) (omega arith)
      empty-IsPaged (empty-Fits 0 user_va 2) two_mapped-some
