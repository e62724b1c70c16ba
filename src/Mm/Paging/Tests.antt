-- ===== src/Mm/Paging/Tests.antt =====
-- Runs of the page tables of CORE/src/mm/vmm.c, and its theorems at a concrete input.
use supernova_os.Prelude.{
  ℕ, ◌+◌, ◌≡◌, refl, sym, ap, ◌∙◌, ◌≢◌, true, Option, none, some, List, [], ◌∷◌, arith,
}
use supernova_os.Mm.Block.{Block}
use supernova_os.Mm.Physical.{
  alloc_physical_memory, vmm_alloc, take_from, split_node, put_back, align_up,
}
use supernova_os.Mm.Block.Map.{type_at}
use supernova_os.Mm.Paging.{
  World, index, search_from, search_page_entry, physical_address, ensure_table, map_from,
  mapping_loop, virtual_mapping,
}
use supernova_os.Mm.Paging.Fresh.{IsBlank, blank_Owns, blank-IsTree, blank_found}
use supernova_os.Mm.Paging.Loop.{Fits, IsPaged, Result}
use supernova_os.Mm.Paging.Space.{
  Translated, virtual_mapping-Maps, physical_address-virtual_mapping,
}
use supernova_os.Mm.Paging.Supply.{IsSupply, take_page, supply}
use supernova_os.Mm.Paging.Fault.{page_fault, Resolved, page_fault-Resolved}

-- Sixteen free pages, and a PML4 at 0x1000 that is empty.
abbrev free_pages : List Block
free_pages = record { addr = 0x10000; size = 0x10000; typ = 0; vald = true } ∷ []

abbrev pub empty_world : World (List Block)
empty_world = record { mem = λ a. 0; pages = free_pages }

free_pages-IsSupply : IsSupply free_pages
free_pages-IsSupply = record {
  ordered = (record { vald = refl; some_size = omega arith; inside = omega arith }, tt, tt);
  free = (refl, tt);
  whole = λ x. unfold type_at in ground arith;
}

pml4-IsBlank : IsBlank (λ a. 0) 0x1000
pml4-IsBlank i l = refl

pub empty-IsPaged : IsPaged take_page supply 0x1000 empty_world
empty-IsPaged = record {
  good = free_pages-IsSupply;
  tree = blank-IsTree (λ a. 0) 3 0x1000 pml4-IsBlank;
  apart = λ g (h, f) o.
      let e : g ≡ 0x1000 = blank_Owns (λ a. 0) 3 0x1000 g pml4-IsBlank o in
      let n : type_at free_pages 0x1000 ≡ some 0 = sym (ap (type_at free_pages) e) ∙ f in
      unfold type_at in ground (arith, n);
}

pub empty-Fits : (typ va count : ℕ) → Fits (λ a. 0) 0x1000 typ va count
empty-Fits typ va count k va' t e l p q =
    let z : none ≡ some (t, e) = sym (blank_found (λ a. 0) 3 0x1000 va' pml4-IsBlank) ∙ q in
    ground (arith, z)

abbrev pub user_va : ℕ
user_va = 0x7f0000400000

virtual_mapping-Maps_example :
    Result take_page supply 0x1000 empty_world 0 user_va 0x200000 6 3
      (virtual_mapping take_page 0x1000 0x200000 user_va 3 0 6 empty_world)
virtual_mapping-Maps_example =
    virtual_mapping-Maps take_page supply 0x1000 0x200000 user_va 3 0 6 empty_world (omega arith)
      (omega arith) (omega arith) (omega arith) empty-IsPaged (empty-Fits 0 user_va 3)

physical_address-virtual_mapping_example :
    Translated take_page supply 0x1000 empty_world 1 user_va 0x200000 2
      (virtual_mapping take_page 0x1000 0x200000 user_va 2 1 6 empty_world)
physical_address-virtual_mapping_example =
    physical_address-virtual_mapping take_page supply 0x1000 0x200000 user_va 2 1 6 empty_world
      (omega arith) (omega arith) (omega arith) (omega arith) empty-IsPaged (empty-Fits 1 user_va 2)

pub page_given : (take_page free_pages).0 ≢ 0
unfolding alloc_physical_memory vmm_alloc take_from split_node put_back align_up
page_given e = omega arith

abbrev after_translation : Option (World (List Block)) → ℕ → Option ℕ
after_translation none va = none
after_translation (some w) va = physical_address w.mem 0x1000 va

-- The fourth byte of the third page.
third_page :
    after_translation
      (virtual_mapping take_page 0x1000 0x200000 user_va 3 0 6 empty_world)
      (user_va + 0x2004)
    ≡ some 0x202004
unfolding virtual_mapping mapping_loop map_from ensure_table index physical_address
    search_page_entry search_from alloc_physical_memory vmm_alloc take_from split_node put_back
    align_up
third_page = refl

page_fault-Resolved_example :
    Resolved take_page supply 0x1000 none 0xffff800012345678 empty_world
      (page_fault take_page 0x1000 none 0xffff800012345678 empty_world)
page_fault-Resolved_example =
    page_fault-Resolved take_page supply 0x1000 none 0xffff800012345678 empty_world (omega arith)
      empty-IsPaged page_given (empty-Fits 1 0xffff800012345678 1)
