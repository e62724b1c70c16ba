-- ===== src/Mm/Area/Tests.antt =====
-- Runs of the areas of CORE/src/mm/vmm.c, and their theorem at concrete inputs.
use supernova_os.Prelude.{ℕ, ◌+◌, ◌*◌, ◌≤◌, ◌<◌, ◌≡◌, refl, ◌⊎◌, some, true, List, [], ◌∷◌, arith}
use supernova_os.Mm.Block.{Block, pmm_merge, absorb_next, pmm_insert_link}
use supernova_os.Mm.Block.Map.{IsMap}
use supernova_os.Mm.Physical.{align_up}
use supernova_os.Mm.Area.{reserve, commit, pick_from, put_part, retype, vmm_alloc_area}
use supernova_os.Mm.Paging.Space.{Translated}
use supernova_os.Mm.Paging.Supply.{take_page, supply}
use supernova_os.Mm.Paging.Fault.{page_fault}
use supernova_os.Mm.Paging.Tests.{empty_world, empty-IsPaged, empty-Fits, page_given}
use supernova_os.Mm.Area.Commit.{page_fault-vmm_alloc_area}
use supernova_os.Mm.Area.Claim.{Granted, vmm_alloc_area-Granted}

abbrev area : ℕ → ℕ → ℕ → Block
area addr size typ = record { addr = addr; size = size; typ = typ; vald = true }

-- Four reserved pages in front of eight free ones.
abbrev areas : List Block
areas = area 65536 16384 1 ∷ area 81920 32768 0 ∷ []

areas-IsMap : IsMap areas
areas-IsMap = (
  record { vald = refl; some_size = omega arith; inside = omega arith },
  record { below = omega arith; gap = λ e. omega arith },
  (record { vald = refl; some_size = omega arith; inside = omega arith }, tt, tt),
)

-- The page reserved joins the four.
reserved :
    vmm_alloc_area areas 0 1 0 reserve ≡ (0, 81920, area 65536 20480 1 ∷ area 86016 28672 0 ∷ [])
unfolding vmm_alloc_area pick_from retype put_part align_up pmm_insert_link absorb_next pmm_merge
reserved = refl

-- The middle of the reserved pages is committed.
abbrev two_committed : List Block
two_committed = area 65536 4096 1 ∷ area 69632 8192 2 ∷ area 77824 4096 1 ∷ area 81920 32768 0 ∷ []

committed : vmm_alloc_area areas 69632 2 0 commit ≡ (0, 69632, two_committed)
unfolding vmm_alloc_area pick_from retype put_part align_up pmm_insert_link absorb_next pmm_merge
committed = refl

refused : vmm_alloc_area areas 0 5 0 commit ≡ (1, 0, areas)
unfolding vmm_alloc_area pick_from align_up
refused = refl

vmm_alloc_area-Granted_example :
    Granted areas 69632 2 0 commit (vmm_alloc_area areas 69632 2 0 commit)
vmm_alloc_area-Granted_example =
    vmm_alloc_area-Granted areas 69632 2 0 commit areas-IsMap (omega arith) (omega arith)
      (omega arith)

page_fault-vmm_alloc_area_example :
    let r = page_fault take_page 0x1000 (some two_committed) 69640 empty_world in
    (69632 ≤ 69640
      → 69640 < 69632 + 2 * 4096
      → Translated take_page supply 0x1000
          (record empty_world { pages = (take_page empty_world.pages).1 })
          0
          69640
          (take_page empty_world.pages).0
          1
          r)
    × ((69640 < 69632) ⊎ (69632 + 2 * 4096 ≤ 69640)
        → r ≡ page_fault take_page 0x1000 (some areas) 69640 empty_world)
page_fault-vmm_alloc_area_example =
    page_fault-vmm_alloc_area take_page supply 0x1000 areas two_committed 69632 2 0 69632 commit
      empty_world 69640 areas-IsMap (omega arith) (omega arith) (omega arith) refl committed
      empty-IsPaged page_given (empty-Fits 0 69640 1) (omega arith) (omega arith)
