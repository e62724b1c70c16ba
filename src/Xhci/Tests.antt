-- ===== src/Xhci/Tests.antt =====
-- Runs of the rings of CORE/src/driver/xhci/xhc_ring.c, and their theorems at concrete inputs.
use supernova_os.Prelude.{
  ◌+◌, ◌*◌, ◌%◌, ◌<◌, ◌≡◌, refl, ◌≢◌, none, some, arith, get_elem?, get_or, replicate,
  length-replicate,
}
use supernova_os.Xhci.Ring.{Ring, blank_trb, with_cycle, xhc_queue_transfer, xhc_event_ring_pop}
use supernova_os.Xhci.Ring.Order.{
  IsProducer, IsTaker, link_block, xhc_queue_transfer-IsProducer, xhc_event_ring_pop-IsTaker,
}

-- A ring whose next slot is the link.
abbrev full : Ring
full = record { ring = replicate 256 blank_trb; indx = 255; cycl = 1 }

full-IsProducer : IsProducer full 255 0
full-IsProducer = record {
  room = length-replicate 256 blank_trb;
  count = refl;
  inside = omega arith;
  phase = refl;
}

xhc_queue_transfer-IsProducer_example :
    let q = xhc_queue_transfer 4096 full blank_trb in
    IsProducer q.1 256 1
    × (full.indx ≡ 1 * 255 + q.0)
    × (q.0 < 255)
    × (get_elem? q.1.ring q.0 ≡ some (with_cycle blank_trb 0))
    × (full.indx ≡ 0xff → get_elem? q.1.ring 0xff ≡ some (link_block 4096 full 1))
xhc_queue_transfer-IsProducer_example =
    xhc_queue_transfer-IsProducer 4096 full blank_trb 255 0 full-IsProducer

xhc_event_ring_pop-IsTaker_example :
    let p = xhc_event_ring_pop full in
    ((get_or full.ring 255 blank_trb).ctrl % 2 ≡ 1 → (p.0 ≡ some 255) × IsTaker p.1 256 1)
    × ((get_or full.ring 255 blank_trb).ctrl % 2 ≢ 1 → (p.0 ≡ none) × (p.1 ≡ full))
xhc_event_ring_pop-IsTaker_example =
    xhc_event_ring_pop-IsTaker full 255 0
      (record { count = refl; inside = omega arith; phase = refl })
