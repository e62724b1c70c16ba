-- ===== src/Xhci/Ring.antt =====
-- The rings of CORE/src/driver/xhci/xhc_ring.c.
use supernova_os.Prelude.{
  ℕ, zero, suc, ◌+◌, ◌-◌, ◌*◌, ◌/◌, ◌%◌, ◌^◌, ◌≤◌, ◌<◌, min, max, bit_and, bit_or, bit_xor, ◌≡◌,
  refl, sym, ap, ◌∙◌, ◌≢◌, ◌↔◌, ◌⊎◌, inl, inr, Bool, true, false, not, ◌&&◌, ◌||◌, Option, none,
  some, List, [], ◌∷◌, ◌++◌, map, append_assoc, append-nil, arith, ltb, leb, ◌==◌, if◌then◌else◌,
  nonzero, ltb→lt, ltb→le, lt→ltb, le→ltb, leb→le, ==_iff, Bool-cases, Option-cases, length,
  get_elem?, get_or, set, take, drop, replicate, All, length-append, length-replicate, length-set,
  length-take, get_elem?-set_self, get_elem?-set_ne, get_elem?_out, get_elem?-append_left,
  get_elem?-append_right,
}
pub mod Order

-- XHCI_TRB_GENERIC: the fields DATA, STAT and CTRL.
pub record Trb : Type 0 where
  pub addr : ℕ
  pub stat : ℕ
  pub ctrl : ℕ

-- XHCI_TRANSFER_RING: the ring of 256 blocks, the next slot and the cycle bit.
pub record Ring : Type 0 where
  pub ring : List Trb
  pub indx : ℕ
  pub cycl : ℕ

abbrev pub blank_trb : Trb
blank_trb = record { addr = 0; stat = 0; ctrl = 0 }

-- `(XHCI_TRB_TYPE_LINK << 10) | 2 | ring->CYCL` in the last slot: the fields are DATA and CTRL.
abbrev pub link : List Trb → ℕ → ℕ → List Trb
link ring address cycl = set ring 0xff (record {
  addr = address;
  stat = (get_or ring 0xff blank_trb).stat;
  ctrl = 6 * 2 ^ 10 + 2 + cycl;
})

-- The ring behind the wrap of the enqueue pointer.
abbrev pub wrapped : ℕ → Ring → Ring
wrapped address r =
    if r.indx == 0xff
    then record { ring = link r.ring address r.cycl; indx = 0; cycl = bit_xor r.cycl 1 }
    else r

-- `normal->CYCL = ring->CYCL`
abbrev pub with_cycle : Trb → ℕ → Trb
with_cycle t c = record t { ctrl = t.ctrl / 2 * 2 + c }

-- The slot of the block, and the ring. `address` is the physical address of the ring.
unfoldable pub xhc_queue_transfer : ℕ → Ring → Trb → ℕ × Ring
xhc_queue_transfer address r trb =
    let w = wrapped address r in
    (
      w.indx,
      record {
        ring = set w.ring w.indx (with_cycle trb w.cycl);
        indx = (w.indx + 1) % 2 ^ 8;
        cycl = w.cycl;
      },
    )

-- The slot of the event, where there is one, and the ring.
unfoldable pub xhc_event_ring_pop : Ring → Option ℕ × Ring
xhc_event_ring_pop r =
    let next = (r.indx + 1) % 2 ^ 8 in
    if not ((get_or r.ring r.indx blank_trb).ctrl % 2 == r.cycl) then (none, r) else (
      some r.indx,
      record r { indx = next; cycl = if next == 0 then bit_xor r.cycl 1 else r.cycl },
    )

-- A ring of zeroes, with a link in the last slot of a ring that has one.
unfoldable pub xhc_transfer_ring_create : ℕ → Bool → Ring
xhc_transfer_ring_create address has_link = record {
  ring =
      if has_link
      then set (replicate 256 blank_trb) 0xff
          (record { addr = address; stat = 0; ctrl = 6 * 2 ^ 10 + 3 })
      else replicate 256 blank_trb;
  indx = 0;
  cycl = 1;
}
