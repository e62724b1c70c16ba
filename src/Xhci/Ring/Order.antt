-- ===== src/Xhci/Ring/Order.antt =====
-- The order of the blocks on the rings of CORE/src/driver/xhci/xhc_ring.c.
use supernova_os.Prelude.{
  ℕ, ◌+◌, ◌*◌, ◌%◌, ◌^◌, ◌≤◌, ◌<◌, bit_xor, ◌≡◌, refl, ap, ◌∙◌, ◌≢◌, inl, inr, true, false, none,
  some, arith, ◌==◌, if◌then◌else◌, Bool-cases, length, get_elem?, get_or, length-set,
  get_elem?-set_self, get_elem?-set_ne,
}
use supernova_os.Xhci.Ring.{
  Trb, Ring, blank_trb, wrapped, with_cycle, xhc_queue_transfer, xhc_event_ring_pop,
}

-- A ring that `n` blocks have been queued to, `rounds` times the 255 slots in front of the link.
pub record IsProducer (r : Ring) (n rounds : ℕ) : Type 0 where
  pub room : length r.ring ≡ 256
  pub count : n ≡ rounds * 255 + r.indx
  pub inside : r.indx ≤ 255
  pub phase : r.cycl ≡ (rounds + 1) % 2

-- A ring that `n` events have been taken from, `rounds` times its 256 slots.
pub record IsTaker (r : Ring) (n rounds : ℕ) : Type 0 where
  pub count : n ≡ rounds * 256 + r.indx
  pub inside : r.indx ≤ 255
  pub phase : r.cycl ≡ (rounds + 1) % 2

flip : (rounds c : ℕ) → c ≡ (rounds + 1) % 2 → bit_xor c 1 ≡ (rounds + 1 + 1) % 2
flip rounds c e = elim (Bool-cases (c == 0)) [
  | inl z ↦
      let p : c ≡ 0 = ground arith in
      let r : (rounds + 1 + 1) % 2 ≡ 1 = omega arith in rw (p, r) refl
  | inr z ↦
      let p : c ≡ 1 = ground arith in
      let r : (rounds + 1 + 1) % 2 ≡ 0 = omega arith in rw (p, r) refl
]

abbrev pub rounds_of : Ring → ℕ → ℕ
rounds_of r rounds = if r.indx == 0xff then rounds + 1 else rounds

wrapped-IsProducer :
    (address : ℕ) (r : Ring) (n rounds : ℕ)
    → IsProducer r n rounds
    → IsProducer (wrapped address r) n (rounds_of r rounds) × ((wrapped address r).indx < 255)
wrapped-IsProducer address r n rounds v = elim (Bool-cases (r.indx == 0xff)) [
  | inl e ↦ rw e (
    record {
      room =
          length-set r.ring 0xff (record {
            addr = address;
            stat = (get_or r.ring 0xff blank_trb).stat;
            ctrl = 6 * 2 ^ 10 + 2 + r.cycl;
          })
          ∙ v.room;
      count = ground (arith, v.count);
      inside = omega arith;
      phase = flip rounds r.cycl v.phase;
    },
    omega arith,
  )
  | inr e ↦ rw e (v, ground (arith, v.inside))
]

-- The link that is handed over with the cycle bit `c`.
abbrev pub link_block : ℕ → Ring → ℕ → Trb
link_block address r c = record {
  addr = address;
  stat = (get_or r.ring 0xff blank_trb).stat;
  ctrl = 6 * 2 ^ 10 + 2 + c;
}

link_slot :
    (address : ℕ) (r : Ring)
    → r.indx ≡ 0xff
    → length r.ring ≡ 256
    → get_elem? (wrapped address r).ring 0xff ≡ some (link_block address r r.cycl)
link_slot address r e h =
    let t : (r.indx == 0xff) ≡ true = ground arith in
    rw t (get_elem?-set_self r.ring 0xff (link_block address r r.cycl) (omega arith))

-- The `n`-th block that is queued stands in the slot `n` modulo 255 and carries the cycle bit of its
-- round, so never in the slot of the link; where the ring wraps, the link is handed over with the cycle
-- bit of the round before, and the bit that toggles it.
pub xhc_queue_transfer-IsProducer :
    (address : ℕ) (r : Ring) (trb : Trb) (n rounds : ℕ)
    → IsProducer r n rounds
    → let q = xhc_queue_transfer address r trb in
      IsProducer q.1 (n + 1) (rounds_of r rounds)
      × (n ≡ rounds_of r rounds * 255 + q.0)
      × (q.0 < 255)
      × (get_elem? q.1.ring q.0 ≡ some (with_cycle trb ((rounds_of r rounds + 1) % 2)))
      × (r.indx ≡ 0xff → get_elem? q.1.ring 0xff ≡ some (link_block address r ((rounds + 1) % 2)))
unfolding xhc_queue_transfer
xhc_queue_transfer-IsProducer address r trb n rounds v =
    let (w, lt) = wrapped-IsProducer address r n rounds v in
    let s = wrapped address r in
    (
      record {
        room = length-set s.ring s.indx (with_cycle trb s.cycl) ∙ w.room;
        count = ground (arith, w.count, lt);
        inside = omega (arith, lt);
        phase = w.phase;
      },
      w.count,
      lt,
      get_elem?-set_self s.ring s.indx (with_cycle trb s.cycl) (omega (arith, w.room, lt))
          ∙ ap (λ c. some (with_cycle trb c)) w.phase,
      (λ e.
          get_elem?-set_ne s.ring s.indx 0xff (with_cycle trb s.cycl) (λ q. omega (arith, lt, q))
          ∙ link_slot address r e v.room
          ∙ ap (λ c. some (link_block address r c)) v.phase),
    )

taken :
    (r : Ring) (n rounds : ℕ)
    → IsTaker r n rounds
    → IsTaker
        (record r {
          indx = (r.indx + 1) % 2 ^ 8;
          cycl = if (r.indx + 1) % 2 ^ 8 == 0 then bit_xor r.cycl 1 else r.cycl;
        })
        (n + 1)
        (rounds_of r rounds)
taken r n rounds v = elim (Bool-cases (r.indx == 0xff)) [
  | inl e ↦
      let z : ((r.indx + 1) % 2 ^ 8 == 0) ≡ true = ground arith in
      rw (e, z)
        (record {
          count = ground (arith, v.count);
          inside = omega arith;
          phase = flip rounds r.cycl v.phase;
        })
  | inr e ↦
      let z : ((r.indx + 1) % 2 ^ 8 == 0) ≡ false = ground (arith, v.inside) in
      rw (e, z)
        (record {
          count = ground (arith, v.count, v.inside);
          inside = omega arith;
          phase = v.phase;
        })
]

-- The events that are taken are those that carry the cycle bit of their round, the `n`-th from the slot
-- `n` modulo 256; without one the ring stays as it is.
pub xhc_event_ring_pop-IsTaker :
    (r : Ring) (n rounds : ℕ)
    → IsTaker r n rounds
    → let p = xhc_event_ring_pop r in
      ((get_or r.ring r.indx blank_trb).ctrl % 2 ≡ (rounds + 1) % 2
        → (p.0 ≡ some r.indx) × IsTaker p.1 (n + 1) (rounds_of r rounds))
      × ((get_or r.ring r.indx blank_trb).ctrl % 2 ≢ (rounds + 1) % 2 → (p.0 ≡ none) × (p.1 ≡ r))
unfolding xhc_event_ring_pop
xhc_event_ring_pop-IsTaker r n rounds v =
    let c = (get_or r.ring r.indx blank_trb).ctrl % 2 in
    (
      (λ e.
          let t : (c == r.cycl) ≡ true = ground (arith, v.phase) in
          rw t (refl, taken r n rounds v)),
      (λ ne. let t : (c == r.cycl) ≡ false = ground (arith, v.phase) in rw t (refl, refl)),
    )
