-- ===== src/Storage/Ata/Read.antt =====
-- What `ahci_ata_read` in CORE/src/driver/ahci/ata.c reads.
use supernova_os.Prelude.{
  ℕ, zero, suc, ◌+◌, ◌-◌, ◌*◌, ◌%◌, ◌^◌, ◌<◌, ◌≡◌, refl, ap, ◌∙◌, ◌≢◌, inl, inr, Bool, [], ◌∷◌,
  arith, ltb, ◌==◌, if◌then◌else◌, nonzero, Bool-cases,
}
use supernova_os.Storage.Ata.{
  regions, Request, Port, crosses, request, finished, ahci_ata_operation, bounce_loop, direct_loop,
  ahci_ata_read,
}

module _ (Q : Port) where
  region_step :
      (fuel buf cnt : ℕ)
      → (regions Q (suc fuel) buf cnt ≡ (
          let c = if ltb cnt 8 then cnt else 8 in
          if cnt == 0
          then []
          else record { addr = Q.physical_address buf; bcnt = c * 2 ^ 9 - 1 }
            ∷ regions Q fuel ((buf + c * 2 ^ 9) % 2 ^ 64) (cnt - c)))
  unfolding regions
  region_step fuel buf cnt = refl

  bounce_step :
      (fuel : ℕ) (s : Q.State) (page buf lba count : ℕ)
      → (bounce_loop Q (suc fuel) s page buf lba count ≡ (
          let cnt = if ltb 8 count then 8 else count in
          let r = ahci_ata_operation Q s lba page cnt 0x25 in
          if count == 0
          then (0, s)
          else if nonzero r.0
          then r
          else bounce_loop Q fuel
              (Q.copy buf page (cnt * 2 ^ 9) r.1)
              page
              ((buf + cnt * 2 ^ 9) % 2 ^ 64)
              lba
              (count - cnt)))
  unfolding bounce_loop
  bounce_step fuel s page buf lba count = refl

  direct_step :
      (fuel : ℕ) (s : Q.State) (buf lba count : ℕ)
      → (direct_loop Q (suc fuel) s buf lba count ≡ (
          let cnt = if ltb 1024 count then 1024 else count in
          let r = ahci_ata_operation Q s lba buf cnt 0x25 in
          if count == 0
          then (0, s)
          else if nonzero r.0
          then r
          else direct_loop Q fuel r.1 ((buf + cnt * 2 ^ 9) % 2 ^ 64) lba (count - cnt)))
  unfolding direct_loop
  direct_step fuel s buf lba count = refl

  -- The fuel of the two loops is enough: more of it changes nothing.
  bounce_fuel :
      (f g : ℕ) (s : Q.State) (page buf lba count : ℕ)
      → count < f
      → count < g
      → bounce_loop Q f s page buf lba count ≡ bounce_loop Q g s page buf lba count
  bounce_fuel zero g s page buf lba count hf hg = absurd (omega arith)
  bounce_fuel (suc f) zero s page buf lba count hf hg = absurd (omega arith)
  bounce_fuel (suc f) (suc g) s page buf lba count hf hg =
      let cnt = if ltb 8 count then 8 else count in
      let r = ahci_ata_operation Q s lba page cnt 0x25 in
      let rest : count ≢ 0
          → bounce_loop Q f (Q.copy buf page (cnt * 2 ^ 9) r.1) page ((buf + cnt * 2 ^ 9) % 2 ^ 64)
              lba (count - cnt)
            ≡ bounce_loop Q g (Q.copy buf page (cnt * 2 ^ 9) r.1) page
                ((buf + cnt * 2 ^ 9) % 2 ^ 64) lba (count - cnt) =
        λ ne.
          bounce_fuel f g (Q.copy buf page (cnt * 2 ^ 9) r.1) page ((buf + cnt * 2 ^ 9) % 2 ^ 64)
            lba (count - cnt) (ground (arith, ne)) (ground (arith, ne)) in
      rw (bounce_step f s page buf lba count, bounce_step g s page buf lba count)
        (elim (Bool-cases (count == 0)) [
          | inl e ↦ rw e refl
          | inr e ↦ rw (e, rest (ground arith)) refl
        ])

  direct_fuel :
      (f g : ℕ) (s : Q.State) (buf lba count : ℕ)
      → count < f
      → count < g
      → direct_loop Q f s buf lba count ≡ direct_loop Q g s buf lba count
  direct_fuel zero g s buf lba count hf hg = absurd (omega arith)
  direct_fuel (suc f) zero s buf lba count hf hg = absurd (omega arith)
  direct_fuel (suc f) (suc g) s buf lba count hf hg =
      let cnt = if ltb 1024 count then 1024 else count in
      let r = ahci_ata_operation Q s lba buf cnt 0x25 in
      let rest : count ≢ 0
          → direct_loop Q f r.1 ((buf + cnt * 2 ^ 9) % 2 ^ 64) lba (count - cnt)
            ≡ direct_loop Q g r.1 ((buf + cnt * 2 ^ 9) % 2 ^ 64) lba (count - cnt) =
        λ ne.
          direct_fuel f g r.1 ((buf + cnt * 2 ^ 9) % 2 ^ 64) lba (count - cnt) (ground (arith, ne))
            (ground (arith, ne)) in
      rw (direct_step f s buf lba count, direct_step g s buf lba count)
        (elim (Bool-cases (count == 0)) [
          | inl e ↦ rw e refl
          | inr e ↦ rw (e, rest (ground arith)) refl
        ])

module _ (P : Port) (run' : Request → P.State → Bool × P.State) where
  -- The same machine with another disk.
  abbrev pub other : Port
  other = record {
    State = P.State;
    physical_address = P.physical_address;
    busy = P.busy;
    run = run';
    copy = P.copy;
  }

  -- Two disks that answer a command for the sector `lba` in the same way.
  abbrev pub Agree : ℕ → Type 0
  Agree lba =
      (buf count : ℕ) (s : P.State)
      → P.run (request P lba buf count 0x25) s ≡ run' (request P lba buf count 0x25) s

  regions_agree : (fuel buf cnt : ℕ) → regions P fuel buf cnt ≡ regions other fuel buf cnt
  regions_agree zero buf cnt = unfold regions in refl
  regions_agree (suc fuel) buf cnt =
      let c = if ltb cnt 8 then cnt else 8 in
      let rest = regions_agree fuel ((buf + c * 2 ^ 9) % 2 ^ 64) (cnt - c) in
      rw (region_step P fuel buf cnt, region_step other fuel buf cnt, rest) refl

  request_agrees :
      (lba buf count : ℕ) → request P lba buf count 0x25 ≡ request other lba buf count 0x25
  unfolding request
  request_agrees lba buf count =
      ap (λ l. record (request P lba buf count 0x25) { prdt = l }) (regions_agree count buf count)

  operation_agrees :
      (lba : ℕ)
      → Agree lba
      → (s : P.State) (buf count : ℕ)
      → ahci_ata_operation P s lba buf count 0x25 ≡ ahci_ata_operation other s lba buf count 0x25
  unfolding ahci_ata_operation
  operation_agrees lba h s buf count =
      ap (λ r. if crosses buf count then (1, s) else if P.busy s then (2, s) else finished P r)
        (h buf count s ∙ ap (λ q. run' q s) (request_agrees lba buf count))

  bounce_agrees :
      (lba : ℕ)
      → Agree lba
      → (fuel : ℕ) (s : P.State) (page buf count : ℕ)
      → bounce_loop P fuel s page buf lba count ≡ bounce_loop other fuel s page buf lba count
  bounce_agrees lba h zero s page buf count = unfold bounce_loop in refl
  bounce_agrees lba h (suc fuel) s page buf count =
      let cnt = if ltb 8 count then 8 else count in
      let r = ahci_ata_operation other s lba page cnt 0x25 in
      let rest =
        bounce_agrees lba h fuel (P.copy buf page (cnt * 2 ^ 9) r.1) page
          ((buf + cnt * 2 ^ 9) % 2 ^ 64) (count - cnt) in
      rw
        (
          bounce_step P fuel s page buf lba count,
          bounce_step other fuel s page buf lba count,
          operation_agrees lba h s page cnt,
          rest,
        )
        refl

  direct_agrees :
      (lba : ℕ)
      → Agree lba
      → (fuel : ℕ) (s : P.State) (buf count : ℕ)
      → direct_loop P fuel s buf lba count ≡ direct_loop other fuel s buf lba count
  direct_agrees lba h zero s buf count = unfold direct_loop in refl
  direct_agrees lba h (suc fuel) s buf count =
      let cnt = if ltb 1024 count then 1024 else count in
      let r = ahci_ata_operation other s lba buf cnt 0x25 in
      let rest = direct_agrees lba h fuel r.1 ((buf + cnt * 2 ^ 9) % 2 ^ 64) (count - cnt) in
      rw
        (
          direct_step P fuel s buf lba count,
          direct_step other fuel s buf lba count,
          operation_agrees lba h s buf cnt,
          rest,
        )
        refl

  -- A read depends on what the disk answers to commands for the first sector alone: whatever the count,
  -- all of its commands are for that sector, since the number of the sector stays as it is between them.
  pub ahci_ata_read-Agree :
      (s : P.State) (device page buf lba count : ℕ)
      → Agree lba
      → ahci_ata_read P s device page buf lba count
        ≡ ahci_ata_read other s device page buf lba count
  unfolding ahci_ata_read
  ahci_ata_read-Agree s device page buf lba count h =
      rw
        (
          bounce_agrees lba h (suc count) s page buf count,
          direct_agrees lba h (suc count) s buf count,
        )
        refl
