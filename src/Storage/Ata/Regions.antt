-- ===== src/Storage/Ata/Regions.antt =====
-- The command that `ahci_ata_operation` of CORE/src/driver/ahci/ata.c builds.
use supernova_os.Prelude.{
  ◌∙◌, ℕ, zero, suc, ◌+◌, ◌-◌, ◌*◌, ◌/◌, ◌%◌, ◌^◌, ◌≤◌, ◌<◌, ◌≡◌, refl, inl, inr, List, [], ◌∷◌,
  arith, ltb, ◌==◌, if◌then◌else◌, Bool-cases, length, All, min, get_elem?, some, false,
}
use supernova_os.Storage.Ata.{Region, Port, regions, request}

abbrev pub bytes : List Region → ℕ
bytes [] = 0
bytes (r ∷ rs) = r.bcnt + 1 + bytes rs

module _ (P : Port) where
  regions_step :
      (fuel buf cnt1 : ℕ)
      → (regions P (suc fuel) buf cnt1 ≡ (
          let cnt = if ltb cnt1 8 then cnt1 else 8 in
          if cnt1 == 0
          then []
          else record { addr = P.physical_address buf; bcnt = cnt * 2 ^ 9 - 1 }
            ∷ regions P fuel ((buf + cnt * 2 ^ 9) % 2 ^ 64) (cnt1 - cnt)))
  unfolding regions
  regions_step fuel buf cnt1 = refl

  regions_cover :
      (fuel buf cnt1 : ℕ)
      → cnt1 ≤ fuel
      → (bytes (regions P fuel buf cnt1) ≡ cnt1 * 2 ^ 9)
        × (length (regions P fuel buf cnt1) ≡ (cnt1 + 7) / 8)
        × All (λ r. r.bcnt < 2 ^ 12) (regions P fuel buf cnt1)
  regions_cover zero buf cnt1 h = unfold regions in (omega arith, omega arith, tt)
  regions_cover (suc fuel) buf cnt1 h =
      let cnt = if ltb cnt1 8 then cnt1 else 8 in
      let (b, l, a) =
        regions_cover fuel ((buf + cnt * 2 ^ 9) % 2 ^ 64) (cnt1 - cnt) (ground arith) in
      rw (regions_step fuel buf cnt1) (elim (Bool-cases (cnt1 == 0)) [
        | inl e ↦ rw e (ground arith, ground arith, tt)
        | inr e ↦ rw e (ground (arith, b), ground (arith, l), (ground arith, a))
      ])

  -- Each region is of 8 sectors of the buffer, the last of what is left, one behind the other.
  regions_at :
      (i fuel buf cnt1 : ℕ)
      → cnt1 ≤ fuel
      → buf < 2 ^ 64
      → i * 8 < cnt1
      → get_elem? (regions P fuel buf cnt1) i
        ≡ some (record {
          addr = P.physical_address ((buf + i * 2 ^ 12) % 2 ^ 64);
          bcnt = min 8 (cnt1 - i * 8) * 2 ^ 9 - 1;
        })
  regions_at i zero buf cnt1 h hb hi = absurd (omega arith)
  regions_at zero (suc fuel) buf cnt1 h hb hi =
      let z : (cnt1 == 0) ≡ false = ground arith in
      let a : buf ≡ (buf + 0 * 2 ^ 12) % 2 ^ 64 = omega arith in
      let b : (if ltb cnt1 8 then cnt1 else 8) * 2 ^ 9 - 1 ≡ min 8 (cnt1 - 0 * 8) * 2 ^ 9 - 1 =
        ground arith in
      rw (regions_step fuel buf cnt1, z)
        (λ i. some (record { addr = P.physical_address (a i); bcnt = b i }))
  regions_at (suc i) (suc fuel) buf cnt1 h hb hi =
      let z : (cnt1 == 0) ≡ false = ground arith in
      let c : ltb cnt1 8 ≡ false = ground arith in
      let a : ((buf + 8 * 2 ^ 9) % 2 ^ 64 + i * 2 ^ 12) % 2 ^ 64 ≡ (buf + suc i * 2 ^ 12) % 2 ^ 64 =
        omega arith in
      let b : min 8 (cnt1 - 8 - i * 8) * 2 ^ 9 - 1 ≡ min 8 (cnt1 - suc i * 8) * 2 ^ 9 - 1 =
        omega arith in
      rw (regions_step fuel buf cnt1, z, c)
        (regions_at i fuel ((buf + 8 * 2 ^ 9) % 2 ^ 64) (cnt1 - 8) (omega arith) (omega arith)
            (omega arith)
          ∙ (λ j. some (record { addr = P.physical_address (a j); bcnt = b j })))

  -- For a buffer at an address of 64 bits, the regions of a command are the parts of 8 sectors of the
  -- buffer from its start on, by their physical addresses, the last of the sectors that are left; they
  -- give room for just the sectors of the transfer, each at most a page, and
  -- are as many as the head of the command says; the six bytes of the address are the low 48 bits of
  -- the number of the sector, and its count and its code are those of the call.
  pub request-covers :
      (lba buf count cmd : ℕ)
      → count < 2 ^ 16
      → buf < 2 ^ 64
      → let r = request P lba buf count cmd in
        ((i : ℕ)
          → i * 8 < count
          → get_elem? r.prdt i
            ≡ some (record {
              addr = P.physical_address ((buf + i * 2 ^ 12) % 2 ^ 64);
              bcnt = min 8 (count - i * 8) * 2 ^ 9 - 1;
            }))
        × (bytes r.prdt ≡ count * 2 ^ 9)
        × (length r.prdt ≡ r.rdtl)
        × All (λ g. g.bcnt < 2 ^ 12) r.prdt
        × (r.lba0
              + 2 ^ 8 * r.lba1
              + 2 ^ 16 * r.lba2
              + 2 ^ 24 * r.lba3
              + 2 ^ 32 * r.lba4
              + 2 ^ 40 * r.lba5
            ≡ lba % 2 ^ 48)
        × (r.cont ≡ count)
        × (r.cmmd ≡ cmd)
  unfolding request
  request-covers lba buf count cmd h hb =
      let (b, l, a) = regions_cover count buf count (omega arith) in
      (
        λ i lo. regions_at i count buf count (omega arith) hb lo,
        b,
        omega (arith, l),
        a,
        omega arith,
        omega arith,
        refl,
      )
