-- ===== src/Pci/Scan.antt =====
-- The search for devices in `setup_pci` of CORE/src/driver/pci/pci.c.
use supernova_os.Prelude.{
  ℕ, zero, suc, ◌+◌, ◌*◌, ◌/◌, ◌%◌, ◌^◌, ◌≡◌, refl, Bool, true, false, not, ◌&&◌, List, [], ◌∷◌,
  arith, ◌==◌, if◌then◌else◌,
}
use supernova_os.Pci.Config.{Registers, pci_cfg_get_vendor}

-- `addr.RSV`: bits 24 to 30.
abbrev pub rsv : ℕ → ℕ
rsv address = address / 2 ^ 24 % 2 ^ 7

-- `vendor.VENDOR` is not 0 and not 0xFFFF.
abbrev pub present : ℕ → Bool
present vendor = not (vendor % 2 ^ 16 == 0) && not (vendor % 2 ^ 16 == 0xffff)

module _ (R : Registers) (s : R.Space) where
  -- The addresses of the devices that are printed.
  unfoldable pub scan : ℕ → ℕ → List ℕ
  scan zero address = []
  scan (suc fuel) address =
      let later = scan fuel ((address + 0x100) % 2 ^ 32) in
      if not (rsv address == 0)
      then []
      else if present (pci_cfg_get_vendor R s address)
      then address ∷ later
      else later

  -- `fuel` 65537 is one turn for each function of 32 devices on 256 buses, and one for the end.
  unfoldable pub setup_pci : List ℕ
  setup_pci = scan 65537 0x80000000

  -- The functions from the `k`-th on, `m` of them, that answer.
  abbrev pub answering : ℕ → ℕ → List ℕ
  answering k zero = []
  answering k (suc m) =
      let rest = answering (suc k) m in
      if present (pci_cfg_get_vendor R s (0x80000000 + 0x100 * k))
      then (0x80000000 + 0x100 * k) ∷ rest
      else rest

  scan_step :
      (fuel address : ℕ)
      → (scan (suc fuel) address ≡ (
          if not (rsv address == 0)
          then []
          else if present (pci_cfg_get_vendor R s address)
          then address ∷ scan fuel ((address + 0x100) % 2 ^ 32)
          else scan fuel ((address + 0x100) % 2 ^ 32)))
  unfolding scan
  scan_step fuel address = refl

  scan_from : (m k : ℕ) → k + m ≡ 65536 → scan (suc m) (0x80000000 + 0x100 * k) ≡ answering k m
  scan_from zero k e =
      let z : (not (rsv (0x80000000 + 0x100 * k) == 0)) ≡ true = ground arith in
      rw (scan_step 0 (0x80000000 + 0x100 * k), z) refl
  scan_from (suc m) k e =
      let rest = scan_from m (suc k) (omega arith) in
      let z : (not (rsv (0x80000000 + 0x100 * k) == 0)) ≡ false = ground arith in
      let next : (0x80000000 + 0x100 * k + 0x100) % 2 ^ 32 ≡ 0x80000000 + 0x100 * suc k =
        omega arith in
      rw (scan_step (suc m) (0x80000000 + 0x100 * k), z, next, rest) refl

  -- Each of the 65536 functions is asked for its vendor once, in order, and those that answer are found.
  pub setup_pci-answering : setup_pci ≡ answering 0 65536
  unfolding setup_pci
  setup_pci-answering = scan_from 65536 0 refl
