-- ===== src/Pci/Config.antt =====
-- The configuration space in CORE/src/driver/pci/pci.c.
use supernova_os.Prelude.{
  ℕ, ◌+◌, ◌*◌, ◌/◌, ◌%◌, ◌^◌, ◌<◌, ◌≡◌, sym, ap, ◌≢◌, Bool, false, not, ◌||◌, arith, ltb, ◌==◌,
  if◌then◌else◌,
}

-- The two ports of the mechanism, PCI_CONFIG_ADDRESS and PCI_CONFIG_DATA, and the registers behind
-- them: a read or write of the data port is one of the register that the address port names.
pub record Registers : Type 1 where
  pub Space : Type 0
  pub load : ℕ → Space → ℕ
  pub store : ℕ → ℕ → Space → Space

-- A write of one register leaves the others as they are.
pub record Laws (R : Registers) : Type 0 where
  pub load_other : (a b v : ℕ) (s : R.Space) → a ≢ b → R.load a (R.store b v s) ≡ R.load a s

-- The test of the arguments, for an access of `width` bytes.
abbrev pub refused : ℕ → ℕ → ℕ → Bool
refused width device offset =
    not (device % 256 == 0) || ltb 0xff offset || not (offset % width == 0)

-- `deviceId | (offset & 0xFC)`: the low byte of the device is 0.
abbrev pub config_address : ℕ → ℕ → ℕ
config_address device offset = device + offset / 4 * 4

-- `(offset & 2) << 3`
abbrev pub shift_of : ℕ → ℕ
shift_of offset = offset / 2 % 2 * 16

module _ (R : Registers) where
  unfoldable pub pci_read_config_word : R.Space → ℕ → ℕ → ℕ
  pci_read_config_word s device offset =
      if refused 2 device offset
      then 0xffffffff
      else R.load (config_address device offset) s / 2 ^ shift_of offset % 2 ^ 16

  unfoldable pub pci_read_config_dword : R.Space → ℕ → ℕ → ℕ
  pci_read_config_dword s device offset =
      if refused 4 device offset then 0xffffffff else R.load (config_address device offset) s

  -- `(oldVal & ~mask) | (value << shift)`
  abbrev pub put_word : ℕ → ℕ → ℕ → ℕ
  put_word old value offset =
      if offset / 2 % 2 == 0 then old / 2 ^ 16 * 2 ^ 16 + value else old % 2 ^ 16 + value * 2 ^ 16

  -- The address port holds `newVal` when the data port is written.
  unfoldable pub pci_write_config_word : R.Space → ℕ → ℕ → ℕ → R.Space
  pci_write_config_word s device offset value =
      if refused 2 device offset
      then s
      else let new_val =
          put_word (R.load (config_address device offset) s) (value % 2 ^ 16) offset in
        R.store new_val new_val s

  unfoldable pub pci_write_config_dword : R.Space → ℕ → ℕ → ℕ → R.Space
  pci_write_config_dword s device offset value =
      if refused 4 device offset then s else R.store (config_address device offset) value s

  unfoldable pub pci_cfg_get_command : R.Space → ℕ → ℕ
  pci_cfg_get_command s device = pci_read_config_word s device 4

  unfoldable pub pci_cfg_set_command : R.Space → ℕ → ℕ → R.Space
  pci_cfg_set_command s device value = pci_write_config_word s device 4 value

  unfoldable pub pci_cfg_get_vendor : R.Space → ℕ → ℕ
  pci_cfg_get_vendor s device = pci_read_config_dword s device 0

  unfoldable pub pci_cfg_get_class : R.Space → ℕ → ℕ
  pci_cfg_get_class s device = pci_read_config_dword s device 8 / 2 ^ 8

  unfoldable pub pci_cfg_get_header_type : R.Space → ℕ → ℕ
  pci_cfg_get_header_type s device = pci_read_config_word s device 14 % 2 ^ 8

  unfoldable pub pci_cfg_get_subsystem : R.Space → ℕ → ℕ
  pci_cfg_get_subsystem s device = pci_read_config_dword s device 44

  -- `command |= (PCI_COMMAND_IO_SPACE | PCI_COMMAND_MEMORY_SPACE)`: the low two bits are set.
  unfoldable pub pci_enable : R.Space → ℕ → R.Space
  pci_enable s device =
      let command = pci_cfg_get_command s device in
      if command == 0xffffffff then s else pci_cfg_set_command s device (command / 4 * 4 + 3)

  -- The two words of a register make up the DWORD.
  pub words-read_config_dword :
      (s : R.Space) (device offset : ℕ)
      → refused 4 device offset ≡ false
      → R.load (device + offset) s < 2 ^ 32
      → pci_read_config_word s device (offset + 2) * 2 ^ 16 + pci_read_config_word s device offset
        ≡ pci_read_config_dword s device offset
  unfolding pci_read_config_dword pci_read_config_word
  words-read_config_dword s device offset h b =
      let r : refused 2 device (offset + 2) ≡ false = ground arith in
      let r' : refused 2 device offset ≡ false = ground arith in
      let a : config_address device (offset + 2) ≡ device + offset = ground arith in
      let a' : config_address device offset ≡ device + offset = ground arith in
      let z : shift_of (offset + 2) ≡ 16 = ground arith in
      let z' : shift_of offset ≡ 0 = ground arith in rw (r, r', h, a, a', z, z') (omega (arith, b))

  -- A word that is written to a register of a device is not: where the DWORD that is to be stored is
  -- not by chance the address of the register, the register holds what it did.
  pub write_config_word_misses :
      (L : Laws R) (s : R.Space) (device offset value : ℕ)
      → refused 2 device offset ≡ false
      → put_word (R.load (config_address device offset) s) (value % 2 ^ 16) offset
        ≢ config_address device offset
      → pci_read_config_word (pci_write_config_word s device offset value) device offset
        ≡ pci_read_config_word s device offset
  unfolding pci_read_config_word pci_write_config_word
  write_config_word_misses L s device offset value h ne =
      let n = put_word (R.load (config_address device offset) s) (value % 2 ^ 16) offset in
      rw h (
        ap (λ x. x / 2 ^ shift_of offset % 2 ^ 16)
          (L.load_other (config_address device offset) n n s (λ q. ne (sym q))))
