-- ===== src/Pci/Vendor.antt =====
-- The names of devices in CORE/src/driver/pci/pci.c, and those of their vendors.
use supernova_os.Prelude.{
  ℕ, ◌≡◌, ◌≢◌, inl, inr, Bool, true, false, ◌||◌, none, some, arith, ◌==◌, Bool-cases,
}
use supernova_os.Pci.Names.{name_of, vendor_names, pci_vendor_name, pci_device_name}
use Prim.Native.String.{String}

-- The vendors that have names.
abbrev named : ℕ → Bool
named v =
    v == 0x10de
    || v == 0x1234
    || v == 0x15ad
    || v == 0x15b7
    || v == 0x1969
    || v == 0x1987
    || v == 0x1b21
    || v == 0x1b36
    || v == 0x1dee
    || v == 0x1e95
    || v == 0x8086
    || v == 0x80ee

named_vendor : (v : ℕ) → named v ≡ true → pci_vendor_name v ≢ none
unfolding pci_vendor_name name_of vendor_names
named_vendor v h = λ e. ground (arith, e)

named_device : (v d : ℕ) → named v ≡ false → pci_device_name v d ≡ none
unfolding pci_device_name
named_device v d h = ground arith

-- A device that has a name is of a vendor that has one, so that `setup_pci` prints both.
pub pci_vendor_name-pci_device_name :
    (v d : ℕ) (n : String) → pci_device_name v d ≡ some n → pci_vendor_name v ≢ none
pci_vendor_name-pci_device_name v d n e = elim (Bool-cases (named v)) [
  | inl h ↦ named_vendor v h
  | inr h ↦ absurd (ground (arith, named_device v d h, e))
]
