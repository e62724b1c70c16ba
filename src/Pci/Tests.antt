-- ===== src/Pci/Tests.antt =====
-- Runs of CORE/src/driver/pci/pci.c, and its theorems at concrete inputs.
use supernova_os.Prelude.{
  ℕ, ◌%◌, ◌^◌, ◌≡◌, refl, true, some, [], ◌∷◌, ◌++◌, arith, ◌==◌, if◌then◌else◌,
}
use supernova_os.Pci.Names.{name_of, pci_device_name, names_8086}
use supernova_os.Pci.Express.{
  pcie_cfg_get_base_address, Capabilities', capability_loop, pcie_capability,
}
use supernova_os.Pci.Express.Bars.{memory64, encode, pcie_cfg_get_base_address-encode}
use supernova_os.Pci.Express.Capabilities.{Search, pcie_capability-Search}
use supernova_os.Pci.Config.{
  Registers, Laws, pci_read_config_word, pci_write_config_word, write_config_word_misses,
}

lpc_name : pci_device_name 0x8086 0xa2c9 ≡ some "Z370 Chipset LPC/eSPI Controller"
unfolding pci_device_name name_of names_8086
lpc_name = refl

-- Registers as a function.
abbrev memory : Registers
memory = record {
  Space = ℕ → ℕ;
  load = λ a s. s a;
  store = λ a v s b. if b == a then v % 2 ^ 32 else s b;
}

memory-Laws : Laws memory
memory-Laws = record { load_other = λ a b v s ne. ground (arith, ne) }

abbrev blank : ℕ → ℕ
blank a = 0x100007

write_config_word_misses_example :
    pci_read_config_word memory (pci_write_config_word memory blank 0x80000100 4 3) 0x80000100 4
    ≡ pci_read_config_word memory blank 0x80000100 4
write_config_word_misses_example =
    write_config_word_misses memory memory-Laws blank 0x80000100 4 3 refl (λ e. omega arith)

pcie_cfg_get_base_address-encode_example :
    pcie_cfg_get_base_address (5 ∷ (encode (memory64 0x4f0000000 true) ++ 7 ∷ [])) 1 ≡ 0x4f0000000
pcie_cfg_get_base_address-encode_example =
    pcie_cfg_get_base_address-encode (5 ∷ []) (7 ∷ []) (memory64 0x4f0000000 true)
      (refl, omega arith)

-- A chain of two that is closed.
abbrev closed : Capabilities'
closed = record {
  first = 0x43;
  caid = λ o. if o == 0x40 then 5 else 0x11;
  next = λ o. if o == 0x40 then 0x50 else 0x40;
}

second_found : pcie_capability closed 0x11 ≡ some 0x50
unfolding pcie_capability capability_loop
second_found = refl

pcie_capability-Search_example : Search closed 0x11 48 0x40 (pcie_capability closed 0x11)
pcie_capability-Search_example = pcie_capability-Search closed 0x11
