-- ===== src/Pci/Names.antt =====
-- The names of vendors and devices in CORE/src/driver/pci/pci.c.
use supernova_os.Prelude.{ℕ, Bool, Option, none, some, List, [], ◌∷◌, ◌==◌, if◌then◌else◌}
use Prim.Native.String.{String}

-- The first entry of a code.
unfoldable pub name_of : List (ℕ × String) → ℕ → Option String
name_of [] code = none
name_of ((c, s) ∷ rest) code = if code == c then some s else name_of rest code

-- `switch (vendorId)`
unfoldable pub vendor_names : List (ℕ × String)
vendor_names =
    (0x10de, "NVIDIA Corporation")
    ∷ (0x1234, "QEMU Virtual Machine")
    ∷ (0x15ad, "VMware")
    ∷ (0x15b7, "Sandisk Corp")
    ∷ (0x1969, "Qualcomm Atheros")
    ∷ (0x1987, "Phison Electronics Corporation")
    ∷ (0x1b21, "ASMedia Technology Inc.")
    ∷ (0x1b36, "Red Hat Inc")
    ∷ (0x1dee, "Biwin Storage Technology Co., Ltd.")
    ∷ (0x1e95, "Solid State Storage Technology Corporation")
    ∷ (0x8086, "Intel Corporation")
    ∷ (0x80ee, "InnoTek Systemberatung GmbH")
    ∷ []

unfoldable pub pci_vendor_name : ℕ → Option String
pci_vendor_name vendor = name_of vendor_names vendor

unfoldable pub names_10de : List (ℕ × String)
names_10de =
    (0x10f7, "TU102 High Definition Audio Controller")
    ∷ (0x1ad6, "TU102 USB 3.1 Host Controller")
    ∷ (0x1ad7, "TU102 USB Type-C UCSI Controller")
    ∷ (0x1e07, "TU102 [GeForce RTX 2080 Ti Rev. A]")
    ∷ []

unfoldable pub names_1234 : List (ℕ × String)
names_1234 = (0x1111, "VGA Controller") ∷ []

unfoldable pub names_15ad : List (ℕ × String)
names_15ad =
    (0x0405, "SVGA II Adapter")
    ∷ (0x0740, "Virtual Machine Communication Interface")
    ∷ (0x0770, "USB2 EHCI Controller")
    ∷ (0x0774, "USB1.1 UHCI Controller")
    ∷ (0x077a, "USB3 xHCI 2.0 Controller")
    ∷ (0x0790, "PCI bridge")
    ∷ (0x07a0, "PCI Express Root Port")
    ∷ (0x07e0, "SATA AHCI controller")
    ∷ (0x07f0, "NVMe SSD Controller")
    ∷ []

unfoldable pub names_15b7 : List (ℕ × String)
names_15b7 = (0x501e, "PC SN735 / WD_BLACK SN750 SE NVMe SSD (DRAM-less)") ∷ []

unfoldable pub names_1969 : List (ℕ × String)
names_1969 = (0xe0b1, "Killer E2500 Gigabit Ethernet Controller") ∷ []

unfoldable pub names_1987 : List (ℕ × String)
names_1987 = (0x5013, "PS5013 E13 NVMe Controller") ∷ []

unfoldable pub names_1b21 : List (ℕ × String)
names_1b21 = (0x2142, "ASM2142/ASM3142 USB 3.1 Host Controller") ∷ []

unfoldable pub names_1b36 : List (ℕ × String)
names_1b36 = (0x000d, "QEMU XHCI Host Controller") ∷ (0x0010, "QEMU NVM Express Controller") ∷ []

unfoldable pub names_1dee : List (ℕ × String)
names_1dee = (0x2262, "HP EX950 NVMe SSD") ∷ []

unfoldable pub names_1e95 : List (ℕ × String)
names_1e95 = (0x9100, "CL1-3D256-Q11 NVMe SSD M.2") ∷ []

unfoldable pub names_8086 : List (ℕ × String)
names_8086 =
    (0x06d3, "400 Series Chipset Family SATA AHCI Controller")
    ∷ (0x06ed, "Comet Lake USB 3.1 xHCI Host Controller")
    ∷ (0x0dc7, "Ethernet Connection I219-LM")
    ∷ (0x100e, "QEMU Virtual Machine Ethernet Controller")
    ∷ (0x10d3, "QEMU Virtual Machine Ethernet Controller")
    ∷ (0x1237, "440FX - 82441FX PMC [Natoma]")
    ∷ (0x1901, "6th-9th Gen Core Processor PCIe Controller (x16)")
    ∷ (
      0x1911,
      "Xeon E3-1200 v5/v6 / E3-1500 v5 / 6th/7th/8th Gen Core Processor Gaussian Mixture Model",
    )
    ∷ (0x1e31, "7 Series/C210 Series Chipset Family USB xHCI Host Controller")
    ∷ (0x272b, "Wi-Fi 7(802.11be) AX1775*/AX1790*/BE20*/BE401/BE1750* 2x2")
    ∷ (0x27b9, "VirtualBox ISA Bridge")
    ∷ (0x2829, "82801HM/HEM (ICH8M/ICH8M-E) SATA Controller [AHCI mode]")
    ∷ (0x2918, "QEMU Virtual Machine ISA Bridge")
    ∷ (0x2922, "QEMU Virtual Machine SATA Controller [AHCI 1.0]")
    ∷ (0x2930, "QEMU Virtual Machine SMBus Controller")
    ∷ (0x29c0, "QEMU Virtual Machine Host Bridge")
    ∷ (0x3ec2, "8th Gen Core Processor Host Bridge/DRAM Registers")
    ∷ (0x7000, "82371SB PIIX3 ISA [Natoma/Triton II]")
    ∷ (0x7010, "QEMU Virtual Machine IDE Controller")
    ∷ (0x7110, "82371AB/EB/MB PIIX4 ISA")
    ∷ (0x7111, "82371AB/EB/MB PIIX4 IDE")
    ∷ (0x7113, "82371AB/EB/MB PIIX4 ACPI")
    ∷ (0x7191, "440BX/ZX/DX - 82443BX/ZX/DX AGP bridge")
    ∷ (0x7192, "440BX/ZX/DX - 82443BX/ZX/DX Host bridge (AGP disabled)")
    ∷ (0x7a83, "Q670 Chipset eSPI Controller")
    ∷ (0x7aa3, "600 Series Chipset Family SMBus")
    ∷ (0x7aa4, "600 Series Chipset Family SPI (flash) Controller")
    ∷ (0x7aa7, "600 Series Chipset Family Shared SRAM")
    ∷ (0x7aa8, "600 Series Chipset Family UART #0")
    ∷ (0x7aab, "600 Series Chipset Family GSPI #1")
    ∷ (0x7ac8, "600 Series Chipset Family PCIe Root Port #25")
    ∷ (0x7acc, "600 Series Chipset Family I2C Controller #0")
    ∷ (0x7acd, "600 Series Chipset Family I2C Controller #1")
    ∷ (0x7acf, "600 Series Chipset Family I2C Controller #3")
    ∷ (0x7ad0, "600 Series Chipset Family HD Audio")
    ∷ (0x7ae0, "600 Series Chipset Family USB 3.2 Gen 2x2 (20Gbs) XHCI Host Controller")
    ∷ (0x7ae2, "600 Series Chipset Family SATA Controller (AHCI)")
    ∷ (0x7ae8, "600 Series Chipset Family CSME HECI #1")
    ∷ (0x7aeb, "600 Series Chipset Family CSME Keyboard and Text (KT) Redirection")
    ∷ (0x7afc, "600 Series Chipset Family I2C Controller #4")
    ∷ (0x7afd, "600 Series Chipset Family I2C Controller #5")
    ∷ (0xa282, "200 Series PCH SATA controller [AHCI mode]")
    ∷ (0xa290, "200 Series PCH PCI Express Root Port #1")
    ∷ (0xa292, "200 Series PCH PCI Express Root Port #3")
    ∷ (0xa293, "200 Series PCH PCI Express Root Port #4")
    ∷ (0xa294, "200 Series PCH PCI Express Root Port #5")
    ∷ (0xa295, "200 Series PCH PCI Express Root Port #6")
    ∷ (0xa296, "200 Series PCH PCI Express Root Port #7")
    ∷ (0xa297, "200 Series PCH PCI Express Root Port #8")
    ∷ (0xa298, "200 Series PCH PCI Express Root Port #9")
    ∷ (0xa2a1, "200 Series/Z370 Chipset Family Power Management Controller")
    ∷ (0xa2a3, "200 Series/Z370 Chipset Family SMBus Controller")
    ∷ (0xa2af, "200 Series/Z370 Chipset Family USB 3.0 xHCI Controller")
    ∷ (0xa2ba, "200 Series PCH CSME HECI #1")
    ∷ (0xa2c9, "Z370 Chipset LPC/eSPI Controller")
    ∷ (0xa2e7, "200 Series PCH PCI Express Root Port #17")
    ∷ (0xa2e9, "200 Series PCH PCI Express Root Port #19")
    ∷ (0xa2eb, "200 Series PCH PCI Express Root Port #21")
    ∷ (0xa2f0, "200 Series PCH HD Audio")
    ∷ (0xa703, "Raptor Lake-S Host Bridge/DRAM Controller")
    ∷ (0xa77d, "Raptor Lake Crashlog and Telemetry")
    ∷ (0xa780, "Raptor Lake-S GT1 [UHD Graphics 770]")
    ∷ []

unfoldable pub names_80ee : List (ℕ × String)
names_80ee =
    (0x4e56, "VirtualBox NVMe Controller")
    ∷ (0xbeef, "VirtualBox Graphics Adapter")
    ∷ (0xcafe, "VirtualBox Guest Service")
    ∷ []

-- `if (device.VENDOR == vendor) { ... }` and what stands behind it.
abbrev pub or_next : Option String → Option String → Option String
or_next none rest = rest
or_next (some s) rest = some s

abbrev pub in_group : Bool → Option String → Option String → Option String
in_group b name rest = if b then or_next name rest else rest

unfoldable pub pci_device_name : ℕ → ℕ → Option String
pci_device_name vendor device = in_group (vendor == 0x10de) (name_of names_10de device) (
    in_group (vendor == 0x1234) (name_of names_1234 device) (
      in_group (vendor == 0x15ad) (name_of names_15ad device) (
        in_group (vendor == 0x15b7) (name_of names_15b7 device) (
          in_group (vendor == 0x1969) (name_of names_1969 device) (
            in_group (vendor == 0x1987) (name_of names_1987 device) (
              in_group (vendor == 0x1b21) (name_of names_1b21 device) (
                in_group (vendor == 0x1b36) (name_of names_1b36 device) (
                  in_group (vendor == 0x1dee) (name_of names_1dee device) (
                    in_group (vendor == 0x1e95) (name_of names_1e95 device) (
                      in_group (vendor == 0x8086) (name_of names_8086 device)
                        (in_group (vendor == 0x80ee) (name_of names_80ee device) (none))))))))))))
