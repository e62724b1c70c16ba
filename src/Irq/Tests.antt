-- ===== src/Irq/Tests.antt =====
-- Runs of the walks of the MADT of CORE/src/interrupt/apic.c, and their theorems at concrete inputs.
use supernova_os.Prelude.{
  ℕ, ◌≡◌, refl, if◌then◌else◌, Option, none, some, List, [], ◌∷◌, arith, get_or,
}
use supernova_os.Irq.Madt.{
  Table, walk, override_at, ioapic_override, Redirect, ioapic_redirect, mask_loop, setup_madt,
}
use supernova_os.Prelude.Bits.{bit_at}
use supernova_os.Irq.Madt.Entries.{
  Overridden, Routed, any_cpu, Laid, done, next, ioapic_redirect-Laid, walk_endless,
  setup_madt-Laid,
}

-- An I/O APIC at 0xFEC00000 of the interrupts from 0 on, and the override of interrupt 0 by 2.
abbrev bytes : List ℕ
bytes =
    1 ∷ 12 ∷ 0 ∷ 0 ∷ 0 ∷ 0 ∷ 0xc0 ∷ 0xfe ∷ 0 ∷ 0 ∷ 0 ∷ 0 ∷ 2 ∷ 10 ∷ 0 ∷ 0 ∷ 2 ∷ 0 ∷ 0 ∷ 0 ∷ 0 ∷ 0
    ∷ []

abbrev table : Table
table = record { data' = λ i. get_or bytes i 0; size = 22 }

table-Laid : Laid table 0 (0 ∷ 12 ∷ [])
table-Laid =
    next (omega arith) (omega arith) (next (omega arith) (omega arith) (done (omega arith)))

-- The register of 24 entries.
abbrev version : ℕ → ℕ
version adr = 0x170011

redirected_timer :
    ioapic_redirect table version 3 0 0x20
    ≡ some (some (record { addr = 0xfec00000; idx = 2; value = 0x0300000000000020 }))
unfolding ioapic_redirect ioapic_override walk
redirected_timer = refl

-- The last of the 24 entries is out of reach.
last_entry : ioapic_redirect table version 3 23 0x20 ≡ some none
unfolding ioapic_redirect ioapic_override walk
last_entry = refl

ioapic_redirect-Laid_example :
    (g : ℕ) × (o : Option Redirect) × Overridden table 0 (0 ∷ 12 ∷ []) g
    × (ioapic_redirect table version 3 0 0x20 ≡ some o)
    × Routed table version 3 0x20 g (0 ∷ 12 ∷ []) o
ioapic_redirect-Laid_example = ioapic_redirect-Laid table version 3 0 0x20 (0 ∷ 12 ∷ []) table-Laid

abbrev broken : Table
broken = record { data' = λ i. 0; size = 22 }

walk_endless_example : walk broken (override_at broken 0) 0 100 0 ≡ none
walk_endless_example = walk_endless broken (override_at broken 0) 0 0 (omega arith) refl refl 100

-- Two local APICs that are enabled, 0 and 3.
abbrev cpu_bytes : List ℕ
cpu_bytes = 0 ∷ 8 ∷ 0 ∷ 0 ∷ 1 ∷ 0 ∷ 0 ∷ 0 ∷ 0 ∷ 8 ∷ 1 ∷ 3 ∷ 1 ∷ 0 ∷ 0 ∷ 0 ∷ []

abbrev cpus : Table
cpus = record { data' = λ i. get_or cpu_bytes i 0; size = 16 }

cpus-Laid : Laid cpus 0 (0 ∷ 8 ∷ [])
cpus-Laid = next (omega arith) (omega arith) (next (omega arith) (omega arith) (done (omega arith)))

started : setup_madt cpus 0 0 ≡ some 8
unfolding setup_madt mask_loop
started = refl

setup_madt-Laid_example :
    (m : ℕ) × (setup_madt cpus 0 0 ≡ some m)
    × ((k : ℕ) → bit_at k m ≡ (if any_cpu cpus 0 k (0 ∷ 8 ∷ []) then 1 else bit_at k 0))
setup_madt-Laid_example = setup_madt-Laid cpus 0 0 (0 ∷ 8 ∷ []) cpus-Laid
