-- ===== src/Irq/Madt.antt =====
-- The walks of the MADT in CORE/src/interrupt/apic.c.
use supernova_os.Prelude.{
  ℕ, zero, suc, ◌+◌, ◌-◌, ◌*◌, ◌/◌, ◌%◌, ◌^◌, ◌≤◌, ◌<◌, min, max, bit_and, bit_or, bit_xor, ◌≡◌,
  refl, sym, ap, ◌∙◌, ◌≢◌, ◌↔◌, ◌⊎◌, inl, inr, Bool, true, false, not, ◌&&◌, ◌||◌, Option, none,
  some, List, [], ◌∷◌, ◌++◌, map, append_assoc, append-nil, arith, ltb, leb, ◌==◌, if◌then◌else◌,
  nonzero, ltb→lt, ltb→le, lt→ltb, le→ltb, leb→le, ==_iff, Bool-cases, Option-cases, length,
  get_elem?, get_or, set, take, drop, replicate, All, length-append, length-replicate, length-set,
  length-take, get_elem?-set_self, get_elem?-set_ne, get_elem?_out, get_elem?-append_left,
  get_elem?-append_right,
}
pub mod Entries

-- The bytes from DATA on, and how many of them are the table's: `HEAD.LENG - sizeof(ACPI_MADT)`.
pub record Table : Type 0 where
  pub data' : ℕ → ℕ
  pub size : ℕ

-- TYP and SZE of the entry at an offset, and the fields behind them: AID and FLG of a local APIC, ADR
-- and GSI of an I/O APIC, IRQ and GSI of an override.
abbrev pub dword_at : Table → ℕ → ℕ
dword_at t i =
    t.data' i + 2 ^ 8 * t.data' (i + 1) + 2 ^ 16 * t.data' (i + 2) + 2 ^ 24 * t.data' (i + 3)

abbrev pub typ : Table → ℕ → ℕ
typ t i = t.data' i

abbrev pub sze : Table → ℕ → ℕ
sze t i = t.data' (i + 1)

-- The loop that the functions share, on fuel, with what they do at an entry: `some` where they return.
unfoldable pub walk {ℓ} : {R : Type ℓ} → Table → (ℕ → Option R) → R → ℕ → ℕ → Option R
walk t visit fallback zero read = none
walk t visit fallback (suc fuel) read =
    let later = walk t visit fallback fuel (read + sze t read) in
    if not (ltb read t.size)
    then some fallback
    else elim (visit read) [ some r ↦ some r | none ↦ later ]

-- A BYTE of the GSI is returned.
abbrev pub override_at : Table → ℕ → ℕ → Option ℕ
override_at t irq read =
    if typ t read == 2 && t.data' (read + 3) == irq
    then some (dword_at t (read + 4) % 2 ^ 8)
    else none

unfoldable pub ioapic_override : Table → ℕ → Option ℕ
ioapic_override t irq = walk t (override_at t irq) irq (suc t.size) 0

-- A redirection that is written: the address of the I/O APIC, the index, and the value.
pub record Redirect : Type 0 where
  pub addr : ℕ
  pub idx : ℕ
  pub value : ℕ

-- `version` is what the register IOAPIC_VER of the I/O APIC at an address reads.
abbrev pub redirect_at : Table → (ℕ → ℕ) → ℕ → ℕ → ℕ → ℕ → Option (Option Redirect)
redirect_at t version apic irq vec read =
    let adr = dword_at t (read + 4) in
    let gsi = dword_at t (read + 8) in
    let count = version adr / 2 ^ 16 % 2 ^ 8 in
    if typ t read == 1 && leb gsi irq && ltb irq ((gsi + count) % 2 ^ 32)
    then some (some (record { addr = adr; idx = irq - gsi; value = vec + apic % 2 ^ 8 * 2 ^ 56 }))
    else none

-- The redirection, or `none` where 1 is returned.
abbrev pub redirected : Table → (ℕ → ℕ) → ℕ → ℕ → Option ℕ → Option (Option Redirect)
redirected t version apic vec none = none
redirected t version apic vec (some irq) =
    walk t (redirect_at t version apic irq vec) none (suc t.size) 0

unfoldable pub ioapic_redirect : Table → (ℕ → ℕ) → ℕ → ℕ → ℕ → Option (Option Redirect)
ioapic_redirect t version apic irq vec = redirected t version apic vec (ioapic_override t irq)

-- `CPU_MASK |= (1ULL << apicId)` at a local APIC that is enabled and not the one that runs.
abbrev pub with_cpu : Table → ℕ → ℕ → ℕ → ℕ
with_cpu t bsp read mask =
    let aid = t.data' (read + 3) in
    if typ t read == 0 && dword_at t (read + 4) % 2 == 1 && not (aid == bsp)
    then bit_or mask (2 ^ (aid % 64))
    else mask

unfoldable pub mask_loop : Table → ℕ → ℕ → ℕ → ℕ → Option ℕ
mask_loop t bsp zero read mask = none
mask_loop t bsp (suc fuel) read mask =
    let later = mask_loop t bsp fuel (read + sze t read) (with_cpu t bsp read mask) in
    if not (ltb read t.size) then some mask else later

-- `bsp` is `apic_current_id()`, and the result is CPU_MASK.
unfoldable pub setup_madt : Table → ℕ → ℕ → Option ℕ
setup_madt t bsp mask = mask_loop t bsp (suc t.size) 0 mask
