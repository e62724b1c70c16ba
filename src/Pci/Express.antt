-- ===== src/Pci/Express.antt =====
-- The base addresses and capabilities of CORE/src/driver/pci/pcie.c.
use supernova_os.Prelude.{
  ℕ, zero, suc, ◌+◌, ◌-◌, ◌*◌, ◌/◌, ◌%◌, ◌^◌, ◌≤◌, ◌<◌, min, max, bit_and, bit_or, bit_xor, ◌≡◌,
  refl, sym, ap, ◌∙◌, ◌≢◌, ◌↔◌, ◌⊎◌, inl, inr, Bool, true, false, not, ◌&&◌, ◌||◌, Option, none,
  some, List, [], ◌∷◌, ◌++◌, map, append_assoc, append-nil, arith, ltb, leb, ◌==◌, if◌then◌else◌,
  nonzero, ltb→lt, ltb→le, lt→ltb, le→ltb, leb→le, ==_iff, Bool-cases, Option-cases, length,
  get_elem?, get_or, set, take, drop, replicate, All, length-append, length-replicate, length-set,
  length-take, get_elem?-set_self, get_elem?-set_ne, get_elem?_out, get_elem?-append_left,
  get_elem?-append_right,
}
pub mod Bars
pub mod Capabilities

-- `pcie_cfg_get_base_address`: `bars` are the DWORDs of the base addresses.
unfoldable pub pcie_cfg_get_base_address : List ℕ → ℕ → ℕ
pcie_cfg_get_base_address bars idx =
    let bar = get_or bars idx 0 in
    let kind = bar / 2 % 4 in
    if bar % 2 == 1
    then bar / 4 * 4
    else if kind == 0
    then bar / 16 * 16
    else if kind == 2
    then bar / 16 * 16 + get_or bars (suc idx) 0 * 2 ^ 32
    else 0

-- The type of the header, `type & 0x7F`.
abbrev pub pcie_bar_count : ℕ → ℕ
pcie_bar_count header = if nonzero (header % 2 ^ 7) then 2 else 6

-- CAID and NEXT of the capability at an offset of the configuration space.
pub record Capabilities' : Type 0 where
  pub first : ℕ
  pub caid : ℕ → ℕ
  pub next : ℕ → ℕ

-- `while (capaOff && maxCapCount--)`, on the count of turns: the offset of the capability.
unfoldable pub capability_loop : Capabilities' → ℕ → ℕ → ℕ → Option ℕ
capability_loop c capa zero off = none
capability_loop c capa (suc turns) off =
    let later = capability_loop c capa turns (c.next off) in
    if off == 0 then none else if c.caid off == capa then some off else later

-- `capability & 0xFC`, and 48 turns.
unfoldable pub pcie_capability : Capabilities' → ℕ → Option ℕ
pcie_capability c capa = capability_loop c (capa % 2 ^ 8) 48 (c.first / 4 * 4 % 2 ^ 8)
