-- ===== src/Storage/Ata.antt =====
-- The transfers of CORE/src/driver/ahci/ata.c.
use supernova_os.Prelude.{
  ℕ, zero, suc, ◌+◌, ◌-◌, ◌*◌, ◌/◌, ◌%◌, ◌^◌, ◌≤◌, ◌<◌, min, max, bit_and, bit_or, bit_xor, ◌≡◌,
  refl, sym, ap, ◌∙◌, ◌≢◌, ◌↔◌, ◌⊎◌, inl, inr, Bool, true, false, not, ◌&&◌, ◌||◌, Option, none,
  some, List, [], ◌∷◌, ◌++◌, map, append_assoc, append-nil, arith, ltb, leb, ◌==◌, if◌then◌else◌,
  nonzero, ltb→lt, ltb→le, lt→ltb, le→ltb, leb→le, ==_iff, Bool-cases, Option-cases, length,
  get_elem?, get_or, set, take, drop, replicate, All, length-append, length-replicate, length-set,
  length-take, get_elem?-set_self, get_elem?-set_ne, get_elem?_out, get_elem?-append_left,
  get_elem?-append_right,
}
pub mod Regions
pub mod Read

-- An entry of the table of regions (DATA and BCNT): the physical address, and the bytes less 1.
pub record Region : Type 0 where
  pub addr : ℕ
  pub bcnt : ℕ

-- The command that a port is given: the count of regions in its head, the regions, and the fields of
-- the register FIS that are not constant.
pub record Request : Type 0 where
  pub rdtl : ℕ
  pub prdt : List Region
  pub cmmd : ℕ
  pub lba0 : ℕ
  pub lba1 : ℕ
  pub lba2 : ℕ
  pub lba3 : ℕ
  pub lba4 : ℕ
  pub lba5 : ℕ
  pub cont : ℕ

-- What the driver relies on: the mapping of addresses, the port, which is busy or runs a command to its
-- end and says whether a task file error came up, and the copy of bytes.
pub record Port : Type 1 where
  pub State : Type 0
  pub physical_address : ℕ → ℕ
  pub busy : State → Bool
  pub run : Request → State → Bool × State
  pub copy : ℕ → ℕ → ℕ → State → State

-- `(buffAddr & 0xFFF) && (startPage != endPage)`
abbrev pub crosses : ℕ → ℕ → Bool
crosses buf count =
    nonzero (buf % 2 ^ 12) && not (buf / 2 ^ 12 == (buf + count * 2 ^ 9) % 2 ^ 64 / 2 ^ 12)

module _ (P : Port) where
  -- `while (cnt1)`, on fuel: each turn takes up to 8 sectors off the count.
  unfoldable pub regions : ℕ → ℕ → ℕ → List Region
  regions zero buf cnt1 = []
  regions (suc fuel) buf cnt1 =
      let cnt = if ltb cnt1 8 then cnt1 else 8 in
      let later = regions fuel ((buf + cnt * 2 ^ 9) % 2 ^ 64) (cnt1 - cnt) in
      if cnt1 == 0
      then []
      else record { addr = P.physical_address buf; bcnt = cnt * 2 ^ 9 - 1 } ∷ later

  unfoldable pub request : ℕ → ℕ → ℕ → ℕ → Request
  request lba buf count cmd = record {
    rdtl = (count + 7) / 8 % 2 ^ 16;
    prdt = regions count buf count;
    cmmd = cmd;
    lba0 = lba % 2 ^ 8;
    lba1 = lba / 2 ^ 8 % 2 ^ 8;
    lba2 = lba / 2 ^ 16 % 2 ^ 8;
    lba3 = lba / 2 ^ 24 % 2 ^ 8;
    lba4 = lba / 2 ^ 32 % 2 ^ 8;
    lba5 = lba / 2 ^ 40 % 2 ^ 8;
    cont = count % 2 ^ 16;
  }

  abbrev pub finished : Bool × P.State → ℕ × P.State
  finished (failed, s) = if failed then (3, s) else (0, s)

  unfoldable pub ahci_ata_operation : P.State → ℕ → ℕ → ℕ → ℕ → ℕ × P.State
  ahci_ata_operation s lba buf count cmd =
      if crosses buf count
      then (1, s)
      else if P.busy s
      then (2, s)
      else finished (P.run (request lba buf count cmd) s)

  -- The loop by way of the page `page`, on fuel, of up to 8 sectors a turn.
  unfoldable pub bounce_loop : ℕ → P.State → ℕ → ℕ → ℕ → ℕ → ℕ × P.State
  bounce_loop zero s page buf lba count = (0, s)
  bounce_loop (suc fuel) s page buf lba count =
      let cnt = if ltb 8 count then 8 else count in
      let r = ahci_ata_operation s lba page cnt 0x25 in
      let rest =
        bounce_loop fuel (P.copy buf page (cnt * 2 ^ 9) r.1) page ((buf + cnt * 2 ^ 9) % 2 ^ 64) lba
          (count - cnt) in
      if count == 0 then (0, s) else if nonzero r.0 then r else rest

  -- The loop to the buffer itself, of up to 1024 sectors a turn.
  unfoldable pub direct_loop : ℕ → P.State → ℕ → ℕ → ℕ → ℕ × P.State
  direct_loop zero s buf lba count = (0, s)
  direct_loop (suc fuel) s buf lba count =
      let cnt = if ltb 1024 count then 1024 else count in
      let r = ahci_ata_operation s lba buf cnt 0x25 in
      let rest = direct_loop fuel r.1 ((buf + cnt * 2 ^ 9) % 2 ^ 64) lba (count - cnt) in
      if count == 0 then (0, s) else if nonzero r.0 then r else rest

  -- `page` is the page that is allocated for a buffer that crosses pages.
  unfoldable pub ahci_ata_read : P.State → ℕ → ℕ → ℕ → ℕ → ℕ → ℕ × P.State
  ahci_ata_read s device page buf lba count =
      if device == 0
      then (1, s)
      else if buf == 0
      then (2, s)
      else if count == 0
      then (0, s)
      else if crosses buf count
      then bounce_loop (suc count) s page buf lba count
      else direct_loop (suc count) s buf lba count
