-- ===== src/Ntfs.antt =====
-- The reading of CORE/src/fs/ntfs: the runs of clusters of an attribute and the place of a record.
use supernova_os.Prelude.{
  ℕ, zero, suc, ◌+◌, ◌-◌, ◌*◌, ◌/◌, ◌%◌, ◌^◌, ◌≤◌, ◌<◌, min, max, bit_and, bit_or, bit_xor, ◌≡◌,
  refl, sym, ap, ◌∙◌, ◌≢◌, ◌↔◌, ◌⊎◌, inl, inr, Bool, true, false, not, ◌&&◌, ◌||◌, Option, none,
  some, List, [], ◌∷◌, ◌++◌, map, append_assoc, append-nil, arith, ltb, leb, ◌==◌, if◌then◌else◌,
  nonzero, ltb→lt, ltb→le, lt→ltb, le→ltb, leb→le, ==_iff, Bool-cases, Option-cases, length,
  get_elem?, get_or, set, take, drop, replicate, All, length-append, length-replicate, length-set,
  length-take, get_elem?-set_self, get_elem?-set_ne, get_elem?_out, get_elem?-append_left,
  get_elem?-append_right,
}
use mathlib.Core.Option
use supernova_os.Prelude.Words.{add64, sub64}
pub mod Runs
mod Tests

-- Memory, by the address of a byte.
abbrev pub Memory : Type 0
Memory = ℕ → ℕ

-- What the search for a cluster ends in. Shifts by more than the width are left open by the language:
-- they come up where a run says that it has more than 8 bytes of a number.
pub data Lcn : Type 0 where
  lcn : ℕ → Lcn
  absent : Lcn
  undefined : Lcn

-- `x |= (QWORD) byte << (i << 3)`, on the count of turns that are left: no bit is set twice.
unfoldable pub read_number : Memory → ℕ → ℕ → ℕ → ℕ → ℕ
read_number m zero i off acc = acc
read_number m (suc turns) i off acc =
    read_number m turns (suc i) (suc off) (acc + m off * 2 ^ (8 * i))

-- `if (cluOff & (1ULL << (size * 8 - 1))) cluOff |= ~((1ULL << (size << 3)) - 1)`, where the
-- processor takes the count of a shift modulo 64.
unfoldable pub extend : ℕ → ℕ → ℕ
extend size x =
    if x / 2 ^ ((8 * size + 63) % 64) % 2 == 1
    then (if size == 8 then 2 ^ 64 - 1 else x + (2 ^ 64 - 2 ^ (8 * size)))
    else x

-- The loop over the runs. A turn takes a byte at least, and there are `fuel` bytes in front of the end.
unfoldable pub convert_loop : Memory → ℕ → ℕ → ℕ → ℕ → ℕ → Lcn
convert_loop m zero off end prev vcn = absent
convert_loop m (suc fuel) off end prev vcn =
    let header = m off in
    let counts = header % 16 in
    let offsets = header / 16 in
    let count = read_number m counts 0 (suc off) 0 in
    let at = suc off + counts in
    let prev' = add64 prev (extend offsets (read_number m offsets 0 at 0)) in
    let rest = convert_loop m fuel (at + offsets) end prev' (vcn - count) in
    if not (ltb off end)
    then absent
    else if header == 0
    then absent
    else if ltb 8 counts || ltb 8 offsets
    then undefined
    else if ltb vcn count
    then lcn (add64 prev' vcn)
    else rest

-- The first of the runs stands at `off`, and the attribute ends at `end`.
unfoldable pub ntfs_convert_lcn : Memory → ℕ → ℕ → ℕ → Lcn
ntfs_convert_lcn m off end vcn = convert_loop m (end - off) off end 0 vcn

-- The value returned: 0 where no run has the cluster.
abbrev pub returned_lcn : Lcn → Option ℕ
returned_lcn (lcn n) = some n
returned_lcn absent = some 0
returned_lcn undefined = none

-- The fields of the boot record.
pub record Boot : Type 0 where
  pub sclu : ℕ
  pub hidn : ℕ
  pub mft0 : ℕ

-- The sector that `ntfs_mft_record` reads, `none` where it returns before. Of every record but the
-- first the number is of 32 bits, and 0 stands for a cluster that is absent.
unfoldable pub mft_sector : Boot → (ℕ → Lcn) → ℕ → Option ℕ
mft_sector b convert num =
    let per = b.sclu / 2 in
    let in_clus = num % per in
    if per == 0
    then none
    else if num == 0
    then some (add64 b.hidn (b.sclu * b.mft0 % 2 ^ 64))
    else Option.map (λ l. (b.hidn + l % 2 ^ 32 * b.sclu % 2 ^ 32 + in_clus * 2) % 2 ^ 32)
        (returned_lcn (convert (num / per)))

-- `ntfs_next_index_record` of a record at an address that is not 0.
unfoldable pub ntfs_next_index_record : ℕ → ℕ → ℕ → ℕ
ntfs_next_index_record record_at sze0 flag = if flag == 2 then 0 else add64 record_at sze0
