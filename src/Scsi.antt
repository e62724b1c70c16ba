-- ===== src/Scsi.antt =====
-- CORE/src/driver/scsi/scsi.c: the reversal of bytes.
use supernova_os.Prelude.{
  ℕ, zero, suc, ◌+◌, ◌-◌, ◌*◌, ◌/◌, ◌%◌, ◌^◌, ◌≤◌, ◌<◌, min, max, bit_and, bit_or, bit_xor, ◌≡◌,
  refl, sym, ap, ◌∙◌, ◌≢◌, ◌↔◌, ◌⊎◌, inl, inr, Bool, true, false, not, ◌&&◌, ◌||◌, Option, none,
  some, List, [], ◌∷◌, ◌++◌, map, append_assoc, append-nil, arith, ltb, leb, ◌==◌, if◌then◌else◌,
  nonzero, ltb→lt, ltb→le, lt→ltb, le→ltb, leb→le, ==_iff, Bool-cases, Option-cases, length,
  get_elem?, get_or, set, take, drop, replicate, All, length-append, length-replicate, length-set,
  length-take, get_elem?-set_self, get_elem?-set_ne, get_elem?_out, get_elem?-append_left,
  get_elem?-append_right,
}
pub mod Reverse
pub mod Widths
mod Tests

-- Memory, by the offset of the byte from `data`.
abbrev pub Memory : Type 0
Memory = ℕ → ℕ

abbrev pub write : Memory → ℕ → ℕ → Memory
write m a v k = if k == a then v else m k

-- `c = *a; *a = *b; *b = c`
abbrev pub swap1 : Memory → ℕ → ℕ → Memory
swap1 m a b = write (write m a (m b)) b (m a)

-- The loop from `i` on, on the count of turns that are left; `i` is below the half of `len`, so that
-- `len - i - 1` does not wrap.
unfoldable pub reverse_loop : ℕ → ℕ → ℕ → Memory → Memory
reverse_loop zero i len m = m
reverse_loop (suc turns) i len m = reverse_loop turns (suc i) len (swap1 m i (len - i - 1))

unfoldable pub scsi_reverse : Memory → ℕ → Memory
scsi_reverse m len = reverse_loop (len / 2) 0 len m

-- The bytes of an integer in memory.
abbrev pub byte_at : ℕ → Memory
byte_at x k = x / 2 ^ (8 * k) % 2 ^ 8

-- The integer that four bytes of memory hold.
abbrev pub dword_of : Memory → ℕ
dword_of m = m 0 + m 1 * 2 ^ 8 + m 2 * 2 ^ 16 + m 3 * 2 ^ 24

-- The sum is the `|` of the code: the two shifts share no bit.
unfoldable pub scsi_reverse2 : ℕ → ℕ
scsi_reverse2 x = (x * 2 ^ 8 + x / 2 ^ 8) % 2 ^ 16

unfoldable pub scsi_reverse4 : ℕ → ℕ
scsi_reverse4 x = dword_of (swap1 (swap1 (byte_at x) 0 3) 1 2)

-- The two DWORDs of `x` are reversed and change places.
unfoldable pub scsi_reverse8 : ℕ → ℕ
scsi_reverse8 x = scsi_reverse4 (x / 2 ^ 32 % 2 ^ 32) + scsi_reverse4 (x % 2 ^ 32) * 2 ^ 32
