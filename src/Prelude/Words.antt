-- ===== src/Prelude/Words.antt =====
-- Machine words as native numbers: an unsigned word is its value, a signed one its bit pattern.
use Prim.Native.Nat.{ℕ, ◌+◌, ◌-◌, ◌%◌, ◌^◌, ◌<◌}
use mathlib.Core.Bool.{Bool}
use native.Mathlib.Omega.{arith}
use supernova_os.Prelude.Tests.{ltb, leb, if◌then◌else◌}

-- `a + b` in a QWORD, and in a DWORD.
abbrev pub add64 : ℕ → ℕ → ℕ
add64 a b = (a + b) % 2 ^ 64

abbrev pub add32 : ℕ → ℕ → ℕ
add32 a b = (a + b) % 2 ^ 32

-- `a - b`, for operands below the modulus.
abbrev pub sub64 : ℕ → ℕ → ℕ
sub64 a b = (a + 2 ^ 64 - b) % 2 ^ 64

abbrev pub sub32 : ℕ → ℕ → ℕ
sub32 a b = (a + 2 ^ 32 - b) % 2 ^ 32

-- `a < 0` for an `int`.
abbrev pub negative32 : ℕ → Bool
negative32 a = leb (2 ^ 31) a

-- `a < b` for two `int`s.
abbrev pub slt32 : ℕ → ℕ → Bool
slt32 a b = ltb ((a + 2 ^ 31) % 2 ^ 32) ((b + 2 ^ 31) % 2 ^ 32)

-- The conversions to a 64-bit type from `int`, `int16_t` and `int8_t`.
abbrev pub sext32 : ℕ → ℕ
sext32 a = if leb (2 ^ 31) a then a + (2 ^ 64 - 2 ^ 32) else a

abbrev pub sext16 : ℕ → ℕ
sext16 a = if leb (2 ^ 15) a then a + (2 ^ 64 - 2 ^ 16) else a

abbrev pub sext8 : ℕ → ℕ
sext8 a = if leb (2 ^ 7) a then a + (2 ^ 64 - 2 ^ 8) else a

pub sext32_lt : (a : ℕ) → a < 2 ^ 32 → sext32 a < 2 ^ 64
sext32_lt a h = ground arith
