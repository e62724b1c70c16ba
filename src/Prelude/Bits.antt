-- ===== src/Prelude/Bits.antt =====
-- The binary digits of a number, as the masks of CORE/src/interrupt/apic.c have them.
use supernova_os.Prelude.{
  ℕ, zero, suc, ◌+◌, ◌*◌, ◌/◌, ◌%◌, ◌^◌, ◌≤◌, max, bit_or, ◌≡◌, refl, ap, ◌∙◌, arith, ◌==◌,
  if◌then◌else◌,
}
use Prim.Native.Nat.{digits, bit_or-bitwise}

-- Bit k of a number.
pub bit_at : ℕ → ℕ → ℕ
bit_at zero b = b % 2
bit_at (suc k) b = bit_at k (b / 2)

bit_at-zero : (k : ℕ) → bit_at k 0 ≡ 0
unfolding bit_at
bit_at-zero zero = refl
bit_at-zero (suc k) = bit_at-zero k

pub bit_at_bound : (k b : ℕ) → bit_at k b ≤ 1
unfolding bit_at
bit_at_bound zero b = omega arith
bit_at_bound (suc k) b = bit_at_bound k (b / 2)

abbrev or_digits : ℕ → ℕ → ℕ → ℕ
or_digits n a b = digits (λ b. b) max n a b

bit_at-or_digits :
    (n k a b : ℕ) → a ≤ n → bit_at k (or_digits n a b) ≡ max (bit_at k a) (bit_at k b)
unfolding bit_at
bit_at-or_digits zero k zero b h = omega (arith, bit_at-zero k)
bit_at-or_digits zero k (suc a) b h = absurd (omega arith)
bit_at-or_digits (suc n) k zero b h = omega (arith, bit_at-zero k)
bit_at-or_digits (suc n) zero (suc a) b h = omega arith
bit_at-or_digits (suc n) (suc k) (suc a) b h =
    let rest = bit_at-or_digits n k (suc a / 2) (b / 2) (omega arith) in
    let half : (or_digits n (suc a / 2) (b / 2) * 2 + max (suc a % 2) (b % 2)) / 2
        ≡ or_digits n (suc a / 2) (b / 2) =
      omega arith in
    ap (bit_at k) half ∙ rest

pub bit_at-bit_or : (k a b : ℕ) → bit_at k (bit_or a b) ≡ max (bit_at k a) (bit_at k b)
bit_at-bit_or k a b = ap (bit_at k) (bit_or-bitwise a b) ∙ bit_at-or_digits a k a b (omega arith)

pub bit_at-pow : (k j : ℕ) → bit_at k (2 ^ j) ≡ (if k == j then 1 else 0)
unfolding bit_at
bit_at-pow zero zero = refl
bit_at-pow zero (suc j) = ground arith
bit_at-pow (suc k) zero = bit_at-zero k ∙ ground arith
bit_at-pow (suc k) (suc j) =
    let half : 2 ^ suc j / 2 ≡ 2 ^ j = omega arith in
    ap (bit_at k) half ∙ bit_at-pow k j ∙ ground arith
