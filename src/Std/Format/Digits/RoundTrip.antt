-- ===== src/Std/Format/Digits/RoundTrip.antt =====
-- The digits of `u64_to_str` of CORE/src/std/sprintf.c: their value and their number.
use supernova_os.Prelude.{
  ℕ, zero, suc, ◌+◌, ◌-◌, ◌*◌, ◌/◌, ◌%◌, ◌^◌, ◌≤◌, ◌<◌, ◌≡◌, ap, ◌↔◌, inl, inr, Bool, true, false,
  List, [], ◌∷◌, arith, ltb, leb, if◌then◌else◌, ltb→lt, ltb→le, Bool-cases, length,
}
use native.Mathlib.Nat.{
  div-lt_iff_lt-mul, le-div_iff_mul-le, div-add-mod', mod-lt, pow-zero, pow-suc, pow-le-pow_left,
}
use supernova_os.Std.Format.Digits.{itoa_buf, digit_char, digits_loop, u64_to_str}

-- The value of a digit, and of a list of digits behind the number `n`.
pub digit_value : ℕ → ℕ
digit_value c = if leb c b'9' then c - b'0' else if leb b'a' c then c - b'a' + 10 else c - b'A' + 10

pub number : ℕ → ℕ → List ℕ → ℕ
number base n [] = n
number base n (c ∷ cs) = number base (n * base + digit_value c) cs

digit_value-digit_char : (upper : Bool) (d : ℕ) → d < 16 → digit_value (digit_char upper d) ≡ d
unfolding digit_value
digit_value-digit_char true d h = ground arith
digit_value-digit_char false d h = ground arith

module _ (base : ℕ) (two : 2 ≤ base) where
  pos : 0 < base
  pos = omega arith

  pow-pos : (k : ℕ) → 0 < base ^ k
  pow-pos zero = omega (arith, pow-zero base)
  pow-pos (suc k) = rw (pow-suc base k) (grind (arith, pow-pos k))

  div_below : (k val : ℕ) → val < base ^ suc k → val / base < base ^ k
  div_below k val h = (div-lt_iff_lt-mul pos).1 (rw (← pow-suc base k) h)

  div_above : (k val : ℕ) → base ^ suc k ≤ val → base ^ k ≤ val / base
  div_above k val h = (le-div_iff_mul-le pos).1 (rw (← pow-suc base k) h)

  module _ (upper : Bool) (small : base ≤ 16) where
    number-digits_loop :
        (fuel val : ℕ) (out : List ℕ)
        → val < base ^ fuel
        → number base 0 (digits_loop fuel base upper val out) ≡ number base val out
    unfolding digits_loop number
    number-digits_loop zero val out h = ap (λ n. number base n out) (omega (arith, pow-zero base))
    number-digits_loop (suc fuel) val out h = ground (
      arith,
      number-digits_loop fuel (val / base) (digit_char upper (val % base) ∷ out)
          (div_below fuel val h),
      digit_value-digit_char upper (val % base),
      mod-lt val pos,
      div-add-mod' val base,
    )

  length-digits_loop-le :
      (upper : Bool) (fuel k val : ℕ) (out : List ℕ)
      → val < base ^ k
      → length (digits_loop fuel base upper val out) ≤ k + length out
  unfolding digits_loop
  length-digits_loop-le upper zero k val out h = omega arith
  length-digits_loop-le upper (suc fuel) zero val out h = ground (arith, pow-zero base)
  length-digits_loop-le upper (suc fuel) (suc k) val out h = ground (
    arith,
    length-digits_loop-le upper fuel k (val / base) (digit_char upper (val % base) ∷ out)
        (div_below k val h),
  )

  length-digits_loop-ge :
      (upper : Bool) (fuel val : ℕ) (out : List ℕ)
      → length out ≤ length (digits_loop fuel base upper val out)
  unfolding digits_loop
  length-digits_loop-ge upper zero val out = omega arith
  length-digits_loop-ge upper (suc fuel) val out =
      ground
        (arith, length-digits_loop-ge upper fuel (val / base) (digit_char upper (val % base) ∷ out))

  length-digits_loop-gt :
      (upper : Bool) (fuel k val : ℕ) (out : List ℕ)
      → base ^ k ≤ val
      → k < fuel
      → k + length out < length (digits_loop fuel base upper val out)
  unfolding digits_loop
  length-digits_loop-gt upper zero k val out h f = absurd (omega arith)
  length-digits_loop-gt upper (suc fuel) zero val out h f = ground (
    arith,
    pow-zero base,
    length-digits_loop-ge upper fuel (val / base) (digit_char upper (val % base) ∷ out),
  )
  length-digits_loop-gt upper (suc fuel) (suc k) val out h f = ground (
    arith,
    pow-pos k,
    pow-pos (suc k),
    length-digits_loop-gt upper fuel k (val / base) (digit_char upper (val % base) ∷ out)
        (div_above k val h),
  )

  fits_64 : (val : ℕ) → val < 2 ^ 64 → val < base ^ 64
  fits_64 val h = omega (arith, pow-le-pow_left two 64)

  -- Read back in its base, the text of every uint64 in a base from 2 to 16 gives the number.
  pub number-u64_to_str :
      (val : ℕ) (upper : Bool)
      → base ≤ 16
      → val < 2 ^ 64
      → number base 0 (u64_to_str val base upper) ≡ val
  unfolding u64_to_str number
  number-u64_to_str val upper small h = ground (
    arith,
    number-digits_loop upper small 64 val [] (fits_64 val h),
    digit_value-digit_char upper 0,
  )

  length-u64_to_str-le :
      (k val : ℕ) (upper : Bool) → val < base ^ suc k → length (u64_to_str val base upper) ≤ suc k
  unfolding u64_to_str
  length-u64_to_str-le k val upper h =
      ground (arith, length-digits_loop-le upper 64 (suc k) val [] h)

  length-u64_to_str-gt :
      (k val : ℕ) (upper : Bool) → base ^ k ≤ val → k < 64 → k < length (u64_to_str val base upper)
  unfolding u64_to_str
  length-u64_to_str-gt k val upper h f =
      ground (arith, pow-pos k, length-digits_loop-gt upper 64 k val [] h f)

-- With the terminating NUL a decimal or hexadecimal uint64 fits the scratch buffer of `itoa_buf`
-- cells; an octal one does exactly if it is below 2 ^ 63.
pub u64_to_str_fits :
    (val : ℕ) (upper : Bool)
    → val < 2 ^ 64
    → (length (u64_to_str val 10 upper) < itoa_buf)
      × (length (u64_to_str val 16 upper) < itoa_buf)
      × ((length (u64_to_str val 8 upper) < itoa_buf) ↔ (val < 2 ^ 63))
u64_to_str_fits val upper h = (
  omega (arith, length-u64_to_str-le 10 (omega arith) 19 val upper (omega arith)),
  omega (arith, length-u64_to_str-le 16 (omega arith) 15 val upper (omega arith)),
  (
    (λ fits. elim (Bool-cases (ltb val (2 ^ 63))) [
      | inl e ↦ ltb→lt val (2 ^ 63) e
      | inr e ↦ absurd (
          omega (
            arith,
            length-u64_to_str-gt 8 (omega arith) 21 val upper (ltb→le val (2 ^ 63) e) (omega arith),
          ))
    ]),
    (λ small. omega (arith, length-u64_to_str-le 8 (omega arith) 20 val upper (omega arith))),
  ),
)
