-- ===== src/Std/Format/Float.antt =====
-- `emit_float` of CORE/src/std/sprintf.c.
use supernova_os.Prelude.{
  ℕ, zero, suc, ◌+◌, ◌-◌, ◌^◌, Bool, false, not, ◌&&◌, ◌||◌, List, [], ltb, if◌then◌else◌, length,
}
use supernova_os.Std.Format.Context.{FormatContext, ctx_putc, ctx_fill, ctx_write}
use supernova_os.Std.Format.Digits.{u64_to_str}
use supernova_os.Std.Format.Emit.{Flags, padding}
use supernova_os.Prelude.Words.{negative32}

-- The processor's `double` and the operations of it that the code uses.
pub record Floats : Type 1 where
  pub Double : Type 0
  pub of_bits : ℕ → Double
  pub of_u64 : ℕ → Double
  pub to_u64 : Double → ℕ
  pub below_zero : Double → Bool
  pub negate : Double → Double
  pub add : Double → Double → Double
  pub sub : Double → Double → Double
  pub mul : Double → Double → Double
  pub div : Double → Double → Double
  pub half : Double
  pub ten : Double

-- `if (prec < 0) prec = 6; if (prec > 9) prec = 9;`
unfoldable pub float_prec : ℕ → ℕ
float_prec prec = if negative32 prec then 6 else if ltb 9 prec then 9 else prec

-- The field from the point where the two parts of the value are digits; `frac` is empty for a
-- precision of zero.
unfoldable pub emit_float_parts : FormatContext → List ℕ → List ℕ → Flags → ℕ → ℕ → FormatContext
emit_float_parts c int frac flags width prec =
    let sign_len = if flags.neg || flags.plus || flags.space then 1 else 0 in
    let dot = ltb 0 prec || flags.hash in
    let fzpad = if ltb 0 prec && ltb (length frac) prec then prec - length frac else 0 in
    let payload = sign_len + length int + (if dot then 1 else 0) + fzpad + length frac in
    let pad = padding payload width in
    let zero_pad = flags.zero_fill && not flags.left in
    let c1 = if not flags.left && not zero_pad then ctx_fill c b' ' pad else c in
    let c2 =
      if flags.neg
      then ctx_putc c1 b'-'
      else if flags.plus
      then ctx_putc c1 b'+'
      else if flags.space
      then ctx_putc c1 b' '
      else c1 in
    let c3 = if zero_pad then ctx_fill c2 b'0' pad else c2 in
    let c4 = ctx_write c3 int in
    let c5 = if dot then ctx_write (ctx_fill (ctx_putc c4 b'.') b'0' fzpad) frac else c4 in
    if flags.left then ctx_fill c5 b' ' pad else c5

module _ (D : Floats) where
  open D use {Double, of_u64, to_u64, below_zero, negate, add, sub, mul, div, half, ten}

  -- `0.5` divided `n` times by `10.0`.
  unfoldable pub round_add : ℕ → Double → Double
  round_add zero r = r
  round_add (suc n) r = round_add n (div r ten)

  unfoldable pub emit_float : FormatContext → Double → Flags → ℕ → ℕ → FormatContext
  unfolding round_add
  emit_float c val flags width prec0 =
      let prec = float_prec prec0 in
      let minus = below_zero val in
      let flags' = record flags { neg = minus || flags.neg } in
      let rounded = add (if minus then negate val else val) (round_add prec half) in
      let int_part = to_u64 rounded in
      let frac_part = to_u64 (mul (sub rounded (of_u64 int_part)) (of_u64 (10 ^ prec))) in
      emit_float_parts c (u64_to_str int_part 10 false)
        (if ltb 0 prec then u64_to_str frac_part 10 false else []) flags' width prec
