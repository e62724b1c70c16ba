-- ===== src/Std/Format/Width.antt =====
-- The width of the fields of CORE/src/std/sprintf.c.
use supernova_os.Prelude.{
  ℕ, ◌+◌, ◌-◌, ◌^◌, ◌<◌, max, ◌≡◌, Bool, true, false, not, ◌&&◌, List, ◌++◌, arith, length,
  length-append, length-replicate,
}
use supernova_os.Std.Format.Emit.{Flags, padding, min_digits, int_prefix}
use supernova_os.Std.Format.Digits.{u64_to_str}
use supernova_os.Std.Format.Fields.{spaces, zeros, layout, zero_run, int_field, int_text}

-- The padding of a payload that fits an `int`, in a width that is no negative `int`.
pub padding_lem :
    (payload width : ℕ)
    → payload < 2 ^ 31
    → width < 2 ^ 31
    → padding payload width ≡ width - payload
unfolding padding
padding_lem payload width hp hw = ground arith

length-layout :
    (left zero_pad : Bool) (pad : ℕ) (sign body : List ℕ)
    → length (layout left zero_pad pad sign body) ≡ pad + length sign + length body
unfolding layout
length-layout true z pad sign body = omega (
  arith,
  length-append sign (body ++ spaces pad),
  length-append body (spaces pad),
  length-replicate {A = ℕ} pad b' ',
)
length-layout false true pad sign body = omega (
  arith,
  length-append sign (zeros pad ++ body),
  length-append (zeros pad) body,
  length-replicate {A = ℕ} pad b'0',
)
length-layout false false pad sign body = omega (
  arith,
  length-append (spaces pad) (sign ++ body),
  length-append sign body,
  length-replicate {A = ℕ} pad b' ',
)

-- Prefix, zeros and digits of an integer.
abbrev pub int_payload : ℕ → ℕ → Flags → ℕ → ℕ
int_payload uval base flags prec =
    let digits = u64_to_str uval base flags.upper in
    length (int_prefix uval base flags digits) + max (length digits) (min_digits prec)

-- An integer field is as wide as its width asks and as its prefix, its digits and its precision
-- need, whichever is more, on every setting of the flags, where these numbers fit an `int`.
length-int_text :
    (uval base : ℕ) (flags : Flags) (width prec : ℕ)
    → int_payload uval base flags prec < 2 ^ 31
    → width < 2 ^ 31
    → length (int_text uval base flags width prec) ≡ max width (int_payload uval base flags prec)
unfolding int_text int_field
length-int_text uval base flags width prec hp hw =
    let digits = u64_to_str uval base flags.upper in
    let sign = int_prefix uval base flags digits in
    let run = zero_run prec (length digits) in
    let whole = length sign + run + length digits in
    omega (
      arith,
      length-layout flags.left (flags.zero_fill && not flags.precision) (padding whole width) sign
          (zeros run ++ digits),
      padding_lem whole width (omega arith) hw,
      length-append (zeros run) digits,
      length-replicate {A = ℕ} run b'0',
    )
