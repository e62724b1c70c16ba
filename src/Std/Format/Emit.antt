-- ===== src/Std/Format/Emit.antt =====
-- The integer, string and character fields of CORE/src/std/sprintf.c.
use supernova_os.Prelude.{
  ℕ, ◌+◌, ◌-◌, ◌%◌, ◌^◌, Bool, false, not, ◌&&◌, ◌||◌, Option, none, some, List, [], ◌∷◌, ltb, ◌==◌,
  if◌then◌else◌, nonzero, length, get_or, take,
}
use supernova_os.Prelude.Words.{negative32, slt32, sub32, sext32}
use supernova_os.Std.Format.Context.{FormatContext, ctx_putc, ctx_fill, ctx_write}
use supernova_os.Std.Format.Digits.{u64_to_str}

-- The bits of `flags`, `FL_LEFT` to `FL_PREC`.
pub record Flags : Type 0 where
  pub left : Bool
  pub plus : Bool
  pub space : Bool
  pub zero_fill : Bool
  pub hash : Bool
  pub upper : Bool
  pub neg : Bool
  pub precision : Bool

abbrev pub no_flags : Flags
no_flags = record {
  left = false;
  plus = false;
  space = false;
  zero_fill = false;
  hash = false;
  upper = false;
  neg = false;
  precision = false;
}

-- `((int) payload < width) ? (size_t) (width - (int) payload) : 0`, with `int`s as bit patterns.
unfoldable pub padding : ℕ → ℕ → ℕ
padding payload width =
    if slt32 (payload % 2 ^ 32) width then sext32 (sub32 width (payload % 2 ^ 32)) else 0

-- `(prec >= 0) ? (size_t) prec : 0`
abbrev pub min_digits : ℕ → ℕ
min_digits prec = if negative32 prec then 0 else prec

-- `prefix[0..prefix_len)`
unfoldable pub int_prefix : ℕ → ℕ → Flags → List ℕ → List ℕ
int_prefix uval base flags digits =
    if base == 10
    then (if flags.neg
        then b'-' ∷ []
        else if flags.plus
        then b'+' ∷ []
        else if flags.space
        then b' ' ∷ []
        else [])
    else if flags.hash
    then (if base == 16 && nonzero uval
        then b'0' ∷ (if flags.upper then b'X' else b'x') ∷ []
        else if base == 8 && (length digits == 0 || not (get_or digits 0 0 == b'0'))
        then b'0' ∷ []
        else [])
    else []

-- `emit_int` from the point where the prefix and the digits are known.
unfoldable pub emit_int_parts : FormatContext → List ℕ → List ℕ → Flags → ℕ → ℕ → FormatContext
emit_int_parts c sign digits flags width prec =
    let ndigits = length digits in
    let zpad = if ltb ndigits (min_digits prec) then min_digits prec - ndigits else 0 in
    let pad = padding (length sign + zpad + ndigits) width in
    let zero_pad = flags.zero_fill && not flags.precision && not flags.left in
    let c1 = if not flags.left && not zero_pad then ctx_fill c b' ' pad else c in
    let c2 = ctx_write c1 sign in
    let c3 = if zero_pad then ctx_fill c2 b'0' (pad + zpad) else ctx_fill c2 b'0' zpad in
    let c4 = ctx_write c3 digits in if flags.left then ctx_fill c4 b' ' pad else c4

unfoldable pub emit_int : FormatContext → ℕ → ℕ → Flags → ℕ → ℕ → FormatContext
emit_int c uval base flags width prec =
    let digits = u64_to_str uval base flags.upper in
    emit_int_parts c (int_prefix uval base flags digits) digits flags width prec

-- `"(null)"`
abbrev pub null_text : List ℕ
null_text = b'(' ∷ b'n' ∷ b'u' ∷ b'l' ∷ b'l' ∷ b')' ∷ []

-- The text up to its NUL, cut by an explicit precision.
unfoldable pub clip : List ℕ → Flags → ℕ → List ℕ
clip s flags prec =
    if flags.precision && not (negative32 prec) && ltb prec (length s) then take prec s else s

-- `none` is a null pointer.
unfoldable pub emit_str : FormatContext → Option (List ℕ) → Flags → ℕ → ℕ → FormatContext
emit_str c s flags width prec =
    let text = clip (elim s [ none ↦ null_text | some t ↦ t ]) flags prec in
    let pad = padding (length text) width in
    let c1 = if flags.left then c else ctx_fill c b' ' pad in
    let c2 = ctx_write c1 text in if flags.left then ctx_fill c2 b' ' pad else c2

-- `(width > 1) ? (size_t) (width - 1) : 0`
unfoldable pub emit_char : FormatContext → ℕ → Flags → ℕ → FormatContext
emit_char c ch flags width =
    let pad = if slt32 1 width then width - 1 else 0 in
    let c1 = if flags.left then c else ctx_fill c b' ' pad in
    let c2 = ctx_putc c1 ch in if flags.left then ctx_fill c2 b' ' pad else c2
