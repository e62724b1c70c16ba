-- ===== src/Std/Format/Fields.antt =====
-- The text of each field, and that the emitters of CORE/src/std/sprintf.c write it.
use supernova_os.Prelude.{
  ℕ, zero, suc, ◌+◌, ◌-◌, ◌≡◌, sym, Bool, true, false, not, ◌&&◌, ◌||◌, Option, none, some, List,
  [], ◌∷◌, ◌++◌, append_assoc, arith, ltb, if◌then◌else◌, length, replicate,
}
use supernova_os.Std.Format.Context.{
  FormatContext, ctx_putc, ctx_fill, ctx_write, ctx_fill-ctx_write, ctx_putc-ctx_write,
  ctx_write-append, ctx_write-nil,
}
use supernova_os.Std.Format.Emit.{
  Flags, padding, min_digits, int_prefix, emit_int_parts, emit_int, null_text, clip, emit_str,
  emit_char,
}
use supernova_os.Std.Format.Float.{emit_float_parts}
use supernova_os.Std.Format.Digits.{u64_to_str}
use supernova_os.Prelude.Words.{slt32}
use native.Mathlib.Nat.{zero-add, suc-add}

abbrev pub spaces : ℕ → List ℕ
spaces n = replicate n b' '

abbrev pub zeros : ℕ → List ℕ
zeros n = replicate n b'0'

-- A payload of a sign, zeros and digits, set in its field: to the left, filled up by zeros behind
-- the sign, or to the right.
unfoldable pub layout : Bool → Bool → ℕ → List ℕ → List ℕ → List ℕ
layout left zero_pad pad sign body =
    if left
    then sign ++ (body ++ spaces pad)
    else if zero_pad
    then sign ++ (zeros pad ++ body)
    else spaces pad ++ (sign ++ body)

-- The zeros that an explicit precision asks for.
abbrev pub zero_run : ℕ → ℕ → ℕ
zero_run prec ndigits = min_digits prec - ndigits

unfoldable pub int_field : List ℕ → List ℕ → Flags → ℕ → ℕ → List ℕ
int_field sign digits flags width prec =
    layout flags.left (flags.zero_fill && not flags.precision)
      (padding (length sign + zero_run prec (length digits) + length digits) width) sign
      (zeros (zero_run prec (length digits)) ++ digits)

unfoldable pub str_field : List ℕ → Bool → ℕ → List ℕ
str_field s left width = layout left false (padding (length s) width) [] s

ruleset writes = (ctx_fill-ctx_write, ctx_putc-ctx_write, ← ctx_write-append, append_assoc)

fill_fill :
    (c : FormatContext) (m n : ℕ) → ctx_fill c b'0' (m + n) ≡ ctx_fill (ctx_fill c b'0' m) b'0' n
unfolding ctx_fill
fill_fill c zero n = rw zero-add
fill_fill c (suc m) n = rw suc-add (fill_fill (ctx_putc c b'0') m n)

zpad_eq : (n m : ℕ) → (if ltb n m then m - n else 0) ≡ m - n
zpad_eq n m = ground arith

-- The calls of `emit_int`, over its flags.
abbrev int_calls : Bool → Bool → Bool → FormatContext → ℕ → ℕ → List ℕ → List ℕ → FormatContext
int_calls left zf pr c pad z sign digits =
    let zp = zf && not pr && not left in
    let c1 = if not left && not zp then ctx_fill c b' ' pad else c in
    let c2 = ctx_write c1 sign in
    let c3 = if zp then ctx_fill c2 b'0' (pad + z) else ctx_fill c2 b'0' z in
    let c4 = ctx_write c3 digits in if left then ctx_fill c4 b' ' pad else c4

right_aligned :
    (c : FormatContext) (pad z : ℕ) (sign digits : List ℕ)
    → ctx_write (ctx_fill (ctx_write (ctx_fill c b' ' pad) sign) b'0' z) digits
      ≡ ctx_write c (spaces pad ++ (sign ++ (zeros z ++ digits)))
right_aligned c pad z sign digits = simp writes

int_calls-layout :
    (left zf pr : Bool) (c : FormatContext) (pad z : ℕ) (sign digits : List ℕ)
    → int_calls left zf pr c pad z sign digits
      ≡ ctx_write c (layout left (zf && not pr) pad sign (zeros z ++ digits))
unfolding layout
int_calls-layout true true true c pad z sign digits = simp writes
int_calls-layout true true false c pad z sign digits = simp writes
int_calls-layout true false true c pad z sign digits = simp writes
int_calls-layout true false false c pad z sign digits = simp writes
int_calls-layout false true true c pad z sign digits = simp writes
int_calls-layout false true false c pad z sign digits = rw fill_fill (simp writes)
int_calls-layout false false true c pad z sign digits = right_aligned c pad z sign digits
int_calls-layout false false false c pad z sign digits = right_aligned c pad z sign digits

pub emit_int_parts_lem :
    (c : FormatContext) (sign digits : List ℕ) (flags : Flags) (width prec : ℕ)
    → emit_int_parts c sign digits flags width prec
      ≡ ctx_write c (int_field sign digits flags width prec)
unfolding emit_int_parts int_field
emit_int_parts_lem c sign digits flags width prec =
    rw zpad_eq (int_calls-layout flags.left flags.zero_fill flags.precision c _ _ sign digits)

-- The text of an integer conversion.
unfoldable pub int_text : ℕ → ℕ → Flags → ℕ → ℕ → List ℕ
int_text uval base flags width prec =
    let digits = u64_to_str uval base flags.upper in
    int_field (int_prefix uval base flags digits) digits flags width prec

-- On every setting of the flags `emit_int` writes the field that `int_text` lays out: the prefix,
-- the zeros that the precision asks for and the digits, with the padding on the side, or in the
-- zeros, that the flags say.
pub emit_int_lem :
    (c : FormatContext) (uval base : ℕ) (flags : Flags) (width prec : ℕ)
    → emit_int c uval base flags width prec ≡ ctx_write c (int_text uval base flags width prec)
unfolding emit_int int_text
emit_int_lem c uval base flags width prec =
    emit_int_parts_lem c (int_prefix uval base flags (u64_to_str uval base flags.upper))
      (u64_to_str uval base flags.upper) flags width prec

-- The text of a string conversion.
abbrev pub string_of : Option (List ℕ) → List ℕ
string_of none = null_text
string_of (some t) = t

str_calls : Bool → FormatContext → ℕ → List ℕ → FormatContext
str_calls left c pad s =
    let c2 = ctx_write (if left then c else ctx_fill c b' ' pad) s in
    if left then ctx_fill c2 b' ' pad else c2

str_calls-layout :
    (left : Bool) (c : FormatContext) (pad : ℕ) (s : List ℕ)
    → str_calls left c pad s ≡ ctx_write c (layout left false pad [] s)
unfolding layout str_calls
str_calls-layout true c pad s = simp writes
str_calls-layout false c pad s = simp writes

pub emit_str_lem :
    (c : FormatContext) (s : Option (List ℕ)) (flags : Flags) (width prec : ℕ)
    → emit_str c s flags width prec
      ≡ ctx_write c (str_field (clip (string_of s) flags prec) flags.left width)
unfolding emit_str str_field str_calls
emit_str_lem c none flags width prec = str_calls-layout flags.left c _ (clip null_text flags prec)
emit_str_lem c (some t) flags width prec = str_calls-layout flags.left c _ (clip t flags prec)

pub emit_char_lem :
    (c : FormatContext) (ch : ℕ) (flags : Flags) (width : ℕ)
    → emit_char c ch flags width
      ≡ ctx_write c (layout flags.left false (if slt32 1 width then width - 1 else 0) [] (ch ∷ []))
unfolding emit_char str_calls
emit_char_lem c ch flags width = rw ctx_putc-ctx_write (str_calls-layout flags.left c _ (ch ∷ []))

-- The calls of `emit_float`, over its flags.
sign_calls : Bool → Bool → Bool → FormatContext → FormatContext
sign_calls neg plus space c =
    if neg
    then ctx_putc c b'-'
    else if plus
    then ctx_putc c b'+'
    else if space
    then ctx_putc c b' '
    else c

sign_text : Bool → Bool → Bool → List ℕ
sign_text neg plus space =
    if neg then b'-' ∷ [] else if plus then b'+' ∷ [] else if space then b' ' ∷ [] else []

sign_calls_lem :
    (neg plus space : Bool) (c : FormatContext)
    → sign_calls neg plus space c ≡ ctx_write c (sign_text neg plus space)
unfolding sign_calls sign_text
sign_calls_lem true plus space c = ctx_putc-ctx_write c b'-'
sign_calls_lem false true space c = ctx_putc-ctx_write c b'+'
sign_calls_lem false false true c = ctx_putc-ctx_write c b' '
sign_calls_lem false false false c = sym (ctx_write-nil c)

dot_calls : Bool → FormatContext → ℕ → List ℕ → FormatContext
dot_calls dot c z frac = if dot then ctx_write (ctx_fill (ctx_putc c b'.') b'0' z) frac else c

dot_text : Bool → ℕ → List ℕ → List ℕ
dot_text dot z frac = if dot then b'.' ∷ (zeros z ++ frac) else []

dot_calls_lem :
    (dot : Bool) (c : FormatContext) (z : ℕ) (frac : List ℕ)
    → dot_calls dot c z frac ≡ ctx_write c (dot_text dot z frac)
unfolding dot_calls dot_text
dot_calls_lem true c z frac = simp writes
dot_calls_lem false c z frac = sym (ctx_write-nil c)

-- Where the sign, the zeros and the body of a float stand.
float_calls :
    Bool
    → Bool
    → FormatContext
    → ℕ
    → (FormatContext → FormatContext)
    → List ℕ
    → (FormatContext → FormatContext)
    → FormatContext
float_calls left zf c pad sign int dot =
    let zp = zf && not left in
    let c1 = if not left && not zp then ctx_fill c b' ' pad else c in
    let c3 = if zp then ctx_fill (sign c1) b'0' pad else sign c1 in
    let c5 = dot (ctx_write c3 int) in if left then ctx_fill c5 b' ' pad else c5

float_calls-layout :
    (left zf : Bool) (c : FormatContext) (pad : ℕ) (sign dot : FormatContext → FormatContext)
    (s int d : List ℕ)
    → ((c : FormatContext) → sign c ≡ ctx_write c s)
    → ((c : FormatContext) → dot c ≡ ctx_write c d)
    → float_calls left zf c pad sign int dot ≡ ctx_write c (layout left zf pad s (int ++ d))
unfolding float_calls layout
float_calls-layout true true c pad sign dot s int d hs hd = simp (writes, hs, hd)
float_calls-layout true false c pad sign dot s int d hs hd = simp (writes, hs, hd)
float_calls-layout false true c pad sign dot s int d hs hd = simp (writes, hs, hd)
float_calls-layout false false c pad sign dot s int d hs hd = simp (writes, hs, hd)

-- The text of a float conversion whose two parts are digits.
unfoldable pub float_field : List ℕ → List ℕ → Flags → ℕ → ℕ → List ℕ
unfolding sign_text dot_text
float_field int frac flags width prec =
    let sign_len = if flags.neg || flags.plus || flags.space then 1 else 0 in
    let dot = ltb 0 prec || flags.hash in
    let z = if ltb 0 prec && ltb (length frac) prec then prec - length frac else 0 in
    let payload = sign_len + length int + (if dot then 1 else 0) + z + length frac in
    layout flags.left flags.zero_fill (padding payload width)
      (sign_text flags.neg flags.plus flags.space) (int ++ dot_text dot z frac)

pub emit_float_parts_lem :
    (c : FormatContext) (int frac : List ℕ) (flags : Flags) (width prec : ℕ)
    → emit_float_parts c int frac flags width prec
      ≡ ctx_write c (float_field int frac flags width prec)
unfolding emit_float_parts float_calls sign_calls dot_calls float_field
emit_float_parts_lem c int frac flags width prec =
    float_calls-layout flags.left flags.zero_fill c _ (sign_calls flags.neg flags.plus flags.space)
      (λ k. dot_calls (ltb 0 prec || flags.hash) k _ frac) _ int _
      (sign_calls_lem flags.neg flags.plus flags.space)
      (λ k. dot_calls_lem (ltb 0 prec || flags.hash) k _ frac)
