-- ===== src/Std/Format/Tests.antt =====
-- Runs of the formatter of CORE/src/std/sprintf.c, and its theorems at concrete inputs.
use supernova_os.Prelude.{
  ℕ, ◌+◌, ◌-◌, ◌*◌, ◌/◌, ◌^◌, ◌<◌, ◌≡◌, refl, ◌≢◌, ◌↔◌, true, false, none, some, List, [], ◌∷◌,
  ◌++◌, arith, length, get_elem?,
}
use supernova_os.Std.Format.Context.{FormatContext, ctx_putc, ctx_fill, ctx_write}
use supernova_os.Std.Format.Digits.{itoa_buf, u64_to_str}
use supernova_os.Std.Format.Digits.RoundTrip.{number, number-u64_to_str, u64_to_str_fits}
use supernova_os.Std.Format.Emit.{
  no_flags, padding, int_prefix, emit_int_parts, emit_int, clip, emit_str, emit_char,
}
use supernova_os.Std.Format.Float.{Floats, float_prec, round_add, emit_float_parts, emit_float}
use supernova_os.Std.Format.Directive.{
  add_flag, parse_flags, parse_number, parse_width, parse_prec_value, parse_prec, parse_length,
  then_length, then_prec, parse_directive,
}
use supernova_os.Std.Format.Core.{
  Outcome, done, out_of_fuel, signed_arg, unsigned_arg, octal_arg, hex_arg, emit_signed,
  emit_pointer, convert, takes_arg, after_conversion, convert_next, conversion, convert_directive,
  step, proceed, finish, core_loop, core_vsnprintf, vsnprintf, returned, buffer_context,
}
use supernova_os.Std.Format.Fields.{int_text, emit_int_lem, emit_str_lem, str_field, string_of}
use supernova_os.Std.Format.Text.{recorder, attach_outcome, core_vsnprintf-attach}
use supernova_os.Std.Format.Total.{core_vsnprintf-Ends}
use supernova_os.Std.Format.Buffer.{cell, Holds, vsnprintf-Holds, vsnprintf_unterminated}
use Prim.Native.String.{String}
use Prim.Native.Char.{code}

abbrev chars : String → List ℕ
chars String.[] = []
chars (String.◌∷◌ c s) = code c ∷ chars s

-- Fixed-point numbers of nine decimals for the processor's.
abbrev fixed : Floats
fixed = record {
  Double = ℕ;
  of_bits = λ n. n;
  of_u64 = λ n. n * 10 ^ 9;
  to_u64 = λ x. x / 10 ^ 9;
  below_zero = λ x. false;
  negate = λ x. x;
  add = λ x y. x + y;
  sub = λ x y. x - y;
  mul = λ x y. x * y / 10 ^ 9;
  div = λ x y. x * 10 ^ 9 / y;
  half = 5 * 10 ^ 8;
  ten = 10 ^ 10;
}

abbrev memory : ℕ → List ℕ
memory p = chars "disk"

-- All that a run computes with.
run : List ℕ → List ℕ → Outcome
unfolding ctx_putc ctx_fill ctx_write u64_to_str padding int_prefix emit_int_parts emit_int clip
    emit_str emit_char float_prec round_add emit_float_parts emit_float add_flag parse_flags
    parse_number parse_width parse_prec_value parse_prec parse_length then_length then_prec
    parse_directive signed_arg unsigned_arg octal_arg hex_arg emit_signed emit_pointer convert
    takes_arg after_conversion convert_next conversion convert_directive step proceed finish
    core_loop core_vsnprintf
run fmt args = core_vsnprintf fixed memory (recorder 0) fmt args

abbrev printed : Outcome → List ℕ
printed (done c st) = c.calls
printed _ = []

mixed :
    printed (run (chars "%s%u: %-5d|%#06x|%c%%") (0x1000 ∷ 3 ∷ (2 ^ 32 - 7) ∷ 0xab ∷ b'!' ∷ []))
    ≡ chars "disk3: -7   |0x00ab|!%" ++ 0 ∷ []
unfolding run
mixed = refl

with_star :
    printed (run (chars "[%*d][%.3s]") ((2 ^ 32 - 4) ∷ 42 ∷ 0x1000 ∷ []))
    ≡ chars "[42  ][dis]" ++ 0 ∷ []
unfolding run
with_star = refl

-- A pointer is printed without the prefix, and in capitals.
pointer : printed (run (chars "%p") (0xffff800000000abc ∷ [])) ≡ chars "FFFF800000000ABC" ++ 0 ∷ []
unfolding run
pointer = refl

float_text : printed (run (chars "%.2f") (1995000000 ∷ [])) ≡ chars "2.00" ++ 0 ∷ []
unfolding run
float_text = refl

octal_too_long : length (u64_to_str (2 ^ 64 - 1) 8 false) ≡ itoa_buf
unfolding u64_to_str
octal_too_long = refl

number-u64_to_str_example : number 16 0 (u64_to_str 0xbeef 16 true) ≡ 0xbeef
number-u64_to_str_example =
    number-u64_to_str 16 (omega arith) 0xbeef true (omega arith) (omega arith)

u64_to_str_fits_example :
    (length (u64_to_str (2 ^ 63) 10 false) < itoa_buf)
    × (length (u64_to_str (2 ^ 63) 16 false) < itoa_buf)
    × ((length (u64_to_str (2 ^ 63) 8 false) < itoa_buf) ↔ (2 ^ 63 < 2 ^ 63))
u64_to_str_fits_example = u64_to_str_fits (2 ^ 63) false (omega arith)

core_vsnprintf-attach_example :
    core_vsnprintf fixed memory (buffer_context none 9) (chars "%u") (7 ∷ [])
    ≡ attach_outcome
        (buffer_context none 9)
        (core_vsnprintf fixed memory (recorder 0) (chars "%u") (7 ∷ []))
core_vsnprintf-attach_example =
    core_vsnprintf-attach fixed memory (buffer_context none 9) (chars "%u") (7 ∷ [])

core_vsnprintf-Ends_example : core_vsnprintf fixed memory (recorder 0) (chars "%5") [] ≢ out_of_fuel
core_vsnprintf-Ends_example = core_vsnprintf-Ends fixed memory (recorder 0) (chars "%5") []

abbrev four : List ℕ
four = 1 ∷ 2 ∷ 3 ∷ 4 ∷ []

prints_seven :
    core_vsnprintf fixed memory (recorder 0) (chars "<%u>") (7 ∷ [])
    ≡ done (ctx_write (recorder 0) (chars "<7>" ++ 0 ∷ [])) []
unfolding run
prints_seven = refl

vsnprintf-Holds_example :
    (c : FormatContext) × (vsnprintf fixed memory (some four) 4 (chars "<%u>") (7 ∷ []) ≡ done c [])
    × Holds four 4 (chars "<7>" ++ 0 ∷ []) c.buf
    × (returned c ≡ 4)
vsnprintf-Holds_example =
    vsnprintf-Holds fixed memory four 4 (chars "<%u>") (7 ∷ []) (chars "<7>") [] prints_seven
      (omega arith) (omega arith)

vsnprintf_unterminated_example :
    (c : FormatContext) × (vsnprintf fixed memory (some four) 4 (chars "<%u>") (7 ∷ []) ≡ done c [])
    × (cell c.buf 3 ≡ some 4)
    × ((i : ℕ) → i + 1 < 4 → cell c.buf i ≡ get_elem? (chars "<7>") i)
vsnprintf_unterminated_example =
    vsnprintf_unterminated fixed memory four 4 (chars "<%u>") (7 ∷ []) (chars "<7>") [] prints_seven
      (omega arith) (omega arith) (omega arith) (omega arith) (omega arith)

emit_int_lem_example :
    emit_int (recorder 5) 300 10 no_flags 8 (2 ^ 32 - 1)
    ≡ ctx_write (recorder 5) (int_text 300 10 no_flags 8 (2 ^ 32 - 1))
emit_int_lem_example = emit_int_lem (recorder 5) 300 10 no_flags 8 (2 ^ 32 - 1)

emit_str_lem_example :
    emit_str (recorder 5) none no_flags 8 0
    ≡ ctx_write (recorder 5) (str_field (clip (string_of none) no_flags 0) false 8)
emit_str_lem_example = emit_str_lem (recorder 5) none no_flags 8 0
