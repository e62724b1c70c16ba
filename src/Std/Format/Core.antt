-- ===== src/Std/Format/Core.antt =====
-- `core_vsnprintf` and its callers in CORE/src/std/sprintf.c.
use supernova_os.Prelude.{
  ℕ, zero, suc, ◌+◌, ◌-◌, ◌%◌, ◌^◌, ap, Bool, true, false, ◌||◌, Option, none, some, List, [], ◌∷◌,
  ◌++◌, leb, ◌==◌, if◌then◌else◌, length,
}
use supernova_os.Prelude.Words.{slt32, sext32, sext16, sext8}
use supernova_os.Std.Format.Context.{FormatContext, ctx_putc}
use supernova_os.Std.Format.Emit.{emit_int, emit_str, emit_char}
use supernova_os.Std.Format.Float.{Floats, emit_float}
use supernova_os.Std.Format.Directive.{
  Len, len_none, len_hh, len_h, len_l, len_ll, len_z, len_t, Directive, peek, skip, parse_directive,
}

-- What `va_arg` yields for `%d`, `%u`, `%o` and `%x` of a 64-bit slot; `long` has 32 bits.
unfoldable pub signed_arg : Len → ℕ → ℕ
signed_arg len_ll a = a
signed_arg len_l a = sext32 (a % 2 ^ 32)
signed_arg len_h a = sext16 (a % 2 ^ 16)
signed_arg len_hh a = sext8 (a % 2 ^ 8)
signed_arg len_z a = a
signed_arg len_t a = a
signed_arg len_none a = sext32 (a % 2 ^ 32)

unfoldable pub unsigned_arg : Len → ℕ → ℕ
unsigned_arg len_ll a = a
unsigned_arg len_l a = a % 2 ^ 32
unsigned_arg len_h a = a % 2 ^ 16
unsigned_arg len_hh a = a % 2 ^ 8
unsigned_arg len_z a = a
unsigned_arg len_t a = a
unsigned_arg len_none a = a % 2 ^ 32

unfoldable pub octal_arg : Len → ℕ → ℕ
octal_arg len_ll a = a
octal_arg len_l a = a % 2 ^ 32
octal_arg len a = a % 2 ^ 32

unfoldable pub hex_arg : Len → ℕ → ℕ
hex_arg len_ll a = a
hex_arg len_l a = a % 2 ^ 32
hex_arg len_h a = a % 2 ^ 16
hex_arg len_hh a = a % 2 ^ 8
hex_arg len_z a = a
hex_arg len_t a = a % 2 ^ 32
hex_arg len_none a = a % 2 ^ 32

-- The pairs are what `%n` stored, and where.
abbrev pub Stores : Type 0
Stores = List (ℕ × ℕ)

-- One round of the loop: on to the rest of the format and of the arguments, the end of the loop, or
-- a read past the last argument.
pub data Step : Type 0 where
  next : FormatContext → List ℕ → List ℕ → Stores → Step
  stop : FormatContext → Stores → Step
  fault : Step

-- A whole run; `out_of_fuel` is no behaviour of the code.
pub data Outcome : Type 0 where
  done : FormatContext → Stores → Outcome
  bad_args : Outcome
  out_of_fuel : Outcome

-- `%d` and `%i`
unfoldable pub emit_signed : FormatContext → Directive → ℕ → FormatContext
emit_signed c d a =
    let sval = signed_arg d.len a in
    if leb (2 ^ 63) sval
    then emit_int c ((2 ^ 64 - sval) % 2 ^ 64) 10 (record d.flags { neg = true }) d.width d.prec
    else emit_int c sval 10 d.flags d.width d.prec

-- `%p`
unfoldable pub emit_pointer : FormatContext → Directive → ℕ → FormatContext
emit_pointer c d a =
    emit_int c a 16 (record d.flags { zero_fill = true; upper = true })
      (if slt32 0 d.width then d.width else 16) d.prec

-- On behind a conversion, with what it stored.
unfoldable pub after_conversion : List ℕ → List ℕ → Stores → Option (FormatContext × Stores) → Step
after_conversion rest args st none = fault
after_conversion rest args st (some (c, more)) = next c rest args (st ++ more)

-- The rest of the loop behind a round.
unfoldable pub proceed : (FormatContext → List ℕ → List ℕ → Stores → Outcome) → Step → Outcome
proceed loop (next c fmt ap st) = loop c fmt ap st
proceed loop (stop c st) = done c st
proceed loop fault = bad_args

-- `ctx_putc(c, 0)` behind the loop.
unfoldable pub finish : Outcome → Outcome
finish (done c st) = done (ctx_putc c 0) st
finish bad_args = bad_args
finish out_of_fuel = out_of_fuel

module _ (D : Floats) (text : ℕ → List ℕ) where
  -- A conversion that takes an argument `a`: the new context and what is stored. `text p` is the
  -- string in memory at `p`.
  unfoldable pub convert : ℕ → FormatContext → Directive → ℕ → Option (FormatContext × Stores)
  convert spec c d a =
      if spec == b'c'
      then some (emit_char c (a % 2 ^ 8) d.flags d.width, [])
      else if spec == b's'
      then some (emit_str c (if a == 0 then none else some (text a)) d.flags d.width d.prec, [])
      else if spec == b'd' || spec == b'i'
      then some (emit_signed c d a, [])
      else if spec == b'u'
      then some (emit_int c (unsigned_arg d.len a) 10 d.flags d.width d.prec, [])
      else if spec == b'o'
      then some (emit_int c (octal_arg d.len a) 8 d.flags d.width d.prec, [])
      else if spec == b'x'
      then some (emit_int c (hex_arg d.len a) 16 d.flags d.width d.prec, [])
      else if spec == b'X'
      then some
          (emit_int c (hex_arg d.len a) 16 (record d.flags { upper = true }) d.width d.prec, [])
      else if spec == b'p'
      then some (emit_pointer c d a, [])
      else if spec == b'f' || spec == b'F'
      then some (emit_float D c (D.of_bits a) d.flags d.width d.prec, [])
      else if spec == b'n'
      then some (c, if a == 0 then [] else (a, c.pos % 2 ^ 32) ∷ [])
      else none

  -- The letters of the conversions that take an argument.
  unfoldable pub takes_arg : ℕ → Bool
  takes_arg s =
      s == b'c'
      || s == b's'
      || s == b'd'
      || s == b'i'
      || s == b'u'
      || s == b'o'
      || s == b'x'
      || s == b'X'
      || s == b'p'
      || s == b'f'
      || s == b'F'
      || s == b'n'

  -- The conversion with its argument taken from the list.
  unfoldable pub convert_next : ℕ → FormatContext → Directive → List ℕ → Stores → Step
  convert_next spec c d [] st = fault
  convert_next spec c d (a ∷ more) st = after_conversion (skip d.rest) more st (convert spec c d a)

  unfoldable pub conversion : FormatContext → Directive → Stores → Step
  conversion c d st =
      let spec = peek d.rest in
      if spec == 0
      then stop c st
      else if spec == b'%'
      then next (ctx_putc c b'%') (skip d.rest) d.args st
      else if takes_arg spec
      then convert_next spec c d d.args st
      else next (ctx_putc (ctx_putc c b'%') spec) (skip d.rest) d.args st

  unfoldable pub convert_directive : FormatContext → Stores → Option Directive → Step
  convert_directive c st none = fault
  convert_directive c st (some d) = conversion c d st

  unfoldable pub step : FormatContext → List ℕ → List ℕ → Stores → Step
  step c [] ap st = stop c st
  step c (x ∷ s) ap st =
      if x == b'%'
      then convert_directive c st (parse_directive s ap)
      else next (ctx_putc c x) s ap st

  unfoldable pub core_loop : ℕ → FormatContext → List ℕ → List ℕ → Stores → Outcome
  core_loop zero c fmt ap st = out_of_fuel
  core_loop (suc n) c fmt ap st = proceed (core_loop n) (step c fmt ap st)

  -- `core_vsnprintf`: the loop, then the NUL.
  unfoldable pub core_vsnprintf : FormatContext → List ℕ → List ℕ → Outcome
  core_vsnprintf c fmt ap = finish (core_loop (length fmt + 1) c fmt ap [])

-- `(int) c->pos`, the value returned.
abbrev pub returned : FormatContext → ℕ
returned c = c.pos % 2 ^ 32

abbrev pub buffer_context : Option (List ℕ) → ℕ → FormatContext
buffer_context buf cap = record { flag = false; buf = buf; cap = cap; pos = 0; calls = [] }

module _ (D : Floats) (text : ℕ → List ℕ) where
  -- `vsnprintf`, and `snprintf` with its arguments collected.
  unfoldable pub vsnprintf : Option (List ℕ) → ℕ → List ℕ → List ℕ → Outcome
  vsnprintf buf n fmt ap = core_vsnprintf D text (buffer_context buf n) fmt ap

  -- `vsprintf`, and `sprintf`: the capacity is `(size_t) -1`.
  unfoldable pub vsprintf : Option (List ℕ) → List ℕ → List ℕ → Outcome
  vsprintf buf fmt ap = core_vsnprintf D text (buffer_context buf (2 ^ 64 - 1)) fmt ap
