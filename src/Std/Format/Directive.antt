-- ===== src/Std/Format/Directive.antt =====
-- How CORE/src/std/sprintf.c reads a conversion: flags, width, precision, length.
use supernova_os.Prelude.{
  ℕ, ◌+◌, ◌-◌, ◌*◌, ◌%◌, ◌^◌, ap, Bool, true, false, ◌&&◌, Option, none, some, List, [], ◌∷◌, leb,
  ◌==◌, if◌then◌else◌,
}
use supernova_os.Prelude.Words.{negative32}
use supernova_os.Std.Format.Emit.{Flags, no_flags}

-- `len_t`
pub data Len : Type 0 where
  len_none len_hh len_h len_l len_ll len_z len_t : Len

-- What stands between the `%` and the conversion character, and what follows: the rest of the
-- format and of the arguments. An argument is its 64-bit slot.
pub record Directive : Type 0 where
  pub flags : Flags
  pub width : ℕ
  pub prec : ℕ
  pub len : Len
  pub rest : List ℕ
  pub args : List ℕ

-- `*p`: the terminating NUL is the end of the list.
abbrev pub peek : List ℕ → ℕ
peek [] = 0
peek (x ∷ xs) = x

abbrev pub skip : List ℕ → List ℕ
skip [] = []
skip (x ∷ xs) = xs

-- The flag that a character sets, if it is a flag.
unfoldable pub add_flag : ℕ → Flags → Option Flags
add_flag x f =
    if x == b'-'
    then some (record f { left = true })
    else if x == b'+'
    then some (record f { plus = true })
    else if x == b' '
    then some (record f { space = true })
    else if x == b'0'
    then some (record f { zero_fill = true })
    else if x == b'#'
    then some (record f { hash = true })
    else none

unfoldable pub parse_flags : List ℕ → Flags → Flags × List ℕ
parse_flags [] f = (f, [])
parse_flags (x ∷ xs) f = elim (add_flag x f) [ none ↦ (f, x ∷ xs) | some g ↦ parse_flags xs g ]

abbrev pub is_digit : ℕ → Bool
is_digit x = leb b'0' x && leb x b'9'

-- `while (*p >= '0' && *p <= '9') n = n * 10 + (*p++ - '0');` on an `int`
unfoldable pub parse_number : List ℕ → ℕ → ℕ × List ℕ
parse_number [] n = (n, [])
parse_number (x ∷ xs) n = elim (is_digit x) [
  | true ↦ parse_number xs ((n * 10 + (x - b'0')) % 2 ^ 32)
  | false ↦ (n, x ∷ xs)
]

-- The next argument as an `int`; `none` if there is none left.
abbrev pub next_int : List ℕ → Option (ℕ × List ℕ)
next_int [] = none
next_int (a ∷ ap) = some (a % 2 ^ 32, ap)

unfoldable pub parse_width : Directive → Option Directive
parse_width d =
    if peek d.rest == b'*'
    then elim (next_int d.args) [
      | none ↦ none
      | some (w, ap) ↦ some (
          if negative32 w
          then record d {
            flags = record d.flags { left = true };
            width = (2 ^ 32 - w) % 2 ^ 32;
            rest = skip d.rest;
            args = ap;
          }
          else record d { width = w; rest = skip d.rest; args = ap })
    ]
    else some (record d { width = (parse_number d.rest 0).0; rest = (parse_number d.rest 0).1 })

-- The precision behind the point.
unfoldable pub parse_prec_value : Directive → Option Directive
parse_prec_value d =
    if peek d.rest == b'*'
    then elim (next_int d.args) [
      | none ↦ none
      | some (w, ap) ↦ some (
          if negative32 w
          then record d {
            flags = record d.flags { precision = false };
            prec = 2 ^ 32 - 1;
            rest = skip d.rest;
            args = ap;
          }
          else record d { prec = w; rest = skip d.rest; args = ap })
    ]
    else some (record d { prec = (parse_number d.rest 0).0; rest = (parse_number d.rest 0).1 })

unfoldable pub parse_prec : Directive → Option Directive
parse_prec d =
    if peek d.rest == b'.'
    then parse_prec_value
        (record d { flags = record d.flags { precision = true }; prec = 0; rest = skip d.rest })
    else some d

unfoldable pub parse_length : List ℕ → Len × List ℕ
parse_length s =
    if peek s == b'h'
    then (if peek (skip s) == b'h' then (len_hh, skip (skip s)) else (len_h, skip s))
    else if peek s == b'l'
    then (if peek (skip s) == b'l' then (len_ll, skip (skip s)) else (len_l, skip s))
    else if peek s == b'z'
    then (len_z, skip s)
    else if peek s == b't'
    then (len_t, skip s)
    else (len_none, s)

abbrev pub with_length : Directive → Directive
with_length d = record d { len = (parse_length d.rest).0; rest = (parse_length d.rest).1 }

-- The parts in turn, each behind the one before.
unfoldable pub then_length : Option Directive → Option Directive
then_length none = none
then_length (some d) = some (with_length d)

unfoldable pub then_prec : Option Directive → Option Directive
then_prec none = none
then_prec (some d) = then_length (parse_prec d)

-- `p` stands behind the `%`.
unfoldable pub parse_directive : List ℕ → List ℕ → Option Directive
parse_directive s args = then_prec (
    parse_width (record {
      flags = (parse_flags s no_flags).0;
      width = 0;
      prec = 2 ^ 32 - 1;
      len = len_none;
      rest = (parse_flags s no_flags).1;
      args = args;
    }))
