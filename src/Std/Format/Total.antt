-- ===== src/Std/Format/Total.antt =====
-- Every run of `core_vsnprintf` of CORE/src/std/sprintf.c ends.
use supernova_os.Prelude.{
  ℕ, zero, suc, ◌+◌, ◌-◌, ◌*◌, ◌%◌, ◌^◌, ◌≤◌, ◌<◌, ◌≡◌, refl, ◌≢◌, true, Option, none, some, List,
  [], ◌∷◌, arith, length,
}
use supernova_os.Std.Format.Context.{FormatContext}
use supernova_os.Std.Format.Emit.{Flags, no_flags}
use supernova_os.Std.Format.Float.{Floats}
use supernova_os.Std.Format.Directive.{
  Directive, skip, add_flag, parse_flags, parse_number, parse_width, parse_prec_value, parse_prec,
  parse_length, then_length, then_prec, parse_directive,
}
use supernova_os.Std.Format.Core.{
  Stores, Step, next, stop, fault, Outcome, done, bad_args, out_of_fuel, after_conversion,
  convert_next, conversion, convert_directive, step, proceed, finish, core_loop, core_vsnprintf,
}

length-skip : (s : List ℕ) → length (skip s) ≤ length s
length-skip [] = omega arith
length-skip (x ∷ s) = omega arith

length-parse_flags : (s : List ℕ) (f : Flags) → length (parse_flags s f).1 ≤ length s
unfolding parse_flags
length-parse_flags [] f = omega arith
length-parse_flags (x ∷ s) f =
    elim (add_flag x f)
      as (λ o.
        length (elim o as (λ _. Flags × List ℕ) [ none ↦ (f, x ∷ s) | some g ↦ parse_flags s g ]).1
        ≤ suc (length s)) [ none ↦ omega arith | some g ↦ omega (arith, length-parse_flags s g) ]

length-parse_number : (s : List ℕ) (n : ℕ) → length (parse_number s n).1 ≤ length s
unfolding parse_number
length-parse_number [] n = omega arith
length-parse_number (x ∷ s) n =
    ground (arith, length-parse_number s ((n * 10 + (x - b'0')) % 2 ^ 32))

-- No part of the reader leaves more of the format than it was given.
parse_width-le : (d e : Directive) → parse_width d ≡ some e → length e.rest ≤ length d.rest
unfolding parse_width
parse_width-le d e h = ground (arith, length-skip d.rest, length-parse_number d.rest 0)

parse_prec_value-le :
    (d e : Directive) → parse_prec_value d ≡ some e → length e.rest ≤ length d.rest
unfolding parse_prec_value
parse_prec_value-le d e h = ground (arith, length-skip d.rest, length-parse_number d.rest 0)

parse_prec-le : (d e : Directive) → parse_prec d ≡ some e → length e.rest ≤ length d.rest
unfolding parse_prec
parse_prec-le d e h = ground (
  arith,
  length-skip d.rest,
  parse_prec_value-le
      (record d { flags = record d.flags { precision = true }; prec = 0; rest = skip d.rest }) e,
)

length-parse_length : (s : List ℕ) → length (parse_length s).1 ≤ length s
unfolding parse_length
length-parse_length s = ground (arith, length-skip s, length-skip (skip s))

then_prec-le :
    (d e : Directive) (o : Option Directive)
    → parse_width d ≡ o
    → then_prec o ≡ some e
    → length e.rest ≤ length d.rest
unfolding then_prec
then_prec-le d e none h k = cc
then_prec-le d e (some f) h k = go (parse_prec f) refl k
  where
    go :
        (p : Option Directive)
        → parse_prec f ≡ p
        → then_length p ≡ some e
        → length e.rest ≤ length d.rest
    go none hp kp = unfold then_length in cc
    go (some g) hp kp =
        unfold then_length in
        ground (arith, parse_width-le d f h, parse_prec-le f g hp, length-parse_length g.rest)

parse_directive-le :
    (s args : List ℕ) (d : Directive) → parse_directive s args ≡ some d → length d.rest ≤ length s
unfolding parse_directive
parse_directive-le s args d h =
    omega (arith, then_prec-le _ d (parse_width _) refl h, length-parse_flags s no_flags)

module _ (D : Floats) (text : ℕ → List ℕ) where
  conversion-le :
      (c : FormatContext) (d : Directive) (st : Stores) (c' : FormatContext) (s' args' : List ℕ)
      (st' : Stores)
      → conversion D text c d st ≡ next c' s' args' st'
      → length s' ≤ length d.rest
  unfolding conversion convert_next after_conversion
  conversion-le c d st c' s' args' st' h = ground (arith, length-skip d.rest)

  convert_directive-le :
      (c : FormatContext) (s args : List ℕ) (st : Stores) (o : Option Directive)
      (c' : FormatContext) (s' args' : List ℕ) (st' : Stores)
      → parse_directive s args ≡ o
      → convert_directive D text c st o ≡ next c' s' args' st'
      → length s' ≤ length s
  unfolding convert_directive
  convert_directive-le c s args st none c' s' args' st' e h = cc
  convert_directive-le c s args st (some d) c' s' args' st' e h =
      omega (arith, conversion-le c d st c' s' args' st' h, parse_directive-le s args d e)

  step_progress :
      (c : FormatContext) (s args : List ℕ) (st : Stores) (c' : FormatContext) (s' args' : List ℕ)
      (st' : Stores)
      → step D text c s args st ≡ next c' s' args' st'
      → length s' < length s
  unfolding step
  step_progress c [] args st c' s' args' st' h = cc
  step_progress c (x ∷ s) args st c' s' args' st' h =
      ground (arith, convert_directive-le c s args st (parse_directive s args) c' s' args' st' refl)

  abbrev Ends : Outcome → Type 0
  Ends o = o ≢ out_of_fuel

  proceed-Ends :
      (loop : FormatContext → List ℕ → List ℕ → Stores → Outcome) (t : Step)
      → ((c : FormatContext) (s args : List ℕ) (st : Stores)
          → t ≡ next c s args st
          → Ends (loop c s args st))
      → Ends (proceed loop t)
  unfolding proceed
  proceed-Ends loop (next c s args st) h e = h c s args st refl e
  proceed-Ends loop (stop c st) h e = cc
  proceed-Ends loop fault h e = cc

  core_loop-Ends :
      (n : ℕ) (c : FormatContext) (s args : List ℕ) (st : Stores)
      → length s < n
      → Ends (core_loop D text n c s args st)
  unfolding core_loop
  core_loop-Ends zero c s args st h = absurd (omega arith)
  core_loop-Ends (suc n) c s args st h =
      proceed-Ends (core_loop D text n) (step D text c s args st) λ c' s' args' st' e.
        core_loop-Ends n c' s' args' st'
          (omega (arith, step_progress c s args st c' s' args' st' e))

  finish-Ends : (o : Outcome) → Ends o → Ends (finish o)
  unfolding finish
  finish-Ends (done c st) h e = cc
  finish-Ends bad_args h e = cc
  finish-Ends out_of_fuel h e = h refl

  -- Every round takes a character of the format at least, so the loop comes to its end with one
  -- more round than the format has characters: `core_vsnprintf` ends on every format and argument
  -- list.
  pub core_vsnprintf-Ends :
      (c : FormatContext) (fmt args : List ℕ) → core_vsnprintf D text c fmt args ≢ out_of_fuel
  unfolding core_vsnprintf
  core_vsnprintf-Ends c fmt args =
      finish-Ends _ (core_loop-Ends (length fmt + 1) c fmt args [] (omega arith))
