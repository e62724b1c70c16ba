-- ===== src/Std/Format/Text.antt =====
-- The text of a run of CORE/src/std/sprintf.c does not depend on where it goes.
use supernova_os.Prelude.{
  ℕ, zero, suc, ◌+◌, ◌%◌, ◌^◌, ◌≡◌, refl, sym, ap, ◌∙◌, Bool, true, false, ◌||◌, Option, none, some,
  List, [], ◌∷◌, ◌++◌, append_assoc, append-nil, arith, leb, ◌==◌, if◌then◌else◌, length,
}
use supernova_os.Std.Format.Context.{
  FormatContext, ctx_putc, ctx_write, ctx_putc-ctx_write, ctx_write-append, ctx_write-nil,
  pos-ctx_putc,
}
use supernova_os.Std.Format.Emit.{Flags, emit_int}
use supernova_os.Std.Format.Float.{Floats, float_prec, emit_float}
use supernova_os.Std.Format.Directive.{Directive, peek, skip, parse_directive}
use supernova_os.Std.Format.Fields.{emit_int_lem, emit_str_lem, emit_char_lem, emit_float_parts_lem}
use supernova_os.Std.Format.Core.{
  signed_arg, Stores, Step, next, stop, fault, Outcome, done, bad_args, out_of_fuel, emit_signed,
  emit_pointer, convert, takes_arg, after_conversion, convert_next, conversion, convert_directive,
  step, proceed, finish, core_loop, core_vsnprintf,
}

-- A context that keeps every character, at position `p`.
abbrev pub recorder : ℕ → FormatContext
recorder p = record { flag = true; buf = none; cap = 0; pos = p; calls = [] }

calls-ctx_write :
    (c : FormatContext) (t : List ℕ) → c.flag ≡ true → (ctx_write c t).calls ≡ c.calls ++ t
unfolding ctx_write ctx_putc
calls-ctx_write c [] h = sym (append-nil c.calls)
calls-ctx_write c (x ∷ t) h =
    ground (arith, calls-ctx_write (ctx_putc c x) t, append_assoc c.calls (x ∷ []) t)

ctx_write-flag : (c : FormatContext) (t : List ℕ) → (ctx_write c t).flag ≡ c.flag
unfolding ctx_write ctx_putc
ctx_write-flag c [] = refl
ctx_write-flag c (x ∷ t) = ground (arith, ctx_write-flag (ctx_putc c x) t)

ctx_write-pos_eq :
    (c d : FormatContext) (t : List ℕ) → c.pos ≡ d.pos → (ctx_write c t).pos ≡ (ctx_write d t).pos
unfolding ctx_write
ctx_write-pos_eq c d [] h = h
ctx_write-pos_eq c d (x ∷ t) h =
    ctx_write-pos_eq (ctx_putc c x) (ctx_putc d x) t (rw (pos-ctx_putc c x, pos-ctx_putc d x, h))

pub calls-recorder : (p : ℕ) (t : List ℕ) → (ctx_write (recorder p) t).calls ≡ t
calls-recorder p t = calls-ctx_write (recorder p) t refl

-- What a part of a run does to `c`, from what it does to the recorder.
abbrev pub attach : FormatContext → FormatContext → FormatContext
attach c r = ctx_write c r.calls

attach_conversion :
    FormatContext → Option (FormatContext × Stores) → Option (FormatContext × Stores)
attach_conversion c none = none
attach_conversion c (some (r, more)) = some (attach c r, more)

attach_step : FormatContext → Step → Step
attach_step c (next r fmt ap st) = next (attach c r) fmt ap st
attach_step c (stop r st) = stop (attach c r) st
attach_step c fault = fault

unfoldable pub attach_outcome : FormatContext → Outcome → Outcome
attach_outcome c (done r st) = done (attach c r) st
attach_outcome c bad_args = bad_args
attach_outcome c out_of_fuel = out_of_fuel

-- `f` writes to any context what it writes to the recorder.
abbrev Written : (FormatContext → FormatContext) → Type 0
Written f = (c : FormatContext) → f c ≡ attach c (f (recorder c.pos))

Written-text :
    {f : FormatContext → FormatContext} (t : List ℕ)
    → ((c : FormatContext) → f c ≡ ctx_write c t)
    → Written f
Written-text {f} t h c =
    let e : (f (recorder c.pos)).calls ≡ t = rw (h (recorder c.pos)) (calls-recorder c.pos t) in
    rw e (h c)

Written-if :
    (b : Bool) {f g : FormatContext → FormatContext}
    → Written f
    → Written g
    → Written (λ c. if b then f c else g c)
Written-if true hf hg c = hf c
Written-if false hf hg c = hg c

emit_int-Written :
    (v base : ℕ) (d : Directive) (f : Flags) (w : ℕ) → Written (λ c. emit_int c v base f w d.prec)
emit_int-Written v base d f w = Written-text _ (λ c. emit_int_lem c v base f w d.prec)

emit_signed-Written : (d : Directive) (a : ℕ) → Written (λ c. emit_signed c d a)
unfolding emit_signed
emit_signed-Written d a =
    Written-if (leb (2 ^ 63) (signed_arg d.len a))
      (emit_int-Written _ 10 d (record d.flags { neg = true }) d.width)
      (emit_int-Written _ 10 d d.flags d.width)

emit_pointer-Written : (d : Directive) (a : ℕ) → Written (λ c. emit_pointer c d a)
unfolding emit_pointer
emit_pointer-Written d a =
    emit_int-Written a 16 d (record d.flags { zero_fill = true; upper = true }) _

-- The same of a conversion with its stores.
abbrev Converts : (FormatContext → Option (FormatContext × Stores)) → Type 0
Converts f = (c : FormatContext) → f c ≡ attach_conversion c (f (recorder c.pos))

Converts-if :
    (b : Bool) {f g : FormatContext → Option (FormatContext × Stores)}
    → Converts f
    → Converts g
    → Converts (λ c. if b then f c else g c)
Converts-if true hf hg c = hf c
Converts-if false hf hg c = hg c

Converts-Written : {f : FormatContext → FormatContext} → Written f → Converts (λ c. some (f c, []))
unfolding attach_conversion
Converts-Written h c = ap (λ k. some (k, [])) (h c)

module _ (D : Floats) (text : ℕ → List ℕ) where
  emit_float-Written :
      (v : D.Double) (f : Flags) (w prec : ℕ) → Written (λ c. emit_float D c v f w prec)
  unfolding emit_float
  emit_float-Written v f w prec =
      Written-text _ (λ c. emit_float_parts_lem c _ _ _ w (float_prec prec))

  convert-Converts : (spec : ℕ) (d : Directive) (a : ℕ) → Converts (λ c. convert D text spec c d a)
  unfolding convert attach_conversion
  convert-Converts spec d a =
      Converts-if (spec == b'c')
        (Converts-Written (Written-text _ (λ c. emit_char_lem c (a % 2 ^ 8) d.flags d.width)))
        (Converts-if (spec == b's')
          (Converts-Written (
            Written-text _ (λ c.
              emit_str_lem c (if a == 0 then none else some (text a)) d.flags d.width d.prec)))
          (Converts-if (spec == b'd' || spec == b'i') (Converts-Written (emit_signed-Written d a)) (
            Converts-if (spec == b'u') (Converts-Written (emit_int-Written _ 10 d d.flags d.width))
              (Converts-if (spec == b'o')
                (Converts-Written (emit_int-Written _ 8 d d.flags d.width))
                (Converts-if (spec == b'x')
                  (Converts-Written (emit_int-Written _ 16 d d.flags d.width))
                  (Converts-if (spec == b'X')
                    (Converts-Written
                      (emit_int-Written _ 16 d (record d.flags { upper = true }) d.width))
                    (Converts-if (spec == b'p') (Converts-Written (emit_pointer-Written d a)) (
                      Converts-if (spec == b'f' || spec == b'F')
                        (Converts-Written (emit_float-Written (D.of_bits a) d.flags d.width d.prec))
                        (Converts-if (spec == b'n') (λ c. rw ctx_write-nil) (λ c. refl))))))))))

  -- The same of a round of the loop.
  abbrev Steps : (FormatContext → Step) → Type 0
  Steps f = (c : FormatContext) → f c ≡ attach_step c (f (recorder c.pos))

  Steps-if :
      (b : Bool) {f g : FormatContext → Step}
      → Steps f
      → Steps g
      → Steps (λ c. if b then f c else g c)
  Steps-if true hf hg c = hf c
  Steps-if false hf hg c = hg c

  Steps-next :
      {f : FormatContext → FormatContext} (s ap : List ℕ) (st : Stores)
      → Written f
      → Steps (λ c. next (f c) s ap st)
  unfolding attach_step
  Steps-next s ap st h c = ap' (h c)
    where
      ap' : {x y : FormatContext} → x ≡ y → next x s ap st ≡ next y s ap st
      ap' e = λ i. next (e i) s ap st

  Steps-stop : (st : Stores) → Steps (λ c. stop c st)
  unfolding attach_step
  Steps-stop st c = rw ctx_write-nil

  putc-Written : (ch : ℕ) → Written (λ c. ctx_putc c ch)
  putc-Written ch = Written-text (ch ∷ []) (λ c. ctx_putc-ctx_write c ch)

  putc2-Written : (ch ch' : ℕ) → Written (λ c. ctx_putc (ctx_putc c ch) ch')
  putc2-Written ch ch' =
      Written-text (ch ∷ ch' ∷ []) (λ c. simp (ctx_putc-ctx_write, ← ctx_write-append))

  after-attach :
      (rest args : List ℕ) (st : Stores) (c : FormatContext) (o : Option (FormatContext × Stores))
      → after_conversion rest args st (attach_conversion c o)
        ≡ attach_step c (after_conversion rest args st o)
  unfolding after_conversion attach_conversion attach_step
  after-attach rest args st c none = refl
  after-attach rest args st c (some (r, more)) = refl

  convert_next-Steps :
      (spec : ℕ) (d : Directive) (args : List ℕ) (st : Stores)
      → Steps (λ c. convert_next D text spec c d args st)
  unfolding convert_next
  convert_next-Steps spec d [] st c = unfold attach_step in refl
  convert_next-Steps spec d (a ∷ more) st c =
      ap (after_conversion (skip d.rest) more st) (convert-Converts spec d a c)
      ∙ after-attach (skip d.rest) more st c (convert D text spec (recorder c.pos) d a)

  conversion-Steps : (d : Directive) (st : Stores) → Steps (λ c. conversion D text c d st)
  unfolding conversion
  conversion-Steps d st = Steps-if (peek d.rest == 0) (Steps-stop st) (
      Steps-if (peek d.rest == b'%') (Steps-next (skip d.rest) d.args st (putc-Written b'%')) (
        Steps-if (takes_arg D text (peek d.rest)) (convert_next-Steps (peek d.rest) d d.args st)
          (Steps-next (skip d.rest) d.args st (putc2-Written b'%' (peek d.rest)))))

  convert_directive-Steps :
      (st : Stores) (o : Option Directive) → Steps (λ c. convert_directive D text c st o)
  unfolding convert_directive
  convert_directive-Steps st none c = unfold attach_step in refl
  convert_directive-Steps st (some d) c = conversion-Steps d st c

  step-Steps : (s args : List ℕ) (st : Stores) → Steps (λ c. step D text c s args st)
  unfolding step
  step-Steps [] args st = Steps-stop st
  step-Steps (x ∷ s) args st =
      Steps-if (x == b'%') (convert_directive-Steps st (parse_directive s args))
        (Steps-next s args st (putc-Written x))

  -- What follows a step that the recorder takes.
  recorder_kept :
      (p : ℕ) (args s : List ℕ) (st : Stores) (t : Step)
      → step D text (recorder p) s args st ≡ t
      → attach_step (recorder p) t ≡ t
  recorder_kept p args s st t e = rw (← e) (sym (step-Steps s args st (recorder p)))

  attach-attach :
      (c : FormatContext) (p : ℕ) (r : FormatContext) (o : Outcome)
      → attach (recorder p) r ≡ r
      → attach_outcome c (attach_outcome r o) ≡ attach_outcome (attach c r) o
  unfolding attach_outcome
  attach-attach c p r (done k st) e =
      let f : r.flag ≡ true = rw (← e) (ctx_write-flag (recorder p) r.calls) in
      ap (λ k. done k st) (rw (calls-ctx_write r k.calls f) (ctx_write-append c r.calls k.calls))
  attach-attach c p r bad_args e = refl
  attach-attach c p r out_of_fuel e = refl

  next-kept :
      (c r : FormatContext) (s args : List ℕ) (st : Stores)
      → attach_step c (next r s args st) ≡ next r s args st
      → attach c r ≡ r
  unfolding attach_step
  next-kept c r s args st e = cc

  abbrev Attaches : (FormatContext → List ℕ → List ℕ → Stores → Outcome) → Type 0
  Attaches loop =
      (c : FormatContext) (s args : List ℕ) (st : Stores)
      → loop c s args st ≡ attach_outcome c (loop (recorder c.pos) s args st)

  proceed-attach :
      (loop : FormatContext → List ℕ → List ℕ → Stores → Outcome) (c : FormatContext) (t : Step)
      → Attaches loop
      → attach_step (recorder c.pos) t ≡ t
      → proceed loop (attach_step c t) ≡ attach_outcome c (proceed loop t)
  unfolding proceed attach_step
  proceed-attach loop c (next r s args st) ih e =
      let kept : attach (recorder c.pos) r ≡ r = next-kept (recorder c.pos) r s args st e in
      let same : (attach c r).pos ≡ r.pos =
        ctx_write-pos_eq c (recorder c.pos) r.calls refl ∙ ap (λ (k : FormatContext). k.pos) kept in
      ih (attach c r) s args st
      ∙ ap (λ p. attach_outcome (attach c r) (loop (recorder p) s args st)) same
      ∙ sym (attach-attach c c.pos r (loop (recorder r.pos) s args st) kept)
      ∙ ap (attach_outcome c) (sym (ih r s args st))
  proceed-attach loop c (stop r st) ih e = unfold attach_outcome in refl
  proceed-attach loop c fault ih e = unfold attach_outcome in refl

  core_loop-suc :
      (n : ℕ) (c : FormatContext) (s args : List ℕ) (st : Stores)
      → core_loop D text (suc n) c s args st
        ≡ proceed (core_loop D text n) (step D text c s args st)
  unfolding core_loop
  core_loop-suc n c s args st = refl

  core_loop-attach : (n : ℕ) → Attaches (core_loop D text n)
  core_loop-attach zero c s args st = unfold core_loop attach_outcome in refl
  core_loop-attach (suc n) c s args st =
      rw
        (
          core_loop-suc n c s args st,
          core_loop-suc n (recorder c.pos) s args st,
          step-Steps s args st c,
        )
        (proceed-attach (core_loop D text n) c (step D text (recorder c.pos) s args st)
          (core_loop-attach n) (recorder_kept c.pos args s st _ refl))

  finish-attach :
      (c : FormatContext) (o : Outcome)
      → attach_outcome (recorder c.pos) o ≡ o
      → finish (attach_outcome c o) ≡ attach_outcome c (finish o)
  unfolding finish attach_outcome
  finish-attach c (done r st) e =
      let kept : attach (recorder c.pos) r ≡ r = cc in
      let f : r.flag ≡ true = rw (← kept) (ctx_write-flag (recorder c.pos) r.calls) in
      ap (λ k. done k st)
        (rw (ctx_putc-ctx_write, ctx_putc-ctx_write r 0, calls-ctx_write r (0 ∷ []) f)
          (sym (ctx_write-append c r.calls (0 ∷ []))))
  finish-attach c bad_args e = refl
  finish-attach c out_of_fuel e = refl

  -- The characters, the stores and the faults of a run are those of the run of the recorder at the
  -- same position: a context of any kind and capacity is left as if these characters had been
  -- written to it one after the other.
  pub core_vsnprintf-attach :
      (c : FormatContext) (fmt args : List ℕ)
      → core_vsnprintf D text c fmt args
        ≡ attach_outcome c (core_vsnprintf D text (recorder c.pos) fmt args)
  unfolding core_vsnprintf
  core_vsnprintf-attach c fmt args = rw (core_loop-attach (length fmt + 1) c fmt args []) (
      finish-attach c (core_loop D text (length fmt + 1) (recorder c.pos) fmt args [])
        (sym (core_loop-attach (length fmt + 1) (recorder c.pos) fmt args [])))

  finish_ends_nul :
      (p : ℕ) (o : Outcome) (r : FormatContext) (st : Stores)
      → attach_outcome (recorder p) o ≡ o
      → finish o ≡ done r st
      → (u : List ℕ) × (r ≡ ctx_write (recorder p) (u ++ 0 ∷ []))
  unfolding finish attach_outcome
  finish_ends_nul p (done k st') r st e h =
      let kept : ctx_write (recorder p) k.calls ≡ k = cc in
      let out : ctx_putc k 0 ≡ r = cc in
      (
        k.calls,
        sym out
            ∙ ctx_putc-ctx_write k 0
            ∙ ap (λ c. ctx_write c (0 ∷ [])) (sym kept)
            ∙ sym (ctx_write-append (recorder p) k.calls (0 ∷ [])),
      )
  finish_ends_nul p bad_args r st e h = cc
  finish_ends_nul p out_of_fuel r st e h = cc

  -- The characters of a run end with a NUL.
  pub core_vsnprintf_ends_nul :
      (p : ℕ) (fmt args : List ℕ) (r : FormatContext) (st : Stores)
      → core_vsnprintf D text (recorder p) fmt args ≡ done r st
      → (u : List ℕ) × (r ≡ ctx_write (recorder p) (u ++ 0 ∷ []))
  unfolding core_vsnprintf
  core_vsnprintf_ends_nul p fmt args r st h =
      finish_ends_nul p _ r st (sym (core_loop-attach (length fmt + 1) (recorder p) fmt args [])) h
