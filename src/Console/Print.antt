-- ===== src/Console/Print.antt =====
-- Text that vprintf of CORE/src/std/sprintf.c prints on the screen of CORE/src/console.c.
use supernova_os.Prelude.{ℕ, ◌≡◌, refl, ap, ◌∙◌, Option, none, some, List, [], ◌∷◌, ◌++◌, arith}
use mathlib.Core.Path.{subst}
use supernova_os.Std.Format.Core.{Outcome, done, bad_args, out_of_fuel, core_vsnprintf, returned}
use supernova_os.Std.Format.Float.{Floats}
use supernova_os.Std.Format.Text.{recorder, calls-recorder, core_vsnprintf_ends_nul}
use supernova_os.Std.Format.Total.{core_vsnprintf-Ends}
use supernova_os.Console.{Screen, Text, scroll, place_char, outchar}
use supernova_os.Console.Grid.{IsScreen, Sheet, Shows, type_char, outchar-Shows}

-- The characters that the callback is given, in turn.
pub out_all : Screen → Text → List ℕ → Text
out_all s t [] = t
out_all s t (x ∷ xs) = out_all s (outchar s t x) xs

-- The same on the grid.
pub type_all : Screen → ℕ → Sheet → List ℕ → Sheet
type_all s color sh [] = sh
type_all s color sh (x ∷ xs) = type_all s color (type_char s color sh x) xs

-- What `vprintf` leaves of the text and returns, from what the formatter does: `none` for a read past
-- the arguments.
abbrev pub shown : Screen → Text → ℕ → Outcome → Option (Text × ℕ)
shown s t attr (done c st) =
    some (record (out_all s (record t { colr = attr }) c.calls) { colr = t.colr }, returned c)
shown s t attr bad_args = none
shown s t attr out_of_fuel = none

outchar_colr : (s : Screen) (t : Text) (ch : ℕ) → (outchar s t ch).colr ≡ t.colr
unfolding outchar scroll place_char
outchar_colr s t ch = ground arith

out_all-Shows :
    (s : Screen) (t : Text) (sh : Sheet) (color : ℕ) (xs : List ℕ)
    → IsScreen s
    → t.colr ≡ color
    → Shows s t sh
    → Shows s (out_all s t xs) (type_all s color sh xs)
unfolding out_all type_all
out_all-Shows s t sh color [] is e h = h
out_all-Shows s t sh color (x ∷ xs) is e h =
    out_all-Shows s (outchar s t x) (type_char s color sh x) color xs is (outchar_colr s t x ∙ e) (
      subst (λ (c : ℕ). Shows s (outchar s t x) (type_char s c sh x)) e
        (outchar-Shows s t sh x is h))

type_all-nul :
    (s : Screen) (color : ℕ) (sh : Sheet) (u : List ℕ)
    → type_all s color sh (u ++ 0 ∷ []) ≡ type_all s color sh u
unfolding type_all
type_all-nul s color sh [] = unfold type_char in refl
type_all-nul s color sh (x ∷ u) = type_all-nul s color (type_char s color sh x) u

module _ (D : Floats) (text : ℕ → List ℕ) where
  -- The formatter does not look at the screen, so that its characters may be written behind it.
  unfoldable pub vprintf : Screen → Text → ℕ → List ℕ → List ℕ → Option (Text × ℕ)
  vprintf s t attr fmt args = shown s t attr (core_vsnprintf D text (recorder 0) fmt args)

-- What the formatter gives and what the screen shows belong together.
abbrev pub Printed : Screen → Text → Sheet → ℕ → Outcome → Option (Text × ℕ) → Type 0
Printed s t sh attr (done c st) none = ⊥
Printed s t sh attr (done c st) (some (t', n)) =
    (u : List ℕ) × (c.calls ≡ u ++ 0 ∷ [])
    × Shows s t' (type_all s attr sh u)
    × (t'.colr ≡ t.colr)
    × (n ≡ returned c)
Printed s t sh attr bad_args r = r ≡ none
Printed s t sh attr out_of_fuel r = ⊥

module _ (D : Floats) (text : ℕ → List ℕ) where
  shown-Printed :
      (s : Screen) (t : Text) (sh : Sheet) (attr : ℕ) (fmt args : List ℕ) (o : Outcome)
      → IsScreen s
      → Shows s t sh
      → core_vsnprintf D text (recorder 0) fmt args ≡ o
      → Printed s t sh attr o (shown s t attr o)
  shown-Printed s t sh attr fmt args (done c st) is h e =
      let (u, q) = core_vsnprintf_ends_nul D text 0 fmt args c st e in
      let calls : c.calls ≡ u ++ 0 ∷ [] = ap (λ k. k.calls) q ∙ calls-recorder 0 (u ++ 0 ∷ []) in
      let colored : Text = record t { colr = attr } in
      let start : Shows s colored sh = record {
        place = h.place;
        on_screen = h.on_screen;
        frame = h.frame;
        flush = h.flush;
      } in
      let after : Shows s (out_all s colored c.calls) (type_all s attr sh u) =
        subst (λ x. Shows s (out_all s colored c.calls) x)
          (ap (type_all s attr sh) calls ∙ type_all-nul s attr sh u)
          (out_all-Shows s colored sh attr c.calls is refl start) in
      (
        u,
        calls,
        record {
          place = after.place;
          on_screen = after.on_screen;
          frame = after.frame;
          flush = after.flush;
        },
        refl,
        refl,
      )
  shown-Printed s t sh attr fmt args bad_args is h e = refl
  shown-Printed s t sh attr fmt args out_of_fuel is h e =
      core_vsnprintf-Ends D text (recorder 0) fmt args e

  -- `vprintf` on a screen that shows a grid ends, for every format and all arguments: the screen shows
  -- the grid on which the characters of the format, which are those that any other context is given
  -- up to the NUL, were typed one after the other in the colour asked for, the colour of the text is
  -- as before, and the count returned is that of the formatter; or the format asks for more arguments
  -- than there are. The look of a character from 0x80 on is that of the bytes in front of the font.
  pub vprintf-Printed :
      (s : Screen) (t : Text) (sh : Sheet) (attr : ℕ) (fmt args : List ℕ)
      → IsScreen s
      → Shows s t sh
      → Printed s t sh attr
          (core_vsnprintf D text (recorder 0) fmt args)
          (vprintf D text s t attr fmt args)
  unfolding vprintf
  vprintf-Printed s t sh attr fmt args is h =
      shown-Printed s t sh attr fmt args (core_vsnprintf D text (recorder 0) fmt args) is h refl
