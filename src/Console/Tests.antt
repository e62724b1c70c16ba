-- ===== src/Console/Tests.antt =====
-- Runs of CORE/src/console.c, and its theorems at a concrete input.
use supernova_os.Prelude.{ℕ, ◌/◌, ◌%◌, ◌≡◌, refl, false, none, List, [], ◌∷◌, arith}
use supernova_os.Std.Format.Core.{core_vsnprintf}
use supernova_os.Std.Format.Float.{Floats}
use supernova_os.Std.Format.Text.{recorder}
use supernova_os.Console.{
  Screen, Text, color_map, draw_bits, draw_rows, draw_char, scroll, place_char, outchar, font_line,
}
use supernova_os.Console.Grid.{IsScreen, Sheet, Shows, type_char, outchar-Shows}
use supernova_os.Console.Print.{vprintf, Printed, vprintf-Printed}

-- Two lines of two characters. The font begins at 4096, and a byte of memory is the number of its 16.
abbrev small : Screen
small = record { hres = 16; vres = 32; ppl = 16; font = 4096; byte = λ a. a / 16 % 256 }

abbrev start : Text
start = record { poss = 0; colr = 15; frame = λ k. 0; flush = λ k. 0 }

abbrev empty_sheet : Sheet
empty_sheet = record { at = 0; cells = λ r c. none }

small-IsScreen : IsScreen small
small-IsScreen = omega arith

start-Shows : Shows small start empty_sheet
start-Shows = record {
  place = refl;
  on_screen = omega arith;
  frame = λ r c i j lr lc li lj. refl;
  flush = λ r c i j lr lc li lj. refl;
}

-- The character 0xFF is drawn from the last 16 bytes in front of the font, those of 4080.
in_front : font_line small 0xff 3 ≡ 255
unfolding font_line
in_front = refl

-- The lowest bit of the first line of an `A`, 0x41, is white.
white_bit : (outchar small start b'A').frame 7 ≡ 0xffffff
unfolding outchar scroll place_char draw_char draw_rows draw_bits color_map font_line
white_bit = refl

outchar-Shows_example : Shows small (outchar small start b'A') (type_char small 15 empty_sheet b'A')
outchar-Shows_example = outchar-Shows small start empty_sheet b'A' small-IsScreen start-Shows

-- No double is printed here.
abbrev no_floats : Floats
no_floats = record {
  Double = ℕ;
  of_bits = λ n. n;
  of_u64 = λ n. n;
  to_u64 = λ x. x;
  below_zero = λ x. false;
  negate = λ x. x;
  add = λ x y. x;
  sub = λ x y. x;
  mul = λ x y. x;
  div = λ x y. x;
  half = 0;
  ten = 10;
}

abbrev percent_d : List ℕ
percent_d = b'%' ∷ b'd' ∷ []

vprintf-Printed_example :
    Printed small start empty_sheet 12
      (core_vsnprintf no_floats (λ p. []) (recorder 0) percent_d (7 ∷ []))
      (vprintf no_floats (λ p. []) small start 12 percent_d (7 ∷ []))
vprintf-Printed_example =
    vprintf-Printed no_floats (λ p. []) small start empty_sheet 12 percent_d (7 ∷ []) small-IsScreen
      start-Shows
