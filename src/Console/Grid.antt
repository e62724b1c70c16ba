-- ===== src/Console/Grid.antt =====
-- The screen of CORE/src/console.c as a grid of characters.
use supernova_os.Prelude.{
  ℕ, suc, ◌+◌, ◌-◌, ◌*◌, ◌/◌, ◌%◌, ◌^◌, ◌≤◌, ◌<◌, ◌≡◌, refl, sym, ap, ◌∙◌, inl, inr, true, false,
  ◌&&◌, Option, none, some, arith, ltb, leb, ◌==◌, if◌then◌else◌, leb→le, Bool-cases,
}
use mathlib.Core.Path.{subst}
use native.Mathlib.Nat.{mod-lt, div-lt_iff_lt-mul, div-add-mod', mul-le-mul_right}
use supernova_os.Prelude.Words.{add32, sub32}
use supernova_os.Console.{
  Buffer, Screen, Text, color_map, draw_char, scroll_text_line, blank_from, scroll, place_char,
  outchar, font_line,
}
use supernova_os.Console.Draw.{nth_bit, pixel, row_below, draw_char_lem}
use supernova_os.Console.Scroll.{moved, scroll_text_line_lem}

abbrev pub line_of : Screen → ℕ
line_of s = s.hres / 8

abbrev pub rows_of : Screen → ℕ
rows_of s = s.vres / 16

-- At least one character fits on the screen, whose sizes are of 16 bits, a line of pixels is as
-- long as it is shown, or longer, and no address within 128 characters of the font wraps around.
pub record IsScreen (s : Screen) : Type 0 where
  pub some_line : 0 < line_of s
  pub some_rows : 0 < rows_of s
  pub wide : s.hres ≤ s.ppl
  pub width : s.hres < 2 ^ 16
  pub height : s.vres < 2 ^ 16
  pub font_low : 2048 ≤ s.font
  pub font_high : s.font + 2048 ≤ 2 ^ 64

-- A character with its colour, or nothing.
abbrev pub Cell : Type 0
Cell = Option (ℕ × ℕ)

-- The place of the next character, and the characters by row and column.
pub record Sheet : Type 0 where
  pub at : ℕ
  pub cells : ℕ → ℕ → Cell

-- The character at its place, and the place behind it.
abbrev pub type_at : Screen → ℕ → Sheet → ℕ → Sheet
type_at s color sh ch =
    let line = line_of s in
    if ch == b'\r'
    then record sh { at = sh.at - sh.at % line }
    else if ch == b'\n'
    then record sh { at = sh.at + (line - sh.at % line) }
    else record {
      at = sh.at + 1;
      cells =
          λ r c. if r == sh.at / line && c == sh.at % line then some (ch, color) else sh.cells r c;
    }

-- All rows move up by one.
abbrev pub feed : Screen → Sheet → Sheet
feed s sh = record {
  at = sh.at - line_of s;
  cells = λ r c. if suc r == rows_of s then none else sh.cells (suc r) c;
}

-- What is written to the grid, whatever the pixels are.
unfoldable pub type_char : Screen → ℕ → Sheet → ℕ → Sheet
type_char s color sh ch =
    let sh' = type_at s color sh ch in
    if ch == 0 then sh else if leb (rows_of s) (sh'.at / line_of s) then feed s sh' else sh'

-- A line of a character: up to 0x7F from the font, and from 0x80 on from the bytes in front of it,
-- 0xFF being the last 16.
abbrev pub glyph : Screen → ℕ → ℕ → ℕ
glyph s ch i =
    let c = ch % 256 in
    if ltb c 0x80 then s.byte (s.font + 16 * c + i) else s.byte (s.font - 16 * (256 - c) + i)

-- The colour of a pixel of a cell.
abbrev pub look : Screen → Cell → ℕ → ℕ → ℕ
look s none i j = 0
look s (some (ch, color)) i j = color_map color (nth_bit (7 - j) (glyph s ch i))

-- The buffer shows the cells.
abbrev pub Paints : Screen → Buffer → (ℕ → ℕ → Cell) → Type 0
Paints s b cells =
    (r c i j : ℕ)
    → r < rows_of s
    → c < line_of s
    → i < 16
    → j < 8
    → b (pixel s (r * 16 + i) (c * 8 + j)) ≡ look s (cells r c) i j

-- Both buffers show the sheet, and the next character has a place on it.
pub record Shows (s : Screen) (t : Text) (sh : Sheet) : Type 0 where
  pub place : t.poss ≡ sh.at
  pub on_screen : sh.at < rows_of s * line_of s
  pub frame : Paints s t.frame sh.cells
  pub flush : Paints s t.flush sh.cells

-- The same before the screen is scrolled.
record Placed (s : Screen) (t : Text) (sh : Sheet) : Type 0 where
  place : t.poss ≡ sh.at
  at_most : sh.at ≤ rows_of s * line_of s
  frame : Paints s t.frame sh.cells
  flush : Paints s t.flush sh.cells

column_bound : (s : Screen) (c j : ℕ) → IsScreen s → c < line_of s → j < 8 → c * 8 + j < s.ppl
column_bound s c j i l h = omega (arith, i.wide)

char_bound : (s : Screen) (x : ℕ) → IsScreen s → x < line_of s → x * 8 + 8 ≤ s.ppl
char_bound s x i l = omega (arith, i.wide)

font_line-glyph : (s : Screen) (ch i : ℕ) → IsScreen s → i < 16 → font_line s ch i ≡ glyph s ch i
unfolding font_line
font_line-glyph s ch i is li = elim (Bool-cases (ltb (ch % 2 ^ 8) 128)) [
  | inl q ↦
      let e : (s.font + ch % 2 ^ 8 * 16 + i) % 2 ^ 64 ≡ s.font + 16 * (ch % 256) + i =
        ground (arith, is.font_high) in
      rw (q, font_line) (ap s.byte e)
  | inr q ↦
      let e : (s.font + (ch % 2 ^ 8 * 16 + 2 ^ 64 - 4096) + i) % 2 ^ 64
          ≡ s.font - 16 * (256 - ch % 256) + i =
        ground (arith, is.font_low, is.font_high) in
      rw (q, font_line) (ap s.byte e)
]

draw-Paints :
    (s : Screen) (ch color x y : ℕ) (b : Buffer) (cells : ℕ → ℕ → Cell)
    → IsScreen s
    → x < line_of s
    → Paints s b cells
    → Paints s
        (draw_char s ch color x y b)
        (λ r c. if r == y && c == x then some (ch, color) else cells r c)
draw-Paints s ch color x y b cells is lx p = λ r c i j lr lc li lj.
    draw_char_lem s ch color x y b r c i j (char_bound s x is lx) (column_bound s c j is lc lj) li
      lj
    ∙ elim (Bool-cases (r == y && c == x)) [
      | inl q ↦
          rw q (ap (λ (x : ℕ). color_map color (nth_bit (7 - j) x)) (font_line-glyph s ch i is li))
      | inr q ↦ rw q (p r c i j lr lc li lj)
    ]

-- The places of a screen are few.
few_places : (s : Screen) → IsScreen s → rows_of s * line_of s + line_of s < 2 ^ 32
few_places s is =
    let a : rows_of s ≤ 4095 = omega (arith, is.height) in
    let b : line_of s ≤ 8191 = omega (arith, is.width) in
    let c : rows_of s * line_of s ≤ 4095 * line_of s = grind arith in omega arith

-- The sheet with the place of the text.
abbrev sheet_of : Text → (ℕ → ℕ → Cell) → Sheet
sheet_of t cells = record { at = t.poss; cells = cells }

place-Placed :
    (s : Screen) (t : Text) (cells : ℕ → ℕ → Cell) (ch : ℕ)
    → IsScreen s
    → t.poss < rows_of s * line_of s
    → Paints s t.frame cells
    → Paints s t.flush cells
    → Placed s (place_char s t ch) (type_at s t.colr (sheet_of t cells) ch)
unfolding place_char
place-Placed s t cells ch is l pf pl =
    let line = line_of s in
    let x = t.poss % line in
    let y = t.poss / line in
    let lx : x < line = mod-lt t.poss is.some_line in
    let ly : y < rows_of s = (div-lt_iff_lt-mul is.some_line).1 l in
    let dm : y * line + x ≡ t.poss = div-add-mod' t.poss line in
    let full : (y + 1) * line ≤ rows_of s * line = mul-le-mul_right line (omega arith) in
    let few = few_places s is in
    let next : y * line + line ≡ (y + 1) * line = grind arith in
    elim (Bool-cases (ch == b'\r')) [
      | inl q ↦ rw q (record { place = refl; at_most = omega arith; frame = pf; flush = pl })
      | inr q ↦ elim (Bool-cases (ch == b'\n')) [
        | inl n ↦
            rw (q, n)
              (record {
                place = let e : add32 t.poss (line - x) ≡ t.poss + (line - x) = omega arith in e;
                at_most = omega arith;
                frame = pf;
                flush = pl;
              })
        | inr n ↦
            rw (q, n)
              (record {
                place = let e : add32 t.poss 1 ≡ t.poss + 1 = omega arith in e;
                at_most = omega arith;
                frame = draw-Paints s ch t.colr x y t.frame cells is lx pf;
                flush = draw-Paints s ch t.colr x y t.flush cells is lx pl;
              })
      ]
    ]

-- The pixels of the rows above the last.
line_pixel :
    (p r i c rows : ℕ) → c < p → i < 16 → suc r < rows → (r * 16 + i) * p + c < (rows - 1) * 16 * p
line_pixel p r i c rows h l lr = row_below p (r * 16 + i) c ((rows - 1) * 16) h (omega arith)

last_pixel :
    (p i c n : ℕ) → c < p → i < 16 → (n * p ≤ (n + i) * p + c) × ((n + i) * p + c < n * p + p * 16)
last_pixel p i c n h l =
    let a : i * p + c < 16 * p = row_below p i c 16 h l in (grind arith, grind (arith, a))

next_line : (p r i c : ℕ) → (r * 16 + i) * p + c + p * 16 ≡ (suc r * 16 + i) * p + c
next_line p r i c = grind arith

copied : (s : Screen) → IsScreen s → (rows_of s - 1) * 16 * s.ppl ≤ 4 * ((s.vres - 16) * s.ppl / 4)
copied s is =
    let a : (rows_of s - 1) * 16 * s.ppl ≤ (s.vres - 16) * s.ppl =
      mul-le-mul_right s.ppl (omega (arith, is.some_rows)) in
    let b : (rows_of s - 1) * 16 * s.ppl ≡ 4 * ((rows_of s - 1) * 4 * s.ppl) = grind arith in
    omega arith

in_span : (a k b : ℕ) → a ≤ k → k < b → (leb a k && ltb k b) ≡ true
in_span a k b l h = ground arith

-- A buffer that is moved up by a line of characters and cleared below.
moved-Paints :
    (s : Screen) (b flush : Buffer) (cells : ℕ → ℕ → Cell) (after : Buffer)
    → IsScreen s
    → Paints s flush cells
    → ((k : ℕ) → after k ≡ moved 0 (4 * ((s.vres - 16) * s.ppl / 4)) (s.ppl * 16) flush b k)
    → Paints s
        (blank_from ((rows_of s - 1) * 16 * s.ppl) (s.ppl * 16) after)
        (λ r c. if suc r == rows_of s then none else cells (suc r) c)
moved-Paints s b flush cells after is p e = λ r c i j lr lc li lj.
    let col = column_bound s c j is lc lj in
    let k = pixel s (r * 16 + i) (c * 8 + j) in
    let n = (rows_of s - 1) * 16 * s.ppl in
    elim (Bool-cases (suc r == rows_of s)) [
      | inl q ↦
          let z : r * 16 ≡ (rows_of s - 1) * 16 = ground arith in
          let (lo, hi) = last_pixel s.ppl i (c * 8 + j) ((rows_of s - 1) * 16) col li in
          let lo' : n ≤ k = subst (λ (x : ℕ). n ≤ (x + i) * s.ppl + (c * 8 + j)) (sym z) lo in
          let hi' : k < n + s.ppl * 16 =
            subst (λ (x : ℕ). (x + i) * s.ppl + (c * 8 + j) < n + s.ppl * 16) (sym z) hi in
          let t = in_span n k (n + s.ppl * 16) lo' hi' in rw (q, t) refl
      | inr q ↦
          let lk : k < n = line_pixel s.ppl r i (c * 8 + j) (rows_of s) col li (ground arith) in
          let t : (leb n k && ltb k (n + s.ppl * 16)) ≡ false = ground arith in
          let cp = copied s is in
          let m = in_span 0 k (4 * ((s.vres - 16) * s.ppl / 4)) (omega arith) (omega arith) in
          rw (q, t)
            (e k
              ∙ rw m (
                  ap flush (next_line s.ppl r i (c * 8 + j))
                  ∙ p (suc r) c i j (ground arith) lc li lj))
    ]

scroll-Shows :
    (s : Screen) (t : Text) (sh : Sheet)
    → IsScreen s
    → sh.at ≡ rows_of s * line_of s
    → Placed s t sh
    → Shows s (scroll s t) (feed s sh)
unfolding scroll
scroll-Shows s t sh is full p =
    let turns = (s.vres - 16) * s.ppl / 4 in
    let wide : 4 ≤ s.ppl * 16 = omega (arith, is.wide, is.some_line) in
    let m = λ (k : ℕ). scroll_text_line_lem turns (s.ppl * 16) t.frame t.flush k wide in
    let few = few_places s is in
    let one : line_of s ≤ rows_of s * line_of s =
      omega (arith, mul-le-mul_right (line_of s) is.some_rows) in
    record {
      place =
          ap (λ (x : ℕ). sub32 x (line_of s)) (p.place ∙ full)
          ∙ (let e : sub32 (rows_of s * line_of s) (line_of s) ≡ rows_of s * line_of s - line_of s =
                omega arith in
              e)
          ∙ sym (ap (λ (x : ℕ). x - line_of s) full);
      on_screen = omega (arith, is.some_line);
      frame =
          moved-Paints s t.frame t.flush sh.cells
            (scroll_text_line turns (s.ppl * 16) 0 t.frame t.flush).0 is p.flush (λ k. (m k).0);
      flush =
          moved-Paints s t.flush t.flush sh.cells
            (scroll_text_line turns (s.ppl * 16) 0 t.frame t.flush).1 is p.flush (λ k. (m k).1);
    }

-- The grid behind a character shows on the screen that the code leaves.
finish-Shows :
    (s : Screen) (t : Text) (sh : Sheet)
    → IsScreen s
    → Placed s t sh
    → Shows s
        (if leb (rows_of s) (t.poss / line_of s) then scroll s t else t)
        (if leb (rows_of s) (sh.at / line_of s) then feed s sh else sh)
finish-Shows s t sh is p =
    let e : leb (rows_of s) (t.poss / line_of s) ≡ leb (rows_of s) (sh.at / line_of s) =
      ap (λ (x : ℕ). leb (rows_of s) (x / line_of s)) p.place in
    rw e (elim (Bool-cases (leb (rows_of s) (sh.at / line_of s))) [
      | inl q ↦
          let no : ¬ (sh.at < rows_of s * line_of s) =
            λ l. absurd (omega (arith, (div-lt_iff_lt-mul is.some_line).1 l, leb→le _ _ q)) in
          rw q (scroll-Shows s t sh is (omega (arith, p.at_most)) p)
      | inr q ↦
          let l : sh.at < rows_of s * line_of s =
            (div-lt_iff_lt-mul is.some_line).0 (ground arith) in
          rw q (record { place = p.place; on_screen = l; frame = p.frame; flush = p.flush })
    ])

outchar-sheet :
    (s : Screen) (t : Text) (cells : ℕ → ℕ → Cell) (ch : ℕ)
    → IsScreen s
    → Shows s t (sheet_of t cells)
    → Shows s (outchar s t ch) (type_char s t.colr (sheet_of t cells) ch)
unfolding outchar type_char
outchar-sheet s t cells ch is h = elim (Bool-cases (ch == 0)) [
  | inl z ↦ rw z h
  | inr z ↦ rw z (
      finish-Shows s (place_char s t ch) (type_at s t.colr (sheet_of t cells) ch) is
        (place-Placed s t cells ch is h.on_screen h.frame h.flush))
]

-- A screen that shows a grid of characters shows, when a character is written, the grid with the
-- character at its place, or with the place moved by a return or a new line, and moved up by a row,
-- the last row empty, where the text would leave it; both buffers show the same, and the place of the
-- next character is on the grid. The look of a character from 0x80 on is that of the bytes in front
-- of the font.
pub outchar-Shows :
    (s : Screen) (t : Text) (sh : Sheet) (ch : ℕ)
    → IsScreen s
    → Shows s t sh
    → Shows s (outchar s t ch) (type_char s t.colr sh ch)
outchar-Shows s t sh ch is h =
    let e : sheet_of t sh.cells ≡ sh = λ i. record { at = h.place i; cells = sh.cells } in
    subst (λ (x : Sheet). Shows s (outchar s t ch) (type_char s t.colr x ch)) e
      (outchar-sheet s t sh.cells ch is (record {
        place = refl;
        on_screen = subst (λ (x : ℕ). x < rows_of s * line_of s) (sym h.place) h.on_screen;
        frame = h.frame;
        flush = h.flush;
      }))
