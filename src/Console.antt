-- ===== src/Console.antt =====
-- CORE/src/console.c: the characters on the screen, and its scrolling.
use supernova_os.Prelude.{
  ℕ, zero, suc, ◌+◌, ◌-◌, ◌*◌, ◌/◌, ◌%◌, ◌^◌, ◌≤◌, ◌<◌, min, max, bit_and, bit_or, bit_xor, ◌≡◌,
  refl, sym, ap, ◌∙◌, ◌≢◌, ◌↔◌, ◌⊎◌, inl, inr, Bool, true, false, not, ◌&&◌, ◌||◌, Option, none,
  some, List, [], ◌∷◌, ◌++◌, map, append_assoc, append-nil, arith, ltb, leb, ◌==◌, if◌then◌else◌,
  nonzero, ltb→lt, ltb→le, lt→ltb, le→ltb, leb→le, ==_iff, Bool-cases, Option-cases, length,
  get_elem?, get_or, set, take, drop, replicate, All, length-append, length-replicate, length-set,
  length-take, get_elem?-set_self, get_elem?-set_ne, get_elem?_out, get_elem?-append_left,
  get_elem?-append_right,
}
use supernova_os.Prelude.Words.{add32, sub32}
pub mod Draw
pub mod Scroll
pub mod Grid
pub mod Print
mod Tests

-- A buffer of the screen, by the number of the pixel.
abbrev pub Buffer : Type 0
Buffer = ℕ → ℕ

abbrev pub put_pixel : Buffer → ℕ → ℕ → Buffer
put_pixel b k v q = if q == k then v else b q

-- What the system table says of the screen: `font` is the address FONT, and `byte` reads memory.
pub record Screen : Type 0 where
  pub hres : ℕ
  pub vres : ℕ
  pub ppl : ℕ
  pub font : ℕ
  pub byte : ℕ → ℕ

-- `SIMPLE_TEXT`, `FRAME_BUFFER` and `FLUSH_BUFFER`.
pub record Text : Type 0 where
  pub poss : ℕ
  pub colr : ℕ
  pub frame : Buffer
  pub flush : Buffer

-- `COLOR_PALETTE`
abbrev pub color_palette : List ℕ
color_palette =
    0 ∷ 0x0000aa ∷ 0x00aa00 ∷ 0x00aaaa ∷ 0xaa0000 ∷ 0xaa00aa ∷ 0xffaa00 ∷ 0xaaaaaa ∷ 0x555555
    ∷ 0x5555ff ∷ 0x55ff55 ∷ 0x55ffff ∷ 0xff5555 ∷ 0xff55ff ∷ 0xffff55 ∷ 0xffffff ∷ []

-- `colorMap`: the colour of a bit of the font.
unfoldable pub color_map : ℕ → ℕ → ℕ
color_map color bit =
    if bit == 0
    then get_or color_palette (color / 16 % 16) 0
    else get_or color_palette (color % 16) 0

-- `for (int j = 8; j--;)`, from the lowest bit of the line on, which is the rightmost.
unfoldable pub draw_bits : ℕ → ℕ → ℕ → ℕ → Buffer → Buffer
draw_bits zero base bits color b = b
draw_bits (suc j) base bits color b =
    draw_bits j base (bits / 2) color (put_pixel b (base + j) (color_map color (bits % 2)))

-- `fontMap[ch][i]`: `ch` is a char, which is signed, so that from 0x80 on the 16 bytes are in front
-- of the font.
unfoldable pub font_line : Screen → ℕ → ℕ → ℕ
font_line s ch i =
    let c = ch % 2 ^ 8 in
    s.byte ((s.font + (if ltb c 128 then c * 16 else c * 16 + 2 ^ 64 - 4096) + i) % 2 ^ 64)

-- `for (int i = 0; i < 16; i++)`, on the count of turns that are left.
unfoldable pub draw_rows : ℕ → ℕ → Screen → ℕ → ℕ → ℕ → ℕ → Buffer → Buffer
draw_rows zero i s ch color x y b = b
draw_rows (suc turns) i s ch color x y b =
    draw_rows turns (suc i) s ch color x y
      (draw_bits 8 ((y * 16 + i) * s.ppl + x * 8) (font_line s ch i) color b)

-- Both buffers get the same pixels.
unfoldable pub draw_char : Screen → ℕ → ℕ → ℕ → ℕ → Buffer → Buffer
draw_char s ch color x y b = draw_rows 16 0 s ch color x y b

-- `scroll_text_line`, on the count of 16 bytes that are left: four pixels from `src` on go to both
-- buffers.
unfoldable pub scroll_text_line : ℕ → ℕ → ℕ → Buffer → Buffer → Buffer × Buffer
scroll_text_line zero src dst frame flush = (frame, flush)
scroll_text_line (suc turns) src dst frame flush =
    let four : Buffer → Buffer = λ b.
      put_pixel
        (put_pixel (put_pixel (put_pixel b dst (flush src)) (dst + 1) (flush (src + 1))) (dst + 2)
          (flush (src + 2)))
        (dst + 3) (flush (src + 3)) in
    scroll_text_line turns (src + 4) (dst + 4) (four frame) (four flush)

-- `__memset128` with zeros: `count` pixels from `at` on.
abbrev pub blank_from : ℕ → ℕ → Buffer → Buffer
blank_from at count b q = if leb at q && ltb q (at + count) then 0 else b q

-- Where the text ends below the last line, all lines move up by one and the last is cleared.
unfoldable pub scroll : Screen → Text → Text
scroll s t =
    let r = scroll_text_line ((s.vres - 16) * s.ppl / 4) (s.ppl * 16) 0 t.frame t.flush in
    let last = (s.vres / 16 - 1) * 16 * s.ppl in
    record t {
      frame = blank_from last (s.ppl * 16) r.0;
      flush = blank_from last (s.ppl * 16) r.1;
      poss = sub32 t.poss (s.hres / 8);
    }

-- The character and the place behind it.
unfoldable pub place_char : Screen → Text → ℕ → Text
place_char s t ch =
    let line = s.hres / 8 in
    let x = t.poss % line in
    let y = t.poss / line in
    if ch == b'\r'
    then record t { poss = t.poss - x }
    else if ch == b'\n'
    then record t { poss = add32 t.poss (line - x) }
    else record t {
      frame = draw_char s ch t.colr x y t.frame;
      flush = draw_char s ch t.colr x y t.flush;
      poss = add32 t.poss 1;
    }

-- `outchar`, inside of the lock.
unfoldable pub outchar : Screen → Text → ℕ → Text
outchar s t ch =
    let t' = place_char s t ch in
    if ch == 0 then t else if leb (s.vres / 16) (t'.poss / (s.hres / 8)) then scroll s t' else t'
