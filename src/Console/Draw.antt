-- ===== src/Console/Draw.antt =====
-- The pixels that draw_char of CORE/src/console.c writes.
use supernova_os.Prelude.{
  ℕ, zero, suc, ◌+◌, ◌-◌, ◌*◌, ◌/◌, ◌%◌, ◌≤◌, ◌<◌, ◌≡◌, refl, sym, ap, ◌∙◌, inl, inr, Bool, true,
  false, ◌&&◌, arith, ltb, leb, ◌==◌, if◌then◌else◌, Bool-cases,
}
use supernova_os.Console.{
  Buffer, put_pixel, Screen, color_map, draw_bits, draw_rows, draw_char, font_line,
}

-- Bit m of a number.
pub nth_bit : ℕ → ℕ → ℕ
nth_bit zero bits = bits % 2
nth_bit (suc m) bits = nth_bit m (bits / 2)

nth_bit-suc : (m bits : ℕ) → nth_bit (suc m) bits ≡ nth_bit m (bits / 2)
unfolding nth_bit
nth_bit-suc m bits = refl

draw_bits_step :
    (j base bits color : ℕ) (b : Buffer)
    → (draw_bits (suc j) base bits color b
        ≡ draw_bits j base (bits / 2) color (put_pixel b (base + j) (color_map color (bits % 2))))
unfolding draw_bits
draw_bits_step j base bits color b = refl

-- A line of pixels, the leftmost for the highest of the bits.
draw_bits_lem :
    (j base bits color : ℕ) (b : Buffer) (k : ℕ)
    → (draw_bits j base bits color b k ≡ (
        if leb base k && ltb k (base + j)
        then color_map color (nth_bit (j - 1 - (k - base)) bits)
        else b k))
draw_bits_lem zero base bits color b k =
    unfold draw_bits in
    rw (let e : (leb base k && ltb k (base + 0)) ≡ false = ground arith in e) refl
draw_bits_lem (suc j) base bits color b k =
    ap (λ (f : Buffer). f k) (draw_bits_step j base bits color b)
    ∙ draw_bits_lem j base (bits / 2) color (put_pixel b (base + j) (color_map color (bits % 2))) k
    ∙ elim (Bool-cases (leb base k && ltb k (base + j))) [
      | inl h ↦
          let h' : (leb base k && ltb k (base + suc j)) ≡ true = ground arith in
          let e : suc j - 1 - (k - base) ≡ suc (j - 1 - (k - base)) = ground arith in
          rw (h, h', e) (ap (color_map color) (sym (nth_bit-suc (j - 1 - (k - base)) bits)))
      | inr h ↦ elim (Bool-cases (k == base + j)) [
        | inl q ↦
            let h' : (leb base k && ltb k (base + suc j)) ≡ true = ground arith in
            let e : suc j - 1 - (k - base) ≡ 0 = ground arith in
            rw (h, h', q, e) (ap (color_map color) (unfold nth_bit in refl))
        | inr q ↦
            let h' : (leb base k && ltb k (base + suc j)) ≡ false = ground arith in
            rw (h, h', q) refl
      ]
    ]

-- A pixel by its row and column.
abbrev pub pixel : Screen → ℕ → ℕ → ℕ
pixel s row col = row * s.ppl + col

pub row_below : (p row col row' : ℕ) → col < p → row < row' → row * p + col < row' * p
row_below p row col row' h l = grind arith

-- Pixels of different rows or columns are different.
pub pixel_rows :
    (p row col row' col' : ℕ) → col < p → col' < p → row * p + col ≡ row' * p + col' → row ≡ row'
pixel_rows p row col row' col' h h' e = elim (Bool-cases (ltb row row')) [
  | inl l ↦ absurd (omega (arith, row_below p row col row' h (ground arith)))
  | inr l ↦ elim (Bool-cases (ltb row' row)) [
    | inl g ↦ absurd (omega (arith, row_below p row' col' row h' (ground arith)))
    | inr g ↦ ground arith
  ]
]

pub pixel_cols :
    (p row col row' col' : ℕ) → col < p → col' < p → row * p + col ≡ row' * p + col' → col ≡ col'
pixel_cols p row col row' col' h h' e =
    omega (arith, ap (λ (t : ℕ). t * p) (pixel_rows p row col row' col' h h' e))

draw_rows_step :
    (turns i : ℕ) (s : Screen) (ch color x y : ℕ) (b : Buffer)
    → (draw_rows (suc turns) i s ch color x y b
        ≡ draw_rows turns
            (suc i)
            s
            ch
            color
            x
            y
            (draw_bits 8 ((y * 16 + i) * s.ppl + x * 8) (font_line s ch i) color b))
unfolding draw_rows
draw_rows_step turns i s ch color x y b = refl

-- A column of the character.
abbrev in_char : ℕ → ℕ → Bool
in_char x col = leb (x * 8) col && ltb col (x * 8 + 8)

-- One line of a character: the pixels of its row and columns.
one_row :
    (s : Screen) (row x bits color : ℕ) (b : Buffer) (r col : ℕ)
    → x * 8 + 8 ≤ s.ppl
    → col < s.ppl
    → (draw_bits 8 (row * s.ppl + x * 8) bits color b (pixel s r col) ≡ (
        if r == row && in_char x col
        then color_map color (nth_bit (7 - (col - x * 8)) bits)
        else b (pixel s r col)))
one_row s row x bits color b r col w h =
    draw_bits_lem 8 (row * s.ppl + x * 8) bits color b (pixel s r col)
    ∙ elim (Bool-cases (r == row && in_char x col)) [
      | inl q ↦
          let z : r ≡ row = ground arith in
          let z' : r * s.ppl ≡ row * s.ppl = ap (λ (t : ℕ). t * s.ppl) z in
          let i : (leb (row * s.ppl + x * 8) (pixel s r col)
                && ltb (pixel s r col) (row * s.ppl + x * 8 + 8))
              ≡ true =
            ground arith in
          let d : 8 - 1 - (pixel s r col - (row * s.ppl + x * 8)) ≡ 7 - (col - x * 8) =
            ground arith in
          rw (q, i, d) refl
      | inr q ↦
          let i : (leb (row * s.ppl + x * 8) (pixel s r col)
                && ltb (pixel s r col) (row * s.ppl + x * 8 + 8))
              ≡ false =
            elim (Bool-cases (
              leb (row * s.ppl + x * 8) (pixel s r col)
              && ltb (pixel s r col) (row * s.ppl + x * 8 + 8))) [
                | inr t ↦ t
                | inl t ↦
                    let c : ℕ = pixel s r col - row * s.ppl in
                    let lc : c < s.ppl = ground arith in
                    let e : r * s.ppl + col ≡ row * s.ppl + c = ground arith in
                    let er = pixel_rows s.ppl r col row c h lc e in
                    let ec = pixel_cols s.ppl r col row c h lc e in absurd (ground (arith, er, ec))
              ] in
          rw (q, i) refl
    ]

draw_rows_lem :
    (turns i : ℕ) (s : Screen) (ch color x y : ℕ) (b : Buffer) (r col : ℕ)
    → x * 8 + 8 ≤ s.ppl
    → col < s.ppl
    → (draw_rows turns i s ch color x y b (pixel s r col) ≡ (
        if (leb (y * 16 + i) r && ltb r (y * 16 + i + turns)) && in_char x col
        then color_map color (nth_bit (7 - (col - x * 8)) (font_line s ch (r - y * 16)))
        else b (pixel s r col)))
draw_rows_lem zero i s ch color x y b r col w h =
    let e : ((leb (y * 16 + i) r && ltb r (y * 16 + i + 0)) && in_char x col) ≡ false =
      ground arith in
    unfold draw_rows in rw e refl
draw_rows_lem (suc turns) i s ch color x y b r col w h =
    ap (λ (f : Buffer). f (pixel s r col)) (draw_rows_step turns i s ch color x y b)
    ∙ draw_rows_lem turns (suc i) s ch color x y
        (draw_bits 8 ((y * 16 + i) * s.ppl + x * 8) (font_line s ch i) color b) r col w h
    ∙ elim (Bool-cases
        ((leb (y * 16 + suc i) r && ltb r (y * 16 + suc i + turns)) && in_char x col)) [
          | inl a ↦
              let b' : ((leb (y * 16 + i) r && ltb r (y * 16 + i + suc turns)) && in_char x col)
                  ≡ true =
                ground arith in
              rw (a, b') refl
          | inr a ↦
              rw (a, one_row s (y * 16 + i) x (font_line s ch i) color b r col w h)
                (elim (Bool-cases (r == y * 16 + i && in_char x col)) [
                  | inl q ↦
                      let b' : ((leb (y * 16 + i) r && ltb r (y * 16 + i + suc turns))
                            && in_char x col)
                          ≡ true =
                        ground arith in
                      let e : r - y * 16 ≡ i = ground arith in rw (q, b', e) refl
                  | inr q ↦
                      let b' : ((leb (y * 16 + i) r && ltb r (y * 16 + i + suc turns))
                            && in_char x col)
                          ≡ false =
                        ground arith in
                      rw (q, b') refl
                ])
        ]

-- A character covers the 16 rows and 8 columns of its place, and nothing else.
pub draw_char_lem :
    (s : Screen) (ch color x y : ℕ) (b : Buffer) (row c i j : ℕ)
    → x * 8 + 8 ≤ s.ppl
    → c * 8 + j < s.ppl
    → i < 16
    → j < 8
    → (draw_char s ch color x y b (pixel s (row * 16 + i) (c * 8 + j)) ≡ (
        if row == y && c == x
        then color_map color (nth_bit (7 - j) (font_line s ch i))
        else b (pixel s (row * 16 + i) (c * 8 + j))))
unfolding draw_char
draw_char_lem s ch color x y b row c i j w h li lj =
    draw_rows_lem 16 0 s ch color x y b (row * 16 + i) (c * 8 + j) w h
    ∙ elim (Bool-cases (row == y && c == x)) [
      | inl q ↦
          let t : ((leb (y * 16 + 0) (row * 16 + i) && ltb (row * 16 + i) (y * 16 + 0 + 16))
                && in_char x (c * 8 + j))
              ≡ true =
            ground arith in
          let e : c * 8 + j - x * 8 ≡ j = ground arith in
          let e' : row * 16 + i - y * 16 ≡ i = ground arith in rw (q, t, e, e') refl
      | inr q ↦
          let t : ((leb (y * 16 + 0) (row * 16 + i) && ltb (row * 16 + i) (y * 16 + 0 + 16))
                && in_char x (c * 8 + j))
              ≡ false =
            ground arith in
          rw (q, t) refl
    ]
