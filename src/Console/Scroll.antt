-- ===== src/Console/Scroll.antt =====
-- The scrolling of CORE/src/console.c.
use supernova_os.Prelude.{
  ℕ, zero, suc, ◌+◌, ◌*◌, ◌≤◌, ◌≡◌, refl, ap, ◌∙◌, inl, inr, true, false, ◌&&◌, arith, ltb, leb,
  ◌==◌, if◌then◌else◌, Bool-cases,
}
use supernova_os.Console.{Buffer, put_pixel, scroll_text_line}

abbrev pub four : ℕ → ℕ → Buffer → Buffer → Buffer
four src dst flush b =
    put_pixel
      (put_pixel (put_pixel (put_pixel b dst (flush src)) (dst + 1) (flush (src + 1))) (dst + 2)
        (flush (src + 2)))
      (dst + 3) (flush (src + 3))

-- A buffer whose pixels from `dst` to before `end` are those of another at a distance.
abbrev pub moved : ℕ → ℕ → ℕ → Buffer → Buffer → Buffer
moved dst end d flush b k = if leb dst k && ltb k end then flush (k + d) else b k

scroll_step :
    (turns src dst : ℕ) (frame flush : Buffer)
    → (scroll_text_line (suc turns) src dst frame flush
        ≡ scroll_text_line turns
            (src + 4)
            (dst + 4)
            (four src dst flush frame)
            (four src dst flush flush))
unfolding scroll_text_line
scroll_step turns src dst frame flush = refl

four-moved :
    (d dst end : ℕ) (flush b : Buffer) (k : ℕ)
    → 4 ≤ d
    → dst + 4 ≤ end
    → (moved (dst + 4) end d (four (dst + d) dst flush flush) (four (dst + d) dst flush b) k
        ≡ moved dst end d flush b k)
four-moved d dst end flush b k h l = elim (Bool-cases (leb (dst + 4) k && ltb k end)) [
  | inl q ↦ let t : (leb dst k && ltb k end) ≡ true = ground arith in rw (q, t) (ground arith)
  | inr q ↦ elim (Bool-cases (leb dst k && ltb k end)) [
    | inl t ↦
        rw (q, t)
          (elim (Bool-cases (k == dst + 3)) [
            | inl z ↦ rw z (ap flush (ground arith))
            | inr z ↦ rw z (elim (Bool-cases (k == dst + 2)) [
              | inl y ↦ rw y (ap flush (ground arith))
              | inr y ↦ rw y (elim (Bool-cases (k == dst + 1)) [
                | inl x ↦ rw x (ap flush (ground arith))
                | inr x ↦
                    let w : (k == dst) ≡ true = ground arith in rw (x, w) (ap flush (ground arith))
              ])
            ])
          ])
    | inr t ↦
        let a : (k == dst + 3) ≡ false = ground arith in
        let b' : (k == dst + 2) ≡ false = ground arith in
        let c : (k == dst + 1) ≡ false = ground arith in
        let e : (k == dst) ≡ false = ground arith in rw (q, t, a, b', c, e) refl
  ]
]

-- Both buffers get the pixels that stood at the distance, in the order of the copy.
pub scroll_text_line-moved :
    (turns d src dst : ℕ) (frame flush : Buffer) (k : ℕ)
    → 4 ≤ d
    → src ≡ dst + d
    → ((scroll_text_line turns src dst frame flush).0 k
        ≡ moved dst (dst + 4 * turns) d flush frame k)
      × ((scroll_text_line turns src dst frame flush).1 k
          ≡ moved dst (dst + 4 * turns) d flush flush k)
scroll_text_line-moved zero d src dst frame flush k h e =
    let t : (leb dst k && ltb k (dst + 4 * 0)) ≡ false = ground arith in
    unfold scroll_text_line in (rw t refl, rw t refl)
scroll_text_line-moved (suc turns) d src dst frame flush k h e =
    let (p, q) =
      scroll_text_line-moved turns d (src + 4) (dst + 4) (four src dst flush frame)
        (four src dst flush flush) k h (omega arith) in
    let s = scroll_step turns src dst frame flush in
    let n : dst + 4 + 4 * turns ≡ dst + 4 * suc turns = omega arith in
    (
      ap (λ (r : Buffer × Buffer). r.0 k) s
          ∙ p
          ∙ rw (n, e) (four-moved d dst (dst + 4 * suc turns) flush frame k h (omega arith)),
      ap (λ (r : Buffer × Buffer). r.1 k) s
          ∙ q
          ∙ rw (n, e) (four-moved d dst (dst + 4 * suc turns) flush flush k h (omega arith)),
    )

-- The copy to the start of the buffers.
pub scroll_text_line_lem :
    (turns d : ℕ) (frame flush : Buffer) (k : ℕ)
    → 4 ≤ d
    → ((scroll_text_line turns d 0 frame flush).0 k ≡ moved 0 (4 * turns) d flush frame k)
      × ((scroll_text_line turns d 0 frame flush).1 k ≡ moved 0 (4 * turns) d flush flush k)
scroll_text_line_lem turns d frame flush k h =
    let (p, q) = scroll_text_line-moved turns d d 0 frame flush k h (omega arith) in
    let e : 0 + 4 * turns ≡ 4 * turns = omega arith in
    (
      p ∙ ap (λ (x : ℕ). moved 0 x d flush frame k) e,
      q ∙ ap (λ (x : ℕ). moved 0 x d flush flush k) e,
    )
