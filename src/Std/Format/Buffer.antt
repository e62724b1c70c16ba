-- ===== src/Std/Format/Buffer.antt =====
-- What `ctx_write` and `vsnprintf` of CORE/src/std/sprintf.c leave in the buffer.
use supernova_os.Prelude.{
  ℕ, zero, suc, ◌+◌, ◌-◌, ◌%◌, ◌^◌, ◌≤◌, ◌<◌, ◌≡◌, refl, ap, ◌∙◌, ◌≢◌, inl, inr, false, ◌&&◌,
  Option, none, some, List, [], ◌∷◌, ◌++◌, arith, ltb, if◌then◌else◌, ltb→lt, ltb→le, Bool-cases,
  length, get_elem?, set, length-append, length-set, get_elem?-set_self, get_elem?-set_ne,
  get_elem?-append_left,
}
use supernova_os.Prelude.Words.{add64}
use supernova_os.Std.Format.Context.{
  FormatContext, store, ctx_putc, ctx_write, pos-ctx_write, pos-ctx_putc,
}
use supernova_os.Std.Format.Float.{Floats}
use supernova_os.Std.Format.Core.{Stores, done, core_vsnprintf, vsnprintf, buffer_context, returned}
use supernova_os.Std.Format.Text.{recorder, attach_outcome, calls-recorder, core_vsnprintf-attach}

-- The cell `i` of a buffer, `none` out of range or for a null pointer.
abbrev pub cell : Option (List ℕ) → ℕ → Option ℕ
cell none i = none
cell (some b) i = get_elem? b i

-- A cell after one write at `p`.
cell-store_self : (b : List ℕ) (p x : ℕ) → p < length b → cell (store (some b) p x) p ≡ some x
cell-store_self b p x h = get_elem?-set_self b p x h

cell-store_ne : (b : Option (List ℕ)) (p x i : ℕ) → p ≢ i → cell (store b p x) i ≡ cell b i
cell-store_ne none p x i h = refl
cell-store_ne (some b) p x i h = get_elem?-set_ne b p i x h

-- No cell from `cap - 1` on is touched, whatever is written.
pub cell-ctx_write_out :
    (c : FormatContext) (t : List ℕ) (i : ℕ)
    → c.flag ≡ false
    → c.cap ≤ i + 1
    → i + 1 < 2 ^ 64
    → cell (ctx_write c t).buf i ≡ cell c.buf i
unfolding ctx_write ctx_putc
cell-ctx_write_out c [] i f h k = refl
cell-ctx_write_out c (x ∷ t) i f h k =
    ground (arith, cell-ctx_write_out (ctx_putc c x) t i, cell-store_ne c.buf c.pos x i)

-- No cell below the position is touched, if the position does not wrap.
cell-ctx_write_before :
    (c : FormatContext) (t : List ℕ) (i : ℕ)
    → c.flag ≡ false
    → i < c.pos
    → c.pos + length t < 2 ^ 64
    → cell (ctx_write c t).buf i ≡ cell c.buf i
unfolding ctx_write ctx_putc
cell-ctx_write_before c [] i f h k = refl
cell-ctx_write_before c (x ∷ t) i f h k =
    ground (arith, cell-ctx_write_before (ctx_putc c x) t i, cell-store_ne c.buf c.pos x i)

cell-ctx_putc :
    (c : FormatContext) (x : ℕ) (b : List ℕ)
    → c.flag ≡ false
    → c.buf ≡ some b
    → c.pos + 1 < c.cap
    → c.pos + 1 < 2 ^ 64
    → c.pos < length b
    → cell (ctx_putc c x).buf c.pos ≡ some x
unfolding ctx_putc
cell-ctx_putc c x b f e h k l = ground (arith, cell-store_self b c.pos x)

-- What one write leaves of the kind, the capacity and the size of a buffer.
record Kept (c d : FormatContext) (b : List ℕ) : Type 0 where
  flag : d.flag ≡ false
  cap : d.cap ≡ c.cap
  size : (b' : List ℕ) × (d.buf ≡ some b') × (length b' ≡ length b)

ctx_putc-Kept :
    (c : FormatContext) (x : ℕ) (b : List ℕ)
    → c.flag ≡ false
    → c.buf ≡ some b
    → Kept c (ctx_putc c x) b
unfolding ctx_putc
ctx_putc-Kept c x b f e = record {
  flag = ground arith;
  cap = ground arith;
  size = (
    if ltb (add64 c.pos 1) c.cap then set b c.pos x else b,
    ground arith,
    ground (arith, length-set b c.pos x),
  );
}

ctx_write-cons :
    (c : FormatContext) (x : ℕ) (t : List ℕ) → ctx_write c (x ∷ t) ≡ ctx_write (ctx_putc c x) t
unfolding ctx_write
ctx_write-cons c x t = refl

-- A cell that the text reaches and that is below `cap - 1` holds its character.
cell-ctx_write_in :
    (c : FormatContext) (t b : List ℕ) (k : ℕ)
    → c.flag ≡ false
    → c.buf ≡ some b
    → k < length t
    → c.pos + k + 1 < c.cap
    → c.pos + length t < 2 ^ 64
    → c.pos + k < length b
    → cell (ctx_write c t).buf (c.pos + k) ≡ get_elem? t k
cell-ctx_write_in c [] b k f e h1 h2 h3 h4 = absurd (omega arith)
cell-ctx_write_in c (x ∷ t) b zero f e h1 h2 h3 h4 =
    let kept = ctx_putc-Kept c x b f e in
    let at : c.pos + 0 ≡ c.pos = omega arith in
    unfold ctx_write in
    rw at (
      cell-ctx_write_before (ctx_putc c x) t c.pos kept.flag (omega (arith, pos-ctx_putc c x))
        (omega (arith, pos-ctx_putc c x))
      ∙ cell-ctx_putc c x b f e (omega arith) (omega arith) (omega arith))
cell-ctx_write_in c (x ∷ t) b (suc k) f e h1 h2 h3 h4 =
    let kept = ctx_putc-Kept c x b f e in
    let at : c.pos + suc k ≡ (ctx_putc c x).pos + k = omega (arith, pos-ctx_putc c x) in
    let (b', eb, lb) = kept.size in
    rw (ctx_write-cons c x t, at)
      (cell-ctx_write_in (ctx_putc c x) t b' k kept.flag eb (omega arith)
        (omega (arith, pos-ctx_putc c x, kept.cap)) (omega (arith, pos-ctx_putc c x))
        (omega (arith, pos-ctx_putc c x)))

-- The buffer `now` is `b` with the text `t` over its first `cap - 1` cells.
abbrev pub Holds : List ℕ → ℕ → List ℕ → Option (List ℕ) → Type 0
Holds b cap t now =
    (i : ℕ)
    → i < length b
    → cell now i ≡ (if ltb i (length t) && ltb (i + 1) cap then get_elem? t i else get_elem? b i)

cell-ctx_write_past :
    (c : FormatContext) (t : List ℕ) (i : ℕ)
    → c.flag ≡ false
    → c.pos + length t ≤ i
    → c.pos + length t < 2 ^ 64
    → cell (ctx_write c t).buf i ≡ cell c.buf i
unfolding ctx_write ctx_putc
cell-ctx_write_past c [] i f h k = refl
cell-ctx_write_past c (x ∷ t) i f h k =
    ground (arith, cell-ctx_write_past (ctx_putc c x) t i, cell-store_ne c.buf c.pos x i)

ctx_write-Holds :
    (b : List ℕ) (cap : ℕ) (t : List ℕ)
    → length b < 2 ^ 64
    → length t < 2 ^ 64
    → Holds b cap t (ctx_write (buffer_context (some b) cap) t).buf
ctx_write-Holds b cap t hb ht i hi = elim (Bool-cases (ltb i (length t))) [
  | inl e ↦ elim (Bool-cases (ltb (i + 1) cap)) [
    | inl k ↦
        rw (e, k)
          (at (
            cell-ctx_write_in start t b i refl refl (ltb→lt i (length t) e)
              (omega (arith, ltb→lt (i + 1) cap k)) (omega arith) (omega arith)))
    | inr k ↦ rw (e, k) (cell-ctx_write_out start t i refl (ltb→le (i + 1) cap k) (omega arith))
  ]
  | inr e ↦
      rw e (cell-ctx_write_past start t i refl (omega (arith, ltb→le i (length t) e)) (omega arith))
]
  where
    start : FormatContext
    start = buffer_context (some b) cap

    at :
        cell (ctx_write start t).buf (0 + i) ≡ get_elem? t i
        → cell (ctx_write start t).buf i ≡ get_elem? t i
    at h = let e : 0 + i ≡ i = omega arith in rw e at h

module _ (D : Floats) (text : ℕ → List ℕ) where
  vsnprintf-attach :
      (buf : Option (List ℕ)) (cap : ℕ) (fmt args : List ℕ)
      → vsnprintf D text buf cap fmt args
        ≡ attach_outcome (buffer_context buf cap) (core_vsnprintf D text (recorder 0) fmt args)
  unfolding vsnprintf
  vsnprintf-attach buf cap fmt args = core_vsnprintf-attach D text (buffer_context buf cap) fmt args

  -- If a run prints `u` and its NUL, then with any buffer and capacity `vsnprintf` returns the
  -- length of `u` and one more, makes the same stores, and leaves the text and the NUL in the first
  -- `cap - 1` cells of the buffer, as far as they go, and every other cell as it was.
  pub vsnprintf-Holds :
      (b : List ℕ) (cap : ℕ) (fmt args u : List ℕ) (st : Stores)
      → core_vsnprintf D text (recorder 0) fmt args ≡ done (ctx_write (recorder 0) (u ++ 0 ∷ [])) st
      → length b < 2 ^ 64
      → length u + 1 < 2 ^ 64
      → (c : FormatContext) × (vsnprintf D text (some b) cap fmt args ≡ done c st)
        × Holds b cap (u ++ 0 ∷ []) c.buf
        × (returned c ≡ (length u + 1) % 2 ^ 32)
  vsnprintf-Holds b cap fmt args u st h hb hu =
      let t : List ℕ = u ++ 0 ∷ [] in
      let start : FormatContext = buffer_context (some b) cap in
      let size : length (u ++ 0 ∷ []) ≡ length u + 1 = omega (arith, length-append u (0 ∷ [])) in
      (
        ctx_write start t,
        rw (vsnprintf-attach (some b) cap fmt args, h)
            (unfold attach_outcome in rw (calls-recorder 0 (u ++ 0 ∷ [])) refl),
        ctx_write-Holds b cap t hb (omega arith),
        ap (λ (n : ℕ). n % 2 ^ 32) (omega (arith, pos-ctx_write start t (omega arith))),
      )

  -- A text that does not fit with its NUL is left without one: with `cap` cells at most as long as
  -- the text and one more, the cell `cap - 1` keeps its old value and the cells below hold the
  -- text.
  pub vsnprintf_unterminated :
      (b : List ℕ) (cap : ℕ) (fmt args u : List ℕ) (st : Stores)
      → core_vsnprintf D text (recorder 0) fmt args ≡ done (ctx_write (recorder 0) (u ++ 0 ∷ [])) st
      → length b < 2 ^ 64
      → length u + 1 < 2 ^ 64
      → 0 < cap
      → cap ≤ length u + 1
      → cap ≤ length b
      → (c : FormatContext) × (vsnprintf D text (some b) cap fmt args ≡ done c st)
        × (cell c.buf (cap - 1) ≡ get_elem? b (cap - 1))
        × ((i : ℕ) → i + 1 < cap → cell c.buf i ≡ get_elem? u i)
  vsnprintf_unterminated b cap fmt args u st h hb hu pos fits size =
      let (c, e, holds, value) = vsnprintf-Holds b cap fmt args u st h hb hu in
      (
        c,
        e,
        ground (arith, holds (cap - 1)),
        λ i k.
            ground (arith, holds i, get_elem?-append_left u (0 ∷ []) i, length-append u (0 ∷ [])),
      )
