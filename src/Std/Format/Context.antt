-- ===== src/Std/Format/Context.antt =====
-- The write context of CORE/src/std/sprintf.c and its three writers.
use supernova_os.Prelude.{
  ℕ, zero, suc, ◌+◌, ◌%◌, ◌^◌, ◌<◌, ◌≡◌, refl, Bool, Option, none, some, List, [], ◌∷◌, ◌++◌, arith,
  ltb, if◌then◌else◌, length, set, replicate,
}
use supernova_os.Prelude.Words.{add64}

-- `FORMAT_CONTEXT`. With `flag` clear, `buf` is the caller's buffer (`none` for a null pointer);
-- with `flag` set it is a callback, and `calls` lists the characters that it was given.
pub record FormatContext : Type 0 where
  pub flag : Bool
  pub buf : Option (List ℕ)
  pub cap : ℕ
  pub pos : ℕ
  pub calls : List ℕ

-- `buf[pos] = ch`, for a buffer that is not null.
abbrev pub store : Option (List ℕ) → ℕ → ℕ → Option (List ℕ)
store none pos ch = none
store (some b) pos ch = some (set b pos ch)

unfoldable pub ctx_putc : FormatContext → ℕ → FormatContext
ctx_putc c ch =
    if c.flag then record c { calls = c.calls ++ ch ∷ []; pos = add64 c.pos 1 } else record c {
      buf = if ltb (add64 c.pos 1) c.cap then store c.buf c.pos ch else c.buf;
      pos = add64 c.pos 1;
    }

-- `n` is the number of copies left.
unfoldable pub ctx_fill : FormatContext → ℕ → ℕ → FormatContext
unfolding ctx_putc
ctx_fill c ch zero = c
ctx_fill c ch (suc n) = ctx_fill (ctx_putc c ch) ch n

-- The list is `s[0..len)`.
unfoldable pub ctx_write : FormatContext → List ℕ → FormatContext
unfolding ctx_putc
ctx_write c [] = c
ctx_write c (x ∷ xs) = ctx_write (ctx_putc c x) xs

pub ctx_fill-ctx_write :
    (c : FormatContext) (ch n : ℕ) → ctx_fill c ch n ≡ ctx_write c (replicate n ch)
unfolding ctx_fill ctx_write
ctx_fill-ctx_write c ch zero = refl
ctx_fill-ctx_write c ch (suc n) = ctx_fill-ctx_write (ctx_putc c ch) ch n

pub ctx_putc-ctx_write : (c : FormatContext) (ch : ℕ) → ctx_putc c ch ≡ ctx_write c (ch ∷ [])
unfolding ctx_write
ctx_putc-ctx_write c ch = refl

pub ctx_write-append :
    (c : FormatContext) (xs ys : List ℕ) → ctx_write c (xs ++ ys) ≡ ctx_write (ctx_write c xs) ys
unfolding ctx_write
ctx_write-append c [] ys = refl
ctx_write-append c (x ∷ xs) ys = ctx_write-append (ctx_putc c x) xs ys

pub ctx_write-nil : (c : FormatContext) → ctx_write c [] ≡ c
unfolding ctx_write
ctx_write-nil c = refl

pub pos-ctx_write :
    (c : FormatContext) (xs : List ℕ)
    → c.pos < 2 ^ 64
    → (ctx_write c xs).pos ≡ (c.pos + length xs) % 2 ^ 64
unfolding ctx_write ctx_putc
pos-ctx_write c [] h = omega arith
pos-ctx_write c (x ∷ xs) h = ground (arith, pos-ctx_write (ctx_putc c x) xs)

pub pos-ctx_putc : (c : FormatContext) (x : ℕ) → (ctx_putc c x).pos ≡ add64 c.pos 1
unfolding ctx_putc
pos-ctx_putc c x = ground arith
