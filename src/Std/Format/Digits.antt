-- ===== src/Std/Format/Digits.antt =====
-- `u64_to_str` of CORE/src/std/sprintf.c.
pub mod RoundTrip
use supernova_os.Prelude.{
  ℕ, zero, suc, ◌+◌, ◌-◌, ◌*◌, ◌/◌, ◌%◌, ◌^◌, ◌≤◌, ◌<◌, min, max, bit_and, bit_or, bit_xor, ◌≡◌,
  refl, sym, ap, ◌∙◌, ◌≢◌, ◌↔◌, ◌⊎◌, inl, inr, Bool, true, false, not, ◌&&◌, ◌||◌, Option, none,
  some, List, [], ◌∷◌, ◌++◌, map, append_assoc, append-nil, arith, ltb, leb, ◌==◌, if◌then◌else◌,
  nonzero, ltb→lt, ltb→le, lt→ltb, le→ltb, leb→le, ==_iff, Bool-cases, Option-cases, length,
  get_elem?, get_or, set, take, drop, replicate, All, length-append, length-replicate, length-set,
  length-take, get_elem?-set_self, get_elem?-set_ne, get_elem?_out,
}

-- The size of the scratch buffer that `u64_to_str` fills from its end, and `DIGITS_LO`/`DIGITS_HI`.
abbrev pub itoa_buf : ℕ
itoa_buf = 22

abbrev pub digit_char : Bool → ℕ → ℕ
digit_char upper d =
    if ltb d 10 then b'0' + d else if upper then b'A' + (d - 10) else b'a' + (d - 10)

-- `while (val) { *--p = digits[val % base]; val /= base; }` on fuel; the list starts at `p`.
digits_loop : ℕ → ℕ → Bool → ℕ → List ℕ → List ℕ
digits_loop zero base upper val out = out
digits_loop (suc fuel) base upper val out =
    let rest = digits_loop fuel base upper (val / base) (digit_char upper (val % base) ∷ out) in
    if nonzero val then rest else out

-- The digits from `p` up to the terminating NUL; `out_len` is their number. A uint64 has at most 64
-- digits in a base from 2 on.
unfoldable pub u64_to_str : ℕ → ℕ → Bool → List ℕ
unfolding digits_loop
u64_to_str val base upper = if nonzero val then digits_loop 64 base upper val [] else b'0' ∷ []
