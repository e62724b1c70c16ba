-- ===== src/Ntfs/Runs.antt =====
-- The runs of clusters that ntfs_convert_lcn of CORE/src/fs/ntfs/ntfs.c reads.
use supernova_os.Prelude.{
  ℕ, zero, suc, ◌+◌, ◌-◌, ◌*◌, ◌/◌, ◌%◌, ◌^◌, ◌≤◌, ◌<◌, ◌≡◌, refl, ap, ◌∙◌, ◌⊎◌, inl, inr, true,
  false, not, ◌||◌, List, [], ◌∷◌, ◌++◌, arith, ltb, ◌==◌, if◌then◌else◌, Bool-cases, length,
}
use mathlib.Core.Path.{subst}
use native.Mathlib.Nat.{mod-lt, pow-le-pow_right}
use native.Mathlib.Numerals.{towards_suc}
use supernova_os.Prelude.Words.{add64}
use supernova_os.Ntfs.{
  Memory, Lcn, lcn, absent, read_number, extend, convert_loop, ntfs_convert_lcn,
}

-- A run of `count` clusters, at a distance of `delta` from the run before, a number of 64 bits in two's
-- complement; how many bytes either number has.
pub record Run : Type 0 where
  pub counts : ℕ
  pub offsets : ℕ
  pub count : ℕ
  pub delta : ℕ

-- The distance has the sign of its highest bit.
abbrev pub IsSigned : ℕ → ℕ → Type 0
IsSigned zero delta = delta ≡ 0
IsSigned (suc n) delta =
    (delta < 2 ^ (8 * n + 7)) ⊎ ((2 ^ 64 - 2 ^ (8 * n + 7) ≤ delta) × (delta < 2 ^ 64))

pub record IsRun (r : Run) : Type 0 where
  pub some_count : 0 < r.counts
  pub count_size : r.counts ≤ 8
  pub offset_size : r.offsets ≤ 7
  pub fits : r.count < 2 ^ (8 * r.counts)
  pub signed : IsSigned r.offsets r.delta

-- A number in bytes, the lowest first.
abbrev pub bytes : ℕ → ℕ → List ℕ
bytes zero x = []
bytes (suc n) x = (x % 2 ^ 8) ∷ bytes n (x / 2 ^ 8)

abbrev pub encode : Run → List ℕ
encode r =
    (r.offsets * 16 + r.counts)
    ∷ (bytes r.counts r.count ++ bytes r.offsets (r.delta % 2 ^ (8 * r.offsets)))

-- The bytes stand in memory.
abbrev pub Holds : Memory → ℕ → List ℕ → Type 0
Holds m off [] = Unit {0}
Holds m off (x ∷ xs) = (m off ≡ x) × Holds m (suc off) xs

-- The runs stand behind one another, up to the end of the attribute or a byte of 0.
abbrev pub Laid : Memory → ℕ → ℕ → List Run → Type 0
Laid m off end [] = (end ≤ off) ⊎ (m off ≡ 0)
Laid m off end (r ∷ rs) =
    IsRun r × (off < end) × Holds m off (encode r) × Laid m (suc off + r.counts + r.offsets) end rs

-- The cluster of a run that holds `vcn`.
pub locate : List Run → ℕ → ℕ → Lcn
locate [] prev vcn = absent
locate (r ∷ rs) prev vcn =
    let p = add64 prev r.delta in
    if ltb vcn r.count then lcn (add64 p vcn) else locate rs p (vcn - r.count)

pow-add : (k : ℕ) → 2 ^ (k + 8) ≡ 2 ^ k * 256
pow-add k = simp towards_suc (omega arith)

pow_suc : (i : ℕ) → 2 ^ (8 * suc i) ≡ 2 ^ (8 * i) * 256
pow_suc i =
    ap (λ (k : ℕ). 2 ^ k) (let e : 8 * suc i ≡ 8 * i + 8 = omega arith in e) ∙ pow-add (8 * i)

-- The lowest byte and the others, both shifted.
split_byte : (x p : ℕ) → x % 2 ^ 8 * p + x / 2 ^ 8 * (p * 256) ≡ x * p
split_byte x p =
    let d : x ≡ x % 256 + x / 256 * 256 = omega arith in omega (arith, ap (λ (t : ℕ). t * p) d)

read_number_step :
    (m : Memory) (n i off acc : ℕ)
    → (read_number m (suc n) i off acc
        ≡ read_number m n (suc i) (suc off) (acc + m off * 2 ^ (8 * i)))
unfolding read_number
read_number_step m n i off acc = refl

read_number-bytes :
    (m : Memory) (n i off acc x : ℕ)
    → Holds m off (bytes n x)
    → x < 2 ^ (8 * n)
    → read_number m n i off acc ≡ acc + x * 2 ^ (8 * i)
read_number-bytes m zero i off acc x h l =
    let z : x ≡ 0 = omega arith in unfold read_number in rw z (omega arith)
read_number-bytes m (suc n) i off acc x (e, h) l =
    let p = pow_suc i in
    let q = pow_suc n in
    read_number_step m n i off acc
    ∙ read_number-bytes m n (suc i) (suc off) (acc + m off * 2 ^ (8 * i)) (x / 2 ^ 8) h
        (omega arith)
    ∙ rw (e, p) (omega (arith, split_byte x (2 ^ (8 * i))))

Holds-append :
    (m : Memory) (xs ys : List ℕ) (off : ℕ)
    → Holds m off (xs ++ ys)
    → Holds m off xs × Holds m (off + length xs) ys
Holds-append m [] ys off h = (tt, rw (let e : off + 0 ≡ off = omega arith in e) h)
Holds-append m (x ∷ xs) ys off (e, h) =
    let (a, b) = Holds-append m xs ys (suc off) h in
    ((e, a), rw (let e : off + suc (length xs) ≡ suc off + length xs = omega arith in e) b)

length-bytes : (n x : ℕ) → length (bytes n x) ≡ n
length-bytes zero x = refl
length-bytes (suc n) x = ap suc (length-bytes n (x / 2 ^ 8))

extend-IsSigned : (n delta : ℕ) → n ≤ 7 → IsSigned n delta → extend n (delta % 2 ^ (8 * n)) ≡ delta
unfolding extend
extend-IsSigned zero delta l h = ground arith
extend-IsSigned (suc zero) delta l h = ground arith
extend-IsSigned (suc (suc zero)) delta l h = ground arith
extend-IsSigned (suc (suc (suc zero))) delta l h = ground arith
extend-IsSigned (suc (suc (suc (suc zero)))) delta l h = ground arith
extend-IsSigned (suc (suc (suc (suc (suc zero))))) delta l h = ground arith
extend-IsSigned (suc (suc (suc (suc (suc (suc zero)))))) delta l h = ground arith
extend-IsSigned (suc (suc (suc (suc (suc (suc (suc zero))))))) delta l h = ground arith
extend-IsSigned (suc (suc (suc (suc (suc (suc (suc (suc n)))))))) delta l h = absurd (omega arith)

convert_step :
    (m : Memory) (f off end prev vcn c o count delta : ℕ)
    → off < end
    → m off ≡ o * 16 + c
    → 0 < c
    → c ≤ 8
    → o ≤ 7
    → read_number m c 0 (suc off) 0 ≡ count
    → extend o (read_number m o 0 (suc off + c) 0) ≡ delta
    → (convert_loop m (suc f) off end prev vcn ≡ (
        if ltb vcn count
        then lcn (add64 (add64 prev delta) vcn)
        else convert_loop m f (suc off + c + o) end (add64 prev delta) (vcn - count)))
unfolding convert_loop
convert_step m f off end prev vcn c o count delta l e pc lc lo ec eo =
    let e1 : m off % 16 ≡ c = omega arith in
    let e2 : m off / 16 ≡ o = omega arith in
    let t1 : not (ltb off end) ≡ false = ground arith in
    let t2 : (m off == 0) ≡ false = ground arith in
    let t3 : (ltb 8 c || ltb 8 o) ≡ false = ground arith in rw (e1, e2, ec, eo, t1, t2, t3) refl

convert_ends :
    (m : Memory) (fuel off end prev vcn : ℕ)
    → (end ≤ off) ⊎ (m off ≡ 0)
    → convert_loop m fuel off end prev vcn ≡ absent
unfolding convert_loop
convert_ends m zero off end prev vcn h = refl
convert_ends m (suc fuel) off end prev vcn h = elim (Bool-cases (ltb off end)) [
  | inl l ↦ let z : (m off == 0) ≡ true = ground arith in rw (l, z) refl
  | inr l ↦ rw l refl
]

locate_step :
    (r : Run) (rs : List Run) (prev vcn : ℕ)
    → (locate (r ∷ rs) prev vcn ≡ (
        if ltb vcn r.count
        then lcn (add64 (add64 prev r.delta) vcn)
        else locate rs (add64 prev r.delta) (vcn - r.count)))
unfolding locate
locate_step r rs prev vcn = refl

low_part : (x n : ℕ) → n ≤ 7 → x % 2 ^ (8 * n) < 2 ^ (8 * n)
low_part x n l =
    let pos : 2 ^ 0 ≤ 2 ^ (8 * n) =
      pow-le-pow_right {n = 2} (omega arith) {i = 0} {j = 8 * n} (omega arith) in
    mod-lt x (omega arith)

convert_loop-locate :
    (m : Memory) (fuel off end prev vcn : ℕ) (rs : List Run)
    → Laid m off end rs
    → end ≤ off + fuel
    → convert_loop m fuel off end prev vcn ≡ locate rs prev vcn
convert_loop-locate m fuel off end prev vcn [] h l =
    unfold locate in convert_ends m fuel off end prev vcn h
convert_loop-locate m zero off end prev vcn (r ∷ rs) (i, lt, h, more) l = absurd (omega arith)
convert_loop-locate m (suc fuel) off end prev vcn (r ∷ rs) (i, lt, (e, h), more) l =
    let (hc, ho) =
      Holds-append m (bytes r.counts r.count) (bytes r.offsets (r.delta % 2 ^ (8 * r.offsets)))
        (suc off) h in
    let ec : read_number m r.counts 0 (suc off) 0 ≡ r.count =
      read_number-bytes m r.counts 0 (suc off) 0 r.count hc i.fits ∙ omega arith in
    let ho' : Holds m (suc off + r.counts) (bytes r.offsets (r.delta % 2 ^ (8 * r.offsets))) =
      subst (λ (k : ℕ). Holds m (suc off + k) (bytes r.offsets (r.delta % 2 ^ (8 * r.offsets))))
        (length-bytes r.counts r.count) ho in
    let eo : extend r.offsets (read_number m r.offsets 0 (suc off + r.counts) 0) ≡ r.delta =
      ap (extend r.offsets) (
        read_number-bytes m r.offsets 0 (suc off + r.counts) 0 (r.delta % 2 ^ (8 * r.offsets)) ho'
          (low_part r.delta r.offsets i.offset_size)
        ∙ omega arith)
      ∙ extend-IsSigned r.offsets r.delta i.offset_size i.signed in
    convert_step m fuel off end prev vcn r.counts r.offsets r.count r.delta lt e i.some_count
      i.count_size i.offset_size ec eo
    ∙ elim (Bool-cases (ltb vcn r.count)) [
      | inl q ↦ rw (locate_step r rs prev vcn, q) refl
      | inr q ↦
          rw (locate_step r rs prev vcn, q)
            (convert_loop-locate m fuel (suc off + r.counts + r.offsets) end (add64 prev r.delta)
              (vcn - r.count) rs more (omega arith))
    ]

-- The runs of an attribute, of counts of 1 to 8 bytes and signed distances of at most 7, are read as
-- they were written: the cluster number found is that of the run in which the virtual cluster lies, its
-- start being the sum of the distances up to it, and none is found behind the last run. The loop ends.
pub ntfs_convert_lcn-locate :
    (m : Memory) (off end vcn : ℕ) (rs : List Run)
    → Laid m off end rs
    → ntfs_convert_lcn m off end vcn ≡ locate rs 0 vcn
unfolding ntfs_convert_lcn
ntfs_convert_lcn-locate m off end vcn rs h =
    convert_loop-locate m (end - off) off end 0 vcn rs h (omega arith)
