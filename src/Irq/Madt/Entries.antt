-- ===== src/Irq/Madt/Entries.antt =====
-- What the walks of the MADT in CORE/src/interrupt/apic.c find.
use supernova_os.Prelude.{
  ℕ, zero, suc, ◌+◌, ◌-◌, ◌*◌, ◌/◌, ◌%◌, ◌^◌, ◌≤◌, ◌<◌, ◌≡◌, refl, sym, ap, ◌∙◌, ◌⊎◌, inl, inr,
  Bool, true, false, not, ◌&&◌, ◌||◌, Option, none, some, List, [], ◌∷◌, arith, ltb, ◌==◌,
  if◌then◌else◌, Option-cases, length, All,
}
use supernova_os.Prelude.Bits.{bit_at, bit_at_bound, bit_at-bit_or, bit_at-pow}
use supernova_os.Irq.Madt.{
  Table, dword_at, Redirect, sze, walk, override_at, ioapic_override, redirect_at, ioapic_redirect,
  with_cpu, mask_loop, setup_madt,
}

-- The entries of a table from an offset on, by their offsets: none is of size 0.
pub data Laid (t : Table) : ℕ → List ℕ → Type 0 where
  done : {read : ℕ} → t.size ≤ read → Laid t read []
  next :
      {read : ℕ} {es : List ℕ}
      → read < t.size
      → 0 < sze t read
      → Laid t (read + sze t read) es
      → Laid t read (read ∷ es)

-- The first entry that a function returns at.
abbrev pub first_of {ℓ} : {R : Type ℓ} → (ℕ → Option R) → R → List ℕ → R
first_of visit fallback [] = fallback
first_of visit fallback (e ∷ es) = elim (visit e) [ some r ↦ r | none ↦ first_of visit fallback es ]

-- The first entry of the list that has the property.
abbrev pub IsFirst : (ℕ → Type 0) → List ℕ → ℕ → Type 0
IsFirst P [] e = ⊥
IsFirst P (d ∷ es) e = ((d ≡ e) × P d) ⊎ ((¬ P d) × IsFirst P es e)

-- An override of the interrupt: its type is 2, and its IRQ the interrupt.
abbrev pub IsOverride : Table → ℕ → ℕ → Type 0
IsOverride t irq e = (t.data' e ≡ 2) × (t.data' (e + 3) ≡ irq)

-- What the interrupt is overridden by: the low byte of the GSI of the first override, or itself.
abbrev pub Overridden : Table → ℕ → List ℕ → ℕ → Type 0
Overridden t irq es g =
    ((e : ℕ) × IsFirst (IsOverride t irq) es e × (g ≡ t.data' (e + 4) % 2 ^ 8))
    ⊎ (All (λ e. ¬ IsOverride t irq e) es × (g ≡ irq))

-- An I/O APIC whose interrupts are from its GSI on, up to the number in its version register.
abbrev pub HasRange : Table → (ℕ → ℕ) → ℕ → ℕ → Type 0
HasRange t version irq e =
    let gsi = dword_at t (e + 8) in
    let entries = version (dword_at t (e + 4)) / 2 ^ 16 % 2 ^ 8 in
    (t.data' e ≡ 1) × (gsi ≤ irq) × (irq < (gsi + entries) % 2 ^ 32)

-- The redirection of an interrupt: the first I/O APIC whose range has it, or none of them.
abbrev pub Routed : Table → (ℕ → ℕ) → ℕ → ℕ → ℕ → List ℕ → Option Redirect → Type 0
Routed t version apic vec irq es none = All (λ e. ¬ HasRange t version irq e) es
Routed t version apic vec irq es (some r) =
    (e : ℕ) × IsFirst (HasRange t version irq) es e
    × (r.addr ≡ dword_at t (e + 4))
    × (r.idx + dword_at t (e + 8) ≡ irq)
    × (r.value ≡ vec + apic % 2 ^ 8 * 2 ^ 56)

-- A local APIC that is enabled and not that of `bsp`, whose bit of the mask is k.
abbrev pub starts_cpu : Table → ℕ → ℕ → ℕ → Bool
starts_cpu t bsp k e =
    t.data' e == 0
    && t.data' (e + 4) % 2 == 1
    && not (t.data' (e + 3) == bsp)
    && t.data' (e + 3) % 64 == k

abbrev pub any_cpu : Table → ℕ → ℕ → List ℕ → Bool
any_cpu t bsp k [] = false
any_cpu t bsp k (e ∷ es) = starts_cpu t bsp k e || any_cpu t bsp k es

-- The bits of the processors of the entries, one after the other.
abbrev cpus_of : Table → ℕ → List ℕ → ℕ → ℕ
cpus_of t bsp [] mask = mask
cpus_of t bsp (e ∷ es) mask = cpus_of t bsp es (with_cpu t bsp e mask)

with_cpu-bit_at :
    (t : Table) (bsp e mask k : ℕ)
    → (bit_at k (with_cpu t bsp e mask) ≡ (if starts_cpu t bsp k e then 1 else bit_at k mask))
with_cpu-bit_at t bsp e mask k = ground (
  arith,
  bit_at-bit_or k mask (2 ^ (t.data' (e + 3) % 64)),
  bit_at-pow k (t.data' (e + 3) % 64),
  bit_at_bound k mask,
)

cpus_of-bit_at :
    (t : Table) (bsp : ℕ) (es : List ℕ) (mask k : ℕ)
    → (bit_at k (cpus_of t bsp es mask) ≡ (if any_cpu t bsp k es then 1 else bit_at k mask))
cpus_of-bit_at t bsp [] mask k = refl
cpus_of-bit_at t bsp (e ∷ es) mask k =
    ground
      (arith, cpus_of-bit_at t bsp es (with_cpu t bsp e mask) k, with_cpu-bit_at t bsp e mask k)

first_of_next {ℓ} :
    {R : Type ℓ} (visit : ℕ → Option R) (fallback : R) (e : ℕ) (es : List ℕ)
    → visit e ≡ none
    → first_of visit fallback (e ∷ es) ≡ first_of visit fallback es
first_of_next visit fallback e es q = rw (q, first_of) refl

first_of_here {ℓ} :
    {R : Type ℓ} (visit : ℕ → Option R) (fallback : R) (e : ℕ) (es : List ℕ) (r : R)
    → visit e ≡ some r
    → first_of visit fallback (e ∷ es) ≡ r
first_of_here visit fallback e es r q = rw (q, first_of) refl

-- The walk ends at the first entry of the property for which its function returns.
first_of-IsFirst {ℓ} :
    {R : Type ℓ} (P : ℕ → Type 0) (visit : ℕ → Option R) (fallback : R) (es : List ℕ)
    → ((e : ℕ) → visit e ≡ none → ¬ P e)
    → ((e : ℕ) (r : R) → visit e ≡ some r → P e)
    → ((e : ℕ) × IsFirst P es e × (visit e ≡ some (first_of visit fallback es)))
      ⊎ (All (λ e. ¬ P e) es × (first_of visit fallback es ≡ fallback))
first_of-IsFirst P visit fallback [] out hit = inr (tt, refl)
first_of-IsFirst P visit fallback (e ∷ es) out hit = elim (Option-cases (visit e)) [
  | inr (r, q) ↦
      inl (e, inl (refl, hit e r q), q ∙ ap some (sym (first_of_here visit fallback e es r q)))
  | inl q ↦
      let s = first_of_next visit fallback e es q in
      elim (first_of-IsFirst P visit fallback es out hit) [
        | inl (d, f, v) ↦ inl (d, inr (out e q, f), v ∙ ap some (sym s))
        | inr (a, v) ↦ inr ((out e q, a), s ∙ v)
      ]
]

override-Overridden :
    (t : Table) (irq : ℕ) (es : List ℕ) → Overridden t irq es (first_of (override_at t irq) irq es)
override-Overridden t irq es =
    elim (first_of-IsFirst (IsOverride t irq) (override_at t irq) irq es
      (λ e q p. ground (arith, q, p)) (λ e r q. ground (arith, q))) [
        | inl (e, f, v) ↦ inl (e, f, ground (arith, v))
        | inr (a, v) ↦ inr (a, v)
      ]

redirect_at-Routed :
    (t : Table) (version : ℕ → ℕ) (apic vec irq : ℕ) (es : List ℕ) (e : ℕ) (o : Option Redirect)
    → IsFirst (HasRange t version irq) es e
    → redirect_at t version apic irq vec e ≡ some o
    → Routed t version apic vec irq es o
redirect_at-Routed t version apic vec irq es e none f q = absurd (ground (arith, q))
redirect_at-Routed t version apic vec irq es e (some r) f q =
    (e, f, ground (arith, q), ground (arith, q), ground (arith, q))

redirect-Routed :
    (t : Table) (version : ℕ → ℕ) (apic vec irq : ℕ) (es : List ℕ)
    → Routed t version apic vec irq es (first_of (redirect_at t version apic irq vec) none es)
redirect-Routed t version apic vec irq es =
    elim (first_of-IsFirst (HasRange t version irq) (redirect_at t version apic irq vec) none es
      (λ e q p. ground (arith, q, p)) (λ e r q. ground (arith, q))) [
        | inl (e, f, v) ↦
            redirect_at-Routed t version apic vec irq es e
              (first_of (redirect_at t version apic irq vec) none es) f v
        | inr (a, v) ↦ rw v a
      ]

module _ (t : Table) where
  Laid-short : (read : ℕ) (es : List ℕ) → Laid t read es → length es ≤ t.size - read
  Laid-short read _ (done h) = omega arith
  Laid-short read _ (next {es = es} h z l) = omega (arith, Laid-short (read + sze t read) es l)

  walk_step {ℓ} :
      {R : Type ℓ} (visit : ℕ → Option R) (fallback : R) (fuel read : ℕ)
      → (walk t visit fallback (suc fuel) read ≡ (
          if not (ltb read t.size) then some fallback else elim (visit read) [
            | some r ↦ some r
            | none ↦ walk t visit fallback fuel (read + sze t read)
          ]))
  unfolding walk
  walk_step visit fallback fuel read = refl

  walk-Laid {ℓ} :
      {R : Type ℓ} (visit : ℕ → Option R) (fallback : R) (fuel read : ℕ) (es : List ℕ)
      → Laid t read es
      → length es < fuel
      → walk t visit fallback fuel read ≡ some (first_of visit fallback es)
  walk-Laid visit fallback zero read es l h = absurd (omega arith)
  walk-Laid visit fallback (suc fuel) read _ (done e) h =
      let z : (not (ltb read t.size)) ≡ true = ground arith in
      rw (walk_step visit fallback fuel read, z) refl
  walk-Laid visit fallback (suc fuel) read _ (next {es = es} lt z l) h =
      let rest = walk-Laid visit fallback fuel (read + sze t read) es l (omega arith) in
      let b : (not (ltb read t.size)) ≡ false = ground arith in
      rw (walk_step visit fallback fuel read, b)
        (elim (Option-cases (visit read)) [
          | inl e ↦ rw (first_of_next visit fallback read es e, e) rest
          | inr (r, e) ↦ rw (first_of_here visit fallback read es r e, e) refl
        ])

  -- A table of entries that are not of size 0 is walked to the end: an interrupt is overridden by the
  -- first override of it, or by none.
  pub ioapic_override-Laid :
      (irq : ℕ) (es : List ℕ)
      → Laid t 0 es
      → ioapic_override t irq ≡ some (first_of (override_at t irq) irq es)
  unfolding ioapic_override
  ioapic_override-Laid irq es l =
      walk-Laid (override_at t irq) irq (suc t.size) 0 es l (omega (arith, Laid-short 0 es l))

  -- In a table of entries that are not of size 0, the interrupt is overridden by the GSI of the first
  -- override of it, or by none, and the redirection is written to the first I/O APIC of the table whose
  -- range has the overridden interrupt, at its place in the range, with the vector and the identifier
  -- of the local APIC, or to none where no range has it.
  pub ioapic_redirect-Laid :
      (version : ℕ → ℕ) (apic irq vec : ℕ) (es : List ℕ)
      → Laid t 0 es
      → (g : ℕ) × (o : Option Redirect) × Overridden t irq es g
        × (ioapic_redirect t version apic irq vec ≡ some o)
        × Routed t version apic vec g es o
  unfolding ioapic_redirect
  ioapic_redirect-Laid version apic irq vec es l =
      let g = first_of (override_at t irq) irq es in
      (
        g,
        first_of (redirect_at t version apic g vec) none es,
        override-Overridden t irq es,
        rw (ioapic_override-Laid irq es l) (
            walk-Laid (redirect_at t version apic g vec) none (suc t.size) 0 es l
              (omega (arith, Laid-short 0 es l))),
        redirect-Routed t version apic vec g es,
      )

  -- At an entry of size 0 at which the function does not return, the walk never ends.
  pub walk_endless :
      {R : Type 0} (visit : ℕ → Option R) (fallback : R) (read : ℕ)
      → read < t.size
      → sze t read ≡ 0
      → visit read ≡ none
      → (fuel : ℕ) → walk t visit fallback fuel read ≡ none
  walk_endless visit fallback read lt z e zero = unfold walk in refl
  walk_endless visit fallback read lt z e (suc fuel) =
      let rest = walk_endless visit fallback read lt z e fuel in
      let b : (not (ltb read t.size)) ≡ false = ground arith in
      let same : read + sze t read ≡ read = omega arith in
      rw (walk_step visit fallback fuel read, b, e, same) rest

  mask_step :
      (bsp fuel read mask : ℕ)
      → (mask_loop t bsp (suc fuel) read mask ≡ (
          if not (ltb read t.size)
          then some mask
          else mask_loop t bsp fuel (read + sze t read) (with_cpu t bsp read mask)))
  unfolding mask_loop
  mask_step bsp fuel read mask = refl

  mask-Laid :
      (bsp fuel read mask : ℕ) (es : List ℕ)
      → Laid t read es
      → length es < fuel
      → mask_loop t bsp fuel read mask ≡ some (cpus_of t bsp es mask)
  mask-Laid bsp zero read mask es l h = absurd (omega arith)
  mask-Laid bsp (suc fuel) read mask _ (done e) h =
      let z : (not (ltb read t.size)) ≡ true = ground arith in
      rw (mask_step bsp fuel read mask, z) refl
  mask-Laid bsp (suc fuel) read mask _ (next {es = es} lt z l) h =
      let rest =
        mask-Laid bsp fuel (read + sze t read) (with_cpu t bsp read mask) es l (omega arith) in
      let b : (not (ltb read t.size)) ≡ false = ground arith in
      rw (mask_step bsp fuel read mask, b) rest

  -- In a table of entries that are not of size 0, the mask of processors gets the bits of all local
  -- APICs of the table that are enabled, but that of the processor that starts the others, and its
  -- other bits are as before.
  pub setup_madt-Laid :
      (bsp mask : ℕ) (es : List ℕ)
      → Laid t 0 es
      → (m : ℕ) × (setup_madt t bsp mask ≡ some m)
        × ((k : ℕ) → bit_at k m ≡ (if any_cpu t bsp k es then 1 else bit_at k mask))
  unfolding setup_madt
  setup_madt-Laid bsp mask es l = (
    cpus_of t bsp es mask,
    mask-Laid bsp (suc t.size) 0 mask es l (omega (arith, Laid-short 0 es l)),
    cpus_of-bit_at t bsp es mask,
  )
