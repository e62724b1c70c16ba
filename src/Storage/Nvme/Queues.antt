-- ===== src/Storage/Nvme/Queues.antt =====
-- The submission and completion queues of CORE/src/driver/nvme/nvme.c.
use supernova_os.Prelude.{
  ℕ, zero, suc, ◌+◌, ◌*◌, ◌%◌, ◌^◌, ◌≤◌, ◌<◌, bit_xor, ◌≡◌, refl, sym, ◌∙◌, ◌≢◌, ◌⊎◌, inl, inr, not,
  Option, none, some, List, [], ◌∷◌, arith, leb, ◌==◌, if◌then◌else◌, Bool-cases, length, get_elem?,
  get_or, All, length-set, get_elem?-set_self, get_elem?-set_ne,
}
use native.Mathlib.Nat.{mod_self, mod-eq_of_lt, suc-mul}
use supernova_os.Storage.Nvme.{
  Command, Submission, next_coid, next_indx, nvm_express_submission, Completion, Consumer, consumed,
  nvm_express_completion, blank_completion,
}

-- A queue of `size + 1` commands.
pub record IsQueue (q : Submission) : Type 0 where
  pub room : length q.ring ≡ q.size + 1
  pub byte : q.size < 2 ^ 8
  pub inside : q.indx ≤ q.size
  pub word : q.coid < 0xffff

next_indx_mod :
    (size indx : ℕ) → indx ≤ size → size < 2 ^ 8 → next_indx size indx ≡ (indx + 1) % (size + 1)
next_indx_mod size indx h b = elim (Bool-cases (leb size indx)) [
  | inl e ↦ let z : indx + 1 ≡ size + 1 = ground arith in rw (e, z) (sym (mod_self (size + 1)))
  | inr e ↦ let lt : indx + 1 < size + 1 = ground arith in rw e (omega (arith, mod-eq_of_lt lt))
]

-- A command that is submitted stands in the slot that the doorbell has passed, under an identifier that
-- is not reserved, the one behind that of the command before; the queue and the doorbell move on to the
-- next slot of the ring, the queue keeps the identifier that it gave and its size, and the other slots
-- keep their commands.
pub nvm_express_submission-IsQueue :
    (q : Submission) (sub : Command)
    → IsQueue q
    → let r = nvm_express_submission q sub in
      IsQueue r.1
      × (0 < r.0)
      × (r.0 < 0xffff)
      × (r.0 ≡ (if q.coid == 0xfffe then 1 else q.coid + 1))
      × (r.1.coid ≡ r.0)
      × (r.1.indx ≡ (q.indx + 1) % (q.size + 1))
      × (r.1.bell ≡ r.1.indx)
      × (r.1.size ≡ q.size)
      × (get_elem? r.1.ring q.indx ≡ some (record sub { coid = r.0 }))
      × ((i : ℕ) → i ≢ q.indx → get_elem? r.1.ring i ≡ get_elem? q.ring i)
unfolding nvm_express_submission
nvm_express_submission-IsQueue q sub v = (
  record {
    room = length-set q.ring q.indx (record sub { coid = next_coid q.coid }) ∙ v.room;
    byte = v.byte;
    inside = ground (arith, v.inside, v.byte);
    word = ground (arith, v.word);
  },
  ground (arith, v.word),
  ground (arith, v.word),
  ground (arith, v.word),
  refl,
  next_indx_mod q.size q.indx v.inside v.byte,
  refl,
  refl,
  get_elem?-set_self q.ring q.indx (record sub { coid = next_coid q.coid })
      (omega (arith, v.room, v.inside)),
  (λ i ne.
      get_elem?-set_ne q.ring q.indx i (record sub { coid = next_coid q.coid }) (λ e. ne (sym e))),
)

-- A consumer that has taken `rounds` times the ring and `indx` completions more.
pub record IsConsumer (q : Consumer) (n rounds : ℕ) : Type 0 where
  pub count : n ≡ rounds * (q.size + 1) + q.indx
  pub byte : q.size < 2 ^ 8
  pub inside : q.indx ≤ q.size
  pub phase : q.cycl ≡ (rounds + 1) % 2

-- The rounds after one more completion.
abbrev pub rounds_after : Consumer → ℕ → ℕ
rounds_after q rounds = if q.indx == q.size then rounds + 1 else rounds

flipped : (rounds c : ℕ) → c ≡ (rounds + 1) % 2 → bit_xor c 1 ≡ (rounds + 1 + 1) % 2
flipped rounds c e = elim (Bool-cases (c == 0)) [
  | inl z ↦
      let p : c ≡ 0 = ground arith in
      let r : (rounds + 1 + 1) % 2 ≡ 1 = omega arith in rw (p, r) refl
  | inr z ↦
      let p : c ≡ 1 = ground arith in
      let r : (rounds + 1 + 1) % 2 ≡ 0 = omega arith in rw (p, r) refl
]

consumed-IsConsumer :
    (q : Consumer) (n rounds : ℕ)
    → IsConsumer q n rounds
    → IsConsumer (consumed q) (n + 1) (rounds_after q rounds)
consumed-IsConsumer q n rounds v = elim (Bool-cases (q.indx == q.size)) [
  | inl e ↦ rw e (record {
    count = ground (arith, v.count, suc-mul rounds (q.size + 1));
    byte = v.byte;
    inside = omega arith;
    phase = flipped rounds q.cycl v.phase;
  })
  | inr e ↦ rw e (record {
    count = ground (arith, v.count, v.byte, v.inside);
    byte = v.byte;
    inside = ground (arith, v.inside, v.byte);
    phase = v.phase;
  })
]

-- What the ring holds at a slot at one turn: a completion of the phase, or of the other.
pub record HasPhase (slot phase : ℕ) (ring : List Completion) (c : Completion) : Type 0 where
  pub at_slot : get_elem? ring slot ≡ some c
  pub phas : c.phas ≡ phase

abbrev pub IsStale : ℕ → ℕ → List Completion → Type 0
IsStale slot phase ring = (c : Completion) × (get_elem? ring slot ≡ some c) × (c.phas ≢ phase)

-- The completion of the slot at the first turn at which it is of the phase.
abbrev pub IsFirst : ℕ → ℕ → List (List Completion) → Completion → Type 0
IsFirst slot phase [] c = ⊥
IsFirst slot phase (ring ∷ later) c =
    HasPhase slot phase ring c ⊎ (IsStale slot phase ring × IsFirst slot phase later c)

abbrev pub Takes :
    Consumer → ℕ → ℕ → List (List Completion) → Option (Completion × Consumer) → Type 0
Takes q n rounds rings none = All (IsStale q.indx ((rounds + 1) % 2)) rings
Takes q n rounds rings (some (c, q')) =
    IsFirst q.indx ((rounds + 1) % 2) rings c
    × IsConsumer q' (n + 1) (rounds_after q rounds)
    × (q'.size ≡ q.size)
    × (q'.bell ≡ q'.indx)

consumed_size : (q : Consumer) → (consumed q).size ≡ q.size
consumed_size q = elim (Bool-cases (q.indx == q.size)) [ inl e ↦ rw e refl | inr e ↦ rw e refl ]

consumed_bell : (q : Consumer) → (consumed q).bell ≡ (consumed q).indx
consumed_bell q = elim (Bool-cases (q.indx == q.size)) [ inl e ↦ rw e refl | inr e ↦ rw e refl ]

get_elem?-get_or :
    (l : List Completion) (i : ℕ) (d : Completion)
    → i < length l
    → get_elem? l i ≡ some (get_or l i d)
get_elem?-get_or [] i d h = absurd (omega arith)
get_elem?-get_or (x ∷ l) zero d h = refl
get_elem?-get_or (x ∷ l) (suc i) d h = get_elem?-get_or l i d (omega arith)

completion_step :
    (q : Consumer) (ring : List Completion) (later : List (List Completion))
    → (nvm_express_completion q (ring ∷ later) ≡ (
        if not ((get_or ring q.indx blank_completion).phas == q.cycl)
        then nvm_express_completion q later
        else some (get_or ring q.indx blank_completion, consumed q)))
unfolding nvm_express_completion
completion_step q ring later = refl

keep_waiting :
    (q : Consumer) (n rounds : ℕ) (ring : List Completion) (later : List (List Completion))
    (o : Option (Completion × Consumer))
    → IsStale q.indx ((rounds + 1) % 2) ring
    → Takes q n rounds later o
    → Takes q n rounds (ring ∷ later) o
keep_waiting q n rounds ring later none ne t = (ne, t)
keep_waiting q n rounds ring later (some r) ne (f, t, s, b) = (inr (ne, f), t, s, b)

-- Where the ring has its size at every turn, a completion that the driver takes is what the slot of the
-- driver holds at the first turn at which that is of the phase of its round, and the driver goes on to
-- the next slot, of the next round behind the last one, and rings the doorbell with it; a driver that
-- waits to the end has met its slot without the phase at every turn.
pub nvm_express_completion-IsConsumer :
    (q : Consumer) (n rounds : ℕ) (rings : List (List Completion))
    → IsConsumer q n rounds
    → All (λ ring. length ring ≡ q.size + 1) rings
    → Takes q n rounds rings (nvm_express_completion q rings)
nvm_express_completion-IsConsumer q n rounds [] v w = unfold nvm_express_completion in tt
nvm_express_completion-IsConsumer q n rounds (ring ∷ later) v (room, w) =
    let rest = nvm_express_completion-IsConsumer q n rounds later v w in
    let c = get_or ring q.indx blank_completion in
    let here : get_elem? ring q.indx ≡ some c =
      get_elem?-get_or ring q.indx blank_completion (omega (arith, room, v.inside)) in
    rw (completion_step q ring later) (elim (Bool-cases (c.phas == q.cycl)) [
      | inl e ↦ rw e (
        inl (record { at_slot = here; phas = ground (arith, v.phase) }),
        consumed-IsConsumer q n rounds v,
        consumed_size q,
        consumed_bell q,
      )
      | inr e ↦ rw e (
          keep_waiting q n rounds ring later (nvm_express_completion q later)
            (c, here, (λ p. ground (arith, v.phase, p))) rest)
    ])
