-- ===== src/Scsi/Reverse.antt =====
-- What scsi_reverse of CORE/src/driver/scsi/scsi.c leaves in memory.
use supernova_os.Prelude.{
  ℕ, zero, suc, ◌+◌, ◌-◌, ◌/◌, ◌<◌, ◌≡◌, refl, ap, ◌∙◌, inl, inr, arith, ltb, leb, ◌==◌,
  if◌then◌else◌, Bool-cases,
}
use supernova_os.Scsi.{Memory, swap1, reverse_loop, scsi_reverse}

-- Where the byte at `k` comes from once the loop has `i` for its first turn.
abbrev mirror : ℕ → ℕ → ℕ → ℕ
mirror i len k = if ltb k i then k else if leb (len - i) k then k else len - 1 - k

abbrev swapped : ℕ → ℕ → ℕ → ℕ
swapped a b k = if k == b then a else if k == a then b else k

swap1-swapped : (m : Memory) (a b k : ℕ) → swap1 m a b k ≡ m (swapped a b k)
swap1-swapped m a b k = elim (Bool-cases (k == b)) [
  | inl e ↦ rw e refl
  | inr e ↦ rw e (elim (Bool-cases (k == a)) [ inl f ↦ rw f refl | inr f ↦ rw f refl ])
]

swapped-mirror :
    (i len k : ℕ) → i < len / 2 → swapped i (len - i - 1) (mirror (suc i) len k) ≡ mirror i len k
swapped-mirror i len k l = ground arith

mirror_half : (i len k : ℕ) → i ≡ len / 2 → k ≡ mirror i len k
mirror_half i len k e = ground arith

loop_step :
    (turns i len : ℕ) (m : Memory)
    → reverse_loop (suc turns) i len m ≡ reverse_loop turns (suc i) len (swap1 m i (len - i - 1))
unfolding reverse_loop
loop_step turns i len m = refl

reverse_loop-mirror :
    (turns i len : ℕ) (m : Memory) (k : ℕ)
    → i + turns ≡ len / 2
    → reverse_loop turns i len m k ≡ m (mirror i len k)
reverse_loop-mirror zero i len m k e =
    unfold reverse_loop in ap m (mirror_half i len k (omega arith))
reverse_loop-mirror (suc turns) i len m k e =
    ap (λ f. f k) (loop_step turns i len m)
    ∙ reverse_loop-mirror turns (suc i) len (swap1 m i (len - i - 1)) k (omega arith)
    ∙ swap1-swapped m i (len - i - 1) (mirror (suc i) len k)
    ∙ ap m (swapped-mirror i len k (omega arith))

-- The first `len` bytes are reversed, for `len` even or odd, and no byte behind them is changed.
pub scsi_reverse_lem :
    (m : Memory) (len k : ℕ) → scsi_reverse m len k ≡ (if ltb k len then m (len - 1 - k) else m k)
unfolding scsi_reverse
scsi_reverse_lem m len k =
    reverse_loop-mirror (len / 2) 0 len m k (omega arith) ∙ elim (Bool-cases (ltb k len)) [
      | inl e ↦ rw e (ap m (ground arith))
      | inr e ↦ rw e (ap m (ground arith))
    ]
