-- ===== src/Scsi/Widths.antt =====
-- The integers that CORE/src/driver/scsi/scsi.c reverses.
use supernova_os.Prelude.{ℕ, ◌+◌, ◌*◌, ◌/◌, ◌%◌, ◌^◌, ◌≡◌, refl, arith}
use supernova_os.Scsi.{
  Memory, byte_at, dword_of, reverse_loop, scsi_reverse, scsi_reverse2, scsi_reverse4,
  scsi_reverse8,
}

abbrev pub word_of : Memory → ℕ
word_of m = m 0 + m 1 * 2 ^ 8

abbrev pub qword_of : Memory → ℕ
qword_of m = dword_of m + dword_of (λ k. m (k + 4)) * 2 ^ 32

reverse2-word_of : (x : ℕ) → scsi_reverse2 (x % 2 ^ 16) ≡ word_of (scsi_reverse (byte_at x) 2)
unfolding scsi_reverse2 scsi_reverse reverse_loop
reverse2-word_of x = omega arith

reverse4-dword_of : (x : ℕ) → scsi_reverse4 x ≡ dword_of (scsi_reverse (byte_at x) 4)
unfolding scsi_reverse4 scsi_reverse reverse_loop
reverse4-dword_of x = refl

byte-low :
    (x : ℕ)
    → (byte_at (x % 2 ^ 32) 0 ≡ byte_at x 0)
      × (byte_at (x % 2 ^ 32) 1 ≡ byte_at x 1)
      × (byte_at (x % 2 ^ 32) 2 ≡ byte_at x 2)
      × (byte_at (x % 2 ^ 32) 3 ≡ byte_at x 3)
byte-low x = (omega arith, omega arith, omega arith, omega arith)

byte-high :
    (x : ℕ)
    → (byte_at (x / 2 ^ 32 % 2 ^ 32) 0 ≡ byte_at x 4)
      × (byte_at (x / 2 ^ 32 % 2 ^ 32) 1 ≡ byte_at x 5)
      × (byte_at (x / 2 ^ 32 % 2 ^ 32) 2 ≡ byte_at x 6)
      × (byte_at (x / 2 ^ 32 % 2 ^ 32) 3 ≡ byte_at x 7)
byte-high x = (omega arith, omega arith, omega arith, omega arith)

join : ℕ → ℕ → ℕ → ℕ → ℕ
join a b c d = a + b * 2 ^ 8 + c * 2 ^ 16 + d * 2 ^ 24

join_ap :
    {a b c d a' b' c' d' : ℕ}
    → (a ≡ a') × (b ≡ b') × (c ≡ c') × (d ≡ d')
    → join d c b a ≡ join d' c' b' a'
join_ap (e, f, g, h) = rw (e, f, g, h) refl

reverse4_bytes :
    (x : ℕ) → scsi_reverse4 x ≡ join (byte_at x 3) (byte_at x 2) (byte_at x 1) (byte_at x 0)
unfolding scsi_reverse4 join
reverse4_bytes x = refl

reverse_loop_four :
    (m : Memory)
    → qword_of (scsi_reverse m 8)
      ≡ join (m 7) (m 6) (m 5) (m 4) + join (m 3) (m 2) (m 1) (m 0) * 2 ^ 32
unfolding scsi_reverse reverse_loop join
reverse_loop_four m = refl

reverse8-qword_of : (x : ℕ) → scsi_reverse8 x ≡ qword_of (scsi_reverse (byte_at x) 8)
unfolding scsi_reverse8
reverse8-qword_of x =
    rw
      (
        reverse_loop_four (byte_at x),
        reverse4_bytes (x / 2 ^ 32 % 2 ^ 32),
        reverse4_bytes (x % 2 ^ 32),
        join_ap (byte-high x),
        join_ap (byte-low x),
      )
      refl

-- The reversal of a WORD, a DWORD and a QWORD is the reversal of its two, four or eight bytes in
-- memory.
scsi_reverse_widths :
    (x : ℕ)
    → (scsi_reverse2 (x % 2 ^ 16) ≡ word_of (scsi_reverse (byte_at x) 2))
      × (scsi_reverse4 x ≡ dword_of (scsi_reverse (byte_at x) 4))
      × (scsi_reverse8 x ≡ qword_of (scsi_reverse (byte_at x) 8))
scsi_reverse_widths x = (reverse2-word_of x, reverse4-dword_of x, reverse8-qword_of x)
