-- ===== src/Mm/Physical/Align.antt =====
-- The aligned addresses of `vmm_alloc` in CORE/src/mm/vmm.c.
use supernova_os.Prelude.{
  ℕ, suc, ◌+◌, ◌-◌, ◌*◌, ◌/◌, ◌%◌, ◌^◌, ◌≤◌, ◌<◌, ◌≡◌, inl, inr, arith, ltb, ltb→lt, ltb→le,
  Bool-cases,
}
use native.Mathlib.Nat.{
  pow-le-pow_right, div-mul-le_self, lt-div-mul-add, mul-mod_left, div-lt_iff_lt-mul, div-add-mod',
  mul-le-mul_right, suc-mul,
}
use supernova_os.Mm.Block.{Block}
use supernova_os.Mm.Block.Map.{IsBlock}
use supernova_os.Mm.Physical.{align_up, alloc_addr}

round_up :
    (x p : ℕ)
    → 0 < p
    → x + (p - 1) < 2 ^ 64
    → let a = (x + (p - 1)) % 2 ^ 64 / p * p in (x ≤ a) × (a < x + p) × (a % p ≡ 0)
round_up x p hp fits =
    let e : (x + (p - 1)) % 2 ^ 64 ≡ x + (p - 1) = omega arith in
    rw e (
      omega (arith, lt-div-mul-add {a = x + (p - 1)} hp),
      omega (arith, div-mul-le_self (x + (p - 1)) p),
      mul-mod_left ((x + (p - 1)) / p) p,
    )

-- An aligned address is the first multiple of the alignment that is not below.
align_up_bounds :
    (x align : ℕ)
    → x < 2 ^ 56
    → align ≤ 63
    → (x ≤ align_up x align)
      × (align_up x align < x + 2 ^ align)
      × (align_up x align % 2 ^ align ≡ 0)
unfolding align_up
align_up_bounds x align hx ha =
    let lo : 2 ^ 0 ≤ 2 ^ align =
      pow-le-pow_right {n = 2} (omega arith) {i = 0} {j = align} (omega arith) in
    let hi : 2 ^ align ≤ 2 ^ 63 = pow-le-pow_right {n = 2} (omega arith) {i = align} {j = 63} ha in
    round_up x (2 ^ align) (omega arith) (omega arith)

round_up_least :
    (x p m : ℕ)
    → 0 < p
    → x + (p - 1) < 2 ^ 64
    → m % p ≡ 0
    → x ≤ m
    → (x + (p - 1)) % 2 ^ 64 / p * p ≤ m
round_up_least x p m hp fits hm hx =
    let e : (x + (p - 1)) % 2 ^ 64 ≡ x + (p - 1) = omega arith in
    let q : m / p * p ≡ m = omega (arith, div-add-mod' m p, hm) in
    let b : (x + (p - 1)) / p < suc (m / p) =
      (div-lt_iff_lt-mul {k = p} {x = x + (p - 1)} {y = suc (m / p)} hp).1
        (omega (arith, suc-mul (m / p) p, q)) in
    rw e
      (omega (arith, q, mul-le-mul_right {m = (x + (p - 1)) / p} {n = m / p} p (omega (arith, b))))

align_up_least :
    (x align m : ℕ) → x < 2 ^ 56 → align ≤ 63 → m % 2 ^ align ≡ 0 → x ≤ m → align_up x align ≤ m
unfolding align_up
align_up_least x align m hx ha hm le =
    let lo : 2 ^ 0 ≤ 2 ^ align =
      pow-le-pow_right {n = 2} (omega arith) {i = 0} {j = align} (omega arith) in
    let hi : 2 ^ align ≤ 2 ^ 63 = pow-le-pow_right {n = 2} (omega arith) {i = align} {j = 63} ha in
    round_up_least x (2 ^ align) m (omega arith) (omega arith) hm le

pub alloc_addr_least :
    (node : Block) (addr align m : ℕ)
    → IsBlock node
    → addr < 2 ^ 56
    → align ≤ 63
    → m % 2 ^ align ≡ 0
    → addr ≤ m
    → node.addr ≤ m
    → alloc_addr node addr align ≤ m
alloc_addr_least node addr align m v ha hl hm h h' = elim (Bool-cases (ltb node.addr addr)) [
  | inl e ↦ rw e (align_up_least addr align m ha hl hm h)
  | inr e ↦ rw e (align_up_least node.addr align m (omega (arith, v.inside)) hl hm h')
]

pub alloc_addr_bounds :
    (node : Block) (addr align : ℕ)
    → IsBlock node
    → addr < 2 ^ 56
    → align ≤ 63
    → (node.addr ≤ alloc_addr node addr align)
      × (addr ≤ alloc_addr node addr align)
      × (alloc_addr node addr align % 2 ^ align ≡ 0)
alloc_addr_bounds node addr align v ha hl = elim (Bool-cases (ltb node.addr addr)) [
  | inl e ↦ rw e (omega (arith, align_up_bounds addr align ha hl, ltb→lt node.addr addr e))
  | inr e ↦ rw e (
      omega (
        arith,
        align_up_bounds node.addr align (omega (arith, v.inside)) hl,
        ltb→le node.addr addr e,
      ))
]
