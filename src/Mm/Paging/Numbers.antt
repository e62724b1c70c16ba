-- ===== src/Mm/Paging/Numbers.antt =====
-- Page numbers and offsets of addresses, as CORE/src/mm/vmm.c takes them apart.
use supernova_os.Prelude.{
  ℕ, zero, suc, ◌+◌, ◌*◌, ◌/◌, ◌%◌, ◌^◌, ◌≤◌, ◌<◌, ◌≡◌, ◌≢◌, inl, inr, not, ◌&&◌, arith, leb, ◌==◌,
  Bool-cases,
}
use supernova_os.Mm.Paging.{index, page_size, address_in}
use supernova_os.Mm.Paging.Graft.{eq_or_ne}
use supernova_os.Mm.Paging.Refine.{leaf, Aims}

-- The number of a page in the 48 bits of an address that are translated.
abbrev pub page_number : ℕ → ℕ → ℕ
page_number typ va = va % 2 ^ 48 / page_size typ

pub Aims-page_number :
    (typ va va' : ℕ) → typ ≤ 2 → page_number typ va' ≡ page_number typ va → Aims 3 typ va va'
unfolding index
Aims-page_number zero va va' t e zero lo hi = omega arith
Aims-page_number zero va va' t e (suc zero) lo hi = omega arith
Aims-page_number zero va va' t e (suc (suc zero)) lo hi = omega arith
Aims-page_number zero va va' t e (suc (suc (suc zero))) lo hi = omega arith
Aims-page_number zero va va' t e (suc (suc (suc (suc k)))) lo hi = absurd (omega arith)
Aims-page_number (suc zero) va va' t e zero lo hi = absurd (omega arith)
Aims-page_number (suc zero) va va' t e (suc zero) lo hi = omega arith
Aims-page_number (suc zero) va va' t e (suc (suc zero)) lo hi = omega arith
Aims-page_number (suc zero) va va' t e (suc (suc (suc zero))) lo hi = omega arith
Aims-page_number (suc zero) va va' t e (suc (suc (suc (suc k)))) lo hi = absurd (omega arith)
Aims-page_number (suc (suc zero)) va va' t e zero lo hi = absurd (omega arith)
Aims-page_number (suc (suc zero)) va va' t e (suc zero) lo hi = absurd (omega arith)
Aims-page_number (suc (suc zero)) va va' t e (suc (suc zero)) lo hi = omega arith
Aims-page_number (suc (suc zero)) va va' t e (suc (suc (suc zero))) lo hi = omega arith
Aims-page_number (suc (suc zero)) va va' t e (suc (suc (suc (suc k)))) lo hi = absurd (omega arith)
Aims-page_number (suc (suc (suc typ))) va va' t e k lo hi = absurd (omega arith)

-- Addresses in different pages take different entries at some level.
abbrev pub Parts : ℕ → ℕ → ℕ → Type 0
Parts typ va va' = (k : ℕ) × (typ ≤ k) × (k ≤ 3) × (index k va' ≢ index k va)

page_number_indices :
    (typ va va' : ℕ)
    → typ ≤ 2
    → index 3 va' ≡ index 3 va
    → index 2 va' ≡ index 2 va
    → (typ ≤ 1 → index 1 va' ≡ index 1 va)
    → (typ ≤ 0 → index 0 va' ≡ index 0 va)
    → page_number typ va' ≡ page_number typ va
unfolding index
page_number_indices zero va va' t a b c d =
    let c' = c (omega arith) in let d' = d (omega arith) in omega arith
page_number_indices (suc zero) va va' t a b c d = let c' = c (omega arith) in omega arith
page_number_indices (suc (suc zero)) va va' t a b c d = omega arith
page_number_indices (suc (suc (suc typ))) va va' t a b c d = absurd (omega arith)

pub page_number-Parts :
    (typ va va' : ℕ) → typ ≤ 2 → page_number typ va' ≢ page_number typ va → Parts typ va va'
page_number-Parts typ va va' t ne = elim (eq_or_ne (index 3 va') (index 3 va)) [
  | inr n3 ↦ (3, omega arith, omega arith, n3)
  | inl e3 ↦ elim (eq_or_ne (index 2 va') (index 2 va)) [
    | inr n2 ↦ (2, omega arith, omega arith, n2)
    | inl e2 ↦ elim (Bool-cases (leb typ 1 && not (index 1 va' == index 1 va))) [
      | inl n1 ↦ (1, ground arith, omega arith, λ q. ground arith)
      | inr e1 ↦ elim (Bool-cases (leb typ 0 && not (index 0 va' == index 0 va))) [
        | inl n0 ↦ (0, ground arith, omega arith, λ q. ground arith)
        | inr e0 ↦
            absurd
              (ne (page_number_indices typ va va' t e3 e2 (λ l. ground arith) (λ l. ground arith)))
      ]
    ]
  ]
]

-- Pages at a distance of less than 2 ^ 48 are different.
pub page_number_ne :
    (typ va j : ℕ)
    → typ ≤ 2
    → 0 < j
    → j * page_size typ < 2 ^ 48
    → page_number typ (va + j * page_size typ) ≢ page_number typ va
page_number_ne zero va j t p l e = omega arith
page_number_ne (suc zero) va j t p l e = omega arith
page_number_ne (suc (suc zero)) va j t p l e = omega arith
page_number_ne (suc (suc (suc typ))) va j t p l e = absurd (omega arith)

-- The address that the entry of a page gives.
pub address_in-leaf :
    (typ phy attr va : ℕ)
    → typ ≤ 2
    → phy % page_size typ ≡ 0
    → phy < 2 ^ 63
    → address_in typ (leaf typ phy attr) va ≡ phy + va % page_size typ
address_in-leaf zero phy attr va t h l = omega arith
address_in-leaf (suc zero) phy attr va t h l = ground arith
address_in-leaf (suc (suc zero)) phy attr va t h l = ground arith
address_in-leaf (suc (suc (suc typ))) phy attr va t h l = absurd (omega arith)
