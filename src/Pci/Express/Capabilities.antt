-- ===== src/Pci/Express/Capabilities.antt =====
-- The search of CORE/src/driver/pci/pcie.c for a capability.
use supernova_os.Prelude.{
  ℕ, zero, suc, ◌*◌, ◌/◌, ◌%◌, ◌^◌, ◌<◌, ◌≡◌, refl, ◌≢◌, inl, inr, Option, none, some, arith, ◌==◌,
  if◌then◌else◌, Bool-cases,
}
use supernova_os.Pci.Express.{Capabilities', capability_loop, pcie_capability}

-- The offset after a number of links.
abbrev pub hop : Capabilities' → ℕ → ℕ → ℕ
hop c zero off = off
hop c (suc k) off = hop c k (c.next off)

-- The `k`-th offset is the first one of the capability, and none before it ends the chain.
pub record FirstAt (c : Capabilities') (capa off k o : ℕ) : Type 0 where
  pub place : hop c k off ≡ o
  pub linked : o ≢ 0
  pub found : c.caid o ≡ capa
  pub before : (j : ℕ) → j < k → (hop c j off ≢ 0) × (c.caid (hop c j off) ≢ capa)

-- None of the first offsets of the chain is of the capability.
abbrev pub Missing : Capabilities' → ℕ → ℕ → ℕ → Type 0
Missing c capa zero off = Unit {0}
Missing c capa (suc turns) off = off ≢ 0 → (c.caid off ≢ capa) × Missing c capa turns (c.next off)

abbrev pub Search : Capabilities' → ℕ → ℕ → ℕ → Option ℕ → Type 0
Search c capa turns off none = Missing c capa turns off
Search c capa turns off (some o) = (k : ℕ) × (k < turns) × FirstAt c capa off k o

later-Search :
    (c : Capabilities') (capa turns off : ℕ) (r : Option ℕ)
    → off ≢ 0
    → c.caid off ≢ capa
    → Search c capa turns (c.next off) r
    → Search c capa (suc turns) off r
later-Search c capa turns off none nz ne m = λ h. (ne, m)
later-Search c capa turns off (some o) nz ne (k, lt, f) = (
  suc k,
  omega arith,
  record {
    place = f.place;
    linked = f.linked;
    found = f.found;
    before = λ j h. before_suc c capa off k nz ne f.before j h;
  },
)
  where
    before_suc :
        (c : Capabilities') (capa off k : ℕ)
        → off ≢ 0
        → c.caid off ≢ capa
        → ((j : ℕ) → j < k → (hop c j (c.next off) ≢ 0) × (c.caid (hop c j (c.next off)) ≢ capa))
        → (j : ℕ) → j < suc k
        → (hop c j off ≢ 0) × (c.caid (hop c j off) ≢ capa)
    before_suc c capa off k nz ne b zero h = (nz, ne)
    before_suc c capa off k nz ne b (suc j) h = b j (omega arith)

loop_step :
    (c : Capabilities') (capa turns off : ℕ)
    → (capability_loop c capa (suc turns) off ≡ (
        if off == 0
        then none
        else if c.caid off == capa
        then some off
        else capability_loop c capa turns (c.next off)))
unfolding capability_loop
loop_step c capa turns off = refl

loop-Search :
    (c : Capabilities') (capa turns off : ℕ)
    → Search c capa turns off (capability_loop c capa turns off)
loop-Search c capa zero off = unfold capability_loop in tt
loop-Search c capa (suc turns) off =
    let rest = loop-Search c capa turns (c.next off) in
    rw (loop_step c capa turns off) (elim (Bool-cases (off == 0)) [
      | inl z ↦ rw z (λ h. absurd (ground arith))
      | inr z ↦ rw z (elim (Bool-cases (c.caid off == capa)) [
        | inl e ↦ rw e (
          0,
          omega arith,
          record {
            place = refl;
            linked = ground arith;
            found = ground arith;
            before = λ j h. absurd (omega arith);
          },
        )
        | inr e ↦ rw e (
            later-Search c capa turns off (capability_loop c capa turns (c.next off)) (ground arith)
              (ground arith) rest)
      ])
    ])

-- The capability that is found is the first of its kind in the chain of the device, at most 47 links
-- behind the start; without a result, none of the first 48 of the chain is of the kind. The search ends
-- on a chain that is closed as well.
pub pcie_capability-Search :
    (c : Capabilities') (capa : ℕ)
    → Search c (capa % 2 ^ 8) 48 (c.first / 4 * 4 % 2 ^ 8) (pcie_capability c capa)
unfolding pcie_capability
pcie_capability-Search c capa = loop-Search c (capa % 2 ^ 8) 48 (c.first / 4 * 4 % 2 ^ 8)
