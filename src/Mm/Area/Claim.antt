-- ===== src/Mm/Area/Claim.antt =====
-- The areas that `vmm_alloc` in CORE/src/mm/vmm.c reserves and commits.
use supernova_os.Prelude.{
  ℕ, ◌+◌, ◌*◌, ◌/◌, ◌%◌, ◌^◌, ◌≤◌, ◌<◌, ◌≡◌, refl, ◌⊎◌, inl, inr, Option, none, some, List, map,
  arith,
}
use supernova_os.Prelude.Words.{add64, sub64}
use supernova_os.Mm.Block.{Block}
use supernova_os.Mm.Block.Map.{IsMap, type_at}
use supernova_os.Mm.Area.{AreaType, wanted, blk_type, Picked, pick_from, after_pick, vmm_alloc_area}
use supernova_os.Mm.Area.Retype.{with_type, retype_lem}
use supernova_os.Mm.Area.Search.{Have, NoArea, Finds, pick_from-Finds}

-- A call that gave the pages at `at` the type of an area, and left `map'`.
pub record Claimed (map : List Block) (addr pages align at : ℕ) (typ : AreaType) (map' : List Block)
    : Type 0 where
  pub aligned : at % 2 ^ align ≡ 0
  pub asked : addr ≤ at
  pub had : Have map at pages (wanted typ)
  pub left : IsMap map'
  pub types : (x : ℕ) → type_at map' x ≡ with_type at pages (blk_type typ) (type_at map x) x

-- The two results of a call.
abbrev pub Granted : List Block → ℕ → ℕ → ℕ → AreaType → ℕ × ℕ × List Block → Type 0
Granted map addr pages align typ (code, at, map') =
    ((code ≡ 0) × Claimed map addr pages align at typ map')
    ⊎ ((code ≡ 1) × (at ≡ 0) × (map' ≡ map) × NoArea map addr pages align (wanted typ))

after_pick-Granted :
    (map : List Block) (addr pages align : ℕ) (typ : AreaType) (o : Option Picked)
    → 0 < pages
    → Finds map addr pages align (wanted typ) o
    → Granted map addr pages align typ (after_pick map pages typ o)
after_pick-Granted map addr pages align typ none hp a = inr (refl, refl, refl, a)
after_pick-Granted map addr pages align typ (some p) hp a =
    let e : sub64 (add64 p.at pages) pages ≡ p.at = omega (arith, a.ends, a.removed.block.inside) in
    let (m, types) = retype_lem map p pages typ a.removed a.starts a.ends in
    inl (
      refl,
      rw e (record {
        aligned = a.aligned;
        asked = a.asked;
        had = λ x h h'. rw (a.removed.types x) (ground (arith, a.starts, a.ends, a.typ));
        left = m;
        types = types;
      }),
    )

vmm_alloc_area_step :
    (map : List Block) (addr pages align : ℕ) (typ : AreaType)
    → 0 < pages
    → addr < 2 ^ 55
    → align ≤ 63
    → (vmm_alloc_area map addr pages align typ
        ≡ after_pick map pages typ (pick_from ((addr + 4095) / 4096 * 4096) pages align typ map))
unfolding vmm_alloc_area
vmm_alloc_area_step map addr pages align typ hp ha hl =
    let e : add64 addr 0xfff ≡ addr + 4095 = omega arith in rw e (ground arith)

-- A request to reserve or to commit pages gives the new type to pages at an aligned address that
-- all had the type it needs, and to no other address, or fails where no aligned range has that
-- type, and leaves the areas as they were.
pub vmm_alloc_area-Granted :
    (map : List Block) (addr pages align : ℕ) (typ : AreaType)
    → IsMap map
    → 0 < pages
    → addr < 2 ^ 55
    → align ≤ 63
    → Granted map
        ((addr + 4095) / 4096 * 4096)
        pages
        align
        typ
        (vmm_alloc_area map addr pages align typ)
vmm_alloc_area-Granted map addr pages align typ ml hp ha hl =
    rw (vmm_alloc_area_step map addr pages align typ hp ha hl) (
      after_pick-Granted map ((addr + 4095) / 4096 * 4096) pages align typ
        (pick_from ((addr + 4095) / 4096 * 4096) pages align typ map) hp
        (pick_from-Finds map ((addr + 4095) / 4096 * 4096) pages align typ ml hp (omega arith) hl))
