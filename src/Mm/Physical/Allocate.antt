-- ===== src/Mm/Physical/Allocate.antt =====
-- The allocation and release of physical pages in CORE/src/mm/vmm.c: `vmm_alloc`, `vmm_free`.
use supernova_os.Prelude.{
  ℕ, ◌+◌, ◌-◌, ◌*◌, ◌/◌, ◌%◌, ◌^◌, ◌≤◌, ◌<◌, ◌≡◌, refl, ◌∙◌, ◌⊎◌, inl, inr, Option, none, some,
  List, [], ◌∷◌, map, arith,
}
use supernova_os.Mm.Block.{Block, pmm_insert_link}
use supernova_os.Mm.Block.Map.{
  IsBlock, Heads, IsMap, type_at, Clear, type_at-cons, type_at_after, insert-IsMap, type_at-insert,
}
use supernova_os.Mm.Block.Canonical.{IsMap-ext, type_at-Clear}
use supernova_os.Mm.Physical.{
  fresh_block, Taken, take_from, put_back, after_take, vmm_alloc, alloc_physical_memory,
  free_physical_memory,
}
use supernova_os.Mm.Physical.Split.{without, SpareFits, type_with, type_at_free}
use supernova_os.Mm.Physical.Search.{AllFree, NoRoom, Answers, take_from-Answers}
use supernova_os.Prelude.Words.{add64, sub64}

-- The addresses inside a map are of 56 bits.
pub type_at_bound : (l : List Block) (x t : ℕ) → IsMap l → (type_at l x ≡ some t → x + 1 < 2 ^ 56)
type_at_bound [] x t ml = unfold type_at in (λ e. ground (arith, e))
type_at_bound (b ∷ l) x t (vb, hb, ml) =
    rw (type_at-cons b l x) (λ e. ground (arith, vb.inside, type_at_bound l x t ml))

put_back-IsMap :
    (s : Option Block) (l : List Block) (at : ℕ)
    → IsMap l
    → SpareFits s l
    → IsMap (put_back (record { at = at; left = l; spare = s }))
unfolding put_back
put_back-IsMap none l at ml h = ml
put_back-IsMap (some s) l at ml (v, cl) = insert-IsMap l s ml v cl

type_at-put_back :
    (s : Option Block) (l : List Block) (at x : ℕ)
    → IsMap l
    → SpareFits s l
    → type_at (put_back (record { at = at; left = l; spare = s })) x ≡ type_with s l x
unfolding put_back
type_at-put_back none l at x ml h = refl
type_at-put_back (some s) l at x ml (v, cl) = type_at-insert l s x ml v cl

-- Every address of a map of free memory is free or in no block.
AllFree-types : (l : List Block) (x : ℕ) → AllFree l → (type_at l x ≡ none) ⊎ (type_at l x ≡ some 0)
AllFree-types [] x h = inl (unfold type_at in refl)
AllFree-types (b ∷ l) x (hb, hl) = rw (type_at_free b l x hb) (ground (arith, AllFree-types l x hl))

free_head :
    (b : Block) (l : List Block)
    → IsBlock b
    → ((type_at (b ∷ l) b.addr ≡ none) ⊎ (type_at (b ∷ l) b.addr ≡ some 0))
    → b.typ ≡ 0
free_head b l vb = rw (type_at-cons b l b.addr) (λ e. ground (arith, vb.some_size))

free_tail :
    (b : Block) (l : List Block) (x : ℕ)
    → Heads b l
    → IsMap l
    → ((type_at (b ∷ l) x ≡ none) ⊎ (type_at (b ∷ l) x ≡ some 0))
    → ((type_at l x ≡ none) ⊎ (type_at l x ≡ some 0))
free_tail b l x hb ml = rw (type_at-cons b l x) (λ e. ground (arith, type_at_after b l x hb ml))

types-AllFree :
    (l : List Block)
    → IsMap l
    → ((x : ℕ) → (type_at l x ≡ none) ⊎ (type_at l x ≡ some 0))
    → AllFree l
types-AllFree [] ml h = tt
types-AllFree (b ∷ l) (vb, hb, ml) h =
    (free_head b l vb (h b.addr), types-AllFree l ml (λ x. free_tail b l x hb ml (h x)))

-- A call that took `pages` pages at `at` out of `map`, and left `map'`.
pub record Allocated (map : List Block) (addr pages align at : ℕ) (map' : List Block) : Type 0 where
  pub aligned : at % 2 ^ align ≡ 0
  pub asked : addr ≤ at
  pub free : (x : ℕ) → at ≤ x → x < at + pages * 4096 → type_at map x ≡ some 0
  pub left : IsMap map' × AllFree map'
  pub types : (x : ℕ) → type_at map' x ≡ without at pages (type_at map x) x

-- The two results of a call.
abbrev pub Returned : List Block → ℕ → ℕ → ℕ → ℕ × ℕ × List Block → Type 0
Returned map addr pages align (code, at, map') =
    ((code ≡ 0) × Allocated map addr pages align at map')
    ⊎ ((code ≡ 1) × (map' ≡ map) × NoRoom map addr pages align)

after_take-Returned :
    (map : List Block) (addr pages align : ℕ) (o : Option Taken)
    → IsMap map
    → AllFree map
    → 0 < pages
    → Answers map addr pages align o
    → Returned map addr pages align (after_take map pages o)
after_take-Returned map addr pages align none ml fl hp a = inr (refl, refl, a)
after_take-Returned map addr pages align (some t) ml fl hp (at, c) =
    let last : at + pages * 4096 - 1 + 1 < 2 ^ 56 =
      type_at_bound map (at + pages * 4096 - 1) 0 ml
        (c.free (at + pages * 4096 - 1) (omega arith) (omega arith)) in
    let e : sub64 (add64 t.at pages) pages ≡ at = omega (arith, c.taken.place) in
    let types : (x : ℕ) → type_at (put_back t) x ≡ without at pages (type_at map x) x =
      λ x. type_at-put_back t.spare t.left t.at x c.taken.map c.taken.spare ∙ c.taken.types x in
    inl (
      refl,
      rw e (record {
        aligned = c.aligned;
        asked = c.asked;
        free = c.free;
        left =
            let m = put_back-IsMap t.spare t.left t.at c.taken.map c.taken.spare in
            (
              m,
              types-AllFree (put_back t) m
                  (λ x. rw (types x) (ground (arith, AllFree-types map x fl))),
            );
        types = types;
      }),
    )

pub vmm_alloc_step :
    (map : List Block) (addr pages align : ℕ)
    → 0 < pages
    → addr < 2 ^ 55
    → align ≤ 63
    → (vmm_alloc map addr pages align
        ≡ after_take map pages (take_from ((addr + 4095) / 4096 * 4096) pages align map))
unfolding vmm_alloc
vmm_alloc_step map addr pages align hp ha hl =
    let e : add64 addr 0xfff ≡ addr + 4095 = omega arith in rw e (ground arith)

-- A request for pages is answered with the pages at an aligned address, which were free and are the
-- only ones that the map of free memory loses, or fails where no aligned range of pages is free, and
-- leaves the map as it was.
pub vmm_alloc-Returned :
    (map : List Block) (addr pages align : ℕ)
    → IsMap map
    → AllFree map
    → 0 < pages
    → addr < 2 ^ 55
    → align ≤ 63
    → Returned map ((addr + 4095) / 4096 * 4096) pages align (vmm_alloc map addr pages align)
vmm_alloc-Returned map addr pages align ml fl hp ha hl =
    rw (vmm_alloc_step map addr pages align hp ha hl) (
      after_take-Returned map ((addr + 4095) / 4096 * 4096) pages align
        (take_from ((addr + 4095) / 4096 * 4096) pages align map) ml fl hp
        (take_from-Answers map ((addr + 4095) / 4096 * 4096) pages align ml fl hp (omega arith) hl))

-- Pages that were taken and are given back leave the map of free memory as it was.
pub free_physical_memory-Allocated :
    (map map' : List Block) (addr pages align at : ℕ)
    → IsMap map
    → AllFree map
    → 0 < pages
    → Allocated map addr pages align at map'
    → free_physical_memory map' at pages ≡ map
unfolding free_physical_memory
free_physical_memory-Allocated map map' addr pages align at ml fl hp a =
    let last : at + pages * 4096 - 1 + 1 < 2 ^ 56 =
      type_at_bound map (at + pages * 4096 - 1) 0 ml
        (a.free (at + pages * 4096 - 1) (omega arith) (omega arith)) in
    let e : pages * 4096 % 2 ^ 64 % 2 ^ 56 ≡ pages * 4096 = omega arith in
    let v : IsBlock (fresh_block at (pages * 4096)) = record {
      vald = refl;
      some_size = omega arith;
      inside = omega arith;
    } in
    let (m, f) = a.left in
    let cl : Clear (fresh_block at (pages * 4096)) map' =
      type_at-Clear map' (fresh_block at (pages * 4096)) m v
        (λ x h h'. rw (a.types x) (ground arith)) in
    rw e (
      IsMap-ext (pmm_insert_link map' (fresh_block at (pages * 4096))) map
        (insert-IsMap map' (fresh_block at (pages * 4096)) m v cl) ml
        (λ x.
          type_at-insert map' (fresh_block at (pages * 4096)) x m v cl
          ∙ rw (a.types x) (ground (arith, a.free x))))

-- Where an aligned range of pages is free, an allocation succeeds: it returns the address of such a
-- range, and giving the pages back restores the map of free memory.
pub free-alloc_physical_memory :
    (map : List Block) (pages align w : ℕ)
    → IsMap map
    → AllFree map
    → 0 < pages
    → align ≤ 63
    → w % 2 ^ align ≡ 0
    → ((x : ℕ) → w ≤ x → x < w + pages * 4096 → type_at map x ≡ some 0)
    → let r = alloc_physical_memory map pages align in
      Allocated map 0 pages align r.0 r.1 × (free_physical_memory r.1 r.0 pages ≡ map)
unfolding alloc_physical_memory
free-alloc_physical_memory map pages align w ml fl hp hl hw free =
    elim (vmm_alloc-Returned map 0 pages align ml fl hp (omega arith) hl) [
      | inl (z, a) ↦ (
        a,
        free_physical_memory-Allocated map (vmm_alloc map 0 pages align).2 0 pages align
            (vmm_alloc map 0 pages align).1 ml fl hp a,
      )
      | inr (o, same, fails) ↦ absurd (fails w hw (omega arith) free)
    ]
