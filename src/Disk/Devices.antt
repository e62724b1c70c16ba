-- ===== src/Disk/Devices.antt =====
-- The list of disks in CORE/src/driver/disk/disk.c.
use supernova_os.Prelude.{
  ℕ, zero, suc, ◌+◌, ◌-◌, ◌≤◌, ◌<◌, min, ◌≡◌, refl, ◌∙◌, inl, inr, some, List, [], ◌∷◌, arith, leb,
  ◌==◌, if◌then◌else◌, Bool-cases, length, get_elem?, set, take, length-set, get_elem?-set_self,
  get_elem?-set_ne,
}

-- STORAGE_DEVICE is the list of the handles of the devices in the order of their links.
-- `storage_insert`: a device is put in front.
abbrev pub storage_insert : ℕ → List ℕ → List ℕ
storage_insert device devices = device ∷ devices

-- The devices from a handle on: the handle points to a device of the list.
abbrev pub devices_from : ℕ → List ℕ → List ℕ
devices_from curr [] = []
devices_from curr (d ∷ ds) = if d == curr then d ∷ ds else devices_from curr ds

-- `while (dev)`: the count, and what is written to the handles where there is room for them.
unfoldable pub enumerate_loop : ℕ → ℕ → List ℕ → List ℕ → ℕ × List ℕ
enumerate_loop count cnt handles [] = (cnt, handles)
enumerate_loop count cnt handles (dev ∷ next) =
    let later = enumerate_loop count (suc cnt) (set handles cnt dev) next in
    if leb count cnt then (cnt, handles) else later

-- `storage_enumerate` in kernel mode, with an array of handles. The count is written back.
unfoldable pub storage_enumerate : List ℕ → ℕ → List ℕ → ℕ → ℕ × List ℕ
storage_enumerate devices curr handles count =
    enumerate_loop count 0 handles (if curr == 0 then devices else devices_from curr devices)

-- The cells from `cnt` on hold a list.
abbrev pub Holds {ℓ} : {A : Type ℓ} → List A → ℕ → List A → Type ℓ
Holds handles cnt [] = Unit {ℓ}
Holds handles cnt (d ∷ ds) = (get_elem? handles cnt ≡ some d) × Holds handles (suc cnt) ds

loop_step :
    (count cnt : ℕ) (handles : List ℕ) (dev : ℕ) (next : List ℕ)
    → (enumerate_loop count cnt handles (dev ∷ next) ≡ (
        if leb count cnt
        then (cnt, handles)
        else enumerate_loop count (suc cnt) (set handles cnt dev) next))
unfolding enumerate_loop
loop_step count cnt handles dev next = refl

-- A cell in front of the place of the loop keeps its handle.
kept :
    (count cnt : ℕ) (handles ds : List ℕ) (i : ℕ)
    → i < cnt
    → get_elem? (enumerate_loop count cnt handles ds).1 i ≡ get_elem? handles i
kept count cnt handles [] i h = unfold enumerate_loop in refl
kept count cnt handles (d ∷ ds) i h =
    let rest = kept count (suc cnt) (set handles cnt d) ds i (omega arith) in
    let same = get_elem?-set_ne handles cnt i d (λ e. omega arith) in
    rw (loop_step count cnt handles d ds)
      (elim (Bool-cases (leb count cnt)) [ inl e ↦ rw e refl | inr e ↦ rw e (rest ∙ same) ])

take-nil : (n : ℕ) → take {A = ℕ} n [] ≡ []
take-nil zero = refl
take-nil (suc n) = refl

loop-Holds :
    (count cnt room : ℕ) (handles ds : List ℕ)
    → cnt + room ≡ count
    → count ≤ length handles
    → let r = enumerate_loop count cnt handles ds in
      (r.0 ≡ min count (cnt + length ds)) × Holds r.1 cnt (take room ds)
loop-Holds count cnt room handles [] h l =
    unfold enumerate_loop in rw (take-nil room) (omega arith, tt)
loop-Holds count cnt room handles (d ∷ ds) h l =
    rw (loop_step count cnt handles d ds) (elim (Bool-cases (leb count cnt)) [
      | inl e ↦ let z : room ≡ 0 = ground arith in rw (e, z) (ground arith, tt)
      | inr e ↦
          let z : room ≡ suc (room - 1) = ground arith in
          let rest =
            loop-Holds count (suc cnt) (room - 1) (set handles cnt d) ds (ground arith)
              (omega (arith, l, length-set handles cnt d)) in
          let here =
            kept count (suc cnt) (set handles cnt d) ds cnt (omega arith)
            ∙ get_elem?-set_self handles cnt d (ground arith) in
          rw (e, z) (omega (arith, rest.0), (here, rest.1))
    ])

-- The devices from the handle on, or all of them for the handle 0, are written to the array as far as
-- the count allows, and the count becomes how many they are.
pub storage_enumerate-Holds :
    (devices : List ℕ) (curr : ℕ) (handles : List ℕ) (count : ℕ)
    → count ≤ length handles
    → let r = storage_enumerate devices curr handles count in
      let found = if curr == 0 then devices else devices_from curr devices in
      (r.0 ≡ min count (length found)) × Holds r.1 0 (take count found)
unfolding storage_enumerate
storage_enumerate-Holds devices curr handles count l =
    let found = if curr == 0 then devices else devices_from curr devices in
    let (n, h) = loop-Holds count 0 count handles found (omega arith) l in (omega (arith, n), h)
