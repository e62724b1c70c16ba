-- ===== src/Disk/Partitions.antt =====
-- The partitions of a disk in CORE/src/fs/part.c, and their types in CORE/src/fs/gpt/gpt.c.
use supernova_os.Prelude.{
  ℕ, zero, suc, ◌+◌, ◌-◌, ◌≤◌, ◌<◌, min, ◌≡◌, refl, ap, ◌∙◌, inl, inr, ◌&&◌, Option, none, some,
  List, [], ◌∷◌, arith, leb, ◌==◌, if◌then◌else◌, Bool-cases, length, get_elem?, set, take,
  length-set, get_elem?-set_self, get_elem?-set_ne,
}
use supernova_os.Disk.Devices.{Holds}

-- GPT_PART_TYPE_NULL, _UNKNOWN, _NTFS and _FAT32 are 0 to 3; a GUID is two QWORDs.
unfoldable pub gpt_part_type : ℕ → ℕ → ℕ
gpt_part_type lo hi =
    if lo == 0 && hi == 0
    then 0
    else if lo == 0x4433b9e5ebd0a0a2 && hi == 0xc79926b7b668c087
    then 2
    else if lo == 0x11d2f81fc12a7328 && hi == 0x3bc93ec9a0004bba
    then 3
    else 1

-- The loop of `partition_enumerate` over the 128 pointers of PART, `none` for one that is null: `buff`
-- is the buffer, or `none` for a null pointer.
unfoldable pub partition_loop :
    {P : Type 0} → ℕ → ℕ → Option (List P) → List (Option P) → ℕ × Option (List P)
partition_loop limit cnt buff [] = (cnt, buff)
partition_loop limit cnt buff (none ∷ parts) = partition_loop limit cnt buff parts
partition_loop limit cnt none (some p ∷ parts) = partition_loop limit (suc cnt) none parts
partition_loop limit cnt (some b) (some p ∷ parts) =
    let later = partition_loop limit (suc cnt) (some (set b cnt p)) parts in
    if leb limit cnt then (cnt, some b) else later

unfoldable pub partition_enumerate :
    {P : Type 0} → List (Option P) → Option (List P) → ℕ → ℕ × Option (List P)
partition_enumerate parts buff limit = partition_loop limit 0 buff parts

-- The partitions that there are.
abbrev pub partitions : {P : Type 0} → List (Option P) → List P
partitions [] = []
partitions (none ∷ parts) = partitions parts
partitions (some p ∷ parts) = p ∷ partitions parts

module _ {P : Type 0} where
  some_step :
      (limit cnt : ℕ) (b : List P) (p : P) (parts : List (Option P))
      → (partition_loop limit cnt (some b) (some p ∷ parts) ≡ (
          if leb limit cnt
          then (cnt, some b)
          else partition_loop limit (suc cnt) (some (set b cnt p)) parts))
  unfolding partition_loop
  some_step limit cnt b p parts = refl

  none_step :
      (limit cnt : ℕ) (b : Option (List P)) (parts : List (Option P))
      → partition_loop limit cnt b (none ∷ parts) ≡ partition_loop limit cnt b parts
  unfolding partition_loop
  none_step limit cnt b parts = refl

  count_step :
      (limit cnt : ℕ) (p : P) (parts : List (Option P))
      → partition_loop limit cnt none (some p ∷ parts) ≡ partition_loop limit (suc cnt) none parts
  unfolding partition_loop
  count_step limit cnt p parts = refl

  count_all :
      (limit cnt : ℕ) (parts : List (Option P))
      → partition_loop limit cnt none parts ≡ (cnt + length (partitions parts), none)
  count_all limit cnt [] = unfold partition_loop in ap (λ n. (n, none)) (omega arith)
  count_all limit cnt (none ∷ parts) = none_step limit cnt none parts ∙ count_all limit cnt parts
  count_all limit cnt (some p ∷ parts) =
      count_step limit cnt p parts
      ∙ count_all limit (suc cnt) parts
      ∙ ap (λ n. (n, none)) (omega arith)

  -- The cells of the buffer behind the call.
  abbrev pub cells : Option (List P) → List P
  cells none = []
  cells (some b) = b

  kept :
      (limit cnt : ℕ) (b : List P) (parts : List (Option P)) (i : ℕ)
      → i < cnt
      → get_elem? (cells (partition_loop limit cnt (some b) parts).1) i ≡ get_elem? b i
  kept limit cnt b [] i h = unfold partition_loop in refl
  kept limit cnt b (none ∷ parts) i h =
      rw (none_step limit cnt (some b) parts) (kept limit cnt b parts i h)
  kept limit cnt b (some p ∷ parts) i h =
      let rest = kept limit (suc cnt) (set b cnt p) parts i (omega arith) in
      let same = get_elem?-set_ne b cnt i p (λ e. omega arith) in
      rw (some_step limit cnt b p parts)
        (elim (Bool-cases (leb limit cnt)) [ inl e ↦ rw e refl | inr e ↦ rw e (rest ∙ same) ])

  take-none : (n : ℕ) → take {A = P} n [] ≡ []
  take-none zero = refl
  take-none (suc n) = refl

  filled :
      (limit cnt room : ℕ) (b : List P) (parts : List (Option P))
      → cnt + room ≡ limit
      → limit ≤ length b
      → let r = partition_loop limit cnt (some b) parts in
        (r.0 ≡ min limit (cnt + length (partitions parts)))
        × Holds (cells r.1) cnt (take room (partitions parts))
  filled limit cnt room b [] h l = unfold partition_loop in rw (take-none room) (omega arith, tt)
  filled limit cnt room b (none ∷ parts) h l =
      rw (none_step limit cnt (some b) parts) (filled limit cnt room b parts h l)
  filled limit cnt room b (some p ∷ parts) h l =
      rw (some_step limit cnt b p parts) (elim (Bool-cases (leb limit cnt)) [
        | inl e ↦ let z : room ≡ 0 = ground arith in rw (e, z) (ground arith, tt)
        | inr e ↦
            let z : room ≡ suc (room - 1) = ground arith in
            let rest =
              filled limit (suc cnt) (room - 1) (set b cnt p) parts (ground arith)
                (omega (arith, l, length-set b cnt p)) in
            let here =
              kept limit (suc cnt) (set b cnt p) parts cnt (omega arith)
              ∙ get_elem?-set_self b cnt p (ground arith) in
            rw (e, z) (omega (arith, rest.0), (here, rest.1))
      ])

  -- Without a buffer the partitions are counted, whatever the limit; with one that has room for as many
  -- as the limit, the first ones up to the limit are copied to it and counted.
  pub partition_enumerate-Holds :
      (parts : List (Option P)) (b : List P) (limit : ℕ)
      → limit ≤ length b
      → let r = partition_enumerate parts (some b) limit in
        (partition_enumerate parts none limit ≡ (length (partitions parts), none))
        × (r.0 ≡ min limit (length (partitions parts)))
        × Holds (cells r.1) 0 (take limit (partitions parts))
  unfolding partition_enumerate
  partition_enumerate-Holds parts b limit l =
      let (n, h) = filled limit 0 limit b parts (omega arith) l in
      (count_all limit 0 parts ∙ ap (λ k. (k, none)) (omega arith), omega (arith, n), h)
