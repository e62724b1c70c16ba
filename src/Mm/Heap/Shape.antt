-- ===== src/Mm/Heap/Shape.antt =====
-- What makes a list of heads a heap of CORE/src/mm/vmm.c, and the blocks in use.
use supernova_os.Prelude.{
  ℕ, ◌+◌, ◌%◌, ◌≤◌, ◌≡◌, refl, Bool, true, false, List, [], ◌∷◌, if◌then◌else◌,
}
use supernova_os.Mm.Heap.{size_of, using}

-- The flags of the first head.
abbrev pub first : List ℕ → ℕ
first [] = 0
first (h ∷ r) = h % 8

-- The last block alone is flagged so and is free; no two free blocks stand together.
abbrev pub IsHeap : List ℕ → Type 0
IsHeap [] = ⊥
IsHeap (h ∷ []) = h % 8 ≡ 2
IsHeap (h ∷ n ∷ r) = (h % 8 ≤ 1) × (h % 8 ≡ 0 → n % 8 ≡ 1) × IsHeap (n ∷ r)

pub IsHeap-cons :
    (h : ℕ) (t : List ℕ) → h % 8 ≤ 1 → (h % 8 ≡ 0 → first t ≡ 1) → IsHeap t → IsHeap (h ∷ t)
IsHeap-cons h [] f g i = absurd i
IsHeap-cons h (n ∷ r) f g i = (f, g, i)

-- The bytes of a heap, heads included.
abbrev pub extent : List ℕ → ℕ
extent [] = 0
extent (h ∷ r) = 8 + size_of h + extent r

-- The addresses and sizes of the blocks in use, of a heap that begins at `base`.
abbrev pub used : ℕ → List ℕ → List (ℕ × ℕ)
used base [] = []
used base (h ∷ r) =
    if using h
    then (base + 8, size_of h) ∷ used (base + 8 + size_of h) r
    else used (base + 8 + size_of h) r

pub used-using :
    (base h : ℕ) (r : List ℕ)
    → using h ≡ true
    → used base (h ∷ r) ≡ (base + 8, size_of h) ∷ used (base + 8 + size_of h) r
used-using base h r e = rw e refl

pub used_free :
    (base h : ℕ) (r : List ℕ) → using h ≡ false → used base (h ∷ r) ≡ used (base + 8 + size_of h) r
used_free base h r e = rw e refl

-- The second list is the first with one more element.
pub data Inserted {ℓ} {A : Type ℓ} (x : A) : List A → List A → Type ℓ where
  here : {l : List A} → Inserted x l (x ∷ l)
  there : {y : A} {l m : List A} → Inserted x l m → Inserted x (y ∷ l) (y ∷ m)

-- A block in front that is in use or not.
pub Inserted-if {ℓ} :
    {A : Type ℓ} (x y : A) (l m : List A) (b : Bool)
    → Inserted x l m
    → Inserted x (if b then y ∷ l else l) (if b then y ∷ m else m)
Inserted-if x y l m true i = there i
Inserted-if x y l m false i = i
