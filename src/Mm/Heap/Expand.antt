-- ===== src/Mm/Heap/Expand.antt =====
-- What `heap_alloc` in CORE/src/mm/vmm.c is to do to the heap, and its last block when it is expanded.
use supernova_os.Prelude.{
  ℕ, zero, suc, ◌+◌, ◌-◌, ◌*◌, ◌%◌, ◌^◌, ◌≤◌, ◌<◌, ◌≡◌, refl, sym, ◌≢◌, ◌⊎◌, inl, inr, Bool, true,
  false, Option, none, some, List, [], ◌∷◌, arith, ltb, ◌==◌, Bool-cases, Option-cases, All,
}
use supernova_os.Prelude.Words.{add64}
use supernova_os.Mm.Paging.{World, virtual_mapping}
use mathlib.Core.Path.{subst}
use supernova_os.Mm.Heap.{
  size_of, using, last, expand_heap, take_expanded, Found, allocated, refused, panic, endless,
  serves, split_block,
}
use supernova_os.Mm.Heap.Shape.{first, IsHeap, extent, used, Inserted, here, used-using, used_free}

-- The size of the last block.
abbrev pub last_size : List ℕ → ℕ
last_size [] = 0
last_size (h ∷ []) = size_of h
last_size (h ∷ n ∷ r) = last_size (n ∷ r)

-- The blocks in front of the last do not serve.
abbrev pub NoneBefore : List ℕ → ℕ → Type 0
NoneBefore [] size = Unit {0}
NoneBefore (h ∷ []) size = Unit {0}
NoneBefore (h ∷ n ∷ r) size = (serves h size ≡ false) × NoneBefore (n ∷ r) size

-- The heap `m` is `l` with a new block in use of the size, grown by `k` pages.
abbrev pub Takes : List ℕ → ℕ → ℕ → ℕ → List ℕ → ℕ → Type 0
Takes l base size addr m k =
    IsHeap m
    × (first l ≡ 1 → first m ≡ 1)
    × Inserted (addr, size) (used base l) (used base m)
    × (extent m ≡ extent l + k * 4096)

-- The heap is to grow by `k` pages or more: no block in front of the last serves, and one page less is
-- not more than the size. In user mode only a last block of just the size grows.
abbrev pub Needs : Bool → List ℕ → ℕ → ℕ → Type 0
Needs user l size k =
    (last_size l + k * 4096 ≤ size + 4096) × (user ≡ true → last_size l ≡ size) × NoneBefore l size

module _ {S : Type 0} (alloc : S → ℕ × S) (cr3 : ℕ) where
  -- A page of free memory is mapped at `end`.
  abbrev pub Expands : ℕ → World S → World S → Type 0
  Expands end w w' =
      ((alloc w.pages).0 ≢ 0)
      × (virtual_mapping alloc cr3 (alloc w.pages).0 end 1 0 2
            (record w { pages = (alloc w.pages).1 })
          ≡ some w')

  -- There is no page, or none for a table.
  abbrev pub Stuck : ℕ → World S → Type 0
  Stuck end w =
      ((alloc w.pages).0 ≡ 0)
      ⊎ (virtual_mapping alloc cr3 (alloc w.pages).0 end 1 0 2
            (record w { pages = (alloc w.pages).1 })
          ≡ none)

  -- So are `k` pages, one behind the other.
  abbrev pub Expanded : ℕ → ℕ → World S → World S → Type 0
  Expanded zero end w w' = w' ≡ w
  Expanded (suc k) end w w' = (w1 : World S) × Expands end w w1 × Expanded k (end + 4096) w1 w'

  -- What a search for `size` bytes is to do to the heap `l`.
  abbrev pub Serves : Bool → List ℕ → ℕ → ℕ → World S → Found S → Type 0
  Serves user l base size w (allocated addr m w') =
      (k : ℕ) × Takes l base size addr m k
      × Expanded k (base + extent l) w w'
      × (0 < k → Needs user l size k)
  Serves user l base size w refused = (user ≡ true) × All (λ h. serves h size ≡ false) l
  Serves user l base size w panic =
      (k : ℕ) × (w1 : World S) × Expanded k (base + extent l) w w1
      × Stuck (base + extent l + k * 4096) w1
      × Needs user l size (k + 1)
  Serves user l base size w endless = ⊥

abbrev rest_head : ℕ → ℕ → ℕ
rest_head h size = size_of h - size - 8 + h % 8

used-split_block :
    (base size h : ℕ) (rest : List ℕ)
    → size % 8 ≡ 0
    → serves h size ≡ true
    → used base (split_block h size rest) ≡ (base + 8, size) ∷ used (base + 8 + size_of h) rest
used-split_block base size h rest hs s = elim (Bool-cases (ltb size (size_of h))) [
  | inl e ↦
      let free : using (rest_head h size) ≡ false = ground arith in
      let same : size_of (size + 1) ≡ size = omega arith in
      let behind : base + 8 + size + 8 + size_of (rest_head h size) ≡ base + 8 + size_of h =
        ground arith in
      rw e (
        rw
          (
            used-using base (size + 1) (rest_head h size ∷ rest) (ground arith),
            same,
            used_free (base + 8 + size) (rest_head h size) rest free,
            behind,
          )
          refl)
  | inr e ↦
      let same : size_of (h + 1) ≡ size = ground arith in
      let whole : size_of h ≡ size = ground arith in
      rw e (rw (used-using base (h + 1) rest (ground arith), same, whole) refl)
]

IsHeap-split_block :
    (size h : ℕ) (rest : List ℕ)
    → IsHeap (h ∷ rest)
    → size % 8 ≡ 0
    → serves h size ≡ true
    → (last h ≡ true → size < size_of h)
    → IsHeap (split_block h size rest)
IsHeap-split_block size h [] i hs s l =
    let e : ltb size (size_of h) ≡ true = ground arith in
    rw e (omega arith, (λ q. ground arith), ground arith)
IsHeap-split_block size h (n ∷ r) (f, g, i) hs s l = elim (Bool-cases (ltb size (size_of h))) [
  | inl e ↦ rw e (omega arith, (λ q. ground arith), (ground arith, (λ q. ground arith), i))
  | inr e ↦ rw e (ground arith, (λ q. ground arith), i)
]

split_block-Takes :
    (base size h : ℕ) (rest : List ℕ)
    → IsHeap (h ∷ rest)
    → size % 8 ≡ 0
    → serves h size ≡ true
    → (last h ≡ true → size < size_of h)
    → Takes (h ∷ rest) base size (base + 8) (split_block h size rest) 0
split_block-Takes base size h rest i hs s l = (
  IsHeap-split_block size h rest i hs s l,
  (λ e. ground arith),
  rw (used-split_block base size h rest hs s, used_free base h rest (ground arith)) here,
  ground arith,
)

-- The last block after it has been expanded.
expanded-Takes :
    (base size addr k h : ℕ) (m : List ℕ)
    → h % 8 ≡ 2
    → Takes ((h + 4096) ∷ []) base size addr m k
    → Takes (h ∷ []) base size addr m (suc k)
expanded-Takes base size addr k h m f (i, g, u, x) = (
  i,
  (λ e. ground arith),
  rw (used_free base h [] (ground arith)) (rw⁻¹ (used_free base (h + 4096) [] (ground arith)) u),
  ground arith,
)

last_of : (h : ℕ) (rest : List ℕ) → IsHeap (h ∷ rest) → last h ≡ true → rest ≡ []
last_of h [] i e = refl
last_of h (n ∷ r) (f, g, i) e = absurd (ground arith)

module _ {S : Type 0} (alloc : S → ℕ × S) (cr3 : ℕ) where
  abbrev pub Expansion : ℕ → ℕ → World S → Option (ℕ × World S) → Type 0
  Expansion end h w none = Stuck alloc cr3 end w
  Expansion end h w (some (h', w')) = (h' ≡ add64 h 0x1000) × Expands alloc cr3 end w w'

  pub expand_heap-Expansion :
      (end h : ℕ) (w : World S) → Expansion end h w (expand_heap alloc cr3 end h w)
  unfolding expand_heap
  expand_heap-Expansion end h w = elim (Bool-cases ((alloc w.pages).0 == 0)) [
    | inl z ↦ rw z (inl (ground arith))
    | inr z ↦
        rw z
          (elim (Option-cases (
            virtual_mapping alloc cr3 (alloc w.pages).0 end 1 0 2
              (record w { pages = (alloc w.pages).1 }))) [
                | inl e ↦ rw e (inr e)
                | inr (w', e) ↦ rw e (refl, ((λ q. ground (arith, q)), e))
              ])
  ]

  -- A block of the heap is large enough.
  pub block-Serves :
      (user : Bool) (base size h : ℕ) (rest : List ℕ) (w : World S)
      → IsHeap (h ∷ rest)
      → size % 8 ≡ 0
      → serves h size ≡ true
      → (last h ≡ true → size < size_of h)
      → Serves alloc cr3 user
          (h ∷ rest)
          base
          size
          w
          (allocated (base + 8) (split_block h size rest) w)
  block-Serves user base size h rest w i hs s l =
      (0, split_block-Takes base size h rest i hs s l, refl, (λ q. absurd (omega arith)))

  -- A last block of just the size.
  pub exact-Serves :
      (user : Bool) (base size h : ℕ) (w : World S) (o : Option (ℕ × World S))
      → h % 8 ≡ 2
      → size % 8 ≡ 0
      → size < 2 ^ 63 + 8
      → serves h size ≡ true
      → size_of h ≡ size
      → Expansion (base + 8 + size_of h) h w o
      → Serves alloc cr3 user (h ∷ []) base size w (take_expanded alloc cr3 base size [] o)
  exact-Serves user base size h w none f hs lt s q x =
      let e : base + 8 + size_of h ≡ base + (8 + size_of h + 0) + 0 * 4096 = omega arith in
      (0, w, refl, subst (λ (a : ℕ). Stuck alloc cr3 a w) e x, (omega arith, (λ u. q), tt))
  exact-Serves user base size h w (some (h', w')) f hs lt s q (p, x) =
      let e : base + 8 + size_of h ≡ base + (8 + size_of h + 0) = omega arith in
      let z : h' ≡ h + 4096 = omega arith in
      let t = expanded-Takes base size (base + 8) 0 h (split_block (h + 4096) size []) f (
        split_block-Takes base size (h + 4096) [] (omega arith) hs (ground arith)
          (λ l. omega arith)) in
      (
        1,
        subst (λ (a : ℕ). Takes (h ∷ []) base size (base + 8) (split_block a size []) 1) (sym z) t,
        (w', subst (λ (a : ℕ). Expands alloc cr3 a w w') e x, refl),
        λ k. (omega arith, (λ u. q), tt),
      )

  -- What comes of the last block comes of it with a page less.
  pub grown-Serves :
      (base size h : ℕ) (w w' : World S) (o : Found S)
      → h % 8 ≡ 2
      → size_of h ≤ size
      → Expands alloc cr3 (base + 8 + size_of h) w w'
      → Serves alloc cr3 false ((h + 4096) ∷ []) base size w' o
      → Serves alloc cr3 false (h ∷ []) base size w o
  grown-Serves base size h w w' (allocated a m u) f le x (k, t, y, n) =
      let e : base + 8 + size_of h ≡ base + (8 + size_of h + 0) = omega arith in
      let e' : base + (8 + size_of (h + 4096) + 0) ≡ base + (8 + size_of h + 0) + 4096 =
        omega arith in
      (
        suc k,
        expanded-Takes base size a k h m f t,
        (
          w',
          subst (λ (b : ℕ). Expands alloc cr3 b w w') e x,
          subst (λ (b : ℕ). Expanded alloc cr3 k b w' u) e' y,
        ),
        λ l. (ground (arith, n), (λ q. ground (arith, q)), tt),
      )
  grown-Serves base size h w w' refused f le x (q, s) = ground (arith, q)
  grown-Serves base size h w w' panic f le x (k, u, y, st, n) =
      let e : base + 8 + size_of h ≡ base + (8 + size_of h + 0) = omega arith in
      let e' : base + (8 + size_of (h + 4096) + 0) ≡ base + (8 + size_of h + 0) + 4096 =
        omega arith in
      let e'' : base + (8 + size_of (h + 4096) + 0) + k * 4096
          ≡ base + (8 + size_of h + 0) + suc k * 4096 =
        omega arith in
      (
        suc k,
        u,
        (
          w',
          subst (λ (b : ℕ). Expands alloc cr3 b w w') e x,
          subst (λ (b : ℕ). Expanded alloc cr3 k b w' u) e' y,
        ),
        subst (λ (b : ℕ). Stuck alloc cr3 b u) e'' st,
        (omega (arith, n.0), (λ q. ground (arith, q)), tt),
      )
  grown-Serves base size h w w' endless f le x s = s
