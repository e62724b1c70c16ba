-- ===== src/Mm/Heap/Free.antt =====
-- What `heap_free` in CORE/src/mm/vmm.c does to the heap.
use supernova_os.Prelude.{
  ℕ, ◌+◌, ◌%◌, ◌≤◌, ◌<◌, ◌≡◌, refl, sym, ap, ◌∙◌, ◌≢◌, ◌⊎◌, inl, inr, true, false, List, [], ◌∷◌,
  arith, ◌==◌, if◌then◌else◌, Bool-cases,
}
use supernova_os.Mm.Heap.{size_of, using, last, release, merge_next, free_behind, heap_free}
use supernova_os.Mm.Heap.Shape.{first, IsHeap, IsHeap-cons, extent, used, used-using, used_free}

-- The blocks in use but the one at an address.
abbrev pub drop_addr : ℕ → List (ℕ × ℕ) → List (ℕ × ℕ)
drop_addr a [] = []
drop_addr a ((x, s) ∷ r) = if x == a then drop_addr a r else (x, s) ∷ drop_addr a r

-- No block in use is in front of the heap.
drop_addr-used : (a base : ℕ) (l : List ℕ) → a < base + 8 → drop_addr a (used base l) ≡ used base l
drop_addr-used a base [] h = refl
drop_addr-used a base (x ∷ l) h =
    let rest = drop_addr-used a (base + 8 + size_of x) l (omega arith) in
    elim (Bool-cases (using x)) [
      | inl e ↦
          let ne : (base + 8 == a) ≡ false = ground arith in
          rw (used-using base x l e, ne, rest) refl
      | inr e ↦ rw (used_free base x l e) rest
    ]

-- `m` is the heap `l` behind a free block `h` that is not the last, which may be merged with the next.
record Merged (base h : ℕ) (l m : List ℕ) : Type 0 where
  heap : IsHeap m
  blocks : used base m ≡ used (base + 8 + size_of h) l
  bytes : extent m ≡ 8 + size_of h + extent l

first_using : (n : ℕ) (r : List ℕ) → IsHeap (n ∷ r) → using n ≡ true → n % 8 ≡ 1
first_using n [] i u = absurd (ground arith)
first_using n (k ∷ r) (f, g, i) u = ground arith

first_free : (n : ℕ) (r : List ℕ) → IsHeap (n ∷ r) → using n ≡ false → (n % 8 ≡ 0) ⊎ (n % 8 ≡ 2)
first_free n [] i u = inr i
first_free n (k ∷ r) (f, g, i) u = ground arith

IsHeap-join :
    (h n : ℕ) (r : List ℕ)
    → h % 8 ≡ 0
    → IsHeap (n ∷ r)
    → using n ≡ false
    → IsHeap ((h + 8 + size_of n + n % 8) ∷ r)
IsHeap-join h n [] e i u = omega arith
IsHeap-join h n (k ∷ r) e (f, g, i) u = (ground arith, (λ q. ground arith), i)

merge_using : (h n : ℕ) (r : List ℕ) → h % 8 ≡ 0 → using n ≡ true → merge_next h (n ∷ r) ≡ h ∷ n ∷ r
unfolding merge_next
merge_using h n r e u = ground arith

merge_free :
    (h n : ℕ) (r : List ℕ)
    → h % 8 ≡ 0
    → using n ≡ false
    → merge_next h (n ∷ r) ≡ (h + 8 + size_of n + n % 8) ∷ r
unfolding merge_next
merge_free h n r e u = ground arith

merge_next-Merged :
    (base h : ℕ) (l : List ℕ) → h % 8 ≡ 0 → IsHeap l → Merged base h l (merge_next h l)
merge_next-Merged base h [] e i = absurd i
merge_next-Merged base h (n ∷ r) e i = elim (Bool-cases (using n)) [
  | inl u ↦ rw (merge_using h n r e u) (record {
    heap = IsHeap-cons h (n ∷ r) (omega arith) (λ q. first_using n r i u) i;
    blocks = used_free base h (n ∷ r) (ground arith);
    bytes = refl;
  })
  | inr u ↦ rw (merge_free h n r e u) (record {
    heap = IsHeap-join h n r e i u;
    blocks =
        used_free base (h + 8 + size_of n + n % 8) r (ground (arith, first_free n r i u))
        ∙ ap (λ b. used b r) (ground (arith, first_free n r i u))
        ∙ sym (used_free (base + 8 + size_of h) n r u);
    bytes = ground (arith, first_free n r i u);
  })
]

-- The heap `l` after a call that frees the block at `a`.
pub record Freed (base a : ℕ) (l m : List ℕ) : Type 0 where
  pub heap : IsHeap m
  pub blocks : used base m ≡ drop_addr a (used base l)
  pub bytes : extent m ≡ extent l

drop_here :
    (base a h : ℕ) (l : List ℕ)
    → a ≡ base + 8
    → drop_addr a (used base (h ∷ l)) ≡ used (base + 8 + size_of h) l
drop_here base a h l e =
    let rest = drop_addr-used a (base + 8 + size_of h) l (omega arith) in
    elim (Bool-cases (using h)) [
      | inl u ↦
          let same : (base + 8 == a) ≡ true = ground arith in rw (used-using base h l u, same) rest
      | inr u ↦ rw (used_free base h l u) rest
    ]

drop_behind :
    (base a h : ℕ) (l m : List ℕ)
    → a ≢ base + 8
    → used (base + 8 + size_of h) m ≡ drop_addr a (used (base + 8 + size_of h) l)
    → used base (h ∷ m) ≡ drop_addr a (used base (h ∷ l))
drop_behind base a h l m ne q = elim (Bool-cases (using h)) [
  | inl u ↦
      let differ : (base + 8 == a) ≡ false = ground (arith, ne) in
      rw (used-using base h l u, used-using base h m u, differ, q) refl
  | inr u ↦ rw (used_free base h l u, used_free base h m u) q
]

Freed-cons :
    (base a h : ℕ) (l m : List ℕ)
    → a ≢ base + 8
    → h % 8 ≤ 1
    → (h % 8 ≡ 0 → first m ≡ 1)
    → Freed (base + 8 + size_of h) a l m
    → Freed base a (h ∷ l) (h ∷ m)
Freed-cons base a h l m ne f g k = record {
  heap = IsHeap-cons h m f g k.heap;
  blocks = drop_behind base a h l m ne k.blocks;
  bytes = omega (arith, k.bytes);
}

-- The block at the address, behind no block or one in use.
free_here :
    (base a h : ℕ) (l : List ℕ)
    → IsHeap (h ∷ l)
    → a ≡ base + 8
    → Freed base a (h ∷ l) (merge_next (release h) l)
free_here base a h [] i e =
    let same : release h ≡ h = omega arith in
    rw same (
      unfold merge_next in
      record {
        heap = i;
        blocks = used_free base h [] (ground arith) ∙ sym (drop_here base a h [] e);
        bytes = refl;
      })
free_here base a h (n ∷ r) (f, g, i) e =
    let m = merge_next-Merged base (release h) (n ∷ r) (omega arith) i in
    let size : size_of (release h) ≡ size_of h = omega arith in
    record {
      heap = m.heap;
      blocks =
          m.blocks
          ∙ ap (λ s. used (base + 8 + s) (n ∷ r)) size
          ∙ sym (drop_here base a h (n ∷ r) e);
      bytes = omega (arith, m.bytes);
    }

-- The block at the address, behind a free one.
free_joined :
    (base a prev h : ℕ) (l : List ℕ)
    → IsHeap (prev ∷ h ∷ l)
    → prev % 8 ≡ 0
    → a ≡ base + 8 + size_of prev + 8
    → Freed base a (prev ∷ h ∷ l) (merge_next (prev + 8 + size_of h) l)
free_joined base a prev h [] (f, g, i) z e = absurd (omega (arith, g z))
free_joined base a prev h (n ∷ r) (f, g, (j, k, i)) z e =
    let m = merge_next-Merged base (prev + 8 + size_of h) (n ∷ r) (omega arith) i in
    let place : base + 8 + size_of (prev + 8 + size_of h)
        ≡ base + 8 + size_of prev + 8 + size_of h =
      omega arith in
    record {
      heap = m.heap;
      blocks =
          m.blocks
          ∙ ap (λ b. used b (n ∷ r)) place
          ∙ sym (drop_here (base + 8 + size_of prev) a h (n ∷ r) e)
          ∙ ap (drop_addr a) (sym (used_free base prev (h ∷ n ∷ r) (ground arith)));
      bytes = omega (arith, m.bytes);
    }

behind_step :
    (prev base a h : ℕ) (l : List ℕ)
    → (free_behind prev base a (h ∷ l) ≡ (
        if base + 8 == a
        then (if using prev
            then prev ∷ merge_next (release h) l
            else merge_next (prev + 8 + size_of h) l)
        else if last h
        then prev ∷ h ∷ l
        else prev ∷ free_behind h (base + 8 + size_of h) a l))
unfolding free_behind
behind_step prev base a h l = refl

-- A block in use that the loop has passed stays the first one.
first-free_behind :
    (prev base a : ℕ) (l : List ℕ)
    → using prev ≡ true
    → first (free_behind prev base a l) ≡ prev % 8
first-free_behind prev base a [] u = unfold free_behind in refl
first-free_behind prev base a (h ∷ l) u = rw (behind_step prev base a h l) (ground arith)

-- The last block ends the loop.
Freed-nothing :
    (base a prev h : ℕ) (l : List ℕ)
    → IsHeap (prev ∷ h ∷ l)
    → last h ≡ true
    → a ≢ base + 8
    → a ≢ base + 8 + size_of prev + 8
    → Freed base a (prev ∷ h ∷ l) (prev ∷ h ∷ l)
Freed-nothing base a prev h (n ∷ r) (f, g, (j, k, i)) v ne ne' = absurd (ground arith)
Freed-nothing base a prev h [] (f, g, i) v ne ne' =
    Freed-cons base a prev (h ∷ []) (h ∷ []) ne f g (record {
      heap = i;
      blocks = drop_behind (base + 8 + size_of prev) a h [] [] ne' refl;
      bytes = refl;
    })

free_behind-Freed :
    (prev base a : ℕ) (l : List ℕ)
    → IsHeap (prev ∷ l)
    → last prev ≡ false
    → a ≢ base + 8
    → Freed base a (prev ∷ l) (free_behind prev (base + 8 + size_of prev) a l)
free_behind-Freed prev base a [] i z ne = absurd (ground arith)
free_behind-Freed prev base a (h ∷ l) (f, g, i) z ne =
    rw (behind_step prev (base + 8 + size_of prev) a h l)
      (elim (Bool-cases (base + 8 + size_of prev + 8 == a)) [
        | inl e ↦ rw e (elim (Bool-cases (using prev)) [
          | inl u ↦ rw u (
              Freed-cons base a prev (h ∷ l) (merge_next (release h) l) ne f (λ q. ground arith)
                (free_here (base + 8 + size_of prev) a h l i (ground arith)))
          | inr u ↦ rw u (free_joined base a prev h l (f, g, i) (ground arith) (ground arith))
        ])
        | inr e ↦ rw e (elim (Bool-cases (last h)) [
          | inl v ↦ rw v (Freed-nothing base a prev h l (f, g, i) v ne (ground arith))
          | inr v ↦ rw v (
              Freed-cons base a prev (h ∷ l)
                (free_behind h (base + 8 + size_of prev + 8 + size_of h) a l) ne f
                (λ q.
                  first-free_behind h (base + 8 + size_of prev + 8 + size_of h) a l
                    (ground (arith, g q))
                  ∙ g q)
                (free_behind-Freed h (base + 8 + size_of prev) a l i v (ground arith)))
        ])
      ])

only_free :
    (base a h : ℕ) (l : List ℕ)
    → IsHeap (h ∷ l)
    → last h ≡ true
    → a ≢ base + 8
    → Freed base a (h ∷ l) (h ∷ l)
only_free base a h (n ∷ r) (f, g, i) v ne = absurd (ground arith)
only_free base a h [] i v ne = record {
  heap = i;
  blocks = drop_behind base a h [] [] ne refl;
  bytes = refl;
}

free_step :
    (base a h : ℕ) (l : List ℕ)
    → a ≢ 0
    → (heap_free base a (h ∷ l) ≡ (
        if base + 8 == a
        then merge_next (release h) l
        else if last h
        then h ∷ l
        else free_behind h (base + 8 + size_of h) a l))
unfolding heap_free
free_step base a h l ne = ground arith

-- `heap_free` of an address that is not 0, of a block in use or not: the blocks in use are those that
-- were, at their places, but the one at the address, and the heap stays well formed and of its extent.
pub heap_free-Freed :
    (base a : ℕ) (l : List ℕ) → IsHeap l → a ≢ 0 → Freed base a l (heap_free base a l)
heap_free-Freed base a [] i ne = absurd i
heap_free-Freed base a (h ∷ l) i ne =
    rw (free_step base a h l ne) (elim (Bool-cases (base + 8 == a)) [
      | inl e ↦ rw e (free_here base a h l i (ground arith))
      | inr e ↦ rw e (elim (Bool-cases (last h)) [
        | inl v ↦ rw v (only_free base a h l i v (ground arith))
        | inr v ↦ rw v (free_behind-Freed h base a l i v (ground arith))
      ])
    ])
