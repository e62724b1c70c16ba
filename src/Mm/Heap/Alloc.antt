-- ===== src/Mm/Heap/Alloc.antt =====
-- What `heap_alloc` in CORE/src/mm/vmm.c does to the heap.
use supernova_os.Prelude.{
  ℕ, zero, suc, ◌+◌, ◌-◌, ◌*◌, ◌/◌, ◌%◌, ◌^◌, ◌≤◌, ◌<◌, ◌≡◌, refl, ◌⊎◌, inl, inr, Bool, true, false,
  ◌&&◌, none, some, List, [], ◌∷◌, arith, ltb, ◌==◌, if◌then◌else◌, Bool-cases, Option-cases,
}
use supernova_os.Mm.Paging.{World, virtual_mapping}
use mathlib.Core.Path.{subst}
use supernova_os.Mm.Heap.{
  size_of, using, last, expand_heap, Found, allocated, refused, panic, endless, alloc_size, serves,
  take_block, grow, after_grow, keep_block, heap_search, heap_alloc,
}
use supernova_os.Mm.Heap.Shape.{IsHeap, IsHeap-cons, extent, used, Inserted-if}
use supernova_os.Mm.Heap.Expand.{
  Stuck, Expanded, Serves, Expansion, expand_heap-Expansion, block-Serves, exact-Serves,
  grown-Serves,
}

module _ {S : Type 0} (alloc : S → ℕ × S) (cr3 : ℕ) where
  take_block-Serves :
      (user : Bool) (base size h : ℕ) (rest : List ℕ) (w : World S)
      → IsHeap (h ∷ rest)
      → size % 8 ≡ 0
      → size < 2 ^ 63 + 8
      → serves h size ≡ true
      → Serves alloc cr3 user (h ∷ rest) base size w (take_block alloc cr3 base size h rest w)
  unfolding take_block
  take_block-Serves user base size h [] w i hs lt s =
      elim (Bool-cases (last h && size_of h == size)) [
        | inl e ↦ rw e (
            exact-Serves alloc cr3 user base size h w
              (expand_heap alloc cr3 (base + 8 + size_of h) h w) i hs lt s (ground arith)
              (expand_heap-Expansion alloc cr3 (base + 8 + size_of h) h w))
        | inr e ↦ rw e (block-Serves alloc cr3 user base size h [] w i hs s (λ q. ground arith))
      ]
  take_block-Serves user base size h (n ∷ r) w (f, g, i) hs lt s =
      let e : (last h && size_of h == size) ≡ false = ground arith in
      rw e (block-Serves alloc cr3 user base size h (n ∷ r) w (f, g, i) hs s (λ q. ground arith))

  grow-Serves :
      (fuel base size h : ℕ) (w : World S)
      → h % 8 ≡ 2
      → size % 8 ≡ 0
      → size < 2 ^ 63 + 8
      → size ≤ size_of h + fuel * 4096
      → Serves alloc cr3 false
          (h ∷ [])
          base
          size
          w
          (after_grow alloc cr3 base size [] (grow alloc cr3 fuel base size h w))
  unfolding grow
  grow-Serves zero base size h w f hs lt en =
      let e : ltb (size_of h) size ≡ false = ground arith in
      let s : serves h size ≡ true = ground arith in
      rw (e, s) (take_block-Serves false base size h [] w f hs lt s)
  grow-Serves (suc fuel) base size h w f hs lt en =
      let x = expand_heap-Expansion alloc cr3 (base + 8 + size_of h) h w in
      elim (Bool-cases (ltb (size_of h) size)) [
        | inr e ↦
            let s : serves h size ≡ true = ground arith in
            rw (e, s) (take_block-Serves false base size h [] w f hs lt s)
        | inl e ↦ elim (Option-cases (expand_heap alloc cr3 (base + 8 + size_of h) h w)) [
          | inl q ↦
              let st = subst (Expansion alloc cr3 (base + 8 + size_of h) h w) q x in
              let a : base + 8 + size_of h ≡ base + (8 + size_of h + 0) + 0 * 4096 = omega arith in
              rw (e, q)
                (
                  0,
                  w,
                  refl,
                  subst (λ (b : ℕ). Stuck alloc cr3 b w) a st,
                  (ground arith, (λ u. ground (arith, u)), tt),
                )
          | inr ((h', w'), q) ↦
              let (p, ex) = subst (Expansion alloc cr3 (base + 8 + size_of h) h w) q x in
              let z : h' ≡ h + 4096 = ground arith in
              let more = grow-Serves fuel base size h' w' (omega arith) hs lt (ground arith) in
              rw (e, q)
                (grown-Serves alloc cr3 base size h w w'
                  (after_grow alloc cr3 base size [] (grow alloc cr3 fuel base size h' w')) f
                  (ground arith) ex
                  (subst
                    (λ (b : ℕ).
                      Serves alloc cr3 false (b ∷ []) base size w'
                        (after_grow alloc cr3 base size [] (grow alloc cr3 fuel base size h' w')))
                    z more))
        ]
      ]

  keep_block-Serves :
      (user : Bool) (base size h n : ℕ) (r : List ℕ) (w : World S) (o : Found S)
      → IsHeap (h ∷ n ∷ r)
      → serves h size ≡ false
      → Serves alloc cr3 user (n ∷ r) (base + 8 + size_of h) size w o
      → Serves alloc cr3 user (h ∷ n ∷ r) base size w (keep_block h o)
  keep_block-Serves user base size h n r w (allocated a m w') (f, g, i) s (k, (j, t, u, x), y, nd) =
      let e : base + 8 + size_of h + extent (n ∷ r) ≡ base + extent (h ∷ n ∷ r) = omega arith in
      (
        k,
        (
          IsHeap-cons h m f (λ e. t (g e)) j,
          (λ e. e),
          Inserted-if (a, size) (base + 8, size_of h) (used (base + 8 + size_of h) (n ∷ r))
              (used (base + 8 + size_of h) m) (using h) u,
          omega arith,
        ),
        subst (λ (b : ℕ). Expanded alloc cr3 k b w w') e y,
        λ l. let (p, q, v) = nd l in (p, q, (s, v)),
      )
  keep_block-Serves user base size h n r w refused i s (q, a) = (q, (s, a))
  keep_block-Serves user base size h n r w panic i s (k, w1, y, st, (p, q, v)) =
      let e : base + 8 + size_of h + extent (n ∷ r) ≡ base + extent (h ∷ n ∷ r) = omega arith in
      (
        k,
        w1,
        subst (λ (b : ℕ). Expanded alloc cr3 k b w w1) e y,
        subst (λ (b : ℕ). Stuck alloc cr3 (b + k * 4096) w1) e st,
        (p, q, (s, v)),
      )
  keep_block-Serves user base size h n r w endless i s a = a

  heap_search_step :
      (user : Bool) (base size h : ℕ) (rest : List ℕ) (w : World S)
      → (heap_search alloc cr3 user base size w (h ∷ rest) ≡ (
          if serves h size
          then take_block alloc cr3 base size h rest w
          else if last h
          then (if user
              then refused
              else after_grow alloc cr3 base size rest
                  (grow alloc cr3 (size / 4096 + 1) base size h w))
          else keep_block h (heap_search alloc cr3 user (base + 8 + size_of h) size w rest)))
  unfolding heap_search
  heap_search_step user base size h rest w = refl

  heap_search-Serves :
      (user : Bool) (base size : ℕ) (w : World S) (l : List ℕ)
      → IsHeap l
      → size % 8 ≡ 0
      → size < 2 ^ 63 + 8
      → Serves alloc cr3 user l base size w (heap_search alloc cr3 user base size w l)
  heap_search-Serves user base size w [] i hs lt = absurd i
  heap_search-Serves user base size w (h ∷ []) i hs lt =
      rw (heap_search_step user base size h [] w) (elim (Bool-cases (serves h size)) [
        | inl s ↦ rw s (take_block-Serves user base size h [] w i hs lt s)
        | inr s ↦
            let z : last h ≡ true = ground arith in
            rw (s, z)
              (elim user
                as (λ u. Serves alloc cr3 u (h ∷ []) base size w (
                  if u
                  then refused
                  else after_grow alloc cr3 base size []
                      (grow alloc cr3 (size / 4096 + 1) base size h w))) [
                        | true ↦ (refl, (s, tt))
                        | false ↦ grow-Serves (size / 4096 + 1) base size h w i hs lt (omega arith)
                      ])
      ])
  heap_search-Serves user base size w (h ∷ n ∷ r) (f, g, i) hs lt =
      let rest = heap_search-Serves user (base + 8 + size_of h) size w (n ∷ r) i hs lt in
      rw (heap_search_step user base size h (n ∷ r) w) (elim (Bool-cases (serves h size)) [
        | inl s ↦ rw s (take_block-Serves user base size h (n ∷ r) w (f, g, i) hs lt s)
        | inr s ↦
            let z : last h ≡ false = ground arith in
            rw (s, z)
              (keep_block-Serves user base size h n r w
                (heap_search alloc cr3 user (base + 8 + size_of h) size w (n ∷ r)) (f, g, i) s rest)
      ])

  -- The first call: a page is mapped at the base, and the heap is that page, free.
  abbrev pub Starts : Bool → ℕ → ℕ → World S → Found S → Type 0
  Starts user base size w o =
      let mapped =
        virtual_mapping alloc cr3 (alloc w.pages).0 base 1 0 2
          (record w { pages = (alloc w.pages).1 }) in
      ((mapped ≡ none) × (o ≡ panic))
      ⊎ ((w' : World S) × (mapped ≡ some w')
          × Serves alloc cr3 user ((4096 - 8 + 2) ∷ []) base size w' o)

  first-Starts :
      (user : Bool) (base n : ℕ) (w : World S)
      → n < 2 ^ 63
      → Starts user base (alloc_size n) w (heap_alloc alloc cr3 user base n w none)
  unfolding heap_alloc
  first-Starts user base n w hn =
      elim (Option-cases (
        virtual_mapping alloc cr3 (alloc w.pages).0 base 1 0 2
          (record w { pages = (alloc w.pages).1 }))) [
            | inl e ↦ rw (e, heap_alloc) (inl (refl, refl))
            | inr (w', e) ↦
                rw (e, heap_alloc)
                  (inr (
                    w',
                    refl,
                    heap_search-Serves user base (alloc_size n) w' (0xffa ∷ []) refl (omega arith)
                        (ground arith),
                  ))
          ]

  -- `heap_alloc` on a heap for fewer than 2 ^ 63 bytes: the size is at least that many and 8, and the
  -- loops end in one of three ways. An address that is returned is that of a new block in use of just
  -- the size, while the other blocks in use are where they were and the heap stays well formed; it has
  -- grown by pages of free memory that were mapped behind it one by one, if at all because no block in
  -- front of the last served, and by no page more than to leave room behind the block. A call in
  -- user mode, and no other, fails where no block serves. A call panics where the heap has to grow so,
  -- and the next page, or one for a table, is not there. In user mode only a last block of just the size
  -- grows. The first call maps the page that it is given, whether there is one or not, at the base, and panics
  -- where none is left for a table; it then does the same on the heap of that page, one free block.
  pub heap_alloc-Serves :
      (user : Bool) (base n : ℕ) (w : World S) (l : List ℕ)
      → IsHeap l
      → n < 2 ^ 63
      → (n ≤ alloc_size n)
        × (8 ≤ alloc_size n)
        × Serves alloc cr3 user l base
            (alloc_size n)
            w
            (heap_alloc alloc cr3 user base n w (some l))
        × Starts user base (alloc_size n) w (heap_alloc alloc cr3 user base n w none)
  unfolding heap_alloc
  heap_alloc-Serves user base n w l i hn = (
    ground arith,
    ground arith,
    heap_search-Serves user base (alloc_size n) w l i (omega arith) (ground arith),
    first-Starts user base n w hn,
  )
