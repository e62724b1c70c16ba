-- ===== src/Mm/Paging/Supply.antt =====
-- The page that alloc_physical_memory of CORE/src/mm/vmm.c gives to the page tables.
use supernova_os.Prelude.{
  ℕ, ◌+◌, ◌-◌, ◌*◌, ◌/◌, ◌%◌, ◌^◌, ◌≤◌, ◌<◌, ◌≡◌, refl, sym, ap, ◌∙◌, ◌≢◌, ◌⊎◌, inl, inr, Option,
  none, some, List, [], ◌∷◌, map, arith, ◌==◌, Bool-cases,
}
use mathlib.Core.Path.{subst}
use supernova_os.Mm.Block.{Block}
use supernova_os.Mm.Block.Map.{IsBlock, Heads, IsMap, type_at, type_at-cons, type_at_after}
use supernova_os.Mm.Block.Canonical.{type_at_end}
use supernova_os.Mm.Physical.{
  Taken, align_up, alloc_addr, split_node, keep_node, take_from, after_take, vmm_alloc,
  alloc_physical_memory,
}
use supernova_os.Mm.Physical.Split.{without}
use supernova_os.Mm.Physical.Search.{AllFree, has_room, take_step}
use supernova_os.Mm.Physical.Allocate.{Allocated, vmm_alloc_step, vmm_alloc-Returned, type_at_bound}
use supernova_os.Mm.Paging.Fresh.{Laws}

-- The first address of a block: it is free, and the one in front of it is not.
abbrev Edge : List Block → ℕ → Type 0
Edge map at = (type_at map at ≡ some 0) × (0 < at → type_at map (at - 1) ≢ some 0)

abbrev EdgeAt : List Block → Option Taken → Type 0
EdgeAt map none = Unit {0}
EdgeAt map (some t) = Edge map t.at

head_Edge :
    (node : Block) (rest : List Block)
    → IsBlock node
    → node.typ ≡ 0
    → Heads node rest
    → IsMap rest
    → Edge (node ∷ rest) node.addr
head_Edge node rest v z hd mr =
    let w = type_at-cons node rest node.addr in
    let u = type_at-cons node rest (node.addr - 1) in
    (
      rw w (ground (arith, v.some_size)),
      λ p. rw u (λ e. ground (arith, v.some_size, type_at_after node rest (node.addr - 1) hd mr)),
    )

keep_Edge :
    (node : Block) (rest : List Block) (at : ℕ)
    → IsBlock node
    → node.typ ≡ 0
    → Heads node rest
    → IsMap rest
    → Edge rest at
    → Edge (node ∷ rest) at
keep_Edge node rest at v z hd mr (e, b) =
    let w = type_at-cons node rest at in
    let u = type_at-cons node rest (at - 1) in
    let le : node.addr + node.size ≤ at = ground (arith, type_at_after node rest at hd mr) in
    let ne : at ≢ node.addr + node.size =
      λ q. type_at_end node rest hd mr (ap (type_at rest) (sym q) ∙ e ∙ ap some (sym z)) in
    let lt : node.addr + node.size < at = omega arith in
    (rw w (ground arith), λ p. rw u (λ q. ground (arith, b p)))

alloc_addr_zero : (node : Block) → node.addr < 2 ^ 64 → alloc_addr node 0 0 ≡ node.addr
unfolding align_up
alloc_addr_zero node l = ground arith

split_node_at :
    (node : Block) (rest : List Block) (at pages : ℕ) → (split_node node rest at pages).at ≡ at
unfolding split_node
split_node_at node rest at pages = ground arith

keep_EdgeAt :
    (node : Block) (rest : List Block) (o : Option Taken)
    → IsBlock node
    → node.typ ≡ 0
    → Heads node rest
    → IsMap rest
    → EdgeAt rest o
    → EdgeAt (node ∷ rest) (keep_node node o)
keep_EdgeAt node rest none v z hd mr h = tt
keep_EdgeAt node rest (some t) v z hd mr h = keep_Edge node rest t.at v z hd mr h

-- An allocation that asks for no address takes its pages from the start of a block.
take_from-EdgeAt :
    (map : List Block) (pages : ℕ)
    → IsMap map
    → AllFree map
    → 0 < pages
    → EdgeAt map (take_from 0 pages 0 map)
take_from-EdgeAt [] pages ml fl hp = unfold take_from in tt
take_from-EdgeAt (node ∷ rest) pages (v, hd, mr) (z, fr) hp =
    rw (take_step node rest 0 pages 0 v hp) (elim (Bool-cases (has_room node 0 pages 0)) [
      | inl y ↦
          let e : (split_node node rest (alloc_addr node 0 0) pages).at ≡ node.addr =
            split_node_at node rest (alloc_addr node 0 0) pages
            ∙ alloc_addr_zero node (omega (arith, v.inside)) in
          rw y (subst (Edge (node ∷ rest)) (sym e) (head_Edge node rest v z hd mr))
      | inr y ↦ rw y (
          keep_EdgeAt node rest (take_from 0 pages 0 rest) v z hd mr
            (take_from-EdgeAt rest pages mr fr hp))
    ])

-- All addresses of a page are of one type.
abbrev pub IsWhole : List Block → Type 0
IsWhole map = (x : ℕ) → type_at map x ≡ type_at map (x / 4096 * 4096)

Edge-aligned : (map : List Block) (at : ℕ) → IsWhole map → Edge map at → at % 4096 ≡ 0
Edge-aligned map at wh (e, b) = elim (Bool-cases (at % 4096 == 0)) [
  | inl z ↦ ground arith
  | inr z ↦
      let p : (at - 1) / 4096 * 4096 ≡ at / 4096 * 4096 = ground arith in
      absurd (b (ground arith) (wh (at - 1) ∙ ap (type_at map) p ∙ sym (wh at) ∙ e))
]

-- A map of free memory in whole pages.
pub record IsSupply (map : List Block) : Type 0 where
  pub ordered : IsMap map
  pub free : AllFree map
  pub whole : IsWhole map

-- What one page comes from.
abbrev pub Page : List Block → ℕ × List Block → Type 0
Page map (at, map') = ((at ≡ 0) × (map' ≡ map)) ⊎ ((at % 4096 ≡ 0) × Allocated map 0 1 0 at map')

-- The code of a page.
abbrev pub take_page : List Block → ℕ × List Block
take_page map = alloc_physical_memory map 1 0

place_lem :
    (map : List Block)
    → IsSupply map
    → (o : Option Taken) → EdgeAt map o
    → ((after_take map 1 o).1 % 4096 ≡ 0)
      × ((after_take map 1 o).0 ≡ 1 → (after_take map 1 o).1 ≡ 0)
place_lem map i none e = (refl, λ q. refl)
place_lem map i (some t) e =
    let b = type_at_bound map t.at 0 i.ordered e.0 in
    let al = Edge-aligned map t.at i.whole e in (omega arith, λ q. absurd (omega arith))

vmm_alloc_place :
    (map : List Block)
    → IsSupply map
    → ((vmm_alloc map 0 1 0).1 % 4096 ≡ 0)
      × ((vmm_alloc map 0 1 0).0 ≡ 1 → (vmm_alloc map 0 1 0).1 ≡ 0)
vmm_alloc_place map i =
    rw (vmm_alloc_step map 0 1 0 (omega arith) (omega arith) (omega arith)) (
      place_lem map i (take_from 0 1 0 map) (take_from-EdgeAt map 1 i.ordered i.free (omega arith)))

pub take_page-Page : (map : List Block) → IsSupply map → Page map (take_page map)
unfolding alloc_physical_memory
take_page-Page map i =
    elim (vmm_alloc-Returned map 0 1 0 i.ordered i.free (omega arith) (omega arith) (omega arith)) [
      | inr (c, same, room) ↦ inl ((vmm_alloc_place map i).1 c, same)
      | inl (c, a) ↦ inr ((vmm_alloc_place map i).0, a)
    ]

-- A page that is in the map of free memory.
abbrev pub IsFree : List Block → ℕ → Type 0
IsFree map g = (g % 4096 ≡ 0) × (type_at map g ≡ some 0)

without_whole :
    (at x : ℕ) (was : Option ℕ)
    → at % 4096 ≡ 0
    → without at 1 was x ≡ without at 1 was (x / 4096 * 4096)
without_whole at x was h = ground arith

Allocated-IsSupply :
    (map map' : List Block) (at : ℕ)
    → IsSupply map
    → at % 4096 ≡ 0
    → Allocated map 0 1 0 at map'
    → IsSupply map'
Allocated-IsSupply map map' at i h a = record {
  ordered = a.left.0;
  free = a.left.1;
  whole = λ x.
      a.types x
      ∙ ap (λ (o : Option ℕ). without at 1 o x) (i.whole x)
      ∙ without_whole at x (type_at map (x / 4096 * 4096)) h
      ∙ sym (a.types (x / 4096 * 4096));
}

pub Page-keeps : (map : List Block) (r : ℕ × List Block) → IsSupply map → Page map r → IsSupply r.1
Page-keeps map (at, map') i (inl (z, same)) = subst IsSupply (sym same) i
Page-keeps map (at, map') i (inr (h, a)) = Allocated-IsSupply map map' at i h a

pub Page-place :
    (map : List Block) (r : ℕ × List Block)
    → IsSupply map
    → Page map r
    → (r.0 % 4096 ≡ 0) × (r.0 < 2 ^ 63)
Page-place map (at, map') i (inl (z, same)) = omega arith
Page-place map (at, map') i (inr (h, a)) =
    let f : type_at map at ≡ some 0 = a.free at (omega arith) (omega arith) in
    let b = type_at_bound map at 0 i.ordered f in omega arith

pub Page-IsFree : (map : List Block) (r : ℕ × List Block) → Page map r → r.0 ≢ 0 → IsFree map r.0
Page-IsFree map (at, map') (inl (z, same)) nz = absurd (nz z)
Page-IsFree map (at, map') (inr (h, a)) nz = (h, a.free at (omega arith) (omega arith))

pub Page-taken :
    (map : List Block) (r : ℕ × List Block)
    → Page map r
    → r.0 ≢ 0
    → (g : ℕ) → IsFree r.1 g
    → IsFree map g × (g ≢ r.0)
Page-taken map (at, map') (inl (z, same)) nz g f = absurd (nz z)
Page-taken map (at, map') (inr (h, a)) nz g (al, f) =
    let t : without at 1 (type_at map g) g ≡ some 0 = sym (a.types g) ∙ f in
    ((al, ground (arith, t)), λ q. ground (arith, t))

-- A map of free memory in whole pages gives its pages out one by one: the page is aligned, was free,
-- and is not free any longer, or is 0, and the map stays one in whole pages.
abbrev pub supply : Laws take_page
supply = record {
  Good = IsSupply;
  Free = IsFree;
  keeps = λ map i. Page-keeps map (take_page map) i (take_page-Page map i);
  aligned = λ map i. (Page-place map (take_page map) i (take_page-Page map i)).0;
  small = λ map i. (Page-place map (take_page map) i (take_page-Page map i)).1;
  was_free = λ map i nz. Page-IsFree map (take_page map) (take_page-Page map i) nz;
  taken = λ map i nz. Page-taken map (take_page map) (take_page-Page map i) nz;
}
