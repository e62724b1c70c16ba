-- ===== src/Mm/Physical.antt =====
-- The allocation of physical pages in CORE/src/mm/vmm.c: `vmm_alloc` on the map of free memory.
use supernova_os.Prelude.{
  ℕ, zero, suc, ◌+◌, ◌-◌, ◌*◌, ◌/◌, ◌%◌, ◌^◌, ◌≤◌, ◌<◌, min, max, bit_and, bit_or, bit_xor, ◌≡◌,
  refl, sym, ap, ◌∙◌, ◌≢◌, ◌↔◌, ◌⊎◌, inl, inr, Bool, true, false, not, ◌&&◌, ◌||◌, Option, none,
  some, List, [], ◌∷◌, ◌++◌, map, append_assoc, append-nil, arith, ltb, leb, ◌==◌, if◌then◌else◌,
  nonzero, ltb→lt, ltb→le, lt→ltb, le→ltb, leb→le, ==_iff, Bool-cases, Option-cases, length,
  get_elem?, get_or, set, take, drop, replicate, All, length-append, length-replicate, length-set,
  length-take, get_elem?-set_self, get_elem?-set_ne, get_elem?_out, get_elem?-append_left,
  get_elem?-append_right,
}
pub mod Align
pub mod Split
pub mod Search
pub mod Allocate
use supernova_os.Prelude.Words.{add64, sub64}
use supernova_os.Mm.Block.{Block, end, pmm_insert_link}

-- `x += (1ULL << align) - 1; x &= ~((1ULL << align) - 1)`
unfoldable pub align_up : ℕ → ℕ → ℕ
align_up x align = add64 x (2 ^ align - 1) / 2 ^ align * 2 ^ align

-- A node fresh from `vmm_alloc_node`, with its address and size.
abbrev pub fresh_block : ℕ → ℕ → Block
fresh_block addr size = record { addr = addr; size = size; typ = 0; vald = true }

-- Where the pages were taken, the map without them, and the block behind them that is still to be
-- inserted where a block in front of them is left.
pub record Taken : Type 0 where
  pub at : ℕ
  pub left : List Block
  pub spare : Option Block

-- `allocAddr`
abbrev pub alloc_addr : Block → ℕ → ℕ → ℕ
alloc_addr node addr align = align_up (if ltb node.addr addr then addr else node.addr) align

-- The branch of a node that is large enough, `virt` being 0.
unfoldable pub split_node : Block → List Block → ℕ → ℕ → Taken
split_node node rest at pages =
    let size = end node - at - pages * 4096 in
    let new_addr = end node - size in
    if not (at == node.addr)
    then record {
      at = at;
      left = record node { size = at - node.addr } ∷ rest;
      spare = if nonzero size then some (fresh_block new_addr size) else none;
    }
    else if nonzero size
    then record {
      at = at;
      left = record node { addr = new_addr; size = size } ∷ rest;
      spare = none;
    }
    else record { at = at; left = rest; spare = none }

abbrev pub keep_node : Block → Option Taken → Option Taken
keep_node node none = none
keep_node node (some t) = some (record t { left = node ∷ t.left })

-- The loop over the nodes: with `virt` 0 the first node that is large enough ends it.
unfoldable pub take_from : ℕ → ℕ → ℕ → List Block → Option Taken
take_from addr pages align [] = none
take_from addr pages align (node ∷ rest) =
    let later = keep_node node (take_from addr pages align rest) in
    if leb (end node) (alloc_addr node addr align)
    then later
    else if ltb ((end node - alloc_addr node addr align) / 4096) pages
    then later
    else some (split_node node rest (alloc_addr node addr align) pages)

-- The map when the spare block is inserted.
unfoldable pub put_back : Taken → List Block
put_back t = elim t.spare [ none ↦ t.left | some s ↦ pmm_insert_link t.left s ]

-- `vmm_alloc(root, addr, pageCount, align, VMM_TYPE_RESERVE, 0)`: the value returned, `*addr` and
-- the map. The last line of a successful call takes from `*addr` the page count that was added.
abbrev pub after_take : List Block → ℕ → Option Taken → ℕ × ℕ × List Block
after_take map pages none = (1, 0, map)
after_take map pages (some t) = (0, sub64 (add64 t.at pages) pages, put_back t)

unfoldable pub vmm_alloc : List Block → ℕ → ℕ → ℕ → ℕ × ℕ × List Block
vmm_alloc map addr0 pages align =
    let addr = add64 addr0 0xfff / 4096 * 4096 in
    if pages == 0
    then (0, addr, map)
    else if ltb 63 align
    then (1, 0, map)
    else after_take map pages (take_from addr pages align map)

-- The address, 0 for a failure, and the map.
unfoldable pub alloc_physical_memory : List Block → ℕ → ℕ → ℕ × List Block
alloc_physical_memory map pages align = let r = vmm_alloc map 0 pages align in (r.1, r.2)

-- `vmm_free` on the map of free memory.
unfoldable pub free_physical_memory : List Block → ℕ → ℕ → List Block
free_physical_memory map addr pages =
    pmm_insert_link map (fresh_block addr (pages * 4096 % 2 ^ 64 % 2 ^ 56))
