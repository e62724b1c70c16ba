-- ===== src/Mm/Area.antt =====
-- The areas of a process in CORE/src/mm/vmm.c: `vmm_alloc` with `virt` set, for the types that one
-- node answers.
use supernova_os.Prelude.{
  ℕ, zero, suc, ◌+◌, ◌-◌, ◌*◌, ◌/◌, ◌%◌, ◌^◌, ◌≤◌, ◌<◌, min, max, bit_and, bit_or, bit_xor, ◌≡◌,
  refl, sym, ap, ◌∙◌, ◌≢◌, ◌↔◌, ◌⊎◌, inl, inr, Bool, true, false, not, ◌&&◌, ◌||◌, Option, none,
  some, List, [], ◌∷◌, ◌++◌, map, append_assoc, append-nil, arith, ltb, leb, ◌==◌, if◌then◌else◌,
  nonzero, ltb→lt, ltb→le, lt→ltb, le→ltb, leb→le, ==_iff, Bool-cases, Option-cases, length,
  get_elem?, get_or, set, take, drop, replicate, All, length-append, length-replicate, length-set,
  length-take, get_elem?-set_self, get_elem?-set_ne, get_elem?_out, get_elem?-append_left,
  get_elem?-append_right,
}
pub mod Remove
pub mod Retype
pub mod Search
pub mod Claim
pub mod Commit
mod Tests
use supernova_os.Prelude.Words.{add64, sub64}
use supernova_os.Mm.Block.{Block, end, pmm_insert_link}
use supernova_os.Mm.Physical.{alloc_addr}

-- `VMM_TYPE_RESERVE`, `VMM_TYPE_COMMIT` and `VMM_TYPE_COMMITXF`.
pub data AreaType : Type 0 where
  reserve : AreaType
  commit : AreaType
  commit_free : AreaType

-- `TYPE` of the nodes that are not passed over.
abbrev pub wanted : AreaType → ℕ
wanted reserve = 0
wanted commit = 1
wanted commit_free = 0

-- `blkType`
abbrev pub blk_type : AreaType → ℕ
blk_type reserve = 1
blk_type commit = 2
blk_type commit_free = 2

-- The node that ends the loop, `allocAddr` in it, and the list without it: `pmm_delete_link`.
pub record Picked : Type 0 where
  pub node : Block
  pub at : ℕ
  pub left : List Block

abbrev pub skip_node : Block → Option Picked → Option Picked
skip_node node none = none
skip_node node (some p) = some (record p { left = node ∷ p.left })

-- The loop over the nodes up to the one that is of the wanted type and large enough.
unfoldable pub pick_from : ℕ → ℕ → ℕ → AreaType → List Block → Option Picked
pick_from addr pages align typ [] = none
pick_from addr pages align typ (node ∷ rest) =
    let later = skip_node node (pick_from addr pages align typ rest) in
    if leb (end node) (alloc_addr node addr align)
    then later
    else if not (node.typ == wanted typ)
    then later
    else if ltb ((end node - alloc_addr node addr align) / 4096) pages
    then later
    else some (record { node = node; at = alloc_addr node addr align; left = rest })

-- A part of the node is inserted where it is not empty.
unfoldable pub put_part : List Block → Block → List Block
put_part map part = if nonzero part.size then pmm_insert_link map part else map

-- The parts in front of the pages, of the pages, and behind them.
abbrev pub left_part : Block → ℕ → Block
left_part node at = record node { size = at - node.addr }

abbrev pub mid_part : Block → ℕ → ℕ → AreaType → Block
mid_part node at pages typ = record node { addr = at; size = pages * 4096; typ = blk_type typ }

abbrev pub right_part : Block → ℕ → ℕ → Block
right_part node at pages = record node {
  addr = at + pages * 4096;
  size = end node - at - pages * 4096;
}

unfoldable pub retype : Picked → ℕ → AreaType → List Block
retype p pages typ =
    put_part (put_part (put_part p.left (left_part p.node p.at)) (mid_part p.node p.at pages typ))
      (right_part p.node p.at pages)

abbrev pub after_pick : List Block → ℕ → AreaType → Option Picked → ℕ × ℕ × List Block
after_pick map pages typ none = (1, 0, map)
after_pick map pages typ (some p) = (0, sub64 (add64 p.at pages) pages, retype p pages typ)

-- `vmm_alloc(root, addr, pageCount, align, type, 1)`: the value returned, `*addr` and the map.
unfoldable pub vmm_alloc_area : List Block → ℕ → ℕ → ℕ → AreaType → ℕ × ℕ × List Block
vmm_alloc_area map addr0 pages align typ =
    let addr = add64 addr0 0xfff / 4096 * 4096 in
    if pages == 0
    then (0, addr, map)
    else if ltb 63 align
    then (1, 0, map)
    else after_pick map pages typ (pick_from addr pages align typ map)
