-- ===== src/Mm/Block.antt =====
-- CORE/src/mm/pmm.c: the address-ordered map of memory blocks.
pub mod Map
pub mod Canonical
use supernova_os.Prelude.{
  ℕ, zero, suc, ◌+◌, ◌-◌, ◌*◌, ◌/◌, ◌%◌, ◌^◌, ◌≤◌, ◌<◌, min, max, bit_and, bit_or, bit_xor, ◌≡◌,
  refl, sym, ap, ◌∙◌, ◌≢◌, ◌↔◌, ◌⊎◌, inl, inr, Bool, true, false, not, ◌&&◌, ◌||◌, Option, none,
  some, List, [], ◌∷◌, ◌++◌, map, append_assoc, append-nil, arith, ltb, leb, ◌==◌, if◌then◌else◌,
  nonzero, ltb→lt, ltb→le, lt→ltb, le→ltb, leb→le, ==_iff, Bool-cases, Option-cases, length,
  get_elem?, get_or, set, take, drop, replicate, All, length-append, length-replicate, length-set,
  length-take, get_elem?-set_self, get_elem?-set_ne, get_elem?_out, get_elem?-append_left,
  get_elem?-append_right,
}

-- `LINEAR_MEMORY_BLOCK`. The nodes are a list in the order of their links: NEXT of a node is the
-- node behind it and PREV the node before it.
pub record Block : Type 0 where
  pub addr : ℕ
  pub size : ℕ
  pub typ : ℕ
  pub vald : Bool

-- `ADDR + SIZE`
abbrev pub end : Block → ℕ
end b = (b.addr + b.size) % 2 ^ 64

-- `XDAT` is TYPE and VALD.
abbrev pub same_xdat : Block → Block → Bool
same_xdat a b = a.typ == b.typ && (if a.vald then b.vald else not b.vald)

-- The new `SIZE`, a field of 56 bits.
abbrev pub grown : Block → Block → ℕ
grown dst src =
    ((if ltb (end src) (end dst) then end dst else end src) + 2 ^ 64 - dst.addr) % 2 ^ 64 % 2 ^ 56

-- `dst` after the call, or `none` where the call returns 0.
unfoldable pub pmm_merge : Block → Block → Option Block
pmm_merge dst src =
    if not dst.vald || not src.vald
    then none
    else if not (same_xdat dst src)
    then none
    else if leb dst.addr src.addr && leb src.addr (end dst)
    then some (record dst { size = grown dst src })
    else none

-- A block that has grown takes the next one in, which `pmm_delete_link` unlinks.
unfoldable pub absorb_next : Block → List Block → List Block
absorb_next b [] = b ∷ []
absorb_next b (next ∷ rest) = elim (pmm_merge b next) [
  | some b' ↦ b' ∷ rest
  | none ↦ b ∷ next ∷ rest
]

-- The list behind the place that the loop has come to.
unfoldable pub pmm_insert_link : List Block → Block → List Block
pmm_insert_link [] blk = blk ∷ []
pmm_insert_link (node ∷ rest) blk = elim (pmm_merge node blk) [
  | some node' ↦ absorb_next node' rest
  | none ↦ elim (pmm_merge blk node) [
    | some blk' ↦ record node { addr = blk.addr; size = blk'.size } ∷ rest
    | none ↦ elim (leb blk.addr node.addr) [
      | true ↦ blk ∷ node ∷ rest
      | false ↦ node ∷ pmm_insert_link rest blk
    ]
  ]
]
