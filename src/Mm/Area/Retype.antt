-- ===== src/Mm/Area/Retype.antt =====
-- The parts that `vmm_alloc` in CORE/src/mm/vmm.c makes of a node.
use supernova_os.Prelude.{
  ℕ, ◌+◌, ◌*◌, ◌^◌, ◌≤◌, ◌<◌, ◌≡◌, inl, inr, true, ◌&&◌, Option, none, some, List, map, arith, ltb,
  leb, if◌then◌else◌, nonzero, Bool-cases,
}
use supernova_os.Mm.Block.{Block}
use supernova_os.Mm.Block.Map.{IsBlock, IsMap, in_block, type_at, insert-IsMap, type_at-insert}
use supernova_os.Mm.Block.Canonical.{type_at-Clear}
use supernova_os.Mm.Area.{
  AreaType, blk_type, Picked, put_part, left_part, mid_part, right_part, retype,
}
use supernova_os.Mm.Area.Remove.{IsRemoved, Clear-type_at}

-- A block of the map, or an empty part.
record IsPart (b : Block) : Type 0 where
  vald : b.vald ≡ true
  inside : b.addr + b.size < 2 ^ 56

Part-IsBlock : (k : Block) → IsPart k → nonzero k.size ≡ true → IsBlock k
Part-IsBlock k v e = record { vald = v.vald; some_size = ground arith; inside = v.inside }

put_part-IsMap :
    (l : List Block) (k : Block)
    → IsMap l
    → IsPart k
    → ((x : ℕ) → k.addr ≤ x → x < k.addr + k.size → type_at l x ≡ none)
    → IsMap (put_part l k)
unfolding put_part
put_part-IsMap l k ml v free = elim (Bool-cases (nonzero k.size)) [
  | inl e ↦ let b = Part-IsBlock k v e in rw e (insert-IsMap l k ml b (type_at-Clear l k ml b free))
  | inr e ↦ rw e ml
]

type_at-put_part :
    (l : List Block) (k : Block) (x : ℕ)
    → IsMap l
    → IsPart k
    → ((y : ℕ) → k.addr ≤ y → y < k.addr + k.size → type_at l y ≡ none)
    → type_at (put_part l k) x ≡ (if in_block k x then some k.typ else type_at l x)
unfolding put_part
type_at-put_part l k x ml v free = elim (Bool-cases (nonzero k.size)) [
  | inl e ↦
      let b = Part-IsBlock k v e in rw e (type_at-insert l k x ml b (type_at-Clear l k ml b free))
  | inr e ↦ rw e (ground arith)
]

-- The pages from `at` on have the type, the other addresses the one they had.
abbrev pub with_type : ℕ → ℕ → ℕ → Option ℕ → ℕ → Option ℕ
with_type at pages typ was x = if leb at x && ltb x (at + pages * 4096) then some typ else was

pub retype_lem :
    (map : List Block) (p : Picked) (pages : ℕ) (typ : AreaType)
    → IsRemoved map p.node p.left
    → p.node.addr ≤ p.at
    → p.at + pages * 4096 ≤ p.node.addr + p.node.size
    → IsMap (retype p pages typ)
      × ((x : ℕ)
          → type_at (retype p pages typ) x ≡ with_type p.at pages (blk_type typ) (type_at map x) x)
unfolding retype
retype_lem map p pages typ r lo hi =
    let a = left_part p.node p.at in
    let b = mid_part p.node p.at pages typ in
    let c = right_part p.node p.at pages in
    let va : IsPart a = record { vald = r.block.vald; inside = omega (arith, r.block.inside) } in
    let vb : IsPart b = record { vald = r.block.vald; inside = omega (arith, r.block.inside) } in
    let vc : IsPart c = record { vald = r.block.vald; inside = omega (arith, r.block.inside) } in
    let gone : (x : ℕ) → p.node.addr ≤ x → x < p.node.addr + p.node.size → type_at p.left x ≡ none =
      λ x. Clear-type_at p.node p.left x r.apart in
    let free_a : (x : ℕ) → a.addr ≤ x → x < a.addr + a.size → type_at p.left x ≡ none =
      λ x h h'. gone x (omega arith) (omega arith) in
    let ma = put_part-IsMap p.left a r.map va free_a in
    let ta = λ (x : ℕ). type_at-put_part p.left a x r.map va free_a in
    let free_b : (x : ℕ) → b.addr ≤ x → x < b.addr + b.size → type_at (put_part p.left a) x ≡ none =
      λ x h h'. rw (ta x, gone x (omega arith) (omega arith)) (ground arith) in
    let mb = put_part-IsMap (put_part p.left a) b ma vb free_b in
    let tb = λ (x : ℕ). type_at-put_part (put_part p.left a) b x ma vb free_b in
    let free_c : (x : ℕ)
        → c.addr ≤ x
        → x < c.addr + c.size
        → type_at (put_part (put_part p.left a) b) x ≡ none =
      λ x h h'.
        rw (tb x, ta x, gone x (omega arith) (omega (arith, r.block.inside)))
          (ground (arith, r.block.inside)) in
    (
      put_part-IsMap (put_part (put_part p.left a) b) c mb vc free_c,
      λ x.
          rw
            (
              type_at-put_part (put_part (put_part p.left a) b) c x mb vc free_c,
              tb x,
              ta x,
              r.types x,
            )
            (ground (arith, r.block.inside)),
    )
