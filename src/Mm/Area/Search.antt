-- ===== src/Mm/Area/Search.antt =====
-- The search for a node in `vmm_alloc` of CORE/src/mm/vmm.c with `virt` set.
use supernova_os.Prelude.{
  ℕ, ◌+◌, ◌*◌, ◌%◌, ◌^◌, ◌≤◌, ◌<◌, ◌≡◌, inl, inr, Bool, true, false, ◌&&◌, Option, none, some, List,
  [], ◌∷◌, arith, ltb, leb, ◌==◌, if◌then◌else◌, ltb→le, Bool-cases,
}
use supernova_os.Mm.Block.{Block}
use supernova_os.Mm.Block.Map.{IsBlock, IsMap, in_block, type_at, type_at-cons, type_at_after}
use supernova_os.Mm.Block.Canonical.{type_at_end}
use supernova_os.Mm.Physical.{alloc_addr}
use supernova_os.Mm.Physical.Align.{alloc_addr_least, alloc_addr_bounds}
use supernova_os.Mm.Physical.Search.{has_room}
use supernova_os.Mm.Area.{AreaType, wanted, Picked, skip_node, pick_from}
use supernova_os.Mm.Area.Remove.{IsRemoved, here-IsRemoved, skip-IsRemoved}

abbrev suits : Block → ℕ → ℕ → ℕ → ℕ → Bool
suits node addr pages align t = node.typ == t && has_room node addr pages align

pick_step :
    (node : Block) (rest : List Block) (addr pages align : ℕ) (typ : AreaType)
    → IsBlock node
    → 0 < pages
    → (pick_from addr pages align typ (node ∷ rest) ≡ (
        if suits node addr pages align (wanted typ)
        then some (record { node = node; at = alloc_addr node addr align; left = rest })
        else skip_node node (pick_from addr pages align typ rest)))
unfolding pick_from
pick_step node rest addr pages align typ v hp = ground (arith, v.inside)

-- The pages have the type.
abbrev pub Have : List Block → ℕ → ℕ → ℕ → Type 0
Have l at pages t = (x : ℕ) → at ≤ x → x < at + pages * 4096 → type_at l x ≡ some t

-- No range of pages of the type is aligned and behind what is asked for.
abbrev pub NoArea : List Block → ℕ → ℕ → ℕ → ℕ → Type 0
NoArea l addr pages align t = (at : ℕ) → at % 2 ^ align ≡ 0 → addr ≤ at → ¬ Have l at pages t

-- The node found.
pub record IsPicked (l : List Block) (addr pages align t : ℕ) (p : Picked) : Type 0 where
  pub aligned : p.at % 2 ^ align ≡ 0
  pub asked : addr ≤ p.at
  pub starts : p.node.addr ≤ p.at
  pub ends : p.at + pages * 4096 ≤ p.node.addr + p.node.size
  pub typ : p.node.typ ≡ t
  pub removed : IsRemoved l p.node p.left

abbrev pub Finds : List Block → ℕ → ℕ → ℕ → ℕ → Option Picked → Type 0
Finds l addr pages align t none = NoArea l addr pages align t
Finds l addr pages align t (some p) = IsPicked l addr pages align t p

here-IsPicked :
    (n : Block) (r : List Block) (addr pages align t : ℕ)
    → IsMap (n ∷ r)
    → addr < 2 ^ 56
    → align ≤ 63
    → suits n addr pages align t ≡ true
    → IsPicked
        (n ∷ r)
        addr
        pages
        align
        t
        (record { node = n; at = alloc_addr n addr align; left = r })
here-IsPicked n r addr pages align t (vn, hn, mr) ha hl e =
    let (lo, asked, aligned) = alloc_addr_bounds n addr align vn ha hl in
    record {
      aligned = aligned;
      asked = asked;
      starts = lo;
      ends = ground arith;
      typ = ground arith;
      removed = here-IsRemoved n r (vn, hn, mr);
    }

-- A range of pages of one type that begins in a node of the type ends there.
inside_node :
    (n : Block) (r : List Block) (pages at t : ℕ)
    → IsMap (n ∷ r)
    → 0 < pages
    → Have (n ∷ r) at pages t
    → n.addr ≤ at
    → at < n.addr + n.size
    → (n.typ ≡ t) × (at + pages * 4096 ≤ n.addr + n.size)
inside_node n r pages at t (vn, hn, mr) hp all lo hi =
    let here : (if in_block n at then some n.typ else type_at r at) ≡ some t =
      rw⁻¹ (type_at-cons n r at) (all at (omega arith) (omega arith)) in
    let same : n.typ ≡ t = ground arith in
    (
      same,
      elim (Bool-cases (leb (at + pages * 4096) (n.addr + n.size))) [
        | inl g ↦ ground arith
        | inr g ↦
            let last : (if in_block n (n.addr + n.size)
                  then some n.typ
                  else type_at r (n.addr + n.size))
                ≡ some t =
              rw⁻¹ (type_at-cons n r (n.addr + n.size))
                (all (n.addr + n.size) (omega arith) (ground arith)) in
            absurd (ground (arith, type_at_end n r hn mr))
      ],
    )

-- Pages of the type do not begin in or in front of a node that is passed over.
beyond_node :
    (n : Block) (r : List Block) (addr pages align at t : ℕ)
    → IsMap (n ∷ r)
    → 0 < pages
    → addr < 2 ^ 56
    → align ≤ 63
    → suits n addr pages align t ≡ false
    → at % 2 ^ align ≡ 0
    → addr ≤ at
    → Have (n ∷ r) at pages t
    → n.addr + n.size ≤ at
beyond_node n r addr pages align at t (vn, hn, mr) hp ha hl e al lo all =
    let here : (if in_block n at then some n.typ else type_at r at) ≡ some t =
      rw⁻¹ (type_at-cons n r at) (all at (omega arith) (omega arith)) in
    elim (Bool-cases (ltb at n.addr)) [
      | inl f ↦ absurd (ground (arith, type_at_after n r at hn mr (ground arith)))
      | inr f ↦ elim (Bool-cases (ltb at (n.addr + n.size))) [
        | inl k ↦
            let (same, ends) =
              inside_node n r pages at t (vn, hn, mr) hp all (ground arith) (ground arith) in
            absurd (ground (arith, alloc_addr_least n addr align at vn ha hl al lo (ground arith)))
        | inr k ↦ ltb→le at (n.addr + n.size) k
      ]
    ]

skip-Finds :
    (n : Block) (r : List Block) (addr pages align t : ℕ) (o : Option Picked)
    → IsMap (n ∷ r)
    → 0 < pages
    → addr < 2 ^ 56
    → align ≤ 63
    → suits n addr pages align t ≡ false
    → Finds r addr pages align t o
    → Finds (n ∷ r) addr pages align t (skip_node n o)
skip-Finds n r addr pages align t none m hp ha hl e a = λ at al lo all.
    let beyond = beyond_node n r addr pages align at t m hp ha hl e al lo all in
    a at al lo (λ x h h'.
      let here : (if in_block n x then some n.typ else type_at r x) ≡ some t =
        rw⁻¹ (type_at-cons n r x) (all x h h') in
      ground arith)
skip-Finds n r addr pages align t (some p) m hp ha hl e a = record {
  aligned = a.aligned;
  asked = a.asked;
  starts = a.starts;
  ends = a.ends;
  typ = a.typ;
  removed = skip-IsRemoved n r p.node p.left m a.removed;
}

pub pick_from-Finds :
    (l : List Block) (addr pages align : ℕ) (typ : AreaType)
    → IsMap l
    → 0 < pages
    → addr < 2 ^ 56
    → align ≤ 63
    → Finds l addr pages align (wanted typ) (pick_from addr pages align typ l)
pick_from-Finds [] addr pages align typ ml hp ha hl =
    unfold pick_from type_at in (λ at al lo all. ground (arith, all at (omega arith) (omega arith)))
pick_from-Finds (n ∷ r) addr pages align typ (vn, hn, mr) hp ha hl =
    let rest = pick_from-Finds r addr pages align typ mr hp ha hl in
    rw (pick_step n r addr pages align typ vn hp)
      (elim (Bool-cases (suits n addr pages align (wanted typ))) [
        | inl e ↦ rw e (here-IsPicked n r addr pages align (wanted typ) (vn, hn, mr) ha hl e)
        | inr e ↦ rw e (
            skip-Finds n r addr pages align (wanted typ) (pick_from addr pages align typ r)
              (vn, hn, mr) hp ha hl e rest)
      ])
