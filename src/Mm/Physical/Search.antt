-- ===== src/Mm/Physical/Search.antt =====
-- The search for a block that is large enough in `vmm_alloc` of CORE/src/mm/vmm.c.
use supernova_os.Prelude.{
  ℕ, ◌+◌, ◌*◌, ◌%◌, ◌^◌, ◌≤◌, ◌<◌, ◌≡◌, refl, sym, ◌∙◌, inl, inr, Bool, true, false, ◌&&◌, Option,
  none, some, List, [], ◌∷◌, arith, ltb, leb, if◌then◌else◌, ltb→le, Bool-cases, All,
}
use supernova_os.Mm.Block.{Block}
use supernova_os.Mm.Block.Map.{IsBlock, Heads, IsMap, in_block, type_at, type_at_after}
use supernova_os.Mm.Physical.{Taken, alloc_addr, split_node, keep_node, take_from}
use supernova_os.Mm.Physical.Align.{alloc_addr_least, alloc_addr_bounds}
use supernova_os.Mm.Physical.Split.{IsTaken, type_at_free, split_node-IsTaken, keep_node-IsTaken}

-- The node is large enough behind the aligned address.
abbrev pub has_room : Block → ℕ → ℕ → ℕ → Bool
has_room node addr pages align =
    let a = alloc_addr node addr align in
    ltb a (node.addr + node.size) && leb (a + pages * 4096) (node.addr + node.size)

pub take_step :
    (node : Block) (rest : List Block) (addr pages align : ℕ)
    → IsBlock node
    → 0 < pages
    → (take_from addr pages align (node ∷ rest) ≡ (
        if has_room node addr pages align
        then some (split_node node rest (alloc_addr node addr align) pages)
        else keep_node node (take_from addr pages align rest)))
unfolding take_from
take_step node rest addr pages align v hp = ground (arith, v.inside)

-- All blocks are of the type of free memory.
abbrev pub AllFree : List Block → Type 0
AllFree = All (λ b. b.typ ≡ 0)

-- The pages taken.
pub record Chosen (l : List Block) (addr pages align at : ℕ) (t : Taken) : Type 0 where
  pub aligned : at % 2 ^ align ≡ 0
  pub asked : addr ≤ at
  pub free : (x : ℕ) → at ≤ x → x < at + pages * 4096 → type_at l x ≡ some 0
  pub taken : IsTaken l at pages t

-- No range of free pages is aligned and behind what is asked for.
abbrev pub NoRoom : List Block → ℕ → ℕ → ℕ → Type 0
NoRoom l addr pages align =
    (at : ℕ)
    → at % 2 ^ align ≡ 0
    → addr ≤ at
    → ¬ ((x : ℕ) → at ≤ x → x < at + pages * 4096 → type_at l x ≡ some 0)

abbrev pub Answers : List Block → ℕ → ℕ → ℕ → Option Taken → Type 0
Answers l addr pages align none = NoRoom l addr pages align
Answers l addr pages align (some t) = (at : ℕ) × Chosen l addr pages align at t

here-Chosen :
    (n : Block) (r : List Block) (addr pages align : ℕ)
    → IsMap (n ∷ r)
    → n.typ ≡ 0
    → 0 < pages
    → addr < 2 ^ 56
    → align ≤ 63
    → has_room n addr pages align ≡ true
    → Chosen
        (n ∷ r)
        addr
        pages
        align
        (alloc_addr n addr align)
        (split_node n r (alloc_addr n addr align) pages)
here-Chosen n r addr pages align (vn, hn, mr) fn hp ha hl e =
    let (lo, asked, aligned) = alloc_addr_bounds n addr align vn ha hl in
    let k =
      split_node-IsTaken n r (alloc_addr n addr align) pages (vn, hn, mr) fn hp lo (ground arith) in
    record {
      aligned = aligned;
      asked = asked;
      free = λ x h h'. rw (type_at_free n r x fn) (ground (arith));
      taken = k;
    }

-- Free memory does not go on behind a block.
type_at_gap :
    (n : Block) (l : List Block)
    → n.typ ≡ 0
    → AllFree l
    → Heads n l
    → IsMap l
    → type_at l (n.addr + n.size) ≡ none
type_at_gap n [] fn fl h ml = unfold type_at in refl
type_at_gap n (c ∷ r) fn (fc, fr) h (vc, hc, mr) =
    let gap : n.addr + n.size < c.addr = h.gap (fn ∙ sym fc) in
    rw (type_at_free c r (n.addr + n.size) fc)
      (ground (arith, type_at_after c r (n.addr + n.size) hc mr (omega arith)))

-- A range of free pages that begins in `n` ends there.
in_front :
    (n : Block) (r : List Block) (addr pages align at : ℕ)
    → IsMap (n ∷ r)
    → AllFree (n ∷ r)
    → 0 < pages
    → addr < 2 ^ 56
    → align ≤ 63
    → has_room n addr pages align ≡ false
    → at % 2 ^ align ≡ 0
    → addr ≤ at
    → ((x : ℕ) → at ≤ x → x < at + pages * 4096 → type_at (n ∷ r) x ≡ some 0)
    → n.addr + n.size ≤ at
in_front n r addr pages align at (vn, hn, mr) (fn, fr) hp ha hl e al lo all =
    let here : (if in_block n at then some 0 else type_at r at) ≡ some 0 =
      rw⁻¹ (type_at_free n r at fn) (all at (omega arith) (omega arith)) in
    elim (Bool-cases (ltb at n.addr)) [
      | inl f ↦ absurd (ground (arith, type_at_after n r at hn mr (ground arith)))
      | inr f ↦ elim (Bool-cases (leb (at + pages * 4096) (n.addr + n.size))) [
        | inl g ↦
            absurd (ground (arith, alloc_addr_least n addr align at vn ha hl al lo (ground arith)))
        | inr g ↦ elim (Bool-cases (ltb at (n.addr + n.size))) [
          | inl k ↦
              let last : (if in_block n (n.addr + n.size)
                    then some 0
                    else type_at r (n.addr + n.size))
                  ≡ some 0 =
                rw⁻¹ (type_at_free n r (n.addr + n.size) fn)
                  (all (n.addr + n.size) (ground arith) (ground arith)) in
              absurd (ground (arith, type_at_gap n r fn fr hn mr))
          | inr k ↦ ltb→le at (n.addr + n.size) k
        ]
      ]
    ]

keep-Answers :
    (n : Block) (r : List Block) (addr pages align : ℕ) (o : Option Taken)
    → IsMap (n ∷ r)
    → AllFree (n ∷ r)
    → 0 < pages
    → addr < 2 ^ 56
    → align ≤ 63
    → has_room n addr pages align ≡ false
    → Answers r addr pages align o
    → Answers (n ∷ r) addr pages align (keep_node n o)
keep-Answers n r addr pages align none m (fn, fr) hp ha hl e a = λ at al lo all.
    let beyond = in_front n r addr pages align at m (fn, fr) hp ha hl e al lo all in
    a at al lo (λ x h h'.
      let here : (if in_block n x then some 0 else type_at r x) ≡ some 0 =
        rw⁻¹ (type_at_free n r x fn) (all x h h') in
      ground arith)
keep-Answers n r addr pages align (some t) (vn, hn, mr) (fn, fr) hp ha hl e (at, a) =
    let (beyond, heads, behind) = a.taken.front n hn in
    (
      at,
      record {
        aligned = a.aligned;
        asked = a.asked;
        free = λ x h h'. rw (type_at_free n r x fn) (ground (arith, a.free x h h'));
        taken = keep_node-IsTaken n r at pages t (vn, hn, mr) a.taken;
      },
    )

pub take_from-Answers :
    (l : List Block) (addr pages align : ℕ)
    → IsMap l
    → AllFree l
    → 0 < pages
    → addr < 2 ^ 56
    → align ≤ 63
    → Answers l addr pages align (take_from addr pages align l)
take_from-Answers [] addr pages align ml fl hp ha hl =
    unfold take_from type_at in (λ at al lo all. ground (arith, all at (omega arith) (omega arith)))
take_from-Answers (n ∷ r) addr pages align (vn, hn, mr) (fn, fr) hp ha hl =
    let rest = take_from-Answers r addr pages align mr fr hp ha hl in
    rw (take_step n r addr pages align vn hp) (elim (Bool-cases (has_room n addr pages align)) [
      | inl e ↦
          rw e
            (alloc_addr n addr align, here-Chosen n r addr pages align (vn, hn, mr) fn hp ha hl e)
      | inr e ↦ rw e (
          keep-Answers n r addr pages align (take_from addr pages align r) (vn, hn, mr) (fn, fr) hp
            ha hl e rest)
    ])
