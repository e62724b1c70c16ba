-- ===== src/Mm/Block/Canonical.antt =====
-- The map of memory blocks of CORE/src/mm/pmm.c is determined by the types of the addresses.
use supernova_os.Prelude.{
  ℕ, ◌+◌, ◌≤◌, ◌<◌, ◌≡◌, refl, sym, ◌∙◌, ◌≢◌, inl, inr, false, none, some, List, [], ◌∷◌, arith,
  ltb, leb, leb→le, Bool-cases,
}
use supernova_os.Mm.Block.{Block}
use supernova_os.Mm.Block.Map.{
  IsBlock, Heads, IsMap, in_block, type_at, Apart, Clear, type_at-cons, type_at_after,
}

-- Behind a block stands no address of its type.
pub type_at_end :
    (n : Block) (l : List Block) → Heads n l → IsMap l → type_at l (n.addr + n.size) ≢ some n.typ
type_at_end n [] h ml = unfold type_at in (λ e. ground (arith, e))
type_at_end n (c ∷ r) h (vc, hc, mr) =
    rw (type_at-cons c r (n.addr + n.size))
      (λ e. ground (arith, h.below, h.gap, vc.some_size, type_at_after c r (n.addr + n.size) hc mr))

Block_ext :
    (a b : Block) → a.addr ≡ b.addr → a.size ≡ b.size → a.typ ≡ b.typ → a.vald ≡ b.vald → a ≡ b
Block_ext a b p q r s = λ i. record { addr = p i; size = q i; typ = r i; vald = s i }

starts_le :
    (b c : Block) (l m : List Block)
    → IsBlock b
    → IsMap (c ∷ m)
    → type_at (b ∷ l) b.addr ≡ type_at (c ∷ m) b.addr
    → c.addr ≤ b.addr
starts_le b c l m vb (vc, hc, mm) =
    rw (type_at-cons b l b.addr, type_at-cons c m b.addr)
      (λ e. ground (arith, vb.some_size, type_at_after c m b.addr hc mm))

ends_le :
    (b c : Block) (l m : List Block)
    → IsMap (b ∷ l)
    → IsBlock c
    → b.addr ≡ c.addr
    → b.typ ≡ c.typ
    → type_at (b ∷ l) (b.addr + b.size) ≡ type_at (c ∷ m) (b.addr + b.size)
    → c.addr + c.size ≤ b.addr + b.size
ends_le b c l m (vb, hb, ml) vc p t =
    rw (type_at-cons b l (b.addr + b.size), type_at-cons c m (b.addr + b.size))
      (λ e. ground (arith, type_at_end b l hb ml))

same_types :
    (b c : Block) (l m : List Block)
    → IsBlock b
    → b.addr ≡ c.addr
    → IsBlock c
    → type_at (b ∷ l) b.addr ≡ type_at (c ∷ m) b.addr
    → b.typ ≡ c.typ
same_types b c l m vb p vc =
    rw (type_at-cons b l b.addr, type_at-cons c m b.addr)
      (λ e. ground (arith, vb.some_size, vc.some_size))

same_behind :
    (b c : Block) (l m : List Block)
    → IsMap (b ∷ l)
    → IsMap (c ∷ m)
    → b.addr ≡ c.addr
    → b.size ≡ c.size
    → (x : ℕ) → type_at (b ∷ l) x ≡ type_at (c ∷ m) x
    → type_at l x ≡ type_at m x
same_behind b c l m (vb, hb, ml) (vc, hc, mm) p q x =
    rw (type_at-cons b l x, type_at-cons c m x)
      (λ e. ground (arith, type_at_after b l x hb ml, type_at_after c m x hc mm))

cons_ext : (b c : Block) (l m : List Block) → b ≡ c → l ≡ m → b ∷ l ≡ c ∷ m
cons_ext b c l m p q = λ i. p i ∷ q i

some_at : (c : Block) (m : List Block) → IsBlock c → type_at (c ∷ m) c.addr ≢ none
some_at c m vc = rw (type_at-cons c m c.addr) (λ e. ground (arith, vc.some_size))

-- Two maps that give every address the same type are the same list of blocks.
pub IsMap-ext :
    (l m : List Block) → IsMap l → IsMap m → ((x : ℕ) → type_at l x ≡ type_at m x) → l ≡ m
unfolding type_at
IsMap-ext [] [] ml mm e = refl
IsMap-ext [] (c ∷ m) ml (vc, hc, mm) e = absurd (some_at c m vc (sym (e c.addr)))
IsMap-ext (b ∷ l) [] (vb, hb, ml) mm e = absurd (some_at b l vb (e b.addr))
IsMap-ext (b ∷ l) (c ∷ m) (vb, hb, ml) (vc, hc, mm) e =
    let p : b.addr ≡ c.addr = omega (
      arith,
      starts_le b c l m vb (vc, hc, mm) (e b.addr),
      starts_le c b m l vc (vb, hb, ml) (sym (e c.addr)),
    ) in
    let t = same_types b c l m vb p vc (e b.addr) in
    let q : b.size ≡ c.size = omega (
      arith,
      p,
      ends_le b c l m (vb, hb, ml) vc p t (e (b.addr + b.size)),
      ends_le c b m l (vc, hc, mm) vb (sym p) (sym t) (sym (e (c.addr + c.size))),
    ) in
    cons_ext b c l m (Block_ext b c p q t (vb.vald ∙ sym vc.vald))
      (IsMap-ext l m ml mm (λ x. same_behind b c l m (vb, hb, ml) (vc, hc, mm) p q x (e x)))

none_behind : (b : Block) (l : List Block) (x : ℕ) → type_at (b ∷ l) x ≡ none → type_at l x ≡ none
none_behind b l x = rw (type_at-cons b l x) (λ e. ground (arith, e))

none_outside :
    (b : Block) (l : List Block) (x : ℕ) → type_at (b ∷ l) x ≡ none → in_block b x ≡ false
none_outside b l x = rw (type_at-cons b l x) (λ e. ground (arith, e))

Apart-outside :
    (b k : Block) (l : List Block)
    → IsBlock b
    → IsBlock k
    → ((x : ℕ) → k.addr ≤ x → x < k.addr + k.size → type_at (b ∷ l) x ≡ none)
    → Apart b k
Apart-outside b k l vb vk e = elim (Bool-cases (ltb b.addr k.addr)) [
  | inl f ↦ ground (
    arith,
    vk.some_size,
    none_outside b l k.addr (e k.addr (omega arith) (omega (arith, vk.some_size))),
  )
  | inr f ↦ elim (Bool-cases (leb (k.addr + k.size) b.addr)) [
    | inl g ↦ inr (leb→le (k.addr + k.size) b.addr g)
    | inr g ↦ absurd (
        ground
          (arith, vb.some_size, none_outside b l b.addr (e b.addr (ground arith) (ground arith))))
  ]
]

-- A block with no address in the map is clear of its blocks.
pub type_at-Clear :
    (l : List Block) (k : Block)
    → IsMap l
    → IsBlock k
    → ((x : ℕ) → k.addr ≤ x → x < k.addr + k.size → type_at l x ≡ none)
    → Clear k l
type_at-Clear [] k ml vk e = tt
type_at-Clear (b ∷ l) k (vb, hb, ml) vk e =
    (Apart-outside b k l vb vk e, type_at-Clear l k ml vk (λ x h h'. none_behind b l x (e x h h')))
