-- ===== src/Mm/Paging/Tree.antt =====
-- The tables that CORE/src/mm/vmm.c reaches from one, as a tree of pages.
use supernova_os.Prelude.{
  ℕ, zero, suc, ◌+◌, ◌*◌, ◌/◌, ◌%◌, ◌<◌, ◌≡◌, refl, sym, ◌∙◌, ◌≢◌, ◌⊎◌, inl, inr, Bool, true, false,
  not, ◌&&◌, Option, none, some, arith, if◌then◌else◌,
}
use mathlib.Core.Path.{subst}
use supernova_os.Mm.Paging.{Memory, index, slot, is_present, is_large, frame_of}

-- An entry of a table of level n + 1 that leads to a table of level n.
abbrev pub links : ℕ → ℕ → Bool
links n e = is_present e && not (is_large n e)

-- The pages of the tables that are reached from the table at `f`.
abbrev pub Owns : Memory → ℕ → ℕ → ℕ → Type 0
Owns m zero f g = g ≡ f
Owns m (suc n) f g =
    (g ≡ f)
    ⊎ ((i : ℕ) × (i < 512)
        × (links n (m (f + 8 * i)) ≡ true)
        × Owns m n (frame_of (m (f + 8 * i))) g)

-- The trees behind two entries have no page in common.
abbrev pub Disjoint : Memory → ℕ → ℕ → ℕ → Type 0
Disjoint m n d e = (g : ℕ) → Owns m n (frame_of d) g → ¬ Owns m n (frame_of e) g

-- No page is reached on two ways.
abbrev pub IsTree : Memory → ℕ → ℕ → Type 0
IsTree m zero f = Unit {0}
IsTree m (suc n) f =
    (i : ℕ)
    → i < 512
    → links n (m (f + 8 * i)) ≡ true
    → IsTree m n (frame_of (m (f + 8 * i)))
      × (¬ Owns m n (frame_of (m (f + 8 * i))) f)
      × ((j : ℕ)
          → j < 512
          → j ≢ i
          → links n (m (f + 8 * j)) ≡ true
          → Disjoint m n (m (f + 8 * i)) (m (f + 8 * j)))

abbrev pub page_of : ℕ → ℕ
page_of a = a / 4096 * 4096

-- The two memories agree on the pages of `P`.
abbrev pub Same : Memory → Memory → (ℕ → Type 0) → Type 0
Same m m' P = (a : ℕ) → P (page_of a) → m' a ≡ m a

-- The type of the page and its entry, as `search_page_entry` finds them.
pub found : Memory → ℕ → ℕ → ℕ → Option (ℕ × ℕ)
found m zero f va = if is_present (m (slot 0 f va)) then some (0, m (slot 0 f va)) else none
found m (suc n) f va =
    let e = m (slot (suc n) f va) in
    let rest = found m n (frame_of e) va in
    if not (is_present e) then none else if is_large n e then some (suc n, e) else rest

pub index_bound : (n va : ℕ) → index n va < 512
unfolding index
index_bound n va = omega arith

pub page_of-entry : (f i : ℕ) → f % 4096 ≡ 0 → i < 512 → page_of (f + 8 * i) ≡ f
page_of-entry f i h l = omega arith

pub frame_aligned : (e : ℕ) → frame_of e % 4096 ≡ 0
frame_aligned e = omega arith

-- The pages that are reached stay the same where the memory of these pages does.
pub Owns-Same :
    (n f : ℕ) (m m' : Memory)
    → f % 4096 ≡ 0
    → Same m m' (Owns m n f)
    → (g : ℕ) → Owns m' n f g
    → Owns m n f g
Owns-Same zero f m m' h s g o = o
Owns-Same (suc n) f m m' h s g (inl e) = inl e
Owns-Same (suc n) f m m' h s g (inr (i, l, k, o)) =
    let e : m' (f + 8 * i) ≡ m (f + 8 * i) = s (f + 8 * i) (inl (page_of-entry f i h l)) in
    let k' : links n (m (f + 8 * i)) ≡ true = subst (λ x. links n x ≡ true) e k in
    inr (
      i,
      l,
      k',
      Owns-Same n (frame_of (m (f + 8 * i))) m m' (frame_aligned (m (f + 8 * i)))
          (λ a p. s a (inr (i, l, k', p))) g (subst (λ x. Owns m' n (frame_of x) g) e o),
    )

module _ (n f : ℕ) (m m' : Memory) (h : f % 4096 ≡ 0) (s : Same m m' (Owns m (suc n) f)) where
  entry-Same : (i : ℕ) → i < 512 → m' (f + 8 * i) ≡ m (f + 8 * i)
  entry-Same i l = s (f + 8 * i) (inl (page_of-entry f i h l))

  links-Same : (i : ℕ) → i < 512 → links n (m' (f + 8 * i)) ≡ true → links n (m (f + 8 * i)) ≡ true
  links-Same i l k = subst (λ x. links n x ≡ true) (entry-Same i l) k

  child-Same :
      (i : ℕ)
      → i < 512
      → links n (m (f + 8 * i)) ≡ true
      → Same m m' (Owns m n (frame_of (m (f + 8 * i))))
  child-Same i l k a p = s a (inr (i, l, k, p))

  -- What is reached behind an entry was reached there before.
  child_Owns :
      (i : ℕ)
      → i < 512
      → links n (m' (f + 8 * i)) ≡ true
      → (g : ℕ) → Owns m' n (frame_of (m' (f + 8 * i))) g
      → Owns m n (frame_of (m (f + 8 * i))) g
  child_Owns i l k g o =
      Owns-Same n (frame_of (m (f + 8 * i))) m m' (frame_aligned (m (f + 8 * i)))
        (child-Same i l (links-Same i l k)) g
        (subst (λ x. Owns m' n (frame_of x) g) (entry-Same i l) o)

pub IsTree-Same :
    (n f : ℕ) (m m' : Memory) → f % 4096 ≡ 0 → Same m m' (Owns m n f) → IsTree m n f → IsTree m' n f
IsTree-Same zero f m m' h s t = tt
IsTree-Same (suc n) f m m' h s t = λ i l k.
    let k' = links-Same n f m m' h s i l k in
    let (sub, root, apart) = t i l k' in
    (
      subst (λ x. IsTree m' n (frame_of x)) (sym (entry-Same n f m m' h s i l))
          (IsTree-Same n (frame_of (m (f + 8 * i))) m m' (frame_aligned (m (f + 8 * i)))
            (child-Same n f m m' h s i l k') sub),
      λ o. root (child_Owns n f m m' h s i l k f o),
      λ j lj ne kj g o o'.
          apart j lj ne (links-Same n f m m' h s j lj kj) g (child_Owns n f m m' h s i l k g o)
            (child_Owns n f m m' h s j lj kj g o'),
    )

-- What stands behind an entry is looked at only where the entry leads to a table.
pub behind_ap {ℓ} :
    {A : Type ℓ} (p q : Bool) (a b x y : A)
    → ((p && not q) ≡ true → x ≡ y)
    → (if not p then a else if q then b else x) ≡ (if not p then a else if q then b else y)
behind_ap true true a b x y h = refl
behind_ap true false a b x y h = h refl
behind_ap false q a b x y h = refl

pub found_zero :
    (m : Memory) (f va e : ℕ)
    → m (slot 0 f va) ≡ e
    → found m 0 f va ≡ (if is_present e then some (0, e) else none)
unfolding found
found_zero m f va e h = rw h refl

-- One level of the search.
pub found_suc :
    (m : Memory) (n f va e : ℕ)
    → m (slot (suc n) f va) ≡ e
    → (found m (suc n) f va ≡ (
        if not (is_present e)
        then none
        else if is_large n e
        then some (suc n, e)
        else found m n (frame_of e) va))
unfolding found
found_suc m n f va e h = rw h refl

pub found-Same :
    (n f va : ℕ) (m m' : Memory)
    → f % 4096 ≡ 0
    → Same m m' (Owns m n f)
    → found m' n f va ≡ found m n f va
found-Same zero f va m m' h s =
    let e : m' (slot 0 f va) ≡ m (slot 0 f va) =
      s (slot 0 f va) (page_of-entry f (index 0 va) h (index_bound 0 va)) in
    found_zero m' f va (m (slot 0 f va)) e ∙ sym (found_zero m f va (m (slot 0 f va)) refl)
found-Same (suc n) f va m m' h s =
    let a = slot (suc n) f va in
    let e : m' a ≡ m a = entry-Same n f m m' h s (index (suc n) va) (index_bound (suc n) va) in
    let below : links n (m a) ≡ true
        → found m' n (frame_of (m a)) va ≡ found m n (frame_of (m a)) va =
      λ k.
        found-Same n (frame_of (m a)) va m m' (frame_aligned (m a))
          (child-Same n f m m' h s (index (suc n) va) (index_bound (suc n) va) k) in
    found_suc m' n f va (m a) e
    ∙ behind_ap (is_present (m a)) (is_large n (m a)) none (some (suc n, m a))
        (found m' n (frame_of (m a)) va) (found m n (frame_of (m a)) va) below
    ∙ sym (found_suc m n f va (m a) refl)
