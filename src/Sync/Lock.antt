-- ===== src/Sync/Lock.antt =====
-- CORE/src/async/async.c: the reentrant lock, between processors that take and release it.
use supernova_os.Prelude.{
  ℕ, zero, suc, ◌+◌, ◌-◌, ◌*◌, ◌/◌, ◌%◌, ◌^◌, ◌≤◌, ◌<◌, min, max, bit_and, bit_or, bit_xor, ◌≡◌,
  refl, sym, ap, ◌∙◌, ◌≢◌, ◌↔◌, ◌⊎◌, inl, inr, Bool, true, false, not, ◌&&◌, ◌||◌, Option, none,
  some, List, [], ◌∷◌, ◌++◌, map, append_assoc, append-nil, arith, ltb, leb, ◌==◌, if◌then◌else◌,
  nonzero, ltb→lt, ltb→le, lt→ltb, le→ltb, leb→le, ==_iff, Bool-cases, Option-cases, length,
  get_elem?, get_or, set, take, drop, replicate, All, length-append, length-replicate, length-set,
  length-take, get_elem?-set_self, get_elem?-set_ne, get_elem?_out, get_elem?-append_left,
  get_elem?-append_right,
}
pub mod Exclusion

-- REENTRANT_LOCK: the processor that holds it, 0 for none, and how often it does.
pub record Lock : Type 0 where
  pub core : ℕ
  pub cont : ℕ

-- Where a processor stands: outside the two functions, in the loop of `async_lock`, or in
-- `async_unlock` behind the decrement.
pub data Place : Type 0 where
  outside : Place
  waiting : Place
  leaving : Place

-- The lock, and for each processor, named by its identifier plus one, its place and how many calls of
-- `async_lock` it has made and not released.
pub record World : Type 0 where
  pub lock : Lock
  pub place : ℕ → Place
  pub held : ℕ → ℕ

abbrev pub put {ℓ} : {A : Type ℓ} → (ℕ → A) → ℕ → A → ℕ → A
put f c v d = if d == c then v else f d

-- `_InterlockedCompareExchange16(&lock->CORE, core, 0)`
abbrev pub exchange : Lock → ℕ → Lock
exchange l c = if l.core == 0 then record l { core = c } else l

-- `if (!lock->CONT) lock->CORE = 0;`
abbrev pub let_go : Lock → Lock
let_go l = if l.cont == 0 then record l { core = 0 } else l

-- One step of one processor. CONT is a WORD: no processor holds the lock 2 ^ 16 times.
pub data Step : World → World → Type 0 where
  call_lock :
      {w : World} (c : ℕ)
      → 0 < c
      → w.place c ≡ outside
      → Step w (record w { place = put w.place c waiting })
  try :
      {w : World} (c : ℕ)
      → 0 < c
      → w.place c ≡ waiting
      → w.lock.core ≢ c
      → Step w (record w { lock = exchange w.lock c })
  enter :
      {w : World} (c : ℕ)
      → 0 < c
      → w.place c ≡ waiting
      → w.lock.core ≡ c
      → w.held c + 1 < 2 ^ 16
      → Step w (record {
        lock = record { core = w.lock.core; cont = (w.lock.cont + 1) % 2 ^ 16 };
        place = put w.place c outside;
        held = put w.held c (w.held c + 1);
      })
  call_unlock :
      {w : World} (c : ℕ)
      → 0 < c
      → w.place c ≡ outside
      → 0 < w.held c
      → Step w (record {
        lock = record { core = w.lock.core; cont = (w.lock.cont + 2 ^ 16 - 1) % 2 ^ 16 };
        place = put w.place c leaving;
        held = put w.held c (w.held c - 1);
      })
  leave :
      {w : World} (c : ℕ)
      → 0 < c
      → w.place c ≡ leaving
      → Step w (record w { lock = let_go w.lock; place = put w.place c outside })

-- Any number of steps.
pub data Run : World → World → Type 0 where
  stay : {w : World} → Run w w
  and_then : {u v w : World} → Run u v → Step v w → Run u w

abbrev pub start : World
start = record { lock = record { core = 0; cont = 0 }; place = λ c. outside; held = λ c. 0 }
