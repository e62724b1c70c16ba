-- ===== src/Sync/Lock/Exclusion.antt =====
-- Mutual exclusion of the lock of CORE/src/async/async.c.
use supernova_os.Prelude.{ℕ, ◌^◌, ◌<◌, ◌≡◌, refl, sym, ◌∙◌, arith}
use supernova_os.Sync.Lock.{
  leaving, World, Step, call_lock, try, enter, call_unlock, leave, Run, stay, and_then, start,
}

-- A processor that holds the lock or is about to release it is the one that the lock names, and the
-- lock counts its calls.
pub record IsWorld (w : World) : Type 0 where
  pub holder : (c : ℕ) → 0 < c → 0 < w.held c → w.lock.core ≡ c
  pub leaver : (c : ℕ) → 0 < c → w.place c ≡ leaving → w.lock.core ≡ c
  pub count : (c : ℕ) → 0 < c → w.lock.core ≡ c → w.lock.cont ≡ w.held c
  pub word : w.lock.cont < 2 ^ 16
  pub nobody : w.lock.core ≡ 0 → w.lock.cont ≡ 0

start-IsWorld : IsWorld start
start-IsWorld = record {
  holder = λ c h g. absurd (omega (arith, g));
  leaver = λ c h e. ground (arith, e);
  count = λ c h e. absurd (omega (arith, e));
  word = omega arith;
  nobody = λ e. refl;
}

pub Step-IsWorld : (v w : World) → Step v w → IsWorld v → IsWorld w
Step-IsWorld v w (call_lock c h p) i = record {
  holder = i.holder;
  leaver = λ d g e. ground (arith, i.leaver d g, e);
  count = i.count;
  word = i.word;
  nobody = i.nobody;
}
Step-IsWorld v w (try c h p ne) i = record {
  holder = λ d g e. ground (arith, i.holder d g e);
  leaver = λ d g e. ground (arith, i.leaver d g e);
  count = λ d g e. ground (arith, i.count d g, i.holder d g, i.nobody);
  word = ground (arith, i.word);
  nobody = λ e. ground (arith, i.nobody, e);
}
Step-IsWorld v w (enter c h p eq lt) i = record {
  holder = λ d g e. ground (arith, i.holder d g, e);
  leaver = λ d g e. ground (arith, i.leaver d g, e);
  count = λ d g e. ground (arith, i.count c h eq, i.count d g);
  word = omega arith;
  nobody = λ e. ground (arith, e);
}
Step-IsWorld v w (call_unlock c h p lt) i = record {
  holder = λ d g e. ground (arith, i.holder d g, e);
  leaver = λ d g e. ground (arith, i.leaver d g, i.holder c h lt, e);
  count = λ d g e. ground (arith, i.count d g, i.holder c h lt, i.word);
  word = omega arith;
  nobody = λ e. ground (arith, e, i.holder c h lt);
}
Step-IsWorld v w (leave c h p) i = record {
  holder = λ d g e. ground (arith, i.holder d g e, i.count d g, i.leaver c h p);
  leaver = λ d g e. ground (arith, i.leaver d g, i.leaver c h p, e);
  count = λ d g e. ground (arith, i.count d g, e);
  word = ground (arith, i.word);
  nobody = λ e. ground (arith, i.nobody, e);
}

Run-IsWorld : (w : World) → Run start w → IsWorld w
Run-IsWorld w r = go start w r start-IsWorld
  where
    go : (u w : World) → Run u w → IsWorld u → IsWorld w
    go u w stay i = i
    go u w (and_then {v = v} r s) i = Step-IsWorld v w s (go u v r i)

-- However the processors take turns, two of them never hold the lock at once, and the lock counts the
-- calls of the one that holds it.
pub Run-exclusion :
    (w : World) (c d : ℕ)
    → Run start w
    → 0 < c
    → 0 < d
    → 0 < w.held c
    → 0 < w.held d
    → (c ≡ d) × (w.lock.core ≡ c) × (w.lock.cont ≡ w.held c)
Run-exclusion w c d r hc hd gc gd =
    let i = Run-IsWorld w r in
    (sym (i.holder c hc gc) ∙ i.holder d hd gd, i.holder c hc gc, i.count c hc (i.holder c hc gc))
