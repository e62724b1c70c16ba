-- ===== src/Sync/Tests.antt =====
-- A run of the lock of CORE/src/async/async.c, and its theorem there.
use supernova_os.Prelude.{ℕ, ◌≡◌, refl, arith}
use supernova_os.Sync.Lock.{
  outside, waiting, World, put, exchange, call_lock, try, enter, Run, stay, and_then, start,
}
use supernova_os.Sync.Lock.Exclusion.{Run-exclusion}

-- The processors 1 and 2 call, 1 takes the lock, 2 fails to, 1 enters.
abbrev one_waits : World
one_waits = record start { place = put start.place 1 waiting }

abbrev both_wait : World
both_wait = record one_waits { place = put one_waits.place 2 waiting }

abbrev taken : World
taken = record both_wait { lock = exchange both_wait.lock 1 }

abbrev still_taken : World
still_taken = record taken { lock = exchange taken.lock 2 }

abbrev entered : World
entered = record {
  lock = record { core = 1; cont = 1 };
  place = put still_taken.place 1 outside;
  held = put still_taken.held 1 1;
}

Run-entered : Run start entered
Run-entered =
    and_then
      (and_then
        (and_then
          (and_then (and_then stay (call_lock 1 (omega arith) refl))
            (call_lock 2 (omega arith) refl))
          (try 1 (omega arith) refl (λ e. omega arith)))
        (try 2 (omega arith) refl (λ e. omega arith)))
      (enter 1 (omega arith) refl refl (omega arith))

abbrev first_core : ℕ
first_core = 1

Run-exclusion_example :
    (first_core ≡ 1) × (entered.lock.core ≡ 1) × (entered.lock.cont ≡ entered.held 1)
Run-exclusion_example =
    Run-exclusion entered 1 1 Run-entered (omega arith) (omega arith) (omega arith) (omega arith)
