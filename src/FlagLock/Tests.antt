-- ===== src/FlagLock/Tests.antt =====
-- Two threads and the lock of src/snmalloc/ds_aal/flaglock.h.
use snmalloc.Base.{ℕ, ◌≡◌, refl, arith, true, some, List, [], ◌∷◌, get_elem?}
use snmalloc.FlagLock.{holding, spinning, System, move, thread_step, run}
use snmalloc.FlagLock.Owner.{inside}
use snmalloc.FlagLock.Invariant.{IsLock, start, start-IsLock, run-IsLock, run-inside}
use snmalloc.FlagLock.Progress.{run_reaches_holding}

-- The second thread loses the exchange, and waits while the first runs its function.
abbrev contended : List ℕ
contended = 0 ∷ 1 ∷ 0 ∷ 1 ∷ 0 ∷ 1 ∷ 1 ∷ []

abbrev after_contended : System
after_contended = record {
  word = record { flag = true; owner = 1 };
  threads = holding ∷ spinning ∷ [];
}

contended_runs : run contended (start 2) ≡ some after_contended
unfolding run thread_step move
contended_runs = refl

run-IsLock_example : (t : System) × (run contended (start 2) ≡ some t) × IsLock t
run-IsLock_example = run-IsLock contended (start 2) (start-IsLock 2)

inside_holding : inside holding ≡ 1
unfolding inside
inside_holding = refl

run-inside_example : ◌≡◌ {A = ℕ} 0 0
run-inside_example =
    run-inside 2 contended 0 0 holding holding after_contended contended_runs refl refl
      inside_holding inside_holding

run_reaches_holding_example :
    (js : List ℕ) × (u : System) × (run js after_contended ≡ some u)
    × (get_elem? u.threads 1 ≡ some holding)
run_reaches_holding_example =
    run_reaches_holding 2 contended 1 after_contended contended_runs (omega arith)
