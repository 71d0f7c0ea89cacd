-- ===== src/Executor/Tests.antt =====
-- Executors and asynchronous generators on concrete calls.
use tokioop.Prelude.{refl, List, ℕ, ◌≡◌, ◌≤◌, true, false, none, [], ◌∷◌, length}
use tokioop.Python.{Method, Result, Result, value_error, ok, err}
use tokioop.Signals.{callable}
use tokioop.Executor.{
  run_call, set_call, end_call, close_call, run, new_pools, begin_shutdown, run_in_executor,
  Asyncgens, shutdown_asyncgens,
}
use tokioop.Executor.Once.{is_raised, one_executor}
use tokioop.Executor.Closing.{reported_after, shutdown_asyncgens_lem}

one_executor_example :
    let p = run (run_call (ok tt) none (callable 1) ∷ set_call none ∷ []) (new_pools true) in
    let t = run (end_call (ok tt) ∷ close_call ∷ []) (begin_shutdown p).1 in
    (length t.made ≤ 1)
    × (t.made ≡ p.made)
    × (let (r, v) = run_in_executor (ok tt) none (callable 2) t in (is_raised r ≡ true) × (v ≡ t))
one_executor_example =
    one_executor true (run_call (ok tt) none (callable 1) ∷ set_call none ∷ [])
      (end_call (ok tt) ∷ close_call ∷ []) (ok tt) (callable 2)

abbrev two_active : Asyncgens
two_active = record { shutdown_called = false; asyncgens = 1 ∷ 2 ∷ []; reported = [] }

-- The second generator fails; another one is started meanwhile.
abbrev second_fails : List ℕ → Method Asyncgens (List (Result (Unit {0})))
second_fails agens a = (ok (ok tt ∷ err value_error ∷ []), record a { asyncgens = 3 ∷ [] })

shutdown_asyncgens_lem_example :
    shutdown_asyncgens second_fails two_active
    ≡ reported_after two_active.asyncgens (
        second_fails two_active.asyncgens
          (record two_active { shutdown_called = true; asyncgens = [] }))
shutdown_asyncgens_lem_example = shutdown_asyncgens_lem second_fails two_active refl
