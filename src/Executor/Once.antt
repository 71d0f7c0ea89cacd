-- ===== src/Executor/Once.antt =====
-- Over every sequence of calls: the loop makes at most one default executor, and none after its
-- shutdown.
use tokioop.Prelude.{
  ℕ, ◌≤◌, ◌≡◌, Bool, true, false, Option, none, List, [], ◌∷◌, arith, length, is_some,
}
use tokioop.Python.{Result, ok, err}
use tokioop.Signals.{CallbackArg, check_callback}
use tokioop.Executor.{
  Pools, check_open, check_default_executor, make_executor, default_pool, submit, check_func,
  choose_pool, run_in_executor, set_default_executor, shut_pool, begin_shutdown, warn_timeout,
  end_shutdown, close_loop, Call, run_call, set_call, begin_call, end_call, close_call, step, run,
  new_pools,
}

record IsOnce (p : Pools) : Type 0 where
  once : length p.made ≤ 1
  none_yet :
      is_some p.default_executor ≡ false → p.executor_shutdown_called ≡ false → length p.made ≡ 0

run_in_executor-IsOnce :
    (answer : Result (Unit {0})) (executor : Option ℕ) (func : CallbackArg) (p : Pools)
    → IsOnce p
    → IsOnce (run_in_executor answer executor func p).1
unfolding run_in_executor check_open check_func check_callback choose_pool check_default_executor
    default_pool make_executor submit
run_in_executor-IsOnce answer executor func p v = ground (arith, v)

step-IsOnce : (c : Call) (p : Pools) → IsOnce p → IsOnce (step c p)
unfolding step set_default_executor begin_shutdown shut_pool end_shutdown warn_timeout close_loop
step-IsOnce (run_call answer executor func) p v = run_in_executor-IsOnce answer executor func p v
step-IsOnce (set_call k) p v = ground (arith, v)
step-IsOnce begin_call p v = ground (arith, v)
step-IsOnce (end_call outcome) p v = ground (arith, v)
step-IsOnce close_call p v = ground (arith, v)

run-IsOnce : (cs : List Call) (p : Pools) → IsOnce p → IsOnce (run cs p)
unfolding run
run-IsOnce [] p v = v
run-IsOnce (c ∷ cs) p v = run-IsOnce cs (step c p) (step-IsOnce c p v)

-- The default executor is no more made or used once its shutdown was called.
record IsOver (p t : Pools) : Type 0 where
  over : t.executor_shutdown_called ≡ true
  made_same : t.made ≡ p.made

step-IsOver : (c : Call) (p t : Pools) → IsOver p t → IsOver p (step c t)
unfolding step run_in_executor check_open check_func check_callback choose_pool
    check_default_executor default_pool make_executor submit set_default_executor begin_shutdown
    shut_pool end_shutdown warn_timeout close_loop
step-IsOver (run_call answer executor func) p t v = ground (arith, v)
step-IsOver (set_call k) p t v = ground (arith, v)
step-IsOver begin_call p t v = ground (arith, v)
step-IsOver (end_call outcome) p t v = ground (arith, v)
step-IsOver close_call p t v = ground (arith, v)

run-IsOver : (cs : List Call) (p t : Pools) → IsOver p t → IsOver p (run cs t)
unfolding run
run-IsOver [] p t v = v
run-IsOver (c ∷ cs) p t v = run-IsOver cs p (step c t) (step-IsOver c p t v)

abbrev pub is_raised : {A : Type 0} → Result A → Bool
is_raised (ok a) = false
is_raised (err e) = true

refused :
    (answer : Result (Unit {0})) (func : CallbackArg) (p : Pools)
    → p.executor_shutdown_called ≡ true
    → let (r, t) = run_in_executor answer none func p in (is_raised r ≡ true) × (t ≡ p)
unfolding run_in_executor check_open check_func check_callback choose_pool check_default_executor
    default_pool make_executor submit
refused answer func p h = ground arith

new_pools-IsOnce : (debug : Bool) → IsOnce (new_pools debug)
unfolding new_pools
new_pools-IsOnce debug = ground arith

begun-IsOver : (p : Pools) → IsOver p (begin_shutdown p).1
unfolding begin_shutdown shut_pool
begun-IsOver p = ground arith

-- From a new loop on, over all calls of `run_in_executor`, `set_default_executor`,
-- `shutdown_default_executor` and `close` in any order, the loop makes at most one thread pool; and
-- once `shutdown_default_executor` was called, in all calls that follow it makes none, and
-- `run_in_executor` without an executor raises and submits nothing.
pub one_executor :
    (debug : Bool) (before after : List Call) (answer : Result (Unit {0})) (func : CallbackArg)
    → let p = run before (new_pools debug) in
      let t = run after (begin_shutdown p).1 in
      (length t.made ≤ 1)
      × (t.made ≡ p.made)
      × (let (r, v) = run_in_executor answer none func t in (is_raised r ≡ true) × (v ≡ t))
unfolding step
one_executor debug before after answer func =
    let p = run before (new_pools debug) in
    let v = run-IsOnce before (new_pools debug) (new_pools-IsOnce debug) in
    let o = run-IsOver after p (begin_shutdown p).1 (begun-IsOver p) in
    (
      (run-IsOnce after (step begin_call p) (step-IsOnce begin_call p v)).once,
      o.made_same,
      refused answer func (run after (begin_shutdown p).1) o.over,
    )
