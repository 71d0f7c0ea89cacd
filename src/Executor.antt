-- ===== src/Executor.antt =====
-- Executors and asynchronous generators, python/tokioop/loop.py.
pub mod Once
pub mod Closing
mod Tests
use tokioop.Prelude.{
  ℕ, suc, Bool, true, false, not, ◌&&◌, Option, none, some, List, [], ◌∷◌, ◌++◌, is_empty,
  if◌then◌else◌,
}
use tokioop.Python.{
  Exc, attribute_error, type_error, runtime_error, timeout_error, system_exit, keyboard_interrupt,
  cancelled_error, Result, ok, err, Method, pure, raise, modify, skip, gets, when, raise_if, lift,
  try_else, ◌>>=◌, ◌>>◌,
}
use tokioop.Signals.{CallbackArg, check_callback}

-- What the loop keeps; thread pools are numbered.
pub record Pools : Type 0 where
  pub closed : Bool
  pub debug : Bool
  pub next_pool : ℕ
  pub default_executor : Option ℕ
  pub executor_shutdown_called : Bool
  -- The pools that the loop made, the functions that were submitted, with their pool, the pools that
  -- were shut down, with `wait`, and the warnings.
  pub made : List ℕ
  pub submitted : List (ℕ × CallbackArg)
  pub shut : List (ℕ × Bool)
  pub warnings : ℕ

unfoldable pub check_open : Method Pools (Unit {0})
check_open p = raise_if p.closed runtime_error p

unfoldable pub check_default_executor : Method Pools (Unit {0})
check_default_executor p = raise_if p.executor_shutdown_called runtime_error p

unfoldable pub make_executor : Method Pools ℕ
make_executor p = (
  ok p.next_pool,
  record p {
    next_pool = suc p.next_pool;
    made = p.next_pool ∷ p.made;
    default_executor = some p.next_pool;
  },
)

unfoldable pub default_pool : Option ℕ → Method Pools ℕ
default_pool none = make_executor
default_pool (some k) = pure k

-- `executor.submit(func, *args)`, with its answer.
unfoldable pub submit : Result (Unit {0}) → ℕ → CallbackArg → Method Pools (Unit {0})
submit (ok _) k func = modify λ p. record p { submitted = (k, func) ∷ p.submitted }
submit (err e) k func = raise e

unfoldable pub check_func : CallbackArg → Method Pools (Unit {0})
check_func func = do _ ← check_callback func; skip

-- The pool of a call: the one that is given, or the default one.
unfoldable pub choose_pool : Option ℕ → Method Pools ℕ
choose_pool (some k) = pure k
choose_pool none = do
  executor ← gets (λ p. p.default_executor)
  check_default_executor
  default_pool executor

unfoldable pub run_in_executor :
    Result (Unit {0}) → Option ℕ → CallbackArg → Method Pools (Unit {0})
run_in_executor answer executor func = do
  check_open
  debug ← gets (λ p. p.debug)
  when debug (check_func func)
  k ← choose_pool executor
  submit answer k func

-- The argument is a thread pool, or something else.
unfoldable pub set_default_executor : Option ℕ → Method Pools (Unit {0})
set_default_executor none = raise type_error
set_default_executor (some k) = modify λ p. record p { default_executor = some k }

-- `self._default_executor.shutdown(wait=...)`
unfoldable pub shut_pool : Bool → Method Pools (Unit {0})
shut_pool wait p = elim p.default_executor [
  | none ↦ (err attribute_error, p)
  | some k ↦ (ok tt, record p { shut = (k, wait) ∷ p.shut })
]

-- `shutdown_default_executor` up to its wait: whether there is an executor to wait for. Its thread
-- shuts the pool down.
unfoldable pub begin_shutdown : Method Pools Bool
begin_shutdown = do
  modify λ p. record p { executor_shutdown_called = true }
  executor ← gets (λ p. p.default_executor)
  elim executor as (λ _. Method Pools Bool) [
    | none ↦ pure false
    | some k ↦ (do shut_pool true; pure true)
  ]

unfoldable pub warn_timeout : Exc → Method Pools (Unit {0})
warn_timeout timeout_error = do modify λ p. record p { warnings = suc p.warnings }; shut_pool false
warn_timeout e = raise e

-- What follows once the wait has come to an end, in time or not.
unfoldable pub end_shutdown : Result (Unit {0}) → Method Pools (Unit {0})
end_shutdown outcome = try_else (lift outcome) warn_timeout (λ _. skip)

-- `close` of the core, where the loop does not run.
unfoldable pub close_loop : Method Pools (Unit {0})
close_loop p = if p.closed then (ok tt, p) else elim p.default_executor [
  | none ↦ (ok tt, record p { closed = true; executor_shutdown_called = true })
  | some k ↦ (
    ok tt,
    record p {
      closed = true;
      executor_shutdown_called = true;
      default_executor = none;
      shut = (k, false) ∷ p.shut;
    },
  )
]

-- The calls on the loop, in any order.
pub data Call : Type 0 where
  run_call : Result (Unit {0}) → Option ℕ → CallbackArg → Call
  set_call : Option ℕ → Call
  begin_call : Call
  end_call : Result (Unit {0}) → Call
  close_call : Call

unfoldable pub step : Call → Pools → Pools
step (run_call answer executor func) p = (run_in_executor answer executor func p).1
step (set_call k) p = (set_default_executor k p).1
step begin_call p = (begin_shutdown p).1
step (end_call outcome) p = (end_shutdown outcome p).1
step close_call p = (close_loop p).1

unfoldable pub run : List Call → Pools → Pools
run [] p = p
run (c ∷ cs) p = run cs (step c p)

-- As `__init__` sets the attributes.
unfoldable pub new_pools : Bool → Pools
new_pools debug = record {
  closed = false;
  debug = debug;
  next_pool = 0;
  default_executor = none;
  executor_shutdown_called = false;
  made = [];
  submitted = [];
  shut = [];
  warnings = 0;
}

-- `isinstance(result, Exception)`
abbrev pub is_exception : Exc → Bool
is_exception system_exit = false
is_exception keyboard_interrupt = false
is_exception cancelled_error = false
is_exception _ = true

-- The active asynchronous generators, and what was reported of them.
pub record Asyncgens : Type 0 where
  pub shutdown_called : Bool
  pub asyncgens : List ℕ
  pub reported : List (ℕ × Exc)

-- The loop over the results of `gather`, each with its generator.
unfoldable pub report_failures : List ℕ → List (Result (Unit {0})) → Method Asyncgens (Unit {0})
report_failures [] results = skip
report_failures (agen ∷ agens) [] = skip
report_failures (agen ∷ agens) (ok _ ∷ results) = report_failures agens results
report_failures (agen ∷ agens) (err e ∷ results) = do
  when (is_exception e) (modify λ a. record a { reported = a.reported ++ (agen, e) ∷ [] })
  report_failures agens results

-- `gather` is the wait for the coroutines' `aclose`, with what happens meanwhile; it gives their results
-- in order, or raises where it is cancelled or one of them ends the program.
unfoldable pub shutdown_asyncgens :
    (List ℕ → Method Asyncgens (List (Result (Unit {0})))) → Method Asyncgens (Unit {0})
shutdown_asyncgens gather = do
  modify λ a. record a { shutdown_called = true }
  closing ← gets (λ a. a.asyncgens)
  if is_empty closing then skip else do
    modify λ a. record a { asyncgens = [] }
    results ← gather closing
    report_failures closing results
