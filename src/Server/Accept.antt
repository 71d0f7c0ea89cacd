-- ===== src/Server/Accept.antt =====
-- `_start_serving`, `_accept_connection` and `_stop_serving`. One readiness event of the listening
-- socket accepts up to `backlog + 1` connections.
pub mod Tasks
use tokioop.Prelude.{
  ℕ, zero, suc, ◌+◌, ◌≤◌, ◌≡◌, refl, sym, ap, ◌∙◌, Bool, true, false, not, ◌&&◌, ◌||◌, List, [],
  ◌∷◌, ◌++◌, append-nil, append_assoc, arith, ◌==◌, if◌then◌else◌, length, take, replicate,
}
use tokioop.Python.{
  Exc, connection_aborted, would_block, is_os_error, Result, ok, err, Method, gets, raise, modify,
  skip, ◌>>=◌, ◌>>◌,
}

pub record Listener (Conn : Type 0) : Type 0 where
  -- The loop watches the socket for connections.
  pub watched : Bool
  -- The connections that a task was created for, oldest first.
  pub tasks : List Conn
  -- The calls of `_start_serving` that `call_later` has been given.
  pub timers : ℕ
  -- The exceptions that were given to `call_exception_handler`.
  pub reported : List Exc
  pub closed : Bool

-- What becomes of a failed `accept`.
pub data Verdict : Type 0 where
  discard stop retry_later escape : Verdict

abbrev is_aborted : Exc → Bool
is_aborted connection_aborted = true
is_aborted _ = false

-- `exhausted` tells the `OSError`s with EMFILE, ENFILE, ENOBUFS and ENOMEM, by their errno.
module _ (exhausted : Exc → Bool) where
  -- The order of the `except` clauses.
  unfoldable pub verdict : Exc → Verdict
  verdict e =
      if is_aborted e
      then discard
      else if would_block e
      then stop
      else if is_os_error e && exhausted e
      then retry_later
      else escape

  module _ {Conn : Type 0} where
    unfoldable pub start_serving : Method (Listener Conn) (Unit {0})
    start_serving = modify λ l. record l { watched = true }

    unfoldable pub stop_serving : Method (Listener Conn) (Unit {0})
    stop_serving = modify λ l. record l { watched = false; closed = true }

    unfoldable pub create_task : Conn → Listener Conn → Listener Conn
    create_task conn l = record l { tasks = l.tasks ++ conn ∷ [] }

    unfoldable pub out_of_resource : Exc → Listener Conn → Listener Conn
    out_of_resource e l = record l {
      reported = l.reported ++ e ∷ [];
      watched = false;
      timers = suc l.timers;
    }

    -- The loop of `_accept_connection`, for the answers to `accept` in turn; where there are no more
    -- answers, `accept` would block.
    unfoldable pub accept_loop : ℕ → List (Result Conn) → Method (Listener Conn) (Unit {0})
    accept_loop zero answers l = (ok tt, l)
    accept_loop (suc rounds) [] l = (ok tt, l)
    accept_loop (suc rounds) (ok conn ∷ rest) l = accept_loop rounds rest (create_task conn l)
    accept_loop (suc rounds) (err e ∷ rest) l = elim (verdict e) [
      | discard ↦ accept_loop rounds rest l
      | stop ↦ (ok tt, l)
      | retry_later ↦ accept_loop rounds rest (out_of_resource e l)
      | escape ↦ (err e, l)
    ]

    unfoldable pub accept_connection : ℕ → List (Result Conn) → Method (Listener Conn) (Unit {0})
    accept_connection backlog answers = accept_loop (backlog + 1) answers
