-- ===== src/Server/Accept/Tasks.antt =====
-- One readiness event of a listening socket, told by the answers to `accept`.
use tokioop.Prelude.{
  true, false, ◌&&◌, ◌||◌, ◌⊎◌, refl, if◌then◌else◌, ℕ, zero, suc, ◌+◌, ◌≤◌, ◌≡◌, sym, ◌∙◌, List,
  [], ◌∷◌, ◌++◌, append-nil, append_assoc, Bool, arith, length, replicate,
}
use tokioop.Python.{
  connection_aborted, blocking_io, interrupted, is_os_error, would_block, Exc, Result, ok, err,
}
use tokioop.Server.Accept.{
  Listener, discard, stop, retry_later, escape, verdict, create_task, out_of_resource, accept_loop,
  accept_connection,
}

module _ (exhausted : Exc → Bool) where
  -- The `OSError`s that say that the system is out of descriptors or memory.
  pub runs_out : Exc → Bool
  runs_out connection_aborted = false
  runs_out blocking_io = false
  runs_out interrupted = false
  runs_out e = is_os_error e && exhausted e

  -- A connection that was gone before it was accepted.
  pub is_gone : Exc → Bool
  is_gone connection_aborted = true
  is_gone _ = false

  -- What each exception is for, in the words of `verdict`.
  verdict-cases :
      (e : Exc)
      → ((verdict exhausted e ≡ discard) × (is_gone e ≡ true) × (runs_out e ≡ false))
        ⊎ ((verdict exhausted e ≡ stop)
            × (is_gone e ≡ false)
            × (runs_out e ≡ false)
            × (would_block e ≡ true))
        ⊎ ((verdict exhausted e ≡ retry_later) × (is_gone e ≡ false) × (runs_out e ≡ true))
        ⊎ ((verdict exhausted e ≡ escape)
            × (is_gone e ≡ false)
            × (runs_out e ≡ false)
            × (would_block e ≡ false))
  unfolding verdict is_gone runs_out
  verdict-cases e = ground arith

  module _ {Conn : Type 0} where
    -- The answers that a call reads and gets over, before it ends.
    pub answered : ℕ → List (Result Conn) → List (Result Conn)
    answered zero answers = []
    answered (suc rounds) [] = []
    answered (suc rounds) (ok conn ∷ rest) = ok conn ∷ answered rounds rest
    answered (suc rounds) (err e ∷ rest) =
        let more = answered rounds rest in if is_gone e || runs_out e then err e ∷ more else []

    -- What comes out: the first exception that is neither of these nor says that there is no connection.
    pub outcome : ℕ → List (Result Conn) → Result (Unit {0})
    outcome zero answers = ok tt
    outcome (suc rounds) [] = ok tt
    outcome (suc rounds) (ok conn ∷ rest) = outcome rounds rest
    outcome (suc rounds) (err e ∷ rest) =
        let more = outcome rounds rest in
        if is_gone e || runs_out e then more else if would_block e then ok tt else err e

    pub connections : List (Result Conn) → List Conn
    connections [] = []
    connections (ok conn ∷ rest) = conn ∷ connections rest
    connections (err e ∷ rest) = connections rest

    -- The answers that say that the system is out of descriptors or memory.
    pub exhaustions : List (Result Conn) → List Exc
    exhaustions [] = []
    exhaustions (ok conn ∷ rest) = exhaustions rest
    exhaustions (err e ∷ rest) =
        let more = exhaustions rest in if runs_out e then e ∷ more else more

    -- What a call does to the listener, told by the answers that it reads.
    pub record Accepts (seen : List (Result Conn)) (l m : Listener Conn) : Type 0 where
      pub tasks_made : m.tasks ≡ l.tasks ++ connections seen
      pub all_reported : m.reported ≡ l.reported ++ exhaustions seen
      pub timers_made : m.timers ≡ l.timers + length (exhaustions seen)

    accept_loop-Accepts :
        (rounds : ℕ) (answers : List (Result Conn)) (l : Listener Conn)
        → Accepts (answered rounds answers) l (accept_loop exhausted rounds answers l).1
    unfolding accept_loop answered connections exhaustions create_task out_of_resource
    accept_loop-Accepts zero answers l = record {
      tasks_made = sym (append-nil _);
      all_reported = sym (append-nil _);
      timers_made = omega arith;
    }
    accept_loop-Accepts (suc rounds) [] l = record {
      tasks_made = sym (append-nil _);
      all_reported = sym (append-nil _);
      timers_made = omega arith;
    }
    accept_loop-Accepts (suc rounds) (ok conn ∷ rest) l =
        let k = accept_loop-Accepts rounds rest (create_task exhausted conn l) in
        record {
          tasks_made = k.tasks_made ∙ append_assoc l.tasks (conn ∷ []) _;
          all_reported = k.all_reported;
          timers_made = k.timers_made;
        }
    accept_loop-Accepts (suc rounds) (err e ∷ rest) l = ground (
      arith,
      verdict-cases e,
      accept_loop-Accepts rounds rest l,
      accept_loop-Accepts rounds rest (out_of_resource exhausted e l),
      append_assoc l.reported (e ∷ []) (exhaustions (answered rounds rest)),
      append-nil l.tasks,
      append-nil l.reported,
    )

    accept_loop-outcome :
        (rounds : ℕ) (answers : List (Result Conn)) (l : Listener Conn)
        → (accept_loop exhausted rounds answers l).0 ≡ outcome rounds answers
    unfolding accept_loop outcome create_task
    accept_loop-outcome zero answers l = refl
    accept_loop-outcome (suc rounds) [] l = refl
    accept_loop-outcome (suc rounds) (ok conn ∷ rest) l =
        accept_loop-outcome rounds rest (create_task exhausted conn l)
    accept_loop-outcome (suc rounds) (err e ∷ rest) l = ground (
      arith,
      verdict-cases e,
      accept_loop-outcome rounds rest l,
      accept_loop-outcome rounds rest (out_of_resource exhausted e l),
    )

    length-answered :
        (rounds : ℕ) (answers : List (Result Conn)) → length (answered rounds answers) ≤ rounds
    unfolding answered
    length-answered zero answers = omega arith
    length-answered (suc rounds) [] = omega arith
    length-answered (suc rounds) (ok conn ∷ rest) = omega (arith, length-answered rounds rest)
    length-answered (suc rounds) (err e ∷ rest) = ground (arith, length-answered rounds rest)

    -- One readiness event reads at most `backlog + 1` answers, up to the first that would block or
    -- that escapes: connections, connections that were aborted, and exhaustions of the system's
    -- resources. Each connection among them gets a task, in order; each exhaustion is reported and
    -- starts a timer of its own; and what escapes comes out.
    pub accept_connection-Accepts :
        (backlog : ℕ) (answers : List (Result Conn)) (l : Listener Conn)
        → let seen = answered (backlog + 1) answers in
          Accepts seen l (accept_connection exhausted backlog answers l).1
          × (length seen ≤ backlog + 1)
          × ((accept_connection exhausted backlog answers l).0 ≡ outcome (backlog + 1) answers)
    unfolding accept_connection
    accept_connection-Accepts backlog answers l = (
      accept_loop-Accepts (backlog + 1) answers l,
      length-answered (backlog + 1) answers,
      accept_loop-outcome (backlog + 1) answers l,
    )

    loop_piles_up :
        (rounds : ℕ) (e : Exc) (l : Listener Conn)
        → verdict exhausted e ≡ retry_later
        → (accept_loop exhausted rounds (replicate rounds (err e)) l).1.timers ≡ l.timers + rounds
    unfolding accept_loop out_of_resource
    loop_piles_up zero e l h = omega arith
    loop_piles_up (suc rounds) e l h =
        ground (arith, loop_piles_up rounds e (out_of_resource exhausted e l) h)

    -- While the system stays out of resources, one readiness event starts not one timer but
    -- `backlog + 1` of them, since the loop goes on after it has removed the reader.
    pub accept_connection_piles_up :
        (backlog : ℕ) (e : Exc) (l : Listener Conn)
        → verdict exhausted e ≡ retry_later
        → (accept_connection exhausted backlog (replicate (backlog + 1) (err e)) l).1.timers
          ≡ l.timers + (backlog + 1)
    unfolding accept_connection
    accept_connection_piles_up backlog e l h = loop_piles_up (backlog + 1) e l h
