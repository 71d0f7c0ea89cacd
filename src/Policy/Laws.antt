-- ===== src/Policy/Laws.antt =====
-- What a policy promises: each thread has the loop that was set there last.
use tokioop.Prelude.{ℕ, ◌≡◌, ◌≢◌, Option, none, some, arith}
use tokioop.Python.{runtime_error, ok, err}
use tokioop.Policy.{Policy, loop_of, get_event_loop, set_event_loop}

-- After `set_event_loop` with a loop, `get_event_loop` of the same thread gives that loop out, and
-- after one with `None` it raises a `RuntimeError`; every other thread still gets what it got before.
get_event_loop-set_event_loop :
    (thread other loop : ℕ) (p : Policy)
    → other ≢ thread
    → ((get_event_loop thread (set_event_loop thread (some loop) p).1).0 ≡ ok loop)
      × ((get_event_loop thread (set_event_loop thread none p).1).0 ≡ err runtime_error)
      × ((x : Option ℕ)
          → (get_event_loop other (set_event_loop thread x p).1).0 ≡ (get_event_loop other p).0)
unfolding get_event_loop set_event_loop loop_of
get_event_loop-set_event_loop thread other loop p h = ground arith
