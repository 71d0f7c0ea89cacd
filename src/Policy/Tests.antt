-- ===== src/Policy/Tests.antt =====
-- The policy of two threads.
use tokioop.Prelude.{◌≡◌, refl, some, [], ◌∷◌}
use tokioop.Python.{runtime_error, ok, err}
use tokioop.Policy.{Policy, loop_of, get_event_loop, set_event_loop}

-- Thread 2 has a loop.
abbrev other_set : Policy
other_set = record { local = (2, some 5) ∷ [] }

unset_thread : (get_event_loop 1 other_set).0 ≡ err runtime_error
unfolding get_event_loop loop_of
unset_thread = refl

set_thread : (get_event_loop 1 (set_event_loop 1 (some 7) other_set).1).0 ≡ ok 7
unfolding get_event_loop set_event_loop loop_of
set_thread = refl

other_thread : (get_event_loop 2 (set_event_loop 1 (some 7) other_set).1).0 ≡ ok 5
unfolding get_event_loop set_event_loop loop_of
other_thread = refl
