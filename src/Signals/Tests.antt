-- ===== src/Signals/Tests.antt =====
-- Signal handlers on concrete calls: `NSIG` is 65, `SIGKILL` 9 and `SIGSTOP` 19.
use tokioop.Prelude.{◌≡◌, refl, arith, true, false, none, [], ◌∷◌}
use tokioop.Python.{ok}
use tokioop.Signals.{Loop, lookup, number, callable, add_signal_handler, remove_signal_handler}
use tokioop.Signals.Laws.{
  MayAdd, Outcome, add_signal_handler_lem, remove_signal_handler-add_signal_handler,
}

-- SIGTERM, 15, has a handler.
abbrev open_loop : Loop
open_loop = record { closed = false; signal_handlers = (15, 1) ∷ []; process = (15, 1) ∷ [] }

add_signal_handler_lem_example :
    Outcome 65 9 19
      (ok tt)
      (number 2)
      (callable 7)
      open_loop
      (add_signal_handler 65 9 19 (ok tt) (number 2) (callable 7) open_loop)
add_signal_handler_lem_example =
    add_signal_handler_lem 65 9 19 (ok tt) (number 2) (callable 7) open_loop

may_add : MayAdd 65 9 19 (number 2) (callable 7) open_loop
may_add = (refl, omega arith, omega arith, ground arith, ground arith)

no_handler : lookup 2 open_loop.signal_handlers ≡ none
unfolding lookup
no_handler = refl

remove_signal_handler-add_signal_handler_example :
    let t = (add_signal_handler 65 9 19 (ok tt) (number 2) (callable 7) open_loop).1 in
    (remove_signal_handler 65 9 19 (ok tt) (number 2) t ≡ (ok true, open_loop))
    × (remove_signal_handler 65 9 19 (ok tt) (number 2) open_loop ≡ (ok false, open_loop))
remove_signal_handler-add_signal_handler_example =
    remove_signal_handler-add_signal_handler 65 9 19 2 7 open_loop may_add no_handler no_handler
