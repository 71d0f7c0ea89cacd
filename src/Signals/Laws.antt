-- ===== src/Signals/Laws.antt =====
-- What adding and removing signal handlers comes to.
use tokioop.Prelude.{ℕ, ◌≤◌, ◌<◌, ◌≡◌, ◌≢◌, true, false, none, some, [], ◌∷◌, arith}
use tokioop.Python.{Result, ok, err}
use tokioop.Signals.{
  Handlers, lookup, put, delete, Loop, SignalArg, number, negative, no_int, CallbackArg, coroutine,
  uncallable, callable, check_callback, check_closed, check_signal, install, uninstall, refused,
  store_handler, add_signal_handler, reset, remove_signal_handler,
}

delete-put : (n c : ℕ) (hs : Handlers) → lookup n hs ≡ none → delete n (put n c hs) ≡ hs
unfolding lookup put delete
delete-put n c [] h = ground arith
delete-put n c ((m, d) ∷ rest) h = ground (arith, delete-put n c rest)

lookup-put_same : (n c : ℕ) (hs : Handlers) → lookup n (put n c hs) ≡ some c
unfolding lookup put
lookup-put_same n c [] = ground arith
lookup-put_same n c ((m, d) ∷ rest) = ground (arith, lookup-put_same n c rest)

lookup-put_other : (n m c : ℕ) (hs : Handlers) → m ≢ n → lookup m (put n c hs) ≡ lookup m hs
unfolding lookup put
lookup-put_other n m c [] h = ground arith
lookup-put_other n m c ((k, d) ∷ rest) h = ground (arith, lookup-put_other n m c rest h)

lookup-delete_other : (n m : ℕ) (hs : Handlers) → m ≢ n → lookup m (delete n hs) ≡ lookup m hs
unfolding lookup delete
lookup-delete_other n m [] h = ground arith
lookup-delete_other n m ((k, d) ∷ rest) h = ground (arith, lookup-delete_other n m rest h)

module _ (nsig sigkill sigstop : ℕ) where
  -- The conditions of `add_signal_handler`.
  abbrev pub MayAdd : SignalArg → CallbackArg → Loop → Type 0
  MayAdd (number n) (callable c) l =
      (l.closed ≡ false) × (1 ≤ n) × (n < nsig) × (n ≢ sigkill) × (n ≢ sigstop)
  MayAdd sig callback l = ⊥

  -- What it leaves behind where it returns.
  abbrev pub Added : SignalArg → CallbackArg → Loop → Type 0
  Added (number n) (callable c) t =
      (lookup n t.signal_handlers ≡ some c) × (lookup n t.process ≡ some c)
  Added sig callback t = ⊥

  -- What it comes to.
  abbrev pub Outcome :
      Result (Unit {0}) → SignalArg → CallbackArg → Loop → Result (Unit {0}) × Loop → Type 0
  Outcome answer sig callback l (ok _, t) = MayAdd sig callback l × Added sig callback t
  Outcome answer sig callback l (err e, t) = (t ≡ l) × ¬ (MayAdd sig callback l × (answer ≡ ok tt))

  -- `add_signal_handler` returns only if it was called on an open loop, with a number from 1 to below
  -- `NSIG` that is neither `SIGKILL` nor `SIGSTOP`, and with a callable; the handler is then in the
  -- loop's dictionary and in the process. It raises only if one of these conditions fails or the
  -- operating system refuses the handler, and then the loop is as it was.
  pub add_signal_handler_lem :
      (answer : Result (Unit {0})) (sig : SignalArg) (callback : CallbackArg) (l : Loop)
      → Outcome answer sig callback l
          (add_signal_handler nsig sigkill sigstop answer sig callback l)
  unfolding add_signal_handler check_closed check_signal check_callback install refused
      store_handler
  add_signal_handler_lem answer no_int callback l = ground arith
  add_signal_handler_lem answer (negative n) callback l = ground arith
  add_signal_handler_lem answer (number n) coroutine l = ground arith
  add_signal_handler_lem answer (number n) uncallable l = ground arith
  add_signal_handler_lem answer (number n) (callable c) l =
      ground (arith, lookup-put_same n c l.signal_handlers, lookup-put_same n c l.process)

  -- A handler that was added for a signal without one is taken off again, `True` is given out, and the
  -- loop's dictionary and the process are as before, where the operating system lets both calls do
  -- their work; taken off once more, it gives out `False` and changes nothing.
  pub remove_signal_handler-add_signal_handler :
      (n c : ℕ) (l : Loop)
      → MayAdd (number n) (callable c) l
      → lookup n l.signal_handlers ≡ none
      → lookup n l.process ≡ none
      → let t = (add_signal_handler nsig sigkill sigstop (ok tt) (number n) (callable c) l).1 in
        (remove_signal_handler nsig sigkill sigstop (ok tt) (number n) t ≡ (ok true, l))
        × (remove_signal_handler nsig sigkill sigstop (ok tt) (number n) l ≡ (ok false, l))
  unfolding add_signal_handler check_closed check_signal check_callback install refused
      store_handler remove_signal_handler reset uninstall
  remove_signal_handler-add_signal_handler n c l may h p = ground (
    arith,
    delete-put n c l.signal_handlers h,
    delete-put n c l.process p,
    lookup-put_same n c l.signal_handlers,
  )
