-- ===== src/Signals.antt =====
-- Signal handlers and the check of callbacks, python/tokioop/loop.py.
pub mod Laws
mod Tests
use tokioop.Prelude.{
  ℕ, Bool, true, false, not, ◌&&◌, ◌||◌, Option, none, some, List, [], ◌∷◌, ◌==◌, ltb, leb,
  if◌then◌else◌,
}
use tokioop.Python.{
  Exc, type_error, value_error, runtime_error, is_os_error, Result, ok, err, Method, pure, raise,
  modify, skip, gets, raise_if, lift, try_else, ◌>>=◌, ◌>>◌,
}

-- A dictionary from signals to callbacks.
abbrev pub Handlers : Type 0
Handlers = List (ℕ × ℕ)

unfoldable pub lookup : ℕ → Handlers → Option ℕ
lookup n [] = none
lookup n ((m, c) ∷ rest) = let later = lookup n rest in if m == n then some c else later

unfoldable pub put : ℕ → ℕ → Handlers → Handlers
put n c [] = (n, c) ∷ []
put n c ((m, d) ∷ rest) =
    let others = put n c rest in if m == n then (n, c) ∷ rest else (m, d) ∷ others

unfoldable pub delete : ℕ → Handlers → Handlers
delete n [] = []
delete n ((m, d) ∷ rest) = let others = delete n rest in if m == n then rest else (m, d) ∷ others

-- The loop, and the handlers that the process has; a signal without one has `SIG_DFL`.
pub record Loop : Type 0 where
  pub closed : Bool
  pub signal_handlers : Handlers
  pub process : Handlers

-- A signal as it is given: an integer, or something else.
pub data SignalArg : Type 0 where
  number : ℕ → SignalArg
  negative : ℕ → SignalArg
  no_int : SignalArg

-- A callback as it is given.
pub data CallbackArg : Type 0 where
  coroutine uncallable : CallbackArg
  callable : ℕ → CallbackArg

-- `_check_callback`
unfoldable pub check_callback : {S : Type 0} → CallbackArg → Method S ℕ
check_callback coroutine = raise type_error
check_callback uncallable = raise type_error
check_callback (callable c) = pure c

-- `_check_closed`, which the core provides.
unfoldable pub check_closed : Method Loop (Unit {0})
check_closed l = raise_if l.closed runtime_error l

-- `signal.signal(sig, handler)`, with its answer.
unfoldable pub install : Result (Unit {0}) → ℕ → ℕ → Method Loop (Unit {0})
install (ok _) n c = modify λ l. record l { process = put n c l.process }
install (err e) n c = raise e

unfoldable pub uninstall : Result (Unit {0}) → ℕ → Method Loop (Unit {0})
uninstall (ok _) n = modify λ l. record l { process = delete n l.process }
uninstall (err e) n = raise e

unfoldable pub refused : Exc → Method Loop (Unit {0})
refused e = if is_os_error e then raise runtime_error else raise e

unfoldable pub ignored : Exc → Method Loop (Unit {0})
ignored e = if is_os_error e then skip else raise e

unfoldable pub store_handler : ℕ → ℕ → Method Loop (Unit {0})
store_handler n c = modify λ l. record l { signal_handlers = put n c l.signal_handlers }

-- The handler is in the dictionary; it is deleted from there first.
unfoldable pub reset : Result (Unit {0}) → ℕ → Method Loop Bool
reset answer n = do
  modify λ l. record l { signal_handlers = delete n l.signal_handlers }
  try_else (uninstall answer n) ignored (λ _. skip)
  pure true

-- The operating system's `NSIG`, `SIGKILL` and `SIGSTOP`.
module _ (nsig sigkill sigstop : ℕ) where
  unfoldable pub check_signal : SignalArg → Method Loop ℕ
  check_signal no_int = raise type_error
  check_signal (negative n) = raise value_error
  check_signal (number n) = do
    raise_if (not (leb 1 n && ltb n nsig)) value_error
    raise_if ((n == sigkill) || (n == sigstop)) runtime_error
    pure n

  unfoldable pub add_signal_handler :
      Result (Unit {0}) → SignalArg → CallbackArg → Method Loop (Unit {0})
  add_signal_handler answer sig callback = do
    check_closed
    n ← check_signal sig
    c ← check_callback callback
    try_else (install answer n c) refused (λ _. store_handler n c)

  unfoldable pub remove_signal_handler : Result (Unit {0}) → SignalArg → Method Loop Bool
  remove_signal_handler answer sig = do
    n ← check_signal sig
    known ← gets λ l. lookup n l.signal_handlers
    elim known [ none ↦ pure false | some c ↦ reset answer n ]
