-- ===== src/Client.antt =====
-- `_connect_sock` and the attempts of `create_connection` of python/tokioop/loop.py, one after the
-- other (no happy eyeballs), after the names are resolved.
pub mod Once
pub mod NoLeak
pub mod Report
mod Tests
use tokioop.Prelude.{
  ℕ, suc, Bool, true, false, not, ◌&&◌, Option, none, some, List, [], ◌∷◌, ◌++◌, ◌==◌, concat,
  is_empty, if◌then◌else◌,
}
use tokioop.Python.{
  Bytes, Exc, os_error, is_os_error, Result, ok, err, Method, pure, gets, raise, modify, skip, when,
  lift, catch, try_else, ◌>>=◌, ◌>>◌,
}

-- What the operating system answers to the calls on one address. A local address is given with
-- whether it is of the same family, and what `bind` answers.
pub record Target : Type 0 where
  pub create : Result (Unit {0})
  pub locals : Option (List (Bool × Result (Unit {0})))
  pub connect : Result (Unit {0})
  pub close : Result (Unit {0})

pub record Client : Type 0 where
  pub next : ℕ
  -- The sockets that are open, and the one of this attempt.
  pub live : List ℕ
  pub current : Option ℕ
  -- `my_exceptions`, and the list of all of them.
  pub mine : List Exc
  pub exceptions : List (List Exc)

unfoldable pub start_attempt : Method Client (Unit {0})
start_attempt = modify λ c. record c { current = none; mine = [] }

unfoldable pub open_client : Method Client (Unit {0})
open_client =
    modify λ c. record c { next = suc c.next; live = c.next ∷ c.live; current = some c.next }

-- `my_exceptions.append(exc)`
unfoldable pub note : Exc → Method Client (Unit {0})
note e = modify λ c. record c { mine = c.mine ++ e ∷ [] }

-- `my_exceptions.pop()`, of the last one.
unfoldable pub pop_last : List Exc → Option (Exc × List Exc)
pop_last [] = none
pop_last (e ∷ es) = elim (pop_last es) [
  | none ↦ some (e, [])
  | some (last, rest) ↦ some (last, e ∷ rest)
]

-- "All bind attempts failed."
unfoldable pub none_bound : Method Client (Unit {0})
none_bound c = elim (pop_last c.mine) [
  | none ↦ (err (os_error 0), c)
  | some (e, rest) ↦ (err e, record c { mine = rest })
]

unfoldable pub drop_live : ℕ → List ℕ → List ℕ
drop_live k [] = []
drop_live k (x ∷ xs) = let rest = drop_live k xs in if x == k then xs else x ∷ rest

-- `if sock is not None: sock.close()`; an `OSError` of the call is dropped.
unfoldable pub close_current : Result (Unit {0}) → Method Client (Unit {0})
close_current answer c = elim c.current [
  | none ↦ (ok tt, c)
  | some k ↦ (
    elim answer [ ok _ ↦ ok tt | err e ↦ if is_os_error e then ok tt else err e ],
    record c { live = drop_live k c.live },
  )
]

-- The `finally` block: the list of this attempt's exceptions stays in the list of all.
unfoldable pub end_attempt : {A : Type 0} → Result A × Client → Result A × Client
end_attempt (r, c) = (r, record c { exceptions = c.exceptions ++ c.mine ∷ [] })

module _ (errno : Exc → ℕ) where
  unfoldable pub bind_local : List (Bool × Result (Unit {0})) → Method Client (Unit {0})
  bind_local [] = none_bound
  bind_local ((false, answer) ∷ rest) = bind_local rest
  bind_local ((true, ok _) ∷ rest) = skip
  bind_local ((true, err e) ∷ rest) =
      if is_os_error e then (do note (os_error (errno e)); bind_local rest) else raise e

  unfoldable pub bind_locals : Option (List (Bool × Result (Unit {0}))) → Method Client (Unit {0})
  bind_locals none = skip
  bind_locals (some answers) = bind_local answers

  -- The inner `try` block.
  unfoldable pub connect_once : Target → Method Client ℕ
  connect_once a = do
    lift a.create
    open_client
    bind_locals a.locals
    lift a.connect
    gets (λ c. elim c.current [ none ↦ 0 | some k ↦ k ])

  unfoldable pub note_failure : Exc → Method Client ℕ
  note_failure e = if is_os_error e then (do note e; raise e) else raise e

  unfoldable pub connect_sock : Target → Method Client ℕ
  connect_sock a c = end_attempt (
      (do
        start_attempt
        catch (catch (connect_once a) note_failure) (λ e. do close_current a.close; raise e))
        c)

  -- The loop over the addresses.
  unfoldable pub try_targets : List Target → Method Client (Option ℕ)
  try_targets [] = pure none
  try_targets (a ∷ rest) =
      try_else (connect_sock a) (λ e. if is_os_error e then try_targets rest else raise e)
        (λ k. pure (some k))

-- What `create_connection` raises when no attempt succeeded.
pub data Failure : Type 0 where
  group multiple : List Exc → Failure
  single : Exc → Failure
  empty_group timed_out : Failure

-- `same` compares the texts of two exceptions.
unfoldable pub all_same : (Exc → Exc → Bool) → Exc → List Exc → Bool
all_same same model [] = true
all_same same model (e ∷ es) = same e model && all_same same model es

unfoldable pub connect_failure : (Exc → Exc → Bool) → Bool → List (List Exc) → Failure
connect_failure same all_errors lists = elim (concat lists) [
  | [] ↦ if all_errors then empty_group else timed_out
  | e ∷ es ↦
      if all_errors
      then group (e ∷ es)
      else if is_empty es
      then single e
      else if all_same same e (e ∷ es)
      then single e
      else multiple (e ∷ es)
]
