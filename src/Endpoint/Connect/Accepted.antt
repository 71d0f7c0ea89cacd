-- ===== src/Endpoint/Connect/Accepted.antt =====
-- How `_accept_connection2` ends.
use tokioop.Prelude.{
  ℕ, ◌≡◌, ◌⊎◌, inl, inr, Bool, true, false, ◌∷◌, arith, ap, Bool-cases, if◌then◌else◌,
}
use tokioop.Python.{Exc, is_exit, Result, ok, err, raise, skip, when, try_else}
use tokioop.Endpoint.{
  Sys, in_use, Outside, start_transport, make_transport, ensure_fd_no_transport, fileobj_to_fd,
  check_no_transport, register_transport, drop_transport, await_waiter, without,
}
use tokioop.Endpoint.Made.{Started, start_transport-Started}
use tokioop.Endpoint.Connect.{report, accept_connection2}

-- What a failure leaves: a transport that is closing; or an open socket without a transport, where
-- the protocol factory raised; or a closed socket, where the constructor raised.
abbrev pub Failed : Outside → ℕ → Sys → Exc → Sys → Type 0
Failed o k y e t =
    ((t.live ≡ y.live) × (o.waiter ≡ err e) × (t.transports ≡ (k, true) ∷ y.transports))
    ⊎ ((t.live ≡ y.live) × (t.transports ≡ y.transports) × (o.factory ≡ err e))
    ⊎ ((t.live ≡ without k y.live) × (t.transports ≡ y.transports) × (o.constructor ≡ err e))

-- What `_accept_connection2` comes to. It raises nothing but `SystemExit` and `KeyboardInterrupt`.
unfoldable pub Handled : Bool → Outside → ℕ → Sys → Result (Unit {0}) × Sys → Type 0
Handled debug o k y (err e, t) = (is_exit e ≡ true) × (t.reported ≡ y.reported) × Failed o k y e t
Handled debug o k y (ok _, t) =
    ((t.live ≡ y.live) × (t.transports ≡ (k, false) ∷ y.transports) × (t.reported ≡ y.reported))
    ⊎ ((e : Exc) × (is_exit e ≡ false)
        × (t.reported ≡ (if debug then e ∷ y.reported else y.reported))
        × Failed o k y e t)

Started-Handled :
    (debug : Bool) (o : Outside) (k : ℕ) (y : Sys) (x : Result ℕ × Sys)
    → x.1.reported ≡ y.reported
    → Started o k y x
    → Handled debug o k y (
        try_else
          (λ (_ : Sys). x)
          (λ e. if is_exit e then raise e else when debug (report e))
          (λ _. skip)
          y)
unfolding Started Handled report
Started-Handled debug o k y (ok j, t) r h = inl (h.1, h.2, r)
Started-Handled true o k y (err e, t) r d = elim (Bool-cases (is_exit e)) [
  | inl x ↦ rw x (x, r, d)
  | inr n ↦ rw n (inr (e, n, ap (λ es. e ∷ es) r, d))
]
Started-Handled false o k y (err e, t) r d = elim (Bool-cases (is_exit e)) [
  | inl x ↦ rw x (x, r, d)
  | inr n ↦ rw n (inr (e, n, r, d))
]

start_transport-reported :
    (o : Outside) (k : ℕ) (y : Sys) → (start_transport o false k y).1.reported ≡ y.reported
unfolding start_transport make_transport ensure_fd_no_transport fileobj_to_fd check_no_transport
    register_transport drop_transport await_waiter
start_transport-reported o k y = ground arith

-- An accepted connection whose descriptor has no open transport, without SSL: `_accept_connection2`
-- gives it a transport; or it fails with an exception, which comes out where it is `SystemExit` or
-- `KeyboardInterrupt` and else is reported once in debug mode or dropped. After a failure of the wait
-- the transport is closing; where the protocol factory raised, the socket is left open without one; and
-- where the constructor raised, the socket is closed.
pub accept_connection2-Handled :
    (debug : Bool) (o : Outside) (k : ℕ) (y : Sys)
    → in_use k y.transports ≡ false
    → Handled debug o k y (accept_connection2 debug o false k y)
unfolding accept_connection2
accept_connection2-Handled debug o k y free =
    Started-Handled debug o k y (start_transport o false k y) (start_transport-reported o k y)
      (start_transport-Started o k y free)
