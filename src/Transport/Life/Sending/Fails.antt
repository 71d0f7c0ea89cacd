-- ===== src/Transport/Life/Sending/Fails.antt =====
-- An error of the connection loses it, and sends nothing.
use tokioop.Prelude.{ℕ, ltb, ◌⊎◌, some, ◌≤◌, ◌≡◌, arith, true, false, [], Bool-cases, inl, inr}
use tokioop.Python.{Exc, Result, ok, err, would_block, is_exit, ◌>>◌}
use tokioop.Python.Rules.{bind_result}
use tokioop.Transport.Core
use tokioop.Transport.Stream.{Stream, User, Waiter, base, settle}
use tokioop.Transport.Write.{set_buffer, write_failed}
use tokioop.Transport.Life.Invariant.{IsSound}
use tokioop.Transport.Life.Base.{noted, noted-IsSound}
use tokioop.Transport.Life.Sending.{Spares, Spares-refl, uses_send}

-- The kernel takes at most what it is offered, and a signal that ends the program does not arrive in
-- the call.
abbrev pub Fits : ℕ → Result ℕ → Type 0
Fits m (ok n) = n ≤ m
Fits m (err e) = is_exit e ≡ false

-- Nothing is sent, and the connection is lost.
pub record Lapses (s t : Stream) : Type 0 where
  pub same_sent : t.sent ≡ s.sent
  pub open_before : t.sock ≡ true → s.sock ≡ true
  pub same_callback : uses_send s.write_ready ≡ false → uses_send t.write_ready ≡ false
  pub lost : t.sock ≡ true → ltb 0 t.conn_lost ≡ true

Lapses-Spares : (s t : Stream) → Lapses s t → Spares s t
Lapses-Spares s t l = ground (arith, l)

force_close-Lapses : (e : _) (s : Stream) → IsSound s → Lapses s (base (Core.force_close e) s).1
unfolding Core.force_close Core.remove_reader Core.remove_writer Core.call_soon
force_close-Lapses e s v = ground arith

noted-Lapses : (e : Exc) (s t : Stream) → Lapses (noted e s) t → Lapses s t
unfolding noted
noted-Lapses e s t l = ground (arith, l)

fatal_error_told :
    (e : Exc) (s : Stream)
    → s.loop ≡ true
    → ((base (Core.fatal_error e) s).1 ≡ (base (Core.force_close (some e)) s).1)
      ⊎ ((base (Core.fatal_error e) s).1 ≡ (base (Core.force_close (some e)) (noted e s)).1)
unfolding Core.fatal_error Core.call_exception_handler noted
fatal_error_told e s l = ground arith

pub fatal_error-Lapses :
    (e : Exc) (s : Stream) → IsSound s → s.sock ≡ true → Lapses s (base (Core.fatal_error e) s).1
fatal_error-Lapses e s v o = elim (fatal_error_told e s (v.has_loop o)) [
  | inl plain ↦ rw plain (force_close-Lapses (some e) s v)
  | inr told ↦ rw told (
      noted-Lapses e s (base (Core.force_close (some e)) (noted e s)).1
        (force_close-Lapses (some e) (noted e s) (noted-IsSound e s v)))
]

-- What `write_failed` does before it reports the error.
unfoldable emptied : Stream → Stream
emptied s = record s { core = record (s.core) { writer = false; buffer = [] } }

emptied-IsSound : (s : Stream) → IsSound s → IsSound (emptied s)
unfolding emptied
emptied-IsSound s v = ground arith

settled-Lapses : (w : Waiter) (s t : Stream) → Lapses (emptied s) t → Lapses s (settle w t).1
unfolding emptied settle
settled-Lapses w s t l = ground (arith, l)

Lapses-emptied : (s t : Stream) → Lapses (emptied s) t → Lapses s t
unfolding emptied
Lapses-emptied s t l = ground (arith, l)

module _ (u : User) where
  reported-Lapses :
      (e : Exc) (s : Stream)
      → IsSound s
      → s.sock ≡ true
      → Lapses s ((base (Core.fatal_error e) >> settle (Waiter.failed e)) (emptied s)).1
  unfolding emptied
  reported-Lapses e s v o =
      let l = fatal_error-Lapses e (emptied s) (emptied-IsSound s v) o in
      bind_result (Lapses s) (λ _. settle (Waiter.failed e)) (base (Core.fatal_error e) (emptied s))
        (λ _ _. settled-Lapses (Waiter.failed e) s (base (Core.fatal_error e) (emptied s)).1 l)
        (Lapses-emptied s (base (Core.fatal_error e) (emptied s)).1 l)

  write_failed_lem :
      (e : Exc) (s : Stream)
      → would_block e ≡ false
      → is_exit e ≡ false
      → s.loop ≡ true
      → s.loop_closed ≡ false
      → write_failed u e s ≡ (base (Core.fatal_error e) >> settle (Waiter.failed e)) (emptied s)
  unfolding write_failed Core.remove_writer set_buffer emptied
  write_failed_lem e s w x l o = rw (w, x) (ground arith)

  pub write_failed-Spares :
      (e : Exc) (s : Stream)
      → IsSound s
      → s.sock ≡ true
      → is_exit e ≡ false
      → Spares s (write_failed u e s).1
  unfolding write_failed
  write_failed-Spares e s v o x = elim (Bool-cases (would_block e)) [
    | inl busy ↦ rw busy (Spares-refl s)
    | inr fails ↦
        rw (write_failed_lem e s fails x (v.has_loop o) v.loop_open)
          (Lapses-Spares s _ (reported-Lapses e s v o))
  ]
