-- ===== src/Transport/Life/Write.antt =====
-- The write side keeps a transport sound, where the protocol's code leaves the transport alone.
use tokioop.Prelude.{
  ℕ, ◌≡◌, arith, true, [], ◌∷◌, ◌++◌, inl, inr, Bool-cases, is_empty, Option, if◌then◌else◌, drop,
}
use tokioop.Python.{Bytes, Exc, Result, is_exit, would_block, raise, skip, Method}
use tokioop.Python.Rules.{Keeps, Keeps->>, Keeps-try_else}
use tokioop.Transport.Core
use tokioop.Transport.Core.{Callback}
use tokioop.Transport.Stream.{
  Stream, User, Call, Waiter, base, sock_send, shutdown, settle, release, call_connection_lost,
}
use tokioop.Transport.Write.{
  Kernel, PyArg, bytes_like, no_bytes, enqueue, watch_and_enqueue, send_now, write_bytes, write,
  write_eof, make_empty_waiter, reset_empty_waiter,
}
use tokioop.Transport.Life.Invariant.{IsSound, scheduled, final-snoc, heard-snoc, starts-snoc}
use tokioop.Transport.Life.Base.{add_writer-IsSound, set_buffer-IsSound, fatal_error-IsSound}

-- User code that leaves the transport alone; it may raise.
pub record IsBystander (u : User) : Type 0 where
  pub on_made : (s : Stream) → (u.connection_made s).1 ≡ s
  pub on_data : (payload : Bytes) (s : Stream) → (u.data_received payload s).1 ≡ s
  pub on_eof : (s : Stream) → (u.eof_received s).1 ≡ s
  pub on_buffer : (s : Stream) → (u.get_buffer s).1 ≡ s
  pub on_update : (n : ℕ) (s : Stream) → (u.buffer_updated n s).1 ≡ s
  pub on_lost : (e : Option Exc) (s : Stream) → (u.connection_lost e s).1 ≡ s
  pub on_pause : (s : Stream) → (u.maybe_pause_protocol s).1 ≡ s
  pub on_resume : (s : Stream) → (u.maybe_resume_protocol s).1 ≡ s

sock_send-IsSound : (payload : Bytes) (answer : Result ℕ) → Keeps IsSound (sock_send payload answer)
unfolding sock_send
sock_send-IsSound payload answer s v = ground arith

pub shutdown-IsSound : (answer : Result (Unit {0})) → Keeps IsSound (shutdown answer)
unfolding shutdown
shutdown-IsSound answer s v = ground arith

pub settle-IsSound : (w : Waiter) → Keeps IsSound (settle w)
unfolding settle
settle-IsSound w s v = ground arith

pub write_eof-IsSound : (k : Kernel) → Keeps IsSound (write_eof k)
unfolding write_eof shutdown
write_eof-IsSound k s v = ground arith

pub make_empty_waiter-IsSound : Keeps IsSound make_empty_waiter
unfolding make_empty_waiter
make_empty_waiter-IsSound s v = ground arith

pub reset_empty_waiter-IsSound : Keeps IsSound reset_empty_waiter
unfolding reset_empty_waiter
reset_empty_waiter-IsSound s v = ground arith

module _ (u : User) (b : IsBystander u) where
  pub pause-IsSound : Keeps IsSound u.maybe_pause_protocol
  pause-IsSound s v = rw (b.on_pause s) v

  -- The end of the connection, while nothing else is scheduled.
  pub call_connection_lost-IsSound :
      (e : Option Exc) (s : Stream)
      → IsSound s
      → s.sock ≡ true
      → s.closing ≡ true
      → scheduled s.ready ≡ 0
      → IsSound (call_connection_lost u e s).1
  unfolding call_connection_lost release settle
  call_connection_lost-IsSound e s v k c n = ground (
    arith,
    b.on_lost e (record s { calls = s.calls ++ Call.connection_lost e ∷ [] }),
    final-snoc s.calls (Call.connection_lost e),
    heard-snoc s.calls (Call.connection_lost e),
    starts-snoc s.calls (Call.connection_lost e),
    v,
  )

  enqueue-IsSound : (payload : Bytes) → Keeps IsSound (enqueue u payload)
  unfolding enqueue
  enqueue-IsSound payload s v = pause-IsSound _ (set_buffer-IsSound (s.buffer ++ payload ∷ []) s v)

  watch-IsSound : (payload : Bytes) → Keeps IsSound (watch_and_enqueue u payload)
  unfolding watch_and_enqueue
  watch-IsSound payload =
      Keeps->> IsSound (base Core.add_writer) (enqueue u payload) add_writer-IsSound
        (enqueue-IsSound payload)

  -- The handlers and the `else` block of the attempt to send at once.
  abbrev not_sent : Bytes → Exc → Method Stream (Unit {0})
  not_sent payload e =
      if would_block e
      then watch_and_enqueue u payload
      else if is_exit e
      then raise e
      else base (Core.fatal_error e)

  abbrev partly_sent : Bytes → ℕ → Method Stream (Unit {0})
  partly_sent payload n =
      if is_empty (drop n payload) then skip else watch_and_enqueue u (drop n payload)

  not_sent-IsSound : (payload : Bytes) (e : Exc) → Keeps IsSound (not_sent payload e)
  not_sent-IsSound payload e s v = elim (Bool-cases (would_block e)) [
    | inl busy ↦ rw busy (watch-IsSound payload s v)
    | inr fails ↦ rw fails (elim (Bool-cases (is_exit e)) [
      | inl exit ↦ rw exit v
      | inr caught ↦ rw caught (fatal_error-IsSound e s v)
    ])
  ]

  partly_sent-IsSound : (payload : Bytes) (n : ℕ) → Keeps IsSound (partly_sent payload n)
  partly_sent-IsSound payload n s v = elim (Bool-cases (is_empty (drop n payload))) [
    | inl all ↦ rw all v
    | inr more ↦ rw more (watch-IsSound (drop n payload) s v)
  ]

  send_now-IsSound :
      (payload : Bytes) (answer : Result ℕ) → Keeps IsSound (send_now u payload answer)
  unfolding send_now
  send_now-IsSound payload answer =
      Keeps-try_else IsSound (sock_send payload answer) (not_sent payload) (partly_sent payload)
        (sock_send-IsSound payload answer) (not_sent-IsSound payload) (partly_sent-IsSound payload)

  write_bytes-IsSound :
      (payload : Bytes) (answer : Result ℕ) → Keeps IsSound (write_bytes u payload answer)
  unfolding write_bytes
  write_bytes-IsSound payload answer s v =
      ground (arith, enqueue-IsSound payload s v, send_now-IsSound payload answer s v)

  pub write-IsSound : (arg : PyArg) (answer : Result ℕ) → Keeps IsSound (write u arg answer)
  unfolding write
  write-IsSound no_bytes answer s v = v
  write-IsSound (bytes_like payload) answer s v = write_bytes-IsSound payload answer s v
