-- ===== src/Transport/Life/Teardown.antt =====
-- Over every life of a stream transport: the protocol hears of the end of its connection at most
-- once, and of nothing after it.
use tokioop.Prelude.{
  ◌≤◌, ℕ, suc, ◌≡◌, refl, arith, true, false, Bool, Option, none, some, List, [], ◌∷◌, ◌++◌, length,
}
use tokioop.Python.{Bytes, Exc, Result, ok}
use tokioop.Python.Rules.{Keeps}
use tokioop.Transport.Core
use tokioop.Transport.Core.{Protocol, Callback, Reader, drain_tcp, drain_udp}
use tokioop.Transport.Stream.{Stream, User, Call, on_protocol}
use tokioop.Transport.Write.{write_sendmsg_ready}
use tokioop.Transport.Read.{set_protocol, switch_mode, resume_reading}
use tokioop.Transport.Life.{
  Event, write_call, writelines_call, write_eof_call, close_call, abort_call, pause_call,
  resume_call, set_protocol_call, wait_empty, end_wait, writable, arrival, readable, next_callback,
  new_stream, run_callback, run_ready, run_reader, resume, step, run,
}
use tokioop.Transport.Life.Invariant.{
  IsSound, quiet, final, scheduled, is_end, is_start, unmade, heard, starts, quiet-snoc, heard-snoc,
  starts-snoc, starts-heard, final-one,
}
use tokioop.Transport.Life.Base.{
  register_reader-IsSound, pause_reading-IsSound, close-IsSound, abort-IsSound,
}
use tokioop.Transport.Life.Write.{
  IsBystander, write_eof-IsSound, make_empty_waiter-IsSound, reset_empty_waiter-IsSound,
  call_connection_lost-IsSound, write-IsSound,
}
use tokioop.Transport.Life.Flush.{write_sendmsg_ready-IsSound, writelines-IsSound}
use tokioop.Transport.Life.Stable.{set_protocol-IsSound, IsSound-IsStable}
use tokioop.Transport.Life.Read.{drain-Keeps, resume_reading-Keeps, After}
use tokioop.Transport.Life.Ready.{read_ready-Keeps}

pub new_stream-IsSound :
    (server waiter : Bool) (p : Protocol) → IsSound (new_stream server waiter p)
unfolding new_stream set_protocol switch_mode Core.call_soon quiet final scheduled unmade heard
    starts
new_stream-IsSound server waiter p = ground arith

taken-IsSound :
    (cb : Callback) (rest : List Callback) (s : Stream)
    → IsSound s
    → s.ready ≡ cb ∷ rest
    → is_end cb ≡ false
    → is_start cb ≡ false
    → IsSound (record s { core = record (s.core) { ready = rest } })
unfolding scheduled unmade
taken-IsSound cb rest s v e h k = ground arith

-- A scheduled end of the connection comes up: the socket is there, and nothing else is scheduled.
end-IsSound :
    (x : Option Exc) (rest : List Callback) (s : Stream)
    → IsSound s
    → s.ready ≡ Callback.connection_lost x ∷ rest
    → IsSound (record s { core = record (s.core) { ready = rest } })
      × (s.sock ≡ true)
      × (s.closing ≡ true)
      × (scheduled rest ≡ 0)
unfolding scheduled unmade
end-IsSound x rest s v e = ground arith

-- What the protocol has heard of the end of the connection, by whether the socket is open.
abbrev pub Told : Bool → Stream → Type 0
Told true t = (quiet t.calls ≡ true) × (scheduled t.ready ≤ 1)
Told false t = scheduled t.ready ≡ 0

module _ (u : User) (b : IsBystander u) where
  -- The protocol hears `connection_made`, which it has not heard yet.
  made-IsSound :
      (rest : List Callback) (s : Stream)
      → IsSound s
      → s.ready ≡ Callback.connection_made ∷ rest
      → IsSound
          (on_protocol Call.connection_made u.connection_made
            (record s { core = record (s.core) { ready = rest } })).1
  unfolding scheduled unmade
  made-IsSound rest s v e =
      let call = Call.connection_made in
      ground (
        arith,
        b.on_made
            (record s { core = record (s.core) { ready = rest }; calls = s.calls ++ call ∷ [] }),
        quiet-snoc s.calls call,
        heard-snoc s.calls call,
        starts-snoc s.calls call,
        starts-heard s.calls,
        final-one s.calls call,
        v,
      )

  -- The callback is taken off the queue; an end that was scheduled is then scheduled no more.
  popped-IsSound :
      (cb : Callback) (rest : List Callback) (s : Stream)
      → IsSound s
      → s.ready ≡ cb ∷ rest
      → IsSound (run_callback u cb (record s { core = record (s.core) { ready = rest } })).1
  unfolding run_callback scheduled
  popped-IsSound Callback.connection_made rest s v e = made-IsSound rest s v e
  popped-IsSound Callback.register rest s v e =
      register_reader-IsSound (record s { core = record (s.core) { ready = rest } })
        (taken-IsSound Callback.register rest s v e refl refl)
  popped-IsSound Callback.wake_waiter rest s v e =
      taken-IsSound Callback.wake_waiter rest s v e refl refl
  popped-IsSound (Callback.connection_lost x) rest s v e =
      let (w, o, c, n) = end-IsSound x rest s v e in
      call_connection_lost-IsSound u b x (record s { core = record (s.core) { ready = rest } }) w o
        c n

  run_ready-IsSound :
      (cbs : List Callback) (s : Stream) → IsSound s → s.ready ≡ cbs → IsSound (run_ready u cbs s).1
  unfolding run_ready
  run_ready-IsSound [] s v e = v
  run_ready-IsSound (cb ∷ rest) s v e = popped-IsSound cb rest s v e

  run_reader-IsSound :
      (k : Option Reader) (sizes : Result ℕ) (answers : ℕ → Result Bytes) (s : Stream)
      → IsSound s
      → s.reader ≡ k
      → IsSound (run_reader u k sizes answers s).1
  unfolding run_reader
  run_reader-IsSound none sizes answers s v e = v
  run_reader-IsSound (some drain_tcp) sizes answers s v e = v
  run_reader-IsSound (some drain_udp) sizes answers s v e = v
  run_reader-IsSound (some Reader.read_ready) sizes answers s v e =
      read_ready-Keeps IsSound IsSound-IsStable u b sizes answers s v (ground arith)

  resumed-IsSound :
      (o : Option (Result (Unit {0}) × Stream)) (s : Stream)
      → IsSound s
      → After IsSound IsSound-IsStable o
      → IsSound (elim o as (λ _. Result (Unit {0}) × Stream) [ none ↦ (ok tt, s) | some x ↦ x ]).1
  resumed-IsSound none s v h = v
  resumed-IsSound (some x) s v h = h

  fired-IsSound :
      (iov_max : ℕ) (k : _) (w : Bool) (s : Stream)
      → IsSound s
      → IsSound
          (elim w as (λ _. Result (Unit {0}) × Stream) [
            | true ↦ write_sendmsg_ready u iov_max k s
            | false ↦ (ok tt, s)
          ]).1
  fired-IsSound iov_max k true s v = write_sendmsg_ready-IsSound u b iov_max k s v
  fired-IsSound iov_max k false s v = v

  pub step-IsSound : (iov_max : ℕ) (e : Event) → Keeps IsSound (step u iov_max e)
  unfolding step resume
  step-IsSound iov_max (write_call arg answer) s v = write-IsSound u b arg answer s v
  step-IsSound iov_max (writelines_call lines k) s v = writelines-IsSound u b iov_max lines k s v
  step-IsSound iov_max (write_eof_call k) s v = write_eof-IsSound k s v
  step-IsSound iov_max close_call s v = close-IsSound s v
  step-IsSound iov_max abort_call s v = abort-IsSound s v
  step-IsSound iov_max pause_call s v = pause_reading-IsSound s v
  step-IsSound iov_max resume_call s v =
      resumed-IsSound (resume_reading u (suc (length s.replay)) s) s v
        (resume_reading-Keeps IsSound IsSound-IsStable u b (suc (length s.replay)) s v)
  step-IsSound iov_max (set_protocol_call p) s v = set_protocol-IsSound p s v
  step-IsSound iov_max wait_empty s v = make_empty_waiter-IsSound s v
  step-IsSound iov_max end_wait s v = reset_empty_waiter-IsSound s v
  step-IsSound iov_max (writable k) s v = fired-IsSound iov_max k s.writer s v
  step-IsSound iov_max (arrival d) s v = drain-Keeps IsSound IsSound-IsStable u b d s v
  step-IsSound iov_max (readable sizes answers) s v =
      run_reader-IsSound s.reader sizes answers s v refl
  step-IsSound iov_max next_callback s v = run_ready-IsSound s.ready s v refl

  run-IsSound :
      (iov_max : ℕ) (es : List Event) (s : Stream) → IsSound s → IsSound (run u iov_max es s)
  unfolding run
  run-IsSound iov_max [] s v = v
  run-IsSound iov_max (e ∷ es) s v =
      run-IsSound iov_max es (step u iov_max e s).1 (step-IsSound iov_max e s v)

  told_lem : (t : Stream) (b : Bool) → IsSound t → t.sock ≡ b → Told b t
  told_lem t true v e = (v.not_told e, v.once e)
  told_lem t false v e = (v.over e).1

  -- Whatever the user calls, the loop brings and the kernel answers, in any order, from a new
  -- transport on, with a protocol whose code leaves the transport alone but may raise, and that hears
  -- `connection_made` before all else: it hears `connection_lost` at most once and nothing after it;
  -- while the socket is open it has not heard it and at most one such call is scheduled, and once it is
  -- closed none is.
  pub connection_lost_last :
      (iov_max : ℕ) (es : List Event) (server waiter : Bool) (p : Protocol)
      → starts (run u iov_max es (new_stream server waiter p)).calls ≡ true
      → let t = run u iov_max es (new_stream server waiter p) in
        (final t.calls ≡ true) × Told t.sock t
  connection_lost_last iov_max es server waiter p made =
      let t = run u iov_max es (new_stream server waiter p) in
      let v =
        run-IsSound iov_max es (new_stream server waiter p) (new_stream-IsSound server waiter p) in
      (v.told_last made, told_lem t t.sock v refl)
