-- ===== src/Transport/Life/Sending/Steps.antt =====
-- Each event of a stream transport's life adds what it gives to the bytes to send.
use tokioop.Prelude.{
  ℕ, suc, ◌≡◌, refl, arith, Bool, Option, true, false, none, some, List, [], ◌∷◌, ◌++◌, length,
  concat, append-nil,
}
use tokioop.Python.{Bytes, Result, ok}
use tokioop.Transport.Core
use tokioop.Transport.Core.{Callback, Protocol, Reader, drain_tcp, drain_udp}
use tokioop.Transport.Stream.{Call, Stream, User}
use tokioop.Transport.Write.{Kernel, bytes_like, no_bytes, write, write_sendmsg_ready}
use tokioop.Transport.Write.Flush.{offered}
use tokioop.Transport.Read.{resume_reading}
use tokioop.Transport.Life.{
  Event, write_call, writelines_call, write_eof_call, close_call, abort_call, pause_call,
  resume_call, set_protocol_call, wait_empty, end_wait, writable, arrival, readable, next_callback,
  run_callback, run_ready, run_reader, resume, step,
}
use tokioop.Transport.Life.Write.{IsBystander}
use tokioop.Transport.Life.Read.{drain-Keeps, resume_reading-Keeps, After}
use tokioop.Transport.Life.Ready.{read_ready-Keeps}
use tokioop.Transport.Life.Teardown.{step-IsSound}
use tokioop.Transport.Life.Sending.{
  told-Lets, IsFaithful, IsFaithful-IsStable, Spares, Spares-refl, Spares-trans, Spares-IsFaithful,
  Lets, write_eof-Lets, close-Lets, force_close-Lets, pause_reading-Lets, set_protocol-Lets,
  make_empty_waiter-Lets, reset_empty_waiter-Lets, register_reader-Lets, connection_lost-Lets,
}
use tokioop.Transport.Life.Sending.Fails.{Fits}
use tokioop.Transport.Life.Sending.Flush.{write_sendmsg_ready-IsFaithful}
use tokioop.Transport.Life.Sending.Writes.{accepted, write-IsFaithful}
use tokioop.Transport.Life.Sending.Lines.{lined, writelines-IsFaithful}

-- What one event gives the transport to send, and what it asks of the kernel's answer.
abbrev pub given_by : Event → Stream → Bytes
given_by (write_call (bytes_like payload) answer) s = accepted s payload
given_by (writelines_call lines k) s = accepted s (concat lines)
given_by _ s = []

abbrev pub FitsEvent : ℕ → Event → Stream → Type 0
FitsEvent iov_max (write_call (bytes_like payload) answer) s = Fits (length payload) answer
FitsEvent iov_max (writelines_call lines k) s =
    Fits (length (offered iov_max (lined lines s))) k.send
FitsEvent iov_max (writable k) s = Fits (length (offered iov_max s)) k.send
FitsEvent iov_max _ s = Unit {0}

taken-Spares :
    (rest : List Callback) (s : Stream)
    → Spares s (record s { core = record (s.core) { ready = rest } })
taken-Spares rest s = ground arith

module _ (u : User) (b : IsBystander u) where
  run_callback-Lets : (cb : Callback) → Lets (run_callback u cb)
  unfolding run_callback
  run_callback-Lets Callback.connection_made s =
      told-Lets Call.connection_made u.connection_made s b.on_made
  run_callback-Lets Callback.register s = register_reader-Lets s
  run_callback-Lets Callback.wake_waiter s = Spares-refl s
  run_callback-Lets (Callback.connection_lost e) s = connection_lost-Lets u b e s

  run_ready-Lets : (cbs : List Callback) → Lets (run_ready u cbs)
  unfolding run_ready
  run_ready-Lets [] s = Spares-refl s
  run_ready-Lets (cb ∷ rest) s =
      let t = record s { core = record (s.core) { ready = rest } } in
      Spares-trans s t (run_callback u cb t).1 (taken-Spares rest s) (run_callback-Lets cb t)

  module _ (before : Bytes) where
    run_reader-IsFaithful :
        (r : Option Reader) (sizes : Result ℕ) (answers : ℕ → Result Bytes) (s : Stream)
        → s.reader ≡ r
        → IsFaithful before s
        → IsFaithful before (run_reader u r sizes answers s).1
    unfolding run_reader
    run_reader-IsFaithful none sizes answers s e f = f
    run_reader-IsFaithful (some drain_tcp) sizes answers s e f = f
    run_reader-IsFaithful (some drain_udp) sizes answers s e f = f
    run_reader-IsFaithful (some Reader.read_ready) sizes answers s e f =
        read_ready-Keeps (IsFaithful before) (IsFaithful-IsStable before) u b sizes answers s f
          (ground arith)

    resumed-IsFaithful :
        (o : Option (Result (Unit {0}) × Stream)) (s : Stream)
        → IsFaithful before s
        → After (IsFaithful before) (IsFaithful-IsStable before) o
        → IsFaithful before
            (elim o as (λ _. Result (Unit {0}) × Stream) [ none ↦ (ok tt, s) | some x ↦ x ]).1
    resumed-IsFaithful none s f h = f
    resumed-IsFaithful (some x) s f h = h

    fired-IsFaithful :
        (iov_max : ℕ) (k : Kernel) (w : Bool) (s : Stream)
        → Fits (length (offered iov_max s)) k.send
        → IsFaithful before s
        → IsFaithful before
            (elim w as (λ _. Result (Unit {0}) × Stream) [
              | true ↦ write_sendmsg_ready u iov_max k s
              | false ↦ (ok tt, s)
            ]).1
    fired-IsFaithful iov_max k true s h f =
        write_sendmsg_ready-IsFaithful u b before iov_max k s h f
    fired-IsFaithful iov_max k false s h f = f

    -- An event that gives nothing to send, and sends nothing.
    quiet-IsFaithful :
        (iov_max : ℕ) (e : Event) (s : Stream)
        → IsFaithful before s
        → Spares s (step u iov_max e s).1
        → IsFaithful (before ++ []) (step u iov_max e s).1
    quiet-IsFaithful iov_max e s f p = rw (append-nil before) (
        Spares-IsFaithful before s (step u iov_max e s).1 p (step-IsSound u b iov_max e s f.sound)
          f)

    pub step-IsFaithful :
        (iov_max : ℕ) (e : Event) (s : Stream)
        → FitsEvent iov_max e s
        → IsFaithful before s
        → IsFaithful (before ++ given_by e s) (step u iov_max e s).1
    unfolding step resume Core.abort write
    step-IsFaithful iov_max (write_call no_bytes answer) s h f = rw (append-nil before) f
    step-IsFaithful iov_max (write_call (bytes_like payload) answer) s h f =
        write-IsFaithful u b before payload answer s h f
    step-IsFaithful iov_max (writelines_call lines k) s h f =
        writelines-IsFaithful u b before iov_max lines k s h f
    step-IsFaithful iov_max (write_eof_call k) s h f =
        quiet-IsFaithful iov_max (write_eof_call k) s f (write_eof-Lets k s)
    step-IsFaithful iov_max close_call s h f =
        quiet-IsFaithful iov_max close_call s f (close-Lets s)
    step-IsFaithful iov_max abort_call s h f =
        quiet-IsFaithful iov_max abort_call s f (force_close-Lets none s f.sound)
    step-IsFaithful iov_max pause_call s h f =
        quiet-IsFaithful iov_max pause_call s f (pause_reading-Lets s)
    step-IsFaithful iov_max resume_call s h f = rw (append-nil before) (
        resumed-IsFaithful (resume_reading u (suc (length s.replay)) s) s f (
          resume_reading-Keeps (IsFaithful before) (IsFaithful-IsStable before) u b
            (suc (length s.replay)) s f))
    step-IsFaithful iov_max (set_protocol_call p) s h f =
        quiet-IsFaithful iov_max (set_protocol_call p) s f (set_protocol-Lets p s)
    step-IsFaithful iov_max wait_empty s h f =
        quiet-IsFaithful iov_max wait_empty s f (make_empty_waiter-Lets s)
    step-IsFaithful iov_max end_wait s h f =
        quiet-IsFaithful iov_max end_wait s f (reset_empty_waiter-Lets s)
    step-IsFaithful iov_max (writable k) s h f =
        rw (append-nil before) (fired-IsFaithful iov_max k s.writer s h f)
    step-IsFaithful iov_max (arrival d) s h f =
        rw (append-nil before)
          (drain-Keeps (IsFaithful before) (IsFaithful-IsStable before) u b d s f)
    step-IsFaithful iov_max (readable sizes answers) s h f =
        rw (append-nil before) (run_reader-IsFaithful s.reader sizes answers s refl f)
    step-IsFaithful iov_max next_callback s h f =
        quiet-IsFaithful iov_max next_callback s f (run_ready-Lets s.ready s)
