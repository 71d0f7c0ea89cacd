-- ===== src/Transport/Life/Sending/Runs.antt =====
-- The bytes that a stream transport is given over its life, and those it has sent and keeps.
use tokioop.Prelude.{
  ℕ, ◌==◌, ◌&&◌, ◌≡◌, refl, ap, subst, arith, Bool, true, false, some, List, [], ◌∷◌, ◌++◌,
  append-nil, append_assoc,
}
use tokioop.Python.{Bytes}
use tokioop.Transport.Core
use tokioop.Transport.Core.{Callback, Protocol, Reader, drain_tcp, drain_udp}
use tokioop.Transport.Stream.{Stream, User, write_sendmsg}
use tokioop.Transport.Write.Accounting.{outgoing, IsPrefix}
use tokioop.Transport.Read.{set_protocol, switch_mode}
use tokioop.Transport.Life.{Event, new_stream, step, run}
use tokioop.Transport.Life.Write.{IsBystander}
use tokioop.Transport.Life.Teardown.{new_stream-IsSound}
use tokioop.Transport.Life.Sending.{uses_send, IsFaithful}
use tokioop.Transport.Life.Sending.Steps.{given_by, FitsEvent, step-IsFaithful}

new_stream_empty :
    (server waiter : Bool) (p : Protocol)
    → let s = new_stream server waiter p in
      (s.sent ≡ []) × (s.buffer ≡ []) × (s.write_ready ≡ some write_sendmsg)
unfolding new_stream set_protocol switch_mode Core.call_soon
new_stream_empty server waiter p = ground arith

new_stream-IsFaithful :
    (server waiter : Bool) (p : Protocol) → IsFaithful [] (new_stream server waiter p)
new_stream-IsFaithful server waiter p =
    let (sent, buffer, callback) = new_stream_empty server waiter p in
    record {
      sound = new_stream-IsSound server waiter p;
      sent_prefix = ([], rw sent refl);
      whole = λ _ _. rw (sent, buffer) refl;
      by_sendmsg = ap uses_send callback;
    }

-- On a connection that is not lost, what is sent and what waits make up all that was given; else
-- what is sent is the front of it.
abbrev pub Kept : Bool → Bytes → Stream → Type 0
Kept true given t = outgoing t ≡ given
Kept false given t = IsPrefix t.sent given

Kept_lem :
    (connected : Bool) (given : Bytes) (t : Stream)
    → IsFaithful given t
    → (t.sock && (t.conn_lost == 0)) ≡ connected
    → Kept connected given t
Kept_lem true given t f e = f.whole (ground arith) (ground arith)
Kept_lem false given t f e = f.sent_prefix

module _ (u : User) where
  unfoldable pub given : ℕ → List Event → Stream → Bytes
  given iov_max [] s = []
  given iov_max (e ∷ es) s = given_by e s ++ given iov_max es (step u iov_max e s).1

  unfoldable pub FitsAll : ℕ → List Event → Stream → Type 0
  FitsAll iov_max [] s = Unit {0}
  FitsAll iov_max (e ∷ es) s = FitsEvent iov_max e s × FitsAll iov_max es (step u iov_max e s).1

  module _ (b : IsBystander u) where
    run-IsFaithful :
        (before : Bytes) (iov_max : ℕ) (es : List Event) (s : Stream)
        → FitsAll iov_max es s
        → IsFaithful before s
        → IsFaithful (before ++ given iov_max es s) (run u iov_max es s)
    unfolding run given FitsAll
    run-IsFaithful before iov_max [] s h f = rw (append-nil before) f
    run-IsFaithful before iov_max (e ∷ es) s (h, hs) f =
        let t = (step u iov_max e s).1 in
        subst (λ x. IsFaithful x (run u iov_max es t))
          (append_assoc before (given_by e s) (given iov_max es t))
          (run-IsFaithful (before ++ given_by e s) iov_max es t hs
            (step-IsFaithful u b before iov_max e s h f))

    -- Whatever the user calls, the loop brings and the kernel answers, in any order, from a new
    -- transport on, with a protocol whose code leaves the transport alone but may raise, and a
    -- kernel that takes at most what it is offered or fails, but is not left by a `SystemExit` or a
    -- `KeyboardInterrupt`: while the connection is not lost, the bytes sent followed by those that
    -- wait in the buffer are the payloads of the `write` and `writelines` calls that were accepted,
    -- in their order; and when it is lost, the bytes sent are the front of these.
    pub run-Kept :
        (iov_max : ℕ) (es : List Event) (server waiter : Bool) (p : Protocol)
        → FitsAll iov_max es (new_stream server waiter p)
        → let t = run u iov_max es (new_stream server waiter p) in
          Kept (t.sock && (t.conn_lost == 0)) (given iov_max es (new_stream server waiter p)) t
    run-Kept iov_max es server waiter p h =
        let s = new_stream server waiter p in
        Kept_lem _ (given iov_max es s) (run u iov_max es s)
          (run-IsFaithful [] iov_max es s h (new_stream-IsFaithful server waiter p)) refl
