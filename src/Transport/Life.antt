-- ===== src/Transport/Life.antt =====
-- The life of a stream transport: every call that a user can make of it and every event that the
-- loop brings, in any order.
pub mod Invariant
pub mod Base
pub mod Write
pub mod Flush
pub mod Stable
pub mod Read
pub mod Ready
pub mod Teardown
pub mod Sending
mod Tests
use tokioop.Prelude.{ℕ, suc, true, false, Bool, Option, none, some, List, [], ◌∷◌, length}
use tokioop.Python.{Bytes, Exc, Result, ok, Method, when, ◌>>◌}
use tokioop.Transport.Core
use tokioop.Transport.Core.{Core, Protocol, Reader, Callback, drain_tcp, drain_udp, tcp}
use tokioop.Transport.Stream.{
  Call, on_protocol, Delivery, Stream, User, write_sendmsg, base, call_connection_lost,
}
use tokioop.Transport.Write.{
  Kernel, PyArg, write, writelines, write_eof, write_sendmsg_ready, make_empty_waiter,
  reset_empty_waiter, close,
}
use tokioop.Transport.Read.{drain, read_ready, resume_reading, set_protocol}

-- The attributes as `__init__` sets them before `set_protocol` and the first callbacks, on a platform
-- with `sendmsg`.
unfoldable pub blank : Bool → Stream
blank server = record {
  core = record {
    sock = true;
    loop = true;
    protocol = none;
    protocol_connected = false;
    server = server;
    buffer = [];
    conn_lost = 0;
    closing = false;
    paused = false;
    replay = [];
    drain_kind = some tcp;
    loop_closed = false;
    reader = none;
    writer = false;
    ready = [];
    reported = [];
  };
  eof = false;
  empty_waiter = none;
  write_ready = some write_sendmsg;
  read_ready_cb = none;
  sent = [];
  shut = 0;
  calls = [];
}

-- `__init__`, with a server or none, and with a waiter or none.
unfoldable pub new_stream : Bool → Bool → Protocol → Stream
unfolding blank
new_stream server waiter p =
    let (_, s) =
      (do
        set_protocol p
        base (Core.call_soon Callback.connection_made)
        base (Core.call_soon Callback.register)
        when waiter (base (Core.call_soon Callback.wake_waiter)))
        (blank server) in
    s

-- The calls of the user and the events of the loop, each with what the kernel answers.
pub data Event : Type 0 where
  write_call : PyArg → Result ℕ → Event
  writelines_call : List Bytes → Kernel → Event
  write_eof_call : Kernel → Event
  close_call abort_call pause_call resume_call : Event
  set_protocol_call : Protocol → Event
  wait_empty end_wait : Event
  -- The descriptor can be written, what the reader task took from it arrives, or it can be read.
  writable : Kernel → Event
  arrival : Delivery → Event
  readable : Result ℕ → (ℕ → Result Bytes) → Event
  -- The loop runs the callback that has waited longest.
  next_callback : Event

module _ (u : User) where
  unfoldable pub run_callback : Callback → Method Stream (Unit {0})
  run_callback Callback.connection_made s = on_protocol Call.connection_made u.connection_made s
  run_callback Callback.register s = base Core.register_reader s
  run_callback Callback.wake_waiter s = (ok tt, s)
  run_callback (Callback.connection_lost e) s = call_connection_lost u e s

  unfoldable pub run_ready : List Callback → Method Stream (Unit {0})
  run_ready [] s = (ok tt, s)
  run_ready (cb ∷ rest) s = run_callback cb (record s { core = record (s.core) { ready = rest } })

  -- The reader callback is called only while it is registered.
  unfoldable pub run_reader :
      Option Reader → Result ℕ → (ℕ → Result Bytes) → Method Stream (Unit {0})
  run_reader (some Reader.read_ready) sizes answers s = read_ready u sizes answers s
  run_reader (some drain_tcp) sizes answers s = (ok tt, s)
  run_reader (some drain_udp) sizes answers s = (ok tt, s)
  run_reader none sizes answers s = (ok tt, s)

  -- One more round than there are deliveries is enough for user code that leaves the transport alone.
  unfoldable pub resume : Method Stream (Unit {0})
  resume s = elim (resume_reading u (suc (length s.replay)) s) [ none ↦ (ok tt, s) | some x ↦ x ]

  unfoldable pub step : ℕ → Event → Method Stream (Unit {0})
  unfolding run_callback run_ready run_reader resume
  step iov_max (write_call arg answer) s = write u arg answer s
  step iov_max (writelines_call list_of_data k) s = writelines u iov_max list_of_data k s
  step iov_max (write_eof_call k) s = write_eof k s
  step iov_max close_call s = close s
  step iov_max abort_call s = base Core.abort s
  step iov_max pause_call s = base Core.pause_reading s
  step iov_max resume_call s = resume s
  step iov_max (set_protocol_call p) s = set_protocol p s
  step iov_max wait_empty s = make_empty_waiter s
  step iov_max end_wait s = reset_empty_waiter s
  step iov_max (writable k) s = elim s.writer [
    | true ↦ write_sendmsg_ready u iov_max k s
    | false ↦ (ok tt, s)
  ]
  step iov_max (arrival d) s = drain u d s
  step iov_max (readable sizes answers) s = run_reader s.reader sizes answers s
  step iov_max next_callback s = run_ready s.ready s

  unfoldable pub run : ℕ → List Event → Stream → Stream
  run iov_max [] s = s
  run iov_max (e ∷ es) s = run iov_max es (step iov_max e s).1
