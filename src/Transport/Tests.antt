-- ===== src/Transport/Tests.antt =====
-- The stream transport on concrete states.
use tokioop.Prelude.{◌≡◌, refl, arith, true, false, none, some, [], ◌∷◌, ◌++◌, ℕ}
use tokioop.Python.{Bytes, attribute_error, blocking_io, ok, err}
use tokioop.Transport.Core
use tokioop.Transport.Core.{Core, Protocol, Callback, DrainKind, tcp, drain_tcp}
use tokioop.Transport.Stream.{
  Delivery, chunk, Call, ReadReady, Stream, User, write_sendmsg, sock_send,
}
use tokioop.Transport.Write.{
  write_done, write_drained, set_buffer, Kernel, bytes_like, write, write_sendmsg_ready,
  write_send_ready, writelines, close, adjust_leftover, adjust_leftover_buffer,
}
use tokioop.Transport.Write.Accounting.{IsWritable, outgoing}
use tokioop.Transport.Write.Wrote.{Wrote, write-Wrote}
use tokioop.Transport.Write.Drain.{
  IsPassive, IsDraining, IsClosed, AllAdvance, fire, write_events, close_completes,
}
use tokioop.Transport.Write.Stuck.{write_send_loses, writelines_hangs}
use tokioop.Transport.Read.{
  drain, drain_stream, resume_reading, set_protocol, switch_mode, flush_replay, watch_again,
  unpause, may_deliver, set_replay, deliver, deliver_stream, data_received,
}
use tokioop.Transport.Read.Mode.{IsReading, set_protocol-IsReading, upgrade, upgrade_breaks}
use tokioop.Transport.Read.Order.{IsReader, history, Kept-refl}
use tokioop.Transport.Read.Replay.{drain-history}

abbrev streaming : Protocol
streaming = record { id = 1; buffered = false }

abbrev buffering : Protocol
buffering = record { id = 2; buffered = true }

-- User code that leaves the transport alone.
abbrev quiet : User
quiet = record {
  connection_made = λ s. (ok tt, s);
  data_received = λ payload s. (ok tt, s);
  eof_received = λ s. (ok false, s);
  get_buffer = λ s. (ok 1, s);
  buffer_updated = λ n s. (ok tt, s);
  connection_lost = λ e s. (ok tt, s);
  maybe_pause_protocol = λ s. (ok tt, s);
  maybe_resume_protocol = λ s. (ok tt, s);
}

quiet-IsPassive : IsPassive quiet
quiet-IsPassive = record { resumes = λ s. refl; loses = λ e s. refl }

quiet-IsReader : IsReader quiet
quiet-IsReader = record { on_data = λ payload s. Kept-refl s; on_eof = λ s. Kept-refl s }

-- A protocol without a `data_received`.
abbrev no_stream : User
no_stream = record quiet {
  connection_made = λ s. (ok tt, s);
  data_received = λ payload s. (err attribute_error, s);
}

abbrev open_core : Core Bytes Delivery
open_core = record {
  sock = true;
  loop = true;
  protocol = some streaming;
  protocol_connected = true;
  server = false;
  buffer = [];
  conn_lost = 0;
  closing = false;
  paused = false;
  replay = [];
  drain_kind = some tcp;
  loop_closed = false;
  reader = some drain_tcp;
  writer = false;
  ready = [];
  reported = [];
}

abbrev stream_of : Core Bytes Delivery → Stream
stream_of c = record {
  core = c;
  eof = false;
  empty_waiter = none;
  write_ready = some write_sendmsg;
  read_ready_cb = none;
  sent = [];
  shut = 0;
  calls = [];
}

abbrev idle : Stream
idle = stream_of open_core

abbrev taking : ℕ → Kernel
taking n = record { send = ok n; shutdown = ok tt }

idle-IsWritable : IsWritable idle
idle-IsWritable = record {
  has_sock = refl;
  has_loop = refl;
  loop_open = refl;
  connected = refl;
  no_eof = refl;
  no_waiter = refl;
}

write-Wrote_example :
    Wrote (1 ∷ 2 ∷ 3 ∷ []) idle (write quiet (bytes_like (1 ∷ 2 ∷ 3 ∷ [])) (ok 2) idle)
write-Wrote_example =
    write-Wrote quiet (λ s. refl) (1 ∷ 2 ∷ 3 ∷ []) (ok 2) idle idle-IsWritable (omega arith)

-- Two chunks wait, and `close` was called.
abbrev two_chunks : Stream
two_chunks = stream_of (record open_core {
  buffer = (7 ∷ []) ∷ (8 ∷ []) ∷ [];
  closing = true;
  writer = true;
  reader = none;
})

two_chunks-IsDraining : IsDraining two_chunks
two_chunks-IsDraining = record {
  has_sock = refl;
  has_loop = refl;
  loop_open = refl;
  connected = refl;
  closing = refl;
  no_waiter = refl;
  has_protocol = refl;
  protocol_connected = refl;
  watched = refl;
}

two_chunks-AllAdvance : AllAdvance quiet 1 (taking 1 ∷ taking 1 ∷ []) two_chunks
unfolding fire write_sendmsg_ready write_done write_drained adjust_leftover_buffer adjust_leftover
    set_buffer sock_send
two_chunks-AllAdvance =
    (λ _. (1, refl, omega arith, omega arith), ((λ _. (1, refl, omega arith, omega arith)), tt))

close_completes_example :
    IsClosed two_chunks (write_events quiet 1 (taking 1 ∷ taking 1 ∷ []) two_chunks)
close_completes_example =
    close_completes quiet quiet-IsPassive 1 (taking 1 ∷ taking 1 ∷ []) two_chunks
      two_chunks-IsDraining (omega arith, (omega arith, tt)) refl (omega arith)
      two_chunks-AllAdvance

idle-IsReading : IsReading idle
idle-IsReading = record {
  has_loop = refl;
  loop_open = refl;
  not_closing = refl;
  not_paused = refl;
  watched = refl;
}

set_protocol-IsReading_example :
    let (r, t) = set_protocol buffering idle in
    (r ≡ ok tt) × IsReading t × (t.drain_kind ≡ none) × (t.protocol ≡ some buffering)
set_protocol-IsReading_example = set_protocol-IsReading buffering idle idle-IsReading

-- The state after `start_tls`, and what it does on the next chunk.
abbrev secured : Stream
secured = record idle {
  core = record open_core { protocol = some buffering; drain_kind = none };
  read_ready_cb = some ReadReady.get_buffer;
}

upgrade_keeps_reader : upgrade no_stream 1 buffering idle ≡ some (ok tt, secured)
unfolding upgrade set_protocol switch_mode resume_reading flush_replay watch_again unpause
    Core.pause_reading Core.is_reading Core.remove_reader
upgrade_keeps_reader = refl

upgrade_breaks_example :
    (t : Stream) × (upgrade no_stream 1 buffering idle ≡ some (ok tt, t))
    × (t.drain_kind ≡ none)
    × (t.reader ≡ some drain_tcp)
    × (let (r, v) = drain_stream no_stream (5 ∷ []) t in
        (r ≡ ok tt)
        × (v.closing ≡ true)
        × (v.reported ≡ attribute_error ∷ [])
        × (v.ready ≡ Callback.connection_lost (some attribute_error) ∷ []))
upgrade_breaks_example =
    upgrade_breaks no_stream 0 buffering idle (5 ∷ []) idle-IsReading refl refl refl refl refl
      (λ t. refl)

-- Two chunks arrived while reading was paused.
abbrev waiting : Stream
waiting =
    stream_of
      (record open_core { paused = true; replay = chunk (1 ∷ 2 ∷ []) ∷ chunk (3 ∷ []) ∷ [] })

-- It ends with both delivered.
waiting_delivered :
    resume_reading quiet 3 waiting
    ≡ some (
      ok tt,
      record waiting {
        core = record open_core {};
        calls = Call.data_received (1 ∷ 2 ∷ []) ∷ Call.data_received (3 ∷ []) ∷ [];
      },
    )
unfolding resume_reading flush_replay may_deliver set_replay deliver deliver_stream data_received
    watch_again unpause
waiting_delivered = refl

drain-history_example :
    history (drain quiet (chunk (4 ∷ [])) waiting).1
    ≡ history waiting ++ Call.data_received (4 ∷ []) ∷ []
drain-history_example =
    drain-history quiet (chunk (4 ∷ [])) waiting quiet-IsReader (λ _. (refl, refl)) refl refl
      (λ p. absurd cc)

write_send_loses_example :
    (outgoing
        (write_sendmsg_ready quiet 8
          (record { send = err blocking_io; shutdown = ok tt })
          two_chunks).1
      ≡ 7 ∷ 8 ∷ [])
    × (outgoing
          (write_send_ready quiet
            (record { send = err blocking_io; shutdown = ok tt })
            two_chunks).1
        ≡ 8 ∷ [])
write_send_loses_example =
    write_send_loses quiet 8 (record { send = err blocking_io; shutdown = ok tt }) blocking_io
      (7 ∷ []) ((8 ∷ []) ∷ []) two_chunks refl refl refl refl refl

writelines_hangs_example :
    let t = (close (writelines quiet 8 ((1 ∷ 2 ∷ []) ∷ [] ∷ []) (taking 2) idle).1).1 in
    let v = write_events quiet 8 (taking 0 ∷ taking 0 ∷ []) t in
    (v.buffer ≡ [] ∷ []) × (v.writer ≡ true) × (v.sock ≡ true)
writelines_hangs_example =
    writelines_hangs quiet quiet-IsPassive 8 (1 ∷ 2 ∷ []) (taking 2) (taking 0 ∷ taking 0 ∷ []) idle
      (λ s. refl) idle-IsWritable refl refl (omega arith) (omega arith) refl (refl, (refl, tt))
