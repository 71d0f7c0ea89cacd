-- ===== src/Transport/Life/Tests.antt =====
-- Lives of a stream transport, run on concrete events.
use tokioop.Prelude.{arith, ◌&&◌, ◌==◌, ℕ, ◌≡◌, refl, true, false, List, [], ◌∷◌}
use tokioop.Python.{ok, err, value_error, blocking_io}
use tokioop.Transport.Core.{Protocol}
use tokioop.Transport.Stream.{call_connection_lost, release, settle, Call, User, Stream, sock_send}
use tokioop.Transport.Write.{
  close, Kernel, bytes_like, write, send_now, watch_and_enqueue, enqueue, set_buffer,
  write_sendmsg_ready, adjust_leftover_buffer, adjust_leftover, write_done, write_drained,
  writelines, call_write_ready,
}
use tokioop.Transport.Write.Accounting.{outgoing}
use tokioop.Transport.Read.{set_protocol, switch_mode}
use tokioop.Transport.Core
use tokioop.Transport.Life.Sending.Lines.{lined}
use tokioop.Transport.Life.Sending.Runs.{FitsAll, Kept, given, run-Kept}
use tokioop.Transport.Life.{
  Event, run_ready, run_callback, step, blank, write_call, writelines_call, close_call, abort_call,
  writable, next_callback, new_stream, run,
}
use tokioop.Transport.Life.Invariant.{final, starts}
use tokioop.Transport.Life.Write.{IsBystander}
use tokioop.Transport.Life.Teardown.{Told, connection_lost_last}

abbrev streaming : Protocol
streaming = record { id = 1; buffered = false }

-- User code that leaves the transport alone, and raises from `connection_lost`.
abbrev bystander : User
bystander = record {
  connection_made = λ s. (ok tt, s);
  data_received = λ payload s. (ok tt, s);
  eof_received = λ s. (ok false, s);
  get_buffer = λ s. (ok 1, s);
  buffer_updated = λ n s. (ok tt, s);
  connection_lost = λ e s. (err value_error, s);
  maybe_pause_protocol = λ s. (ok tt, s);
  maybe_resume_protocol = λ s. (ok tt, s);
}

bystander-IsBystander : IsBystander bystander
bystander-IsBystander = record {
  on_made = λ s. refl;
  on_data = λ payload s. refl;
  on_eof = λ s. refl;
  on_buffer = λ s. refl;
  on_update = λ n s. refl;
  on_lost = λ e s. refl;
  on_pause = λ s. refl;
  on_resume = λ s. refl;
}

abbrev taking : ℕ → Kernel
taking n = record { send = ok n; shutdown = ok tt }

-- A write that the kernel takes in two parts, with `close` in between, and a late `abort`.
abbrev life : List Event
life =
    next_callback
    ∷ next_callback
    ∷ write_call (bytes_like (1 ∷ 2 ∷ 3 ∷ [])) (ok 2)
    ∷ close_call
    ∷ abort_call
    ∷ writable (taking 1)
    ∷ next_callback
    ∷ next_callback
    ∷ abort_call
    ∷ next_callback
    ∷ []

abbrev calls_of_life : List Call
calls_of_life = (run bystander 16 life (new_stream true false streaming)).calls

life_starts : starts calls_of_life ≡ true
unfolding run step run_ready run_callback new_stream blank set_protocol switch_mode Core.call_soon
    Core.register_reader Core.is_reading Core.add_reader Core.remove_reader Core.remove_writer write
    send_now sock_send watch_and_enqueue enqueue set_buffer Core.add_writer write_sendmsg_ready
    adjust_leftover_buffer adjust_leftover write_done write_drained close Core.close Core.abort
    Core.force_close call_connection_lost release settle starts
life_starts = refl

connection_lost_last_example :
    let t = run bystander 16 life (new_stream true false streaming) in
    (final t.calls ≡ true) × Told t.sock t
connection_lost_last_example =
    connection_lost_last bystander bystander-IsBystander 16 life true false streaming life_starts

-- Three writes, of which the kernel takes a part, takes nothing, and takes two chunks at once.
abbrev talk : List Event
talk =
    next_callback
    ∷ next_callback
    ∷ write_call (bytes_like (1 ∷ 2 ∷ 3 ∷ [])) (ok 2)
    ∷ write_call (bytes_like (4 ∷ 5 ∷ [])) (err blocking_io)
    ∷ writable (taking 2)
    ∷ writelines_call ((6 ∷ []) ∷ (7 ∷ 8 ∷ []) ∷ []) (taking 3)
    ∷ []

abbrev talking : Stream
talking = run bystander 16 talk (new_stream true false streaming)

talk-FitsAll : FitsAll bystander 16 talk (new_stream true false streaming)
unfolding FitsAll step run_ready run_callback new_stream set_protocol switch_mode Core.call_soon
    Core.register_reader Core.is_reading Core.add_reader write send_now sock_send watch_and_enqueue
    enqueue set_buffer Core.add_writer write_sendmsg_ready adjust_leftover_buffer adjust_leftover
    write_done write_drained lined blank
talk-FitsAll = (tt, (tt, (omega arith, (refl, (omega arith, (omega arith, tt))))))

talk_arrives : outgoing talking ≡ 1 ∷ 2 ∷ 3 ∷ 4 ∷ 5 ∷ 6 ∷ 7 ∷ 8 ∷ []
unfolding run step run_ready run_callback new_stream set_protocol switch_mode Core.call_soon
    Core.register_reader Core.is_reading Core.add_reader write send_now sock_send watch_and_enqueue
    enqueue set_buffer Core.add_writer write_sendmsg_ready adjust_leftover_buffer adjust_leftover
    write_done write_drained blank writelines call_write_ready
talk_arrives = refl

run-Kept_example :
    Kept
      (talking.sock && (talking.conn_lost == 0))
      (given bystander 16 talk (new_stream true false streaming))
      talking
run-Kept_example =
    run-Kept bystander bystander-IsBystander 16 talk true false streaming talk-FitsAll
