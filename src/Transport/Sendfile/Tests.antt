-- ===== src/Transport/Sendfile/Tests.antt =====
-- `sendfile` on a concrete transport.
use tokioop.Prelude.{
  ℕ, ◌-◌, ◌≡◌, refl, sym, ap, ◌∙◌, true, false, none, some, [], ◌∷◌, ◌++◌, min, concat, append-nil,
  arith,
}
use tokioop.Python.{blocking_io, Bytes, cancelled_error, runtime_error, ok, err, Method}
use tokioop.Transport.Core.{tcp, drain_tcp}
use tokioop.Transport.Stream.{Stream, User, write_sendmsg}
use tokioop.Transport.Write.{bytes_like, write}
use tokioop.Transport.Read.Mode.{IsReading}
use tokioop.Transport.Sendfile.{number, SendfileArgs, Transfer, try_native, sendfile}
use tokioop.Transport.Write.Accounting.{IsWritable}
use tokioop.Transport.Sendfile.Fallback.{Copying, World, sendfile_fallback}
use tokioop.Transport.Sendfile.Fallback.Steps.{Drained, IsFriendly}
use tokioop.Transport.Sendfile.Fallback.Sends.{IsSent, sendfile_fallback-IsSent}
use tokioop.Transport.Sendfile.Fallback.Views.{Still}
use tokioop.Transport.Sendfile.Fallback.Overwrites.{
  IsBlocked, Overwritten, sendfile_fallback_overwrites,
}
use tokioop.Transport.Sendfile.Native.{
  direct, at_once, cut_off, sendfile-direct, sendfile_stays_paused,
}

abbrev bystander : User
bystander = record {
  connection_made = λ s. (ok tt, s);
  data_received = λ payload s. (ok tt, s);
  eof_received = λ s. (ok false, s);
  get_buffer = λ s. (ok 1, s);
  buffer_updated = λ n s. (ok tt, s);
  connection_lost = λ e s. (ok tt, s);
  maybe_pause_protocol = λ s. (ok tt, s);
  maybe_resume_protocol = λ s. (ok tt, s);
}

abbrev reading : Stream
reading = record {
  core = record {
    sock = true;
    loop = true;
    protocol = some (record { id = 1; buffered = false });
    protocol_connected = true;
    server = false;
    buffer = [];
    conn_lost = 0;
    closing = false;
    paused = false;
    replay = [];
    drain_kind = some tcp;
    loop_closed = false;
    reader = some drain_tcp;
    writer = false;
    ready = [];
    reported = [];
  };
  eof = false;
  empty_waiter = none;
  write_ready = some write_sendmsg;
  read_ready_cb = none;
  sent = [];
  shut = 0;
  calls = [];
}

reading-IsReading : IsReading reading
reading-IsReading = record {
  has_loop = refl;
  loop_open = refl;
  not_closing = refl;
  not_paused = refl;
  watched = refl;
}

abbrev transfer : Transfer
transfer = record { stream = reading; registered = true }

abbrev whole_file : SendfileArgs
whole_file = record {
  binary = true;
  is_stream = true;
  blocking = false;
  is_ssl = false;
  debug = false;
  offset = number 0;
  count = none;
  fallback = true;
}

-- The copy sends 3 bytes.
abbrev copies : Method Transfer ℕ
copies x = (ok 3, record x { stream = record (x.stream) { sent = 1 ∷ 2 ∷ 3 ∷ [] } })

sendfile-direct_example :
    sendfile bystander try_native at_once copies whole_file transfer
    ≡ direct copies whole_file transfer
sendfile-direct_example =
    sendfile-direct bystander copies whole_file transfer reading-IsReading refl refl refl refl

sendfile_stays_paused_example :
    let (r, t) =
      sendfile bystander try_native (cut_off cancelled_error) copies whole_file transfer in
    (r ≡ err cancelled_error)
    × (t.registered ≡ false)
    × (t.stream.paused ≡ true)
    × (write bystander (bytes_like (7 ∷ [])) (ok 1) t.stream ≡ (err runtime_error, t.stream))
sendfile_stays_paused_example =
    sendfile_stays_paused bystander copies whole_file transfer (7 ∷ []) (ok 1) reading-IsReading
      refl refl

reading-IsWritable : IsWritable reading
reading-IsWritable = record {
  has_sock = refl;
  has_loop = refl;
  loop_open = refl;
  connected = refl;
  no_eof = refl;
  no_waiter = refl;
}

abbrev five_bytes : Bytes
five_bytes = 1 ∷ 2 ∷ 3 ∷ 4 ∷ 5 ∷ []

abbrev copying : Copying
copying = record { stream = reading; views = []; buf = []; pos = 0; total_sent = 0 }

-- The kernel takes each block, so that `drain` returns at once.
abbrev willing_world : World
willing_world = record {
  make = at_once;
  before = λ t. at_once;
  readinto = λ pos size. ok (min size (5 - pos));
  after = λ t. at_once;
  kernel = λ t n. ok n;
  drain = λ t. at_once;
  restore = at_once;
}

at_once-Drained : (s : Stream) → IsWritable s → s.buffer ≡ [] → Drained s s
at_once-Drained s w i = record {
  writable = w;
  idle = i;
  all_sent = sym (ap (λ b. s.sent ++ concat b) i ∙ append-nil s.sent);
}

willing_world-IsFriendly : IsFriendly five_bytes willing_world
willing_world-IsFriendly = record {
  makes = at_once-Drained;
  waits = λ t. at_once-Drained;
  goes_on = λ t. at_once-Drained;
  reads = λ pos size. (omega arith, omega arith, λ p q. omega arith);
  takes = λ t n. refl;
  drains = λ t. at_once-Drained;
  restores = at_once-Drained;
}

sendfile_fallback-IsSent_example :
    IsSent five_bytes 1 [] 3
      (sendfile_fallback bystander willing_world five_bytes 9 true 1 3 copying)
sendfile_fallback-IsSent_example =
    sendfile_fallback-IsSent bystander willing_world five_bytes 9 1 3 copying (λ s. refl)
      willing_world-IsFriendly reading-IsWritable refl (omega arith)

-- The file comes in blocks of 2 bytes, the kernel takes nothing, and nobody waits.
abbrev blocked_world : World
blocked_world = record willing_world {
  readinto = λ pos size. ok (min 2 (4 - pos));
  kernel = λ t n. err blocking_io;
}

at_once-Still : (s : Stream) → IsWritable s → Still s s
at_once-Still s w = record { writable = w; same_buffer = refl; same_sent = refl }

blocked_world-IsBlocked : IsBlocked blocked_world
blocked_world-IsBlocked = record {
  makes = at_once-Still;
  waits = λ t. at_once-Still;
  goes_on = λ t. at_once-Still;
  takes_none = λ t n. (blocking_io, refl, refl);
  drains = λ t. at_once-Still;
  restores = at_once-Still;
}

-- The file is 1 2 3 4; what waits to go out is 3 4 3 4.
sendfile_fallback_overwrites_example :
    Overwritten 4 2
      (3 ∷ 4 ∷ [])
      []
      (sendfile_fallback bystander blocked_world (1 ∷ 2 ∷ 3 ∷ 4 ∷ []) 3 true 0 0 copying)
sendfile_fallback_overwrites_example =
    sendfile_fallback_overwrites bystander blocked_world (1 ∷ 2 ∷ 3 ∷ 4 ∷ []) 3 0 2 1 copying
      (λ s. refl) blocked_world-IsBlocked (omega arith) (omega arith) (refl, (refl, refl))
      (omega arith) reading-IsWritable refl refl (omega arith)
