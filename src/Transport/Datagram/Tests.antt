-- ===== src/Transport/Datagram/Tests.antt =====
-- The datagram transport on concrete states.
use tokioop.Prelude.{List, ◌≡◌, refl, true, false, none, some, [], ◌∷◌, ℕ, suc, zero, is_empty}
use tokioop.Python.{blocking_io, Result, ok, err}
use tokioop.Transport.Core.{drain_udp, udp}
use tokioop.Transport.Write.{bytes_like}
use tokioop.Transport.Datagram.Fifo.{Event, send_call, writable, abort_call}
use tokioop.Transport.Datagram.Fifo.Subsequence.{Subsequence}
use tokioop.Transport.Datagram.Resume.Flushed.{Flushed}
use tokioop.Transport.Datagram.{datagram, failure, Datagram, DatagramUser, sendto_ready}
use tokioop.Transport.Datagram.Size.{packets, IsSized, Plain, IsIdle}
use tokioop.Transport.Datagram.Order.{sendto_ready-packets}

abbrev bystander : DatagramUser
bystander = record {
  datagram_received = λ payload addr s. (ok tt, s);
  error_received = λ e s. (ok tt, s);
  connection_lost = λ e s. (ok tt, s);
  maybe_pause_protocol = λ s. (ok tt, s);
  maybe_resume_protocol = λ s. (ok tt, s);
}

bystander-IsIdle : IsIdle bystander
bystander-IsIdle = record { pauses = λ s. refl; resumes = λ s. refl; loses = λ e s. refl }

-- Two datagrams wait to be sent.
abbrev two_packets : Datagram
two_packets = record {
  core = record {
    sock = true;
    loop = true;
    protocol = some (record { id = 1; buffered = false });
    protocol_connected = true;
    server = false;
    buffer = (1 ∷ 2 ∷ [], some 5) ∷ (3 ∷ [], some 6) ∷ [];
    conn_lost = 0;
    closing = false;
    paused = false;
    replay = [];
    drain_kind = some udp;
    loop_closed = false;
    reader = some drain_udp;
    writer = true;
    ready = [];
    reported = [];
  };
  address = none;
  buffer_size = 19;
  sent = [];
  calls = [];
}

-- The kernel takes the first datagram and then would block.
abbrev takes_one : ℕ → Result (Unit {0})
takes_one zero = ok tt
takes_one (suc i) = err blocking_io

takes_one-Plain : (i : ℕ) → Plain (takes_one i)
takes_one-Plain zero = tt
takes_one-Plain (suc i) = refl

sendto_ready-packets_example :
    let t = (sendto_ready bystander takes_one two_packets).1 in
    (packets t ≡ packets two_packets)
    × IsSized t
    × (is_empty t.buffer ≡ true → t.writer ≡ false)
    × (is_empty t.buffer ≡ true → false ≡ true → t.sock ≡ false)
sendto_ready-packets_example =
    sendto_ready-packets bystander bystander-IsIdle takes_one two_packets refl refl refl refl
      takes_one-Plain

-- A third datagram, one that the kernel takes of the three, an abort, and a late datagram.
abbrev life : List Event
life =
    send_call (bytes_like (9 ∷ [])) (some 7) (ok tt)
    ∷ writable takes_one
    ∷ abort_call
    ∷ send_call (bytes_like (8 ∷ [])) none (err blocking_io)
    ∷ []

-- Reading is paused, and a datagram and an error are stored.
abbrev stored : Datagram
stored = record two_packets {
  core = record (two_packets.core) {
    paused = true;
    replay = datagram (1 ∷ []) 5 ∷ failure blocking_io ∷ [];
  };
}
