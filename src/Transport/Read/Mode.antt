-- ===== src/Transport/Read/Mode.antt =====
-- Which reader the loop runs for a stream transport, and which one its protocol needs.
use tokioop.Prelude.{
  ℕ, suc, ◌≡◌, refl, true, false, Option, none, some, [], ◌∷◌, ◌++◌, arith, is_some, is_empty,
}
use tokioop.Python.{Bytes, Result, ok, err, attribute_error, ◌>>◌}
use tokioop.Transport.Core
use tokioop.Transport.Core.{
  Core, Protocol, Reader, DrainKind, tcp, udp, drain_tcp, drain_udp, read_ready, connection_lost,
}
use tokioop.Transport.Stream.{Stream, User, base, Call, ReadReady}
use tokioop.Transport.Read.{
  set_protocol, switch_mode, wanted_kind, resume_reading, flush_replay, watch_again, unpause,
  drain_stream, drain, deliver, deliver_stream, data_received,
}

-- The reader that `_register_reader` sets up for a mode.
abbrev pub reader_for : Option DrainKind → Reader
reader_for none = read_ready
reader_for (some tcp) = drain_tcp
reader_for (some udp) = drain_udp

-- A transport that reads, over a loop that is open.
pub record IsReading (s : Stream) : Type 0 where
  pub has_loop : s.loop ≡ true
  pub loop_open : s.loop_closed ≡ false
  pub not_closing : s.closing ≡ false
  pub not_paused : s.paused ≡ false
  pub watched : s.reader ≡ some (reader_for s.drain_kind)

-- While a transport reads, `set_protocol` leaves the loop with the reader that the new protocol
-- needs, in place of the old one.
pub set_protocol-IsReading :
    (p : Protocol) (s : Stream)
    → IsReading s
    → let (r, t) = set_protocol p s in
      (r ≡ ok tt) × IsReading t × (t.drain_kind ≡ wanted_kind p) × (t.protocol ≡ some p)
unfolding set_protocol switch_mode Core.remove_reader Core.register_reader Core.is_reading
    Core.add_reader
set_protocol-IsReading p s h = ground arith

-- The next chunk, for a protocol that has no `data_received`.
chunk_kills :
    (u : User) (t : Stream) (payload : Bytes)
    → t.loop ≡ true
    → t.loop_closed ≡ false
    → t.closing ≡ false
    → t.paused ≡ false
    → t.conn_lost ≡ 0
    → is_some t.protocol ≡ true
    → is_empty payload ≡ false
    → ((v : Stream) → u.data_received payload v ≡ (err attribute_error, v))
    → let (r, v) = drain_stream u payload t in
      (r ≡ ok tt)
      × (v.closing ≡ true)
      × (v.reported ≡ t.reported ++ attribute_error ∷ [])
      × (v.ready ≡ t.ready ++ connection_lost (some attribute_error) ∷ [])
unfolding drain_stream drain deliver deliver_stream data_received Core.fatal_error Core.force_close
    Core.call_exception_handler Core.call_soon Core.remove_reader Core.remove_writer
chunk_kills u t payload a b c d e f g h =
    ground (arith, h (record t { calls = t.calls ++ Call.data_received payload ∷ [] }))

-- What `start_tls` does to the transport: reading is paused, the protocol is replaced, and reading
-- is resumed. The calls of the SSL protocol in between, which start the handshake, are left out.
unfoldable pub upgrade : User → ℕ → Protocol → Stream → Option (Result (Unit {0}) × Stream)
upgrade u fuel p s =
    let (r, t) = (do base Core.pause_reading; set_protocol p) s in
    elim r [ ok _ ↦ resume_reading u fuel t | err e ↦ some (err e, t) ]

upgraded : Protocol → Stream → Stream
upgraded p s = record s {
  core = record (s.core) {
    protocol = some p;
    protocol_connected = true;
    drain_kind = none;
    paused = false;
  };
  read_ready_cb = some ReadReady.get_buffer;
}

upgrade_lem :
    (u : User) (fuel : ℕ) (p : Protocol) (s : Stream)
    → IsReading s
    → s.drain_kind ≡ some tcp
    → s.replay ≡ []
    → p.buffered ≡ true
    → upgrade u (suc fuel) p s ≡ some (ok tt, upgraded p s)
unfolding upgrade set_protocol switch_mode resume_reading flush_replay watch_again unpause
    Core.pause_reading Core.is_reading Core.remove_reader upgraded
upgrade_lem u fuel p s h k e b = ground arith

-- The protocol switch of `start_tls`, to a `BufferedProtocol`, on a transport that reads in drain
-- mode with nothing in store, leaves the drain reader of the old protocol in place, although the
-- mode is now the callback mode. The next bytes that arrive are handed to `data_received`; if the
-- protocol has no such method, which is an `AttributeError`, the error is reported and the
-- connection is closed with it.
pub upgrade_breaks :
    (u : User) (fuel : ℕ) (p : Protocol) (s : Stream) (payload : Bytes)
    → IsReading s
    → s.drain_kind ≡ some tcp
    → s.replay ≡ []
    → s.conn_lost ≡ 0
    → p.buffered ≡ true
    → is_empty payload ≡ false
    → ((t : Stream) → u.data_received payload t ≡ (err attribute_error, t))
    → (t : Stream) × (upgrade u (suc fuel) p s ≡ some (ok tt, t))
      × (t.drain_kind ≡ none)
      × (t.reader ≡ some drain_tcp)
      × (let (r, v) = drain_stream u payload t in
          (r ≡ ok tt)
          × (v.closing ≡ true)
          × (v.reported ≡ s.reported ++ attribute_error ∷ [])
          × (v.ready ≡ s.ready ++ connection_lost (some attribute_error) ∷ []))
unfolding upgraded
upgrade_breaks u fuel p s payload h k e c b d no_method = (
  upgraded p s,
  upgrade_lem u fuel p s h k e b,
  refl,
  ground arith,
  chunk_kills u (upgraded p s) payload h.has_loop h.loop_open h.not_closing refl c refl d no_method,
)
