-- ===== src/Transport/Tls/Handover.antt =====
-- What `start_tls` makes of the transport before it waits for the handshake.
use tokioop.Prelude.{
  ◌≡◌, Bool, true, false, Option, none, some, List, [], ◌∷◌, ◌++◌, arith, append-nil,
}
use tokioop.Python.{Bytes, Method, when, modify, ◌>>◌}
use tokioop.Python.Returns.{Returns, Returns-mono, Returns->>}
use tokioop.Transport.Core
use tokioop.Transport.Core.{Protocol}
use tokioop.Transport.Stream.{Stream, base}
use tokioop.Transport.Read.{set_protocol, switch_mode}
use tokioop.Transport.Tls.{
  Handle, connection_made, resume_reading, Tls, on_stream, move_buffer, call_soon, hand_over,
}

-- What the SSL protocol will read first, and what is left to the user's reader: on the server's side
-- what the reader had buffered goes over.
abbrev pub incoming_after : Bool → Tls → Bytes
incoming_after true x = x.incoming ++ (elim x.reader_buffer [ none ↦ [] | some b ↦ b ])
incoming_after false x = x.incoming

abbrev pub reader_after : Bool → Tls → Option Bytes
reader_after true x = elim x.reader_buffer [ none ↦ none | some b ↦ some [] ]
reader_after false x = x.reader_buffer

-- While the handshake is awaited: the transport is paused, so that nothing is delivered; its protocol
-- is the SSL protocol, which hears of the connection before reading is resumed; the old protocol was
-- not called, and what its reader had buffered is the SSL protocol's on the server's side.
pub record IsHandedOver (server_side : Bool) (p : Protocol) (x t : Tls) : Type 0 where
  pub has_loop : t.stream.loop ≡ true
  pub loop_open : t.stream.loop_closed ≡ false
  pub paused : t.stream.paused ≡ true
  pub protocol : t.stream.protocol ≡ some p
  pub no_calls : t.stream.calls ≡ x.stream.calls
  pub in_order : t.handles ≡ connection_made ∷ resume_reading ∷ []
  pub moved : t.incoming ≡ incoming_after server_side x
  pub left : t.reader_buffer ≡ reader_after server_side x

-- A transport that reads, over an open loop.
pub record IsActive (s : Stream) : Type 0 where
  pub has_loop : s.loop ≡ true
  pub loop_open : s.loop_closed ≡ false
  pub not_closing : s.closing ≡ false
  pub not_paused : s.paused ≡ false

-- The stages of the handing over.
record Stage (x : Tls) (inc : Bytes) (left : Option Bytes) (hs : List Handle) (t : Tls)
    : Type 0 where
  paused : t.stream.paused ≡ true
  has_loop : t.stream.loop ≡ true
  loop_open : t.stream.loop_closed ≡ false
  no_calls : t.stream.calls ≡ x.stream.calls
  handles : t.handles ≡ hs
  has_incoming : t.incoming ≡ inc
  has_left : t.reader_buffer ≡ left

pause_step :
    (x : Tls)
    → IsActive x.stream
    → x.handles ≡ []
    → Returns (λ _. Stage x x.incoming x.reader_buffer []) (on_stream (base Core.pause_reading) x)
unfolding Core.pause_reading Core.is_reading Core.remove_reader
pause_step x a f = ground arith

move_step :
    (server_side : Bool) (x t : Tls)
    → Stage x x.incoming x.reader_buffer [] t
    → Returns
        (λ _. Stage x (incoming_after server_side x) (reader_after server_side x) [])
        (when server_side (modify λ x. move_buffer x.reader_buffer x) t)
unfolding move_buffer
move_step true x t g = ground (arith, g, append-nil x.incoming)
move_step false x t g = g

module _ (x : Tls) (inc : Bytes) (left : Option Bytes) (hs : List Handle) (t : Tls)
    (g : Stage x inc left hs t) where
  protocol_step :
      (p : Protocol)
      → Returns
          (λ _ v. Stage x inc left hs v × (v.stream.protocol ≡ some p))
          (on_stream (set_protocol p) t)
  unfolding set_protocol switch_mode Core.remove_reader Core.register_reader Core.is_reading
  protocol_step p = ground (arith, g)

  soon_step :
      (h : Handle) (q : Option Protocol)
      → t.stream.protocol ≡ q
      → Returns (λ _ v. Stage x inc left (hs ++ h ∷ []) v × (v.stream.protocol ≡ q)) (call_soon h t)
  unfolding call_soon
  soon_step h q e = ground (arith, g)

module _ (server_side : Bool) (p : Protocol) (x : Tls) (active : IsActive x.stream)
    (fresh : x.handles ≡ []) where
  abbrev Done : Tls → Type 0
  Done = IsHandedOver server_side p x

  abbrev inc : Bytes
  inc = incoming_after server_side x

  abbrev left : Option Bytes
  left = reader_after server_side x

  soon-IsHandedOver :
      (t : Tls)
      → Stage x inc left [] t
      → t.stream.protocol ≡ some p
      → Returns (λ _. Done) ((call_soon connection_made >> call_soon resume_reading) t)
  soon-IsHandedOver t g e =
      Returns->> (λ v. Stage x inc left (connection_made ∷ []) v × (v.stream.protocol ≡ some p))
        (λ _. Done) (call_soon connection_made) (call_soon resume_reading) t
        (soon_step x inc left [] t g connection_made (some p) e)
        λ v (h, q).
          Returns-mono
            (λ _ w.
              Stage x inc left (connection_made ∷ resume_reading ∷ []) w
              × (w.stream.protocol ≡ some p))
            (λ _. Done) (call_soon resume_reading v)
            (soon_step x inc left (connection_made ∷ []) v h resume_reading (some p) q)
            λ _ w (i, r). record {
              has_loop = i.has_loop;
              loop_open = i.loop_open;
              paused = i.paused;
              protocol = r;
              no_calls = i.no_calls;
              in_order = i.handles;
              moved = i.has_incoming;
              left = i.has_left;
            }

  pub hand_over-IsHandedOver :
      Returns (λ _. IsHandedOver server_side p x) (hand_over server_side p x)
  unfolding hand_over
  hand_over-IsHandedOver =
      let move : Method Tls (Unit {0}) =
        when server_side (modify λ x. move_buffer x.reader_buffer x) in
      let soon = call_soon connection_made >> call_soon resume_reading in
      let switch = on_stream (set_protocol p) >> soon in
      Returns->> (Stage x x.incoming x.reader_buffer []) (λ _. Done)
        (on_stream (base Core.pause_reading)) (move >> switch) x (pause_step x active fresh)
        λ t g.
          Returns->> (Stage x inc left []) (λ _. Done) move switch t (move_step server_side x t g)
            λ v h.
              Returns->> (λ w. Stage x inc left [] w × (w.stream.protocol ≡ some p)) (λ _. Done)
                (on_stream (set_protocol p)) soon v (protocol_step x inc left [] v h p)
                λ w (i, e). soon-IsHandedOver w i e
