-- ===== src/Transport/Datagram.antt =====
-- `_SelectorDatagramTransport` of python/tokioop/transports.py. The kernel takes a datagram whole or
-- not at all. The logging of repeated writes to a lost connection is left out.
pub mod Size
pub mod Enqueue
pub mod Order
pub mod Resume
pub mod Fifo
mod Tests
use tokioop.Prelude.{
  ℕ, suc, ◌+◌, ◌-◌, Bool, true, false, not, ◌&&◌, Option, none, some, List, [], ◌∷◌, ◌++◌, ltb,
  ◌==◌, length, is_empty, is_some, if◌then◌else◌,
}
use tokioop.Python.{
  Bytes, Exc, would_block, is_exit, is_os_error, type_error, value_error, attribute_error, Result,
  ok, err, Method, pure, gets, raise, modify, skip, when, try_else, finally, raise_if, ◌>>=◌, ◌>>◌,
}
use tokioop.Transport.Core
use tokioop.Transport.Core.{Core}
use tokioop.Transport.Stream.{release}
use tokioop.Transport.Write.{PyArg, bytes_like, no_bytes}

-- A resolved address, by its number.
abbrev pub Address : Type 0
Address = ℕ

-- A datagram that waits in the buffer, with its destination.
abbrev pub Packet : Type 0
Packet = Bytes × Option Address

-- A delivery that was taken from the kernel while reading was paused.
pub data Arrival : Type 0 where
  datagram : Bytes → Address → Arrival
  failure : Exc → Arrival

pub data Notice : Type 0 where
  datagram_received : Bytes → Address → Notice
  error_received : Exc → Notice
  connection_lost : Option Exc → Notice

pub record Datagram : Type 0 where
  pub core : Core Packet Arrival
  pub open core use *
  pub address : Option Address
  pub buffer_size : ℕ
  -- What the kernel took, and the protocol's calls.
  pub sent : List Packet
  pub calls : List Notice

-- The user's protocol, and the two methods of `transports._FlowControlMixin`.
pub record DatagramUser : Type 0 where
  pub datagram_received : Bytes → Address → Method Datagram (Unit {0})
  pub error_received : Exc → Method Datagram (Unit {0})
  pub connection_lost : Option Exc → Method Datagram (Unit {0})
  pub maybe_pause_protocol : Method Datagram (Unit {0})
  pub maybe_resume_protocol : Method Datagram (Unit {0})

abbrev pub header_size : ℕ
header_size = 8

abbrev pub size_of : Packet → ℕ
size_of p = length (p.0) + header_size

-- A method of the base class.
abbrev pub on_base : {A : Type 0} → Method (Core Packet Arrival) A → Method Datagram A
on_base m s = let (r, c) = m s.core in (r, record s { core = c })

abbrev pub notify : Notice → Method Datagram (Unit {0}) → Method Datagram (Unit {0})
notify notice m s = elim s.protocol [
  | none ↦ (err attribute_error, s)
  | some p ↦ m (record s { calls = s.calls ++ notice ∷ [] })
]

-- `send` on a connected socket, which has the destination itself, and `sendto` on another, with the
-- kernel's answer. `sent` keeps a datagram with the destination that the transport has for it.
unfoldable pub send_packet : Packet → Result (Unit {0}) → Method Datagram (Unit {0})
send_packet p answer s =
    if s.sock
    then elim answer [ ok _ ↦ (ok tt, record s { sent = s.sent ++ p ∷ [] }) | err e ↦ (err e, s) ]
    else (err attribute_error, s)

-- The buffer and its size are written together.
unfoldable pub set_queue : List Packet → ℕ → Method Datagram (Unit {0})
set_queue ps n = modify λ s. record s { core = record (s.core) { buffer = ps }; buffer_size = n }

-- `addr not in (None, self._address)`
abbrev other_address : Option Address → Address → Bool
other_address none own = false
other_address (some a) own = not (a == own)

unfoldable pub destination : Option Address → Option Address → Result (Option Address)
destination addr none = ok addr
destination addr (some own) = if other_address addr own then err value_error else ok (some own)

unfoldable pub get_write_buffer_size : Datagram → ℕ
get_write_buffer_size s = s.buffer_size

module _ (u : DatagramUser) where
  unfoldable pub deliver_datagram : Bytes → Address → Method Datagram (Unit {0})
  deliver_datagram payload addr =
      try_else (notify (datagram_received payload addr) (u.datagram_received payload addr))
        (λ e. if is_exit e then raise e else on_base (Core.fatal_error e)) (λ _. skip)

  unfoldable pub deliver_error : Exc → Method Datagram (Unit {0})
  deliver_error e = notify (error_received e) (u.error_received e)

  unfoldable pub deliver_arrival : Arrival → Method Datagram (Unit {0})
  deliver_arrival (datagram payload addr) = deliver_datagram payload addr
  deliver_arrival (failure e) = deliver_error e

  -- `_drain_datagram` and `_drain_error`
  unfoldable pub drain_arrival : Arrival → Method Datagram (Unit {0})
  drain_arrival a = do
    lost ← gets (λ s. s.conn_lost)
    closing ← gets (λ s. s.closing)
    paused ← gets (λ s. s.paused)
    if ltb 0 lost
        then skip
        else if closing
        then skip
        else if paused
        then on_base (modify λ c. record c { replay = c.replay ++ a ∷ [] })
        else deliver_arrival a

  -- The last three lines of `sendto`.
  unfoldable pub enqueue_packet : Packet → Method Datagram (Unit {0})
  enqueue_packet p = do
    queue ← gets (λ s. s.buffer)
    size ← gets (λ s. s.buffer_size)
    set_queue (queue ++ p ∷ []) (size + size_of p)
    u.maybe_pause_protocol

  -- What `sendto` does when the attempt to send at once failed.
  unfoldable pub send_failed : Packet → Exc → Method Datagram (Unit {0})
  send_failed p e =
      if would_block e
      then (do on_base Core.add_writer; enqueue_packet p)
      else if is_os_error e
      then deliver_error e
      else if is_exit e
      then raise e
      else on_base (Core.fatal_error e)

  unfoldable pub send_or_enqueue : Packet → Result (Unit {0}) → Method Datagram (Unit {0})
  send_or_enqueue p answer = do
    lost ← gets (λ s. s.conn_lost)
    own ← gets (λ s. s.address)
    queue ← gets (λ s. s.buffer)
    if ltb 0 lost && is_some own
        then on_base (modify λ c. record c { conn_lost = c.conn_lost + 1 })
        else if is_empty queue
        then try_else (send_packet p answer) (send_failed p) (λ _. skip)
        else enqueue_packet p

  unfoldable pub sendto : PyArg → Option Address → Result (Unit {0}) → Method Datagram (Unit {0})
  sendto no_bytes addr answer s = (err type_error, s)
  sendto (bytes_like payload) addr answer s = elim (destination addr s.address) [
    | ok dest ↦ send_or_enqueue (payload, dest) answer s
    | err e ↦ (err e, s)
  ]

  -- The handlers in the loop of `_sendto_ready`; the answer is whether the method goes on after the
  -- loop.
  unfoldable pub queued_failed : Packet → List Packet → Exc → Method Datagram Bool
  queued_failed p rest e =
      if would_block e
      then (do size ← gets (λ s. s.buffer_size); set_queue (p ∷ rest) (size + size_of p); pure true)
      else if is_os_error e
      then (do deliver_error e; pure false)
      else if is_exit e
      then raise e
      else (do on_base (Core.fatal_error e); pure false)

  -- The loop, over the buffer: it runs no user code before it ends.
  unfoldable pub send_queued : List Packet → (ℕ → Result (Unit {0})) → ℕ → Method Datagram Bool
  send_queued [] answers i = pure true
  send_queued (p ∷ rest) answers i = do
    size ← gets (λ s. s.buffer_size)
    set_queue rest (size - size_of p)
    try_else (send_packet p (answers i)) (queued_failed p rest)
        (λ _. send_queued rest answers (suc i))

  -- `_call_connection_lost` of the base class.
  unfoldable pub end_connection : Option Exc → Method Datagram (Unit {0})
  end_connection exc =
      finally
        (do
          connected ← gets (λ s. s.protocol_connected)
          when connected (notify (connection_lost exc) (u.connection_lost exc)))
        (on_base release)

  unfoldable pub after_loop : Method Datagram (Unit {0})
  after_loop = do
    u.maybe_resume_protocol
    queue ← gets (λ s. s.buffer)
    if not (is_empty queue) then skip else do
      on_base Core.remove_writer
      closing ← gets (λ s. s.closing)
      when closing (end_connection none)

  unfoldable pub sendto_ready : (ℕ → Result (Unit {0})) → Method Datagram (Unit {0})
  sendto_ready answers = do
    queue ← gets (λ s. s.buffer)
    go_on ← send_queued queue answers 0
    when go_on after_loop
