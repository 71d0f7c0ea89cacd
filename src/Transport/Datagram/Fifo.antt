-- ===== src/Transport/Datagram/Fifo.antt =====
-- What a datagram transport promises of its datagrams, as an abstract mailbox, and the calls and
-- events of a transport in any order.
pub mod Spares
pub mod Refines
pub mod Post
pub mod Subsequence
pub mod Resumed
pub mod Runs
use tokioop.Transport.Datagram.Resume.{resume_datagrams}
use tokioop.Prelude.{◌⊎◌, suc, none, some, length, ℕ, ◌≡◌, true, false, Option, List, [], ◌∷◌, ◌++◌}
use tokioop.Python.{Bytes, Exc, Result, ok, Method}
use tokioop.Transport.Core
use tokioop.Transport.Write.{PyArg, bytes_like, no_bytes}
use tokioop.Transport.Datagram.{
  Address, Packet, Arrival, Datagram, DatagramUser, on_base, sendto, sendto_ready, drain_arrival,
  end_connection,
}

-- The datagrams that wait, and those that were handed over, each in order.
pub record Mailbox : Type 0 where
  pub waiting : List Packet
  pub handed : List Packet

-- What a mailbox may do, with the datagrams that are posted meanwhile: it takes one in at the end,
-- hands the first one over, loses the first one, or loses all. It neither reorders nor repeats.
pub data Moves (m : Mailbox) : List Packet → Mailbox → Type 0 where
  stays : Moves m [] m
  posts :
      {ps : List Packet} {n : Mailbox} (p : Packet)
      → Moves m ps n
      → Moves m (ps ++ p ∷ []) (record n { waiting = n.waiting ++ p ∷ [] })
  hands :
      {ps : List Packet} {rest handed : List Packet} (p : Packet)
      → Moves m ps (record { waiting = p ∷ rest; handed = handed })
      → Moves m ps (record { waiting = rest; handed = handed ++ p ∷ [] })
  loses :
      {ps : List Packet} {rest handed : List Packet} (p : Packet)
      → Moves m ps (record { waiting = p ∷ rest; handed = handed })
      → Moves m ps (record { waiting = rest; handed = handed })
  clears : {ps : List Packet} {n : Mailbox} → Moves m ps n → Moves m ps (record n { waiting = [] })

-- The mailbox of a transport: its buffer, and what the kernel took.
abbrev pub mailbox : Datagram → Mailbox
mailbox s = record { waiting = s.buffer; handed = s.sent }

-- The calls of the user and the events of the loop.
pub data Event : Type 0 where
  send_call : PyArg → Option Address → Result (Unit {0}) → Event
  writable : (ℕ → Result (Unit {0})) → Event
  arrival : Arrival → Event
  close_call abort_call pause_call resume_call : Event
  connection_end : Option Exc → Event

module _ (u : DatagramUser) where
  -- A resumption has one more round than there are stored arrivals, which is enough for user code that
  -- leaves the transport alone.
  unfoldable pub step : Event → Method Datagram (Unit {0})
  step (send_call arg addr answer) s = sendto u arg addr answer s
  step (writable answers) s = sendto_ready u answers s
  step (arrival a) s = drain_arrival u a s
  step close_call s = on_base Core.close s
  step abort_call s = on_base Core.abort s
  step pause_call s = on_base Core.pause_reading s
  step resume_call s = elim (resume_datagrams u (suc (length s.replay)) s) [
    | none ↦ (ok tt, s)
    | some x ↦ x
  ]
  step (connection_end e) s = end_connection u e s

  unfoldable pub run : List Event → Datagram → Datagram
  run [] s = s
  run (e ∷ es) s = run es (step e s).1

-- Where a datagram goes: to the address that `sendto` is called with; on a transport with an address of
-- its own to that one, which `sendto` may then name or not.
abbrev pub Goes : Option Address → Option Address → Option Address → Type 0
Goes none addr dest = dest ≡ addr
Goes (some own) addr dest = (dest ≡ some own) × ((addr ≡ none) ⊎ (addr ≡ some own))

-- Datagrams that calls of `sendto` in a run offer, some or all of them, in order.
pub data Offered (u : DatagramUser) : List Event → Datagram → List Packet → Type 0 where
  nothing : {s : Datagram} → Offered u [] s []
  skips :
      {es : List Event} {s : Datagram} {ps : List Packet} (e : Event)
      → Offered u es (step u e s).1 ps
      → Offered u (e ∷ es) s ps
  offers :
      {es : List Event} {s : Datagram} {ps : List Packet} (payload : Bytes)
      (addr dest : Option Address) (answer : Result (Unit {0}))
      → Goes s.address addr dest
      → Offered u es (step u (send_call (bytes_like payload) addr answer) s).1 ps
      → Offered u (send_call (bytes_like payload) addr answer ∷ es) s ((payload, dest) ∷ ps)
