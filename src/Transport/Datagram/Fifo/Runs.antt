-- ===== src/Transport/Datagram/Fifo/Runs.antt =====
-- Every run of a datagram transport is one of its mailbox.
use tokioop.Prelude.{Option, List, ◌++◌}
use tokioop.Python.{Bytes, Result, ok, err}
use tokioop.Transport.Core
use tokioop.Transport.Core.{Core}
use tokioop.Transport.Datagram.{Packet, Address, Datagram, DatagramUser, send_or_enqueue}
use tokioop.Transport.Datagram.Fifo.{Mailbox, Event, run}
use tokioop.Transport.Datagram.Fifo.{Offered}
use tokioop.Transport.Datagram.Fifo.Spares.{IsSilent, Holds}
use tokioop.Transport.Datagram.Fifo.Subsequence.{Subsequence}

module _ (u : DatagramUser) (silent : IsSilent u) (m : Mailbox) where
  -- What a run from a state on comes to, after some datagrams.
  abbrev Runs : List Packet → List Event → Datagram → Type 0
  Runs ps es s = (qs : List Packet) × Offered u es s qs × Holds m (ps ++ qs) (run u es s)

  -- What `sendto` does, by its destination.
  abbrev directed : Bytes → Result (Unit {0}) → Datagram → Result (Option Address) → Datagram
  directed payload answer s d =
      (elim d as (λ _. Result (Unit {0}) × Datagram) [
        | ok dest ↦ send_or_enqueue u (payload, dest) answer s
        | err e ↦ (err e, s)
      ]).1
