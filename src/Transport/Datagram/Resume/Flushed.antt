-- ===== src/Transport/Datagram/Resume/Flushed.antt =====
-- A datagram transport that is resumed delivers what was stored, in order.
use tokioop.Prelude.{ℕ, ◌≡◌, ◌⊎◌, false, Option, none, some, List, [], ◌∷◌, ◌++◌}
use tokioop.Python.{Result, ok, err}
use tokioop.Transport.Core
use tokioop.Transport.Core.{Core, Protocol}
use tokioop.Transport.Datagram.{Arrival, Notice, Datagram, DatagramUser, deliver_arrival}
use tokioop.Transport.Datagram.Fifo.Spares.{IsSilent}
use tokioop.Transport.Datagram.Resume.{may_flush, set_arrivals, flush_arrivals, heard}

-- One more call was made, and nothing else that matters here has changed.
record Delivered (n : Notice) (s t : Datagram) : Type 0 where
  calls_more : t.calls ≡ s.calls ++ n ∷ []
  replay_same : t.replay ≡ s.replay
  protocol_same : t.protocol ≡ s.protocol

told : Notice → Datagram → Datagram
told n s = record s { calls = s.calls ++ n ∷ [] }

-- How a flush ends.
unfoldable pub Flushed : Datagram → Option (Result (Unit {0}) × Datagram) → Type 0
Flushed s none = ⊥
Flushed s (some (ok _, t)) = (heard t ≡ heard s) × ((t.replay ≡ []) ⊎ (may_flush t ≡ false))
Flushed s (some (err e, t)) = heard t ≡ heard s

module _ (u : DatagramUser) (silent : IsSilent u) where
  -- What a round comes to, whose delivery may be made.
  abbrev round_of : ℕ → Arrival → List Arrival → Datagram → Option (Result (Unit {0}) × Datagram)
  round_of f a ds s =
      let (r, t) = deliver_arrival u a (set_arrivals ds s) in
      elim r [ ok _ ↦ flush_arrivals u f t | err e ↦ some (err e, t) ]

  abbrev unpaused : Datagram → Datagram
  unpaused s = record s { core = record (s.core) { paused = false } }
