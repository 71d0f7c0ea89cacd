-- ===== src/Transport/Datagram/Resume.antt =====
-- `resume_reading` and `_flush_replay` of a datagram transport: the stored arrivals are delivered in
-- order.
pub mod Flushed
use tokioop.Prelude.{
  ℕ, zero, suc, ◌+◌, ◌<◌, ◌≤◌, ◌≡◌, refl, sym, ap, ◌∙◌, ◌⊎◌, inl, inr, Bool, true, false, not, ◌&&◌,
  ◌||◌, Bool-cases, Option, none, some, List, [], ◌∷◌, ◌++◌, append_assoc, arith, subst, length,
  is_some, ◌==◌, map, if◌then◌else◌,
}
use tokioop.Python.{
  Bytes, Exc, is_exit, Result, ok, err, Method, gets, skip, when, raise, try_else, ◌>>=◌, ◌>>◌,
}
use tokioop.Python.Rules.{Keeps, Keeps-try_else, if_at}
use tokioop.Transport.Core
use tokioop.Transport.Core.{Core, Protocol}
use tokioop.Transport.Datagram.{
  Packet, Address, Arrival, datagram, failure, Notice, datagram_received, error_received, Datagram,
  DatagramUser, on_base, notify, deliver_datagram, deliver_error, deliver_arrival,
}

-- The test of the loop of `_flush_replay`, without the list.
unfoldable pub may_flush : Datagram → Bool
may_flush s = not s.paused && (not s.closing && s.conn_lost == 0)

unfoldable pub set_arrivals : List Arrival → Datagram → Datagram
set_arrivals ds s = record s { core = record (s.core) { replay = ds } }

-- The end of `resume_reading`, after the flush.
unfoldable pub watch_datagrams : Method (Core Packet Arrival) (Unit {0})
watch_datagrams = do
  paused ← gets (λ c. c.paused)
  closing ← gets (λ c. c.closing)
  polling ← gets Core.is_polling
  if paused || closing then skip else do when (not polling) Core.register_reader; Core.debug_log

module _ (u : DatagramUser) where
  -- On fuel; `none` means that the fuel ran out.
  unfoldable pub flush_arrivals : ℕ → Datagram → Option (Result (Unit {0}) × Datagram)
  flush_arrivals zero s = none
  flush_arrivals (suc f) s = elim s.replay [
    | [] ↦ some (ok tt, s)
    | d ∷ ds ↦ elim (may_flush s) [
      | true ↦
          let (r, s') = deliver_arrival u d (set_arrivals ds s) in
          elim r [ ok _ ↦ flush_arrivals f s' | err e ↦ some (err e, s') ]
      | false ↦ some (ok tt, s)
    ]
  ]

  unfoldable pub resume_datagrams : ℕ → Datagram → Option (Result (Unit {0}) × Datagram)
  resume_datagrams fuel s =
      if s.closing || not s.paused
      then some (ok tt, s)
      else elim (flush_arrivals fuel (record s { core = record (s.core) { paused = false } })) [
        | none ↦ none
        | some (r, s') ↦ elim r [
          | ok _ ↦ some (on_base watch_datagrams s')
          | err e ↦ some (err e, s')
        ]
      ]

-- The call that a delivery makes.
unfoldable pub notice_of : Arrival → Notice
notice_of (datagram payload addr) = datagram_received payload addr
notice_of (failure e) = error_received e

-- The calls made, and those that the stored arrivals will make.
unfoldable pub heard : Datagram → List Notice
heard s = s.calls ++ map notice_of s.replay
