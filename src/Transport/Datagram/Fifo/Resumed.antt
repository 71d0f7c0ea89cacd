-- ===== src/Transport/Datagram/Fifo/Resumed.antt =====
-- A resumption leaves the mailbox alone, or ends the connection.
use tokioop.Prelude.{
  ◌||◌, zero, ℕ, suc, true, false, Bool, Option, none, some, List, [], ◌∷◌, arith, not,
  if◌then◌else◌,
}
use tokioop.Python.{Result, ok, err}
use tokioop.Transport.Core
use tokioop.Transport.Core.{Core}
use tokioop.Transport.Datagram.{Packet, Arrival, Datagram, DatagramUser, on_base, deliver_arrival}
use tokioop.Transport.Datagram.Fifo.{Mailbox}
use tokioop.Transport.Datagram.Resume.{
  may_flush, set_arrivals, watch_datagrams, flush_arrivals, resume_datagrams,
}
use tokioop.Transport.Datagram.Fifo.Spares.{IsSilent, Spares, Holds, spared-Holds}
use tokioop.Transport.Datagram.Fifo.Refines.{deliver_arrival-Holds}

watch_datagrams-Spares : (c : Core Packet Arrival) → Spares c (watch_datagrams c).1
unfolding watch_datagrams Core.register_reader Core.is_reading Core.add_reader
watch_datagrams-Spares c = ground arith

module _ (m : Mailbox) (ps : List Packet) where
  abbrev pub HoldsAfter : Option (Result (Unit {0}) × Datagram) → Type 0
  HoldsAfter none = Unit {0}
  HoldsAfter (some x) = Holds m ps x.1

  module _ (u : DatagramUser) (silent : IsSilent u) where
    -- The rest of a round, after its delivery.
    delivered-Holds :
        (f : ℕ) (x : Result (Unit {0}) × Datagram)
        → Holds m ps x.1
        → ((t : Datagram) → Holds m ps t → HoldsAfter (flush_arrivals u f t))
        → HoldsAfter (elim x.0 as (λ _. Option (Result (Unit {0}) × Datagram)) [
          | ok _ ↦ flush_arrivals u f x.1
          | err e ↦ some (err e, x.1)
        ])
    delivered-Holds f (ok _, t) h k = k t h
    delivered-Holds f (err e, t) h k = h

    listed-Holds :
        (f : ℕ) (ds : List Arrival) (b : Bool) (s : Datagram)
        → Holds m ps s
        → ((t : Datagram) → Holds m ps t → HoldsAfter (flush_arrivals u f t))
        → HoldsAfter (elim ds as (λ _. Option (Result (Unit {0}) × Datagram)) [
          | [] ↦ some (ok tt, s)
          | d ∷ ds ↦ elim b [
            | true ↦
                let (r, t) = deliver_arrival u d (set_arrivals ds s) in
                elim r [ ok _ ↦ flush_arrivals u f t | err e ↦ some (err e, t) ]
            | false ↦ some (ok tt, s)
          ]
        ])
    unfolding set_arrivals
    listed-Holds f [] b s h k = h
    listed-Holds f (d ∷ ds) false s h k = h
    listed-Holds f (d ∷ ds) true s h k =
        delivered-Holds f (deliver_arrival u d (set_arrivals ds s))
          (deliver_arrival-Holds m ps u silent d (set_arrivals ds s) h) k

    flush_arrivals-Holds :
        (fuel : ℕ) (s : Datagram) → Holds m ps s → HoldsAfter (flush_arrivals u fuel s)
    unfolding flush_arrivals
    flush_arrivals-Holds zero s h = tt
    flush_arrivals-Holds (suc f) s h =
        listed-Holds f s.replay (may_flush s) s h (flush_arrivals-Holds f)

    watched-Holds :
        (o : Option (Result (Unit {0}) × Datagram))
        → HoldsAfter o
        → HoldsAfter (elim o as (λ _. Option (Result (Unit {0}) × Datagram)) [
          | none ↦ none
          | some (r, t) ↦ elim r [
            | ok _ ↦ some (on_base watch_datagrams t)
            | err e ↦ some (err e, t)
          ]
        ])
    watched-Holds none h = h
    watched-Holds (some (err e, t)) h = h
    watched-Holds (some (ok _, t)) h = spared-Holds m ps watch_datagrams watch_datagrams-Spares t h

    pub resume_datagrams-Holds :
        (fuel : ℕ) (s : Datagram) → Holds m ps s → HoldsAfter (resume_datagrams u fuel s)
    unfolding resume_datagrams
    resume_datagrams-Holds fuel s h = tested (s.closing || not s.paused)
      where
        tested :
            (b : Bool)
            → HoldsAfter (
                if b
                then some (ok tt, s)
                else elim (flush_arrivals u fuel
                    (record s { core = record (s.core) { paused = false } })) [
                      | none ↦ none
                      | some (r, t) ↦ elim r [
                        | ok _ ↦ some (on_base watch_datagrams t)
                        | err e ↦ some (err e, t)
                      ]
                    ])
        tested true = h
        tested false =
            watched-Holds
              (flush_arrivals u fuel (record s { core = record (s.core) { paused = false } }))
              (flush_arrivals-Holds fuel (record s { core = record (s.core) { paused = false } }) h)
