-- ===== src/Transport/Datagram/Fifo/Spares.antt =====
-- What the base class and the deliveries do to the mailbox of a datagram transport.
use tokioop.Prelude.{
  ◌≡◌, refl, sym, ◌⊎◌, inl, inr, Bool-cases, Option, none, some, List, [], ◌∷◌, ◌++◌, arith, subst,
}
use tokioop.Python.{Bytes, Exc, attribute_error, Result, ok, err, Method}
use tokioop.Python.Rules.{Keeps}
use tokioop.Transport.Core
use tokioop.Transport.Core.{Core}
use tokioop.Transport.Stream.{release}
use tokioop.Transport.Datagram.{
  Packet, Address, Arrival, Notice, error_received, Datagram, DatagramUser, on_base, notify,
  send_packet, deliver_error,
}
use tokioop.Transport.Datagram.Fifo.{Mailbox, Moves, clears, mailbox}

-- User code that leaves the transport alone; it may raise.
pub record IsSilent (u : DatagramUser) : Type 0 where
  pub on_data :
      (payload : Bytes) (addr : Address) (s : Datagram) → (u.datagram_received payload addr s).1 ≡ s
  pub on_error : (e : Exc) (s : Datagram) → (u.error_received e s).1 ≡ s
  pub on_lost : (e : Option Exc) (s : Datagram) → (u.connection_lost e s).1 ≡ s
  pub on_pause : (s : Datagram) → (u.maybe_pause_protocol s).1 ≡ s
  pub on_resume : (s : Datagram) → (u.maybe_resume_protocol s).1 ≡ s

-- A base method leaves the buffer or clears it.
abbrev pub Spares : Core Packet Arrival → Core Packet Arrival → Type 0
Spares c d = (d.buffer ≡ c.buffer) ⊎ (d.buffer ≡ [])

force_close-Spares : (e : Option Exc) (c : Core Packet Arrival) → Spares c (Core.force_close e c).1
unfolding Core.force_close Core.remove_writer Core.remove_reader Core.call_soon
force_close-Spares e c = ground arith

pub abort-Spares : (c : Core Packet Arrival) → Spares c (Core.abort c).1
unfolding Core.abort
abort-Spares c = force_close-Spares none c

fatal_error-Spares : (e : Exc) (c : Core Packet Arrival) → Spares c (Core.fatal_error e c).1
unfolding Core.fatal_error Core.call_exception_handler
fatal_error-Spares e c = ground (
  arith,
  force_close-Spares (some e) c,
  force_close-Spares (some e) (record c { reported = c.reported ++ e ∷ [] }),
)

pub close-Spares : (c : Core Packet Arrival) → Spares c (Core.close c).1
unfolding Core.close Core.remove_writer Core.remove_reader Core.call_soon
close-Spares c = ground arith

pub pause_reading-Spares : (c : Core Packet Arrival) → Spares c (Core.pause_reading c).1
unfolding Core.pause_reading Core.is_reading Core.remove_reader
pause_reading-Spares c = ground arith

pub release-Spares : (c : Core Packet Arrival) → Spares c (release c).1
unfolding release
release-Spares c = ground arith

pub add_writer-Spares : (c : Core Packet Arrival) → Spares c (Core.add_writer c).1
unfolding Core.add_writer
add_writer-Spares c = ground arith

pub remove_writer-Spares : (c : Core Packet Arrival) → Spares c (Core.remove_writer c).1
unfolding Core.remove_writer
remove_writer-Spares c = ground arith

-- The kernel takes the datagram, or an exception comes out and nothing changes.
pub sent_or_failed :
    (p : Packet) (answer : Result (Unit {0})) (t : Datagram)
    → (send_packet p answer t ≡ (ok tt, record t { sent = t.sent ++ p ∷ [] }))
      ⊎ ((e : Exc) × (send_packet p answer t ≡ (err e, t)))
unfolding send_packet
sent_or_failed p (ok _) t = elim (Bool-cases t.sock) [
  | inl there ↦ inl (ground arith)
  | inr closed ↦ inr (attribute_error, ground arith)
]
sent_or_failed p (err e) t = elim (Bool-cases t.sock) [
  | inl there ↦ inr (e, ground arith)
  | inr closed ↦ inr (attribute_error, ground arith)
]

module _ (m : Mailbox) (ps : List Packet) where
  -- The mailbox of the transport can be reached.
  abbrev pub Holds : Datagram → Type 0
  Holds s = Moves m ps (mailbox s)

  pub same-Holds : (s t : Datagram) → t.buffer ≡ s.buffer → t.sent ≡ s.sent → Holds s → Holds t
  same-Holds s t b e h =
      subst (λ (x : List Packet). Moves m ps (record { waiting = x; handed = t.sent })) (sym b)
        (subst (λ (y : List Packet). Moves m ps (record { waiting = s.buffer; handed = y })) (sym e)
          h)

  pub spared-Holds :
      {A : Type 0} (f : Method (Core Packet Arrival) A)
      → ((c : Core Packet Arrival) → Spares c (f c).1)
      → Keeps Holds (on_base f)
  spared-Holds f spares s h = elim (spares s.core) [
    | inl b ↦ same-Holds s (on_base f s).1 b refl h
    | inr b ↦
        same-Holds (record s { core = record (s.core) { buffer = [] } }) (on_base f s).1 b refl
          (clears h)
  ]

  pub notify-Holds :
      (notice : Notice) (f : Method Datagram (Unit {0}))
      → Keeps Holds f
      → Keeps Holds (notify notice f)
  notify-Holds notice f k s h = told s.protocol
    where
      told :
          (o : Option Core.Protocol)
          → Holds
              (elim o as (λ _. Result (Unit {0}) × Datagram) [
                | none ↦ (err attribute_error, s)
                | some p ↦ f (record s { calls = s.calls ++ notice ∷ [] })
              ]).1
      told none = h
      told (some p) = k (record s { calls = s.calls ++ notice ∷ [] }) h

  module _ (u : DatagramUser) (silent : IsSilent u) where
    pub deliver_error-Holds : (e : Exc) → Keeps Holds (deliver_error u e)
    unfolding deliver_error
    deliver_error-Holds e =
        notify-Holds (error_received e) (u.error_received e)
          (λ s h. subst Holds (sym (silent.on_error e s)) h)

    pub fatal_error-Holds : (e : Exc) → Keeps Holds (on_base (Core.fatal_error e))
    fatal_error-Holds e = spared-Holds (Core.fatal_error e) (fatal_error-Spares e)
