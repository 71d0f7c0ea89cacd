-- ===== src/Transport/Datagram/Enqueue.antt =====
-- `sendto` of a datagram transport.
use tokioop.Prelude.{
  ◌+◌, ◌≡◌, sym, ap, inl, inr, true, false, Option, [], ◌∷◌, ◌++◌, append-nil, append_assoc, arith,
  subst, is_empty, is_empty→eq, Bool-cases,
}
use tokioop.Python.{Bytes, Exc, would_block, Result, ok, err}
use tokioop.Transport.Core
use tokioop.Transport.Write.{bytes_like}
use tokioop.Transport.Datagram.{
  Packet, Address, Datagram, DatagramUser, size_of, send_packet, set_queue, destination,
  enqueue_packet, send_failed, send_or_enqueue, sendto,
}
use tokioop.Transport.Datagram.Size.{packets, IsSized, Plain, IsIdle, sizes-append}

queued : Packet → Datagram → Datagram
queued p s = record s {
  core = record (s.core) { buffer = s.buffer ++ p ∷ [] };
  buffer_size = s.buffer_size + size_of p;
}

-- What `sendto` owes: the datagram comes last, and the size is right.
abbrev Adds : Packet → Datagram → Datagram → Type 0
Adds p s t = (packets t ≡ packets s ++ p ∷ []) × IsSized t

queued-Adds : (p : Packet) (s : Datagram) → IsSized s → Adds p s (queued p s)
unfolding queued
queued-Adds p s sized =
    (sym (append_assoc s.sent s.buffer (p ∷ [])), omega (arith, sizes-append s.buffer (p ∷ [])))

sent-Adds :
    (p : Packet) (s : Datagram)
    → is_empty s.buffer ≡ true
    → IsSized s
    → Adds p s (record s { sent = s.sent ++ p ∷ [] })
sent-Adds p s e sized = (rw (is_empty→eq s.buffer e) (simp append-nil), sized)

watched : Datagram → Datagram
watched s = record s { core = record (s.core) { writer = true } }

module _ (u : DatagramUser) (p : Packet) (s : Datagram) (sock : s.sock ≡ true)
    (lost : s.conn_lost ≡ 0) where
  send_busy :
      (answer : Result (Unit {0}))
      → is_empty s.buffer ≡ false
      → send_or_enqueue u p answer s ≡ enqueue_packet u p s
  unfolding send_or_enqueue
  send_busy answer b = ground arith

  send_ok :
      is_empty s.buffer ≡ true
      → send_or_enqueue u p (ok tt) s ≡ (ok tt, record s { sent = s.sent ++ p ∷ [] })
  unfolding send_or_enqueue send_packet
  send_ok b = ground arith

  send_blocked :
      (e : Exc)
      → is_empty s.buffer ≡ true
      → s.loop ≡ true
      → s.loop_closed ≡ false
      → would_block e ≡ true
      → send_or_enqueue u p (err e) s ≡ enqueue_packet u p (watched s)
  unfolding send_or_enqueue send_packet send_failed Core.add_writer watched
  send_blocked e b l o w = ground arith

module _ (u : DatagramUser) (idle : IsIdle u) where
  enqueue_packet_lem : (p : Packet) (s : Datagram) → enqueue_packet u p s ≡ (ok tt, queued p s)
  unfolding enqueue_packet set_queue queued
  enqueue_packet_lem p s = idle.pauses (queued p s)

  send_or_enqueue-Adds :
      (p : Packet) (answer : Result (Unit {0})) (s : Datagram)
      → s.sock ≡ true
      → s.loop ≡ true
      → s.loop_closed ≡ false
      → s.conn_lost ≡ 0
      → IsSized s
      → Plain answer
      → Adds p s (send_or_enqueue u p answer s).1
  unfolding watched
  send_or_enqueue-Adds p answer s k l o c sized h = elim (Bool-cases (is_empty s.buffer)) [
    | inr busy ↦
        rw (send_busy u p s k c answer busy, enqueue_packet_lem p s) (queued-Adds p s sized)
    | inl free ↦ tried answer h free
  ]
    where
      tried :
          (a : Result (Unit {0}))
          → Plain a
          → is_empty s.buffer ≡ true
          → Adds p s (send_or_enqueue u p a s).1
      tried (ok _) h free = rw (send_ok u p s k c free) (sent-Adds p s free sized)
      tried (err e) h free =
          rw (send_blocked u p s k c e free l o h, enqueue_packet_lem p (watched s))
            (queued-Adds p (watched s) sized)

  -- While user code leaves the transport alone, the size that is kept of the buffer is right, the
  -- transport is connected and the kernel takes the datagram or would block, `sendto` puts the
  -- datagram, with the destination that the transport's own address gives it, after all that came
  -- before, and the size stays right.
  sendto-Adds :
      (payload : Bytes) (addr dest : Option Address) (answer : Result (Unit {0})) (s : Datagram)
      → s.sock ≡ true
      → s.loop ≡ true
      → s.loop_closed ≡ false
      → s.conn_lost ≡ 0
      → IsSized s
      → destination addr s.address ≡ ok dest
      → Plain answer
      → let t = (sendto u (bytes_like payload) addr answer s).1 in
        (packets t ≡ packets s ++ (payload, dest) ∷ []) × IsSized t
  unfolding sendto
  sendto-Adds payload addr dest answer s k l o c sized d h =
      let next =
        ap
          (λ (x : Result (Option Address)). elim x [
            | ok dest ↦ send_or_enqueue u (payload, dest) answer s
            | err e ↦ (err e, s)
          ])
          d in
      subst (λ (x : Result (Unit {0}) × Datagram). Adds (payload, dest) s x.1) (sym next)
        (send_or_enqueue-Adds (payload, dest) answer s k l o c sized h)
