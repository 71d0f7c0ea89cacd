-- ===== src/Transport/Datagram/Fifo/Post.antt =====
-- `sendto` posts its datagram at most once.
use tokioop.Prelude.{
  ◌+◌, ◌≡◌, refl, sym, ◌⊎◌, inl, inr, List, [], ◌∷◌, ◌++◌, subst, is_empty, is_empty→eq, is_some,
  ltb, ◌&&◌, if◌then◌else◌,
}
use tokioop.Python.{
  Exc, would_block, is_exit, is_os_error, Result, ok, err, raise, skip, modify, try_else, ◌>>◌,
}
use tokioop.Python.Rules.{if_at}
use tokioop.Transport.Core
use tokioop.Transport.Core.{Core}
use tokioop.Transport.Datagram.{
  Packet, Datagram, DatagramUser, size_of, on_base, send_packet, set_queue, deliver_error,
  enqueue_packet, send_failed, send_or_enqueue,
}
use tokioop.Transport.Datagram.Fifo.{Mailbox, Moves, posts, hands}
use tokioop.Transport.Datagram.Fifo.Spares.{
  IsSilent, sent_or_failed, Holds, same-Holds, spared-Holds, deliver_error-Holds, fatal_error-Holds,
  add_writer-Spares,
}

module _ (m : Mailbox) (ps : List Packet) (u : DatagramUser) (silent : IsSilent u)
    (p : Packet) where
  -- The datagram was posted, or nothing was.
  abbrev pub Posted : Datagram → Type 0
  Posted s = Holds m ps s ⊎ Holds m (ps ++ p ∷ []) s

  abbrev queued : Datagram → Datagram
  queued s = record s {
    core = record (s.core) { buffer = s.buffer ++ p ∷ [] };
    buffer_size = s.buffer_size + size_of p;
  }

  enqueue_packet-Posted : (s : Datagram) → Holds m ps s → Posted (enqueue_packet u p s).1
  unfolding enqueue_packet set_queue
  enqueue_packet-Posted s h =
      inr (subst (Holds m (ps ++ p ∷ [])) (sym (silent.on_pause (queued s))) (posts p h))

  -- It was taken at once.
  taken-Posted :
      (s : Datagram) → s.buffer ≡ [] → Holds m ps s → Posted (record s { sent = s.sent ++ p ∷ [] })
  taken-Posted s b h = inr (
      same-Holds m (ps ++ p ∷ [])
        (record s { core = record (s.core) { buffer = [] }; sent = s.sent ++ p ∷ [] })
        (record s { sent = s.sent ++ p ∷ [] }) b refl
        (hands p (
          subst
            (λ (q : List Packet).
              Moves m (ps ++ p ∷ []) (record { waiting = q ++ p ∷ []; handed = s.sent }))
            b (posts p h))))

  watched-Posted :
      (x : Result (Unit {0}) × Datagram)
      → Holds m ps x.1
      → Posted (((λ (_ : Datagram). x) >> enqueue_packet u p) x.1).1
  watched-Posted (ok _, t) h = enqueue_packet-Posted t h
  watched-Posted (err e, t) h = inl h

  send_failed-Posted : (e : Exc) (s : Datagram) → Holds m ps s → Posted (send_failed u p e s).1
  unfolding send_failed
  send_failed-Posted e s h =
      if_at Posted (would_block e) (do on_base Core.add_writer; enqueue_packet u p)
        (if is_os_error e
          then deliver_error u e
          else if is_exit e
          then raise e
          else on_base (Core.fatal_error e))
        s
        (λ _.
          watched-Posted (on_base Core.add_writer s)
            (spared-Holds m ps Core.add_writer add_writer-Spares s h))
        (λ _.
          if_at Posted (is_os_error e) (deliver_error u e)
            (if is_exit e then raise e else on_base (Core.fatal_error e)) s
            (λ _. inl (deliver_error-Holds m ps u silent e s h))
            (λ _.
              if_at Posted (is_exit e) (raise e) (on_base (Core.fatal_error e)) s (λ _. inl h)
                (λ _. inl (fatal_error-Holds m ps u silent e s h))))

  tried-Posted :
      (answer : Result (Unit {0})) (s : Datagram)
      → s.buffer ≡ []
      → Holds m ps s
      → Posted (try_else (send_packet p answer) (send_failed u p) (λ _. skip) s).1
  tried-Posted answer s b h = elim (sent_or_failed p answer s) [
    | inl e ↦
        subst
          (λ (x : Result (Unit {0}) × Datagram).
            Posted (try_else (λ _. x) (send_failed u p) (λ _. skip) s).1)
          (sym e) (taken-Posted s b h)
    | inr (e, f) ↦
        subst
          (λ (x : Result (Unit {0}) × Datagram).
            Posted (try_else (λ _. x) (send_failed u p) (λ _. skip) s).1)
          (sym f) (send_failed-Posted e s h)
  ]

  pub send_or_enqueue-Posted :
      (answer : Result (Unit {0})) (s : Datagram)
      → Holds m ps s
      → Posted (send_or_enqueue u p answer s).1
  unfolding send_or_enqueue
  send_or_enqueue-Posted answer s h =
      if_at Posted (ltb 0 s.conn_lost && is_some s.address)
        (on_base (modify λ c. record c { conn_lost = c.conn_lost + 1 }))
        (if is_empty s.buffer
          then try_else (send_packet p answer) (send_failed u p) (λ _. skip)
          else enqueue_packet u p)
        s (λ _. inl h)
        (λ _.
          if_at Posted (is_empty s.buffer)
            (try_else (send_packet p answer) (send_failed u p) (λ _. skip)) (enqueue_packet u p) s
            (λ e. tried-Posted answer s (is_empty→eq s.buffer e) h)
            (λ _. enqueue_packet-Posted s h))
