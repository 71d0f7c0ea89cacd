-- ===== src/Transport/Datagram/Fifo/Refines.antt =====
-- A datagram transport does what its mailbox may do.
use tokioop.Prelude.{
  ℕ, suc, ◌+◌, ◌-◌, ◌≡◌, refl, sym, inl, inr, true, false, Bool, Option, none, List, [], ◌∷◌, ◌++◌,
  subst, is_empty, not, ltb, if◌then◌else◌,
}
use tokioop.Python.{
  Bytes, Exc, would_block, is_exit, is_os_error, Result, Method, raise, skip, pure, modify, gets,
  when, try_else, ◌>>=◌, ◌>>◌,
}
use tokioop.Python.Rules.{
  Keeps, Keeps->>, Keeps-try_else, Keeps-when, Keeps-finally, bind_result, if_at,
}
use tokioop.Transport.Core
use tokioop.Transport.Core.{Core}
use tokioop.Transport.Stream.{release}
use tokioop.Transport.Datagram.{
  Packet, Address, Arrival, datagram, failure, datagram_received, connection_lost, Datagram,
  DatagramUser, size_of, on_base, notify, send_packet, set_queue, deliver_datagram, deliver_error,
  deliver_arrival, drain_arrival, queued_failed, send_queued, end_connection, after_loop,
  sendto_ready,
}
use tokioop.Transport.Datagram.Fifo.{Mailbox, Moves, hands, loses}
use tokioop.Transport.Datagram.Fifo.Spares.{
  IsSilent, release-Spares, remove_writer-Spares, sent_or_failed, Holds, same-Holds, spared-Holds,
  notify-Holds, deliver_error-Holds, fatal_error-Holds,
}

module _ (m : Mailbox) (ps : List Packet) (u : DatagramUser) (silent : IsSilent u) where
  data_failed-Holds :
      (e : Exc)
      → Keeps
          (Holds m ps)
          (λ (s : Datagram). (if is_exit e then raise e else on_base (Core.fatal_error e)) s)
  data_failed-Holds e s h =
      if_at (Holds m ps) (is_exit e) (raise e) (on_base (Core.fatal_error e)) s (λ _. h)
        (λ _. fatal_error-Holds m ps u silent e s h)

  deliver_datagram-Holds :
      (payload : Bytes) (addr : Address) → Keeps (Holds m ps) (deliver_datagram u payload addr)
  unfolding deliver_datagram
  deliver_datagram-Holds payload addr =
      Keeps-try_else (Holds m ps)
        (notify (datagram_received payload addr) (u.datagram_received payload addr))
        (λ e. if is_exit e then raise e else on_base (Core.fatal_error e)) (λ _. skip)
        (notify-Holds m ps (datagram_received payload addr) (u.datagram_received payload addr)
          (λ s h. subst (Holds m ps) (sym (silent.on_data payload addr s)) h))
        data_failed-Holds (λ _ s h. h)

  pub deliver_arrival-Holds : (a : Arrival) → Keeps (Holds m ps) (deliver_arrival u a)
  unfolding deliver_arrival
  deliver_arrival-Holds (datagram payload addr) = deliver_datagram-Holds payload addr
  deliver_arrival-Holds (failure e) = deliver_error-Holds m ps u silent e

  pub drain_arrival-Holds : (a : Arrival) → Keeps (Holds m ps) (drain_arrival u a)
  unfolding drain_arrival
  drain_arrival-Holds a s h =
      if_at (Holds m ps) (ltb 0 s.conn_lost) skip
        (if s.closing
          then skip
          else if s.paused
          then on_base (modify λ c. record c { replay = c.replay ++ a ∷ [] })
          else deliver_arrival u a)
        s (λ _. h)
        (λ _.
          if_at (Holds m ps) s.closing skip
            (if s.paused
              then on_base (modify λ c. record c { replay = c.replay ++ a ∷ [] })
              else deliver_arrival u a)
            s (λ _. h)
            (λ _.
              if_at (Holds m ps) s.paused
                (on_base (modify λ c. record c { replay = c.replay ++ a ∷ [] }))
                (deliver_arrival u a) s (λ _. h) (λ _. deliver_arrival-Holds a s h)))

  pub end_connection-Holds : (e : Option Exc) → Keeps (Holds m ps) (end_connection u e)
  unfolding end_connection
  end_connection-Holds e =
      let heard = λ (s : Datagram).
        when s.protocol_connected (notify (connection_lost e) (u.connection_lost e)) s in
      Keeps-finally (Holds m ps) heard (on_base release)
        (λ s h.
          Keeps-when (Holds m ps) s.protocol_connected
            (notify (connection_lost e) (u.connection_lost e))
            (notify-Holds m ps (connection_lost e) (u.connection_lost e)
              (λ t k. subst (Holds m ps) (sym (silent.on_lost e t)) k))
            s h)
        (spared-Holds m ps release release-Spares)

  ended-Holds : Keeps (Holds m ps) (λ (s : Datagram). when s.closing (end_connection u none) s)
  ended-Holds s h =
      Keeps-when (Holds m ps) s.closing (end_connection u none) (end_connection-Holds none) s h

  after_loop-Holds : Keeps (Holds m ps) (after_loop u)
  unfolding after_loop
  after_loop-Holds =
      Keeps->> (Holds m ps) u.maybe_resume_protocol
        (λ s.
          (if not (is_empty s.buffer)
              then skip
              else (on_base Core.remove_writer >> (λ t. when t.closing (end_connection u none) t)))
            s)
        (λ s h. subst (Holds m ps) (sym (silent.on_resume s)) h)
        (λ s h.
          if_at (Holds m ps) (not (is_empty s.buffer)) skip
            (on_base Core.remove_writer >> (λ t. when t.closing (end_connection u none) t)) s
            (λ _. h)
            (λ _.
              Keeps->> (Holds m ps) (on_base Core.remove_writer)
                (λ t. when t.closing (end_connection u none) t)
                (spared-Holds m ps Core.remove_writer remove_writer-Spares) ended-Holds s h))

  -- The first datagram is off the buffer, and its sending failed.
  queued_failed-Holds :
      (p : Packet) (rest : List Packet) (e : Exc) (t : Datagram)
      → Moves m ps (record { waiting = p ∷ rest; handed = t.sent })
      → t.buffer ≡ rest
      → Holds m ps (queued_failed u p rest e t).1
  unfolding queued_failed set_queue
  queued_failed-Holds p rest e t h b =
      let off =
        same-Holds m ps (record t { core = record (t.core) { buffer = rest } }) t b refl
          (loses p h) in
      if_at (Holds m ps) (would_block e)
        (do size ← gets (λ s. s.buffer_size); set_queue (p ∷ rest) (size + size_of p); pure true)
        (if is_os_error e
          then (do deliver_error u e; pure false)
          else if is_exit e
          then raise e
          else (do on_base (Core.fatal_error e); pure false))
        t (λ _. h)
        (λ _.
          if_at (Holds m ps) (is_os_error e) (do deliver_error u e; pure false)
            (if is_exit e then raise e else (do on_base (Core.fatal_error e); pure false)) t
            (λ _.
              Keeps->> (Holds m ps) (deliver_error u e) (pure false)
                (deliver_error-Holds m ps u silent e) (λ s k. k) t off)
            (λ _.
              if_at (Holds m ps) (is_exit e) (raise e) (do on_base (Core.fatal_error e); pure false)
                t (λ _. off)
                (λ _.
                  Keeps->> (Holds m ps) (on_base (Core.fatal_error e)) (pure false)
                    (fatal_error-Holds m ps u silent e) (λ s k. k) t off)))

  send_one-Holds :
      (next : Method Datagram Bool) (p : Packet) (rest : List Packet) (answer : Result (Unit {0}))
      (t : Datagram)
      → Moves m ps (record { waiting = p ∷ rest; handed = t.sent })
      → t.buffer ≡ rest
      → ((v : Datagram) → Holds m ps v → v.buffer ≡ rest → Holds m ps (next v).1)
      → Holds m ps (try_else (send_packet p answer) (queued_failed u p rest) (λ _. next) t).1
  send_one-Holds next p rest answer t h b k = elim (sent_or_failed p answer t) [
    | inl e ↦
        subst
          (λ (x : Result (Unit {0}) × Datagram).
            Holds m ps (try_else (λ _. x) (queued_failed u p rest) (λ _. next) t).1)
          (sym e)
          (k (record t { sent = t.sent ++ p ∷ [] })
            (same-Holds m ps
              (record t { core = record (t.core) { buffer = rest }; sent = t.sent ++ p ∷ [] })
              (record t { sent = t.sent ++ p ∷ [] }) b refl (hands p h))
            b)
    | inr (e, f) ↦
        subst
          (λ (x : Result (Unit {0}) × Datagram).
            Holds m ps (try_else (λ _. x) (queued_failed u p rest) (λ _. next) t).1)
          (sym f) (queued_failed-Holds p rest e t h b)
  ]

  send_queued-Holds :
      (queue : List Packet) (answers : ℕ → Result (Unit {0})) (i : ℕ) (s : Datagram)
      → Holds m ps s
      → s.buffer ≡ queue
      → Holds m ps (send_queued u queue answers i s).1
  unfolding send_queued set_queue
  send_queued-Holds [] answers i s h b = h
  send_queued-Holds (p ∷ rest) answers i s h b =
      send_one-Holds (send_queued u rest answers (suc i)) p rest (answers i)
        (record s {
          core = record (s.core) { buffer = rest };
          buffer_size = s.buffer_size - size_of p;
        })
        (subst (λ (q : List Packet). Moves m ps (record { waiting = q; handed = s.sent })) b h) refl
        (λ v k e. send_queued-Holds rest answers (suc i) v k e)

  pub sendto_ready-Holds :
      (answers : ℕ → Result (Unit {0})) → Keeps (Holds m ps) (sendto_ready u answers)
  unfolding sendto_ready
  sendto_ready-Holds answers s h =
      bind_result (Holds m ps) (λ go_on. when go_on (after_loop u))
        (send_queued u s.buffer answers 0 s)
        (λ go_on.
          Keeps-when (Holds m ps) go_on (after_loop u) after_loop-Holds
            (send_queued u s.buffer answers 0 s).1)
        (send_queued-Holds s.buffer answers 0 s h refl)
