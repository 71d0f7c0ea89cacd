-- ===== src/Transport/Datagram/Order.antt =====
-- `_sendto_ready` of a datagram transport.
use tokioop.Prelude.{
  ℕ, suc, ◌-◌, ◌≡◌, refl, sym, ap, ◌∙◌, ◌⊎◌, inl, inr, true, false, Bool, none, List, [], ◌∷◌, ◌++◌,
  append-nil, append_assoc, arith, take, drop, take-append-drop, is_empty,
}
use tokioop.Python.{Exc, would_block, Result, ok, err, when}
use tokioop.Transport.Core
use tokioop.Transport.Stream.{release}
use tokioop.Transport.Datagram.{
  Packet, Notice, Datagram, DatagramUser, size_of, send_packet, set_queue, queued_failed,
  send_queued, end_connection, after_loop, sendto_ready,
}
use tokioop.Transport.Datagram.Size.{sizes, packets, IsSized, Plain, IsIdle}

-- The state when the first `k` datagrams of `queue` were taken off the buffer and sent.
taken : ℕ → List Packet → Datagram → Datagram
taken k queue s = record s {
  core = record (s.core) { buffer = drop k queue };
  buffer_size = sizes (drop k queue);
  sent = s.sent ++ take k queue;
}

send_packet_err :
    (p : Packet) (e : Exc) (s : Datagram) → s.sock ≡ true → send_packet p (err e) s ≡ (err e, s)
unfolding send_packet
send_packet_err p e s h = ground arith

module _ (u : DatagramUser) where
  send_queued_step :
      (p : Packet) (rest : List Packet) (answers : ℕ → Result (Unit {0})) (i : ℕ) (s : Datagram)
      → s.sock ≡ true
      → s.buffer_size ≡ sizes (p ∷ rest)
      → answers i ≡ ok tt
      → send_queued u (p ∷ rest) answers i s
        ≡ send_queued u rest answers (suc i) (taken 1 (p ∷ rest) s)
  unfolding send_queued send_packet set_queue taken
  send_queued_step p rest answers i s k e h = ground arith

  put_back :
      (p : Packet) (rest : List Packet) (e : Exc) (s : Datagram)
      → s.buffer_size ≡ sizes (p ∷ rest)
      → would_block e ≡ true
      → queued_failed u p rest e (set_queue rest (s.buffer_size - size_of p) s).1
        ≡ (ok true, taken 0 (p ∷ rest) s)
  unfolding set_queue taken queued_failed
  put_back p rest e s n b = ground (arith, append-nil s.sent)

  send_queued_blocked :
      (p : Packet) (rest : List Packet) (answers : ℕ → Result (Unit {0})) (i : ℕ) (e : Exc)
      (s : Datagram)
      → s.sock ≡ true
      → answers i ≡ err e
      → send_queued u (p ∷ rest) answers i s
        ≡ queued_failed u p rest e (set_queue rest (s.buffer_size - size_of p) s).1
  unfolding send_queued set_queue
  send_queued_blocked p rest answers i e s k h =
      ap
        (λ (r : Result (Unit {0}) × Datagram).
          let (x, t) = r in
          elim x [
            | ok _ ↦ send_queued u rest answers (suc i) t
            | err e ↦ queued_failed u p rest e t
          ])
        (ap (λ a. send_packet p a (set_queue rest (s.buffer_size - size_of p) s).1) h
          ∙ send_packet_err p e (set_queue rest (s.buffer_size - size_of p) s).1 k)

Plain-cases :
    (r : Result (Unit {0}))
    → Plain r
    → (r ≡ ok tt) ⊎ ((e : Exc) × (r ≡ err e) × (would_block e ≡ true))
Plain-cases (ok _) h = inl refl
Plain-cases (err e) h = inr (e, refl, h)

taken-taken :
    (j : ℕ) (p : Packet) (rest : List Packet) (s : Datagram)
    → taken j rest (taken 1 (p ∷ rest) s) ≡ taken (suc j) (p ∷ rest) s
unfolding taken
taken-taken j p rest s = λ i. record s {
  core = record (s.core) { buffer = drop j rest };
  buffer_size = sizes (drop j rest);
  sent = append_assoc s.sent (p ∷ []) (take j rest) i;
}

module _ (u : DatagramUser) (idle : IsIdle u) where
  send_queued_lem :
      (queue : List Packet) (answers : ℕ → Result (Unit {0})) (i : ℕ) (s : Datagram)
      → s.sock ≡ true
      → s.buffer ≡ queue
      → s.buffer_size ≡ sizes queue
      → ((i : ℕ) → Plain (answers i))
      → (k : ℕ) × (send_queued u queue answers i s ≡ (ok true, taken k queue s))
  unfolding send_queued taken
  send_queued_lem [] answers i s k b n h = (0, ground (arith, append-nil s.sent))
  send_queued_lem (p ∷ rest) answers i s k b n h = elim (Plain-cases (answers i) (h i)) [
    | inl e ↦
        let (j, eq) = send_queued_lem rest answers (suc i) (taken 1 (p ∷ rest) s) k refl refl h in
        (
          suc j,
          send_queued_step u p rest answers i s k n e
              ∙ eq
              ∙ ap (λ t. (ok true, t)) (taken-taken j p rest s),
        )
    | inr (e, f, w) ↦
        (0, send_queued_blocked u p rest answers i e s k f ∙ put_back u p rest e s n w)
  ]

  -- What `_sendto_ready` does after its loop.
  record Finishes (s t : Datagram) : Type 0 where
    sent_same : t.sent ≡ s.sent
    buffer_same : t.buffer ≡ s.buffer
    size_same : t.buffer_size ≡ s.buffer_size
    unwatches : is_empty s.buffer ≡ true → t.writer ≡ false
    ends : is_empty s.buffer ≡ true → s.closing ≡ true → t.sock ≡ false

  after_loop-Finishes :
      (s : Datagram)
      → s.sock ≡ true
      → s.loop ≡ true
      → s.loop_closed ≡ false
      → Finishes s (after_loop u s).1
  unfolding after_loop end_connection release Core.remove_writer
  after_loop-Finishes s k l o = ground (
    arith,
    idle.resumes s,
    idle.loses none (record s {
      core = record (s.core) { writer = false };
      calls = s.calls ++ Notice.connection_lost none ∷ [];
    }),
  )

  sendto_ready_lem :
      (answers : ℕ → Result (Unit {0})) (s t : Datagram)
      → send_queued u s.buffer answers 0 s ≡ (ok true, t)
      → sendto_ready u answers s ≡ after_loop u t
  unfolding sendto_ready
  sendto_ready_lem answers s t e =
      ap
        (λ (x : Result Bool × Datagram).
          let (r, v) = x in elim r [ ok go_on ↦ when go_on (after_loop u) v | err e ↦ (err e, v) ])
        e

  -- While user code leaves the transport alone, the size that is kept of the buffer is right, the
  -- transport is open and the kernel takes each datagram or would block, `_sendto_ready` loses no
  -- datagram and keeps their order; the size stays right; and once the buffer is empty the write
  -- side is no longer watched, and a transport that is closing has closed its socket.
  pub sendto_ready-packets :
      (answers : ℕ → Result (Unit {0})) (s : Datagram)
      → s.sock ≡ true
      → s.loop ≡ true
      → s.loop_closed ≡ false
      → IsSized s
      → ((i : ℕ) → Plain (answers i))
      → let t = (sendto_ready u answers s).1 in
        (packets t ≡ packets s)
        × IsSized t
        × (is_empty t.buffer ≡ true → t.writer ≡ false)
        × (is_empty t.buffer ≡ true → s.closing ≡ true → t.sock ≡ false)
  unfolding taken
  sendto_ready-packets answers s k l o sized h =
      let (j, e) = send_queued_lem s.buffer answers 0 s k refl sized h in
      let f = after_loop-Finishes (taken j s.buffer s) k l o in
      rw (sendto_ready_lem answers s (taken j s.buffer s) e) (
        ap (λ a. a ++ (after_loop u (taken j s.buffer s)).1.buffer) f.sent_same
            ∙ ap (λ b. (s.sent ++ take j s.buffer) ++ b) f.buffer_same
            ∙ append_assoc s.sent (take j s.buffer) (drop j s.buffer)
            ∙ ap (λ b. s.sent ++ b) (take-append-drop j s.buffer),
        f.size_same ∙ ap sizes (sym f.buffer_same),
        (λ x. f.unwatches (ap is_empty (sym f.buffer_same) ∙ x)),
        (λ x c. f.ends (ap is_empty (sym f.buffer_same) ∙ x) c),
      )
