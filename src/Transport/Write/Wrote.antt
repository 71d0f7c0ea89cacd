-- ===== src/Transport/Write/Wrote.antt =====
-- A `write` under a protocol that leaves the transport alone when it is told to pause.
use tokioop.Prelude.{
  drop_all, ℕ, ◌≡◌, refl, ap, ◌∙◌, sym, inl, inr, true, false, [], ◌∷◌, ◌++◌, append-nil,
  append_assoc, arith, length, take, drop, concat, is_empty, take-append-drop, concat-append,
  Bool-cases, is_empty→eq,
}
use tokioop.Python.{Bytes, Exc, would_block, Result, ok, err}
use tokioop.Transport.Stream.{Stream, User}
use tokioop.Transport.Write.{bytes_like, enqueue, watch_and_enqueue, send_now, write, set_buffer}
use tokioop.Transport.Write.Accounting.{
  outgoing, Takes, IsWritable, watched, watch_lem, write_lem, sent_more, send_now_ok,
  send_now_blocked, sent-rest,
}

-- It returned, the transport can be written to, and the payload is at the end of what goes out.
abbrev pub Wrote : Bytes → Stream → Result (Unit {0}) × Stream → Type 0
Wrote payload s (ok _, t) = IsWritable t × (outgoing t ≡ outgoing s ++ payload)
Wrote payload s (err e, t) = ⊥

-- It returned, and the payload waits as the last chunk.
abbrev pub Queued : Bytes → Stream → Result (Unit {0}) × Stream → Type 0
Queued payload s (ok _, t) =
    IsWritable t × (t.sent ≡ s.sent) × (t.buffer ≡ s.buffer ++ payload ∷ [])
Queued payload s (err e, t) = ⊥

Wrote-none :
    (payload : Bytes) (s : Stream) → IsWritable s → payload ≡ [] → Wrote payload s (ok tt, s)
Wrote-none payload s w e = (w, rw e (sym (append-nil (outgoing s))))

module _ (u : User) (pauses : (s : Stream) → u.maybe_pause_protocol s ≡ (ok tt, s)) where
  abbrev queued : Bytes → Stream → Stream
  queued payload s = record s { core = record (s.core) { buffer = s.buffer ++ payload ∷ [] } }

  pub enqueue_lem : (payload : Bytes) (s : Stream) → enqueue u payload s ≡ (ok tt, queued payload s)
  unfolding enqueue set_buffer
  enqueue_lem payload s = ground (arith, pauses (queued payload s))

  enqueue-Wrote :
      (payload : Bytes) (s : Stream) → IsWritable s → Wrote payload s (enqueue u payload s)
  enqueue-Wrote payload s w = rw (enqueue_lem payload s) (
    record {
      has_sock = w.has_sock;
      has_loop = w.has_loop;
      loop_open = w.loop_open;
      connected = w.connected;
      no_eof = w.no_eof;
      no_waiter = w.no_waiter;
    },
    simp (concat-append, append-nil, append_assoc),
  )

  watch-Wrote :
      (payload : Bytes) (s : Stream)
      → IsWritable s
      → Wrote payload s (watch_and_enqueue u payload s)
  unfolding watched
  watch-Wrote payload s w = rw (watch_lem u payload s w.has_loop w.loop_open) (
      enqueue-Wrote payload (watched s) (record {
        has_sock = w.has_sock;
        has_loop = w.has_loop;
        loop_open = w.loop_open;
        connected = w.connected;
        no_eof = w.no_eof;
        no_waiter = w.no_waiter;
      }))

  sent_more-IsWritable :
      (n : ℕ) (payload : Bytes) (s : Stream) → IsWritable s → IsWritable (sent_more n payload s)
  unfolding sent_more
  sent_more-IsWritable n payload s w = ground arith

  outgoing-sent_more :
      (n : ℕ) (payload : Bytes) (s : Stream)
      → s.buffer ≡ []
      → outgoing (sent_more n payload s) ++ drop n payload ≡ outgoing s ++ payload
  unfolding sent_more
  outgoing-sent_more n payload s e =
      sent-rest s.sent (concat s.buffer) (take n payload) (drop n payload) payload (ap concat e)
        (take-append-drop n payload)

  Wrote-sent :
      (n : ℕ) (payload : Bytes) (s : Stream) (x : Result (Unit {0}) × Stream)
      → s.buffer ≡ []
      → Wrote (drop n payload) (sent_more n payload s) x
      → Wrote payload s x
  Wrote-sent n payload s (ok _, t) e h = (h.0, h.1 ∙ outgoing-sent_more n payload s e)
  Wrote-sent n payload s (err x, t) e h = h

  send_now-Wrote :
      (payload : Bytes) (answer : Result ℕ) (s : Stream)
      → IsWritable s
      → s.buffer ≡ []
      → Takes (length payload) answer
      → Wrote payload s (send_now u payload answer s)
  send_now-Wrote payload (ok n) s w e h =
      let more = sent_more-IsWritable n payload s w in
      Wrote-sent n payload s (send_now u payload (ok n) s) e (
        rw (send_now_ok u payload n s w.has_sock) (elim (Bool-cases (is_empty (drop n payload))) [
          | inl all ↦ rw all (Wrote-none _ _ more (is_empty→eq _ all))
          | inr rest ↦ rw rest (watch-Wrote (drop n payload) (sent_more n payload s) more)
        ]))
  send_now-Wrote payload (err x) s w e h =
      rw (send_now_blocked u payload x s w.has_sock h) (watch-Wrote payload s w)

  -- Where `_maybe_pause_protocol` returns and leaves the transport alone: on a transport that is
  -- connected, with no end of file written and no sendfile under way, and a kernel that takes some of
  -- what it is offered or would block, `write` returns, the transport can be written to again, and what
  -- was sent and what waits are as before with the payload, once and whole, at their end.
  pub write-Wrote :
      (payload : Bytes) (answer : Result ℕ) (s : Stream)
      → IsWritable s
      → Takes (length payload) answer
      → Wrote payload s (write u (bytes_like payload) answer s)
  write-Wrote payload answer s w h =
      rw (write_lem u payload answer s w) (elim (Bool-cases (is_empty payload)) [
        | inl nothing ↦ rw nothing (Wrote-none _ _ w (is_empty→eq _ nothing))
        | inr some_bytes ↦ rw some_bytes (elim (Bool-cases (is_empty s.buffer)) [
          | inl idle ↦ rw idle (send_now-Wrote payload answer s w (is_empty→eq _ idle) h)
          | inr busy ↦ rw busy (enqueue-Wrote payload s w)
        ])
      ])

  enqueue-Queued :
      (payload : Bytes) (s : Stream) → IsWritable s → Queued payload s (enqueue u payload s)
  enqueue-Queued payload s w = rw (enqueue_lem payload s) (
    record {
      has_sock = w.has_sock;
      has_loop = w.has_loop;
      loop_open = w.loop_open;
      connected = w.connected;
      no_eof = w.no_eof;
      no_waiter = w.no_waiter;
    },
    refl,
    refl,
  )

  watch-Queued :
      (payload : Bytes) (s : Stream)
      → IsWritable s
      → Queued payload s (watch_and_enqueue u payload s)
  unfolding watched
  watch-Queued payload s w = rw (watch_lem u payload s w.has_loop w.loop_open) (
      enqueue-Queued payload (watched s) (record {
        has_sock = w.has_sock;
        has_loop = w.has_loop;
        loop_open = w.loop_open;
        connected = w.connected;
        no_eof = w.no_eof;
        no_waiter = w.no_waiter;
      }))

  -- A kernel that takes nothing leaves the whole payload in the buffer.
  pub write-Queued :
      (payload : Bytes) (e : Exc) (s : Stream)
      → IsWritable s
      → would_block e ≡ true
      → is_empty payload ≡ false
      → Queued payload s (write u (bytes_like payload) (err e) s)
  write-Queued payload e s w b h = rw (write_lem u payload (err e) s w) (
      rw h (elim (Bool-cases (is_empty s.buffer)) [
        | inl idle ↦
            rw idle (rw (send_now_blocked u payload e s w.has_sock b) (watch-Queued payload s w))
        | inr busy ↦ rw busy (enqueue-Queued payload s w)
      ]))

  -- A kernel that takes the whole payload leaves an empty buffer empty.
  pub write-whole :
      (payload : Bytes) (n : ℕ) (s : Stream)
      → IsWritable s
      → s.buffer ≡ []
      → length payload ≡ n
      → (write u (bytes_like payload) (ok n) s).1.buffer ≡ []
  unfolding sent_more
  write-whole payload n s w e h =
      let idle : is_empty s.buffer ≡ true = ap is_empty e in
      let all : is_empty (drop n payload) ≡ true =
        ap is_empty (drop_all n payload (omega (arith, h))) in
      rw (write_lem u payload (ok n) s w) (elim (Bool-cases (is_empty payload)) [
        | inl nothing ↦ rw nothing e
        | inr some_bytes ↦ rw (some_bytes, idle, send_now_ok u payload n s w.has_sock, all) e
      ])
