-- ===== src/Transport/Write/Stuck.antt =====
-- Two ways in which buffered bytes, or a close that waits for them, come to nothing.
use tokioop.Prelude.{
  ℕ, zero, length-append, suc, ◌<◌, ◌≡◌, refl, sym, ap, ◌∙◌, true, false, some, List, [], ◌∷◌, ◌++◌,
  arith, length, take, concat, is_empty, subst, not, ◌≤◌,
}
use tokioop.Python.{Bytes, Exc, Result, would_block, ok, err, when, ◌>>◌}
use tokioop.Transport.Core
use tokioop.Transport.Stream.{Stream, User, base, sock_send, write_sendmsg}
use tokioop.Transport.Write.{
  Kernel, close, set_buffer, adjust_leftover, write_failed, write_drained, write_done,
  write_sendmsg_ready, send_first, write_send_ready, call_write_ready, writelines,
}
use tokioop.Transport.Write.Accounting.{outgoing, IsWritable}
use tokioop.Transport.Write.Flush.{offered, flushed, write_sendmsg_lem}
use tokioop.Transport.Write.Drain.{IsPassive, fire, write_events}

module _ (u : User) (k : Kernel) (e : Exc) (b : Bytes) (bs : List Bytes) where
  sendmsg_blocked_at :
      (iov_max : ℕ) (s : Stream)
      → s.buffer ≡ b ∷ bs
      → s.sock ≡ true
      → s.conn_lost ≡ 0
      → k.send ≡ err e
      → would_block e ≡ true
      → (write_sendmsg_ready u iov_max k s).1 ≡ s
  unfolding write_sendmsg_ready write_failed sock_send
  sendmsg_blocked_at iov_max s h o l a w = rw (h, l, o, a, w)

  send_first_blocked :
      (s : Stream)
      → s.sock ≡ true
      → send_first u (b ∷ bs) (err e) s
        ≡ (err e, record s { core = record (s.core) { buffer = bs } })
  unfolding sock_send send_first set_buffer
  send_first_blocked s o = ground arith

  send_blocked_at :
      (s : Stream)
      → s.buffer ≡ b ∷ bs
      → s.sock ≡ true
      → s.conn_lost ≡ 0
      → k.send ≡ err e
      → would_block e ≡ true
      → (write_send_ready u k s).1 ≡ record s { core = record (s.core) { buffer = bs } }
  unfolding write_send_ready write_failed
  send_blocked_at s h o l a w =
      let busy : is_empty s.buffer ≡ false = ap is_empty h in
      let first : send_first u s.buffer k.send s
          ≡ (err e, record s { core = record (s.core) { buffer = bs } }) =
        ap (λ x. send_first u x k.send s) h
        ∙ ap (λ x. send_first u (b ∷ bs) x s) a
        ∙ send_first_blocked s o in
      ground (arith, first, busy)

-- When the kernel would block, on a transport that is connected and has a chunk in its buffer,
-- `_write_sendmsg` keeps all outgoing bytes, but `_write_send`, which takes the first chunk off
-- the buffer before it sends it, loses that chunk.
pub write_send_loses :
    (u : User) (iov_max : ℕ) (k : Kernel) (e : Exc) (b : Bytes) (bs : List Bytes) (s : Stream)
    → s.sock ≡ true
    → s.conn_lost ≡ 0
    → s.buffer ≡ b ∷ bs
    → k.send ≡ err e
    → would_block e ≡ true
    → (outgoing (write_sendmsg_ready u iov_max k s).1 ≡ outgoing s)
      × (outgoing (write_send_ready u k s).1 ≡ s.sent ++ concat bs)
write_send_loses u iov_max k e b bs s o l h a w = (
  ap outgoing (sendmsg_blocked_at u k e b bs iov_max s h o l a w),
  ap outgoing (send_blocked_at u k e b bs s h o l a w),
)

-- The kernel's answer to an empty `sendmsg`.
abbrev pub TakeNothing : List Kernel → Type 0
TakeNothing [] = Unit {0}
TakeNothing (k ∷ ks) = (k.send ≡ ok 0) × TakeNothing ks

-- An empty chunk is all that the buffer holds.
record IsStuck (s : Stream) : Type 0 where
  one_empty : s.buffer ≡ [] ∷ []
  open_sock : s.sock ≡ true
  connected : s.conn_lost ≡ 0
  watched : s.writer ≡ true

suc-cases : (n : ℕ) → 0 < n → (m : ℕ) × (n ≡ suc m)
suc-cases zero h = absurd (omega arith)
suc-cases (suc m) h = (m, refl)

module _ (u : User) (passive : IsPassive u) (iov_max : ℕ) where
  waiting_done :
      (k : Kernel) (s : Stream) → is_empty s.buffer ≡ false → write_done u k s ≡ (ok tt, s)
  unfolding write_done write_drained
  waiting_done k s e = ground (arith, passive.resumes s)

  fire_on :
      (k : Kernel) (s : Stream)
      → s.writer ≡ true
      → fire u iov_max k s ≡ (write_sendmsg_ready u iov_max k s).1
  unfolding fire
  fire_on k s h = ap (λ w. elim w [ true ↦ (write_sendmsg_ready u iov_max k s).1 | false ↦ s ]) h

  fire-IsStuck :
      (k : Kernel) (s : Stream) → k.send ≡ ok 0 → IsStuck s → IsStuck (fire u iov_max k s)
  unfolding flushed adjust_leftover
  fire-IsStuck k s h st =
      let busy : is_empty s.buffer ≡ false = ap is_empty st.one_empty in
      let left : (flushed iov_max 0 s).buffer ≡ [] ∷ [] =
        ap (λ b. (adjust_leftover 0 b).1) st.one_empty in
      let sent = write_sendmsg_lem u iov_max 0 k s st.open_sock st.connected busy h (omega arith) in
      let waits = waiting_done k (flushed iov_max 0 s) (ap is_empty left) in
      subst IsStuck (sym (fire_on k s st.watched ∙ ap (λ x. x.1) (sent ∙ waits))) (record {
        one_empty = left;
        open_sock = st.open_sock;
        connected = st.connected;
        watched = st.watched;
      })

  write_events-IsStuck :
      (ks : List Kernel) (s : Stream)
      → TakeNothing ks
      → IsStuck s
      → IsStuck (write_events u iov_max ks s)
  unfolding write_events
  write_events-IsStuck [] s h st = st
  write_events-IsStuck (k ∷ ks) s h st =
      write_events-IsStuck ks (fire u iov_max k s) h.1 (fire-IsStuck k s h.0 st)

  -- The buffer is filled; and what is left of it is watched, after the callback.
  filled : Bytes → Stream → Stream
  filled payload s = record s { core = record (s.core) { buffer = payload ∷ [] ∷ [] } }

  rest_of : Result (Unit {0}) × Stream → Result (Unit {0}) × Stream
  rest_of (ok _, v) =
      when (not (is_empty v.buffer)) (do base Core.add_writer; u.maybe_pause_protocol) v
  rest_of (err e, v) = (err e, v)

  left_over : ℕ → Bytes → Stream → Stream
  left_over n payload s =
      let v = flushed iov_max n (filled payload s) in
      record v { core = record (v.core) { writer = true } }

  writelines_open :
      (payload : Bytes) (k : Kernel) (s : Stream)
      → IsWritable s
      → s.buffer ≡ []
      → s.write_ready ≡ some write_sendmsg
      → writelines u iov_max (payload ∷ [] ∷ []) k s
        ≡ rest_of (write_sendmsg_ready u iov_max k (filled payload s))
  unfolding writelines call_write_ready set_buffer filled rest_of
  writelines_open payload k s w b r = ground arith

  module _ (payload : Bytes) (s : Stream) (some_bytes : 0 < length payload) where
    abbrev after : Stream
    after = flushed iov_max (length payload) (filled payload s)

    after_buffer : after.buffer ≡ [] ∷ []
    unfolding flushed filled adjust_leftover
    after_buffer = ground arith

    offered_all : 0 < iov_max → length payload ≤ length (offered iov_max (filled payload s))
    unfolding filled
    offered_all h =
        let (m, e) = suc-cases iov_max h in
        rw e (omega (arith, length-append payload (concat (take m ([] ∷ [])))))

    rest_of_lem :
        ((t : Stream) → u.maybe_pause_protocol t ≡ (ok tt, t))
        → IsWritable s
        → rest_of (ok tt, after) ≡ (ok tt, left_over (length payload) payload s)
    unfolding rest_of Core.add_writer left_over flushed filled
    rest_of_lem pauses w =
        let busy : is_empty after.buffer ≡ false = ap is_empty after_buffer in
        ground (arith, busy, w.has_loop, w.loop_open, pauses (left_over (length payload) payload s))

    writelines_lem :
        (k : Kernel)
        → ((t : Stream) → u.maybe_pause_protocol t ≡ (ok tt, t))
        → IsWritable s
        → s.buffer ≡ []
        → s.write_ready ≡ some write_sendmsg
        → 0 < iov_max
        → k.send ≡ ok (length payload)
        → writelines u iov_max (payload ∷ [] ∷ []) k s
          ≡ (ok tt, left_over (length payload) payload s)
    unfolding filled
    writelines_lem k pauses w b r io h =
        writelines_open payload k s w b r
        ∙ ap rest_of (
            write_sendmsg_lem u iov_max (length payload) k (filled payload s) w.has_sock w.connected
              refl h (offered_all io)
            ∙ waiting_done k after (ap is_empty after_buffer))
        ∙ rest_of_lem pauses w

    close-IsStuck : IsWritable s → IsStuck (close (left_over (length payload) payload s)).1
    unfolding close Core.close Core.remove_reader left_over flushed filled
    close-IsStuck w =
        let busy : is_empty after.buffer ≡ false = ap is_empty after_buffer in
        ground (arith, after_buffer, busy)

  -- Where user code leaves the transport alone, an empty chunk at the end of a `writelines` is never
  -- taken off the buffer: after a `writelines` of some bytes and an empty chunk on an idle transport,
  -- of which the kernel takes all bytes, and a `close`, the writer fires as often as it likes, with
  -- the kernel taking the nothing that there is; it stays registered, the socket stays open, and the
  -- buffer is not empty.
  pub writelines_hangs :
      (payload : Bytes) (k : Kernel) (ks : List Kernel) (s : Stream)
      → ((s : Stream) → u.maybe_pause_protocol s ≡ (ok tt, s))
      → IsWritable s
      → s.buffer ≡ []
      → s.write_ready ≡ some write_sendmsg
      → 0 < length payload
      → 0 < iov_max
      → k.send ≡ ok (length payload)
      → TakeNothing ks
      → let t = (close (writelines u iov_max (payload ∷ [] ∷ []) k s).1).1 in
        let v = write_events u iov_max ks t in
        (v.buffer ≡ [] ∷ []) × (v.writer ≡ true) × (v.sock ≡ true)
  writelines_hangs payload k ks s pauses w b r p io h nothing =
      let st =
        write_events-IsStuck ks (close (left_over (length payload) payload s)).1 nothing
          (close-IsStuck payload s p w) in
      rw (writelines_lem payload s p k pauses w b r io h) (st.one_empty, st.watched, st.open_sock)
