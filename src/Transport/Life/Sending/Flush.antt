-- ===== src/Transport/Life/Sending/Flush.antt =====
-- The callback that empties the buffer keeps what a stream transport was given to send.
use tokioop.Prelude.{
  ℕ, ltb, ap, refl, ◌∙◌, ◌||◌, ◌≤◌, ◌≡◌, sym, arith, true, false, none, Bool-cases, inl, inr,
  is_empty, length, concat, not,
}
use tokioop.Python.{Bytes, Exc, Result, ok, err, Method, when, skip, ◌>>◌, attribute_error}
use tokioop.Python.Rules.{Keeps, Keeps->>, Keeps-when, if_at}
use tokioop.Transport.Core
use tokioop.Transport.Stream.{
  Stream, User, Waiter, base, shutdown, settle, call_connection_lost, sock_send_err,
}
use tokioop.Transport.Write.{Kernel, write_failed, write_drained, write_done, write_sendmsg_ready}
use tokioop.Transport.Write.Flush.{offered, flushed, outgoing-flushed, write_sendmsg_lem}
use tokioop.Transport.Life.Invariant.{IsSound}
use tokioop.Transport.Life.Write.{IsBystander}
use tokioop.Transport.Life.Flush.{write_sendmsg_ready-IsSound, after_settle, send_closed}
use tokioop.Transport.Life.Sending.{
  IsFaithful, Spares, Spares-refl, Spares-trans, Spares-IsFaithful, Lets, remove_writer-Lets,
  settle-Lets, shutdown-Lets, connection_lost-Lets,
}
use tokioop.Transport.Life.Sending.Fails.{Fits, write_failed-Spares}

module _ (u : User) (b : IsBystander u) where
  module _ (s : Stream) where
    along : (m : Method Stream (Unit {0})) → Lets m → Keeps (Spares s) m
    along m lets t p = Spares-trans s t (m t).1 p (lets t)

    after_settle-Spares : (k : Kernel) → Keeps (Spares s) (after_settle u b k)
    after_settle-Spares k t p =
        if_at (Spares s) t.closing (call_connection_lost u none) (when t.eof (shutdown k.shutdown))
          t (λ _. along (call_connection_lost u none) (connection_lost-Lets u b none) t p)
          (λ _.
            Keeps-when (Spares s) t.eof (shutdown k.shutdown)
              (along (shutdown k.shutdown) (shutdown-Lets k.shutdown)) t p)

    write_drained-Spares : (k : Kernel) → Keeps (Spares s) (write_drained u k)
    unfolding write_drained
    write_drained-Spares k t p =
        let tail = settle Waiter.finished >> after_settle u b k in
        if_at (Spares s) (not (is_empty t.buffer)) skip (base Core.remove_writer >> tail) t (λ _. p)
          (λ _.
            Keeps->> (Spares s) (base Core.remove_writer) tail
              (along (base Core.remove_writer) remove_writer-Lets)
              (Keeps->> (Spares s) (settle Waiter.finished) (after_settle u b k)
                (along (settle Waiter.finished) (settle-Lets Waiter.finished))
                (after_settle-Spares k))
              t p)

    write_done-Spares : (k : Kernel) → Keeps (Spares s) (write_done u k)
    unfolding write_done
    write_done-Spares k =
        Keeps->> (Spares s) u.maybe_resume_protocol (write_drained u k)
          (λ t p. rw (b.on_resume t) p) (write_drained-Spares k)

  write_sendmsg_err :
      (iov_max : ℕ) (k : Kernel) (e : Exc) (s : Stream)
      → s.sock ≡ true
      → s.conn_lost ≡ 0
      → is_empty s.buffer ≡ false
      → k.send ≡ err e
      → write_sendmsg_ready u iov_max k s ≡ write_failed u e s
  unfolding write_sendmsg_ready
  write_sendmsg_err iov_max k e s o c n h = ground (arith, sock_send_err (offered iov_max s) e s o)

  -- Without a socket nothing changes.
  write_failed_closed :
      (s : Stream) → s.loop ≡ false → write_failed u attribute_error s ≡ (err attribute_error, s)
  unfolding write_failed Core.remove_writer
  write_failed_closed s l = ground arith

  write_sendmsg_closed :
      (iov_max : ℕ) (k : Kernel) (s : Stream)
      → s.sock ≡ false
      → s.loop ≡ false
      → (write_sendmsg_ready u iov_max k s).1 ≡ s
  unfolding write_sendmsg_ready
  write_sendmsg_closed iov_max k s o l =
      ground (arith, send_closed u b (offered iov_max s) k.send s o, write_failed_closed s l)

  -- Nor on a lost connection, nor with nothing to send.
  write_sendmsg_idle :
      (iov_max : ℕ) (k : Kernel) (s : Stream)
      → (ltb 0 s.conn_lost || is_empty s.buffer) ≡ true
      → (write_sendmsg_ready u iov_max k s).1 ≡ s
  unfolding write_sendmsg_ready
  write_sendmsg_idle iov_max k s h = ground arith

  flushed-IsSound : (iov_max n : ℕ) (s : Stream) → IsSound s → IsSound (flushed iov_max n s)
  unfolding flushed
  flushed-IsSound iov_max n s v = ground arith

  flushed-IsFaithful :
      (given : Bytes) (iov_max n : ℕ) (s : Stream)
      → s.sock ≡ true
      → s.conn_lost ≡ 0
      → n ≤ length (offered iov_max s)
      → IsFaithful given s
      → IsFaithful given (flushed iov_max n s)
  unfolding flushed
  flushed-IsFaithful given iov_max n s o c h f =
      let all = outgoing-flushed iov_max n s h ∙ f.whole o c in
      record {
        sound = flushed-IsSound iov_max n s f.sound;
        sent_prefix = (concat (flushed iov_max n s).buffer, sym all);
        whole = λ _ _. all;
        by_sendmsg = f.by_sendmsg;
      }

  sent-IsFaithful :
      (given : Bytes) (iov_max : ℕ) (k : Kernel) (x : Result ℕ) (s : Stream)
      → IsFaithful given s
      → s.sock ≡ true
      → s.conn_lost ≡ 0
      → is_empty s.buffer ≡ false
      → k.send ≡ x
      → Fits (length (offered iov_max s)) x
      → IsFaithful given (write_sendmsg_ready u iov_max k s).1
  sent-IsFaithful given iov_max k (ok n) s f o c m e h =
      let t = (write_sendmsg_ready u iov_max k s).1 in
      let same = ap (λ x. x.1) (write_sendmsg_lem u iov_max n k s o c m e h) in
      Spares-IsFaithful given (flushed iov_max n s) t
        (rw same (write_done-Spares (flushed iov_max n s) k (flushed iov_max n s) (Spares-refl _)))
        (write_sendmsg_ready-IsSound u b iov_max k s f.sound)
        (flushed-IsFaithful given iov_max n s o c h f)
  sent-IsFaithful given iov_max k (err x) s f o c m e h =
      let t = (write_sendmsg_ready u iov_max k s).1 in
      let same = ap (λ x. x.1) (write_sendmsg_err iov_max k x s o c m e) in
      Spares-IsFaithful given s t (rw same (write_failed-Spares u x s f.sound o h))
        (write_sendmsg_ready-IsSound u b iov_max k s f.sound) f

  pub write_sendmsg_ready-IsFaithful :
      (given : Bytes) (iov_max : ℕ) (k : Kernel) (s : Stream)
      → Fits (length (offered iov_max s)) k.send
      → IsFaithful given s
      → IsFaithful given (write_sendmsg_ready u iov_max k s).1
  write_sendmsg_ready-IsFaithful given iov_max k s h f = elim (Bool-cases s.sock) [
    | inr o ↦ rw (write_sendmsg_closed iov_max k s o (f.sound.over o).0) f
    | inl o ↦ elim (Bool-cases (ltb 0 s.conn_lost || is_empty s.buffer)) [
      | inl idle ↦ rw (write_sendmsg_idle iov_max k s idle) f
      | inr busy ↦ sent-IsFaithful given iov_max k k.send s f o (ground arith) (ground arith) refl h
    ]
  ]
