-- ===== src/Transport/Life/Sending/Lines.antt =====
-- The user's `writelines`: the lines are added to the bytes to send.
use tokioop.Prelude.{
  ℕ, ltb, ap, refl, ◌||◌, ◌≡◌, arith, Option, true, false, none, some, [], ◌++◌, Bool-cases, inl,
  inr, is_empty, is_some, length, concat, not, append-nil, append_assoc, concat-append, is_empty→eq,
  List,
}
use tokioop.Python.{Bytes, ◌>>◌}
use tokioop.Python.Rules.{Keeps, Keeps->>, Keeps-when, bind_result}
use tokioop.Transport.Core
use tokioop.Transport.Stream.{Stream, User, WriteReady, write_sendmsg, write_send, base}
use tokioop.Transport.Write.{Kernel, call_write_ready, writelines, set_buffer}
use tokioop.Transport.Write.Flush.{offered}
use tokioop.Transport.Life.Invariant.{IsSound}
use tokioop.Transport.Life.Base.{add_writer-IsSound}
use tokioop.Transport.Life.Write.{IsBystander}
use tokioop.Transport.Life.Flush.{watch_left, writelines-IsSound}
use tokioop.Transport.Life.Sending.{IsFaithful, Lets-IsFaithful, add_writer-Lets, uses_send}
use tokioop.Transport.Life.Sending.Fails.{Fits, Lapses}
use tokioop.Transport.Life.Sending.Flush.{write_sendmsg_ready-IsFaithful}
use tokioop.Transport.Life.Sending.Writes.{accepted}
use tokioop.Transport.Life.Sending.Grows.{Grows, Took-IsFaithful}

-- `self._buffer.extend(...)`
unfoldable pub lined : List Bytes → Stream → Stream
lined lines s = record s { core = record (s.core) { buffer = s.buffer ++ lines } }

lined-IsSound : (lines : List Bytes) (s : Stream) → IsSound s → IsSound (lined lines s)
unfolding lined
lined-IsSound lines s v = ground arith

lined-Lapses : (lines : List Bytes) (s : Stream) → s.sock ≡ false → Lapses s (lined lines s)
unfolding lined
lined-Lapses lines s o = ground arith

lined-Grows :
    (lines : List Bytes) (s : Stream)
    → s.sock ≡ true
    → s.conn_lost ≡ 0
    → Grows (concat lines) s (lined lines s)
unfolding lined
lined-Grows lines s o c = record {
  grown = simp (concat-append, append_assoc);
  same_callback = λ h. h;
  open_before = o;
  connected_before = c;
}

lined-IsFaithful :
    (given : Bytes) (lines : List Bytes) (s : Stream)
    → ltb 0 s.conn_lost ≡ false
    → IsFaithful given s
    → IsFaithful (given ++ concat lines) (lined lines s)
lined-IsFaithful given lines s c f = elim (Bool-cases s.sock) [
  | inl o ↦
      Took-IsFaithful given (concat lines) s (lined lines s)
        (inl (lined-Grows lines s o (ground arith))) (lined-IsSound lines s f.sound) f
  | inr o ↦
      Took-IsFaithful given (concat lines) s (lined lines s) (inr (lined-Lapses lines s o))
        (lined-IsSound lines s f.sound) f
]

module _ (u : User) (b : IsBystander u) where
  called-IsFaithful :
      (given : Bytes) (iov_max : ℕ) (k : Kernel) (w : Option WriteReady) (s : Stream)
      → s.write_ready ≡ w
      → Fits (length (offered iov_max s)) k.send
      → IsFaithful given s
      → IsFaithful given (call_write_ready u w iov_max k s).1
  unfolding call_write_ready
  called-IsFaithful given iov_max k none s e h f = f
  called-IsFaithful given iov_max k (some write_sendmsg) s e h f =
      write_sendmsg_ready-IsFaithful u b given iov_max k s h f
  called-IsFaithful given iov_max k (some write_send) s e h f =
      absurd (ground (arith, ap uses_send e, f.by_sendmsg))

  watch_left-IsFaithful : (given : Bytes) → Keeps (IsFaithful given) (watch_left u b)
  watch_left-IsFaithful given s =
      Keeps-when (IsFaithful given) (not (is_empty s.buffer))
        (base Core.add_writer >> u.maybe_pause_protocol)
        (Keeps->> (IsFaithful given) (base Core.add_writer) u.maybe_pause_protocol
          (Lets-IsFaithful given (base Core.add_writer) add_writer-IsSound
            (λ t _. add_writer-Lets t))
          (λ t f. rw (b.on_pause t) f))
        s

  writelines_refused :
      (iov_max : ℕ) (lines : List Bytes) (k : Kernel) (s : Stream)
      → (s.eof || is_some s.empty_waiter) ≡ true
      → (writelines u iov_max lines k s).1 ≡ s
  unfolding writelines
  writelines_refused iov_max lines k s h = ground arith

  writelines_lost :
      (iov_max : ℕ) (lines : List Bytes) (k : Kernel) (s : Stream)
      → (s.eof || is_some s.empty_waiter) ≡ false
      → ltb 0 s.conn_lost ≡ true
      → Lapses s (writelines u iov_max lines k s).1
  unfolding writelines
  writelines_lost iov_max lines k s h l = ground arith

  writelines_none : (iov_max : ℕ) (k : Kernel) (s : Stream) → (writelines u iov_max [] k s).1 ≡ s
  unfolding writelines
  writelines_none iov_max k s = ground arith

  writelines_open :
      (iov_max : ℕ) (lines : List Bytes) (k : Kernel) (s : Stream)
      → (s.eof || is_some s.empty_waiter) ≡ false
      → ltb 0 s.conn_lost ≡ false
      → is_empty lines ≡ false
      → writelines u iov_max lines k s
        ≡ (call_write_ready u s.write_ready iov_max k >> watch_left u b) (lined lines s)
  unfolding writelines set_buffer lined
  writelines_open iov_max lines k s h l n = ground arith

  pub writelines-IsFaithful :
      (given : Bytes) (iov_max : ℕ) (lines : List Bytes) (k : Kernel) (s : Stream)
      → Fits (length (offered iov_max (lined lines s))) k.send
      → IsFaithful given s
      → IsFaithful (given ++ accepted s (concat lines)) (writelines u iov_max lines k s).1
  unfolding lined
  writelines-IsFaithful given iov_max lines k s h f =
      elim (Bool-cases (s.eof || is_some s.empty_waiter)) [
        | inl refused ↦
            rw (refused, writelines_refused iov_max lines k s refused, append-nil given) f
        | inr taken ↦ rw taken (elim (Bool-cases (ltb 0 s.conn_lost)) [
          | inl lost ↦
              Took-IsFaithful given (concat lines) s (writelines u iov_max lines k s).1
                (inr (writelines_lost iov_max lines k s taken lost))
                (writelines-IsSound u b iov_max lines k s f.sound) f
          | inr live ↦ elim (Bool-cases (is_empty lines)) [
            | inl nothing ↦
                rw (is_empty→eq lines nothing, writelines_none iov_max k s, append-nil given) f
            | inr some_lines ↦
                let p = IsFaithful (given ++ concat lines) in
                let x = call_write_ready u s.write_ready iov_max k (lined lines s) in
                let y =
                  called-IsFaithful (given ++ concat lines) iov_max k s.write_ready (lined lines s)
                    refl h (lined-IsFaithful given lines s live f) in
                rw (writelines_open iov_max lines k s taken live some_lines) (
                  bind_result p (λ _. watch_left u b) x
                    (λ _. watch_left-IsFaithful (given ++ concat lines) x.1) y)
          ]
        ])
      ]
