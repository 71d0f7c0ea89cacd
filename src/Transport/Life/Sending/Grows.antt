-- ===== src/Transport/Life/Sending/Grows.antt =====
-- The steps of `write` add the payload to the bytes to send, or lose the connection.
use tokioop.Prelude.{
  ℕ, ltb, ap, ◌∙◌, sym, ◌⊎◌, ◌≡◌, arith, true, false, [], ◌∷◌, ◌++◌, Bool-cases, inl, inr, is_empty,
  length, take, drop, concat, append-nil, append_assoc, concat-append, take-append-drop,
  is_empty→eq,
}
use tokioop.Python.{Bytes, Exc, Result, ok, err, would_block, is_exit}
use tokioop.Transport.Core
use tokioop.Transport.Stream.{Stream, User, base, sock_send_err}
use tokioop.Transport.Write.{enqueue, watch_and_enqueue, send_now, set_buffer}
use tokioop.Transport.Write.Accounting.{
  outgoing, IsPrefix, watched, watch_lem, sent_more, send_now_ok, send_now_blocked, sent-rest,
}
use tokioop.Transport.Life.Invariant.{IsSound}
use tokioop.Transport.Life.Write.{IsBystander}
use tokioop.Transport.Life.Sending.{IsFaithful, uses_send}
use tokioop.Transport.Life.Sending.Fails.{Fits, Lapses, fatal_error-Lapses}

-- The payload is at the end of what goes out.
pub record Grows (payload : Bytes) (s t : Stream) : Type 0 where
  pub grown : outgoing t ≡ outgoing s ++ payload
  pub same_callback : uses_send s.write_ready ≡ false → uses_send t.write_ready ≡ false
  pub open_before : s.sock ≡ true
  pub connected_before : s.conn_lost ≡ 0

-- That, or the connection is lost and nothing was sent.
abbrev pub Took : Bytes → Stream → Stream → Type 0
Took payload s t = Grows payload s t ⊎ Lapses s t

IsPrefix-longer : (a r p : Bytes) → IsPrefix a r → IsPrefix a (r ++ p)
IsPrefix-longer a r p (more, e) = (more ++ p, rw e (append_assoc a more p))

lost_or : (t : Stream) → ltb 0 t.conn_lost ≡ true → t.conn_lost ≡ 0 → ⊥
lost_or t l c = ground arith

pub Took-IsFaithful :
    (given payload : Bytes) (s t : Stream)
    → Took payload s t
    → IsSound t
    → IsFaithful given s
    → IsFaithful (given ++ payload) t
Took-IsFaithful given payload s t (inl g) v f =
    let all : outgoing t ≡ given ++ payload =
      g.grown ∙ ap (λ x. x ++ payload) (f.whole g.open_before g.connected_before) in
    record {
      sound = v;
      sent_prefix = (concat t.buffer, sym all);
      whole = λ _ _. all;
      by_sendmsg = g.same_callback f.by_sendmsg;
    }
Took-IsFaithful given payload s t (inr l) v f = record {
  sound = v;
  sent_prefix = rw l.same_sent (IsPrefix-longer s.sent given payload f.sent_prefix);
  whole = λ o c. absurd (lost_or t (l.lost o) c);
  by_sendmsg = l.same_callback f.by_sendmsg;
}

open_sent :
    (n : ℕ) (payload : Bytes) (s : Stream) → s.sock ≡ true → (sent_more n payload s).sock ≡ true
unfolding sent_more
open_sent n payload s o = o

lost_sent :
    (n : ℕ) (payload : Bytes) (s : Stream) → s.conn_lost ≡ 0 → (sent_more n payload s).conn_lost ≡ 0
unfolding sent_more
lost_sent n payload s c = c

unfoldable pub queued : Bytes → Stream → Stream
queued payload s = record s { core = record (s.core) { buffer = s.buffer ++ payload ∷ [] } }

pub Grows-none :
    (payload : Bytes) (s : Stream)
    → s.sock ≡ true
    → s.conn_lost ≡ 0
    → payload ≡ []
    → Grows payload s s
Grows-none payload s o c e = record {
  grown = rw e (sym (append-nil (outgoing s)));
  same_callback = λ h. h;
  open_before = o;
  connected_before = c;
}

module _ (u : User) (b : IsBystander u) where
  pub enqueue_lem : (payload : Bytes) (s : Stream) → (enqueue u payload s).1 ≡ queued payload s
  unfolding enqueue set_buffer queued
  enqueue_lem payload s = b.on_pause (queued payload s)

  pub enqueue-Grows :
      (payload : Bytes) (s : Stream)
      → s.sock ≡ true
      → s.conn_lost ≡ 0
      → Grows payload s (enqueue u payload s).1
  unfolding queued
  enqueue-Grows payload s o c = rw (enqueue_lem payload s) (record {
    grown = simp (concat-append, append-nil, append_assoc);
    same_callback = λ h. h;
    open_before = o;
    connected_before = c;
  })

  watch-Grows :
      (payload : Bytes) (s : Stream)
      → IsSound s
      → s.sock ≡ true
      → s.conn_lost ≡ 0
      → Grows payload s (watch_and_enqueue u payload s).1
  unfolding watched
  watch-Grows payload s v o c =
      let g = enqueue-Grows payload (watched s) o c in
      rw (watch_lem u payload s (v.has_loop o) v.loop_open) (record {
        grown = g.grown;
        same_callback = g.same_callback;
        open_before = o;
        connected_before = c;
      })

  sent-Grows :
      (n : ℕ) (payload : Bytes) (s t : Stream)
      → s.buffer ≡ []
      → Grows (drop n payload) (sent_more n payload s) t
      → Grows payload s t
  unfolding sent_more
  sent-Grows n payload s t e g = record {
    grown =
        g.grown
        ∙ sent-rest s.sent (concat s.buffer) (take n payload) (drop n payload) payload (ap concat e)
            (take-append-drop n payload);
    same_callback = g.same_callback;
    open_before = g.open_before;
    connected_before = g.connected_before;
  }

  sent_more-IsSound :
      (n : ℕ) (payload : Bytes) (s : Stream) → IsSound s → IsSound (sent_more n payload s)
  unfolding sent_more
  sent_more-IsSound n payload s v = ground arith

  send_now_failed :
      (payload : Bytes) (e : Exc) (s : Stream)
      → s.sock ≡ true
      → would_block e ≡ false
      → is_exit e ≡ false
      → send_now u payload (err e) s ≡ base (Core.fatal_error e) s
  unfolding send_now
  send_now_failed payload e s o w x = ground (arith, sock_send_err payload e s o)

  sent_some-Grows :
      (payload : Bytes) (n : ℕ) (s : Stream)
      → IsSound s
      → s.sock ≡ true
      → s.conn_lost ≡ 0
      → s.buffer ≡ []
      → Grows payload s (send_now u payload (ok n) s).1
  sent_some-Grows payload n s v o c e =
      let t = sent_more n payload s in
      rw (send_now_ok u payload n s o) (
        sent-Grows n payload s _ e (elim (Bool-cases (is_empty (drop n payload))) [
          | inl all ↦ rw all (
              Grows-none (drop n payload) t (open_sent n payload s o) (lost_sent n payload s c)
                (is_empty→eq _ all))
          | inr rest ↦ rw rest (
              watch-Grows (drop n payload) t (sent_more-IsSound n payload s v)
                (open_sent n payload s o) (lost_sent n payload s c))
        ]))

  pub send_now-Took :
      (payload : Bytes) (answer : Result ℕ) (s : Stream)
      → IsSound s
      → s.sock ≡ true
      → s.conn_lost ≡ 0
      → s.buffer ≡ []
      → Fits (length payload) answer
      → Took payload s (send_now u payload answer s).1
  send_now-Took payload (ok n) s v o c e h = inl (sent_some-Grows payload n s v o c e)
  send_now-Took payload (err x) s v o c e h = elim (Bool-cases (would_block x)) [
    | inl busy ↦ inl (rw (send_now_blocked u payload x s o busy) (watch-Grows payload s v o c))
    | inr fails ↦ inr (rw (send_now_failed payload x s o fails h) (fatal_error-Lapses x s v o))
  ]
