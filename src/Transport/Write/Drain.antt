-- ===== src/Transport/Write/Drain.antt =====
-- A graceful close: what was written before `close` is sent, and then the connection ends.
use tokioop.Prelude.{
  ℕ, suc, ◌≤◌, ◌<◌, ◌≡◌, refl, sym, ap, ◌∙◌, inl, inr, true, false, Option, none, List, [], ◌∷◌,
  ◌++◌, append-nil, arith, length, drop, concat, is_empty, is_some, Bool-cases, is_empty→eq,
  length-drop,
}
use tokioop.Python.{Exc, ok}
use tokioop.Transport.Core
use tokioop.Transport.Stream.{Stream, User, Call, settle, call_connection_lost, release}
use tokioop.Transport.Write.{Kernel, write_drained, write_done, write_sendmsg_ready}
use tokioop.Transport.Write.Accounting.{outgoing, adjust_leftover-concat}
use tokioop.Transport.Write.Flush.{
  offered, flushed, length-offered-le, outgoing-flushed, write_sendmsg_lem, Full,
  adjust_leftover-Full, Full-pos,
}

-- User code that leaves the transport alone.
pub record IsPassive (u : User) : Type 0 where
  pub resumes : (s : Stream) → u.maybe_resume_protocol s ≡ (ok tt, s)
  pub loses : (e : Option Exc) (s : Stream) → u.connection_lost e s ≡ (ok tt, s)

-- A transport that was closed while its write side was still watched.
pub record IsDraining (s : Stream) : Type 0 where
  pub has_sock : s.sock ≡ true
  pub has_loop : s.loop ≡ true
  pub loop_open : s.loop_closed ≡ false
  pub connected : s.conn_lost ≡ 0
  pub closing : s.closing ≡ true
  pub no_waiter : s.empty_waiter ≡ none
  pub has_protocol : is_some s.protocol ≡ true
  pub protocol_connected : s.protocol_connected ≡ true
  pub watched : s.writer ≡ true

-- The end of a graceful close of `s`.
pub record IsClosed (s t : Stream) : Type 0 where
  pub all_sent : t.sent ≡ outgoing s
  pub no_sock : t.sock ≡ false
  pub unwatched : t.writer ≡ false
  pub told_once : t.calls ≡ s.calls ++ Call.connection_lost none ∷ []

-- One writability event: the loop calls the callback while the writer is registered.
unfoldable pub fire : User → ℕ → Kernel → Stream → Stream
fire u iov_max k s = elim s.writer [ true ↦ (write_sendmsg_ready u iov_max k s).1 | false ↦ s ]

unfoldable pub write_events : User → ℕ → List Kernel → Stream → Stream
write_events u iov_max [] s = s
write_events u iov_max (k ∷ ks) s = write_events u iov_max ks (fire u iov_max k s)

-- At each event, as long as one is due, the kernel takes at least a byte and at most what it is
-- offered.
abbrev pub Advances : ℕ → Kernel → Stream → Type 0
Advances iov_max k s =
    s.writer ≡ true → (n : ℕ) × (k.send ≡ ok n) × (0 < n) × (n ≤ length (offered iov_max s))

abbrev pub AllAdvance : User → ℕ → List Kernel → Stream → Type 0
AllAdvance u iov_max [] s = Unit {0}
AllAdvance u iov_max (k ∷ ks) s =
    Advances iov_max k s × AllAdvance u iov_max ks (fire u iov_max k s)

fire_idle :
    (u : User) (iov_max : ℕ) (k : Kernel) (s : Stream) → s.writer ≡ false → fire u iov_max k s ≡ s
unfolding fire
fire_idle u iov_max k s h = ground arith

write_events_idle :
    (u : User) (iov_max : ℕ) (ks : List Kernel) (s : Stream)
    → s.writer ≡ false
    → write_events u iov_max ks s ≡ s
unfolding write_events
write_events_idle u iov_max [] s h = refl
write_events_idle u iov_max (k ∷ ks) s h =
    rw (fire_idle u iov_max k s h) (write_events_idle u iov_max ks s h)

unwatched : Stream → Stream
unwatched s = record s { core = record (s.core) { writer = false } }

ended : Option Exc → Stream → Stream
ended exc s = record s {
  core = record (s.core) { sock = false; protocol = none; loop = false; server = false };
  write_ready = none;
  calls = s.calls ++ Call.connection_lost exc ∷ [];
}

unwatched_end : (t : Stream) → (ended none (unwatched t)).writer ≡ false
unfolding ended unwatched
unwatched_end t = refl

write_events-cons :
    (u : User) (iov_max : ℕ) (k : Kernel) (ks : List Kernel) (s : Stream)
    → write_events u iov_max (k ∷ ks) s ≡ write_events u iov_max ks (fire u iov_max k s)
unfolding write_events
write_events-cons u iov_max k ks s = refl

module _ (iov_max n : ℕ) where
  flushed-IsDraining : (s : Stream) → IsDraining s → IsDraining (flushed iov_max n s)
  unfolding flushed
  flushed-IsDraining s d = ground arith

  calls-flushed : (s : Stream) → (flushed iov_max n s).calls ≡ s.calls
  unfolding flushed
  calls-flushed s = refl

  module _ (s : Stream) (fits : n ≤ length (offered iov_max s)) where
    pending-flushed : concat (flushed iov_max n s).buffer ≡ drop n (concat s.buffer)
    unfolding flushed
    pending-flushed =
        (adjust_leftover-concat n s.buffer (omega (arith, length-offered-le iov_max s))).1

    flushed-Full : Full s.buffer → Full (flushed iov_max n s).buffer
    unfolding flushed
    flushed-Full f = adjust_leftover-Full n s.buffer (omega (arith, length-offered-le iov_max s)) f

    ended-IsClosed :
        is_empty (flushed iov_max n s).buffer ≡ true
        → IsClosed s (ended none (unwatched (flushed iov_max n s)))
    unfolding ended unwatched
    ended-IsClosed all = record {
      all_sent =
          sym (append-nil (flushed iov_max n s).sent)
          ∙ ap (λ b. (flushed iov_max n s).sent ++ concat b) (sym (is_empty→eq _ all))
          ∙ outgoing-flushed iov_max n s fits;
      no_sock = refl;
      unwatched = refl;
      told_once = ap (λ c. c ++ Call.connection_lost none ∷ []) (calls-flushed s);
    }

    IsClosed-flushed : (t : Stream) → IsClosed (flushed iov_max n s) t → IsClosed s t
    unfolding flushed
    IsClosed-flushed t c = record {
      all_sent = c.all_sent ∙ outgoing-flushed iov_max n s fits;
      no_sock = c.no_sock;
      unwatched = c.unwatched;
      told_once = c.told_once;
    }

  length-flushed :
      (m : ℕ) (s : Stream)
      → n ≤ length (offered iov_max s)
      → 0 < n
      → length (concat s.buffer) ≤ suc m
      → length (concat (flushed iov_max n s).buffer) ≤ m
  length-flushed m s fits pos h =
      omega (arith, ap length (pending-flushed s fits), length-drop n (concat s.buffer))

module _ (u : User) (passive : IsPassive u) where
  -- The end of the transport, for a protocol that only takes note of it.
  connection_lost_lem :
      (exc : Option Exc) (s : Stream)
      → s.sock ≡ true
      → is_some s.protocol ≡ true
      → s.protocol_connected ≡ true
      → s.empty_waiter ≡ none
      → call_connection_lost u exc s ≡ (ok tt, ended exc s)
  unfolding call_connection_lost release settle ended
  connection_lost_lem exc s a b c d =
      ground
        (arith, passive.loses exc (record s { calls = s.calls ++ Call.connection_lost exc ∷ [] }))

  drained_end :
      (k : Kernel) (s : Stream)
      → IsDraining s
      → is_empty s.buffer ≡ true
      → (write_done u k s).1 ≡ ended none (unwatched s)
  unfolding write_done write_drained Core.remove_writer settle unwatched
  drained_end k s d e = ground (arith, passive.resumes s, connection_lost_lem none (unwatched s))

  waiting_end : (k : Kernel) (s : Stream) → is_empty s.buffer ≡ false → (write_done u k s).1 ≡ s
  unfolding write_done write_drained
  waiting_end k s e = ground (arith, passive.resumes s)

  fire_lem :
      (iov_max n : ℕ) (k : Kernel) (s : Stream)
      → IsDraining s
      → is_empty s.buffer ≡ false
      → k.send ≡ ok n
      → n ≤ length (offered iov_max s)
      → fire u iov_max k s ≡ (write_done u k (flushed iov_max n s)).1
  unfolding fire
  fire_lem iov_max n k s d b e h =
      ground (arith, write_sendmsg_lem u iov_max n k s d.has_sock d.connected b e h)

  -- Closing a transport with bytes but no empty chunk in its buffer ends, where user code leaves
  -- the transport alone and the write side is watched: once the writer has fired as often as bytes
  -- were waiting, each time with the kernel taking some, all of them are sent in order, the socket
  -- is closed and the protocol is told once that the connection was lost, with no exception.
  pub close_completes :
      (iov_max : ℕ) (ks : List Kernel) (s : Stream)
      → IsDraining s
      → Full s.buffer
      → is_empty s.buffer ≡ false
      → length (concat s.buffer) ≤ length ks
      → AllAdvance u iov_max ks s
      → IsClosed s (write_events u iov_max ks s)
  close_completes iov_max [] s d f b h adv = absurd (omega (arith, Full-pos s.buffer f b))
  close_completes iov_max (k ∷ ks) s d f b h adv =
      let (n, e, pos, fits) = adv.0 d.watched in
      let t = flushed iov_max n s in
      let fired = fire_lem iov_max n k s d b e fits in
      let drained = flushed-IsDraining iov_max n s d in
      elim (Bool-cases (is_empty t.buffer)) [
        | inl all ↦
            let over = fired ∙ drained_end k t drained all in
            rw
              (
                write_events-cons u iov_max k ks s,
                over,
                write_events_idle u iov_max ks (ended none (unwatched t)) (unwatched_end t),
              )
              (ended-IsClosed iov_max n s fits all)
        | inr more ↦
            let next = fired ∙ waiting_end k t more in
            rw (write_events-cons u iov_max k ks s, next)
              (IsClosed-flushed iov_max n s fits _ (
                close_completes iov_max ks t drained (flushed-Full iov_max n s fits f) more
                  (length-flushed iov_max n (length ks) s fits pos h) (rw next at adv.1)))
      ]
