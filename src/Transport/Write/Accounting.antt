-- ===== src/Transport/Write/Accounting.antt =====
-- The bytes that a stream transport has sent, followed by those that wait in its buffer.
use tokioop.Prelude.{
  ℕ, zero, ◌-◌, ◌≤◌, ◌≡◌, refl, true, false, none, List, [], ◌∷◌, ◌++◌, append-nil, append_assoc,
  arith, if◌then◌else◌, length, take, drop, concat, is_empty, length-append, drop-append_le,
  drop-append_ge,
}
use tokioop.Python.{Bytes, Exc, would_block, Result, ok, err}
use tokioop.Transport.Core
use tokioop.Transport.Stream.{sock_send_ok, sock_send_err, Stream, User}
use tokioop.Transport.Write.{
  bytes_like, adjust_leftover, enqueue, watch_and_enqueue, send_now, write,
}

-- What went to the kernel and what is still to go.
abbrev pub outgoing : Stream → Bytes
outgoing s = s.sent ++ concat s.buffer

-- The second list begins with the first.
abbrev pub IsPrefix : Bytes → Bytes → Type 0
IsPrefix a r = (more : Bytes) × (r ≡ a ++ more)

-- The leftover buffer holds what the kernel did not take.
pub adjust_leftover-concat :
    (n : ℕ) (bs : List Bytes)
    → n ≤ length (concat bs)
    → ((adjust_leftover n bs).0 ≡ ok tt) × (concat (adjust_leftover n bs).1 ≡ drop n (concat bs))
unfolding adjust_leftover
adjust_leftover-concat zero [] h = (refl, refl)
adjust_leftover-concat n [] h = absurd (omega arith)
adjust_leftover-concat n (b ∷ bs) h = ground (
  arith,
  length-append b (concat bs),
  drop-append_le n b (concat bs),
  drop-append_ge n b (concat bs),
  adjust_leftover-concat (n - length b) bs,
)

-- The kernel takes at most what it is offered, or would block.
abbrev pub Takes : ℕ → Result ℕ → Type 0
Takes m (ok n) = n ≤ m
Takes m (err e) = would_block e ≡ true

-- A transport that may be written to.
pub record IsWritable (s : Stream) : Type 0 where
  pub has_sock : s.sock ≡ true
  pub has_loop : s.loop ≡ true
  pub loop_open : s.loop_closed ≡ false
  pub connected : s.conn_lost ≡ 0
  pub no_eof : s.eof ≡ false
  pub no_waiter : s.empty_waiter ≡ none

unfoldable pub watched : Stream → Stream
watched s = record s { core = record (s.core) { writer = true } }

pub watch_lem :
    (u : User) (payload : Bytes) (s : Stream)
    → s.loop ≡ true
    → s.loop_closed ≡ false
    → watch_and_enqueue u payload s ≡ enqueue u payload (watched s)
unfolding watch_and_enqueue Core.add_writer watched
watch_lem u payload s l o = ground arith

pub write_lem :
    (u : User) (payload : Bytes) (answer : Result ℕ) (s : Stream)
    → IsWritable s
    → write u (bytes_like payload) answer s ≡ (
        if is_empty payload
        then (ok tt, s)
        else if is_empty s.buffer
        then send_now u payload answer s
        else enqueue u payload s)
unfolding write
write_lem u payload answer s w = ground arith

unfoldable pub sent_more : ℕ → Bytes → Stream → Stream
sent_more n payload s = record s { sent = s.sent ++ take n payload }

pub send_now_ok :
    (u : User) (payload : Bytes) (n : ℕ) (s : Stream)
    → s.sock ≡ true
    → send_now u payload (ok n) s ≡ (
        if is_empty (drop n payload)
        then (ok tt, sent_more n payload s)
        else watch_and_enqueue u (drop n payload) (sent_more n payload s))
unfolding send_now sent_more
send_now_ok u payload n s h = ground (arith, sock_send_ok payload n s h)

pub send_now_blocked :
    (u : User) (payload : Bytes) (e : Exc) (s : Stream)
    → s.sock ≡ true
    → would_block e ≡ true
    → send_now u payload (err e) s ≡ watch_and_enqueue u payload s
unfolding send_now
send_now_blocked u payload e s h b = ground (arith, sock_send_err payload e s h)

-- One part of a payload sent and the rest appended makes the whole, when nothing waited before.
pub sent-rest :
    (sent waiting part rest payload : Bytes)
    → waiting ≡ []
    → part ++ rest ≡ payload
    → ((sent ++ part) ++ waiting) ++ rest ≡ (sent ++ waiting) ++ payload
sent-rest sent waiting part rest payload w e = rw (w, ← e) (simp (append-nil, append_assoc))
