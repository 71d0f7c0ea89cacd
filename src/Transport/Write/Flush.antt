-- ===== src/Transport/Write/Flush.antt =====
-- `_write_sendmsg` hands the front of the buffer to the kernel and keeps the rest.
use tokioop.Prelude.{
  ℕ, zero, suc, ◌-◌, ◌≤◌, ◌<◌, ◌≡◌, refl, sym, ap, true, false, List, [], ◌∷◌, ◌++◌, append_assoc,
  arith, length, take, concat, is_empty, length-append, take-append-drop, take-append_le,
  length-drop,
}
use tokioop.Python.{Bytes, ok}
use tokioop.Transport.Stream.{Stream, User, sock_send_ok}
use tokioop.Transport.Write.{
  Kernel, adjust_leftover, adjust_leftover_buffer, write_done, write_sendmsg_ready,
}
use tokioop.Transport.Write.Accounting.{outgoing, adjust_leftover-concat}

-- The bytes that one `sendmsg` offers: those of the first `iov_max` chunks.
abbrev pub offered : ℕ → Stream → Bytes
offered iov_max s = concat (take iov_max s.buffer)

concat-take : (k : ℕ) (bs : List Bytes) → (rest : Bytes) × (concat bs ≡ concat (take k bs) ++ rest)
concat-take zero bs = (concat bs, refl)
concat-take (suc k) [] = ([], refl)
concat-take (suc k) (b ∷ bs) =
    let (rest, e) = concat-take k bs in (rest, rw e (sym (append_assoc b _ rest)))

pub length-offered-le :
    (iov_max : ℕ) (s : Stream) → length (offered iov_max s) ≤ length (concat s.buffer)
length-offered-le iov_max s =
    let (rest, e) = concat-take iov_max s.buffer in
    omega (arith, ap length e, length-append (offered iov_max s) rest)

-- The transport after the kernel has taken `n` bytes.
unfoldable pub flushed : ℕ → ℕ → Stream → Stream
flushed iov_max n s = record s {
  core = record (s.core) { buffer = (adjust_leftover n s.buffer).1 };
  sent = s.sent ++ take n (offered iov_max s);
}

pub outgoing-flushed :
    (iov_max n : ℕ) (s : Stream)
    → n ≤ length (offered iov_max s)
    → outgoing (flushed iov_max n s) ≡ outgoing s
unfolding flushed
outgoing-flushed iov_max n s h =
    let (rest, e) = concat-take iov_max s.buffer in
    let fits = length-offered-le iov_max s in
    let cut : take n (offered iov_max s) ≡ take n (concat s.buffer) =
      rw e (sym (take-append_le n _ rest h)) in
    simp (cut, (adjust_leftover-concat n s.buffer (omega arith)).1, append_assoc, take-append-drop)

pub write_sendmsg_lem :
    (u : User) (iov_max n : ℕ) (k : Kernel) (s : Stream)
    → s.sock ≡ true
    → s.conn_lost ≡ 0
    → is_empty s.buffer ≡ false
    → k.send ≡ ok n
    → n ≤ length (offered iov_max s)
    → write_sendmsg_ready u iov_max k s ≡ write_done u k (flushed iov_max n s)
unfolding write_sendmsg_ready adjust_leftover_buffer flushed
write_sendmsg_lem u iov_max n k s open_sock c b e h = ground (
  arith,
  adjust_leftover-concat n s.buffer,
  length-offered-le iov_max s,
  sock_send_ok (offered iov_max s) n s open_sock,
)

-- No chunk in the buffer is empty.
abbrev pub Full : List Bytes → Type 0
Full [] = Unit {0}
Full (b ∷ bs) = (0 < length b) × Full bs

pub adjust_leftover-Full :
    (n : ℕ) (bs : List Bytes) → n ≤ length (concat bs) → Full bs → Full (adjust_leftover n bs).1
unfolding adjust_leftover
adjust_leftover-Full n [] h f = ground arith
adjust_leftover-Full n (b ∷ bs) h f =
    ground
      (arith, length-append b (concat bs), length-drop n b, adjust_leftover-Full (n - length b) bs)

pub Full-pos : (bs : List Bytes) → Full bs → is_empty bs ≡ false → 0 < length (concat bs)
Full-pos [] f e = cc
Full-pos (b ∷ bs) f e = omega (arith, length-append b (concat bs))
