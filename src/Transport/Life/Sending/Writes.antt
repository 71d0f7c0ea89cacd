-- ===== src/Transport/Life/Sending/Writes.antt =====
-- The user's `write`: what it adds to the bytes to send.
use tokioop.Prelude.{
  ℕ, Bool, ltb, refl, ◌||◌, ◌≡◌, arith, true, false, [], ◌++◌, Bool-cases, inl, inr, is_empty,
  is_some, length, if◌then◌else◌, append-nil, is_empty→eq,
}
use tokioop.Python.{Bytes, Result, ok}
use tokioop.Transport.Core
use tokioop.Transport.Stream.{Stream, User}
use tokioop.Transport.Write.{bytes_like, enqueue, send_now, write}
use tokioop.Transport.Life.Invariant.{IsSound}
use tokioop.Transport.Life.Write.{IsBystander, write-IsSound}
use tokioop.Transport.Life.Flush.{send_closed}
use tokioop.Transport.Life.Sending.{IsFaithful}
use tokioop.Transport.Life.Sending.Fails.{Fits, Lapses}
use tokioop.Transport.Life.Sending.Grows.{
  Took, Took-IsFaithful, queued, Grows-none, enqueue_lem, enqueue-Grows, send_now-Took,
}

-- A `write` raises after `write_eof` and during a sendfile; else it takes the whole payload.
abbrev pub accepted : Stream → Bytes → Bytes
accepted s payload = if s.eof || is_some s.empty_waiter then [] else payload

module _ (u : User) (b : IsBystander u) where
  write_refused :
      (payload : Bytes) (answer : Result ℕ) (s : Stream)
      → (s.eof || is_some s.empty_waiter) ≡ true
      → (write u (bytes_like payload) answer s).1 ≡ s
  unfolding write
  write_refused payload answer s h = ground arith

  write_lost :
      (payload : Bytes) (answer : Result ℕ) (s : Stream)
      → (s.eof || is_some s.empty_waiter) ≡ false
      → ltb 0 s.conn_lost ≡ true
      → Lapses s (write u (bytes_like payload) answer s).1
  unfolding write
  write_lost payload answer s h l = ground arith

  write_open_lem :
      (payload : Bytes) (answer : Result ℕ) (s : Stream)
      → (s.eof || is_some s.empty_waiter) ≡ false
      → ltb 0 s.conn_lost ≡ false
      → write u (bytes_like payload) answer s ≡ (
          if is_empty payload
          then (ok tt, s)
          else if is_empty s.buffer
          then send_now u payload answer s
          else enqueue u payload s)
  unfolding write
  write_open_lem payload answer s h l = ground arith

  Lapses-closed : (s : Stream) → s.sock ≡ false → Lapses s s
  Lapses-closed s o = ground arith

  queued-Lapses : (payload : Bytes) (s : Stream) → s.sock ≡ false → Lapses s (queued payload s)
  unfolding queued
  queued-Lapses payload s o = ground arith

  send_now_closed :
      (payload : Bytes) (answer : Result ℕ) (s : Stream)
      → s.sock ≡ false
      → s.loop ≡ false
      → (send_now u payload answer s).1 ≡ s
  unfolding send_now Core.fatal_error Core.call_exception_handler
  send_now_closed payload answer s o l = ground (arith, send_closed u b payload answer s o)

  write-Took :
      (payload : Bytes) (answer : Result ℕ) (s : Stream)
      → IsSound s
      → (s.eof || is_some s.empty_waiter) ≡ false
      → ltb 0 s.conn_lost ≡ false
      → Fits (length payload) answer
      → (o : Bool) → s.sock ≡ o
      → Took payload s (write u (bytes_like payload) answer s).1
  write-Took payload answer s v g l h true o =
      let c : s.conn_lost ≡ 0 = ground arith in
      rw (write_open_lem payload answer s g l) (elim (Bool-cases (is_empty payload)) [
        | inl nothing ↦ rw nothing (inl (Grows-none payload s o c (is_empty→eq _ nothing)))
        | inr some_bytes ↦ rw some_bytes (elim (Bool-cases (is_empty s.buffer)) [
          | inl idle ↦ rw idle (send_now-Took u b payload answer s v o c (is_empty→eq _ idle) h)
          | inr busy ↦ rw busy (inl (enqueue-Grows u b payload s o c))
        ])
      ])
  write-Took payload answer s v g l h false o =
      rw (write_open_lem payload answer s g l) (elim (Bool-cases (is_empty payload)) [
        | inl nothing ↦ rw nothing (inr (Lapses-closed s o))
        | inr some_bytes ↦ rw some_bytes (elim (Bool-cases (is_empty s.buffer)) [
          | inl idle ↦
              rw idle
                (rw (send_now_closed payload answer s o (v.over o).0) (inr (Lapses-closed s o)))
          | inr busy ↦ rw busy (rw (enqueue_lem u b payload s) (inr (queued-Lapses payload s o)))
        ])
      ])

  pub write-IsFaithful :
      (given payload : Bytes) (answer : Result ℕ) (s : Stream)
      → Fits (length payload) answer
      → IsFaithful given s
      → IsFaithful (given ++ accepted s payload) (write u (bytes_like payload) answer s).1
  write-IsFaithful given payload answer s h f =
      let t = (write u (bytes_like payload) answer s).1 in
      let v = write-IsSound u b (bytes_like payload) answer s f.sound in
      elim (Bool-cases (s.eof || is_some s.empty_waiter)) [
        | inl refused ↦ rw (refused, write_refused payload answer s refused, append-nil given) f
        | inr taken ↦ rw taken (elim (Bool-cases (ltb 0 s.conn_lost)) [
          | inl lost ↦
              Took-IsFaithful given payload s t (inr (write_lost payload answer s taken lost)) v f
          | inr live ↦
              Took-IsFaithful given payload s t
                (write-Took payload answer s f.sound taken live h s.sock refl) v f
        ])
      ]
