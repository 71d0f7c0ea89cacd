-- ===== src/Sock/Send.antt =====
-- `sock_sendall` and `_sock_sendall`: the position in the data is kept beside the future.
use tokioop.Prelude.{
  ℕ, ◌+◌, ◌-◌, ◌≤◌, ◌<◌, ◌≡◌, refl, true, Option, none, some, List, [], ◌∷◌, ◌++◌, arith, ◌==◌,
  if◌then◌else◌, length, take, drop, inl, inr, ◌⊎◌, take-take-drop, length_zero, take_all,
}
use tokioop.Python.{
  Bytes, would_block, is_exit, Result, ok, err, Method, pure, gets, raise, modify, skip, ◌>>=◌,
  ◌>>◌,
}
use tokioop.Sock.{
  pending, result, failed, Wait, is_done, check_socket, create_future, ensure_fd_no_transport,
  watch, settle,
}

pub record SendAll : Type 0 where
  pub wait : Wait (Unit {0})
  pub open wait use *
  pub payload : Bytes
  -- `pos[0]`
  pub pos : ℕ
  -- What the kernel took.
  pub sent : Bytes

abbrev on_wait : {A : Type 0} → Method (Wait (Unit {0})) A → Method SendAll A
on_wait m s = let (r, w) = m s.wait in (r, record s { wait = w })

-- `sock.send(...)` with the kernel's answer.
abbrev pub take_bytes : ℕ → Bytes → SendAll → SendAll
take_bytes n view s = record s { sent = s.sent ++ take n view }

-- What follows the first `send`, which took `n` bytes.
abbrev send_rest : ℕ → Method SendAll (Option (Unit {0}))
send_rest n = do
  payload ← gets (λ s. s.payload)
  if n == length payload then pure (some tt) else do
    on_wait create_future
    on_wait ensure_fd_no_transport
    on_wait watch
    modify (λ s. record s { pos = n })
    pure none

unfoldable pub sock_sendall : Result ℕ → Method SendAll (Option (Unit {0}))
sock_sendall answer = do
  on_wait check_socket
  elim answer [
    | ok n ↦ (do modify (λ s. take_bytes n s.payload s); send_rest n)
    | err e ↦ if would_block e then send_rest 0 else raise e
  ]

-- The part of `_sock_sendall` after `send` took `n` bytes.
abbrev advance : ℕ → Method SendAll (Unit {0})
advance n = do
  modify (λ s. take_bytes n (drop s.pos s.payload) s)
  start ← gets (λ s. s.pos + n)
  payload ← gets (λ s. s.payload)
  if start == length payload
      then on_wait (settle (result tt))
      else modify (λ s. record s { pos = start })

unfoldable pub sock_sendall_ready : Result ℕ → Method SendAll (Unit {0})
sock_sendall_ready answer = do
  done ← gets (λ s. is_done s.fut)
  if done then skip else elim answer [
    | ok n ↦ advance n
    | err e ↦
        if would_block e then skip else if is_exit e then raise e else on_wait (settle (failed e))
  ]

-- The firings of the writer, one after the other.
unfoldable pub sendall_events : List (Result ℕ) → SendAll → SendAll
sendall_events [] s = s
sendall_events (a ∷ rest) s = sendall_events rest (sock_sendall_ready a s).1

-- The kernel takes some of what it is offered, or would block.
abbrev pub Fits : Result ℕ → SendAll → Type 0
Fits (ok n) s = n ≤ length s.payload - s.pos
Fits (err e) s = would_block e ≡ true

abbrev pub AllFit : List (Result ℕ) → SendAll → Type 0
AllFit [] s = Unit {0}
AllFit (a ∷ rest) s = Fits a s × AllFit rest (sock_sendall_ready a s).1

-- What is sent is the data up to the position, and once the future has a result, all of it.
pub record IsSending (p : Bytes) (s : SendAll) : Type 0 where
  pub same_payload : s.payload ≡ p
  pub within : s.pos ≤ length p
  pub progress :
      ((s.fut ≡ pending) × (s.sent ≡ take s.pos p) × (s.pos < length p))
      ⊎ ((s.fut ≡ result tt) × (s.sent ≡ p))

sent_more :
    (n pos : ℕ) (sent payload p : Bytes)
    → payload ≡ p
    → sent ≡ take pos p
    → sent ++ take n (drop pos payload) ≡ take (pos + n) p
sent_more n pos sent payload p e h = rw (e, h) (take-take-drop pos n (pos + n) p refl)

ready-IsSending :
    (p : Bytes) (a : Result ℕ) (s : SendAll)
    → IsSending p s
    → Fits a s
    → IsSending p (sock_sendall_ready a s).1
unfolding sock_sendall_ready settle
ready-IsSending p (ok n) s v h =
    ground (arith, sent_more n s.pos s.sent s.payload p v.same_payload, take_all (s.pos + n) p)
ready-IsSending p (err e) s v h = ground arith

-- What the first `send` may take.
abbrev pub FitsWhole : Result ℕ → Bytes → Type 0
FitsWhole (ok n) p = n ≤ length p
FitsWhole (err e) p = would_block e ≡ true

start-IsSending :
    (first : Result ℕ) (s : SendAll)
    → s.sent ≡ []
    → FitsWhole first s.payload
    → (sock_sendall first s).0 ≡ ok none
    → IsSending s.payload (sock_sendall first s).1
unfolding sock_sendall check_socket create_future ensure_fd_no_transport watch
start-IsSending (ok n) s e h r = ground arith
start-IsSending (err x) s e h r = ground arith

events-IsSending :
    (p : Bytes) (answers : List (Result ℕ)) (s : SendAll)
    → IsSending p s
    → AllFit answers s
    → IsSending p (sendall_events answers s)
unfolding sendall_events
events-IsSending p [] s v h = v
events-IsSending p (a ∷ rest) s v h =
    events-IsSending p rest (sock_sendall_ready a s).1 (ready-IsSending p a s v h.0) h.1

-- Of a `sock_sendall` that has to wait, however the kernel splits the data, taking at most what it
-- is offered, and however often it would block: what was sent is the data up to the position that
-- is kept; and once the future has a result, it is all of the data, so nothing is sent twice or
-- left out.
pub sendall-IsSending :
    (first : Result ℕ) (answers : List (Result ℕ)) (s : SendAll)
    → s.sent ≡ []
    → FitsWhole first s.payload
    → (sock_sendall first s).0 ≡ ok none
    → AllFit answers (sock_sendall first s).1
    → IsSending s.payload (sendall_events answers (sock_sendall first s).1)
sendall-IsSending first answers s e h r fits =
    events-IsSending s.payload answers (sock_sendall first s).1 (start-IsSending first s e h r) fits

-- A `sock_sendall` that returns at once, with a kernel that takes at most what it is offered or
-- would block, has sent all of the data.
sendall_at_once :
    (first : Result ℕ) (s : SendAll)
    → s.sent ≡ []
    → FitsWhole first s.payload
    → (sock_sendall first s).0 ≡ ok (some tt)
    → (sock_sendall first s).1.sent ≡ s.payload
unfolding sock_sendall check_socket create_future ensure_fd_no_transport watch
sendall_at_once (ok n) s e h r = ground (arith, take_all n s.payload)
sendall_at_once (err x) s e h r = ground (arith, length_zero s.payload)

-- At each firing the kernel takes at least a byte.
abbrev pub AllTake : List (Result ℕ) → Type 0
AllTake [] = Unit {0}
AllTake (ok n ∷ rest) = (0 < n) × AllTake rest
AllTake (err e ∷ rest) = ⊥

completes_step :
    (n : ℕ) (p : Bytes) (s : SendAll)
    → IsSending p s
    → 0 < n
    → n ≤ length s.payload - s.pos
    → let t = (sock_sendall_ready (ok n) s).1 in
      (t.fut ≡ result tt) ⊎ ((s.fut ≡ pending) × (t.pos ≡ s.pos + n))
unfolding sock_sendall_ready settle
completes_step n p s v pos h = ground arith

done_stays :
    (a : Result ℕ) (s : SendAll) → s.fut ≡ result tt → (sock_sendall_ready a s).1.fut ≡ result tt
unfolding sock_sendall_ready
done_stays (ok n) s h = ground arith
done_stays (err e) s h = ground arith

events_done :
    (answers : List (Result ℕ)) (s : SendAll)
    → s.fut ≡ result tt
    → (sendall_events answers s).fut ≡ result tt
unfolding sendall_events
events_done [] s h = h
events_done (a ∷ rest) s h = events_done rest (sock_sendall_ready a s).1 (done_stays a s h)

completes_fut :
    (p : Bytes) (answers : List (Result ℕ)) (s : SendAll)
    → IsSending p s
    → AllFit answers s
    → AllTake answers
    → length p ≤ s.pos + length answers
    → (sendall_events answers s).fut ≡ result tt
unfolding sendall_events
completes_fut p [] s v fits takes enough = ground arith
completes_fut p (err e ∷ rest) s v fits takes enough = absurd takes
completes_fut p (ok n ∷ rest) s v fits takes enough = elim (completes_step n p s v takes.0 fits.0) [
  | inl done ↦ events_done rest (sock_sendall_ready (ok n) s).1 done
  | inr (still, moved) ↦
      completes_fut p rest (sock_sendall_ready (ok n) s).1 (ready-IsSending p (ok n) s v fits.0)
        fits.1 takes.1 (omega (arith, moved))
]

sent_all : (p : Bytes) (s : SendAll) → IsSending p s → s.fut ≡ result tt → s.sent ≡ p
sent_all p s v done = ground arith

-- When at each firing of the writer the kernel takes at least a byte and at most what it is
-- offered, and the writer fires as often as bytes are left, the future of a `sock_sendall` that is
-- under way gets its result, and all of the data is sent.
pub sendall_completes :
    (p : Bytes) (answers : List (Result ℕ)) (s : SendAll)
    → IsSending p s
    → AllFit answers s
    → AllTake answers
    → length p ≤ s.pos + length answers
    → let t = sendall_events answers s in (t.fut ≡ result tt) × (t.sent ≡ p)
sendall_completes p answers s v fits takes enough =
    let done = completes_fut p answers s v fits takes enough in
    (done, sent_all p (sendall_events answers s) (events-IsSending p answers s v fits) done)
