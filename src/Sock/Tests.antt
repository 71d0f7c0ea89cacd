-- ===== src/Sock/Tests.antt =====
-- The `sock_*` coroutines and the copy of a file on concrete states.
use tokioop.Prelude.{◌≡◌, refl, arith, true, false, none, some, [], ◌∷◌, ℕ, ◌-◌, min, inl}
use tokioop.Python.{Bytes, Exc, blocking_io, ok, err}
use tokioop.Sock.{
  pending, result, Wait, sock_call, sock_read_done, check_socket, create_future, begin_wait,
  ensure_fd_no_transport, watch, settle,
}
use tokioop.Sock.Send.{
  SendAll, sock_sendall, sock_sendall_ready, sendall_events, IsSending, sendall-IsSending,
  sendall_completes,
}
use tokioop.Sock.Life.{ready_events, ready_events_first, sock_read_done_gives_back}
use tokioop.Sock.Sendfile.{IsFile, sendfile_fallback, sendfile_fallback-Sends}

abbrev fresh : Wait (Unit {0})
fresh = record {
  debug = false;
  blocking = false;
  is_ssl = false;
  transport = none;
  watcher = none;
  next_handle = 0;
  fut = pending;
  handles = [];
}

abbrev three_bytes : Bytes
three_bytes = 1 ∷ 2 ∷ 3 ∷ []

abbrev unsent : SendAll
unsent = record { wait = fresh; payload = three_bytes; pos = 0; sent = [] }

-- The first `send` took one byte.
abbrev one_sent : SendAll
one_sent = record unsent {
  wait = record fresh { watcher = some 0; next_handle = 1; handles = 0 ∷ [] };
  pos = 1;
  sent = 1 ∷ [];
}

one_sent_lem : sock_sendall (ok 1) unsent ≡ (ok none, one_sent)
unfolding sock_sendall check_socket create_future ensure_fd_no_transport watch
one_sent_lem = refl

sendall-IsSending_example :
    IsSending three_bytes
      (sendall_events (err blocking_io ∷ ok 2 ∷ []) (sock_sendall (ok 1) unsent).1)
unfolding sock_sendall sock_sendall_ready check_socket create_future ensure_fd_no_transport watch
    settle
sendall-IsSending_example =
    sendall-IsSending (ok 1) (err blocking_io ∷ ok 2 ∷ []) unsent refl (omega arith) refl
      (refl, (omega arith, tt))

one_sent-IsSending : IsSending three_bytes one_sent
one_sent-IsSending = record {
  same_payload = refl;
  within = omega arith;
  progress = inl (refl, refl, omega arith);
}

sendall_completes_example :
    let t = sendall_events (ok 1 ∷ ok 1 ∷ []) one_sent in
    (t.fut ≡ result tt) × (t.sent ≡ three_bytes)
unfolding sock_sendall_ready settle
sendall_completes_example =
    sendall_completes three_bytes (ok 1 ∷ ok 1 ∷ []) one_sent one_sent-IsSending
      (omega arith, (omega arith, tt)) (omega arith, (omega arith, tt)) (omega arith)

ready_events_first_example :
    (ready_events (err blocking_io ∷ ok tt ∷ err (Exc.other 1) ∷ []) fresh).fut ≡ result tt
ready_events_first_example =
    ready_events_first (err blocking_io ∷ ok tt ∷ err (Exc.other 1) ∷ []) fresh refl

sock_read_done_gives_back_example :
    let t = (sock_call {A = Unit {0}} (err blocking_io) fresh).1 in
    ((sock_read_done 0 t).1.watcher ≡ none)
    × ((sock_read_done 0 (record t { watcher = some 7 })).1.watcher ≡ some 7)
unfolding sock_call begin_wait check_socket create_future ensure_fd_no_transport watch
sock_read_done_gives_back_example =
    sock_read_done_gives_back (err blocking_io) fresh 7 (λ e. omega arith) refl refl

-- A file that gives all it has and is asked for.
abbrev reading : ℕ → ℕ → ℕ
reading pos size = min size (5 - pos)

abbrev five_bytes : Bytes
five_bytes = 1 ∷ 2 ∷ 3 ∷ 4 ∷ 5 ∷ []

reading-IsFile : IsFile five_bytes reading (λ pos size. none) (λ n. ok tt)
reading-IsFile = record {
  readable = λ pos size. refl;
  bounded = λ pos size. omega arith;
  present = λ pos size. omega arith;
  gives = λ pos size s p. omega arith;
}

sendfile_fallback-Sends_example :
    sendfile_fallback five_bytes reading
      (λ pos size. none)
      (λ n. ok tt)
      4
      true
      2
      1
      3
      (record { pos = 0; sent = [] })
    ≡ some (ok 3, record { pos = 4; sent = 2 ∷ 3 ∷ 4 ∷ [] })
sendfile_fallback-Sends_example =
    sendfile_fallback-Sends five_bytes reading (λ pos size. none) (λ n. ok tt) reading-IsFile
      (λ n. refl) 4 2 1 3 (record { pos = 0; sent = [] }) (omega arith) (omega arith)
