-- ===== src/Transport/Write.antt =====
-- The write side of `_SelectorSocketTransport`. The kernel's answers are arguments; the logging of
-- repeated writes to a lost connection is left out.
pub mod Accounting
pub mod Flush
pub mod Drain
pub mod Stuck
pub mod Wrote
use tokioop.Prelude.{
  ℕ, ◌+◌, ◌-◌, true, not, ◌||◌, Option, none, some, List, [], ◌∷◌, ◌++◌, ltb, leb, ◌==◌, length,
  take, drop, concat, is_empty, is_some, if◌then◌else◌,
}
use tokioop.Python.{
  Bytes, Exc, would_block, is_exit, type_error, runtime_error, assertion_error, index_error, Result,
  ok, err, Method, gets, raise, modify, skip, when, try_else, raise_if, lift, ◌>>=◌, ◌>>◌,
}
use tokioop.Transport.Core
use tokioop.Transport.Core.{Core}
use tokioop.Transport.Stream.{
  Delivery, pending, finished, failed, WriteReady, write_sendmsg, write_send, Stream, User, base,
  sock_send, shutdown, settle, call_connection_lost,
}

-- What the kernel answers to `send` or `sendmsg`, and to `shutdown`.
pub record Kernel : Type 0 where
  pub send : Result ℕ
  pub shutdown : Result (Unit {0})

-- The argument of `write`.
pub data PyArg : Type 0 where
  bytes_like : Bytes → PyArg
  no_bytes : PyArg

-- The loop of `_adjust_leftover_buffer`; `popleft` of an empty deque is an `IndexError`.
unfoldable pub adjust_leftover : ℕ → List Bytes → Result (Unit {0}) × List Bytes
adjust_leftover n [] = if n == 0 then (ok tt, []) else (err index_error, [])
adjust_leftover n (b ∷ bs) =
    let rest = adjust_leftover (n - length b) bs in
    if n == 0 then (ok tt, b ∷ bs) else if leb (length b) n then rest else (ok tt, drop n b ∷ bs)

unfoldable pub set_buffer : List Bytes → Method (Core Bytes Delivery) (Unit {0})
set_buffer bs = modify λ c. record c { buffer = bs }

unfoldable pub adjust_leftover_buffer : ℕ → Method Stream (Unit {0})
unfolding set_buffer
adjust_leftover_buffer n = do
  buffer ← gets (λ s. s.buffer)
  let (r, bs) = adjust_leftover n buffer
  base (set_buffer bs)
  lift r

module _ (u : User) where
  -- The last two lines of `write`.
  unfoldable pub enqueue : Bytes → Method Stream (Unit {0})
  unfolding set_buffer
  enqueue payload = do
    buffer ← gets (λ s. s.buffer)
    base (set_buffer (buffer ++ payload ∷ []))
    u.maybe_pause_protocol

  -- "Not all was written; register write handler."
  unfoldable pub watch_and_enqueue : Bytes → Method Stream (Unit {0})
  watch_and_enqueue payload = do base Core.add_writer; enqueue payload

  -- "Optimization: try to send now."
  unfoldable pub send_now : Bytes → Result ℕ → Method Stream (Unit {0})
  send_now payload answer =
      try_else (sock_send payload answer)
        (λ e.
          if would_block e
          then watch_and_enqueue payload
          else if is_exit e
          then raise e
          else base (Core.fatal_error e))
        (λ n. if is_empty (drop n payload) then skip else watch_and_enqueue (drop n payload))

  unfoldable pub write_bytes : Bytes → Result ℕ → Method Stream (Unit {0})
  write_bytes payload answer = do
    eof ← gets (λ s. s.eof)
    raise_if eof runtime_error
    waiter ← gets (λ s. s.empty_waiter)
    raise_if (is_some waiter) runtime_error
    lost ← gets (λ s. s.conn_lost)
    buffer ← gets (λ s. s.buffer)
    if is_empty payload
        then skip
        else if ltb 0 lost
        then base (modify λ c. record c { conn_lost = c.conn_lost + 1 })
        else if is_empty buffer
        then send_now payload answer
        else enqueue payload

  unfoldable pub write : PyArg → Result ℕ → Method Stream (Unit {0})
  unfolding write_bytes
  write no_bytes answer = raise type_error
  write (bytes_like payload) answer = write_bytes payload answer

  -- The handlers that `_write_sendmsg` and `_write_send` share.
  unfoldable pub write_failed : Exc → Method Stream (Unit {0})
  unfolding set_buffer
  write_failed e = if would_block e then skip else if is_exit e then raise e else do
    base Core.remove_writer
    base (set_buffer [])
    base (Core.fatal_error e)
    settle (failed e)

  -- Their `else` block, after `_maybe_resume_protocol`.
  unfoldable pub write_drained : Kernel → Method Stream (Unit {0})
  write_drained k = do
    buffer ← gets (λ s. s.buffer)
    if not (is_empty buffer) then skip else do
      base Core.remove_writer
      settle finished
      closing ← gets (λ s. s.closing)
      eof ← gets (λ s. s.eof)
      if closing then call_connection_lost u none else when eof (shutdown k.shutdown)

  unfoldable pub write_done : Kernel → Method Stream (Unit {0})
  write_done k = do u.maybe_resume_protocol; write_drained k

  -- `SC_IOV_MAX` is `iov_max`.
  unfoldable pub write_sendmsg_ready : ℕ → Kernel → Method Stream (Unit {0})
  write_sendmsg_ready iov_max k = do
    buffer ← gets (λ s. s.buffer)
    raise_if (is_empty buffer) assertion_error
    lost ← gets (λ s. s.conn_lost)
    if ltb 0 lost
        then skip
        else try_else
            (do n ← sock_send (concat (take iov_max buffer)) k.send; adjust_leftover_buffer n)
            write_failed (λ _. write_done k)

  unfoldable pub send_first : List Bytes → Result ℕ → Method Stream (Unit {0})
  unfolding set_buffer
  send_first [] answer = raise index_error
  send_first (b ∷ bs) answer = do
    base (set_buffer bs)
    n ← sock_send b answer
    when (not (n == length b)) (base (set_buffer (drop n b ∷ bs)))

  unfoldable pub write_send_ready : Kernel → Method Stream (Unit {0})
  write_send_ready k = do
    buffer ← gets (λ s. s.buffer)
    raise_if (is_empty buffer) assertion_error
    lost ← gets (λ s. s.conn_lost)
    if ltb 0 lost
        then skip
        else try_else (send_first buffer k.send) write_failed (λ _. write_done k)

  -- `self._write_ready()`; calling `None` is a `TypeError`.
  unfoldable pub call_write_ready : Option WriteReady → ℕ → Kernel → Method Stream (Unit {0})
  call_write_ready none iov_max k = raise type_error
  call_write_ready (some write_sendmsg) iov_max k = write_sendmsg_ready iov_max k
  call_write_ready (some write_send) iov_max k = write_send_ready k

  unfoldable pub writelines : ℕ → List Bytes → Kernel → Method Stream (Unit {0})
  unfolding set_buffer
  writelines iov_max list_of_data k = do
    eof ← gets (λ s. s.eof)
    raise_if eof runtime_error
    waiter ← gets (λ s. s.empty_waiter)
    raise_if (is_some waiter) runtime_error
    lost ← gets (λ s. s.conn_lost)
    if is_empty list_of_data
        then skip
        else if ltb 0 lost
        then base (modify λ c. record c { conn_lost = c.conn_lost + 1 })
        else do
          buffer ← gets (λ s. s.buffer)
          base (set_buffer (buffer ++ list_of_data))
          ready ← gets (λ s. s.write_ready)
          call_write_ready ready iov_max k
          left ← gets (λ s. s.buffer)
          when (not (is_empty left)) do base Core.add_writer; u.maybe_pause_protocol

unfoldable pub write_eof : Kernel → Method Stream (Unit {0})
write_eof k = do
  closing ← gets (λ s. s.closing)
  eof ← gets (λ s. s.eof)
  if closing || eof then skip else do
    modify (λ s. record s { eof = true })
    buffer ← gets (λ s. s.buffer)
    when (is_empty buffer) (shutdown k.shutdown)

-- The future that `_sendfile_native` awaits.
unfoldable pub make_empty_waiter : Method Stream (Unit {0})
make_empty_waiter = do
  waiter ← gets (λ s. s.empty_waiter)
  raise_if (is_some waiter) runtime_error
  base Core.debug_log
  buffer ← gets (λ s. s.buffer)
  modify λ s. record s { empty_waiter = some (if is_empty buffer then finished else pending) }

unfoldable pub reset_empty_waiter : Method Stream (Unit {0})
reset_empty_waiter = modify λ s. record s { empty_waiter = none }

unfoldable pub close : Method Stream (Unit {0})
close = do modify (λ s. record s { read_ready_cb = none }); base Core.close
