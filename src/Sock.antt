-- ===== src/Sock.antt =====
-- The `sock_*` coroutines of python/tokioop/loop.py. One value of `Wait` is one coroutine, its
-- future, and what the loop knows of its descriptor in one direction. A coroutine returns `some`
-- value at once, or `none` where it goes on to await its future.
pub mod Send
pub mod Life
pub mod Sendfile
mod Tests
use tokioop.Prelude.{
  ℕ, suc, Bool, true, false, not, ◌&&◌, Option, none, some, List, [], ◌∷◌, ◌++◌, ◌==◌, is_some,
  if◌then◌else◌,
}
use tokioop.Python.{
  Bytes, Exc, would_block, is_exit, type_error, value_error, runtime_error, invalid_state, Result,
  ok, err, Method, pure, gets, raise, modify, skip, when, raise_if, ◌>>=◌, ◌>>◌,
}

pub data Future (A : Type 0) : Type 0 where
  pending cancelled : Future A
  result : A → Future A
  failed : Exc → Future A

pub record Wait (A : Type 0) : Type 0 where
  pub debug : Bool
  -- `sock.gettimeout() != 0`, and what `_check_ssl_socket` looks for.
  pub blocking : Bool
  pub is_ssl : Bool
  -- The transport that the loop has for the descriptor, and whether it is closing.
  pub transport : Option Bool
  -- The handle that is registered, if any, and the number of the next one. A handle is cancelled
  -- as soon as another takes its place or the descriptor is no longer watched.
  pub watcher : Option ℕ
  pub next_handle : ℕ
  pub fut : Future A
  -- The handles that the done callbacks of the future know, oldest first.
  pub handles : List ℕ

abbrev pub is_done : {A : Type 0} → Future A → Bool
is_done pending = false
is_done cancelled = true
is_done (result a) = true
is_done (failed e) = true

-- A descriptor that a transport uses is refused, unless the transport is closing.
abbrev pub is_used : Option Bool → Bool
is_used none = false
is_used (some closing) = not closing

module _ {A : Type 0} where
  unfoldable pub check_socket : Method (Wait A) (Unit {0})
  check_socket = do
    ssl ← gets (λ w. w.is_ssl)
    raise_if ssl type_error
    debug ← gets (λ w. w.debug)
    blocking ← gets (λ w. w.blocking)
    raise_if (debug && blocking) value_error

  unfoldable pub ensure_fd_no_transport : Method (Wait A) (Unit {0})
  ensure_fd_no_transport = do
    transport ← gets (λ w. w.transport)
    raise_if (is_used transport) runtime_error

  -- `handle = self._add_reader(...)`, or `_add_writer`, and `fut.add_done_callback(...)`.
  unfoldable pub watch : Method (Wait A) (Unit {0})
  watch = modify λ w. record w {
    watcher = some w.next_handle;
    next_handle = suc w.next_handle;
    handles = w.handles ++ w.next_handle ∷ [];
  }

  unfoldable pub create_future : Method (Wait A) (Unit {0})
  create_future = modify λ w. record w { fut = pending; handles = [] }

  -- `set_result` and `set_exception`
  unfoldable pub settle : Future A → Method (Wait A) (Unit {0})
  settle f w = if is_done w.fut then (err invalid_state, w) else (ok tt, record w { fut = f })

  unfoldable pub begin_wait : Method (Wait A) (Option A)
  begin_wait = do create_future; ensure_fd_no_transport; watch; pure none

  -- The shape of `sock_recv` and the coroutines like it: one call at once, then a future.
  unfoldable pub sock_call : Result A → Method (Wait A) (Option A)
  unfolding begin_wait
  sock_call answer = do
    check_socket
    elim answer [ ok a ↦ pure (some a) | err e ↦ if would_block e then begin_wait else raise e ]

  -- The shape of `_sock_recv` and the callbacks like it.
  unfoldable pub sock_ready : Result A → Method (Wait A) (Unit {0})
  sock_ready answer = do
    done ← gets (λ w. is_done w.fut)
    if done then skip else elim answer [
      | ok a ↦ settle (result a)
      | err e ↦ if would_block e then skip else if is_exit e then raise e else settle (failed e)
    ]

  -- `remove_reader` and `remove_writer` of the loop, behind their check.
  unfoldable pub remove_watcher : Method (Wait A) (Unit {0})
  remove_watcher = do ensure_fd_no_transport; modify (λ w. record w { watcher = none })

  abbrev pub is_cancelled : ℕ → Wait A → Bool
  is_cancelled h w = elim w.watcher [ none ↦ true | some k ↦ not (k == h) ]

  -- `_sock_read_done` and `_sock_write_done`
  unfoldable pub sock_read_done : ℕ → Method (Wait A) (Unit {0})
  sock_read_done h = do stale ← gets (is_cancelled h); when (not stale) remove_watcher

  unfoldable pub sock_write_done : ℕ → Method (Wait A) (Unit {0})
  sock_write_done h = do stale ← gets (is_cancelled h); when (not stale) remove_watcher

-- An address is what the operating system makes of it.
module _ {Address : Type 0} where
  unfoldable pub sock_recvfrom :
      Result (Bytes × Address) → Method (Wait (Bytes × Address)) (Option (Bytes × Address))
  sock_recvfrom answer = sock_call answer

  unfoldable pub sock_recvfrom_ready :
      Result (Bytes × Address) → Method (Wait (Bytes × Address)) (Unit {0})
  sock_recvfrom_ready answer = sock_ready answer

  -- `nbytes` of 0 stands for the size of the buffer; the kernel's answer depends on the number.
  unfoldable pub sock_recvfrom_into :
      ℕ → ℕ → (ℕ → Result (ℕ × Address)) → Method (Wait (ℕ × Address)) (Option (ℕ × Address))
  sock_recvfrom_into size nbytes answer = sock_call (answer (if nbytes == 0 then size else nbytes))

  unfoldable pub sock_recvfrom_into_ready :
      Result (ℕ × Address) → Method (Wait (ℕ × Address)) (Unit {0})
  sock_recvfrom_into_ready answer = sock_ready answer

unfoldable pub sock_recv : Result Bytes → Method (Wait Bytes) (Option Bytes)
sock_recv answer = sock_call answer

unfoldable pub sock_recv_ready : Result Bytes → Method (Wait Bytes) (Unit {0})
sock_recv_ready answer = sock_ready answer

unfoldable pub sock_recv_into : Result ℕ → Method (Wait ℕ) (Option ℕ)
sock_recv_into answer = sock_call answer

unfoldable pub sock_recv_into_ready : Result ℕ → Method (Wait ℕ) (Unit {0})
sock_recv_into_ready answer = sock_ready answer

unfoldable pub sock_sendto : Result ℕ → Method (Wait ℕ) (Option ℕ)
sock_sendto answer = sock_call answer

unfoldable pub sock_sendto_ready : Result ℕ → Method (Wait ℕ) (Unit {0})
sock_sendto_ready answer = sock_ready answer

-- `_sock_connect`
unfoldable pub sock_connect_start : Result (Unit {0}) → Method (Wait (Unit {0})) (Unit {0})
sock_connect_start answer = elim answer [
  | ok _ ↦ settle (result tt)
  | err e ↦
      if would_block e
      then (do ensure_fd_no_transport; watch)
      else if is_exit e
      then raise e
      else settle (failed e)
]

-- `sock_connect`, for an address that is resolved.
unfoldable pub sock_connect : Result (Unit {0}) → Method (Wait (Unit {0})) (Unit {0})
sock_connect answer = do check_socket; create_future; sock_connect_start answer

-- "Jump to any except clause below."
abbrev socket_error : (ℕ → Exc) → Result ℕ → Result (Unit {0})
socket_error exc_of (ok n) = if n == 0 then ok tt else err (exc_of n)
socket_error exc_of (err e) = err e

-- `_sock_connect_cb`: the answer is `SO_ERROR`, and `exc_of` the exception that Python makes of it.
unfoldable pub sock_connect_ready : (ℕ → Exc) → Result ℕ → Method (Wait (Unit {0})) (Unit {0})
sock_connect_ready exc_of answer = do
  done ← gets (λ w. is_done w.fut)
  if done then skip else elim (socket_error exc_of answer) [
    | ok _ ↦ settle (result tt)
    | err e ↦ if would_block e then skip else if is_exit e then raise e else settle (failed e)
  ]

-- `_sock_accept`, also the callback; the connection and its address are one value.
module _ {Conn : Type 0} where
  unfoldable pub sock_accept_ready : Result Conn → Method (Wait Conn) (Unit {0})
  sock_accept_ready answer = do
    done ← gets (λ w. is_done w.fut)
    if done then skip else elim answer [
      | ok conn ↦ settle (result conn)
      | err e ↦
          if would_block e
          then (do ensure_fd_no_transport; watch)
          else if is_exit e
          then raise e
          else settle (failed e)
    ]

  unfoldable pub sock_accept : Result Conn → Method (Wait Conn) (Unit {0})
  sock_accept answer = do check_socket; create_future; sock_accept_ready answer
