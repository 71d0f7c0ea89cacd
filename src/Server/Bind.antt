-- ===== src/Server/Bind.antt =====
-- The part of `create_server` that opens, binds and on failure closes the sockets, after the names
-- are resolved. Sockets are numbered in the order in which they are made; the list of them is kept
-- newest first, so that `sockets.pop()` takes its head.
pub mod NoLeak
use tokioop.Prelude.{
  ℕ, suc, ◌+◌, Bool, true, false, not, ◌&&◌, ◌||◌, Option, none, some, List, [], ◌∷◌, ◌++◌, ◌==◌,
  is_empty, is_some, if◌then◌else◌,
}
use tokioop.Python.{
  Bytes, Exc, os_error, type_error, value_error, is_os_error, Result, ok, err, Method, pure, gets,
  raise, modify, skip, when, raise_if, lift, try_else, ◌>>=◌, ◌>>◌,
}

-- What the operating system answers to the calls on one address, in their order.
pub record Attempt : Type 0 where
  -- AF_INET, and AF_INET6.
  pub is_inet : Bool
  pub is_inet6 : Bool
  pub create : Result (Unit {0})
  pub reuse_address : Result (Unit {0})
  pub reuse_port : Result (Unit {0})
  pub keep_alive : Result (Unit {0})
  pub v6only : Result (Unit {0})
  pub bind : Result (Unit {0})

pub record Options : Type 0 where
  pub reuse_address : Bool
  pub reuse_port : Bool
  pub keep_alive : Bool
  -- `_HAS_IPv6`, and the socket module's `IPPROTO_IPV6`.
  pub has_ipv6 : Bool

pub record Sockets : Type 0 where
  pub next : ℕ
  pub sockets : List ℕ
  pub closed : List ℕ

unfoldable pub new_socket : Method Sockets (Unit {0})
new_socket = modify λ t. record t { next = suc t.next; sockets = t.next ∷ t.sockets }

-- `sock.close()`, with what it answers; `newer` are those that are then still open. The descriptor is
-- given up also where the call raises.
unfoldable pub close_one : (ℕ → Result (Unit {0})) → List ℕ → ℕ → Method Sockets (Unit {0})
close_one close newer s = do
  modify λ t. record t { sockets = newer; closed = s ∷ t.closed }
  lift (close s)

-- `sockets.pop()` and `sock.close()`, of one and the same socket.
unfoldable pub drop_socket : (ℕ → Result (Unit {0})) → List ℕ → Method Sockets (Unit {0})
drop_socket close [] = skip
drop_socket close (s ∷ rest) = close_one close rest s

-- The `setsockopt` calls on a new socket.
unfoldable pub set_options : Options → Attempt → Method Sockets (Unit {0})
set_options o a = do
  when o.reuse_address (lift a.reuse_address)
  when (o.reuse_port && (a.is_inet || a.is_inet6)) (lift a.reuse_port)
  when o.keep_alive (lift a.keep_alive)
  when (o.has_ipv6 && a.is_inet6) (lift a.v6only)

-- The loop of the `finally` block, from the oldest socket on; a `close` that raises ends it.
unfoldable pub close_each : (ℕ → Result (Unit {0})) → List ℕ → List ℕ → Method Sockets (Unit {0})
close_each close newer [] = skip
close_each close newer (s ∷ rest) = do
  close_each close (newer ++ s ∷ []) rest
  close_one close newer s

unfoldable pub close_all : (ℕ → Result (Unit {0})) → Method Sockets (Unit {0})
close_all close = do sockets ← gets (λ t. t.sockets); close_each close [] sockets

-- `raise OSError("could not bind on any address ...")`, which has no errno.
unfoldable pub require_some : Method Sockets (Unit {0})
require_some = do sockets ← gets (λ t. t.sockets); raise_if (is_empty sockets) (os_error 0)

unfoldable pub create_failed : Exc → Method Sockets (Unit {0})
create_failed e = if is_os_error e then skip else raise e

-- The operating system's numbers, the errno of an exception and EADDRNOTAVAIL; and what `close` of a
-- socket answers.
module _ (errno : Exc → ℕ) (addrnotavail : ℕ) (close : ℕ → Result (Unit {0})) where
  unfoldable pub bind_failed : Exc → Method Sockets (Unit {0})
  bind_failed e =
      if not (is_os_error e)
      then raise e
      else if errno e == addrnotavail
      then (do sockets ← gets (λ t. t.sockets); drop_socket close sockets)
      else raise (os_error (errno e))

  unfoldable pub bind_socket : Attempt → Method Sockets (Unit {0})
  bind_socket a = try_else (lift a.bind) bind_failed (λ _. skip)

  -- A socket that was made.
  unfoldable pub set_up : Options → Attempt → Method Sockets (Unit {0})
  set_up o a = do new_socket; set_options o a; bind_socket a

  -- The body of the loop over the addresses.
  unfoldable pub open_socket : Options → Attempt → Method Sockets (Unit {0})
  open_socket o a = try_else (lift a.create) create_failed (λ _. set_up o a)

  unfoldable pub open_sockets : Options → List Attempt → Method Sockets (Unit {0})
  open_sockets o [] = skip
  open_sockets o (a ∷ rest) = do open_socket o a; open_sockets o rest

  unfoldable pub open_some : Options → List Attempt → Method Sockets (Unit {0})
  open_some o attempts = do open_sockets o attempts; require_some

  -- The `try` block with its `finally`: what is left open is closed unless all went well.
  unfoldable pub bind_sockets : Options → List Attempt → Method Sockets (Unit {0})
  bind_sockets o attempts =
      try_else (open_some o attempts) (λ e. do close_all close; raise e) (λ _. skip)

-- The arguments of `create_server` that are checked.
pub data SslArg : Type 0 where
  no_ssl bool context : SslArg

pub record Args : Type 0 where
  pub ssl : SslArg
  pub handshake_timeout : Option ℕ
  pub shutdown_timeout : Option ℕ
  pub has_address : Bool
  -- The socket that is given: whether it is an SSL socket, and whether it is a stream socket.
  pub sock : Option (Bool × Bool)

abbrev is_none : SslArg → Bool
is_none no_ssl = true
is_none _ = false

abbrev is_bool : SslArg → Bool
is_bool bool = true
is_bool _ = false

abbrev is_ssl_sock : Option (Bool × Bool) → Bool
is_ssl_sock none = false
is_ssl_sock (some (ssl, _)) = ssl

abbrev is_stream : Option (Bool × Bool) → Bool
is_stream none = false
is_stream (some (_, stream)) = stream

-- Its checks, in their order.
unfoldable pub check_args : Args → Method Sockets (Unit {0})
check_args a = do
  raise_if (is_bool a.ssl) type_error
  raise_if (is_some a.handshake_timeout && is_none a.ssl) value_error
  raise_if (is_some a.shutdown_timeout && is_none a.ssl) value_error
  raise_if (is_ssl_sock a.sock) type_error
  if a.has_address then raise_if (is_some a.sock) value_error else do
    raise_if (not (is_some a.sock)) value_error
    raise_if (not (is_stream a.sock)) value_error
