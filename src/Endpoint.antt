-- ===== src/Endpoint.antt =====
-- The endpoints of python/tokioop/loop.py: what connections, datagram endpoints and servers share.
-- Descriptors are numbered in the order in which they are made.
pub mod Made
pub mod Unix
pub mod Datagram
pub mod Connect
mod Tests
use tokioop.Prelude.{
  ℕ, suc, Bool, true, false, not, ◌&&◌, ◌||◌, Option, none, some, List, [], ◌∷◌, ◌++◌, ◌==◌,
  if◌then◌else◌,
}
use tokioop.Python.{
  Exc, attribute_error, type_error, value_error, runtime_error, index_error, file_not_found,
  is_os_error, Result, ok, err, Method, pure, gets, raise, modify, skip, when, raise_if, lift,
  try_else, ◌>>=◌, ◌>>◌,
}

-- What the loop and the operating system hold.
pub record Sys : Type 0 where
  pub next : ℕ
  -- The sockets that are open.
  pub live : List ℕ
  -- `_transports`: descriptors with whether their transport is closing, newest first.
  pub transports : List (ℕ × Bool)
  -- The paths that were removed, and the errors that were logged.
  pub removed : List (List ℕ)
  pub logged : List Exc
  -- `_unix_server_sockets`, and the sockets of the servers made.
  pub inodes : List (ℕ × ℕ)
  pub servers : List ℕ
  -- `call_exception_handler`
  pub reported : List Exc

-- `socket.socket(...)`, which the operating system may refuse.
unfoldable pub open_socket : Result (Unit {0}) → Method Sys ℕ
open_socket answer y = elim answer [
  | ok _ ↦ (ok y.next, record y { next = suc y.next; live = y.next ∷ y.live })
  | err e ↦ (err e, y)
]

unfoldable pub without : ℕ → List ℕ → List ℕ
without k [] = []
without k (x ∷ xs) = let rest = without k xs in if x == k then xs else x ∷ rest

-- `sock.close()` gives the descriptor up, also where it raises.
unfoldable pub close_socket : Result (Unit {0}) → ℕ → Method Sys (Unit {0})
close_socket answer k y = (answer, record y { live = without k y.live })

-- A descriptor as users give it: a number, or an object with the result of `int(fd.fileno())`.
pub data FileArg : Type 0 where
  number : ℕ → FileArg
  object : Result ℕ → FileArg

abbrev pub not_a_file : Exc → Bool
not_a_file attribute_error = true
not_a_file type_error = true
not_a_file value_error = true
not_a_file _ = false

unfoldable pub fileobj_to_fd : FileArg → Method Sys ℕ
fileobj_to_fd (number k) = pure k
fileobj_to_fd (object (ok k)) = pure k
fileobj_to_fd (object (err e)) = if not_a_file e then raise value_error else raise e

-- Whether the newest transport of the descriptor is there and not closing.
unfoldable pub in_use : ℕ → List (ℕ × Bool) → Bool
in_use k [] = false
in_use k ((x, closing) ∷ rest) =
    let others = in_use k rest in if x == k then not closing else others

unfoldable pub check_no_transport : ℕ → Method Sys (Unit {0})
check_no_transport k y = raise_if (in_use k y.transports) runtime_error y

unfoldable pub ensure_fd_no_transport : FileArg → Method Sys (Unit {0})
ensure_fd_no_transport a = do k ← fileobj_to_fd a; check_no_transport k

-- What the code outside answers while a transport is made: `setblocking`, the protocol factory, the
-- steps of the constructors after the registration, what `_make_ssl_transport` does, and the waiter.
pub record Outside : Type 0 where
  pub setblocking : Result (Unit {0})
  pub factory : Result (Unit {0})
  pub constructor : Result (Unit {0})
  pub secure : ℕ → Method Sys (Unit {0})
  pub waiter : Result (Unit {0})

-- `loop._transports[self._sock_fd] = self`
unfoldable pub register_transport : ℕ → Method Sys (Unit {0})
register_transport k = modify λ y. record y { transports = (k, false) ∷ y.transports }

unfoldable pub unregister : ℕ → List (ℕ × Bool) → List (ℕ × Bool)
unregister k [] = []
unregister k ((x, closing) ∷ rest) =
    let others = unregister k rest in if x == k then rest else (x, closing) ∷ others

-- `__del__` of a transport whose constructor has raised: it closes the socket, and the loop's weak
-- dictionary forgets the transport. An exception of `__del__` is ignored.
unfoldable pub drop_transport : ℕ → Method Sys (Unit {0})
drop_transport k =
    modify λ y. record y { live = without k y.live; transports = unregister k y.transports }

-- `_make_socket_transport` and `_make_datagram_transport`: the base class registers the transport, then
-- the rest of the constructor runs.
unfoldable pub make_transport : Outside → ℕ → Method Sys (Unit {0})
make_transport o k = do
  ensure_fd_no_transport (number k)
  register_transport k
  try_else (lift o.constructor) (λ e. do drop_transport k; raise e) (λ _. skip)

-- `transport.close()`; from here on the transport ends its socket.
unfoldable pub close_transport : ℕ → List (ℕ × Bool) → List (ℕ × Bool)
close_transport k [] = []
close_transport k ((x, closing) ∷ rest) =
    let others = close_transport k rest in
    if x == k then (x, true) ∷ rest else (x, closing) ∷ others

unfoldable pub await_waiter : Outside → ℕ → Method Sys ℕ
await_waiter o k =
    try_else (lift o.waiter)
      (λ e. do modify λ y. record y { transports = close_transport k y.transports }; raise e)
      (λ _. pure k)

-- The protocol, its transport, and the wait for `connection_made`.
unfoldable pub start_transport : Outside → Bool → ℕ → Method Sys ℕ
start_transport o ssl k = do
  lift o.factory
  if ssl then o.secure k else make_transport o k
  await_waiter o k

unfoldable pub create_connection_transport : Outside → Bool → ℕ → Method Sys ℕ
create_connection_transport o ssl k = do lift o.setblocking; start_transport o ssl k

-- Resolving an address: `_ipaddr_info` for numeric ones, else `getaddrinfo`.
unfoldable pub ensure_resolved : {S A : Type 0} → Option A → Result (List A) → Method S (List A)
ensure_resolved (some info) answer = pure (info ∷ [])
ensure_resolved none answer = lift answer

-- Paths of UNIX sockets are strings; NUL is 0, and abstract sockets begin with it.
unfoldable pub is_abstract : List ℕ → Method Sys Bool
is_abstract [] = raise index_error
is_abstract (c ∷ cs) = pure (c == 0)

-- What `os.stat` and `os.remove` answer: whether the file is a socket.
pub record Stale : Type 0 where
  pub stat : Result Bool
  pub remove : Result (Unit {0})

unfoldable pub remove_file : Stale → List ℕ → Method Sys (Unit {0})
remove_file a path = do lift a.remove; modify λ y. record y { removed = path ∷ y.removed }

unfoldable pub unremoved : Exc → Method Sys (Unit {0})
unremoved file_not_found = skip
unremoved e = if is_os_error e then modify (λ y. record y { logged = e ∷ y.logged }) else raise e

-- The `try` block that takes a stale socket's file away.
unfoldable pub remove_stale : Stale → List ℕ → Method Sys (Unit {0})
remove_stale a path =
    try_else (do is_socket ← lift a.stat; when is_socket (remove_file a path)) unremoved (λ _. skip)
