-- ===== src/Endpoint/Unix.antt =====
-- `create_unix_connection` and `create_unix_server` of python/tokioop/loop.py.
pub mod NoLeak
pub mod Serving
pub mod Removal
use tokioop.Prelude.{
  ℕ, suc, Bool, true, false, not, ◌&&◌, ◌||◌, Option, none, some, List, [], ◌∷◌, ◌++◌, ◌==◌,
  is_some, if◌then◌else◌,
}
use tokioop.Python.{
  Exc, os_error, attribute_error, type_error, value_error, assertion_error, runtime_error,
  index_error, file_not_found, is_os_error, Result, ok, err, Method, pure, gets, raise, modify,
  skip, when, raise_if, lift, try_else, ◌>>=◌, ◌>>◌,
}
use tokioop.Endpoint.{
  Sys, open_socket, close_socket, Outside, create_connection_transport, is_abstract, Stale,
  remove_stale,
}

-- A socket that is given: its descriptor, and whether it is a UNIX stream socket.
pub record Given : Type 0 where
  pub fd : ℕ
  pub is_unix_stream : Bool

-- The arguments of `create_unix_connection`: `os.fspath(path)`, and whether the others are given.
pub record ConnectionArgs : Type 0 where
  pub path : Option (Result (List ℕ))
  pub ssl : Bool
  pub sock : Option Given
  pub has_server_hostname : Bool
  pub hostname_is_str : Bool
  pub has_handshake_timeout : Bool
  pub has_shutdown_timeout : Bool

-- What the operating system answers to the connection's calls in their order.
pub record Dial : Type 0 where
  pub create : Result (Unit {0})
  pub setblocking : Result (Unit {0})
  pub connect : Result (Unit {0})
  pub close : Result (Unit {0})

unfoldable pub check_connection_ssl : ConnectionArgs → Method Sys (Unit {0})
check_connection_ssl a = do
  raise_if (a.has_server_hostname && not a.hostname_is_str) assertion_error
  if a.ssl then raise_if (not a.has_server_hostname) value_error else do
    raise_if a.has_server_hostname value_error
    raise_if a.has_handshake_timeout value_error
    raise_if a.has_shutdown_timeout value_error

-- `try: ... except BaseException: sock.close(); raise`
unfoldable pub or_close : {A : Type 0} → Result (Unit {0}) → ℕ → Method Sys A → Method Sys A
or_close answer k m = try_else m (λ e. do close_socket answer k; raise e) pure

unfoldable pub dial : Dial → Method Sys ℕ
dial d = do
  k ← open_socket d.create
  or_close d.close k (do lift d.setblocking; lift d.connect; pure k)

-- The socket of the connection: a new one that is connected to the path, or the given one.
unfoldable pub connection_socket : Dial → ConnectionArgs → Method Sys ℕ
connection_socket d a = elim a.path [
  | some fspath ↦ (do raise_if (is_some a.sock) value_error; _ ← lift fspath; dial d)
  | none ↦ elim a.sock [
    | none ↦ raise value_error
    | some sock ↦ (do
      raise_if (not sock.is_unix_stream) value_error
      lift d.setblocking
      pure sock.fd)
  ]
]

unfoldable pub create_unix_connection : Dial → Outside → ConnectionArgs → Method Sys ℕ
create_unix_connection d o a = do
  check_connection_ssl a
  k ← connection_socket d a
  create_connection_transport o a.ssl k

pub data SslArg : Type 0 where
  no_ssl bool context : SslArg

abbrev is_bool : SslArg → Bool
is_bool bool = true
is_bool _ = false

abbrev is_falsy : SslArg → Bool
is_falsy no_ssl = true
is_falsy _ = false

pub record ServerArgs : Type 0 where
  pub path : Option (Result (List ℕ))
  pub sock : Option Given
  pub ssl : SslArg
  pub has_handshake_timeout : Bool
  pub has_shutdown_timeout : Bool
  pub start_serving : Bool
  pub cleanup_socket : Bool

-- The answers to the server's calls: `getsockname` gives the path, `inode` is that of `os.stat`.
pub record Binding : Type 0 where
  pub create : Result (Unit {0})
  pub stale : Stale
  pub bind : Result (Unit {0})
  pub close : Result (Unit {0})
  pub getsockname : Result (List ℕ)
  pub inode : Result ℕ
  pub setblocking : Result (Unit {0})
  -- `server._start_serving()` and the `sleep(0)` after it.
  pub serve : Result (Unit {0})

unfoldable pub check_server_args : ServerArgs → Method Sys (Unit {0})
check_server_args a = do
  raise_if (is_bool a.ssl) type_error
  raise_if (a.has_handshake_timeout && is_falsy a.ssl) value_error
  raise_if (a.has_shutdown_timeout && is_falsy a.ssl) value_error

unfoldable pub no_file : Exc → Method Sys (Unit {0})
no_file file_not_found = skip
no_file e = raise e

unfoldable pub store_inode : ℕ → ℕ → Method Sys (Unit {0})
store_inode k inode = modify λ y. record y { inodes = (k, inode) ∷ y.inodes }

-- `_unix_server_sockets[sock] = os.stat(path).st_ino`
unfoldable pub remember_inode : Binding → ℕ → Method Sys (Unit {0})
remember_inode b k = do
  path ← lift b.getsockname
  abstract ← is_abstract path
  when (not abstract) (try_else (lift b.inode) no_file (store_inode k))

unfoldable pub make_server : ℕ → Method Sys (Unit {0})
make_server k = modify λ y. record y { servers = k ∷ y.servers }

module _ (errno : Exc → ℕ) (addrinuse : ℕ) where
  -- The handlers around `bind`; the exception for an address in use is a new one.
  unfoldable pub bind_failed : Result (Unit {0}) → ℕ → Exc → Method Sys (Unit {0})
  bind_failed answer k e = do
    close_socket answer k
    if is_os_error e && (errno e == addrinuse) then raise (os_error addrinuse) else raise e

  unfoldable pub bind_path : Binding → List ℕ → ℕ → Method Sys ℕ
  bind_path b path k = do
    abstract ← is_abstract path
    when (not abstract) (remove_stale b.stale path)
    try_else (lift b.bind) (bind_failed b.close k) (λ _. skip)
    pure k

  -- The socket of the server: a new one that is bound to the path, or the given one.
  unfoldable pub server_socket : Binding → ServerArgs → Method Sys ℕ
  server_socket b a = elim a.path [
    | some fspath ↦ (do
      raise_if (is_some a.sock) value_error
      path ← lift fspath
      k ← open_socket b.create
      bind_path b path k)
    | none ↦ elim a.sock [
      | none ↦ raise value_error
      | some sock ↦ (do raise_if (not sock.is_unix_stream) value_error; pure sock.fd)
    ]
  ]

  unfoldable pub create_unix_server : Binding → ServerArgs → Method Sys ℕ
  create_unix_server b a = do
    check_server_args a
    k ← server_socket b a
    when a.cleanup_socket (remember_inode b k)
    lift b.setblocking
    make_server k
    when a.start_serving (lift b.serve)
    pure k
