-- ===== src/Endpoint/Connect.antt =====
-- `create_connection` from its checks to its transport, `connect_accepted_socket` and
-- `_accept_connection2` of python/tokioop/loop.py, without happy eyeballs. What
-- `_make_ssl_transport` does is a parameter.
pub mod NoLeak
pub mod Accepted
use tokioop.Prelude.{
  ℕ, suc, Bool, true, false, not, ◌&&◌, ◌||◌, Option, none, some, List, [], ◌∷◌, ◌++◌, ◌==◌,
  is_some, is_empty, if◌then◌else◌,
}
use tokioop.Python.{
  Exc, os_error, type_error, value_error, timeout_error, is_exit, Result, ok, err, Method, pure,
  raise, skip, modify, when, raise_if, lift, try_else, ◌>>=◌, ◌>>◌,
}
use tokioop.Client.{
  Target, Client, try_targets, connect_failure, Failure, group, multiple, single, empty_group,
  timed_out,
}
use tokioop.Endpoint.{Sys, Outside, start_transport, create_connection_transport}

-- A socket that is given: its descriptor, whether it is an SSL socket, and a stream socket.
pub record Given : Type 0 where
  pub fd : ℕ
  pub is_ssl : Bool
  pub is_stream : Bool

-- The arguments of `create_connection`; a host is given with its truth value.
pub record ConnectArgs : Type 0 where
  pub host : Option Bool
  pub has_port : Bool
  pub ssl : Bool
  pub sock : Option Given
  pub has_local_addr : Bool
  pub has_server_hostname : Bool
  pub has_handshake_timeout : Bool
  pub has_shutdown_timeout : Bool
  pub interleave : Option ℕ
  pub all_errors : Bool

abbrev is_ssl_sock : Option Given → Bool
is_ssl_sock none = false
is_ssl_sock (some g) = g.is_ssl

abbrev is_true : Option Bool → Bool
is_true none = false
is_true (some b) = b

unfoldable pub check_connect_args : ConnectArgs → Method Sys (Unit {0})
check_connect_args a = do
  raise_if (a.has_server_hostname && not a.ssl) value_error
  raise_if (not a.has_server_hostname && a.ssl && not (is_true a.host)) value_error
  raise_if (a.has_handshake_timeout && not a.ssl) value_error
  raise_if (a.has_shutdown_timeout && not a.ssl) value_error
  raise_if (is_ssl_sock a.sock) type_error

-- The attempts to connect, on the sockets of the whole program.
unfoldable pub client_of : Sys → Client
client_of y = record { next = y.next; live = y.live; current = none; mine = []; exceptions = [] }

unfoldable pub back : Client → Sys → Sys
back c y = record y { next = c.next; live = c.live }

-- What the code outside makes of addresses and exceptions: `_interleave_addrinfos`, the texts of
-- exceptions, and the exceptions that are made of several.
pub record Texts : Type 0 where
  pub errno : Exc → ℕ
  pub same : Exc → Exc → Bool
  pub group_of : List Exc → Exc
  pub empty_group_error : Exc
  pub interleaved : List Target → ℕ → List Target

module _ (x : Texts) where
  unfoldable pub exception_of : Failure → Exc
  exception_of (group es) = x.group_of es
  exception_of (multiple es) = os_error 0
  exception_of (single e) = e
  exception_of empty_group = x.empty_group_error
  exception_of timed_out = timeout_error

  unfoldable pub connect_targets : Bool → List Target → Method Sys ℕ
  connect_targets all_errors targets y =
      let (r, c) = try_targets x.errno targets (client_of y) in
      elim r [
        | ok (some k) ↦ (ok k, back c y)
        | ok none ↦ (err (exception_of (connect_failure x.same all_errors c.exceptions)), back c y)
        | err e ↦ (err e, back c y)
      ]

  unfoldable pub order_targets : Option ℕ → List Target → List Target
  order_targets none targets = targets
  order_targets (some n) targets = if n == 0 then targets else x.interleaved targets n

  -- `infos` and `laddr_infos` are what resolving answers; of the latter, whether there are any.
  unfoldable pub resolve_and_connect :
      Result (List Target) → Result Bool → ConnectArgs → Method Sys ℕ
  resolve_and_connect infos laddr_infos a = do
    targets ← lift infos
    raise_if (is_empty targets) (os_error 0)
    when a.has_local_addr (do any ← lift laddr_infos; raise_if (not any) (os_error 0))
    connect_targets a.all_errors (order_targets a.interleave targets)

  unfoldable pub connected_socket : Result (List Target) → Result Bool → ConnectArgs → Method Sys ℕ
  connected_socket infos laddr_infos a =
      if is_some a.host || a.has_port
      then (do raise_if (is_some a.sock) value_error; resolve_and_connect infos laddr_infos a)
      else elim a.sock [
        | none ↦ raise value_error
        | some g ↦ (do raise_if (not g.is_stream) value_error; pure g.fd)
      ]

  unfoldable pub create_connection :
      Result (List Target) → Result Bool → Outside → ConnectArgs → Method Sys ℕ
  create_connection infos laddr_infos o a = do
    check_connect_args a
    k ← connected_socket infos laddr_infos a
    create_connection_transport o a.ssl k

-- `connect_accepted_socket`
unfoldable pub connect_accepted_socket : Outside → Given → Bool → Bool → Bool → Method Sys ℕ
connect_accepted_socket o g ssl has_handshake_timeout has_shutdown_timeout = do
  raise_if (not g.is_stream) value_error
  raise_if (has_handshake_timeout && not ssl) value_error
  raise_if (has_shutdown_timeout && not ssl) value_error
  raise_if g.is_ssl type_error
  create_connection_transport o ssl g.fd

unfoldable pub report : Exc → Method Sys (Unit {0})
report e = modify λ y. record y { reported = e ∷ y.reported }

-- `_accept_connection2`, of a connection that was accepted, with whether there is an SSL context.
unfoldable pub accept_connection2 : Bool → Outside → Bool → ℕ → Method Sys (Unit {0})
accept_connection2 debug o ssl k =
    try_else (start_transport o ssl k) (λ e. if is_exit e then raise e else when debug (report e))
      (λ _. skip)
