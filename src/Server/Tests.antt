-- ===== src/Server/Tests.antt =====
-- The binding of addresses and the accepting of connections on concrete states.
use tokioop.Prelude.{
  none, some, if◌then◌else◌, ◌≡◌, ◌≤◌, refl, true, false, List, [], ◌∷◌, ℕ, Bool, length, replicate,
  ◌==◌,
}
use tokioop.Python.{Exc, os_error, blocking_io, connection_aborted, Result, ok, err}
use tokioop.Endpoint.{ensure_resolved}
use tokioop.Server.Bind.{
  Attempt, Sockets, no_ssl, check_args, bind_sockets, open_some, open_sockets, open_socket,
  create_failed, set_up, new_socket, set_options, bind_socket, bind_failed, drop_socket, close_all,
  close_one, require_some,
}
use tokioop.Server.Create.{
  checked, is_given, find_sockets, open_hosts, resolve_hosts, hosts_of, create_server_getaddrinfo,
  options, set_nonblocking, serve, hosts, CreateArgs, Network, Site, create_server,
}
use tokioop.Server.Create.Served.{Served, create_server-Served}
use tokioop.Server.Accept.{Listener, verdict, accept_connection}
use tokioop.Server.Accept.Tasks.{
  outcome, answered, Accepts, accept_connection-Accepts, accept_connection_piles_up,
}

abbrev binds : Attempt
binds = record {
  is_inet = true;
  is_inet6 = false;
  create = ok tt;
  reuse_address = ok tt;
  reuse_port = ok tt;
  keep_alive = ok tt;
  v6only = ok tt;
  bind = ok tt;
}

-- The address is in use; 98 is the errno.
abbrev in_use : Attempt
in_use = record binds { bind = err (os_error 98) }

-- `gather`: the values in order, or the first failure.
abbrev gathered : List (Result (List ℕ)) → Result (List (List ℕ))
gathered [] = ok []
gathered (ok v ∷ rest) = elim (gathered rest) [ ok l ↦ ok (v ∷ l) | err e ↦ err e ]
gathered (err e ∷ rest) = err e

abbrev no_sockets : Sockets
no_sockets = record { next = 0; sockets = []; closed = [] }

abbrev errno_of : Exc → ℕ
errno_of (os_error n) = n
errno_of _ = 0

-- Two hosts; the second has two addresses, of which one is in use.
abbrev network : Network ℕ
network = record {
  ipaddr_info = λ h. none;
  getaddrinfo = λ h. elim h [ none ↦ ok (1 ∷ []) | some name ↦ ok (2 ∷ 3 ∷ []) ];
  gather = gathered;
  to_set = λ l. l;
  attempt = λ i. if i == 2 then in_use else binds;
  errno = errno_of;
  addrnotavail = 98;
  close = λ k. ok tt;
  is_posix = true;
  has_ipv6 = true;
  setblocking = λ k. ok tt;
  serve = ok tt;
  sleep = ok tt;
}

abbrev server_args : CreateArgs
server_args = record {
  ssl = no_ssl;
  handshake_timeout = none;
  shutdown_timeout = none;
  host = hosts (none ∷ some (104 ∷ []) ∷ []);
  port = some 80;
  sock = none;
  reuse_address = none;
  reuse_port = false;
  keep_alive = false;
  start_serving = true;
}

abbrev new_site : Site
new_site = record { socks = no_sockets; servers = [] }

create_server-Served_example :
    Served network server_args new_site (create_server network server_args new_site)
create_server-Served_example =
    create_server-Served network server_args new_site (λ k. refl)
      (record { none_made = refl; none_open = refl; none_closed = refl })

-- The server holds sockets 2 and 0; socket 1, whose address was in use, is closed.
create_server_run : create_server network server_args new_site ≡ (
  ok (2 ∷ 0 ∷ []),
  record {
    socks = record { next = 3; sockets = 2 ∷ 0 ∷ []; closed = 1 ∷ [] };
    servers = (2 ∷ 0 ∷ []) ∷ [];
  },
)
unfolding create_server checked is_given check_args find_sockets open_hosts resolve_hosts hosts_of
    create_server_getaddrinfo ensure_resolved options bind_sockets open_some open_sockets
    open_socket create_failed set_up new_socket set_options bind_socket bind_failed drop_socket
    close_all close_one require_some set_nonblocking serve
create_server_run = refl

abbrev no_files : Exc → Bool
no_files (os_error n) = n == 24
no_files _ = false

abbrev listening : Listener ℕ
listening = record { watched = true; tasks = []; timers = 0; reported = []; closed = false }

abbrev arrivals : List (Result ℕ)
arrivals = ok 5 ∷ err connection_aborted ∷ ok 6 ∷ err blocking_io ∷ ok 7 ∷ []

accept_connection-Accepts_example :
    let seen = answered no_files 101 arrivals in
    Accepts no_files seen listening (accept_connection no_files 100 arrivals listening).1
    × (length seen ≤ 101)
    × ((accept_connection no_files 100 arrivals listening).0 ≡ outcome no_files 101 arrivals)
accept_connection-Accepts_example = accept_connection-Accepts no_files 100 arrivals listening

accept_connection_piles_up_example :
    (accept_connection no_files 100 (replicate 101 (err (os_error 24))) listening).1.timers ≡ 101
unfolding verdict
accept_connection_piles_up_example =
    accept_connection_piles_up no_files 100 (os_error 24) listening refl
