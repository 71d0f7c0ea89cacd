-- ===== src/Endpoint/Tests.antt =====
-- The endpoints on concrete answers.
use tokioop.Prelude.{
  ◌≡◌, ◌≤◌, ◌==◌, if◌then◌else◌, refl, arith, true, false, none, some, [], ◌∷◌, ℕ, suc,
}
use tokioop.Python.{Exc, os_error, value_error, timeout_error, index_error, ok, err, skip}
use tokioop.Client.{Target}
use tokioop.Endpoint.{Sys, Outside, Stale, in_use}
use tokioop.Endpoint.Made.{Ended}
use tokioop.Endpoint.Unix.{
  ConnectionArgs, Dial, ServerArgs, Binding, no_ssl, create_unix_connection, create_unix_server,
  check_server_args,
}
use tokioop.Endpoint.Unix.NoLeak.{Connected, create_unix_connection-Connected}
use tokioop.Endpoint.Unix.Serving.{Served, create_unix_server-Served, create_unix_server_leaks}
use tokioop.Endpoint.Unix.Removal.{Removes, create_unix_server-Removes}
use tokioop.Endpoint.Datagram.{
  DatagramArgs, pair, nothing, Info, Entry, Attempt, enter_all, keep_entries,
  create_datagram_endpoint,
}
use tokioop.Endpoint.Datagram.Join.{find, count, expected, last_of, keep_entries-enter_all}
use tokioop.Endpoint.Datagram.NoLeak.{Settled, create_datagram_endpoint-Settled}
use tokioop.Endpoint.Connect.{ConnectArgs, Texts, create_connection, accept_connection2}
use tokioop.Endpoint.Connect.NoLeak.{create_connection-Ended}
use tokioop.Endpoint.Connect.Accepted.{Handled, accept_connection2-Handled}

-- One socket is open, and has a transport.
abbrev start : Sys
start = record {
  next = 4;
  live = 3 ∷ [];
  transports = (3, false) ∷ [];
  removed = [];
  logged = [];
  inodes = [];
  servers = [];
  reported = [];
}

start_fresh : (k : ℕ) → 4 ≤ k → in_use k start.transports ≡ false
unfolding in_use
start_fresh k h = ground arith

abbrev willing : Outside
willing = record {
  setblocking = ok tt;
  factory = ok tt;
  constructor = ok tt;
  secure = λ k. skip;
  waiter = ok tt;
}

-- The protocol factory raises.
abbrev unwilling : Outside
unwilling = record willing { factory = err value_error }

-- The wait for the transport is cut off.
abbrev hurried : Outside
hurried = record willing { waiter = err timeout_error }

abbrev reachable : Dial
reachable = record { create = ok tt; setblocking = ok tt; connect = ok tt; close = ok tt }

abbrev to_path : ConnectionArgs
to_path = record {
  path = some (ok (47 ∷ 97 ∷ []));
  ssl = false;
  sock = none;
  has_server_hostname = false;
  hostname_is_str = false;
  has_handshake_timeout = false;
  has_shutdown_timeout = false;
}

create_unix_connection-Connected_example :
    Connected unwilling start (create_unix_connection reachable unwilling to_path start)
create_unix_connection-Connected_example =
    create_unix_connection-Connected reachable unwilling to_path start refl refl
      (start_fresh 4 (omega arith))

abbrev stale : Stale
stale = record { stat = ok true; remove = ok tt }

abbrev bindable : Binding
bindable = record {
  create = ok tt;
  stale = stale;
  bind = ok tt;
  close = ok tt;
  getsockname = ok (47 ∷ 97 ∷ []);
  inode = err (os_error 13);
  setblocking = ok tt;
  serve = ok tt;
}

abbrev at_path : ServerArgs
at_path = record {
  path = some (ok (47 ∷ 97 ∷ []));
  sock = none;
  ssl = no_ssl;
  has_handshake_timeout = false;
  has_shutdown_timeout = false;
  start_serving = true;
  cleanup_socket = true;
}

abbrev at_no_path : ServerArgs
at_no_path = record at_path { path = some (ok []) }

abbrev number_of : Exc → ℕ
number_of (os_error n) = n
number_of _ = 0

create_unix_server-Served_example :
    Served bindable at_path start (create_unix_server number_of 98 bindable at_path start)
create_unix_server-Served_example =
    create_unix_server-Served number_of 98 bindable at_path start refl

at_no_path_checked : (check_server_args at_no_path start).0 ≡ ok tt
unfolding check_server_args
at_no_path_checked = refl

create_unix_server_leaks_example :
    create_unix_server number_of 98 bindable at_no_path start
    ≡ (err index_error, record start { next = suc 4; live = 4 ∷ 3 ∷ [] })
create_unix_server_leaks_example =
    create_unix_server_leaks number_of 98 bindable at_no_path start at_no_path_checked refl refl
      refl

create_unix_server-Removes_example :
    Removes bindable at_path start (create_unix_server number_of 98 bindable at_path start).1
create_unix_server-Removes_example = create_unix_server-Removes number_of 98 bindable at_path start

abbrev info : ℕ → ℕ → Info
info family address = record { family = family; proto = 17; address = address }

keep_entries-enter_all_example :
    let locals = info 2 1 ∷ info 10 2 ∷ info 2 3 ∷ [] in
    let remotes = info 2 4 ∷ [] in
    let pairs =
      keep_entries (pair 1) (pair 2) (enter_all false remotes (enter_all true locals [])) in
    (find 2 17 pairs ≡ expected (pair 1) (pair 2) 2 17 (last_of 2 17 locals) (last_of 2 17 remotes))
    × (count 2 17 pairs ≤ 1)
keep_entries-enter_all_example =
    keep_entries-enter_all 2 17 (pair 1) (pair 2) (info 2 1 ∷ info 10 2 ∷ info 2 3 ∷ [])
      (info 2 4 ∷ [])

-- The first local address cannot be bound.
abbrev attempts : Entry → Attempt
attempts n = record {
  create = ok tt;
  reuse_port = ok tt;
  broadcast = ok tt;
  setblocking = ok tt;
  bind = if n.family == 2 then err (os_error 98) else ok tt;
  connect = ok tt;
  close = ok tt;
}

abbrev datagram : DatagramArgs
datagram = record {
  local_addr = pair 1;
  remote_addr = nothing;
  family = 0;
  proto = 0;
  flags = 0;
  reuse_port = false;
  allow_broadcast = false;
  sock = none;
}

create_datagram_endpoint-Settled_example : Settled hurried start (
    create_datagram_endpoint
      (λ a n. none)
      (λ a n. ok (info 2 1 ∷ info 10 2 ∷ []))
      (some 1)
      hurried
      stale
      attempts
      datagram
      start)
create_datagram_endpoint-Settled_example =
    create_datagram_endpoint-Settled (λ a n. none) (λ a n. ok (info 2 1 ∷ info 10 2 ∷ [])) (some 1)
      hurried stale attempts datagram start refl start_fresh

abbrev texts : Texts
texts = record {
  errno = number_of;
  same = λ x y. true;
  group_of = λ es. value_error;
  empty_group_error = value_error;
  interleaved = λ targets n. targets;
}

abbrev refuses : Target
refuses = record { create = ok tt; locals = none; connect = err (os_error 111); close = ok tt }

abbrev answers : Target
answers = record refuses { connect = ok tt }

abbrev to_host : ConnectArgs
to_host = record {
  host = some true;
  has_port = true;
  ssl = false;
  sock = none;
  has_local_addr = false;
  has_server_hostname = false;
  has_handshake_timeout = false;
  has_shutdown_timeout = false;
  interleave = none;
  all_errors = false;
}

create_connection-Ended_example :
    Ended willing start
      (create_connection texts (ok (refuses ∷ answers ∷ [])) (ok true) willing to_host start)
create_connection-Ended_example =
    create_connection-Ended texts (ok (refuses ∷ answers ∷ [])) (ok true) willing to_host start refl
      refl start_fresh

accept_connection2-Handled_example :
    Handled true hurried 4 start (accept_connection2 true hurried false 4 start)
accept_connection2-Handled_example =
    accept_connection2-Handled true hurried 4 start (start_fresh 4 (omega arith))
