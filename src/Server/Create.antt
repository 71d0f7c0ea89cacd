-- ===== src/Server/Create.antt =====
-- `create_server` as a whole: its hosts are resolved, its sockets opened, and its server started. The
-- sockets of a server are listed newest first.
pub mod Served
use tokioop.Prelude.{
  ℕ, Bool, true, false, Option, none, some, List, [], ◌∷◌, ◌++◌, map, concat, is_empty, is_some,
  ◌||◌, if◌then◌else◌,
}
use tokioop.Python.{
  Exc, os_error, value_error, Result, ok, err, Method, pure, raise, modify, skip, when, raise_if,
  lift, ◌>>=◌, ◌>>◌,
}
use tokioop.Endpoint.{ensure_resolved}
use tokioop.Server.Bind
use tokioop.Server.Bind.{Attempt, Options, Sockets, Args, SslArg, check_args, bind_sockets}

abbrev pub Text : Type 0
Text = List ℕ

-- `host`: a string, any iterable but a string, or a thing that is neither, such as `None`.
pub data HostArg : Type 0 where
  text : Text → HostArg
  hosts : List (Option Text) → HostArg
  no_host : HostArg

pub record CreateArgs : Type 0 where
  pub ssl : SslArg
  pub handshake_timeout : Option ℕ
  pub shutdown_timeout : Option ℕ
  pub host : HostArg
  pub port : Option ℕ
  -- The socket that is given: its number, whether it is an SSL socket, and whether a stream socket.
  pub sock : Option (ℕ × Bool × Bool)
  pub reuse_address : Option Bool
  pub reuse_port : Bool
  pub keep_alive : Bool
  pub start_serving : Bool

-- What stands outside the code: name resolution, `gather`, the order of a set, the operating system,
-- and the standard library's `Server` with its `_start_serving` and the `sleep(0)` after it.
pub record Network (Info : Type 0) : Type 0 where
  pub ipaddr_info : Option Text → Option Info
  pub getaddrinfo : Option Text → Result (List Info)
  pub gather : List (Result (List Info)) → Result (List (List Info))
  pub to_set : List Info → List Info
  pub attempt : Info → Attempt
  pub errno : Exc → ℕ
  pub addrnotavail : ℕ
  pub close : ℕ → Result (Unit {0})
  -- `os.name == "posix" and sys.platform != "cygwin"`, and `_HAS_IPv6` with `IPPROTO_IPV6`.
  pub is_posix : Bool
  pub has_ipv6 : Bool
  pub setblocking : ℕ → Result (Unit {0})
  pub serve : Result (Unit {0})
  pub sleep : Result (Unit {0})

-- The sockets that `create_server` makes, and for each server the sockets that it holds.
pub record Site : Type 0 where
  pub socks : Sockets
  pub servers : List (List ℕ)

abbrev pub on_socks : {A : Type 0} → Method Sockets A → Method Site A
on_socks m s = let (r, t) = m s.socks in (r, record s { socks = t })

unfoldable pub is_given : HostArg → Bool
is_given no_host = false
is_given _ = true

-- The arguments as `check_args` reads them.
unfoldable pub checked : CreateArgs → Args
unfolding is_given
checked a = record {
  ssl = a.ssl;
  handshake_timeout = a.handshake_timeout;
  shutdown_timeout = a.shutdown_timeout;
  has_address = is_given a.host || is_some a.port;
  sock = elim a.sock [ none ↦ none | some (k, ssl, stream) ↦ some (ssl, stream) ];
}

-- The hosts to resolve; `None` stands for all interfaces.
unfoldable pub hosts_of : HostArg → List (Option Text)
hosts_of (text []) = none ∷ []
hosts_of (text (c ∷ cs)) = some (c ∷ cs) ∷ []
hosts_of no_host = none ∷ []
hosts_of (hosts l) = l

unfoldable pub create_server_getaddrinfo :
    {S Info : Type 0} → Option Info → Result (List Info) → Method S (List Info)
create_server_getaddrinfo numeric answer = do
  infos ← ensure_resolved numeric answer
  raise_if (is_empty infos) (os_error 0)
  pure infos

unfoldable pub given_socket : Option (ℕ × Bool × Bool) → Method Site (List ℕ)
given_socket none = raise value_error
given_socket (some (k, _, _)) = pure (k ∷ [])

module _ {Info : Type 0} (n : Network Info) where
  -- All hosts at once; the lookups leave the loop's state alone.
  unfoldable pub resolve_hosts : List (Option Text) → Method Site (List Info)
  resolve_hosts names s =
      let look : Option Text → Result (List Info) =
        λ h. (create_server_getaddrinfo (n.ipaddr_info h) (n.getaddrinfo h) s).0 in
      (lift (n.gather (map look names)) >>= λ infos. pure (n.to_set (concat infos))) s

  unfoldable pub options : CreateArgs → Options
  options a = record {
    reuse_address = elim a.reuse_address [ none ↦ n.is_posix | some b ↦ b ];
    reuse_port = a.reuse_port;
    keep_alive = a.keep_alive;
    has_ipv6 = n.has_ipv6;
  }

  unfoldable pub open_hosts : CreateArgs → Method Site (List ℕ)
  open_hosts a = do
    infos ← resolve_hosts (hosts_of a.host)
    on_socks (bind_sockets n.errno n.addrnotavail n.close (options a) (map n.attempt infos))
    λ s. (ok s.socks.sockets, s)

  -- `sockets`, after the checks.
  unfoldable pub find_sockets : CreateArgs → Method Site (List ℕ)
  find_sockets a = if (checked a).has_address then open_hosts a else given_socket a.sock

  -- From the oldest socket on.
  unfoldable pub set_nonblocking : List ℕ → Method Site (Unit {0})
  set_nonblocking [] = skip
  set_nonblocking (k ∷ ks) = do set_nonblocking ks; lift (n.setblocking k)

  unfoldable pub serve : CreateArgs → List ℕ → Method Site (List ℕ)
  serve a sockets = do
    modify (λ s. record s { servers = sockets ∷ s.servers })
    when a.start_serving (do lift n.serve; lift n.sleep)
    pure sockets

  -- It gives out the sockets of the new server.
  unfoldable pub create_server : CreateArgs → Method Site (List ℕ)
  create_server a = do
    on_socks (check_args (checked a))
    sockets ← find_sockets a
    set_nonblocking sockets
    serve a sockets
