-- ===== src/Endpoint/Datagram.antt =====
-- `create_datagram_endpoint` of python/tokioop/loop.py: its checks, the joining of the resolved
-- addresses by family and protocol, and the attempts to open a socket.
pub mod Join
pub mod Tried
pub mod NoLeak
use tokioop.Prelude.{
  ℕ, suc, Bool, true, false, not, ◌&&◌, ◌||◌, Option, none, some, List, [], ◌∷◌, ◌++◌, ◌==◌,
  is_some, is_empty, if◌then◌else◌,
}
use tokioop.Python.{
  Exc, os_error, type_error, value_error, index_error, is_os_error, Result, ok, err, Method, pure,
  raise, skip, when, raise_if, lift, try_else, ◌>>=◌, ◌>>◌,
}
use tokioop.Endpoint.{
  Sys, open_socket, close_socket, Outside, start_transport, ensure_resolved, Stale, remove_stale,
}

-- An address for the operating system.
pub data Address : Type 0 where
  sockaddr : ℕ → Address
  path : List ℕ → Address

-- An address as it is given: none, a pair of host and port, a string, or any other object with its
-- truth value.
pub data AddressArg : Type 0 where
  nothing : AddressArg
  pair : ℕ → AddressArg
  text : List ℕ → AddressArg
  odd : Bool → AddressArg

abbrev pub is_truthy : AddressArg → Bool
is_truthy nothing = false
is_truthy (pair n) = true
is_truthy (text cs) = not (is_empty cs)
is_truthy (odd b) = b

abbrev is_text : AddressArg → Bool
is_text nothing = true
is_text (text cs) = true
is_text _ = false

abbrev address_of : AddressArg → Option Address
address_of (text cs) = some (path cs)
address_of _ = none

pub record DatagramArgs : Type 0 where
  pub local_addr : AddressArg
  pub remote_addr : AddressArg
  pub family : ℕ
  pub proto : ℕ
  pub flags : ℕ
  pub reuse_port : Bool
  pub allow_broadcast : Bool
  -- The socket that is given, and whether it is a stream socket.
  pub sock : Option (ℕ × Bool)

-- What `getaddrinfo` tells of an address.
pub record Info : Type 0 where
  pub family : ℕ
  pub proto : ℕ
  pub address : ℕ

-- An item of `addr_infos`.
pub record Entry : Type 0 where
  pub family : ℕ
  pub proto : ℕ
  pub local_address : Option Address
  pub remote_address : Option Address

unfoldable pub is_key : Info → Entry → Bool
is_key i n = (n.family == i.family) && (n.proto == i.proto)

-- The entry's address of the given side, which is local or remote.
unfoldable pub put : Bool → Info → Entry → Entry
put true i n = record n { local_address = some (sockaddr i.address) }
put false i n = record n { remote_address = some (sockaddr i.address) }

unfoldable pub new_entry : Info → Entry
new_entry i = record {
  family = i.family;
  proto = i.proto;
  local_address = none;
  remote_address = none;
}

-- One round of the inner loop; the dictionary keeps the order of its keys.
unfoldable pub enter : Bool → Info → List Entry → List Entry
enter side i [] = put side i (new_entry i) ∷ []
enter side i (n ∷ rest) =
    let others = enter side i rest in if is_key i n then put side i n ∷ rest else n ∷ others

unfoldable pub enter_all : Bool → List Info → List Entry → List Entry
enter_all side [] entries = entries
enter_all side (i ∷ infos) entries = enter_all side infos (enter side i entries)

-- "each addr has to have info for each (family, proto) pair"
unfoldable pub has_info : AddressArg → AddressArg → Entry → Bool
has_info l r n = not (
    (is_truthy l && not (is_some n.local_address))
    || (is_truthy r && not (is_some n.remote_address)))

unfoldable pub keep_entries : AddressArg → AddressArg → List Entry → List Entry
keep_entries l r [] = []
keep_entries l r (n ∷ rest) =
    let others = keep_entries l r rest in if has_info l r n then n ∷ others else others

unfoldable pub remove_local : Stale → AddressArg → Method Sys (Unit {0})
remove_local b (text (c ∷ cs)) = when (not (c == 0)) (remove_stale b (c ∷ cs))
remove_local b _ = skip

-- The entries that can be tried, of which there is to be one.
unfoldable pub usable_entries : DatagramArgs → List Info → List Info → Method Sys (List Entry)
usable_entries a locals remotes = do
  let entries =
      keep_entries a.local_addr a.remote_addr (enter_all false remotes (enter_all true locals []))
  raise_if (is_empty entries) value_error
  pure entries

-- The numeric addresses that `_ipaddr_info` reads, and what `getaddrinfo` answers.
module _ (ipaddr_info : DatagramArgs → ℕ → Option Info)
    (getaddrinfo : DatagramArgs → ℕ → Result (List Info)) where
  unfoldable pub resolve : DatagramArgs → AddressArg → Method Sys (List Info)
  resolve a nothing = pure []
  resolve a (text cs) = raise type_error
  resolve a (odd b) = raise type_error
  resolve a (pair n) = do
    infos ← ensure_resolved (ipaddr_info a n) (getaddrinfo a n)
    raise_if (is_empty infos) (os_error 0)
    pure infos

  -- "join address by (family, protocol)"
  unfoldable pub join_addresses : DatagramArgs → Method Sys (List Entry)
  join_addresses a = do
    locals ← resolve a a.local_addr
    remotes ← resolve a a.remote_addr
    usable_entries a locals remotes

  -- The operating system's `AF_UNIX`, where it has one.
  module _ (af_unix : Option ℕ) where
    -- The addresses to try, `addr_pairs_info`.
    unfoldable pub address_pairs : Stale → DatagramArgs → Method Sys (List Entry)
    address_pairs b a =
        if not (is_truthy a.local_addr || is_truthy a.remote_addr)
        then (do
          raise_if (a.family == 0) value_error
          pure (
              record {
                family = a.family;
                proto = a.proto;
                local_address = none;
                remote_address = none;
              }
              ∷ []))
        else if elim af_unix [ none ↦ false | some u ↦ a.family == u ]
        then (do
          raise_if (not (is_text a.local_addr)) type_error
          raise_if (not (is_text a.remote_addr)) type_error
          remove_local b a.local_addr
          pure (
              record {
                family = a.family;
                proto = a.proto;
                local_address = address_of a.local_addr;
                remote_address = address_of a.remote_addr;
              }
              ∷ []))
        else join_addresses a

-- What the operating system answers to the calls of one attempt, in their order.
pub record Attempt : Type 0 where
  pub create : Result (Unit {0})
  pub reuse_port : Result (Unit {0})
  pub broadcast : Result (Unit {0})
  pub setblocking : Result (Unit {0})
  pub bind : Result (Unit {0})
  pub connect : Result (Unit {0})
  pub close : Result (Unit {0})

-- The options of the attempts: which of the arguments are truthy.
pub record Options : Type 0 where
  pub reuse_port : Bool
  pub allow_broadcast : Bool
  pub has_local : Bool
  pub has_remote : Bool

-- What is done with a socket that was made; it gives out `r_addr`.
unfoldable pub set_up : Options → Attempt → Entry → Method Sys (Option Address)
set_up o a n = do
  when o.reuse_port (lift a.reuse_port)
  when o.allow_broadcast (lift a.broadcast)
  lift a.setblocking
  when o.has_local (lift a.bind)
  if o.has_remote
      then (do when (not o.allow_broadcast) (lift a.connect); pure n.remote_address)
      else pure none

-- `raise exceptions[0]`
unfoldable pub raise_first : {A : Type 0} → List Exc → Method Sys A
raise_first [] = raise index_error
raise_first (e ∷ es) = raise e

-- The loop over the addresses, with the exceptions so far.
unfoldable pub open_endpoint :
    Options → (Entry → Attempt) → List Entry → List Exc → Method Sys (ℕ × Option Address)
open_endpoint o answers [] exceptions = raise_first exceptions
open_endpoint o answers (n ∷ rest) exceptions =
    let next = open_endpoint o answers rest in
    let a = answers n in
    try_else (open_socket a.create)
      (λ e. if is_os_error e then next (exceptions ++ e ∷ []) else raise e)
      (λ k.
        try_else (set_up o a n)
          (λ e. do
            close_socket a.close k
            if is_os_error e then next (exceptions ++ e ∷ []) else raise e)
          (λ r_addr. pure (k, r_addr)))

abbrev options_of : DatagramArgs → Options
options_of a = record {
  reuse_port = a.reuse_port;
  allow_broadcast = a.allow_broadcast;
  has_local = is_truthy a.local_addr;
  has_remote = is_truthy a.remote_addr;
}

-- Whether any argument is given that does not go with a socket.
abbrev has_modifier : DatagramArgs → Bool
has_modifier a =
    is_truthy a.local_addr
    || is_truthy a.remote_addr
    || not (a.family == 0)
    || not (a.proto == 0)
    || not (a.flags == 0)
    || a.reuse_port
    || a.allow_broadcast

module _ (ipaddr_info : DatagramArgs → ℕ → Option Info)
    (getaddrinfo : DatagramArgs → ℕ → Result (List Info)) (af_unix : Option ℕ) where
  -- The socket of the endpoint: the given one, or the first that can be opened.
  unfoldable pub endpoint_socket :
      Result (Unit {0}) → Stale → (Entry → Attempt) → DatagramArgs → Method Sys (ℕ × Option Address)
  endpoint_socket setblocking b answers a = elim a.sock [
    | some (k, is_stream) ↦ (do
      raise_if is_stream value_error
      raise_if (has_modifier a) value_error
      lift setblocking
      pure (k, none))
    | none ↦ (do
      pairs ← address_pairs ipaddr_info getaddrinfo af_unix b a
      open_endpoint (options_of a) answers pairs [])
  ]

  unfoldable pub create_datagram_endpoint :
      Outside → Stale → (Entry → Attempt) → DatagramArgs → Method Sys (ℕ × Option Address)
  create_datagram_endpoint o b answers a = do
    (k, r_addr) ← endpoint_socket o.setblocking b answers a
    _ ← start_transport o false k
    pure (k, r_addr)
