-- ===== src/Endpoint/Datagram/NoLeak.antt =====
-- Which sockets `create_datagram_endpoint` leaves open.
use tokioop.Prelude.{
  ℕ, ◌≤◌, ◌≡◌, ap, ◌∙◌, true, false, Option, none, List, [], ◌∷◌, arith, inl, inr, ◌⊎◌,
}
use tokioop.Python.{Result, ok, err, Method, pure, ◌>>=◌}
use tokioop.Python.Rules.{bind_result}
use tokioop.Endpoint.{
  Sys, in_use, without, Outside, Stale, start_transport, remove_stale, remove_file, unremoved,
  ensure_resolved,
}
use tokioop.Endpoint.Made.{Started, start_transport-Started, without-head}
use tokioop.Endpoint.Datagram.{
  Address, AddressArg, nothing, pair, text, odd, usable_entries, DatagramArgs, Info, Entry, resolve,
  join_addresses, remove_local, address_pairs, Attempt, Options, open_endpoint, options_of,
  endpoint_socket, create_datagram_endpoint,
}
use tokioop.Endpoint.Datagram.Tried.{Endpoint, Endpoint-later, open_endpoint-Endpoint}

-- What the steps before the sockets keep.
record SameSockets (y t : Sys) : Type 0 where
  next_same : t.next ≡ y.next
  live_same : t.live ≡ y.live
  transports_same : t.transports ≡ y.transports

remove_stale-Same : (b : Stale) (p : List ℕ) (y : Sys) → SameSockets y (remove_stale b p y).1
unfolding remove_stale remove_file unremoved
remove_stale-Same b p y = ground arith

-- How `create_datagram_endpoint` ends for a socket of its own: with its transport; without any new
-- socket; with a transport that is closing, where the wait for it failed; or with a socket that
-- nothing owns, where the protocol factory raised.
unfoldable pub Settled : Outside → Sys → Result (ℕ × Option Address) × Sys → Type 0
Settled o y (ok (k, r_addr), t) = (t.live ≡ k ∷ y.live) × (t.transports ≡ (k, false) ∷ y.transports)
Settled o y (err e, t) =
    ((t.live ≡ y.live) × (t.transports ≡ y.transports))
    ⊎ ((k : ℕ) × (t.live ≡ k ∷ y.live)
        × (((o.waiter ≡ err e) × (t.transports ≡ (k, true) ∷ y.transports))
            ⊎ ((t.transports ≡ y.transports) × (o.factory ≡ err e))))

Started-Settled :
    (o : Outside) (k : ℕ) (r_addr : Option Address) (y t : Sys) (x : Result ℕ × Sys)
    → t.live ≡ k ∷ y.live
    → t.transports ≡ y.transports
    → Started o k t x
    → Settled o y (((λ (_ : Sys). x) >>= (λ _. pure (k, r_addr))) t)
unfolding Started Settled
Started-Settled o k r_addr y t (ok j, v) l r h = ground arith
Started-Settled o k r_addr y t (err e, v) l r (inl (h, w, q)) =
    inr (k, h ∙ l, inl (w, q ∙ ap (λ ts. (k, true) ∷ ts) r))
Started-Settled o k r_addr y t (err e, v) l r (inr (inl (h, q, w))) = inr (k, h ∙ l, inr (q ∙ r, w))
Started-Settled o k r_addr y t (err e, v) l r (inr (inr (h, q, w))) =
    inl (h ∙ ap (without k) l ∙ without-head k y.live, q ∙ r)

-- The step from the socket to its transport.
abbrev finish : Outside → ℕ × Option Address → Method Sys (ℕ × Option Address)
finish o (k, r_addr) = do _ ← start_transport o false k; pure (k, r_addr)

IsFresh : Sys → Type 0
IsFresh y = (k : ℕ) → y.next ≤ k → in_use k y.transports ≡ false

opened-Settled :
    (o : Outside) (y : Sys) (x : Result (ℕ × Option Address) × Sys)
    → IsFresh y
    → Endpoint y x
    → Settled o y (((λ (_ : Sys). x) >>= finish o) y)
unfolding Endpoint Settled IsFresh
opened-Settled o y (err e, t) fresh h = inl h
opened-Settled o y (ok (k, r_addr), t) fresh (n, l, r) =
    Started-Settled o k r_addr y t (start_transport o false k t) l r
      (start_transport-Started o k t (ap (in_use k) r ∙ fresh k n))

remove_local-Same : (b : Stale) (g : AddressArg) (y : Sys) → SameSockets y (remove_local b g y).1
unfolding remove_local
remove_local-Same b (text []) y = ground arith
remove_local-Same b (text (c ∷ cs)) y = ground (arith, remove_stale-Same b (c ∷ cs) y)
remove_local-Same b nothing y = ground arith
remove_local-Same b (pair n) y = ground arith
remove_local-Same b (odd t) y = ground arith

usable_entries-same :
    (a : DatagramArgs) (locals remotes : List Info) (y : Sys)
    → (usable_entries a locals remotes y).1 ≡ y
unfolding usable_entries
usable_entries-same a locals remotes y = ground arith

module _ (ipaddr_info : DatagramArgs → ℕ → Option Info)
    (getaddrinfo : DatagramArgs → ℕ → Result (List Info)) where
  resolve-same :
      (a : DatagramArgs) (g : AddressArg) (y : Sys) → (resolve ipaddr_info getaddrinfo a g y).1 ≡ y
  unfolding resolve ensure_resolved
  resolve-same a g y = ground arith

  abbrev join_remotes : DatagramArgs → List Info → Method Sys (List Entry)
  join_remotes a locals = do
    remotes ← resolve ipaddr_info getaddrinfo a a.remote_addr
    usable_entries a locals remotes

  join_remotes-same :
      (a : DatagramArgs) (locals : List Info) (y : Sys) → (join_remotes a locals y).1 ≡ y
  join_remotes-same a locals y =
      bind_result (λ t. t ≡ y) (usable_entries a locals)
        (resolve ipaddr_info getaddrinfo a a.remote_addr y)
        (λ remotes h.
          usable_entries-same a locals remotes (resolve ipaddr_info getaddrinfo a a.remote_addr y).1
          ∙ h)
        (resolve-same a a.remote_addr y)

  join_addresses-same :
      (a : DatagramArgs) (y : Sys) → (join_addresses ipaddr_info getaddrinfo a y).1 ≡ y
  unfolding join_addresses
  join_addresses-same a y =
      bind_result (λ t. t ≡ y) (join_remotes a) (resolve ipaddr_info getaddrinfo a a.local_addr y)
        (λ locals h.
          join_remotes-same a locals (resolve ipaddr_info getaddrinfo a a.local_addr y).1 ∙ h)
        (resolve-same a a.local_addr y)

  module _ (af_unix : Option ℕ) where
    address_pairs-Same :
        (b : Stale) (a : DatagramArgs) (y : Sys)
        → SameSockets y (address_pairs ipaddr_info getaddrinfo af_unix b a y).1
    unfolding address_pairs
    address_pairs-Same b a y =
        ground (arith, join_addresses-same a y, remove_local-Same b a.local_addr y)

    paired-Endpoint :
        (o : Options) (answers : Entry → Attempt) (y : Sys) (x : Result (List Entry) × Sys)
        → SameSockets y x.1
        → Endpoint y (((λ (_ : Sys). x) >>= (λ pairs. open_endpoint o answers pairs [])) y)
    unfolding Endpoint
    paired-Endpoint o answers y (err e, t) same = (same.live_same, same.transports_same)
    paired-Endpoint o answers y (ok pairs, t) same =
        Endpoint-later y t (open_endpoint o answers pairs [] t) (omega (arith, same.next_same))
          same.live_same same.transports_same (open_endpoint-Endpoint o answers pairs [] t)

    endpoint_socket-Endpoint :
        (answer : Result (Unit {0})) (b : Stale) (answers : Entry → Attempt) (a : DatagramArgs)
        (y : Sys)
        → a.sock ≡ none
        → Endpoint y (endpoint_socket ipaddr_info getaddrinfo af_unix answer b answers a y)
    unfolding endpoint_socket
    endpoint_socket-Endpoint answer b answers a y h =
        let c = record a { sock = none } in
        rw h (
          paired-Endpoint (options_of c) answers y
            (address_pairs ipaddr_info getaddrinfo af_unix b c y) (address_pairs-Same b c y))

    -- `create_datagram_endpoint` without a given socket, where no descriptor yet to come has a
    -- transport: it gives out one new open socket with its transport and closes those of the
    -- attempts before; or it leaves no socket behind; or, where waiting for the transport failed,
    -- the transport is closing; or the socket stays open with no transport, and then the protocol
    -- factory raised what comes out. Where the transport's constructor raised, the socket is closed
    -- with it.
    pub create_datagram_endpoint-Settled :
        (o : Outside) (b : Stale) (answers : Entry → Attempt) (a : DatagramArgs) (y : Sys)
        → a.sock ≡ none
        → ((k : ℕ) → y.next ≤ k → in_use k y.transports ≡ false)
        → Settled o y (create_datagram_endpoint ipaddr_info getaddrinfo af_unix o b answers a y)
    unfolding create_datagram_endpoint IsFresh
    create_datagram_endpoint-Settled o b answers a y h fresh =
        opened-Settled o y
          (endpoint_socket ipaddr_info getaddrinfo af_unix o.setblocking b answers a y) fresh
          (endpoint_socket-Endpoint o.setblocking b answers a y h)
