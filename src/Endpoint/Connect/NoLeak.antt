-- ===== src/Endpoint/Connect/NoLeak.antt =====
-- Which sockets `create_connection` leaves open.
use tokioop.Prelude.{
  ℕ, ◌≤◌, ◌≡◌, refl, sym, ap, ◌∙◌, inl, Bool, true, false, ◌||◌, List, ◌∷◌, arith, subst, is_some,
}
use tokioop.Python.{Result, ok, err, ◌>>◌, ◌>>=◌}
use tokioop.Client.{Target, try_targets}
use tokioop.Client.NoLeak.{Tried, try_targets-Tried}
use tokioop.Endpoint.{Sys, in_use, Outside, create_connection_transport}
use tokioop.Endpoint.Made.{create_connection_transport-Made, Ended, Made-Ended}
use tokioop.Endpoint.Connect.{
  ConnectArgs, check_connect_args, client_of, back, Texts, connect_targets, order_targets,
  resolve_and_connect, connected_socket, create_connection,
}

unfoldable Opened : Sys → Result ℕ × Sys → Type 0
Opened y (ok k, t) = (t.live ≡ k ∷ y.live) × (y.next ≤ k) × (t.transports ≡ y.transports)
Opened y (err e, t) = (t.live ≡ y.live) × (t.transports ≡ y.transports)

check_connect_args-same : (a : ConnectArgs) (y : Sys) → (check_connect_args a y).1 ≡ y
unfolding check_connect_args
check_connect_args-same a y = ground arith

module _ (x : Texts) where
  Tried-Opened :
      (all_errors : Bool) (targets : List Target) (y : Sys)
      → Tried x.errno targets (client_of y) (try_targets x.errno targets (client_of y))
      → Opened y (connect_targets x all_errors targets y)
  unfolding Tried Opened connect_targets client_of back
  Tried-Opened all_errors targets y h = ground (arith, h)

  connect_targets-Opened :
      (all_errors : Bool) (targets : List Target) (y : Sys)
      → Opened y (connect_targets x all_errors targets y)
  connect_targets-Opened all_errors targets y =
      Tried-Opened all_errors targets y (try_targets-Tried x.errno targets (client_of y))

  resolve_and_connect-Opened :
      (infos : Result (List Target)) (laddr_infos : Result Bool) (a : ConnectArgs) (y : Sys)
      → Opened y (resolve_and_connect x infos laddr_infos a y)
  unfolding Opened resolve_and_connect
  resolve_and_connect-Opened (err e) laddr_infos a y = (refl, refl)
  resolve_and_connect-Opened (ok targets) laddr_infos a y =
      ground (arith, connect_targets-Opened a.all_errors (order_targets x a.interleave targets) y)

  connected_socket-Opened :
      (infos : Result (List Target)) (laddr_infos : Result Bool) (a : ConnectArgs) (y : Sys)
      → is_some a.host || a.has_port ≡ true
      → Opened y (connected_socket x infos laddr_infos a y)
  unfolding Opened connected_socket
  connected_socket-Opened infos laddr_infos a y h =
      ground (arith, resolve_and_connect-Opened infos laddr_infos a y)

  module _ (o : Outside) (y : Sys)
      (fresh : (k : ℕ) → y.next ≤ k → in_use k y.transports ≡ false) where
    Opened-Ended :
        (z : Result ℕ × Sys)
        → Opened y z
        → Ended o y (((λ (_ : Sys). z) >>= create_connection_transport o false) y)
    unfolding Opened Ended
    Opened-Ended (err e, t) h = inl h
    Opened-Ended (ok k, t) (l, n, r) =
        Made-Ended o k y t (create_connection_transport o false k t) l r
          (create_connection_transport-Made o k t (ap (in_use k) r ∙ fresh k n))

    checked-Ended :
        (infos : Result (List Target)) (laddr_infos : Result Bool) (a : ConnectArgs)
        (z : Result (Unit {0}) × Sys)
        → is_some a.host || a.has_port ≡ true
        → z.1 ≡ y
        → Ended o y (
            ((λ (_ : Sys). z)
                >> (connected_socket x infos laddr_infos a >>= create_connection_transport o false))
              y)
    unfolding Ended
    checked-Ended infos laddr_infos a (err e, t) p h =
        inl (ap (λ (s : Sys). s.live) h, ap (λ (s : Sys). s.transports) h)
    checked-Ended infos laddr_infos a (ok _, t) p h =
        subst
          (λ s.
            Ended o y
              ((connected_socket x infos laddr_infos a >>= create_connection_transport o false) s))
          (sym h)
          (Opened-Ended (connected_socket x infos laddr_infos a y)
            (connected_socket-Opened infos laddr_infos a y p))

  -- `create_connection` to a host or port, without happy eyeballs and SSL, where no descriptor yet to
  -- come has a transport: it gives out one new open socket with its transport and closes those of the
  -- attempts before; or it leaves no socket behind; or, where waiting for the transport failed, the
  -- transport is closing; or the socket stays open with no transport, and then `setblocking` or the
  -- protocol factory raised what comes out. Where the transport's constructor raised, the socket is
  -- closed with it.
  pub create_connection-Ended :
      (infos : Result (List Target)) (laddr_infos : Result Bool) (o : Outside) (a : ConnectArgs)
      (y : Sys)
      → is_some a.host || a.has_port ≡ true
      → a.ssl ≡ false
      → ((k : ℕ) → y.next ≤ k → in_use k y.transports ≡ false)
      → Ended o y (create_connection x infos laddr_infos o a y)
  unfolding create_connection
  create_connection-Ended infos laddr_infos o a y p plain fresh =
      subst
        (λ ssl. Ended o y (
          (check_connect_args a
              >> (connected_socket x infos laddr_infos a >>= create_connection_transport o ssl))
            y))
        (sym plain)
        (checked-Ended o y fresh infos laddr_infos a (check_connect_args a y) p
          (check_connect_args-same a y))
