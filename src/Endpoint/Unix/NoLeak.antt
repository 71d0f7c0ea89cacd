-- ===== src/Endpoint/Unix/NoLeak.antt =====
-- Which sockets `create_unix_connection` and `create_unix_server` leave open.
use tokioop.Prelude.{ℕ, ◌≡◌, sym, ap, ◌∙◌, ◌⊎◌, inl, true, false, ◌∷◌, arith, subst, is_some}
use tokioop.Python.{Result, ok, err, ◌>>◌, ◌>>=◌}
use tokioop.Endpoint.{Sys, open_socket, close_socket, in_use, Outside, create_connection_transport}
use tokioop.Endpoint.Made.{Made, create_connection_transport-Made, Opened, without-head}
use tokioop.Endpoint.Unix.{
  ConnectionArgs, Dial, check_connection_ssl, or_close, dial, connection_socket,
  create_unix_connection,
}

dial-Opened : (d : Dial) (y : Sys) → Opened y (dial d y)
unfolding dial open_socket or_close close_socket Opened
dial-Opened d y = ground (arith, without-head y.next y.live)

connection_socket-Opened :
    (d : Dial) (a : ConnectionArgs) (y : Sys)
    → is_some a.path ≡ true
    → Opened y (connection_socket d a y)
unfolding connection_socket Opened
connection_socket-Opened d a y h = ground (arith, dial-Opened d y)

-- How a connection to a path ends: with its transport; without any new socket; with a transport that
-- is closing, where the wait for it failed; or with a socket that nothing owns, where
-- `setblocking` or the protocol factory raised.
unfoldable pub Connected : Outside → Sys → Result ℕ × Sys → Type 0
Connected o y (ok k, t) =
    (k ≡ y.next) × (t.live ≡ k ∷ y.live) × (t.transports ≡ (k, false) ∷ y.transports)
Connected o y (err e, t) =
    ((t.live ≡ y.live) × (t.transports ≡ y.transports))
    ⊎ ((t.live ≡ y.next ∷ y.live)
        × (((o.waiter ≡ err e) × (t.transports ≡ (y.next, true) ∷ y.transports))
            ⊎ ((t.transports ≡ y.transports) × ((o.setblocking ≡ err e) ⊎ (o.factory ≡ err e)))))

Made-Connected :
    (o : Outside) (y t : Sys) (k : ℕ) (x : Result ℕ × Sys)
    → k ≡ y.next
    → t.live ≡ k ∷ y.live
    → t.transports ≡ y.transports
    → Made o k t x
    → Connected o y x
unfolding Made Connected
Made-Connected o y t k x n l r h = ground (arith, without-head k y.live)

Opened-Connected :
    (o : Outside) (y : Sys) (x : Result ℕ × Sys)
    → in_use y.next y.transports ≡ false
    → Opened y x
    → Connected o y (((λ (_ : Sys). x) >>= create_connection_transport o false) y)
unfolding Opened Connected
Opened-Connected o y (err e, t) free h = inl h
Opened-Connected o y (ok k, t) free (n, l, r) =
    Made-Connected o y t k (create_connection_transport o false k t) n l r (
      create_connection_transport-Made o k t
        (ap (λ j. in_use j t.transports) n ∙ ap (in_use y.next) r ∙ free))

checked-Connected :
    (d : Dial) (o : Outside) (a : ConnectionArgs) (y : Sys) (x : Result (Unit {0}) × Sys)
    → is_some a.path ≡ true
    → in_use y.next y.transports ≡ false
    → x.1 ≡ y
    → Connected o y
        (((λ (_ : Sys). x) >> (connection_socket d a >>= create_connection_transport o false)) y)
unfolding Connected
checked-Connected d o a y (err e, t) p free h =
    inl (ap (λ (s : Sys). s.live) h, ap (λ (s : Sys). s.transports) h)
checked-Connected d o a y (ok _, t) p free h =
    subst (λ s. Connected o y ((connection_socket d a >>= create_connection_transport o false) s))
      (sym h)
      (Opened-Connected o y (connection_socket d a y) free (connection_socket-Opened d a y p))

check_connection_ssl-same : (a : ConnectionArgs) (y : Sys) → (check_connection_ssl a y).1 ≡ y
unfolding check_connection_ssl
check_connection_ssl-same a y = ground arith

-- A UNIX connection to a path, without SSL: it gives out a new open socket with its transport; or it
-- leaves no socket behind; or, where waiting for the transport failed, the transport is closing;
-- or the socket stays open with no transport, and then `setblocking` or the protocol factory
-- raised what comes out. Where the transport's constructor raised, the socket is closed with it.
pub create_unix_connection-Connected :
    (d : Dial) (o : Outside) (a : ConnectionArgs) (y : Sys)
    → is_some a.path ≡ true
    → a.ssl ≡ false
    → in_use y.next y.transports ≡ false
    → Connected o y (create_unix_connection d o a y)
unfolding create_unix_connection
create_unix_connection-Connected d o a y p plain free =
    subst
      (λ ssl. Connected o y (
        (check_connection_ssl a >> (connection_socket d a >>= create_connection_transport o ssl))
          y))
      (sym plain)
      (checked-Connected d o a y (check_connection_ssl a y) p free (check_connection_ssl-same a y))
