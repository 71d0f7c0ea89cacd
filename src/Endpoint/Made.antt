-- ===== src/Endpoint/Made.antt =====
-- How the making of a transport ends: which sockets are open, and which transports hold them.
use tokioop.Prelude.{ap, inl, ◌∙◌, Bool, ℕ, ◌≡◌, ◌⊎◌, inr, true, false, List, ◌∷◌, arith}
use tokioop.Python.{Result, ok, err}
use tokioop.Endpoint.{
  Sys, without, fileobj_to_fd, in_use, check_no_transport, ensure_fd_no_transport, Outside,
  register_transport, unregister, drop_transport, make_transport, close_transport, await_waiter,
  start_transport, create_connection_transport,
}

-- How `start_transport` without SSL ends: where the constructor raised, the socket is closed.
unfoldable pub Started : Outside → ℕ → Sys → Result ℕ × Sys → Type 0
Started o k y (ok j, t) = (j ≡ k) × (t.live ≡ y.live) × (t.transports ≡ (k, false) ∷ y.transports)
Started o k y (err e, t) =
    ((t.live ≡ y.live) × (o.waiter ≡ err e) × (t.transports ≡ (k, true) ∷ y.transports))
    ⊎ ((t.live ≡ y.live) × (t.transports ≡ y.transports) × (o.factory ≡ err e))
    ⊎ ((t.live ≡ without k y.live) × (t.transports ≡ y.transports) × (o.constructor ≡ err e))

close-newest :
    (k : ℕ) (rest : List (ℕ × Bool)) → close_transport k ((k, false) ∷ rest) ≡ (k, true) ∷ rest
unfolding close_transport
close-newest k rest = ground arith

unregister-newest : (k : ℕ) (rest : List (ℕ × Bool)) → unregister k ((k, false) ∷ rest) ≡ rest
unfolding unregister
unregister-newest k rest = ground arith

pub start_transport-Started :
    (o : Outside) (k : ℕ) (y : Sys)
    → in_use k y.transports ≡ false
    → Started o k y (start_transport o false k y)
unfolding start_transport make_transport ensure_fd_no_transport fileobj_to_fd check_no_transport
    register_transport drop_transport await_waiter Started
start_transport-Started o k y free =
    ground (arith, close-newest k y.transports, unregister-newest k y.transports)

-- How `create_connection_transport` ends.
unfoldable pub Made : Outside → ℕ → Sys → Result ℕ × Sys → Type 0
Made o k y (ok j, t) = (j ≡ k) × (t.live ≡ y.live) × (t.transports ≡ (k, false) ∷ y.transports)
Made o k y (err e, t) =
    ((t.live ≡ y.live) × (o.waiter ≡ err e) × (t.transports ≡ (k, true) ∷ y.transports))
    ⊎ ((t.live ≡ y.live)
        × (t.transports ≡ y.transports)
        × ((o.setblocking ≡ err e) ⊎ (o.factory ≡ err e)))
    ⊎ ((t.live ≡ without k y.live) × (t.transports ≡ y.transports) × (o.constructor ≡ err e))

pub create_connection_transport-Made :
    (o : Outside) (k : ℕ) (y : Sys)
    → in_use k y.transports ≡ false
    → Made o k y (create_connection_transport o false k y)
unfolding create_connection_transport Started Made
create_connection_transport-Made o k y free = ground (arith, start_transport-Started o k y free)

-- A step that opens the socket of the endpoint, or fails and leaves no socket behind.
unfoldable pub Opened : Sys → Result ℕ × Sys → Type 0
Opened y (ok k, t) = (k ≡ y.next) × (t.live ≡ k ∷ y.live) × (t.transports ≡ y.transports)
Opened y (err e, t) = (t.live ≡ y.live) × (t.transports ≡ y.transports)

pub without-head : (k : ℕ) (ks : List ℕ) → without k (k ∷ ks) ≡ ks
unfolding without
without-head k ks = ground arith

-- How a connection ends for a socket of its own: with its transport; without any new socket; with a
-- transport that is closing, where the wait for it failed; or with a socket that nothing owns, where
-- `setblocking` or the protocol factory raised.
unfoldable pub Ended : Outside → Sys → Result ℕ × Sys → Type 0
Ended o y (ok k, t) = (t.live ≡ k ∷ y.live) × (t.transports ≡ (k, false) ∷ y.transports)
Ended o y (err e, t) =
    ((t.live ≡ y.live) × (t.transports ≡ y.transports))
    ⊎ ((k : ℕ) × (t.live ≡ k ∷ y.live)
        × (((o.waiter ≡ err e) × (t.transports ≡ (k, true) ∷ y.transports))
            ⊎ ((t.transports ≡ y.transports) × ((o.setblocking ≡ err e) ⊎ (o.factory ≡ err e)))))

pub Made-Ended :
    (o : Outside) (k : ℕ) (y t : Sys) (x : Result ℕ × Sys)
    → t.live ≡ k ∷ y.live
    → t.transports ≡ y.transports
    → Made o k t x
    → Ended o y x
unfolding Made Ended
Made-Ended o k y t (ok j, v) l r h = ground arith
Made-Ended o k y t (err e, v) l r (inl (h, w, q)) =
    inr (k, h ∙ l, inl (w, q ∙ ap (λ ts. (k, true) ∷ ts) r))
Made-Ended o k y t (err e, v) l r (inr (inl (h, q, w))) = inr (k, h ∙ l, inr (q ∙ r, w))
Made-Ended o k y t (err e, v) l r (inr (inr (h, q, w))) =
    inl (h ∙ ap (without k) l ∙ without-head k y.live, q ∙ r)
