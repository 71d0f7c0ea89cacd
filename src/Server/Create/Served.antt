-- ===== src/Server/Create/Served.antt =====
-- How `create_server` ends.
use tokioop.Prelude.{
  ◌∙◌, ℕ, ◌≡◌, refl, sym, ap, ◌⊎◌, inl, inr, Bool, true, false, Option, none, some, List, [], ◌∷◌,
  arith, is_empty, subst, map, concat, Bool-cases,
}
use tokioop.Python.{Exc, Result, ok, err, Method, lift, when, pure, ◌>>=◌, ◌>>◌}
use tokioop.Server.Bind.{Sockets, Args, check_args, bind_sockets}
use tokioop.Server.Bind.NoLeak.{Closes, Accounted, none_made, Settled, bind_sockets-Settled}
use tokioop.Server.Create.{
  Text, CreateArgs, Network, Site, on_socks, checked, hosts_of, create_server_getaddrinfo,
  resolve_hosts, options, open_hosts, given_socket, find_sockets, set_nonblocking, serve,
  create_server,
}

-- The sockets that a server is made for: all that are open of those that were made, or the given one.
Source : CreateArgs → Site → List ℕ → Type 0
Source a t l =
    (l ≡ t.socks.sockets)
    ⊎ ((t.socks.sockets ≡ [])
        × (k : ℕ) × (b : Bool × Bool) × (a.sock ≡ some (k, b.0, b.1))
        × (l ≡ k ∷ []))

-- Each socket that was made is open or closed, and not both.
record Same (s t : Site) : Type 0 where
  accounted : Accounted t.socks
  servers_same : t.servers ≡ s.servers

Found : CreateArgs → Site → Result (List ℕ) × Site → Type 0
unfolding Source
Found a s (ok l, t) = Same s t × (is_empty l ≡ false) × Source a t l
Found a s (err e, t) = Same s t × (t.socks.sockets ≡ [])

-- The start: no socket is made yet.
pub record IsFresh (s : Site) : Type 0 where
  pub none_made : s.socks.next ≡ 0
  pub none_open : s.socks.sockets ≡ []
  pub none_closed : s.socks.closed ≡ []

Result-cases : (r : Result (Unit {0})) → (r ≡ ok tt) ⊎ ((e : Exc) × (r ≡ err e))
Result-cases (ok _) = inl refl
Result-cases (err e) = inr (e, refl)

starting :
    (b : Bool) (p q : Result (Unit {0})) (u : Site)
    → (when b (do lift p; lift q) u ≡ (ok tt, u))
      ⊎ ((e : Exc) × (when b (do lift p; lift q) u ≡ (err e, u)) × ((p ≡ err e) ⊎ (q ≡ err e)))
starting false p q u = inl refl
starting true (err e) q u = inr (e, refl, inl refl)
starting true (ok _) (err e) u = inr (e, refl, inr refl)
starting true (ok _) (ok _) u = inl refl

lifted :
    {A B : Type 0} (r : Result A) (f : A → B) (s : Site)
    → (x : Result B) × ((lift r >>= λ v. pure (f v)) s ≡ (x, s))
lifted (ok v) f s = (ok (f v), refl)
lifted (err e) f s = (err e, refl)

module _ {Info : Type 0} (n : Network Info) (a : CreateArgs) where
  -- It ends with a new server, which holds the open sockets; or with all its sockets closed and no
  -- server; or because a socket was not to be made non-blocking; or because serving failed.
  unfoldable pub Served : Site → Result (List ℕ) × Site → Type 0
  unfolding Source
  Served s (ok l, t) =
      Accounted t.socks × (is_empty l ≡ false) × Source a t l × (t.servers ≡ l ∷ s.servers)
  Served s (err e, t) =
      Accounted t.socks
      × (((t.servers ≡ s.servers) × (t.socks.sockets ≡ []))
          ⊎ ((t.servers ≡ s.servers) × (k : ℕ) × (n.setblocking k ≡ err e))
          ⊎ ((l : List ℕ) × (t.servers ≡ l ∷ s.servers)
              × Source a t l
              × ((n.serve ≡ err e) ⊎ (n.sleep ≡ err e))))

  opened :
      (s t : Site) (x : Result (Unit {0}) × Sockets)
      → t.servers ≡ s.servers
      → Settled x
      → Found a s ((on_socks (λ _. x) >> λ v. (ok v.socks.sockets, v)) t)
  unfolding Found Source
  opened s t (ok _, y) e h = (
    record { accounted = h.0; servers_same = e },
    elim (h.1) [ inl fine ↦ fine.1 | inr failed ↦ absurd (let c = failed.0.1 in cc) ],
    inl refl,
  )
  opened s t (err x, y) e h = (
    record { accounted = h.0; servers_same = e },
    elim (h.1) [ inl fine ↦ absurd (let c = fine.0 in cc) | inr failed ↦ failed.1 ],
  )

  abbrev names : List (Option Text)
  names = hosts_of a.host

  abbrev bind_all : List Info → Method Site (List ℕ)
  bind_all infos =
      on_socks (bind_sockets n.errno n.addrnotavail n.close (options n a) (map n.attempt infos))
      >> λ v. (ok v.socks.sockets, v)

  resolve_hosts-same : (s : Site) → (r : Result (List Info)) × (resolve_hosts n names s ≡ (r, s))
  unfolding resolve_hosts
  resolve_hosts-same s =
      lifted
        (n.gather
          (map (λ h. (create_server_getaddrinfo (n.ipaddr_info h) (n.getaddrinfo h) s).0) names))
        (λ infos. n.to_set (concat infos)) s

  IsFresh-Same : (s : Site) → IsFresh s → Same s s
  IsFresh-Same s f = record {
    accounted = none_made s.socks f.none_made f.none_open f.none_closed;
    servers_same = refl;
  }

  resolved-Found :
      (r : Result (List Info)) (s : Site)
      → Closes n.close
      → IsFresh s
      → Found a s (((λ (v : Site). (r, v)) >>= bind_all) s)
  unfolding Found
  resolved-Found (err e) s closes f = (IsFresh-Same s f, f.none_open)
  resolved-Found (ok infos) s closes f =
      opened s s
        (bind_sockets n.errno n.addrnotavail n.close (options n a) (map n.attempt infos) s.socks)
        refl
        (bind_sockets-Settled n.errno n.addrnotavail n.close (options n a) (map n.attempt infos)
          s.socks closes f.none_made f.none_open f.none_closed)

  open_hosts-Found : (s : Site) → Closes n.close → IsFresh s → Found a s (open_hosts n a s)
  unfolding open_hosts
  open_hosts-Found s closes f =
      let (r, e) = resolve_hosts-same s in
      subst (λ x. Found a s (((λ (_ : Site). x) >>= bind_all) s)) (sym e)
        (resolved-Found r s closes f)

  given_socket-Found :
      (sock : Option (ℕ × Bool × Bool)) (s : Site)
      → a.sock ≡ sock
      → IsFresh s
      → Found a s (given_socket sock s)
  unfolding given_socket Found Source
  given_socket-Found none s e f = (IsFresh-Same s f, f.none_open)
  given_socket-Found (some (k, ssl, stream)) s e f =
      (IsFresh-Same s f, refl, inr (f.none_open, k, (ssl, stream), e, refl))

  find_sockets-Found : (s : Site) → Closes n.close → IsFresh s → Found a s (find_sockets n a s)
  unfolding find_sockets
  find_sockets-Found s closes f = elim (Bool-cases (checked a).has_address) [
    | inl e ↦ rw e (open_hosts-Found s closes f)
    | inr e ↦ rw e (given_socket-Found a.sock s refl f)
  ]

  set_step :
      (k : ℕ) (x : Result (Unit {0}) × Site) (s : Site)
      → (x ≡ (ok tt, s)) ⊎ ((e : Exc) × (j : ℕ) × (x ≡ (err e, s)) × (n.setblocking j ≡ err e))
      → let y = ((λ (_ : Site). x) >> lift (n.setblocking k)) s in
        (y ≡ (ok tt, s)) ⊎ ((e : Exc) × (j : ℕ) × (y ≡ (err e, s)) × (n.setblocking j ≡ err e))
  set_step k x s (inr (e, j, q, h)) =
      inr (e, j, ap (λ x. ((λ (_ : Site). x) >> lift (n.setblocking k)) s) q, h)
  set_step k x s (inl q) =
      let p = ap (λ x. ((λ (_ : Site). x) >> lift (n.setblocking k)) s) q in
      elim (Result-cases (n.setblocking k)) [
        | inl e ↦ inl (p ∙ ap (λ r. (r, s)) e)
        | inr (e, h) ↦ inr (e, k, p ∙ ap (λ r. (r, s)) h, h)
      ]

  set_nonblocking_lem :
      (l : List ℕ) (s : Site)
      → (set_nonblocking n l s ≡ (ok tt, s))
        ⊎ ((e : Exc) × (k : ℕ) × (set_nonblocking n l s ≡ (err e, s)) × (n.setblocking k ≡ err e))
  unfolding set_nonblocking
  set_nonblocking_lem [] s = inl refl
  set_nonblocking_lem (k ∷ ks) s = set_step k (set_nonblocking n ks s) s (set_nonblocking_lem ks s)

  check_args-same : (b : Args) (t : Sockets) → (check_args b t).1 ≡ t
  unfolding check_args
  check_args-same b t = ground arith

  serve-Served :
      (l : List ℕ) (s t : Site)
      → Same s t
      → is_empty l ≡ false
      → Source a t l
      → Served s (serve n a l t)
  unfolding serve Served
  serve-Served l s t h b c =
      let u : Site = record t { servers = l ∷ t.servers } in
      let held : u.servers ≡ l ∷ s.servers = ap (λ x. l ∷ x) h.servers_same in
      let end : Result (Unit {0}) × Site → Type 0 =
        λ x. Served s (((λ (_ : Site). x) >> pure l) u) in
      elim (starting a.start_serving n.serve n.sleep u) [
        | inl e ↦ subst end (sym e) (h.accounted, b, c, held)
        | inr (e, q, why) ↦ subst end (sym q) (h.accounted, inr (inr (l, held, c, why)))
      ]

  abbrev Next : Site → List ℕ → Site → Result (Unit {0}) × Site → Type 0
  Next s l t x = Served s (((λ (_ : Site). x) >> serve n a l) t)

  found_Served :
      (s : Site) (x : Result (List ℕ) × Site)
      → Found a s x
      → Served s (((λ (_ : Site). x) >>= λ l. (set_nonblocking n l >> serve n a l)) x.1)
  unfolding Found Served
  found_Served s (err e, t) h = (h.0.accounted, inl (h.0.servers_same, h.1))
  found_Served s (ok l, t) h = elim (set_nonblocking_lem l t) [
    | inl e ↦ subst (Next s l t) (sym e) (serve-Served l s t h.0 h.1 h.2)
    | inr (e, k, q, r) ↦
        subst (Next s l t) (sym q) (h.0.accounted, inr (inl (h.0.servers_same, k, r)))
  ]

  abbrev rest : Method Site (List ℕ)
  rest = find_sockets n a >>= λ l. (set_nonblocking n l >> serve n a l)

  checked_Served :
      (s : Site) (x : Result (Unit {0}) × Sockets)
      → x.1 ≡ s.socks
      → Closes n.close
      → IsFresh s
      → Served s ((on_socks (λ _. x) >> rest) s)
  unfolding Served
  checked_Served s (ok _, t) e closes f =
      subst (λ v. Served s (rest (record s { socks = v }))) (sym e)
        (found_Served s (find_sockets n a s) (find_sockets-Found s closes f))
  checked_Served s (err x, t) e closes f =
      subst (λ v. Served s (err x, record s { socks = v })) (sym e)
        ((IsFresh-Same s f).accounted, inl (refl, f.none_open))

  -- `create_server`, where closing a socket does not raise, from a state where it has made none: each socket that it makes is then open
  -- or closed, and not both. It gives out a new server that holds all sockets that are open, or the one
  -- that was given, and at least one; or it fails with no socket left open and no server; or it fails
  -- since `setblocking` failed on a socket, with no server; or serving or the wait after it failed, and
  -- the new server holds the sockets.
  pub create_server-Served :
      (s : Site) → Closes n.close → IsFresh s → Served s (create_server n a s)
  unfolding create_server
  create_server-Served s closes f =
      checked_Served s (check_args (checked a) s.socks) (check_args-same (checked a) s.socks) closes
        f
