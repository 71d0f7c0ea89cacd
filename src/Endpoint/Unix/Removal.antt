-- ===== src/Endpoint/Unix/Removal.antt =====
-- Which files `create_unix_server` removes.
use tokioop.Prelude.{
  ℕ, suc, ◌≡◌, refl, sym, ap, ◌⊎◌, inl, true, false, not, Option, none, some, List, [], ◌∷◌, arith,
  ◌==◌, subst,
}
use tokioop.Python.{Exc, Result, ok, err, lift, when, Method, try_else, skip, pure, ◌>>◌, ◌>>=◌}
use tokioop.Python.Rules.{Keeps, bind_result, Keeps->>, Keeps-when, Keeps-try_else}
use tokioop.Endpoint.{
  Sys, open_socket, close_socket, is_abstract, remove_file, unremoved, remove_stale,
}
use tokioop.Endpoint.Unix.Serving.{check_server_args-same}
use tokioop.Endpoint.Unix.{
  Given, ServerArgs, Binding, check_server_args, bind_failed, bind_path, server_socket, no_file,
  store_inode, remember_inode, make_server, create_unix_server,
}

-- Either no file was removed since `y`, or the one that the server is to bind: it is not abstract,
-- and `os.stat` told that it is a socket.
unfoldable pub Removes : Binding → ServerArgs → Sys → Sys → Type 0
Removes b a y t =
    (t.removed ≡ y.removed)
    ⊎ ((c : ℕ) × (cs : List ℕ) × (a.path ≡ some (ok (c ∷ cs)))
        × (c == 0 ≡ false)
        × (b.stale.stat ≡ ok true)
        × (t.removed ≡ (c ∷ cs) ∷ y.removed))

module _ (errno : Exc → ℕ) (addrinuse : ℕ) where
  module _ (b : Binding) (a : ServerArgs) (y : Sys) where
    same-Removes : (t v : Sys) → v.removed ≡ t.removed → Removes b a y t → Removes b a y v
    unfolding Removes
    same-Removes t v e h = ground (arith, e, h)

    remember_inode-Removes : (k : ℕ) → Keeps (Removes b a y) (remember_inode b k)
    unfolding remember_inode is_abstract no_file store_inode
    remember_inode-Removes k t h = same-Removes t (remember_inode b k t).1 (ground arith) h

    bind_failed-Removes :
        (k : ℕ) (e : Exc) → Keeps (Removes b a y) (bind_failed errno addrinuse b.close k e)
    unfolding bind_failed close_socket
    bind_failed-Removes k e t h =
        same-Removes t (bind_failed errno addrinuse b.close k e t).1 (ground arith) h

    make_server-Removes : (k : ℕ) → Keeps (Removes b a y) (make_server k)
    unfolding make_server
    make_server-Removes k t h = same-Removes t (make_server k t).1 refl h

    lift-Removes : {A : Type 0} (r : Result A) → Keeps (Removes b a y) (lift r)
    lift-Removes r t h = h

    -- After the file is out of the way.
    bind-Removes :
        (k : ℕ)
        → Keeps
            (Removes b a y)
            (try_else (lift b.bind) (bind_failed errno addrinuse b.close k) (λ _. skip) >> pure k)
    bind-Removes k =
        Keeps->> (Removes b a y)
          (try_else (lift b.bind) (bind_failed errno addrinuse b.close k) (λ _. skip)) (pure k)
          (Keeps-try_else (Removes b a y) (lift b.bind) (bind_failed errno addrinuse b.close k)
            (λ _. skip) (lift-Removes b.bind) (bind_failed-Removes k) (λ _ t h. h))
          (λ t h. h)

    remove_stale-Removes :
        (c : ℕ) (cs : List ℕ) (t : Sys)
        → a.path ≡ some (ok (c ∷ cs))
        → t.removed ≡ y.removed
        → Removes b a y (when (not (c == 0)) (remove_stale b.stale (c ∷ cs)) t).1
    unfolding Removes remove_stale remove_file unremoved
    remove_stale-Removes c cs t p h = ground (arith, p, h)

    bind_path-Removes :
        (path : List ℕ) (k : ℕ) (t : Sys)
        → a.path ≡ some (ok path)
        → t.removed ≡ y.removed
        → Removes b a y (bind_path errno addrinuse b path k t).1
    unfolding bind_path is_abstract Removes
    bind_path-Removes [] k t p h = inl h
    bind_path-Removes (c ∷ cs) k t p h =
        bind_result (Removes b a y)
          (λ _.
            try_else (lift b.bind) (bind_failed errno addrinuse b.close k) (λ _. skip) >> pure k)
          (when (not (c == 0)) (remove_stale b.stale (c ∷ cs)) t)
          (λ _. bind-Removes k (when (not (c == 0)) (remove_stale b.stale (c ∷ cs)) t).1)
          (remove_stale-Removes c cs t p h)

    opened-Removes :
        (path : List ℕ) (answer : Result (Unit {0}))
        → a.path ≡ some (ok path)
        → Removes b a y ((open_socket answer >>= bind_path errno addrinuse b path) y).1
    unfolding open_socket Removes
    opened-Removes path (err e) p = inl refl
    opened-Removes path (ok _) p =
        bind_path-Removes path y.next (record y { next = suc y.next; live = y.next ∷ y.live }) p
          refl

    -- The last steps, one after the other.
    abbrev serve_it : ℕ → Method Sys ℕ
    serve_it k = when a.start_serving (lift b.serve) >> pure k

    abbrev make_it : ℕ → Method Sys ℕ
    make_it k = make_server k >> serve_it k

    abbrev unblock_it : ℕ → Method Sys ℕ
    unblock_it k = lift b.setblocking >> make_it k

    abbrev finish : ℕ → Method Sys ℕ
    finish k = when a.cleanup_socket (remember_inode b k) >> unblock_it k

    serve_it-Removes : (k : ℕ) → Keeps (Removes b a y) (serve_it k)
    serve_it-Removes k =
        Keeps->> (Removes b a y) (when a.start_serving (lift b.serve)) (pure k)
          (Keeps-when (Removes b a y) a.start_serving (lift b.serve) (lift-Removes b.serve))
          (λ t h. h)

    unblock_it-Removes : (k : ℕ) → Keeps (Removes b a y) (unblock_it k)
    unblock_it-Removes k =
        Keeps->> (Removes b a y) (lift b.setblocking) (make_it k) (lift-Removes b.setblocking) (
          Keeps->> (Removes b a y) (make_server k) (serve_it k) (make_server-Removes k)
            (serve_it-Removes k))

    finish-Removes : (k : ℕ) → Keeps (Removes b a y) (finish k)
    finish-Removes k =
        Keeps->> (Removes b a y) (when a.cleanup_socket (remember_inode b k)) (unblock_it k)
          (Keeps-when (Removes b a y) a.cleanup_socket (remember_inode b k)
            (remember_inode-Removes k))
          (unblock_it-Removes k)

  path-Removes :
      (b : Binding) (a : ServerArgs) (path : Option (Result (List ℕ))) (sock : Option Given)
      (y : Sys)
      → Removes b
          (record a { path = path; sock = sock })
          y
          (server_socket errno addrinuse b (record a { path = path; sock = sock }) y).1
  unfolding server_socket Removes
  path-Removes b a none none y = inl refl
  path-Removes b a none (some k) y = inl (ground arith)
  path-Removes b a (some fspath) (some k) y = inl refl
  path-Removes b a (some (err e)) none y = inl refl
  path-Removes b a (some (ok path)) none y =
      opened-Removes b (record a { path = some (ok path); sock = none }) y path b.create refl

  checked-Removes :
      (b : Binding) (a : ServerArgs) (y : Sys) (x : Result (Unit {0}) × Sys)
      → x.1 ≡ y
      → Removes b a y
          (((λ (_ : Sys). x) >> (server_socket errno addrinuse b a >>= finish b a y)) y).1
  unfolding Removes
  checked-Removes b a y (err e, t) h = inl (ap (λ (s : Sys). s.removed) h)
  checked-Removes b a y (ok _, t) h =
      subst (λ s. Removes b a y ((server_socket errno addrinuse b a >>= finish b a y) s).1) (sym h)
        (bind_result (Removes b a y) (finish b a y) (server_socket errno addrinuse b a y)
          (λ k. finish-Removes b a y k (server_socket errno addrinuse b a y).1)
          (path-Removes b a a.path a.sock y))

  -- `create_unix_server` removes no file but the one at the path that it is given, and that one only
  -- where `os.stat` told that it is a socket; of an abstract path it removes nothing.
  pub create_unix_server-Removes :
      (b : Binding) (a : ServerArgs) (y : Sys)
      → Removes b a y (create_unix_server errno addrinuse b a y).1
  unfolding create_unix_server
  create_unix_server-Removes b a y =
      checked-Removes b a y (check_server_args a y) (check_server_args-same a y)
