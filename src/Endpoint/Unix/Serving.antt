-- ===== src/Endpoint/Unix/Serving.antt =====
-- How `create_unix_server` ends: the sockets it leaves open, and the files it removes.
use tokioop.Prelude.{
  ℕ, suc, ◌≡◌, refl, sym, ap, ◌∙◌, ◌⊎◌, inl, inr, Bool, true, false, Option, none, some, List, [],
  ◌∷◌, arith, subst, is_some, ◌==◌, Bool-cases,
}
use tokioop.Python.{
  Exc, index_error, is_os_error, Result, ok, err, lift, when, Method, try_else, skip, pure, ◌>>◌,
  ◌>>=◌,
}
use tokioop.Endpoint.{
  Sys, open_socket, close_socket, is_abstract, remove_file, unremoved, remove_stale, Stale,
}
use tokioop.Endpoint.Made.{without-head}
use tokioop.Endpoint.Unix.{
  Given, ServerArgs, Binding, check_server_args, bind_failed, bind_path, server_socket, no_file,
  store_inode, remember_inode, make_server, create_unix_server,
}

-- The steps that leave sockets and servers alone.
record SameServers (y t : Sys) : Type 0 where
  live_same : t.live ≡ y.live
  servers_same : t.servers ≡ y.servers

remove_stale-Same : (a : Stale) (path : List ℕ) (y : Sys) → SameServers y (remove_stale a path y).1
unfolding remove_stale remove_file unremoved
remove_stale-Same a path y = ground arith

-- An exception that `remove_stale` lets through is no `OSError`, and comes from its two calls.
remove_stale-fails :
    (a : Stale) (path : List ℕ) (y : Sys) (e : Exc)
    → (remove_stale a path y).0 ≡ err e
    → is_os_error e ≡ false
unfolding remove_stale remove_file unremoved
remove_stale-fails a path y e h = ground arith

unremoved_same : (x e : Exc) (y : Sys) → (unremoved x y).0 ≡ err e → x ≡ e
unfolding unremoved
unremoved_same x e y h = ground arith

remove_stale_from :
    (stat : Result Bool) (remove : Result (Unit {0})) (path : List ℕ) (y : Sys) (e : Exc)
    → (remove_stale (record { stat = stat; remove = remove }) path y).0 ≡ err e
    → (stat ≡ err e) ⊎ (remove ≡ err e)
unfolding remove_stale remove_file
remove_stale_from (err x) remove path y e h = inl (ap err (unremoved_same x e y h))
remove_stale_from (ok false) remove path y e h = absurd cc
remove_stale_from (ok true) (ok _) path y e h = absurd cc
remove_stale_from (ok true) (err x) path y e h = inr (ap err (unremoved_same x e y h))

-- Where the socket's file is removed, `os.stat` told that it is a socket.
remove_stale-removed :
    (a : Stale) (path : List ℕ) (y : Sys)
    → ((remove_stale a path y).1.removed ≡ y.removed)
      ⊎ (((remove_stale a path y).1.removed ≡ path ∷ y.removed) × (a.stat ≡ ok true))
unfolding remove_stale remove_file unremoved
remove_stale-removed a path y = ground arith

remember_inode-Same : (b : Binding) (k : ℕ) (y : Sys) → SameServers y (remember_inode b k y).1
unfolding remember_inode is_abstract no_file store_inode
remember_inode-Same b k y = ground arith

remember_inode-fails :
    (b : Binding) (k : ℕ) (y : Sys) (e : Exc)
    → (remember_inode b k y).0 ≡ err e
    → ((b.getsockname ≡ ok []) × (e ≡ index_error)) ⊎ (b.getsockname ≡ err e) ⊎ (b.inode ≡ err e)
unfolding remember_inode is_abstract no_file store_inode
remember_inode-fails b k y e h = ground arith

pub check_server_args-same : (a : ServerArgs) (y : Sys) → (check_server_args a y).1 ≡ y
unfolding check_server_args
check_server_args-same a y = ground arith

-- What raises between the making of the socket and `bind`: the first character of an empty path, or
-- the removal of a stale socket, where it is no `OSError`.
Early : Binding → ServerArgs → Exc → Type 0
Early b a e =
    ((a.path ≡ some (ok [])) × (e ≡ index_error))
    ⊎ ((is_os_error e ≡ false) × ((b.stale.stat ≡ err e) ⊎ (b.stale.remove ≡ err e)))

-- What raises in the look at the socket's file.
Unseen : Binding → Exc → Type 0
Unseen b e =
    ((b.getsockname ≡ ok []) × (e ≡ index_error)) ⊎ (b.getsockname ≡ err e) ⊎ (b.inode ≡ err e)

-- Why a socket is left open that no server holds.
Orphaned : Binding → ServerArgs → Exc → Type 0
Orphaned b a e = Early b a e ⊎ ((a.cleanup_socket ≡ true) × Unseen b e) ⊎ (b.setblocking ≡ err e)

-- How the server ends, and how its socket does.
unfoldable pub Served : Binding → ServerArgs → Sys → Result ℕ × Sys → Type 0
unfolding Orphaned Early Unseen
Served b a y (ok k, t) = (k ≡ y.next) × (t.live ≡ k ∷ y.live) × (t.servers ≡ k ∷ y.servers)
Served b a y (err e, t) =
    ((t.live ≡ y.live) × (t.servers ≡ y.servers))
    ⊎ ((t.live ≡ y.next ∷ y.live) × (t.servers ≡ y.next ∷ y.servers) × (b.serve ≡ err e))
    ⊎ ((t.live ≡ y.next ∷ y.live) × (t.servers ≡ y.servers) × Orphaned b a e)

unfoldable Bound : Binding → ServerArgs → Sys → Result ℕ × Sys → Type 0
Bound b a y (ok k, t) = (k ≡ y.next) × (t.live ≡ k ∷ y.live) × (t.servers ≡ y.servers)
Bound b a y (err e, t) =
    (t.servers ≡ y.servers) × ((t.live ≡ y.live) ⊎ ((t.live ≡ y.next ∷ y.live) × Early b a e))

module _ (errno : Exc → ℕ) (addrinuse : ℕ) where
  bind_stale-Bound :
      (b : Binding) (a : ServerArgs) (y t : Sys) (x : Result (Unit {0}) × Sys)
      → SameServers t x.1
      → t.live ≡ y.next ∷ y.live
      → t.servers ≡ y.servers
      → ((e : Exc) → x.0 ≡ err e → Early b a e)
      → Bound b a y (
          ((λ (_ : Sys). x)
              >> (try_else (lift b.bind) (bind_failed errno addrinuse b.close y.next) (λ _. skip)
                  >> pure y.next))
            t)
  unfolding bind_failed close_socket Bound
  bind_stale-Bound b a y t (ok _, v) same l n f = ground (arith, without-head y.next y.live)
  bind_stale-Bound b a y t (err e, v) same l n f =
      (same.servers_same ∙ n, inr (same.live_same ∙ l, f e refl))

  bind_path-Bound :
      (b : Binding) (a : ServerArgs) (path : List ℕ) (y t : Sys)
      → a.path ≡ some (ok path)
      → t.live ≡ y.next ∷ y.live
      → t.servers ≡ y.servers
      → Bound b a y (bind_path errno addrinuse b path y.next t)
  unfolding bind_path is_abstract Bound Early
  bind_path-Bound b a [] y t p l n = (n, inr (l, inl (p, refl)))
  bind_path-Bound b a (c ∷ cs) y t p l n = elim (Bool-cases (c == 0)) [
    | inl z ↦ rw z (
        bind_stale-Bound b a y t (ok tt, t) (record { live_same = refl; servers_same = refl }) l n
          (λ e h. absurd cc))
    | inr nz ↦ rw nz (
        bind_stale-Bound b a y t (remove_stale b.stale (c ∷ cs) t)
          (remove_stale-Same b.stale (c ∷ cs) t) l n
          (λ e h. inr (
            remove_stale-fails b.stale (c ∷ cs) t e h,
            remove_stale_from b.stale.stat b.stale.remove (c ∷ cs) t e h,
          )))
  ]

  opened-Bound :
      (b : Binding) (a : ServerArgs) (path : List ℕ) (answer : Result (Unit {0})) (y : Sys)
      → a.path ≡ some (ok path)
      → Bound b a y ((open_socket answer >>= bind_path errno addrinuse b path) y)
  unfolding open_socket Bound
  opened-Bound b a path (err e) y p = (refl, inl refl)
  opened-Bound b a path (ok _) y p =
      bind_path-Bound b a path y (record y { next = suc y.next; live = y.next ∷ y.live }) p refl
        refl

  path-Bound :
      (b : Binding) (a : ServerArgs) (path : Option (Result (List ℕ))) (sock : Option Given)
      (y : Sys)
      → is_some path ≡ true
      → a.path ≡ path
      → Bound b a y (server_socket errno addrinuse b (record a { path = path; sock = sock }) y)
  unfolding server_socket Bound
  path-Bound b a none sock y h p = absurd cc
  path-Bound b a (some fspath) (some k) y h p = (refl, inl refl)
  path-Bound b a (some (err e)) none y h p = (refl, inl refl)
  path-Bound b a (some (ok path)) none y h p = opened-Bound b a path b.create y p

  server_socket-Bound :
      (b : Binding) (a : ServerArgs) (y : Sys)
      → is_some a.path ≡ true
      → Bound b a y (server_socket errno addrinuse b a y)
  server_socket-Bound b a y h = path-Bound b a a.path a.sock y h refl

  -- What is left to do once the socket is there.
  abbrev finish : Binding → ServerArgs → ℕ → Method Sys ℕ
  finish b a k = do
    when a.cleanup_socket (remember_inode b k)
    lift b.setblocking
    make_server k
    when a.start_serving (lift b.serve)
    pure k

  remembered-Served :
      (b : Binding) (a : ServerArgs) (y t : Sys) (x : Result (Unit {0}) × Sys)
      → SameServers t x.1
      → t.live ≡ y.next ∷ y.live
      → t.servers ≡ y.servers
      → ((e : Exc) → x.0 ≡ err e → Orphaned b a e)
      → Served b a y (
          ((λ (_ : Sys). x)
              >> (lift b.setblocking
                  >> (make_server y.next >> (when a.start_serving (lift b.serve) >> pure y.next))))
            t)
  unfolding Served make_server Orphaned
  remembered-Served b a y t (err e, v) same l n f =
      inr (inr (same.live_same ∙ l, same.servers_same ∙ n, f e refl))
  remembered-Served b a y t (ok _, v) same l n f = ground arith

  cleaned-Same :
      (c : Bool) (b : Binding) (k : ℕ) (t : Sys) → SameServers t (when c (remember_inode b k) t).1
  cleaned-Same true b k t = remember_inode-Same b k t
  cleaned-Same false b k t = record { live_same = refl; servers_same = refl }

  cleaned-fails :
      (c : Bool) (b : Binding) (k : ℕ) (t : Sys) (e : Exc)
      → (when c (remember_inode b k) t).0 ≡ err e
      → (c ≡ true) × Unseen b e
  unfolding Unseen
  cleaned-fails true b k t e h = (refl, remember_inode-fails b k t e h)
  cleaned-fails false b k t e h = absurd cc

  finish-Served :
      (b : Binding) (a : ServerArgs) (y t : Sys)
      → t.live ≡ y.next ∷ y.live
      → t.servers ≡ y.servers
      → Served b a y (finish b a y.next t)
  unfolding Orphaned
  finish-Served b a y t l n =
      remembered-Served b a y t (when a.cleanup_socket (remember_inode b y.next) t)
        (cleaned-Same a.cleanup_socket b y.next t) l n
        (λ e h. inr (inl (cleaned-fails a.cleanup_socket b y.next t e h)))

  Bound-Served :
      (b : Binding) (a : ServerArgs) (y : Sys) (x : Result ℕ × Sys)
      → Bound b a y x
      → Served b a y (((λ (_ : Sys). x) >>= finish b a) y)
  unfolding Bound Served Orphaned
  Bound-Served b a y (err e, t) h = ground arith
  Bound-Served b a y (ok k, t) (n, l, s) =
      subst (λ j. Served b a y (finish b a j t)) (sym n)
        (finish-Served b a y t (l ∙ ap (λ j. j ∷ y.live) n) s)

  checked-Served :
      (b : Binding) (a : ServerArgs) (y : Sys) (x : Result (Unit {0}) × Sys)
      → is_some a.path ≡ true
      → x.1 ≡ y
      → Served b a y (((λ (_ : Sys). x) >> (server_socket errno addrinuse b a >>= finish b a)) y)
  unfolding Served
  checked-Served b a y (err e, t) p h =
      inl (ap (λ (s : Sys). s.live) h, ap (λ (s : Sys). s.servers) h)
  checked-Served b a y (ok _, t) p h =
      subst (λ s. Served b a y ((server_socket errno addrinuse b a >>= finish b a) s)) (sym h)
        (Bound-Served b a y (server_socket errno addrinuse b a y) (server_socket-Bound b a y p))

  -- A UNIX server on a path: it gives out a server that holds its new open socket; or it leaves no
  -- socket behind; or serving failed and the server holds the socket; or the socket stays open and
  -- nothing holds it: what came out is then the `IndexError` of an empty path, or from the removal of
  -- a stale socket and no `OSError`, or it came from the look at the socket's file or the
  -- `setblocking` after a `bind` that went well. After a `bind` that failed the socket is closed.
  pub create_unix_server-Served :
      (b : Binding) (a : ServerArgs) (y : Sys)
      → is_some a.path ≡ true
      → Served b a y (create_unix_server errno addrinuse b a y)
  unfolding create_unix_server
  create_unix_server-Served b a y p =
      checked-Served b a y (check_server_args a y) p (check_server_args-same a y)

  -- With the empty path, which `os.fspath` lets through, `create_unix_server` raises an `IndexError`
  -- and leaves the socket that it has made open, with no server to close it.
  pub create_unix_server_leaks :
      (b : Binding) (a : ServerArgs) (y : Sys)
      → (check_server_args a y).0 ≡ ok tt
      → a.path ≡ some (ok [])
      → a.sock ≡ none
      → b.create ≡ ok tt
      → create_unix_server errno addrinuse b a y
        ≡ (err index_error, record y { next = suc y.next; live = y.next ∷ y.live })
  unfolding create_unix_server server_socket open_socket bind_path is_abstract check_server_args
  create_unix_server_leaks b a y c p n o = ground arith
