-- ===== src/Server/Bind/NoLeak.antt =====
-- The sockets that `create_server` opens and binds: which are open, and which are closed.
use tokioop.Prelude.{
  ap, ◌∙◌, sym, append-nil, append_assoc, ℕ, suc, ◌+◌, ◌≡◌, refl, ◌⊎◌, inl, inr, false, List, [],
  ◌∷◌, ◌++◌, arith, ◌==◌, ltb, is_empty, if◌then◌else◌,
}
use tokioop.Python.{Exc, Result, ok, err, Method, ◌>>◌, try_else, skip, raise, lift}
use tokioop.Server.Bind.{
  close_one, close_each, Attempt, Options, Sockets, new_socket, drop_socket, set_options,
  bind_failed, open_socket, open_sockets, open_some, bind_sockets, bind_socket, set_up,
  create_failed, close_all, require_some,
}

-- How often a socket is listed.
pub count : ℕ → List ℕ → ℕ
count i [] = 0
count i (j ∷ l) = if i == j then suc (count i l) else count i l

count-append : (i : ℕ) (xs ys : List ℕ) → count i (xs ++ ys) ≡ count i xs + count i ys
unfolding count
count-append i [] ys = omega arith
count-append i (x ∷ xs) ys = ground (arith, count-append i xs ys)

-- Each socket that was made is either open or closed, once.
abbrev pub Accounted : Sockets → Type 0
Accounted t = (i : ℕ) → count i t.sockets + count i t.closed ≡ (if ltb i t.next then 1 else 0)

abbrev Keeps : {A : Type 0} → Method Sockets A → Type 0
Keeps m = (t : Sockets) → Accounted t → Accounted (m t).1

module _ {A B : Type 0} (handler : Exc → Method Sockets B) (next : A → Method Sockets B)
    (kh : (e : Exc) → Keeps (handler e)) (kn : (a : A) → Keeps (next a)) where
  try_step :
      (r : Result A) (t : Sockets)
      → Accounted t
      → Accounted (try_else (λ _. (r, t)) handler next t).1
  try_step (ok a) t h = kn a t h
  try_step (err e) t h = kh e t h

  Keeps-try_else : (m : Method Sockets A) → Keeps m → Keeps (try_else m handler next)
  Keeps-try_else m km t h = try_step (m t).0 (m t).1 (km t h)

Keeps->> : (m k : Method Sockets (Unit {0})) → Keeps m → Keeps k → Keeps (m >> k)
Keeps->> m k km kk = Keeps-try_else raise (λ _. k) (λ e t h. h) (λ _. kk) m km

new_socket-Keeps : Keeps new_socket
unfolding new_socket count
new_socket-Keeps t h i = ground (arith, h i)

close_one-Accounted :
    (close : ℕ → Result (Unit {0})) (newer : List ℕ) (s : ℕ) (t : Sockets)
    → t.sockets ≡ newer ++ s ∷ []
    → Accounted t
    → Accounted (close_one close newer s t).1
unfolding close_one count
close_one-Accounted close newer s t e h i =
    ground (arith, h i, ap (count i) e, count-append i newer (s ∷ []))

drop_socket-Accounted :
    (close : ℕ → Result (Unit {0})) (l : List ℕ) (t : Sockets)
    → t.sockets ≡ l
    → Accounted t
    → Accounted (drop_socket close l t).1
unfolding drop_socket close_one count
drop_socket-Accounted close [] t e h i = h i
drop_socket-Accounted close (s ∷ rest) t e h i = ground (arith, h i)

set_options_same : (o : Options) (a : Attempt) (t : Sockets) → (set_options o a t).1 ≡ t
unfolding set_options
set_options_same o a t = ground arith

create_failed-Keeps : (e : Exc) → Keeps (create_failed e)
unfolding create_failed
create_failed-Keeps e t h i = ground (arith, h i)

require_some-Keeps : Keeps require_some
unfolding require_some
require_some-Keeps t h i = ground (arith, h i)

-- Every `close` returns.
abbrev pub Closes : (ℕ → Result (Unit {0})) → Type 0
Closes close = (k : ℕ) → close k ≡ ok tt

close_one_ok :
    (close : ℕ → Result (Unit {0})) (newer : List ℕ) (s : ℕ) (t : Sockets)
    → Closes close
    → (close_one close newer s t).0 ≡ ok tt
unfolding close_one
close_one_ok close newer s t c = c s

close_one_left :
    (close : ℕ → Result (Unit {0})) (newer : List ℕ) (s : ℕ) (t : Sockets)
    → (close_one close newer s t).1.sockets ≡ newer
unfolding close_one
close_one_left close newer s t = refl

-- What the loop makes of the sockets.
abbrev Emptied : List ℕ → Result (Unit {0}) × Sockets → Type 0
Emptied newer (r, t) = (r ≡ ok tt) × Accounted t × (t.sockets ≡ newer)

close_step :
    (close : ℕ → Result (Unit {0})) (newer : List ℕ) (s : ℕ) (x : Result (Unit {0}) × Sockets)
    (t : Sockets)
    → Closes close
    → Emptied (newer ++ s ∷ []) x
    → Emptied newer (((λ (_ : Sockets). x) >> close_one close newer s) t)
close_step close newer s (ok _, v) t c (r, h, e) = (
  close_one_ok close newer s v c,
  close_one-Accounted close newer s v e h,
  close_one_left close newer s v,
)
close_step close newer s (err y, v) t c (r, h, e) = absurd cc

close_each-Emptied :
    (close : ℕ → Result (Unit {0})) (newer l : List ℕ) (t : Sockets)
    → Closes close
    → Accounted t
    → t.sockets ≡ newer ++ l
    → Emptied newer (close_each close newer l t)
unfolding close_each
close_each-Emptied close newer [] t c h e = (refl, h, e ∙ append-nil newer)
close_each-Emptied close newer (s ∷ rest) t c h e =
    close_step close newer s (close_each close (newer ++ s ∷ []) rest t) t c (
      close_each-Emptied close (newer ++ s ∷ []) rest t c h
        (e ∙ sym (append_assoc newer (s ∷ []) rest)))

pub none_made : (t : Sockets) → t.next ≡ 0 → t.sockets ≡ [] → t.closed ≡ [] → Accounted t
unfolding count
none_made t n s c i = ground arith

-- How the opening of the sockets ends.
abbrev pub Settled : Result (Unit {0}) × Sockets → Type 0
Settled (r, t) =
    Accounted t
    × (((r ≡ ok tt) × (is_empty t.sockets ≡ false))
        ⊎ (((e : Exc) × (r ≡ err e)) × (t.sockets ≡ [])))

settle_failed :
    (e : Exc) (x : Result (Unit {0}) × Sockets) (t : Sockets)
    → Emptied [] x
    → Settled (((λ (_ : Sockets). x) >> raise e) t)
settle_failed e (ok _, v) t (r, h, l) = (h, inr ((e, refl), l))
settle_failed e (err y, v) t (r, h, l) = absurd cc

settle_step :
    (close : ℕ → Result (Unit {0})) (r : Result (Unit {0})) (t : Sockets)
    → Closes close
    → Accounted t
    → (r ≡ ok tt → is_empty t.sockets ≡ false)
    → Settled (try_else (λ _. (r, t)) (λ e. do close_all close; raise e) (λ _. skip) t)
unfolding close_all
settle_step close (ok _) t c h some_open = (h, inl (refl, some_open refl))
settle_step close (err e) t c h some_open =
    settle_failed e (close_each close [] t.sockets t) t
      (close_each-Emptied close [] t.sockets t c h refl)

module _ (errno : Exc → ℕ) (addrnotavail : ℕ) (close : ℕ → Result (Unit {0})) where
  bind_failed-Keeps : (e : Exc) → Keeps (bind_failed errno addrnotavail close e)
  unfolding bind_failed
  bind_failed-Keeps e t h i = ground (arith, h i, drop_socket-Accounted close t.sockets t refl h i)

  bind_socket-Keeps : (a : Attempt) → Keeps (bind_socket errno addrnotavail close a)
  unfolding bind_socket
  bind_socket-Keeps a =
      Keeps-try_else (bind_failed errno addrnotavail close) (λ _. skip) bind_failed-Keeps
        (λ _ t h. h) (lift a.bind) (λ t h. h)

  set_up-Keeps : (o : Options) (a : Attempt) → Keeps (set_up errno addrnotavail close o a)
  unfolding set_up
  set_up-Keeps o a =
      let bind = bind_socket errno addrnotavail close a in
      Keeps->> new_socket (set_options o a >> bind) new_socket-Keeps (
        Keeps->> (set_options o a) bind (λ t h. rw (set_options_same o a t) h)
          (bind_socket-Keeps a))

  open_socket-Keeps : (o : Options) (a : Attempt) → Keeps (open_socket errno addrnotavail close o a)
  unfolding open_socket
  open_socket-Keeps o a =
      Keeps-try_else create_failed (λ _. set_up errno addrnotavail close o a) create_failed-Keeps
        (λ _. set_up-Keeps o a) (lift a.create) (λ t h. h)

  open_sockets-Keeps :
      (o : Options) (attempts : List Attempt)
      → Keeps (open_sockets errno addrnotavail close o attempts)
  unfolding open_sockets
  open_sockets-Keeps o [] = λ t h. h
  open_sockets-Keeps o (a ∷ rest) =
      Keeps->> (open_socket errno addrnotavail close o a)
        (open_sockets errno addrnotavail close o rest) (open_socket-Keeps o a)
        (open_sockets-Keeps o rest)

  open_some-Keeps :
      (o : Options) (attempts : List Attempt)
      → Keeps (open_some errno addrnotavail close o attempts)
  unfolding open_some
  open_some-Keeps o attempts =
      Keeps->> (open_sockets errno addrnotavail close o attempts) require_some
        (open_sockets-Keeps o attempts) require_some-Keeps

  open_some_ok :
      (o : Options) (attempts : List Attempt) (t : Sockets)
      → let (r, v) = open_some errno addrnotavail close o attempts t in
        r ≡ ok tt → is_empty v.sockets ≡ false
  unfolding open_some require_some
  open_some_ok o attempts t = ground arith

  -- Where every `close` returns: starting with no socket, `create_server` either fails with every socket that it made closed,
  -- or goes on with one socket or more. Each socket that it made is then open or closed, and not
  -- both.
  pub bind_sockets-Settled :
      (o : Options) (attempts : List Attempt) (t : Sockets)
      → Closes close
      → t.next ≡ 0
      → t.sockets ≡ []
      → t.closed ≡ []
      → Settled (bind_sockets errno addrnotavail close o attempts t)
  unfolding bind_sockets
  bind_sockets-Settled o attempts t closes n s c =
      let m = open_some errno addrnotavail close o attempts in
      settle_step close (m t).0 (m t).1 closes (open_some-Keeps o attempts t (none_made t n s c))
        (open_some_ok o attempts t)
