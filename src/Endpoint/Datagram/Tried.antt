-- ===== src/Endpoint/Datagram/Tried.antt =====
-- The loop of `create_datagram_endpoint` over the addresses: which sockets it leaves open.
use tokioop.Prelude.{
  ℕ, suc, ◌≤◌, ◌≡◌, refl, sym, ap, ◌∙◌, Option, List, [], ◌∷◌, ◌++◌, arith, Bool-cases, inl, inr,
  if◌then◌else◌, subst,
}
use tokioop.Python.{Exc, Result, ok, err, is_os_error, Method, raise, pure, try_else, ◌>>◌}
use tokioop.Endpoint.{Sys, open_socket, without, close_socket}
use tokioop.Endpoint.Made.{without-head}
use tokioop.Endpoint.Datagram.{Address, Entry, Attempt, Options, set_up, raise_first, open_endpoint}

-- The loop over the addresses gives out one new socket, or leaves none open.
unfoldable pub Endpoint : Sys → Result (ℕ × Option Address) × Sys → Type 0
Endpoint y (ok (k, r_addr), t) =
    (y.next ≤ k) × (t.live ≡ k ∷ y.live) × (t.transports ≡ y.transports)
Endpoint y (err e, t) = (t.live ≡ y.live) × (t.transports ≡ y.transports)

pub Endpoint-later :
    (y t : Sys) (x : Result (ℕ × Option Address) × Sys)
    → y.next ≤ t.next
    → t.live ≡ y.live
    → t.transports ≡ y.transports
    → Endpoint t x
    → Endpoint y x
unfolding Endpoint
Endpoint-later y t (ok (k, r_addr), v) n l r h = ground arith
Endpoint-later y t (err e, v) n l r h = ground arith

set_up-same : (o : Options) (a : Attempt) (n : Entry) (t : Sys) → (set_up o a n t).1 ≡ t
unfolding set_up
set_up-same o a n t = ground arith

raise_first-Endpoint : (es : List Exc) (y : Sys) → Endpoint y (raise_first es y)
unfolding raise_first Endpoint
raise_first-Endpoint [] y = (refl, refl)
raise_first-Endpoint (e ∷ es) y = (refl, refl)

retry-Endpoint :
    (next : List Exc → Method Sys (ℕ × Option Address)) (es : List Exc) (e : Exc) (y t : Sys)
    → ((es' : List Exc) (z : Sys) → Endpoint z (next es' z))
    → y.next ≤ t.next
    → t.live ≡ y.live
    → t.transports ≡ y.transports
    → Endpoint y ((if is_os_error e then next (es ++ e ∷ []) else raise e) t)
unfolding Endpoint
retry-Endpoint next es e y t rest n l r = elim (Bool-cases (is_os_error e)) [
  | inl h ↦ rw h (Endpoint-later y t (next (es ++ e ∷ []) t) n l r (rest (es ++ e ∷ []) t))
  | inr h ↦ rw h ((l, r))
]

closed-Endpoint :
    (next : List Exc → Method Sys (ℕ × Option Address)) (es : List Exc) (e : Exc)
    (answer : Result (Unit {0})) (y t : Sys)
    → ((es' : List Exc) (z : Sys) → Endpoint z (next es' z))
    → y.next ≤ t.next
    → t.live ≡ y.next ∷ y.live
    → t.transports ≡ y.transports
    → Endpoint y
        ((close_socket answer y.next >> (if is_os_error e then next (es ++ e ∷ []) else raise e)) t)
unfolding Endpoint close_socket
closed-Endpoint next es e (err f) y t rest n l r =
    (ap (without y.next) l ∙ without-head y.next y.live, r)
closed-Endpoint next es e (ok _) y t rest n l r =
    retry-Endpoint next es e y (record t { live = without y.next t.live }) rest n
      (ap (without y.next) l ∙ without-head y.next y.live) r

tried-Endpoint :
    (next : List Exc → Method Sys (ℕ × Option Address)) (es : List Exc) (answer : Result (Unit {0}))
    (y t : Sys) (x : Result (Option Address) × Sys)
    → ((es' : List Exc) (z : Sys) → Endpoint z (next es' z))
    → x.1 ≡ t
    → y.next ≤ t.next
    → t.live ≡ y.next ∷ y.live
    → t.transports ≡ y.transports
    → Endpoint y (
        try_else
          (λ (_ : Sys). x)
          (λ e. do
            close_socket answer y.next
            if is_os_error e then next (es ++ e ∷ []) else raise e)
          (λ r_addr. pure (y.next, r_addr))
          t)
unfolding Endpoint
tried-Endpoint next es answer y t (ok a, v) rest h n l r =
    (omega arith, ap (λ (s : Sys). s.live) h ∙ l, ap (λ (s : Sys). s.transports) h ∙ r)
tried-Endpoint next es answer y t (err e, v) rest h n l r =
    closed-Endpoint next es e answer y v rest (subst (λ (s : Sys). y.next ≤ s.next) (sym h) n)
      (ap (λ (s : Sys). s.live) h ∙ l) (ap (λ (s : Sys). s.transports) h ∙ r)

opened-Endpoint :
    (next : List Exc → Method Sys (ℕ × Option Address)) (es : List Exc) (o : Options) (a : Attempt)
    (n : Entry) (create : Result (Unit {0})) (y : Sys)
    → ((es' : List Exc) (z : Sys) → Endpoint z (next es' z))
    → Endpoint y (
        try_else
          (open_socket create)
          (λ e. if is_os_error e then next (es ++ e ∷ []) else raise e)
          (λ k.
            try_else
              (set_up o a n)
              (λ e. do
                close_socket a.close k
                if is_os_error e then next (es ++ e ∷ []) else raise e)
              (λ r_addr. pure (k, r_addr)))
          y)
unfolding open_socket
opened-Endpoint next es o a n (err e) y rest =
    retry-Endpoint next es e y y rest (omega arith) refl refl
opened-Endpoint next es o a n (ok _) y rest =
    let t = record y { next = suc y.next; live = y.next ∷ y.live } in
    tried-Endpoint next es a.close y t (set_up o a n t) rest (set_up-same o a n t) (omega arith)
      refl refl

pub open_endpoint-Endpoint :
    (o : Options) (answers : Entry → Attempt) (ns : List Entry) (es : List Exc) (y : Sys)
    → Endpoint y (open_endpoint o answers ns es y)
unfolding open_endpoint
open_endpoint-Endpoint o answers [] es y = raise_first-Endpoint es y
open_endpoint-Endpoint o answers (n ∷ rest) es y =
    opened-Endpoint (open_endpoint o answers rest) es o (answers n) n (answers n).create y
      (open_endpoint-Endpoint o answers rest)
