-- ===== src/Python/Returns.antt =====
-- Total correctness: a method returns, with a value and a state that are related.
use tokioop.Python.{Result, ok, err, Method, finally, ◌>>=◌, ◌>>◌}

module _ {S : Type 0} where
  abbrev pub Returns : {A : Type 0} → (A → S → Type 0) → Result A × S → Type 0
  Returns Q (ok a, s) = Q a s
  Returns Q (err e, s) = ⊥

  pub Returns-mono :
      {A : Type 0} (Q R : A → S → Type 0) (x : Result A × S)
      → Returns Q x
      → ((a : A) (s : S) → Q a s → R a s)
      → Returns R x
  Returns-mono Q R (ok a, s) h f = f a s h
  Returns-mono Q R (err e, s) h f = h

  returned :
      {A B : Type 0} (Q : A → S → Type 0) (R : B → S → Type 0) (k : A → Method S B)
      (x : Result A × S)
      → Returns Q x
      → ((a : A) (t : S) → Q a t → Returns R (k a t))
      → Returns R (((λ _. x) >>= k) x.1)
  returned Q R k (ok a, t) h f = f a t h
  returned Q R k (err e, t) h f = h

  pub Returns->>= :
      {A B : Type 0} (Q : A → S → Type 0) (R : B → S → Type 0) (m : Method S A) (k : A → Method S B)
      (s : S)
      → Returns Q (m s)
      → ((a : A) (t : S) → Q a t → Returns R (k a t))
      → Returns R ((m >>= k) s)
  Returns->>= Q R m k s h f = returned Q R k (m s) h f

  -- The same for a step that gives out nothing.
  pub Returns->> :
      {B : Type 0} (Q : S → Type 0) (R : B → S → Type 0) (m : Method S (Unit {0})) (k : Method S B)
      (s : S)
      → Returns (λ _. Q) (m s)
      → ((t : S) → Q t → Returns R (k t))
      → Returns R ((m >> k) s)
  Returns->> Q R m k s h f = returned (λ _. Q) R (λ _. k) (m s) h (λ _. f)

  cleaned :
      {A : Type 0} (R : A → S → Type 0) (a : A) (c : Result (Unit {0}) × S)
      → Returns (λ _. R a) c
      → Returns R (elim c.0 as (λ _. Result A × S) [ ok _ ↦ (ok a, c.1) | err e ↦ (err e, c.1) ])
  cleaned R a (ok _, t) h = h
  cleaned R a (err e, t) h = h

  -- A `finally` block after a body that returned.
  pub Returns-finally :
      {A : Type 0} (R : A → S → Type 0) (a : A) (cleanup : Method S (Unit {0})) (s : S)
      → Returns (λ _. R a) (cleanup s)
      → Returns R (finally (λ t. (ok a, t)) cleanup s)
  Returns-finally R a cleanup s h = cleaned R a (cleanup s) h
