-- ===== src/Python/Rules.antt =====
-- What a method keeps: the rules for the statements of `Python`.
use tokioop.Prelude.{◌≡◌, refl, if◌then◌else◌, Bool, true, false}
use tokioop.Python.{Exc, Result, ok, err, Method, when, raise_if, try_else, finally, ◌>>=◌, ◌>>◌}

module _ {S : Type 0} (P : S → Type 0) where
  -- The method leaves `P` as it finds it, whether it returns or raises.
  abbrev pub Keeps : {A : Type 0} → Method S A → Type 0
  Keeps m = (s : S) → P s → P (m s).1

  module _ {A B : Type 0} where
    pub bind_result :
        (k : A → Method S B) (x : Result A × S)
        → ((a : A) → P x.1 → P (k a x.1).1)
        → P x.1
        → P (((λ _. x) >>= k) x.1).1
    bind_result k (ok a, t) h p = h a p
    bind_result k (err e, t) h p = p

    pub Keeps->>= :
        (m : Method S A) (k : A → Method S B) → Keeps m → ((a : A) → Keeps (k a)) → Keeps (m >>= k)
    Keeps->>= m k hm hk s p = bind_result k (m s) (λ a. hk a (m s).1) (hm s p)

    pub try_result :
        (h : Exc → Method S B) (k : A → Method S B) (x : Result A × S)
        → ((e : Exc) → P x.1 → P (h e x.1).1)
        → ((a : A) → P x.1 → P (k a x.1).1)
        → P x.1
        → P (try_else (λ _. x) h k x.1).1
    try_result h k (ok a, t) he hk p = hk a p
    try_result h k (err e, t) he hk p = he e p

    pub Keeps-try_else :
        (m : Method S A) (h : Exc → Method S B) (k : A → Method S B)
        → Keeps m
        → ((e : Exc) → Keeps (h e))
        → ((a : A) → Keeps (k a))
        → Keeps (try_else m h k)
    Keeps-try_else m h k hm hh hk s p =
        try_result h k (m s) (λ e. hh e (m s).1) (λ a. hk a (m s).1) (hm s p)

  pub Keeps->> :
      {B : Type 0} (m : Method S (Unit {0})) (k : Method S B) → Keeps m → Keeps k → Keeps (m >> k)
  Keeps->> m k hm hk = Keeps->>= m (λ _. k) hm (λ _. hk)

  pub Keeps-when : (b : Bool) (m : Method S (Unit {0})) → Keeps m → Keeps (when b m)
  Keeps-when true m hm s p = hm s p
  Keeps-when false m hm s p = p

  -- Rules at one state: a test, and a guard that raises.
  pub if_at :
      {B : Type 0} (b : Bool) (m n : Method S B) (s : S)
      → (b ≡ true → P (m s).1)
      → (b ≡ false → P (n s).1)
      → P ((if b then m else n) s).1
  if_at true m n s hm hn = hm refl
  if_at false m n s hm hn = hn refl

  pub guard_at :
      {B : Type 0} (b : Bool) (e : Exc) (k : Method S B) (s : S)
      → P s
      → (b ≡ false → P (k s).1)
      → P ((raise_if b e >> k) s).1
  guard_at true e k s p hk = p
  guard_at false e k s p hk = hk refl

  cleaned :
      {A : Type 0} (r : Result A) (c : Result (Unit {0}) × S)
      → P c.1
      → P (elim c.0 as (λ _. Result A × S) [ ok _ ↦ (r, c.1) | err e ↦ (err e, c.1) ]).1
  cleaned r (ok _, t) p = p
  cleaned r (err e, t) p = p

  pub Keeps-finally :
      {A : Type 0} (m : Method S A) (cleanup : Method S (Unit {0}))
      → Keeps m
      → Keeps cleanup
      → Keeps (finally m cleanup)
  Keeps-finally m cleanup hm hc s p = cleaned (m s).0 (cleanup (m s).1) (hc (m s).1 (hm s p))
