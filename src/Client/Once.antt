-- ===== src/Client/Once.antt =====
-- One attempt to connect, before its handlers: which sockets it leaves open.
use tokioop.Prelude.{
  ℕ, ◌≡◌, refl, sym, ap, ◌∙◌, ◌⊎◌, inl, inr, Bool, true, false, Option, none, some, List, [], ◌∷◌,
  ◌++◌, ◌≤◌, arith,
}
use tokioop.Python.{Exc, os_error, Result, ok, err, lift, gets, ◌>>◌}
use tokioop.Client.{
  Target, Client, open_client, note, none_bound, drop_live, bind_local, bind_locals, connect_once,
}

-- The outcome of a step that may not touch the sockets.
record SameSockets (c t : Client) : Type 0 where
  next_same : t.next ≡ c.next
  live_same : t.live ≡ c.live
  current_same : t.current ≡ c.current
  exceptions_same : t.exceptions ≡ c.exceptions

none_bound-Same : (c : Client) → SameSockets c (none_bound c).1
unfolding none_bound
none_bound-Same c = ground arith

pub drop-head : (k : ℕ) (ks : List ℕ) → drop_live k (k ∷ ks) ≡ ks
unfolding drop_live
drop-head k ks = ground arith

module _ (errno : Exc → ℕ) where
  bind_local-Same :
      (answers : List (Bool × Result (Unit {0}))) (c : Client)
      → SameSockets c (bind_local errno answers c).1
  unfolding bind_local note
  bind_local-Same [] c = none_bound-Same c
  bind_local-Same ((false, answer) ∷ rest) c = bind_local-Same rest c
  bind_local-Same ((true, ok x) ∷ rest) c = record {
    next_same = refl;
    live_same = refl;
    current_same = refl;
    exceptions_same = refl;
  }
  bind_local-Same ((true, err e) ∷ rest) c =
      ground (arith, bind_local-Same rest (record c { mine = c.mine ++ os_error (errno e) ∷ [] }))

  bind_locals-Same :
      (answers : Option (List (Bool × Result (Unit {0})))) (c : Client)
      → SameSockets c (bind_locals errno answers c).1
  unfolding bind_locals
  bind_locals-Same none c = record {
    next_same = refl;
    live_same = refl;
    current_same = refl;
    exceptions_same = refl;
  }
  bind_locals-Same (some answers) c = bind_local-Same answers c

  -- What the inner `try` block leaves behind.
  unfoldable pub Once : Client → Result ℕ × Client → Type 0
  Once c (ok k, t) = (t.live ≡ k ∷ c.live) × (t.exceptions ≡ c.exceptions) × (c.next ≡ k)
  Once c (err e, t) =
      (t.exceptions ≡ c.exceptions)
      × (c.next ≤ t.next)
      × (((t.live ≡ c.live) × (t.current ≡ none))
          ⊎ ((t.live ≡ c.next ∷ c.live) × (t.current ≡ some c.next)))

  opened : Client → Client
  opened c = (open_client c).1

  abbrev number : Client → ℕ
  number c = elim c.current [ none ↦ 0 | some k ↦ k ]

  connected-Once :
      (c t : Client) (answer : Result (Unit {0}))
      → SameSockets (opened c) t
      → Once c ((lift answer >> gets number) t)
  unfolding open_client Once opened
  connected-Once c t (err e) same =
      (same.exceptions_same, omega (arith, same.next_same), inr (same.live_same, same.current_same))
  connected-Once c t (ok _) same = (
    same.live_same
        ∙ ap (λ k. k ∷ c.live) (sym (ap (λ x. elim x [ none ↦ 0 | some k ↦ k ]) same.current_same)),
    same.exceptions_same,
    sym (ap (λ x. elim x [ none ↦ 0 | some k ↦ k ]) same.current_same),
  )

  bound-Once :
      (c : Client) (answer : Result (Unit {0})) (x : Result (Unit {0}) × Client)
      → SameSockets (opened c) x.1
      → Once c (((λ _. x) >> (lift answer >> gets number)) (opened c))
  unfolding open_client Once opened
  bound-Once c answer (err e, t) same =
      (same.exceptions_same, omega (arith, same.next_same), inr (same.live_same, same.current_same))
  bound-Once c answer (ok _, t) same = connected-Once c t answer same

  created-Once :
      (a : Target) (c : Client) (answer : Result (Unit {0}))
      → c.current ≡ none
      → Once c (
          (lift answer
              >> (open_client >> (bind_locals errno a.locals >> (lift a.connect >> gets number))))
            c)
  unfolding open_client Once opened
  created-Once a c (err e) h = (refl, omega arith, inl (refl, h))
  created-Once a c (ok _) h =
      bound-Once c a.connect (bind_locals errno a.locals (opened c))
        (bind_locals-Same a.locals (opened c))

  pub connect_once-Once :
      (a : Target) (c : Client) → c.current ≡ none → Once c (connect_once errno a c)
  unfolding connect_once
  connect_once-Once a c h = created-Once a c a.create h
