-- ===== src/Client/NoLeak.antt =====
-- The attempts to connect: no socket stays open but the one that is given out, and each failed
-- attempt says why.
use tokioop.Prelude.{
  ℕ, suc, ◌≤◌, ◌≡◌, refl, sym, ap, ◌∙◌, ◌⊎◌, inl, inr, true, false, Option, none, some, List, [],
  ◌∷◌, ◌++◌, append_assoc, append-nil, arith, Bool-cases, subst, if◌then◌else◌,
}
use tokioop.Python.{
  Exc, is_os_error, Result, ok, err, lift, gets, catch, try_else, pure, raise, ◌>>◌,
}
use tokioop.Client.{
  open_client, bind_locals, Target, Client, start_attempt, note, close_current, end_attempt,
  connect_once, note_failure, connect_sock, try_targets,
}
use tokioop.Client.Once.{Once, drop-head, connect_once-Once}

module _ (errno : Exc → ℕ) where
  -- Why an attempt on one address fails: its socket could not be made, or not be bound to a local
  -- address, or not be connected.
  abbrev pub Reason : Target → Exc → Type 0
  Reason a e =
      (a.create ≡ err e)
      ⊎ (a.connect ≡ err e)
      ⊎ ((v : Client) × ((bind_locals errno a.locals v).0 ≡ err e))

  -- The list of an attempt ends with the reason of its failure.
  abbrev pub Said : Target → List Exc → Type 0
  Said a m = (before : List Exc) × (e : Exc) × (m ≡ before ++ e ∷ []) × Reason a e

  abbrev pub AllSaid : List Target → List (List Exc) → Type 0
  AllSaid [] [] = Unit {0}
  AllSaid [] (m ∷ ms) = ⊥
  AllSaid (a ∷ rest) [] = ⊥
  AllSaid (a ∷ rest) (m ∷ ms) = Said a m × AllSaid rest ms

  -- An attempt from `c` gives out a new socket, or leaves no socket open; and after an `OSError` its
  -- list of exceptions says why.
  abbrev Attempted : Target → Client → Result ℕ × Client → Type 0
  Attempted a c (ok k, t) = (t.live ≡ k ∷ c.live) × (c.next ≡ k)
  Attempted a c (err e, t) =
      (t.live ≡ c.live)
      × (c.next ≤ t.next)
      × (is_os_error e ≡ true → (m : List Exc) × (t.exceptions ≡ c.exceptions ++ m ∷ []) × Said a m)

  -- What the attempts in a row come to.
  unfoldable pub Tried : List Target → Client → Result (Option ℕ) × Client → Type 0
  Tried targets c (ok none, t) =
      (t.live ≡ c.live)
      × ((ms : List (List Exc)) × (t.exceptions ≡ c.exceptions ++ ms) × AllSaid targets ms)
  Tried targets c (ok (some k), t) = (t.live ≡ k ∷ c.live) × (c.next ≤ k)
  Tried targets c (err e, t) = t.live ≡ c.live

  Tried-after :
      (a : Target) (rest : List Target) (c t : Client) (m : List Exc)
      (x : Result (Option ℕ) × Client)
      → t.live ≡ c.live
      → c.next ≤ t.next
      → t.exceptions ≡ c.exceptions ++ m ∷ []
      → Said a m
      → Tried rest t x
      → Tried (a ∷ rest) c x
  unfolding Tried
  Tried-after a rest c t m (ok none, v) l le exc said (live, (ms, e, all)) = (
    live ∙ l,
    (m ∷ ms, e ∙ ap (λ x. x ++ ms) exc ∙ append_assoc c.exceptions (m ∷ []) ms, (said, all)),
  )
  Tried-after a rest c t m (ok (some k), v) l le exc said h =
      (h.0 ∙ ap (λ x. k ∷ x) l, omega (arith, le, h.1))
  Tried-after a rest c t m (err e, v) l le exc said h = h ∙ l

  abbrev number : Client → ℕ
  number c = elim c.current [ none ↦ 0 | some k ↦ k ]

  connected_reason :
      (r : Result (Unit {0})) (t : Client) (e : Exc)
      → ((lift r >> gets number) t).0 ≡ err e
      → r ≡ err e
  connected_reason (ok _) t e h = absurd cc
  connected_reason (err x) t e h = cc

  bound_reason :
      (r : Result (Unit {0})) (x : Result (Unit {0}) × Client) (t : Client) (e : Exc)
      → (((λ (_ : Client). x) >> (lift r >> gets number)) t).0 ≡ err e
      → (x.0 ≡ err e) ⊎ (r ≡ err e)
  bound_reason r (ok _, v) t e h = inr (connected_reason r v e h)
  bound_reason r (err y, v) t e h = inl cc

  created_reason :
      (a : Target) (r : Result (Unit {0})) (c : Client) (e : Exc)
      → ((lift r
            >> (open_client >> (bind_locals errno a.locals >> (lift a.connect >> gets number))))
          c).0
        ≡ err e
      → (r ≡ err e)
        ⊎ (a.connect ≡ err e)
        ⊎ ((v : Client) × ((bind_locals errno a.locals v).0 ≡ err e))
  unfolding open_client
  created_reason a (err x) c e h = inl cc
  created_reason a (ok _) c e h =
      let t = record c { next = suc c.next; live = c.next ∷ c.live; current = some c.next } in
      elim (bound_reason a.connect (bind_locals errno a.locals t) t e h) [
        | inl bound ↦ inr (inr (t, bound))
        | inr connected ↦ inr (inl connected)
      ]

  connect_once-Reason :
      (a : Target) (c : Client) (e : Exc) → (connect_once errno a c).0 ≡ err e → Reason a e
  unfolding connect_once
  connect_once-Reason a c e h = created_reason a a.create c e h

  -- The handlers, and the `finally` block.
  abbrev handled : Target → Result ℕ × Client → Result ℕ × Client
  handled a x =
      end_attempt
        (catch (catch (λ _. x) (note_failure errno)) (λ e. do close_current a.close; raise e) x.1)

  closed-Attempted :
      (a : Target) (c v : Client) (e : Exc) (x : Result (Unit {0}) × Client)
      → x.1 ≡ record v { live = c.live }
      → ((f : Exc) → x.0 ≡ err f → is_os_error f ≡ false)
      → c.next ≤ v.next
      → v.exceptions ≡ c.exceptions
      → (is_os_error e ≡ true → Said a v.mine)
      → Attempted a c (end_attempt (((λ (_ : Client). x) >> raise e) v))
  unfolding end_attempt
  closed-Attempted a c v e (ok _, t) same fails le exc said = (
    ap (λ (y : Client). y.live) same,
    subst (λ (y : Client). c.next ≤ y.next) (sym same) le,
    λ os. (
      t.mine,
      ap (λ (y : Client). y.exceptions ++ t.mine ∷ []) same ∙ ap (λ l. l ++ t.mine ∷ []) exc,
      subst (λ (y : Client). Said a y.mine) (sym same) (said os),
    ),
  )
  closed-Attempted a c v e (err f, t) same fails le exc said = (
    ap (λ (y : Client). y.live) same,
    subst (λ (y : Client). c.next ≤ y.next) (sym same) le,
    λ os. absurd (let no = fails f refl in cc),
  )

  close_current_lem :
      (answer : Result (Unit {0})) (next : ℕ) (live : List ℕ) (v : Client)
      → (((v.live ≡ live) × (v.current ≡ none))
          ⊎ ((v.live ≡ next ∷ live) × (v.current ≡ some next)))
      → (close_current answer v).1 ≡ record v { live = live }
  unfolding close_current
  close_current_lem answer next live v (inl (l, n)) = ground arith
  close_current_lem answer next live v (inr (l, n)) = ground (arith, drop-head next live)

  close_current_fails :
      (answer : Result (Unit {0})) (v : Client) (f : Exc)
      → (close_current answer v).0 ≡ err f
      → is_os_error f ≡ false
  unfolding close_current
  close_current_fails answer v f h = ground arith

  noted : Exc → Client → Client
  noted e t = if is_os_error e then record t { mine = t.mine ++ e ∷ [] } else t

  note_failure_lem : (e : Exc) (t : Client) → note_failure errno e t ≡ (err e, noted e t)
  unfolding note_failure note noted
  note_failure_lem e t = ground arith

  noted-mine : (e : Exc) (t : Client) → is_os_error e ≡ true → (noted e t).mine ≡ t.mine ++ e ∷ []
  unfolding noted
  noted-mine e t h = ground arith

  noted_same :
      (e : Exc) (t : Client)
      → ((noted e t).live ≡ t.live)
        × ((noted e t).current ≡ t.current)
        × ((noted e t).exceptions ≡ t.exceptions)
        × ((noted e t).next ≡ t.next)
  unfolding noted
  noted_same e t = ground arith

  still_open :
      (e : Exc) (t : Client) (next : ℕ) (live : List ℕ)
      → (((t.live ≡ live) × (t.current ≡ none))
          ⊎ ((t.live ≡ next ∷ live) × (t.current ≡ some next)))
      → let v = noted e t in
        (((v.live ≡ live) × (v.current ≡ none))
          ⊎ ((v.live ≡ next ∷ live) × (v.current ≡ some next)))
  still_open e t next live (inl (l, n)) = let (a, b, _, _) = noted_same e t in inl (a ∙ l, b ∙ n)
  still_open e t next live (inr (l, n)) = let (a, b, _, _) = noted_same e t in inr (a ∙ l, b ∙ n)

  handled-Attempted :
      (a : Target) (c : Client) (x : Result ℕ × Client)
      → ((e : Exc) → x.0 ≡ err e → Reason a e)
      → Once errno c x
      → Attempted a c (handled a x)
  unfolding Once end_attempt
  handled-Attempted a c (ok k, t) why h = (h.0, h.2)
  handled-Attempted a c (err e, t) why h =
      let v = noted e t in
      subst
        (λ (y : Result ℕ × Client).
          Attempted a c (end_attempt (catch (λ _. y) (λ f. do close_current a.close; raise f) t)))
        (sym (note_failure_lem e t))
        (closed-Attempted a c v e (close_current a.close v)
          (close_current_lem a.close c.next c.live v (still_open e t c.next c.live h.2))
          (close_current_fails a.close v) (subst (λ k. c.next ≤ k) (sym (noted_same e t).3) h.1)
          ((noted_same e t).2 ∙ h.0) (λ os. (t.mine, e, noted-mine e t os, why e refl)))

  connect_sock-Attempted : (a : Target) (c : Client) → Attempted a c (connect_sock errno a c)
  unfolding connect_sock start_attempt
  connect_sock-Attempted a c =
      handled-Attempted a (start_attempt c).1 (connect_once errno a (start_attempt c).1)
        (connect_once-Reason a (start_attempt c).1)
        (connect_once-Once errno a (start_attempt c).1 refl)

  try_step :
      (a : Target) (rest : List Target) (c : Client) (x : Result ℕ × Client)
      → Attempted a c x
      → ((t : Client) → Tried rest t (try_targets errno rest t))
      → Tried (a ∷ rest) c (
          try_else
            (λ _. x)
            (λ e. if is_os_error e then try_targets errno rest else raise e)
            (λ k. pure (some k))
            c)
  unfolding Tried
  try_step a rest c (ok k, t) h next = (h.0, omega (arith, h.1))
  try_step a rest c (err e, t) h next = elim (Bool-cases (is_os_error e)) [
    | inl os ↦ rw os (
        let (m, exc, said) = h.2 os in
        Tried-after a rest c t m (try_targets errno rest t) h.0 h.1 exc said (next t))
    | inr escapes ↦ rw escapes (h.0)
  ]

  pub try_targets-Tried :
      (targets : List Target) (c : Client) → Tried targets c (try_targets errno targets c)
  unfolding try_targets Tried
  try_targets-Tried [] c = (refl, ([], sym (append-nil c.exceptions), tt))
  try_targets-Tried (a ∷ rest) c =
      try_step a rest c (connect_sock errno a c) (connect_sock-Attempted a c)
        (try_targets-Tried rest)
