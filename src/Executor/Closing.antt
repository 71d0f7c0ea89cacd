-- ===== src/Executor/Closing.antt =====
-- What `shutdown_asyncgens` reports.
use tokioop.Prelude.{
  ℕ, ◌≡◌, refl, ap, ◌∙◌, Bool-cases, inl, inr, true, false, List, [], ◌∷◌, ◌++◌, append-nil,
  append_assoc, if◌then◌else◌, is_empty, map, concat,
}
use tokioop.Python.{Exc, Result, ok, err, Method}
use tokioop.Executor.{Asyncgens, is_exception, report_failures, shutdown_asyncgens}

-- The generators with their results, as far as there are both.
abbrev pub paired : List ℕ → List (Result (Unit {0})) → List (ℕ × Result (Unit {0}))
paired [] results = []
paired (agen ∷ agens) [] = []
paired (agen ∷ agens) (r ∷ rs) = (agen, r) ∷ paired agens rs

-- What is reported of one of them.
abbrev pub failure : ℕ × Result (Unit {0}) → List (ℕ × Exc)
failure (agen, ok _) = []
failure (agen, err e) = if is_exception e then (agen, e) ∷ [] else []

abbrev pub failures : List ℕ → List (Result (Unit {0})) → List (ℕ × Exc)
failures agens results = concat (map failure (paired agens results))

report_failures_lem :
    (agens : List ℕ) (rs : List (Result (Unit {0}))) (a : Asyncgens)
    → report_failures agens rs a ≡ (ok tt, record a { reported = a.reported ++ failures agens rs })
unfolding report_failures
report_failures_lem [] rs a = rw (append-nil a.reported) refl
report_failures_lem (agen ∷ agens) [] a = rw (append-nil a.reported) refl
report_failures_lem (agen ∷ agens) (ok _ ∷ rs) a = report_failures_lem agens rs a
report_failures_lem (agen ∷ agens) (err e ∷ rs) a = elim (Bool-cases (is_exception e)) [
  | inl x ↦ rw x (
      report_failures_lem agens rs (record a { reported = a.reported ++ (agen, e) ∷ [] })
      ∙ ap (λ l. (ok tt, record a { reported = l }))
          (append_assoc a.reported ((agen, e) ∷ []) (failures agens rs)))
  | inr n ↦ rw n (report_failures_lem agens rs a)
]

-- The end, by what the wait for the generators comes to: the failures are reported, or what the wait
-- raised comes out.
abbrev pub reported_after :
    List ℕ → Result (List (Result (Unit {0}))) × Asyncgens → Result (Unit {0}) × Asyncgens
reported_after agens (ok results, t) =
    (ok tt, record t { reported = t.reported ++ failures agens results })
reported_after agens (err e, t) = (err e, t)

waited_lem :
    (agens : List ℕ) (x : Result (List (Result (Unit {0}))) × Asyncgens)
    → (let (r, t) = x in
        elim r as (λ _. Result (Unit {0}) × Asyncgens) [
          | ok results ↦ report_failures agens results t
          | err e ↦ (err e, t)
        ])
      ≡ reported_after agens x
waited_lem agens (ok results, t) = report_failures_lem agens results t
waited_lem agens (err e, t) = refl

-- `shutdown_asyncgens`, where there are generators: it forgets those that there are, waits for their
-- `aclose`, whatever happens meanwhile, and then reports exactly those that failed with an
-- `Exception`, each with its exception, in order; what the wait itself raises comes out, and then nothing
-- is reported.
pub shutdown_asyncgens_lem :
    (gather : List ℕ → Method Asyncgens (List (Result (Unit {0})))) (a : Asyncgens)
    → is_empty a.asyncgens ≡ false
    → shutdown_asyncgens gather a
      ≡ reported_after a.asyncgens
          (gather a.asyncgens (record a { shutdown_called = true; asyncgens = [] }))
unfolding shutdown_asyncgens
shutdown_asyncgens_lem gather a h = rw h (
    waited_lem a.asyncgens
      (gather a.asyncgens (record a { shutdown_called = true; asyncgens = [] })))
