-- ===== src/Client/Report.antt =====
-- What `create_connection` raises when every attempt failed.
use tokioop.Prelude.{◌≤◌, if◌then◌else◌, ◌≡◌, Bool, true, false, List, [], ◌∷◌, length, is_empty}
use tokioop.Python.{Exc}
use tokioop.Client.{Client, Failure, group, multiple, single, empty_group, timed_out, all_same}

-- All exceptions of the list have the text of the first one.
abbrev pub Alike : (Exc → Exc → Bool) → Exc → List Exc → Type 0
Alike same model [] = Unit {0}
Alike same model (e ∷ es) = (same e model ≡ true) × Alike same model es

-- What is raised for the exceptions of the attempts, in the order of their lists: all of them as a group
-- where that is asked for; else the first, where it is the only one or all have its text; else one
-- exception that is made of all.
abbrev pub Explains : (Exc → Exc → Bool) → Bool → List Exc → Failure → Type 0
Explains same all_errors causes (group es) =
    (all_errors ≡ true) × (es ≡ causes) × (is_empty causes ≡ false)
Explains same all_errors causes (single e) =
    (all_errors ≡ false) × (rest : List Exc) × (causes ≡ e ∷ rest) × Alike same e rest
Explains same all_errors causes (multiple es) =
    (all_errors ≡ false) × (es ≡ causes) × (2 ≤ length causes)
Explains same all_errors causes empty_group = ⊥
Explains same all_errors causes timed_out = ⊥

-- What is raised, by the list of all exceptions.
abbrev raised : (Exc → Exc → Bool) → Bool → List Exc → Failure
raised same all_errors causes = elim causes [
  | [] ↦ if all_errors then empty_group else timed_out
  | e ∷ es ↦
      if all_errors
      then group (e ∷ es)
      else if is_empty es
      then single e
      else if all_same same e (e ∷ es)
      then single e
      else multiple (e ∷ es)
]
