-- ===== src/Policy.antt =====
-- The event-loop policy, python/tokioop/policy.py, and `install` of python/tokioop/__init__.py.
pub mod Laws
mod Tests
use tokioop.Prelude.{
  ℕ, suc, Bool, true, false, Option, none, some, List, [], ◌∷◌, ◌==◌, if◌then◌else◌,
}
use tokioop.Python.{
  Exc, runtime_error, Result, ok, err, Method, pure, raise, modify, gets, ◌>>=◌, ◌>>◌,
}

-- The loops are numbered. A policy keeps one per thread, `_LoopLocal`; a thread that set none reads
-- the class's `_loop`, which is `None`.
pub record Policy : Type 0 where
  pub local : List (ℕ × Option ℕ)

-- asyncio's current policy, the number of the next loop, and the policies by their number.
pub record Asyncio : Type 0 where
  pub next_loop : ℕ
  pub policies : List Policy
  pub current : Option ℕ

unfoldable pub loop_of : ℕ → List (ℕ × Option ℕ) → Option ℕ
loop_of thread [] = none
loop_of thread ((t, loop) ∷ rest) =
    let later = loop_of thread rest in if t == thread then loop else later

unfoldable pub get_event_loop : ℕ → Method Policy ℕ
get_event_loop thread p = elim (loop_of thread p.local) [
  | none ↦ (err runtime_error, p)
  | some loop ↦ (ok loop, p)
]

unfoldable pub set_event_loop : ℕ → Option ℕ → Method Policy (Unit {0})
set_event_loop thread loop = modify λ p. record p { local = (thread, loop) ∷ p.local }

-- `new_event_loop` of the policy and of the package; `RustEventLoop()` is a new object.
unfoldable pub new_event_loop : Method Asyncio ℕ
new_event_loop a = (ok a.next_loop, record a { next_loop = suc a.next_loop })

abbrev new_policy : Policy
new_policy = record { local = [] }

-- The policies are kept newest first; each has the number of those that were made before it.
unfoldable pub count : List Policy → ℕ
count [] = 0
count (p ∷ rest) = suc (count rest)

unfoldable pub make_policy : Method Asyncio ℕ
make_policy a = (ok (count a.policies), record a { policies = new_policy ∷ a.policies })

unfoldable pub install : Option ℕ → Method Asyncio ℕ
install policy = do
  k ← elim policy as (λ _. Method Asyncio ℕ) [ none ↦ make_policy | some k ↦ pure k ]
  modify λ a. record a { current = some k }
  pure k
