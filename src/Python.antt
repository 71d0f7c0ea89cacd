-- ===== src/Python.antt =====
-- Python statements over an object's state: exceptions, `try`, `finally`, and sequencing. What was
-- written before a raise stays written.
pub mod Rules
pub mod Returns
use tokioop.Prelude.{ℕ, Bool, true, false, List}

-- Bytes objects; a byte is a number.
abbrev pub Bytes : Type 0
Bytes = List ℕ

-- The exceptions that the code tells apart. `os_error` carries its errno, `other` is any further
-- subclass of `Exception`.
pub data Exc : Type 0 where
  blocking_io interrupted connection_aborted connection_error file_not_found : Exc
  os_error : ℕ → Exc
  system_exit keyboard_interrupt : Exc
  attribute_error type_error value_error runtime_error assertion_error index_error : Exc
  timeout_error invalid_state not_available cancelled_error : Exc
  other : ℕ → Exc

-- `except (BlockingIOError, InterruptedError)`
abbrev pub would_block : Exc → Bool
would_block blocking_io = true
would_block interrupted = true
would_block _ = false

-- `except (SystemExit, KeyboardInterrupt)`
abbrev pub is_exit : Exc → Bool
is_exit system_exit = true
is_exit keyboard_interrupt = true
is_exit _ = false

-- `isinstance(exc, OSError)`: `TimeoutError` is one too.
abbrev pub is_os_error : Exc → Bool
is_os_error blocking_io = true
is_os_error interrupted = true
is_os_error connection_aborted = true
is_os_error connection_error = true
is_os_error file_not_found = true
is_os_error (os_error n) = true
is_os_error timeout_error = true
is_os_error _ = false

pub data Result (A : Type 0) : Type 0 where
  ok : A → Result A
  err : Exc → Result A

-- A method body over the state `S`.
abbrev pub Method : Type 0 → Type 0 → Type 0
Method S A = S → Result A × S

module _ {S A : Type 0} where
  abbrev pub pure : A → Method S A
  pure a s = (ok a, s)

  abbrev pub raise : Exc → Method S A
  raise e s = (err e, s)

  abbrev pub gets : (S → A) → Method S A
  gets f s = (ok (f s), s)

  -- The result of a call outside the program: a value, or an exception that it raises.
  abbrev pub lift : Result A → Method S A
  lift r s = (r, s)

abbrev pub modify : {S : Type 0} → (S → S) → Method S (Unit {0})
modify f s = (ok tt, f s)

abbrev pub skip : {S : Type 0} → Method S (Unit {0})
skip s = (ok tt, s)

infixl 5 ◌>>=◌ ◌>>◌
abbrev pub ◌>>=◌ : {S A B : Type 0} → Method S A → (A → Method S B) → Method S B
◌>>=◌ m f s = let (r, s') = m s in elim r [ ok a ↦ f a s' | err e ↦ (err e, s') ]

abbrev pub ◌>>◌ : {S B : Type 0} → Method S (Unit {0}) → Method S B → Method S B
m >> k = m >>= λ _. k

-- `try: m except: handler`
abbrev pub catch : {S A : Type 0} → Method S A → (Exc → Method S A) → Method S A
catch m handler s = let (r, s') = m s in elim r [ ok a ↦ (ok a, s') | err e ↦ handler e s' ]

-- `try: m except: handler else: next`
abbrev pub try_else :
    {S A B : Type 0} → Method S A → (Exc → Method S B) → (A → Method S B) → Method S B
try_else m handler next s = let (r, s') = m s in elim r [ ok a ↦ next a s' | err e ↦ handler e s' ]

-- `try: m finally: cleanup`; an exception of the cleanup replaces that of the body.
abbrev pub finally : {S A : Type 0} → Method S A → Method S (Unit {0}) → Method S A
finally m cleanup s =
    let (r, s') = m s in
    let (c, s'') = cleanup s' in elim c [ ok _ ↦ (r, s'') | err e ↦ (err e, s'') ]

abbrev pub when : {S : Type 0} → Bool → Method S (Unit {0}) → Method S (Unit {0})
when b m s = elim b [ true ↦ m s | false ↦ (ok tt, s) ]

abbrev pub raise_if : {S : Type 0} → Bool → Exc → Method S (Unit {0})
raise_if b e s = elim b [ true ↦ (err e, s) | false ↦ (ok tt, s) ]
