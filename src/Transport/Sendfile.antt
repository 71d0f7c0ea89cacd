-- ===== src/Transport/Sendfile.antt =====
-- `sendfile` of python/tokioop/loop.py on a stream transport: the checks, the attempt that is called
-- native, and what comes when it is not available.
pub mod Native
pub mod Fallback
mod Tests
use tokioop.Prelude.{
  ℕ, suc, Bool, true, false, not, ◌&&◌, Option, none, some, List, [], ◌∷◌, ◌==◌, length, is_some,
  if◌then◌else◌,
}
use tokioop.Python.{
  Exc, value_error, type_error, runtime_error, not_available, other, Result, ok, err, Method, pure,
  raise, skip, gets, modify, when, raise_if, lift, try_else, ◌>>=◌, ◌>>◌,
}
use tokioop.Transport.Core
use tokioop.Transport.Stream.{Stream, User, base}
use tokioop.Transport.Write.{make_empty_waiter, reset_empty_waiter}
use tokioop.Transport.Read.{resume_reading}

-- A number as it is given.
pub data IntArg : Type 0 where
  number negative : ℕ → IntArg
  no_int : IntArg

pub record SendfileArgs : Type 0 where
  -- The file is in binary mode; of the socket: its type, its timeout is not 0, and it is an SSL one.
  pub binary : Bool
  pub is_stream : Bool
  pub blocking : Bool
  pub is_ssl : Bool
  pub debug : Bool
  pub offset : IntArg
  pub count : Option IntArg
  pub fallback : Bool

module _ {S : Type 0} where
  unfoldable pub check_count : Option IntArg → Method S (Unit {0})
  check_count none = skip
  check_count (some no_int) = raise type_error
  check_count (some (negative n)) = raise value_error
  check_count (some (number n)) = raise_if (n == 0) value_error

  unfoldable pub check_offset : IntArg → Method S (Unit {0})
  check_offset no_int = raise type_error
  check_offset (negative n) = raise value_error
  check_offset (number n) = skip

  unfoldable pub check_sendfile_params : SendfileArgs → Method S (Unit {0})
  check_sendfile_params a = do
    raise_if (not a.binary) value_error
    raise_if (not a.is_stream) value_error
    check_count a.count
    check_offset a.offset

  -- `_sock_sendfile_native` always raises.
  unfoldable pub sock_sendfile_native : Method S ℕ
  sock_sendfile_native = raise not_available

  unfoldable pub unavailable : Bool → Method S ℕ → Exc → Method S ℕ
  unavailable fallback copy not_available = if fallback then copy else raise not_available
  unavailable fallback copy e = raise e

  -- `copy` is `_sock_sendfile_fallback`.
  unfoldable pub sock_sendfile : SendfileArgs → Bool → Method S ℕ → Method S ℕ
  sock_sendfile a fallback copy = do
    raise_if (a.debug && a.blocking) value_error
    raise_if a.is_ssl type_error
    check_sendfile_params a
    try_else sock_sendfile_native (unavailable fallback copy) pure

-- A transport, and whether it is in the loop's `_transports`.
pub record Transfer : Type 0 where
  pub stream : Stream
  pub registered : Bool

abbrev pub on_stream : {A : Type 0} → Method Stream A → Method Transfer A
on_stream m x = let (r, s) = m x.stream in (r, record x { stream = s })

-- `del self._transports[transp._sock_fd]`; a missing key is a `KeyError`.
unfoldable pub unregister : Method Transfer (Unit {0})
unregister x = elim x.registered [
  | true ↦ (ok tt, record x { registered = false })
  | false ↦ (err (other 0), x)
]

unfoldable pub register_again : Method Transfer (Unit {0})
register_again = modify λ x. record x { registered = true }

-- The steps before the attempt; they give out whether reading is to be resumed.
unfoldable pub prepare : Method Stream (Unit {0}) → Method Transfer Bool
prepare wait = do
  unregister
  resume ← gets (λ x. Core.is_reading (x.stream.core))
  on_stream (base Core.pause_reading)
  on_stream make_empty_waiter
  on_stream wait
  pure resume

pub data Mode : Type 0 where
  unsupported try_native fallback_only : Mode

unfoldable pub copy_or_refuse : Bool → Method Transfer ℕ → Method Transfer ℕ
copy_or_refuse fallback copy = if fallback then copy else raise runtime_error

unfoldable pub native_failed : Bool → Method Transfer ℕ → Exc → Method Transfer ℕ
native_failed fallback copy not_available =
    if fallback then copy_or_refuse fallback copy else raise not_available
native_failed fallback copy e = raise e

module _ (u : User) where
  -- One more round than there are deliveries is enough for user code that leaves the transport alone.
  unfoldable pub resume_stream : Method Stream (Unit {0})
  resume_stream s = elim (resume_reading u (suc (length s.replay)) s) [
    | none ↦ (ok tt, s)
    | some x ↦ x
  ]

  -- The `finally` block of `_sendfile_native`, after the attempt's result.
  unfoldable pub restore : Bool → Result ℕ → Method Transfer ℕ
  restore resume r = do
    on_stream reset_empty_waiter
    when resume (on_stream resume_stream)
    register_again
    lift r

  -- `_sendfile_native`. `wait` is what comes of the waiter, with all that happens meanwhile.
  unfoldable pub sendfile_native : Method Stream (Unit {0}) → SendfileArgs → Method Transfer ℕ
  sendfile_native wait a = do
    resume ← prepare wait
    λ x. let (r, t) = sock_sendfile a false (raise not_available) x in restore resume r t

  -- `sendfile`; `copy` is `_sendfile_fallback`.
  unfoldable pub sendfile :
      Mode → Method Stream (Unit {0}) → Method Transfer ℕ → SendfileArgs → Method Transfer ℕ
  sendfile mode wait copy a x = if x.stream.closing then (err runtime_error, x) else elim mode [
    | unsupported ↦ (err runtime_error, x)
    | try_native ↦ try_else (sendfile_native wait a) (native_failed a.fallback copy) pure x
    | fallback_only ↦ copy_or_refuse a.fallback copy x
  ]
