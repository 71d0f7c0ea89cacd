-- ===== src/Transport/Tls.antt =====
-- `start_tls` of python/tokioop/loop.py on a stream transport. The SSL protocol is the standard
-- library's: its constructor and its handshake, for which the coroutine waits, are parameters.
pub mod Handover
pub mod Ended
mod Tests
use tokioop.Prelude.{
  ℕ, Bool, true, false, not, Option, none, some, List, [], ◌∷◌, ◌++◌, if◌then◌else◌,
}
use tokioop.Python.{
  Bytes, Exc, runtime_error, type_error, Result, ok, err, Method, raise, modify, when, raise_if,
  lift, try_else, skip, ◌>>=◌, ◌>>◌,
}
use tokioop.Transport.Core
use tokioop.Transport.Core.{Protocol}
use tokioop.Transport.Stream.{Stream, base}
use tokioop.Transport.Write.{close}
use tokioop.Transport.Read.{set_protocol}

-- The callbacks that `start_tls` gives to `call_soon`: `ssl_protocol.connection_made` and
-- `transport.resume_reading`.
pub data Handle : Type 0 where
  connection_made resume_reading : Handle

pub record Tls : Type 0 where
  pub stream : Stream
  -- What the user's `StreamReader` has buffered, if the protocol is a `StreamReaderProtocol` that has
  -- a reader, and what was written to the SSL protocol's incoming BIO.
  pub reader_buffer : Option Bytes
  pub incoming : Bytes
  -- The callbacks of this call that are scheduled and not cancelled.
  pub handles : List Handle

pub record TlsArgs : Type 0 where
  -- The ssl module is there; the context is an `ssl.SSLContext`; the transport's
  -- `_start_tls_compatible`.
  pub has_ssl : Bool
  pub is_context : Bool
  pub compatible : Bool
  pub server_side : Bool

abbrev pub on_stream : {A : Type 0} → Method Stream A → Method Tls A
on_stream m x = let (r, s) = m x.stream in (r, record x { stream = s })

unfoldable pub check_tls : TlsArgs → Method Tls (Unit {0})
check_tls a = do
  raise_if (not a.has_ssl) runtime_error
  raise_if (not a.is_context) type_error
  raise_if (not a.compatible) type_error

-- `ssl_protocol._incoming.write(buffer); buffer.clear()`
unfoldable pub move_buffer : Option Bytes → Tls → Tls
move_buffer none x = x
move_buffer (some buffer) x = record x { reader_buffer = some []; incoming = x.incoming ++ buffer }

-- `self.call_soon`, which a closed loop refuses.
unfoldable pub call_soon : Handle → Method Tls (Unit {0})
call_soon h = do
  (λ x. raise_if x.stream.loop_closed runtime_error x)
  modify λ x. record x { handles = x.handles ++ h ∷ [] }

unfoldable pub cancel : Handle → List Handle → List Handle
cancel h [] = []
cancel connection_made (connection_made ∷ rest) = cancel connection_made rest
cancel connection_made (resume_reading ∷ rest) = resume_reading ∷ cancel connection_made rest
cancel resume_reading (resume_reading ∷ rest) = cancel resume_reading rest
cancel resume_reading (connection_made ∷ rest) = connection_made ∷ cancel resume_reading rest

-- From the pause to the two callbacks; `p` is the SSL protocol.
unfoldable pub hand_over : Bool → Protocol → Method Tls (Unit {0})
hand_over server_side p = do
  on_stream (base Core.pause_reading)
  when server_side (modify λ x. move_buffer x.reader_buffer x)
  on_stream (set_protocol p)
  call_soon connection_made
  call_soon resume_reading

-- `except BaseException: ... raise`
unfoldable pub give_up : Exc → Method Tls (Unit {0})
give_up e = do
  on_stream close
  modify λ x. record x { handles = cancel connection_made x.handles }
  modify λ x. record x { handles = cancel resume_reading x.handles }
  raise e

-- `make` is what the constructor of the SSL protocol answers, `wait` what comes of the waiter, with
-- all that the loop does meanwhile.
unfoldable pub start_tls :
    Result (Unit {0}) → Method Tls (Unit {0}) → TlsArgs → Protocol → Method Tls (Unit {0})
start_tls make wait a p = do
  check_tls a
  lift make
  hand_over a.server_side p
  try_else wait give_up (λ _. skip)
