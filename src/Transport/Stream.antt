-- ===== src/Transport/Stream.antt =====
-- The state of `_SelectorSocketTransport` of python/tokioop/transports.py, the calls that it makes
-- to the user's protocol, and its end, `_call_connection_lost`.
use tokioop.Prelude.{
  ◌≡◌, true, arith, ℕ, suc, Bool, false, not, Option, none, some, List, [], ◌∷◌, ◌++◌, take,
  if◌then◌else◌,
}
use tokioop.Python.{
  Bytes, Exc, attribute_error, connection_error, invalid_state, Result, ok, err, Method, gets,
  modify, when, finally, raise_if, ◌>>=◌, ◌>>◌,
}
use tokioop.Transport.Core.{Core}

-- A delivery that was taken from the kernel while reading was paused.
pub data Delivery : Type 0 where
  chunk : Bytes → Delivery
  failure : Exc → Delivery

-- A call of a method of the protocol.
pub data Call : Type 0 where
  connection_made : Call
  data_received : Bytes → Call
  eof_received get_buffer : Call
  buffer_updated : ℕ → Call
  connection_lost : Option Exc → Call

-- The future of `_make_empty_waiter`.
pub data Waiter : Type 0 where
  pending finished cancelled : Waiter
  failed : Exc → Waiter

-- What `_write_ready` and `_read_ready_cb` are bound to.
pub data WriteReady : Type 0 where
  write_sendmsg write_send : WriteReady

pub data ReadReady : Type 0 where
  get_buffer data_received : ReadReady

pub record Stream : Type 0 where
  pub core : Core Bytes Delivery
  pub open core use *
  pub eof : Bool
  pub empty_waiter : Option Waiter
  pub write_ready : Option WriteReady
  pub read_ready_cb : Option ReadReady
  -- What the kernel took, how often the write side was shut down, and the protocol's calls.
  pub sent : Bytes
  pub shut : ℕ
  pub calls : List Call

-- The code of the user and of the standard library that the transport calls. Each may do anything
-- to the transport. The last two are `transports._FlowControlMixin`.
pub record User : Type 0 where
  pub connection_made : Method Stream (Unit {0})
  pub data_received : Bytes → Method Stream (Unit {0})
  pub eof_received : Method Stream Bool
  pub get_buffer : Method Stream ℕ
  pub buffer_updated : ℕ → Method Stream (Unit {0})
  pub connection_lost : Option Exc → Method Stream (Unit {0})
  pub maybe_pause_protocol : Method Stream (Unit {0})
  pub maybe_resume_protocol : Method Stream (Unit {0})

-- A method of the base class.
abbrev pub base : {A : Type 0} → Method (Core Bytes Delivery) A → Method Stream A
base m s = let (r, c) = m s.core in (r, record s { core = c })

-- `self._protocol.m(...)`
abbrev pub on_protocol : {A : Type 0} → Call → Method Stream A → Method Stream A
on_protocol call m s = elim s.protocol [
  | none ↦ (err attribute_error, s)
  | some p ↦ m (record s { calls = s.calls ++ call ∷ [] })
]

-- `self._sock.send(payload)` with the kernel's answer.
unfoldable pub sock_send : Bytes → Result ℕ → Method Stream ℕ
sock_send payload answer s =
    if s.sock
    then elim answer [
      | ok n ↦ (ok n, record s { sent = s.sent ++ take n payload })
      | err e ↦ (err e, s)
    ]
    else (err attribute_error, s)

pub sock_send_ok :
    (payload : Bytes) (n : ℕ) (s : Stream)
    → s.sock ≡ true
    → sock_send payload (ok n) s ≡ (ok n, record s { sent = s.sent ++ take n payload })
unfolding sock_send
sock_send_ok payload n s h = ground arith

pub sock_send_err :
    (payload : Bytes) (e : Exc) (s : Stream)
    → s.sock ≡ true
    → sock_send payload (err e) s ≡ (err e, s)
unfolding sock_send
sock_send_err payload e s h = ground arith

-- `self._sock.shutdown(socket.SHUT_WR)`
unfoldable pub shutdown : Result (Unit {0}) → Method Stream (Unit {0})
shutdown answer s =
    if s.sock
    then elim answer [ ok _ ↦ (ok tt, record s { shut = suc s.shut }) | err e ↦ (err e, s) ]
    else (err attribute_error, s)

-- `if self._empty_waiter is not None: self._empty_waiter.set_result(...)`, or `set_exception`.
unfoldable pub settle : Waiter → Method Stream (Unit {0})
settle w s = elim s.empty_waiter [
  | none ↦ (ok tt, s)
  | some pending ↦ (ok tt, record s { empty_waiter = some w })
  | some _ ↦ (err invalid_state, s)
]

-- The `finally` block of the base class.
unfoldable pub release : {A D : Type 0} → Method (Core A D) (Unit {0})
release = do
  sock ← gets (λ c. c.sock)
  raise_if (not sock) attribute_error
  modify λ c. record c { sock = false; protocol = none; loop = false; server = false }

module _ (u : User) where
  unfoldable pub call_connection_lost : Option Exc → Method Stream (Unit {0})
  unfolding release settle
  call_connection_lost exc =
      finally
        (finally
          (do
            connected ← gets (λ s. s.protocol_connected)
            when connected (on_protocol (Call.connection_lost exc) (u.connection_lost exc)))
          (base release))
        (do modify (λ s. record s { write_ready = none }); settle (failed connection_error))
