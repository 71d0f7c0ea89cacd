-- ===== src/Transport/Core.antt =====
-- `_SelectorTransport` of python/tokioop/transports.py: the attributes and those methods that call
-- no protocol. The loop's side of a transport, its registrations for the descriptor and its queue
-- of callbacks, is part of the state. `A` is what the write buffer holds, `D` a stored delivery.
pub mod Frame
use tokioop.Prelude.{
  ℕ, ◌+◌, Bool, true, false, not, ◌&&◌, Option, none, some, List, [], ◌∷◌, ◌++◌, ltb, is_empty,
  is_some, if◌then◌else◌,
}
use tokioop.Python.{
  Exc, runtime_error, attribute_error, is_os_error, Method, gets, raise, modify, skip, when, ◌>>=◌,
  ◌>>◌,
}

-- The protocol object of the user: which one, and whether it is a `BufferedProtocol`.
pub record Protocol : Type 0 where
  pub id : ℕ
  pub buffered : Bool

-- `_drain_kind`, where it is not `None`.
pub data DrainKind : Type 0 where
  tcp udp : DrainKind

-- How the loop watches the descriptor for reading.
pub data Reader : Type 0 where
  drain_tcp drain_udp read_ready : Reader

-- What the transport hands to `call_soon`.
pub data Callback : Type 0 where
  connection_made register wake_waiter : Callback
  connection_lost : Option Exc → Callback

pub record Core (A D : Type 0) : Type 0 where
  -- `_sock` and `_loop` are not `None`.
  pub sock : Bool
  pub loop : Bool
  pub protocol : Option Protocol
  pub protocol_connected : Bool
  pub server : Bool
  pub buffer : List A
  pub conn_lost : ℕ
  pub closing : Bool
  pub paused : Bool
  pub replay : List D
  pub drain_kind : Option DrainKind
  -- The loop: closed or not, the reader and the writer of this descriptor, the callbacks that the
  -- transport has scheduled, and the exceptions given to `call_exception_handler`.
  pub loop_closed : Bool
  pub reader : Option Reader
  pub writer : Bool
  pub ready : List Callback
  pub reported : List Exc

module _ {A D : Type 0} where
  -- A call `self._loop.m()`: an `AttributeError` once `_loop` is `None`.
  abbrev pub on_loop : Method (Core A D) (Unit {0}) → Method (Core A D) (Unit {0})
  on_loop m c = if c.loop then m c else raise attribute_error c

  -- The loop refuses new work once it is closed.
  abbrev pub on_open_loop : (Core A D → Core A D) → Method (Core A D) (Unit {0})
  on_open_loop f = on_loop λ c. if c.loop_closed then raise runtime_error c else modify f c

  abbrev pub if_open : (Core A D → Core A D) → Method (Core A D) (Unit {0})
  if_open f = on_loop λ c. if c.loop_closed then skip c else modify f c

  unfoldable pub add_reader : Reader → Method (Core A D) (Unit {0})
  add_reader k = on_open_loop λ c. record c { reader = some k }

  unfoldable pub add_writer : Method (Core A D) (Unit {0})
  add_writer = on_open_loop λ c. record c { writer = true }

  unfoldable pub remove_reader : Method (Core A D) (Unit {0})
  remove_reader = if_open λ c. record c { reader = none }

  unfoldable pub remove_writer : Method (Core A D) (Unit {0})
  remove_writer = if_open λ c. record c { writer = false }

  unfoldable pub call_soon : Callback → Method (Core A D) (Unit {0})
  call_soon cb = on_open_loop λ c. record c { ready = c.ready ++ cb ∷ [] }

  unfoldable pub call_exception_handler : Exc → Method (Core A D) (Unit {0})
  call_exception_handler e = on_loop (modify λ c. record c { reported = c.reported ++ e ∷ [] })

  -- `if self._loop.get_debug(): logger.debug(...)`
  abbrev pub debug_log : Method (Core A D) (Unit {0})
  debug_log = on_loop skip

  abbrev pub is_polling : Core A D → Bool
  is_polling c = is_some c.reader

  unfoldable pub is_reading : Core A D → Bool
  is_reading c = not c.closing && not c.paused

  unfoldable pub pause_reading : Method (Core A D) (Unit {0})
  pause_reading = do
    reading ← gets is_reading
    if not reading then skip else do
      modify (λ c. record c { paused = true })
      kind ← gets (λ c. c.drain_kind)
      when (not (is_some kind)) remove_reader
      debug_log

  abbrev pub register_kind : Option DrainKind → Method (Core A D) (Unit {0})
  register_kind (some udp) = add_reader drain_udp
  register_kind (some tcp) = add_reader drain_tcp
  register_kind none = add_reader read_ready

  unfoldable pub register_reader : Method (Core A D) (Unit {0})
  register_reader = do
    reading ← gets is_reading
    kind ← gets (λ c. c.drain_kind)
    if not reading then skip else register_kind kind

  unfoldable pub close : Method (Core A D) (Unit {0})
  close = do
    closing ← gets (λ c. c.closing)
    if closing then skip else do
      modify (λ c. record c { closing = true })
      remove_reader
      buffer ← gets (λ c. c.buffer)
      if not (is_empty buffer) then skip else do
        modify (λ c. record c { conn_lost = c.conn_lost + 1 })
        remove_writer
        call_soon (connection_lost none)

  unfoldable pub force_close : Option Exc → Method (Core A D) (Unit {0})
  force_close exc = do
    lost ← gets (λ c. c.conn_lost)
    if ltb 0 lost then skip else do
      buffer ← gets (λ c. c.buffer)
      when (not (is_empty buffer)) do modify (λ c. record c { buffer = [] }); remove_writer
      closing ← gets (λ c. c.closing)
      when (not closing) do modify (λ c. record c { closing = true }); remove_reader
      modify (λ c. record c { conn_lost = c.conn_lost + 1 })
      call_soon (connection_lost exc)

  unfoldable pub abort : Method (Core A D) (Unit {0})
  abort = force_close none

  unfoldable pub fatal_error : Exc → Method (Core A D) (Unit {0})
  fatal_error e = do
    if is_os_error e then debug_log else call_exception_handler e
    force_close (some e)
