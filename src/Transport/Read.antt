-- ===== src/Transport/Read.antt =====
-- The read side of `_SelectorSocketTransport`: the deliveries of the drain-mode reader, the two
-- read callbacks, the replay of what arrived while reading was paused, and `set_protocol`.
pub mod Mode
pub mod Order
pub mod Replay
use tokioop.Prelude.{
  ℕ, zero, suc, Bool, true, false, not, ◌&&◌, ◌||◌, Option, none, some, List, [], ◌∷◌, ◌++◌, ltb,
  ◌==◌, is_empty, is_some, if◌then◌else◌,
}
use tokioop.Python.{
  Bytes, Exc, would_block, is_exit, type_error, runtime_error, attribute_error, Result, ok, err,
  Method, gets, raise, modify, skip, when, try_else, raise_if, lift, ◌>>=◌, ◌>>◌,
}
use tokioop.Transport.Core
use tokioop.Transport.Core.{Core, Protocol, DrainKind, tcp, udp}
use tokioop.Transport.Stream.{
  Delivery, chunk, failure, Call, ReadReady, Stream, User, base, on_protocol,
}
use tokioop.Transport.Write.{close}

abbrev pub max_stream_reads_per_event : ℕ
max_stream_reads_per_event = 16

-- `self._sock.recv(...)`
unfoldable pub recv : {A : Type 0} → Result A → Method Stream A
recv answer s = if s.sock then (answer, s) else (err attribute_error, s)

unfoldable pub stash : Delivery → Method Stream (Unit {0})
stash d = base (modify λ c. record c { replay = c.replay ++ d ∷ [] })

-- A handler `except (SystemExit, KeyboardInterrupt): raise` and `except BaseException`.
abbrev pub fatal : Exc → Method Stream (Unit {0})
fatal e = if is_exit e then raise e else base (Core.fatal_error e)

-- The test of the loop of `_flush_replay`, without the list.
unfoldable pub may_deliver : Stream → Bool
may_deliver s = not s.paused && (not s.closing && s.conn_lost == 0)

-- `replay.popleft()`, with the rest of the deque.
unfoldable pub set_replay : List Delivery → Stream → Stream
set_replay ds s = record s { core = record (s.core) { replay = ds } }

-- The end of `resume_reading`, after the flush.
unfoldable pub watch_again : Method (Core Bytes Delivery) (Unit {0})
watch_again = do
  paused ← gets (λ c. c.paused)
  closing ← gets (λ c. c.closing)
  polling ← gets Core.is_polling
  if paused || closing then skip else do when (not polling) Core.register_reader; Core.debug_log

unfoldable pub unpause : Stream → Stream
unpause s = record s { core = record (s.core) { paused = false } }

-- The test at the end of a round of the loop of `_read_ready__data_received`.
abbrev pub stop_reading : Stream → Bool
stop_reading s = ltb 0 s.conn_lost || (s.closing || s.paused)

module _ (u : User) where
  unfoldable pub read_ready_on_eof : Method Stream (Unit {0})
  read_ready_on_eof = do
    base Core.debug_log
    try_else (on_protocol Call.eof_received u.eof_received) fatal
        (λ keep_open. if keep_open then base Core.remove_reader else close)

  unfoldable pub data_received : Bytes → Method Stream (Unit {0})
  data_received payload =
      try_else (on_protocol (Call.data_received payload) (u.data_received payload)) fatal
        (λ _. skip)

  unfoldable pub deliver_stream : Bytes → Method Stream (Unit {0})
  deliver_stream payload = if is_empty payload then read_ready_on_eof else data_received payload

  unfoldable pub deliver_error : Exc → Method Stream (Unit {0})
  deliver_error e = base (Core.fatal_error e)

  unfoldable pub deliver : Delivery → Method Stream (Unit {0})
  deliver (chunk payload) = deliver_stream payload
  deliver (failure e) = deliver_error e

  -- `_drain_stream` and `_drain_error`: what the loop's reader task has taken from the kernel.
  unfoldable pub drain : Delivery → Method Stream (Unit {0})
  drain d = do
    lost ← gets (λ s. s.conn_lost)
    closing ← gets (λ s. s.closing)
    paused ← gets (λ s. s.paused)
    if ltb 0 lost || closing then skip else if paused then stash d else deliver d

  unfoldable pub drain_stream : Bytes → Method Stream (Unit {0})
  unfolding drain
  drain_stream payload = drain (chunk payload)

  unfoldable pub drain_error : Exc → Method Stream (Unit {0})
  unfolding drain
  drain_error e = drain (failure e)

  -- `_flush_replay` on fuel. A delivery runs user code, which may pause, close, or flush again, so
  -- the deque is read anew in each round; `none` means that the fuel ran out.
  unfoldable pub flush_replay : ℕ → Stream → Option (Result (Unit {0}) × Stream)
  flush_replay zero s = none
  flush_replay (suc f) s = elim s.replay [
    | [] ↦ some (ok tt, s)
    | d ∷ ds ↦ elim (may_deliver s) [
      | true ↦
          let (r, s') = deliver d (set_replay ds s) in
          elim r [ ok _ ↦ flush_replay f s' | err e ↦ some (err e, s') ]
      | false ↦ some (ok tt, s)
    ]
  ]

  unfoldable pub resume_reading : ℕ → Stream → Option (Result (Unit {0}) × Stream)
  resume_reading fuel s =
      if s.closing || not s.paused then some (ok tt, s) else elim (flush_replay fuel (unpause s)) [
        | none ↦ none
        | some (r, s') ↦ elim r [ ok _ ↦ some (base watch_again s') | err e ↦ some (err e, s') ]
      ]

  unfoldable pub read_ready_get_buffer : Result ℕ → Method Stream (Unit {0})
  unfolding recv
  read_ready_get_buffer answer = do
    lost ← gets (λ s. s.conn_lost)
    if ltb 0 lost
        then skip
        else try_else
            (do size ← on_protocol Call.get_buffer u.get_buffer; raise_if (size == 0) runtime_error)
            fatal
            (λ _.
              try_else (recv answer) (λ e. if would_block e then skip else fatal e)
                (λ nbytes.
                  if nbytes == 0
                  then read_ready_on_eof
                  else try_else (on_protocol (Call.buffer_updated nbytes) (u.buffer_updated nbytes))
                      fatal (λ _. skip)))

  -- The loop of `_read_ready__data_received`, with the answers of the kernel in turn.
  unfoldable pub read_loop : ℕ → (ℕ → Result Bytes) → ℕ → Method Stream (Unit {0})
  unfolding recv
  read_loop zero answers i = skip
  read_loop (suc rounds) answers i =
      try_else (recv (answers i)) (λ e. if would_block e then skip else fatal e)
        (λ payload.
          if is_empty payload
          then read_ready_on_eof
          else try_else (on_protocol (Call.data_received payload) (u.data_received payload)) fatal
              (λ _ s. elim (stop_reading s) [
                | true ↦ (ok tt, s)
                | false ↦ read_loop rounds answers (suc i) s
              ]))

  unfoldable pub read_ready_data_received : (ℕ → Result Bytes) → Method Stream (Unit {0})
  read_ready_data_received answers = do
    lost ← gets (λ s. s.conn_lost)
    if ltb 0 lost then skip else read_loop max_stream_reads_per_event answers 0

  unfoldable pub call_read_ready :
      Option ReadReady → Result ℕ → (ℕ → Result Bytes) → Method Stream (Unit {0})
  call_read_ready none sizes answers = raise type_error
  call_read_ready (some ReadReady.get_buffer) sizes answers = read_ready_get_buffer sizes
  call_read_ready (some ReadReady.data_received) sizes answers = read_ready_data_received answers

  -- `_read_ready`, the reader callback in callback mode.
  unfoldable pub read_ready : Result ℕ → (ℕ → Result Bytes) → Method Stream (Unit {0})
  unfolding call_read_ready
  read_ready sizes answers = do cb ← gets (λ s. s.read_ready_cb); call_read_ready cb sizes answers

-- `drain_kind != self._drain_kind`
abbrev other_kind : Option DrainKind → Option DrainKind → Bool
other_kind none none = false
other_kind (some tcp) (some tcp) = false
other_kind (some udp) (some udp) = false
other_kind _ _ = true

-- The mode that a protocol wants.
abbrev pub wanted_kind : Protocol → Option DrainKind
wanted_kind p = if p.buffered then none else some tcp

abbrev wanted_cb : Protocol → ReadReady
wanted_cb p = if p.buffered then ReadReady.get_buffer else ReadReady.data_received

-- "Live registration in the old mode": the condition of `set_protocol`.
abbrev pub is_watched : Core Bytes Delivery → Bool
is_watched c =
    c.loop && (not c.loop_closed && (not c.closing && (not c.paused && Core.is_polling c)))

unfoldable pub switch_mode : Option DrainKind → Method (Core Bytes Delivery) (Unit {0})
switch_mode kind = do
  modify (λ c. record c { drain_kind = kind })
  live ← gets is_watched
  when live do Core.remove_reader; Core.register_reader

-- `set_protocol` of the stream transport, the base class's included.
unfoldable pub set_protocol : Protocol → Method Stream (Unit {0})
set_protocol p = do
  modify (λ s. record s { read_ready_cb = some (wanted_cb p) })
  kind ← gets (λ s. s.drain_kind)
  when (other_kind (wanted_kind p) kind) (base (switch_mode (wanted_kind p)))
  base (modify λ c. record c { protocol = some p; protocol_connected = true })
