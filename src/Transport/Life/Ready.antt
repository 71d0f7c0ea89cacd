-- ===== src/Transport/Life/Ready.antt =====
-- The read callbacks keep every statement that is stable.
use tokioop.Prelude.{
  subst, ℕ, zero, suc, ◌≡◌, refl, sym, arith, true, false, none, some, Bool, is_empty, Option,
  if◌then◌else◌, ltb, ◌==◌, ◌∙◌,
}
use tokioop.Python.{
  Bytes, Exc, Result, ok, would_block, skip, raise_if, try_else, Method, ◌>>=◌, runtime_error,
}
use tokioop.Python.Rules.{Keeps, bind_result, try_result, if_at}
use tokioop.Transport.Stream.{Stream, User, Call, ReadReady, on_protocol}
use tokioop.Transport.Read.{
  recv, fatal, stop_reading, read_ready_on_eof, read_ready_get_buffer, read_loop,
  read_ready_data_received, call_read_ready, read_ready, max_stream_reads_per_event,
}
use tokioop.Transport.Life.Write.{IsBystander}
use tokioop.Transport.Life.Stable.{IsStable}
use tokioop.Transport.Life.Read.{told_closing, told_then-Keeps, receives, on_eof-Keeps, fatal-Keeps}

module _ (P : Stream → Type 0) (stable : IsStable P) where
  -- The statement, and not closing.
  abbrev Open : Stream → Type 0
  Open s = P s × (s.closing ≡ false)

  raise_if-Open : (test : Bool) (e : Exc) → Keeps Open (raise_if test e)
  raise_if-Open true e s v = v
  raise_if-Open false e s v = v

  module _ (u : User) (b : IsBystander u) where
    not_read-Keeps : (e : Exc) → Keeps P (if would_block e then skip else fatal e)
    not_read-Keeps e s v =
        if_at P (would_block e) skip (fatal e) s (λ _. v) (λ _. fatal-Keeps P stable e s v)

    -- A read from the socket of an open transport, with what the code does with what it got.
    read_then-Keeps :
        {A : Type 0} (answer : Result A) (k : A → Method Stream (Unit {0})) (s : Stream)
        → P s
        → s.closing ≡ false
        → ((a : A) → P (k a s).1)
        → P (try_else (recv answer) (λ e. if would_block e then skip else fatal e) k s).1
    read_then-Keeps {A} answer k s v c hk =
        let failed : Exc → Method Stream (Unit {0}) =
          λ e. if would_block e then skip else fatal e in
        subst (λ (x : Result A × Stream). P (try_else (λ (_ : Stream). x) failed k s).1)
          (sym (receives answer s ((stable.sound s v).is_open c).0))
          (try_result P failed k (answer, s) (λ e. not_read-Keeps e s) (λ a _. hk a) v)

    -- The rest of a round of the loop, and the next round.
    abbrev next_round : ℕ → (ℕ → Result Bytes) → ℕ → Method Stream (Unit {0})
    next_round rounds answers i s = elim (stop_reading s) [
      | true ↦ (ok tt, s)
      | false ↦ read_loop u rounds answers (suc i) s
    ]

    next_round-Keeps :
        (rounds : ℕ) (answers : ℕ → Result Bytes) (i : ℕ) (s : Stream)
        → P s
        → ((t : Stream) → P t → t.closing ≡ false → P (read_loop u rounds answers (suc i) t).1)
        → (stops : Bool) → stop_reading s ≡ stops
        → P
            (elim stops as (λ _. Result (Unit {0}) × Stream) [
              | true ↦ (ok tt, s)
              | false ↦ read_loop u rounds answers (suc i) s
            ]).1
    next_round-Keeps rounds answers i s v ih true e = v
    next_round-Keeps rounds answers i s v ih false e = ih s v (ground arith)

    abbrev take_payload : ℕ → (ℕ → Result Bytes) → ℕ → Bytes → Method Stream (Unit {0})
    take_payload rounds answers i payload =
        if is_empty payload
        then read_ready_on_eof u
        else try_else (on_protocol (Call.data_received payload) (u.data_received payload)) fatal
            (λ _. next_round rounds answers i)

    -- The loop of the callback, on an open transport.
    read_loop-Keeps :
        (rounds : ℕ) (answers : ℕ → Result Bytes) (i : ℕ) (s : Stream)
        → P s
        → s.closing ≡ false
        → P (read_loop u rounds answers i s).1
    unfolding read_loop
    read_loop-Keeps zero answers i s v c = v
    read_loop-Keeps (suc rounds) answers i s v c =
        let told : Bytes → Method Stream (Unit {0}) = λ payload.
          try_else (on_protocol (Call.data_received payload) (u.data_received payload)) fatal
            (λ _. next_round rounds answers i) in
        read_then-Keeps (answers i) (take_payload rounds answers i) s v c (λ payload.
          if_at P (is_empty payload) (read_ready_on_eof u) (told payload) s
            (λ _. on_eof-Keeps P stable u b s v c)
            (λ _.
              told_then-Keeps P stable (Call.data_received payload) (u.data_received payload)
                (λ _. next_round rounds answers i) s v c refl (b.on_data payload)
                (λ _ t w _.
                  next_round-Keeps rounds answers i t w (read_loop-Keeps rounds answers (suc i))
                    (stop_reading t) refl)))

    abbrev updated : ℕ → Method Stream (Unit {0})
    updated n =
        if n == 0
        then read_ready_on_eof u
        else try_else (on_protocol (Call.buffer_updated n) (u.buffer_updated n)) fatal (λ _. skip)

    updated-Keeps : (n : ℕ) (s : Stream) → P s → s.closing ≡ false → P (updated n s).1
    updated-Keeps n s v c =
        if_at P (n == 0) (read_ready_on_eof u)
          (try_else (on_protocol (Call.buffer_updated n) (u.buffer_updated n)) fatal (λ _. skip)) s
          (λ _. on_eof-Keeps P stable u b s v c)
          (λ _.
            told_then-Keeps P stable (Call.buffer_updated n) (u.buffer_updated n) (λ _. skip) s v c
              refl (b.on_update n) (λ _ t w _. w))

    -- `get_buffer()`, and the check of what it returns.
    abbrev sized_buffer : Method Stream (Unit {0})
    sized_buffer = do
      size ← on_protocol Call.get_buffer u.get_buffer
      raise_if (size == 0) runtime_error

    sized_buffer-Open : (s : Stream) → Open s → Open (sized_buffer s).1
    sized_buffer-Open s (v, c) =
        bind_result Open (λ size. raise_if (size == 0) runtime_error)
          (on_protocol Call.get_buffer u.get_buffer s)
          (λ size.
            raise_if-Open (size == 0) runtime_error (on_protocol Call.get_buffer u.get_buffer s).1)
          (
            stable.told Call.get_buffer u.get_buffer s v c refl b.on_buffer,
            told_closing Call.get_buffer u.get_buffer s b.on_buffer ∙ c,
          )

    abbrev read_sized : Result ℕ → Method Stream (Unit {0})
    read_sized answer =
        try_else (recv answer) (λ e. if would_block e then skip else fatal e) updated

    read_ready_get_buffer-Keeps :
        (answer : Result ℕ) (s : Stream)
        → P s
        → s.closing ≡ false
        → P (read_ready_get_buffer u answer s).1
    unfolding read_ready_get_buffer
    read_ready_get_buffer-Keeps answer s v c =
        let (w, open_still) = sized_buffer-Open s (v, c) in
        let t = (sized_buffer s).1 in
        if_at P (ltb 0 s.conn_lost) skip (try_else sized_buffer fatal (λ _. read_sized answer)) s
          (λ _. v)
          (λ _.
            try_result P fatal (λ _. read_sized answer) (sized_buffer s)
              (λ e. fatal-Keeps P stable e t)
              (λ _ _.
                read_then-Keeps answer updated t w open_still (λ n. updated-Keeps n t w open_still))
              w)

    call_read_ready-Keeps :
        (cb : Option ReadReady) (sizes : Result ℕ) (answers : ℕ → Result Bytes) (s : Stream)
        → P s
        → s.closing ≡ false
        → P (call_read_ready u cb sizes answers s).1
    unfolding call_read_ready read_ready_data_received
    call_read_ready-Keeps none sizes answers s v c = v
    call_read_ready-Keeps (some ReadReady.get_buffer) sizes answers s v c =
        read_ready_get_buffer-Keeps sizes s v c
    call_read_ready-Keeps (some ReadReady.data_received) sizes answers s v c =
        if_at P (ltb 0 s.conn_lost) skip (read_loop u max_stream_reads_per_event answers 0) s
          (λ _. v) (λ _. read_loop-Keeps max_stream_reads_per_event answers 0 s v c)

    pub read_ready-Keeps :
        (sizes : Result ℕ) (answers : ℕ → Result Bytes) (s : Stream)
        → P s
        → s.closing ≡ false
        → P (read_ready u sizes answers s).1
    unfolding read_ready
    read_ready-Keeps sizes answers s v c = call_read_ready-Keeps s.read_ready_cb sizes answers s v c
