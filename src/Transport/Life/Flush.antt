-- ===== src/Transport/Life/Flush.antt =====
-- The write callbacks and `writelines` keep a transport sound.
use tokioop.Prelude.{
  subst, ◌+◌, not, ◌==◌, ltb, ap, take, concat, ℕ, ◌≡◌, refl, sym, arith, true, false, none, some,
  List, [], ◌∷◌, ◌++◌, inl, inr, Bool-cases, is_empty, Option, is_some, if◌then◌else◌, length, drop,
}
use tokioop.Python.{
  Bytes, Exc, Result, ok, err, is_exit, would_block, skip, modify, gets, raise_if, try_else, when,
  Method, runtime_error, index_error, attribute_error, assertion_error, ◌>>◌, ◌>>=◌,
}
use tokioop.Python.Rules.{
  Keeps, Keeps->>, Keeps->>=, Keeps-when, bind_result, try_result, if_at, guard_at,
}
use tokioop.Transport.Core
use tokioop.Transport.Core.{Callback}
use tokioop.Transport.Stream.{
  Stream, User, Waiter, base, sock_send, shutdown, settle, WriteReady, write_sendmsg, write_send,
  call_connection_lost,
}
use tokioop.Transport.Write.{
  Kernel, set_buffer, adjust_leftover_buffer, write_failed, write_drained, write_done,
  write_sendmsg_ready, send_first, write_send_ready, call_write_ready, writelines,
}
use tokioop.Transport.Life.Invariant.{IsSound}
use tokioop.Transport.Life.Base.{
  add_writer-IsSound, remove_writer-IsSound, set_buffer-IsSound, fatal_error-IsSound,
}
use tokioop.Transport.Life.Write.{
  IsBystander, shutdown-IsSound, settle-IsSound, pause-IsSound, call_connection_lost-IsSound,
}

module _ (u : User) (b : IsBystander u) where
  abbrev give_up : Exc → Method Stream (Unit {0})
  give_up e = do base (set_buffer []); base (Core.fatal_error e); settle (Waiter.failed e)

  give_up-IsSound : (e : Exc) → Keeps IsSound (base Core.remove_writer >> give_up e)
  give_up-IsSound e =
      let tail : Method Stream (Unit {0}) = (do
        base (Core.fatal_error e)
        settle (Waiter.failed e)) in
      Keeps->> IsSound (base Core.remove_writer) (give_up e) remove_writer-IsSound (
        Keeps->> IsSound (base (set_buffer [])) tail (set_buffer-IsSound []) (
          Keeps->> IsSound (base (Core.fatal_error e)) (settle (Waiter.failed e))
            (fatal_error-IsSound e) (settle-IsSound (Waiter.failed e))))

  write_failed-IsSound : (e : Exc) → Keeps IsSound (write_failed u e)
  unfolding write_failed
  write_failed-IsSound e s v = elim (Bool-cases (would_block e)) [
    | inl busy ↦ rw busy v
    | inr fails ↦ rw fails (elim (Bool-cases (is_exit e)) [
      | inl exit ↦ rw exit v
      | inr caught ↦ rw caught (give_up-IsSound e s v)
    ])
  ]

  -- A transport that is sound, has its socket, and has not lost its connection.
  abbrev Live : Stream → Type 0
  Live s = IsSound s × (s.sock ≡ true) × (s.conn_lost ≡ 0)

  settle-Live : (w : Waiter) → Keeps Live (settle w)
  unfolding settle
  settle-Live w s v = ground arith

  remove_writer-Live : Keeps Live (base Core.remove_writer)
  unfolding Core.remove_writer
  remove_writer-Live s v = ground arith

  abbrev pub after_settle : Kernel → Method Stream (Unit {0})
  after_settle k = do
    closing ← gets (λ s. s.closing)
    eof ← gets (λ s. s.eof)
    if closing then call_connection_lost u none else when eof (shutdown k.shutdown)

  after_settle-IsSound : (k : Kernel) (s : Stream) → Live s → IsSound (after_settle k s).1
  after_settle-IsSound k s (v, o, l) =
      if_at IsSound s.closing (call_connection_lost u none) (when s.eof (shutdown k.shutdown)) s
        (λ c. call_connection_lost-IsSound u b none s v o c (v.not_scheduled o l))
        (λ _. Keeps-when IsSound s.eof (shutdown k.shutdown) (shutdown-IsSound k.shutdown) s v)

  drained-IsSound :
      (k : Kernel) (s : Stream)
      → Live s
      → IsSound ((base Core.remove_writer >> (settle Waiter.finished >> after_settle k)) s).1
  drained-IsSound k s v =
      let x = base Core.remove_writer s in
      let w = remove_writer-Live s v in
      bind_result IsSound (λ _. settle Waiter.finished >> after_settle k) x
        (λ _ _.
          let y = settle-Live Waiter.finished x.1 w in
          bind_result IsSound (λ _. after_settle k) (settle Waiter.finished x.1)
            (λ _ _. after_settle-IsSound k (settle Waiter.finished x.1).1 y) y.0)
        w.0

  write_drained-IsSound : (k : Kernel) (s : Stream) → Live s → IsSound (write_drained u k s).1
  unfolding write_drained
  write_drained-IsSound k s v = elim (Bool-cases (is_empty s.buffer)) [
    | inl all ↦ rw all (drained-IsSound k s v)
    | inr more ↦ rw more (v.0)
  ]

  write_done-IsSound : (k : Kernel) (s : Stream) → Live s → IsSound (write_done u k s).1
  unfolding write_done
  write_done-IsSound k s v =
      let same : (u.maybe_resume_protocol s).1 ≡ s = b.on_resume s in
      bind_result IsSound (λ _. write_drained u k) (u.maybe_resume_protocol s)
        (λ _ _. write_drained-IsSound k _ (subst Live (sym same) v))
        (subst IsSound (sym same) (v.0))

  sock_send-Live : (payload : Bytes) (answer : Result ℕ) → Keeps Live (sock_send payload answer)
  unfolding sock_send
  sock_send-Live payload answer s v = ground arith

  adjust-Live : (n : ℕ) → Keeps Live (adjust_leftover_buffer n)
  unfolding adjust_leftover_buffer set_buffer
  adjust-Live n s v = ground arith

  abbrev send_some : Bytes → Result ℕ → Method Stream (Unit {0})
  send_some payload answer = do n ← sock_send payload answer; adjust_leftover_buffer n

  sent-Live : (payload : Bytes) (answer : Result ℕ) → Keeps Live (send_some payload answer)
  sent-Live payload answer =
      Keeps->>= Live (sock_send payload answer) adjust_leftover_buffer
        (sock_send-Live payload answer) adjust-Live

  pub send_closed :
      (payload : Bytes) (answer : Result ℕ) (s : Stream)
      → s.sock ≡ false
      → sock_send payload answer s ≡ (err attribute_error, s)
  unfolding sock_send
  send_closed payload answer s h = ground arith

  ready-IsSound :
      (k : Kernel) (m : Method Stream (Unit {0})) (s : Stream)
      → Live (m s).1
      → IsSound (try_else m (write_failed u) (λ _. write_done u k) s).1
  ready-IsSound k m s v =
      try_result IsSound (write_failed u) (λ _. write_done u k) (m s)
        (λ e. write_failed-IsSound e (m s).1) (λ _ _. write_done-IsSound k (m s).1 v) (v.0)

  -- The shape of the two callbacks, with `m` for the sending.
  abbrev callback : Kernel → Method Stream (Unit {0}) → Method Stream (Unit {0})
  callback k m = do
    lost ← gets (λ s. s.conn_lost)
    if ltb 0 lost then skip else try_else m (write_failed u) (λ _. write_done u k)

  -- A sending keeps a live transport live, and fails where there is no socket.
  abbrev Sends : Method Stream (Unit {0}) → Type 0
  Sends m =
      Keeps Live m
      × ((s : Stream)
          → IsSound s
          → s.sock ≡ false
          → (e : Exc) × (t : Stream) × (m s ≡ (err e, t)) × IsSound t)

  callback-IsSound :
      (k : Kernel) (m : Method Stream (Unit {0})) → Sends m → Keeps IsSound (callback k m)
  callback-IsSound k m (live, dead) s v =
      if_at IsSound (ltb 0 s.conn_lost) skip (try_else m (write_failed u) (λ _. write_done u k)) s
        (λ _. v)
        (λ l. elim (Bool-cases s.sock) [
          | inl o ↦ ready-IsSound k m s (live s (v, o, ground arith))
          | inr o ↦
              let (e, t, eq, w) = dead s v o in
              subst
                (λ (x : Result (Unit {0}) × Stream).
                  IsSound (try_else (λ (_ : Stream). x) (write_failed u) (λ _. write_done u k) s).1)
                (sym eq) (write_failed-IsSound e t w)
        ])

  send_some-Sends : (payload : Bytes) (answer : Result ℕ) → Sends (send_some payload answer)
  send_some-Sends payload answer = (
    sent-Live payload answer,
    λ s v o. (
      attribute_error,
      s,
      ap (λ (x : Result ℕ × Stream). ((λ (_ : Stream). x) >>= adjust_leftover_buffer) s)
          (send_closed payload answer s o),
      v,
    ),
  )

  send_first-Live : (bs : List Bytes) (answer : Result ℕ) → Keeps Live (send_first u bs answer)
  unfolding send_first set_buffer sock_send
  send_first-Live [] answer s v = v
  send_first-Live (c ∷ cs) (ok n) s v = ground arith
  send_first-Live (c ∷ cs) (err e) s v = ground arith

  send_first-Sends : (bs : List Bytes) (answer : Result ℕ) → Sends (send_first u bs answer)
  unfolding send_first set_buffer
  send_first-Sends [] answer = (send_first-Live [] answer, λ s v o. (index_error, s, refl, v))
  send_first-Sends (c ∷ cs) answer = (
    send_first-Live (c ∷ cs) answer,
    λ s v o.
        let t = record s { core = record (s.core) { buffer = cs } } in
        (
          attribute_error,
          t,
          ap
              (λ (x : Result ℕ × Stream).
                ((λ (_ : Stream). x) >>= λ n.
                when (not (n == length c)) (base (set_buffer (drop n c ∷ cs))))
                  t)
              (send_closed c answer t o),
          set_buffer-IsSound cs s v,
        ),
  )

  pub write_sendmsg_ready-IsSound :
      (iov_max : ℕ) (k : Kernel) → Keeps IsSound (write_sendmsg_ready u iov_max k)
  unfolding write_sendmsg_ready
  write_sendmsg_ready-IsSound iov_max k s v =
      let m = send_some (concat (take iov_max s.buffer)) k.send in
      guard_at IsSound (is_empty s.buffer) assertion_error (callback k m) s v
        (λ _. callback-IsSound k m (send_some-Sends (concat (take iov_max s.buffer)) k.send) s v)

  write_send_ready-IsSound : (k : Kernel) → Keeps IsSound (write_send_ready u k)
  unfolding write_send_ready
  write_send_ready-IsSound k s v =
      let m = send_first u s.buffer k.send in
      guard_at IsSound (is_empty s.buffer) assertion_error (callback k m) s v
        (λ _. callback-IsSound k m (send_first-Sends s.buffer k.send) s v)

  call_write_ready-IsSound :
      (w : Option WriteReady) (iov_max : ℕ) (k : Kernel)
      → Keeps IsSound (call_write_ready u w iov_max k)
  unfolding call_write_ready
  call_write_ready-IsSound none iov_max k s v = v
  call_write_ready-IsSound (some write_sendmsg) iov_max k s v =
      write_sendmsg_ready-IsSound iov_max k s v
  call_write_ready-IsSound (some write_send) iov_max k s v = write_send_ready-IsSound k s v

  -- The parts of `writelines` that change the transport.
  abbrev pub watch_left : Method Stream (Unit {0})
  watch_left = do
    left ← gets (λ s. s.buffer)
    when (not (is_empty left)) do base Core.add_writer; u.maybe_pause_protocol

  abbrev send_lines : ℕ → List Bytes → Kernel → Method Stream (Unit {0})
  send_lines iov_max lines k = do
    buffer ← gets (λ s. s.buffer)
    base (set_buffer (buffer ++ lines))
    ready ← gets (λ s. s.write_ready)
    call_write_ready u ready iov_max k
    watch_left

  watch_left-IsSound : Keeps IsSound watch_left
  watch_left-IsSound s v =
      Keeps-when IsSound (not (is_empty s.buffer)) (base Core.add_writer >> u.maybe_pause_protocol)
        (Keeps->> IsSound (base Core.add_writer) u.maybe_pause_protocol add_writer-IsSound
          (pause-IsSound u b))
        s v

  send_lines-IsSound :
      (iov_max : ℕ) (lines : List Bytes) (k : Kernel) → Keeps IsSound (send_lines iov_max lines k)
  unfolding set_buffer
  send_lines-IsSound iov_max lines k s v =
      let t = record s { core = record (s.core) { buffer = s.buffer ++ lines } } in
      Keeps->> IsSound (call_write_ready u s.write_ready iov_max k) watch_left
        (call_write_ready-IsSound s.write_ready iov_max k) watch_left-IsSound t
        (set_buffer-IsSound (s.buffer ++ lines) s v)

  abbrev count_lost : Method Stream (Unit {0})
  count_lost = base (modify λ c. record c { conn_lost = c.conn_lost + 1 })

  count_lost-IsSound :
      (s : Stream) → IsSound s → ltb 0 s.conn_lost ≡ true → IsSound (count_lost s).1
  count_lost-IsSound s v l = ground arith

  abbrev lines_now : ℕ → List Bytes → Kernel → Method Stream (Unit {0})
  lines_now iov_max lines k = do
    lost ← gets (λ s. s.conn_lost)
    if is_empty lines then skip else if ltb 0 lost then count_lost else send_lines iov_max lines k

  abbrev lines_alone : ℕ → List Bytes → Kernel → Method Stream (Unit {0})
  lines_alone iov_max lines k = do
    waiter ← gets (λ s. s.empty_waiter)
    raise_if (is_some waiter) runtime_error
    lines_now iov_max lines k

  pub writelines-IsSound :
      (iov_max : ℕ) (lines : List Bytes) (k : Kernel) → Keeps IsSound (writelines u iov_max lines k)
  unfolding writelines
  writelines-IsSound iov_max lines k s v =
      let send = send_lines iov_max lines k in
      let unless_lost : Method Stream (Unit {0}) = if ltb 0 s.conn_lost then count_lost else send in
      guard_at IsSound s.eof runtime_error (lines_alone iov_max lines k) s v (λ _.
        guard_at IsSound (is_some s.empty_waiter) runtime_error (lines_now iov_max lines k) s v
          (λ _.
            if_at IsSound (is_empty lines) skip unless_lost s (λ _. v)
              (λ _.
                if_at IsSound (ltb 0 s.conn_lost) count_lost send s (count_lost-IsSound s v)
                  (λ _. send_lines-IsSound iov_max lines k s v))))
