-- ===== src/Sock/Life.antt =====
-- The life of a `sock_*` coroutine that waits: which answer of the kernel its future gets, and that
-- the descriptor is given back when the future is done.
use tokioop.Prelude.{
  ℕ, ◌≡◌, ◌≢◌, refl, ap, ◌||◌, ◌∙◌, true, false, none, some, List, [], ◌∷◌, arith, if◌then◌else◌,
  Bool-cases, inl, inr,
}
use tokioop.Python.{would_block, is_exit, Result, ok, err}
use tokioop.Sock.{
  Future, pending, result, failed, Wait, is_done, is_used, sock_call, sock_ready, sock_read_done,
  remove_watcher, check_socket, create_future, ensure_fd_no_transport, watch, settle,
}

module _ {A : Type 0} where
  -- Each readiness event runs the callback once; an exception goes to the loop.
  unfoldable pub ready_events : List (Result A) → Wait A → Wait A
  ready_events [] w = w
  ready_events (a ∷ rest) w = ready_events rest (sock_ready a w).1

  -- The first answer that is no "would block" decides. The exits of the interpreter decide nothing:
  -- they leave the future as it is and go through the loop.
  abbrev pub first_answer : List (Result A) → Future A
  first_answer [] = pending
  first_answer (ok a ∷ rest) = result a
  first_answer (err e ∷ rest) = if would_block e || is_exit e then first_answer rest else failed e

  ready_done : (a : Result A) (w : Wait A) → is_done w.fut ≡ true → (sock_ready a w).1 ≡ w
  unfolding sock_ready
  ready_done a w h = ground arith

  events_done :
      (answers : List (Result A)) (w : Wait A) → is_done w.fut ≡ true → ready_events answers w ≡ w
  unfolding ready_events
  events_done [] w h = refl
  events_done (a ∷ rest) w h = rw (ready_done a w h) (events_done rest w h)

  ready_fut :
      (a : Result A) (w : Wait A) → w.fut ≡ pending → (sock_ready a w).1.fut ≡ first_answer (a ∷ [])
  unfolding sock_ready settle
  ready_fut (ok a) w h = ground arith
  ready_fut (err e) w h = ground arith

  -- A waiting coroutine gets the first answer that is neither "would block" nor an exit of the
  -- interpreter, and no later answer changes it.
  pub ready_events_first :
      (answers : List (Result A)) (w : Wait A)
      → w.fut ≡ pending
      → (ready_events answers w).fut ≡ first_answer answers
  unfolding ready_events
  ready_events_first [] w h = h
  ready_events_first (ok a ∷ rest) w h =
      let e = ready_fut (ok a) w h in rw (events_done rest (sock_ready (ok a) w).1 (ap is_done e)) e
  ready_events_first (err x ∷ rest) w h = elim (Bool-cases (would_block x || is_exit x)) [
    | inl retry ↦
        rw retry
          (ready_events_first rest (sock_ready (err x) w).1 (ready_fut (err x) w h ∙ rw retry))
    | inr decided ↦
        let e : (sock_ready (err x) w).1.fut ≡ failed x = ready_fut (err x) w h ∙ rw decided in
        rw (decided, events_done rest (sock_ready (err x) w).1 (ap is_done e)) e
  ]

  -- Of a coroutine that has to wait on a descriptor that no transport uses: once its done callback
  -- has run, nothing that it registered is left; and a registration that someone else made
  -- meanwhile stays.
  pub sock_read_done_gives_back :
      (answer : Result A) (w : Wait A) (other : ℕ)
      → other ≢ w.next_handle
      → is_used w.transport ≡ false
      → (sock_call answer w).0 ≡ ok none
      → let t = (sock_call answer w).1 in
        ((sock_read_done w.next_handle t).1.watcher ≡ none)
        × ((sock_read_done w.next_handle (record t { watcher = some other })).1.watcher
            ≡ some other)
  unfolding sock_call check_socket create_future ensure_fd_no_transport watch sock_read_done
      remove_watcher
  sock_read_done_gives_back answer w other ne u r = ground arith
