-- ===== src/Transport/Life/Invariant.antt =====
-- The protocol hears of the end of its connection at most once, and of nothing after it.
use tokioop.Prelude.{
  ℕ, suc, ◌+◌, ◌≤◌, ◌≡◌, refl, Bool, true, false, not, ◌&&◌, ◌||◌, none, List, [], ◌∷◌, ◌++◌, arith,
  is_empty, if◌then◌else◌,
}
use tokioop.Transport.Core.{Callback}
use tokioop.Transport.Stream.{Stream, Call}

abbrev pub is_lost : Call → Bool
is_lost (Call.connection_lost e) = true
is_lost Call.connection_made = false
is_lost (Call.data_received payload) = false
is_lost Call.eof_received = false
is_lost Call.get_buffer = false
is_lost (Call.buffer_updated n) = false

abbrev pub is_made : Call → Bool
is_made Call.connection_made = true
is_made (Call.connection_lost e) = false
is_made (Call.data_received payload) = false
is_made Call.eof_received = false
is_made Call.get_buffer = false
is_made (Call.buffer_updated n) = false

-- A call that is neither the first nor the last.
abbrev pub is_inner : Call → Bool
is_inner c = not (is_lost c) && not (is_made c)

pub inner_lem : (c : Call) → is_inner c ≡ true → (is_lost c ≡ false) × (is_made c ≡ false)
inner_lem c h = ground arith

-- No call of `connection_lost` is in the list; or one, and it is the last call.
unfoldable pub quiet : List Call → Bool
quiet [] = true
quiet (c ∷ cs) = not (is_lost c) && quiet cs

unfoldable pub final : List Call → Bool
final [] = true
final (c ∷ cs) = if is_lost c then is_empty cs else final cs

-- Whether `connection_made` is among the calls, and whether it is the first.
unfoldable pub heard : List Call → Bool
heard [] = false
heard (c ∷ cs) = is_made c || heard cs

unfoldable pub starts : List Call → Bool
starts [] = false
starts (c ∷ cs) = is_made c

abbrev pub is_start : Callback → Bool
is_start Callback.connection_made = true
is_start (Callback.connection_lost e) = false
is_start Callback.register = false
is_start Callback.wake_waiter = false

-- How many calls of `connection_made` are scheduled.
unfoldable pub unmade : List Callback → ℕ
unmade [] = 0
unmade (cb ∷ cbs) = if is_start cb then suc (unmade cbs) else unmade cbs

abbrev pub is_end : Callback → Bool
is_end (Callback.connection_lost e) = true
is_end Callback.connection_made = false
is_end Callback.register = false
is_end Callback.wake_waiter = false

-- How many ends of the connection are scheduled.
unfoldable pub scheduled : List Callback → ℕ
scheduled [] = 0
scheduled (cb ∷ cbs) = if is_end cb then suc (scheduled cbs) else scheduled cbs

pub quiet-snoc : (cs : List Call) (c : Call) → quiet (cs ++ c ∷ []) ≡ (quiet cs && not (is_lost c))
unfolding quiet
quiet-snoc [] c = ground arith
quiet-snoc (x ∷ cs) c = ground (arith, quiet-snoc cs c)

pub final-snoc : (cs : List Call) (c : Call) → quiet cs ≡ true → final (cs ++ c ∷ []) ≡ true
unfolding quiet final
final-snoc [] c h = ground arith
final-snoc (x ∷ cs) c h = ground (arith, final-snoc cs c)

pub quiet-final : (cs : List Call) → quiet cs ≡ true → final cs ≡ true
unfolding quiet final
quiet-final [] h = refl
quiet-final (x ∷ cs) h = ground (arith, quiet-final cs)

pub heard-snoc : (cs : List Call) (c : Call) → heard (cs ++ c ∷ []) ≡ (heard cs || is_made c)
unfolding heard
heard-snoc [] c = ground arith
heard-snoc (x ∷ cs) c = ground (arith, heard-snoc cs c)

pub starts-snoc :
    (cs : List Call) (c : Call)
    → starts (cs ++ c ∷ []) ≡ (if is_empty cs then is_made c else starts cs)
unfolding starts
starts-snoc [] c = refl
starts-snoc (x ∷ cs) c = refl

pub starts-heard : (cs : List Call) → starts cs ≡ true → heard cs ≡ true
unfolding starts heard
starts-heard [] h = h
starts-heard (x ∷ cs) h = ground arith

pub final-one : (cs : List Call) (c : Call) → is_empty cs ≡ true → final (cs ++ c ∷ []) ≡ true
unfolding final
final-one [] c h = ground arith
final-one (x ∷ cs) c h = absurd cc

pub unmade-snoc :
    (cbs : List Callback) (cb : Callback)
    → unmade (cbs ++ cb ∷ []) ≡ unmade cbs + (if is_start cb then 1 else 0)
unfolding unmade
unmade-snoc [] cb = ground arith
unmade-snoc (x ∷ cbs) cb = ground (arith, unmade-snoc cbs cb)

pub scheduled-snoc :
    (cbs : List Callback) (cb : Callback)
    → scheduled (cbs ++ cb ∷ []) ≡ scheduled cbs + (if is_end cb then 1 else 0)
unfolding scheduled
scheduled-snoc [] cb = ground arith
scheduled-snoc (x ∷ cbs) cb = ground (arith, scheduled-snoc cbs cb)

-- The socket is there until the end of the connection was told. While it is there, the protocol has
-- not heard of an end; once an end was scheduled, `_conn_lost` says so; and a transport that is
-- closing is not read. The protocol hears `connection_made` once, if before all else, then nothing
-- after the end.
pub record IsSound (s : Stream) : Type 0 where
  pub loop_open : s.loop_closed ≡ false
  pub has_loop : s.sock ≡ true → s.loop ≡ true
  pub not_told : s.sock ≡ true → quiet s.calls ≡ true
  pub not_scheduled : s.sock ≡ true → s.conn_lost ≡ 0 → scheduled s.ready ≡ 0
  pub once : s.sock ≡ true → scheduled s.ready ≤ 1
  pub is_open : s.closing ≡ false → (s.sock ≡ true) × (s.conn_lost ≡ 0)
  pub unread : s.closing ≡ true → s.reader ≡ none
  pub over : s.sock ≡ false → (s.loop ≡ false) × (scheduled s.ready ≡ 0)
  pub told_last : starts s.calls ≡ true → final s.calls ≡ true
  pub made_once : unmade s.ready + (if heard s.calls then 1 else 0) ≤ 1
