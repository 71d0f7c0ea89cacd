-- ===== src/Transport/Read/Order.antt =====
-- Pausing loses nothing: what the reader task took from the kernel while reading was paused reaches
-- the protocol on `resume_reading`, once and in order.
use tokioop.Prelude.{
  ◌≤◌, ◌≡◌, refl, sym, ap, subst, ◌∙◌, inl, inr, Bool, true, false, none, List, [], ◌∷◌, ◌++◌,
  append_assoc, arith, length, is_some, Bool-cases, if◌then◌else◌,
}
use tokioop.Python.{Bytes, Exc, Method, Result, ok, err, try_else, is_exit, skip}
use tokioop.Transport.Core
use tokioop.Transport.Core.Frame.{Same, Frame, remove_reader-Frame, close-Frame, fatal_error-Frame}
use tokioop.Transport.Stream.{Delivery, chunk, failure, Stream, User, base, Call, on_protocol}
use tokioop.Transport.Write.{close}
use tokioop.Transport.Read.{
  deliver, deliver_stream, deliver_error, data_received, read_ready_on_eof, fatal,
}

-- The calls that a delivery makes to the protocol.
abbrev pub calls_of : Delivery → List Call
calls_of (chunk []) = Call.eof_received ∷ []
calls_of (chunk (b ∷ bs)) = Call.data_received (b ∷ bs) ∷ []
calls_of (failure e) = []

abbrev pub calls_of_all : List Delivery → List Call
calls_of_all [] = []
calls_of_all (d ∷ ds) = calls_of d ++ calls_of_all ds

-- The calls made, followed by those that are stored.
abbrev pub history : Stream → List Call
history s = s.calls ++ calls_of_all s.replay

-- A transport keeps its loop and its protocol until it is closed.
abbrev pub IsLive : Stream → Type 0
IsLive s = s.closing ≡ false → (s.loop ≡ true) × (is_some s.protocol ≡ true)

-- From one state to the other nothing was delivered but what the calls record, nothing was stored,
-- and the transport did not lose its protocol.
pub record Kept (s t : Stream) : Type 0 where
  pub same_history : history t ≡ history s
  pub no_more : length t.replay ≤ length s.replay
  pub stays_live : IsLive s → IsLive t

pub Kept-refl : (s : Stream) → Kept s s
Kept-refl s = record { same_history = refl; no_more = omega arith; stays_live = λ h. h }

pub Kept-trans : {s t v : Stream} → Kept s t → Kept t v → Kept s v
Kept-trans h k = record {
  same_history = k.same_history ∙ h.same_history;
  no_more = omega (arith, h.no_more, k.no_more);
  stays_live = λ x. k.stays_live (h.stays_live x);
}

-- Code that takes no part in the reading: it may pause, close, write and resume.
abbrev pub Keeps : {A : Type 0} → Method Stream A → Type 0
Keeps m = (s : Stream) → Kept s (m s).1

-- So do both methods of the protocol that a delivery calls.
pub record IsReader (u : User) : Type 0 where
  pub on_data : (payload : Bytes) → Keeps (u.data_received payload)
  pub on_eof : Keeps u.eof_received

IsLive-Same :
    (s : Stream) (c : Core.Core Bytes Delivery)
    → Same s.core c
    → IsLive s
    → IsLive (record s { core = c })
IsLive-Same s c f h = ground (arith, h)

pub base-Keeps : (m : Method (Core.Core Bytes Delivery) (Unit {0})) → Frame m → Keeps (base m)
base-Keeps m f s = record {
  same_history = ap (λ ds. s.calls ++ calls_of_all ds) ((f s.core).replay_same);
  no_more = omega (arith, ap length ((f s.core).replay_same));
  stays_live = λ h. IsLive-Same s (m s.core).1 (f s.core) h;
}

fatal-Keeps : (e : Exc) → Keeps (fatal e)
fatal-Keeps e s = elim (Bool-cases (is_exit e)) [
  | inl exit ↦ rw exit (Kept-refl s)
  | inr fails ↦ rw fails (base-Keeps (Core.fatal_error e) (fatal_error-Frame e) s)
]

close-Keeps : Keeps close
unfolding close
close-Keeps s =
    let t = record s { read_ready_cb = none } in
    Kept-trans {t = t} (record { same_history = refl; no_more = omega arith; stays_live = λ h. h })
      (base-Keeps Core.close close-Frame t)

logged : Call → Stream → Stream
logged call s = record s { calls = s.calls ++ call ∷ [] }

module _ {A : Type 0} (call : Call) (m : Method Stream A) (k : A → Method Stream (Unit {0})) where
  handled :
      (hk : (a : A) → Keeps (k a)) (s : Stream) (r : Result A) (t : Stream)
      → Kept s t
      → Kept s (try_else (λ _. (r, t)) fatal k t).1
  handled hk s (ok a) t h = Kept-trans h (hk a t)
  handled hk s (err e) t h = Kept-trans h (fatal-Keeps e t)

  on_protocol_lem :
      (s : Stream) → is_some s.protocol ≡ true → on_protocol call m s ≡ m (logged call s)
  unfolding logged
  on_protocol_lem s h = ground arith

  guarded-Kept :
      (hm : Keeps m) (hk : (a : A) → Keeps (k a)) (s : Stream)
      → is_some s.protocol ≡ true
      → Kept (logged call s) (try_else (on_protocol call m) fatal k s).1
  guarded-Kept hm hk s h =
      subst (λ (x : Result A × Stream). Kept (logged call s) (try_else (λ _. x) fatal k s).1)
        (sym (on_protocol_lem s h))
        (handled hk (logged call s) (m (logged call s)).0 (m (logged call s)).1
          (hm (logged call s)))

-- A delivery is the next thing that the protocol hears of.
pub record Delivers (d : Delivery) (s t : Stream) : Type 0 where
  pub heard : history t ≡ s.calls ++ (calls_of d ++ calls_of_all s.replay)
  pub no_more : length t.replay ≤ length s.replay
  pub stays_live : IsLive s → IsLive t

Delivers-logged :
    (d : Delivery) (call : Call) (s t : Stream)
    → calls_of d ≡ call ∷ []
    → Kept (logged call s) t
    → Delivers d s t
unfolding logged
Delivers-logged d call s t e h = record {
  heard = h.same_history ∙ rw e (append_assoc s.calls (call ∷ []) (calls_of_all s.replay));
  no_more = h.no_more;
  stays_live = h.stays_live;
}

abbrev after_eof : Bool → Method Stream (Unit {0})
after_eof keep_open = if keep_open then base Core.remove_reader else close

module _ (u : User) (reader : IsReader u) where
  eof_lem :
      (s : Stream)
      → s.loop ≡ true
      → read_ready_on_eof u s
        ≡ try_else (on_protocol Call.eof_received u.eof_received) fatal after_eof s
  unfolding read_ready_on_eof
  eof_lem s h = ground arith

  keep_open-Keeps : (keep_open : Bool) → Keeps (after_eof keep_open)
  keep_open-Keeps true = base-Keeps Core.remove_reader remove_reader-Frame
  keep_open-Keeps false = close-Keeps

  pub deliver-Delivers :
      (d : Delivery) (s : Stream) → IsLive s → s.closing ≡ false → Delivers d s (deliver u d s).1
  unfolding deliver deliver_stream data_received deliver_error
  deliver-Delivers (chunk []) s h c = rw (eof_lem s (h c).0) (
      Delivers-logged (chunk []) Call.eof_received s _ refl (
        guarded-Kept Call.eof_received u.eof_received after_eof reader.on_eof keep_open-Keeps s
          (h c).1))
  deliver-Delivers (chunk (b ∷ bs)) s h c =
      Delivers-logged (chunk (b ∷ bs)) (Call.data_received (b ∷ bs)) s _ refl (
        guarded-Kept (Call.data_received (b ∷ bs)) (u.data_received (b ∷ bs)) (λ _. skip)
          (reader.on_data (b ∷ bs)) (λ _. Kept-refl) s (h c).1)
  deliver-Delivers (failure e) s h c =
      let k = base-Keeps (Core.fatal_error e) (fatal_error-Frame e) s in
      record { heard = k.same_history; no_more = k.no_more; stays_live = k.stays_live }
