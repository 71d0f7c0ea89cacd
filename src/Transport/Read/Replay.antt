-- ===== src/Transport/Read/Replay.antt =====
-- `_flush_replay` and `resume_reading`: the stored deliveries reach the protocol in order, once.
use tokioop.Prelude.{
  ◌≡◌, sym, ap, ◌∙◌, ◌⊎◌, inl, inr, true, false, Option, none, some, List, [], ◌∷◌, ◌++◌,
  append-nil, append_assoc, arith, Bool-cases,
}
use tokioop.Python.{Result, ok, err}
use tokioop.Transport.Core
use tokioop.Transport.Core.Frame.{Frame}
use tokioop.Transport.Stream.{Delivery, Stream, User, base, Call}
use tokioop.Transport.Read.{watch_again, may_deliver, deliver, drain, stash}
use tokioop.Transport.Read.Order.{
  calls_of, calls_of_all, history, IsLive, Kept, IsReader, deliver-Delivers,
}

-- The outcome of a flush that ended: nothing is lost, and unless an exception came out of it, what
-- is still stored waits for reading to be resumed, or for nothing.
abbrev pub Flushed : Stream → Option (Result (Unit {0}) × Stream) → Type 0
Flushed s o =
    (r : Result (Unit {0})) × (t : Stream) × (o ≡ some (r, t))
    × Kept s t
    × (r ≡ ok tt → (t.replay ≡ []) ⊎ (may_deliver t ≡ false))

calls_of_all-snoc :
    (ds : List Delivery) (d : Delivery)
    → calls_of_all (ds ++ d ∷ []) ≡ calls_of_all ds ++ calls_of d
calls_of_all-snoc [] d = append-nil (calls_of d)
calls_of_all-snoc (x ∷ ds) d = rw (calls_of_all-snoc ds d) (sym (append_assoc (calls_of x) _ _))

nothing_stored :
    (a b : List Call) (l : List Delivery)
    → l ≡ []
    → a ++ (b ++ calls_of_all l) ≡ (a ++ calls_of_all l) ++ b
nothing_stored a b l e = rw e (simp append-nil)

-- The rest of `resume_reading` after the flush.
abbrev then_watch : Option (Result (Unit {0}) × Stream) → Option (Result (Unit {0}) × Stream)
then_watch o = elim o [
  | none ↦ none
  | some (r, t) ↦ elim r [ ok _ ↦ some (base watch_again t) | err e ↦ some (err e, t) ]
]

drain_paused :
    (u : User) (d : Delivery) (s : Stream)
    → s.closing ≡ false
    → s.conn_lost ≡ 0
    → s.paused ≡ true
    → drain u d s ≡ stash d s
unfolding drain
drain_paused u d s c l p = ground arith

drain_now :
    (u : User) (d : Delivery) (s : Stream)
    → s.closing ≡ false
    → s.conn_lost ≡ 0
    → s.paused ≡ false
    → drain u d s ≡ deliver u d s
unfolding drain
drain_now u d s c l p = ground arith

stash-history : (d : Delivery) (s : Stream) → history (stash d s).1 ≡ history s ++ calls_of d
unfolding stash
stash-history d s =
    ap (λ l. s.calls ++ l) (calls_of_all-snoc s.replay d)
    ∙ sym (append_assoc s.calls (calls_of_all s.replay) (calls_of d))

-- For protocol code that takes no part in the reading itself, on a transport that is not closing
-- and has nothing in store unless it is paused: what the loop's reader has taken from the kernel
-- goes to the end of what the protocol hears, now or, while reading is paused, later.
pub drain-history :
    (u : User) (d : Delivery) (s : Stream)
    → IsReader u
    → IsLive s
    → s.closing ≡ false
    → s.conn_lost ≡ 0
    → (s.paused ≡ false → s.replay ≡ [])
    → history (drain u d s).1 ≡ history s ++ calls_of d
drain-history u d s reader live c l idle = elim (Bool-cases s.paused) [
  | inl p ↦ rw (drain_paused u d s c l p) (stash-history d s)
  | inr p ↦ rw (drain_now u d s c l p) (
      (deliver-Delivers u reader d s live c).heard
      ∙ nothing_stored s.calls (calls_of d) s.replay (idle p))
]
