-- ===== src/Transport/Life/Read.antt =====
-- The read side keeps every statement that is stable, where the protocol's code leaves the transport
-- alone.
use tokioop.Prelude.{
  subst, ℕ, inl, inr, Bool-cases, zero, suc, ◌≡◌, refl, sym, arith, true, false, not, none, some,
  List, [], ◌∷◌, ◌++◌, Bool, Option, if◌then◌else◌, ltb, ◌||◌, ◌∙◌,
}
use tokioop.Python.{Exc, is_exit, Result, ok, err, skip, try_else, Method, ◌>>◌}
use tokioop.Python.Rules.{Keeps, try_result, if_at}
use tokioop.Transport.Core
use tokioop.Transport.Stream.{Stream, User, Call, Delivery, chunk, failure, base, on_protocol}
use tokioop.Transport.Write.{close}
use tokioop.Transport.Read.{
  recv, fatal, stash, may_deliver, set_replay, watch_again, unpause, read_ready_on_eof,
  data_received, deliver_stream, deliver_error, deliver, drain, flush_replay, resume_reading,
}
use tokioop.Transport.Core.{Protocol}
use tokioop.Transport.Life.Invariant.{is_inner}
use tokioop.Transport.Life.Write.{IsBystander}
use tokioop.Transport.Life.Stable.{IsStable}

pub told_closing :
    {A : Type 0} (call : Call) (m : Method Stream A) (s : Stream)
    → ((t : Stream) → (m t).1 ≡ t)
    → (on_protocol call m s).1.closing ≡ s.closing
told_closing call m s same = ground (arith, same (record s { calls = s.calls ++ call ∷ [] }))

logs : (s : Stream) → s.loop ≡ true → base Core.debug_log s ≡ (ok tt, s)
logs s h = ground arith

pub receives :
    {A : Type 0} (answer : Result A) (s : Stream) → s.sock ≡ true → recv answer s ≡ (answer, s)
unfolding recv
receives answer s h = ground arith

module _ (P : Stream → Type 0) (stable : IsStable P) where
  -- `fatal` raises the exits of the interpreter.
  pub fatal-Keeps : (e : Exc) → Keeps P (fatal e)
  fatal-Keeps e s v = elim (Bool-cases (is_exit e)) [
    | inl exit ↦ rw exit v
    | inr caught ↦ rw caught (stable.fails e s v)
  ]

  -- A call of the protocol, with what the code does after it.
  pub told_then-Keeps :
      {A : Type 0} (call : Call) (m : Method Stream A) (k : A → Method Stream (Unit {0}))
      (s : Stream)
      → P s
      → s.closing ≡ false
      → is_inner call ≡ true
      → ((t : Stream) → (m t).1 ≡ t)
      → ((a : A) (t : Stream) → P t → t.closing ≡ false → P (k a t).1)
      → P (try_else (on_protocol call m) fatal k s).1
  told_then-Keeps call m k s v c l same hk =
      try_result P fatal k (on_protocol call m s) (λ e. fatal-Keeps e (on_protocol call m s).1)
        (λ a w. hk a (on_protocol call m s).1 w (told_closing call m s same ∙ c))
        (stable.told call m s v c l same)

  -- What an operation on fuel leaves, if it ends.
  abbrev pub After : Option (Result (Unit {0}) × Stream) → Type 0
  After none = Unit {0}
  After (some x) = P x.1

  After-if :
      (test : Bool) (x y : Option (Result (Unit {0}) × Stream))
      → After x
      → After y
      → After (if test then x else y)
  After-if true x y hx hy = hx
  After-if false x y hx hy = hy

  module _ (u : User) (b : IsBystander u) where
    keep_open-Keeps : (keep : Bool) → Keeps P (if keep then base Core.remove_reader else close)
    keep_open-Keeps keep s v =
        if_at P keep (base Core.remove_reader) close s (λ _. stable.remove_reader s v)
          (λ _. stable.closes s v)

    pub on_eof-Keeps : (s : Stream) → P s → s.closing ≡ false → P (read_ready_on_eof u s).1
    unfolding read_ready_on_eof
    on_eof-Keeps s v c =
        let k : Bool → Method Stream (Unit {0}) =
          λ keep. if keep then base Core.remove_reader else close in
        subst
          (λ (x : Result (Unit {0}) × Stream).
            P
              (((λ (_ : Stream). x)
                  >> try_else (on_protocol Call.eof_received u.eof_received) fatal k)
                s).1)
          (sym (logs s ((stable.sound s v).has_loop ((stable.sound s v).is_open c).0)))
          (told_then-Keeps Call.eof_received u.eof_received k s v c refl b.on_eof
            (λ keep t w _. keep_open-Keeps keep t w))

    deliver-Keeps : (d : Delivery) (s : Stream) → P s → s.closing ≡ false → P (deliver u d s).1
    unfolding deliver deliver_stream data_received deliver_error
    deliver-Keeps (chunk []) s v c = on_eof-Keeps s v c
    deliver-Keeps (chunk (x ∷ xs)) s v c =
        told_then-Keeps (Call.data_received (x ∷ xs)) (u.data_received (x ∷ xs)) (λ _. skip) s v c
          refl (b.on_data (x ∷ xs)) (λ _ t w _. w)
    deliver-Keeps (failure e) s v c = stable.fails e s v

    pub drain-Keeps : (d : Delivery) → Keeps P (drain u d)
    unfolding drain
    drain-Keeps d s v =
        let store : Method Stream (Unit {0}) = if s.paused then stash d else deliver u d in
        if_at P (ltb 0 s.conn_lost || s.closing) skip store s (λ _. v)
          (λ reads.
            if_at P s.paused (stash d) (deliver u d) s (λ _. stable.stashes d s v)
              (λ _. deliver-Keeps d s v (ground arith)))

    flush_next :
        (f : ℕ) (x : Result (Unit {0}) × Stream)
        → P x.1
        → ((s : Stream) → P s → After (flush_replay u f s))
        → After
            (let (r, s') = x in elim r [ ok _ ↦ flush_replay u f s' | err e ↦ some (err e, s') ])
    flush_next f (ok _, t) v ih = ih t v
    flush_next f (err e, t) v ih = v

    abbrev flush_round : ℕ → Stream → List Delivery → Bool → Option (Result (Unit {0}) × Stream)
    flush_round f s stored may = elim stored [
      | [] ↦ some (ok tt, s)
      | d ∷ ds ↦ elim may [
        | true ↦
            let (r, s') = deliver u d (set_replay ds s) in
            elim r [ ok _ ↦ flush_replay u f s' | err e ↦ some (err e, s') ]
        | false ↦ some (ok tt, s)
      ]
    ]

    flush_round-Keeps :
        (f : ℕ) (s : Stream) (stored : List Delivery) (may : Bool)
        → P s
        → may_deliver s ≡ may
        → ((t : Stream) → P t → After (flush_replay u f t))
        → After (flush_round f s stored may)
    unfolding may_deliver set_replay
    flush_round-Keeps f s [] may v e ih = v
    flush_round-Keeps f s (d ∷ ds) false v e ih = v
    flush_round-Keeps f s (d ∷ ds) true v e ih =
        let t = record s { core = record (s.core) { replay = ds } } in
        let w : P t = stable.stored ds s v in
        flush_next f (deliver u d t) (deliver-Keeps d t w (ground arith)) ih

    flush_replay-Keeps : (f : ℕ) (s : Stream) → P s → After (flush_replay u f s)
    unfolding flush_replay
    flush_replay-Keeps zero s v = tt
    flush_replay-Keeps (suc f) s v =
        flush_round-Keeps f s s.replay (may_deliver s) v refl (flush_replay-Keeps f)

    resumed :
        (o : Option (Result (Unit {0}) × Stream))
        → After o
        → After (elim o [
          | none ↦ none
          | some (r, t) ↦ elim r [ ok _ ↦ some (base watch_again t) | err e ↦ some (err e, t) ]
        ])
    resumed none h = tt
    resumed (some (ok _, t)) h = stable.watches t h
    resumed (some (err e, t)) h = h

    pub resume_reading-Keeps : (f : ℕ) (s : Stream) → P s → After (resume_reading u f s)
    unfolding resume_reading unpause
    resume_reading-Keeps f s v = After-if (s.closing || not s.paused) (some (ok tt, s)) _ v (
        resumed (flush_replay u f (unpause s))
          (flush_replay-Keeps f (unpause s) (stable.unpauses s v)))
