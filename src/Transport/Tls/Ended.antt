-- ===== src/Transport/Tls/Ended.antt =====
-- How `start_tls` ends.
use tokioop.Prelude.{◌≡◌, refl, sym, subst, ◌⊎◌, inl, inr, Bool, true, false, List, [], ◌∷◌, arith}
use tokioop.Python.{
  Exc, runtime_error, type_error, Result, ok, err, Method, lift, skip, try_else, ◌>>◌,
}
use tokioop.Python.Returns.{Returns}
use tokioop.Transport.Core
use tokioop.Transport.Core.{Protocol}
use tokioop.Transport.Stream.{Stream}
use tokioop.Transport.Write.{close}
use tokioop.Transport.Tls.Handover.{IsHandedOver, IsActive, hand_over-IsHandedOver}
use tokioop.Transport.Tls.{
  Handle, connection_made, resume_reading, Tls, TlsArgs, check_tls, cancel, hand_over, give_up,
  start_tls,
}

-- `close` can be called: a transport that is not closing has its loop.
abbrev pub CanClose : Stream → Type 0
CanClose s = (s.closing ≡ true) ⊎ ((s.loop ≡ true) × (s.loop_closed ≡ false))

-- The end, after the wait: as the wait ended, or with the transport closed and both callbacks cancelled.
abbrev pub AfterWait : Result (Unit {0}) × Tls → Result (Unit {0}) × Tls → Type 0
AfterWait (ok _, t) out = out ≡ (ok tt, t)
AfterWait (err e, t) (r, v) = (r ≡ err e) × (v.stream.closing ≡ true) × (v.handles ≡ [])

-- The refusals, each where those before it do not apply: no ssl module, no SSL context, a transport
-- that cannot be upgraded, and an SSL protocol that cannot be made.
abbrev pub Refused : Result (Unit {0}) → TlsArgs → Exc → Type 0
Refused make a e =
    ((a.has_ssl ≡ false) × (e ≡ runtime_error))
    ⊎ ((a.has_ssl ≡ true)
        × (((a.is_context ≡ false) × (e ≡ type_error))
            ⊎ ((a.is_context ≡ true)
                × (((a.compatible ≡ false) × (e ≡ type_error))
                    ⊎ ((a.compatible ≡ true) × (make ≡ err e))))))

-- Nothing stands against the upgrade.
pub record IsAccepted (make : Result (Unit {0})) (a : TlsArgs) : Type 0 where
  pub ssl_there : a.has_ssl ≡ true
  pub context_given : a.is_context ≡ true
  pub can_upgrade : a.compatible ≡ true
  pub ssl_made : make ≡ ok tt

abbrev pub Ended :
    Result (Unit {0})
    → TlsArgs
    → Method Tls (Unit {0})
    → Protocol
    → Tls
    → Result (Unit {0}) × Tls
    → Type 0
Ended make a wait p x out =
    ((e : Exc) × (out ≡ (err e, x)) × Refused make a e)
    ⊎ (IsAccepted make a × (v : Tls) × IsHandedOver a.server_side p x v × AfterWait (wait v) out)

cancelled-nil : (hs : List Handle) → cancel resume_reading (cancel connection_made hs) ≡ []
unfolding cancel
cancelled-nil [] = refl
cancelled-nil (connection_made ∷ hs) = cancelled-nil hs
cancelled-nil (resume_reading ∷ hs) = cancelled-nil hs

close_lem : (s : Stream) → CanClose s → ((close s).0 ≡ ok tt) × ((close s).1.closing ≡ true)
unfolding close Core.close Core.remove_reader Core.remove_writer Core.call_soon
close_lem s c = ground arith

give_up-Ended : (e : Exc) (t : Tls) → CanClose t.stream → AfterWait (err e, t) (give_up e t)
unfolding give_up
give_up-Ended e t c = let (a, b) = close_lem t.stream c in ground (arith, cancelled-nil t.handles)

waited :
    (x : Result (Unit {0}) × Tls)
    → CanClose x.1.stream
    → AfterWait x (try_else (λ _. x) give_up (λ _. skip) x.1)
waited (ok _, t) c = refl
waited (err e, t) c = give_up-Ended e t c

after_first :
    (y : Result (Unit {0}) × Tls) (m k : Method Tls (Unit {0})) (x : Tls)
    → ((λ (_ : Tls). y) >> (m >> k)) x ≡ (((λ (_ : Tls). y) >> m) >> k) x
after_first (ok _, v) m k x = refl
after_first (err e, v) m k x = refl

-- What the four guards come to.
Guarded : Result (Unit {0}) → TlsArgs → Result (Unit {0}) → Type 0
Guarded make a (ok _) = IsAccepted make a
Guarded make a (err e) = Refused make a e

guards :
    (s c t : Bool) (make : Result (Unit {0})) (side : Bool) (x : Tls)
    → let a : TlsArgs = record {
      has_ssl = s;
      is_context = c;
      compatible = t;
      server_side = side;
    } in
      (r : Result (Unit {0})) × ((check_tls a >> lift make) x ≡ (r, x)) × Guarded make a r
unfolding check_tls Guarded
guards false c t make side x = (err runtime_error, refl, inl (refl, refl))
guards true false t make side x = (err type_error, refl, inr (refl, inl (refl, refl)))
guards true true false make side x =
    (err type_error, refl, inr (refl, inr (refl, inl (refl, refl))))
guards true true true (err e) side x = (err e, refl, inr (refl, inr (refl, inr (refl, refl))))
guards true true true (ok _) side x = (
  ok tt,
  refl,
  record { ssl_there = refl; context_given = refl; can_upgrade = refl; ssl_made = refl },
)

module _ (make : Result (Unit {0})) (a : TlsArgs) (p : Protocol) (x : Tls)
    (active : IsActive x.stream) (fresh : x.handles ≡ []) where
  after_hand_over :
      (wait : Method Tls (Unit {0})) (y : Result (Unit {0}) × Tls)
      → IsAccepted make a
      → Returns (λ _. IsHandedOver a.server_side p x) y
      → ((t : Tls) → IsHandedOver a.server_side p x t → CanClose (wait t).1.stream)
      → Ended make a wait p x (((λ (_ : Tls). y) >> try_else wait give_up (λ _. skip)) x)
  after_hand_over wait (ok _, v) k h c = inr (k, v, h, waited (wait v) (c v h))
  after_hand_over wait (err e, v) k h c = absurd h

  after_guards :
      (wait : Method Tls (Unit {0})) (r : Result (Unit {0}))
      → Guarded make a r
      → ((t : Tls) → IsHandedOver a.server_side p x t → CanClose (wait t).1.stream)
      → Ended make a wait p x (
          ((λ (_ : Tls). (r, x))
              >> (hand_over a.server_side p >> try_else wait give_up (λ _. skip)))
            x)
  unfolding Guarded
  after_guards wait (err e) g c = inl (e, refl, g)
  after_guards wait (ok _) g c =
      after_hand_over wait (hand_over a.server_side p x) g
        (hand_over-IsHandedOver a.server_side p x active fresh) c

  assoc_guards :
      (wait : Method Tls (Unit {0}))
      → start_tls make wait a p x
        ≡ ((check_tls a >> lift make)
              >> (hand_over a.server_side p >> try_else wait give_up (λ _. skip)))
            x
  unfolding start_tls
  assoc_guards wait =
      after_first (check_tls a x) (lift make)
        (hand_over a.server_side p >> try_else wait give_up (λ _. skip)) x

-- `start_tls` on a transport that reads over an open loop: it changes nothing and raises, where there is
-- no ssl module, the context is none, the transport cannot be upgraded or the SSL protocol cannot be
-- made, in this order; else it hands the transport over to the SSL protocol and waits, with the transport
-- paused, no call of the old protocol, what its reader had buffered moved to the SSL protocol on the
-- server's side, and `connection_made` scheduled before reading resumes. It then returns where the
-- wait does; where the wait raises, that comes out, the transport is closing and what is left of the two
-- callbacks is cancelled.
pub start_tls-Ended :
    (make : Result (Unit {0})) (wait : Method Tls (Unit {0})) (a : TlsArgs) (p : Protocol) (x : Tls)
    → IsActive x.stream
    → x.handles ≡ []
    → ((t : Tls) → IsHandedOver a.server_side p x t → CanClose (wait t).1.stream)
    → Ended make a wait p x (start_tls make wait a p x)
start_tls-Ended make wait a p x active fresh closes =
    let rest = hand_over a.server_side p >> try_else wait give_up (λ _. skip) in
    let (r, e, g) = guards a.has_ssl a.is_context a.compatible make a.server_side x in
    rw (assoc_guards make a p x active fresh wait) (
      subst (λ y. Ended make a wait p x (((λ (_ : Tls). y) >> rest) x)) (sym e)
        (after_guards make a p x active fresh wait r g closes))
