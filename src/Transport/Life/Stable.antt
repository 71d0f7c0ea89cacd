-- ===== src/Transport/Life/Stable.antt =====
-- What the read side asks of a statement about a transport in order to keep it, and that it holds of
-- `IsSound`.
use tokioop.Prelude.{◌≡◌, arith, true, false, List, [], ◌∷◌, ◌++◌}
use tokioop.Python.{Exc, Method}
use tokioop.Python.Rules.{Keeps}
use tokioop.Transport.Core
use tokioop.Transport.Stream.{Stream, Call, Delivery, base, on_protocol}
use tokioop.Transport.Write.{close}
use tokioop.Transport.Read.{stash, watch_again, unpause, set_protocol, switch_mode}
use tokioop.Transport.Core.{Protocol}
use tokioop.Transport.Life.Invariant.{
  IsSound, is_inner, heard-snoc, starts-snoc, final-one, inner_lem, quiet-snoc, quiet-final,
}
use tokioop.Transport.Life.Base.{
  remove_reader-IsSound, stash-IsSound, close-IsSound, fatal_error-IsSound,
}

-- A statement that implies soundness and survives the steps that reading is made of.
pub record IsStable (P : Stream → Type 0) : Type 1 where
  pub sound : (s : Stream) → P s → IsSound s
  pub remove_reader : Keeps P (base Core.remove_reader)
  pub stashes : (d : Delivery) → Keeps P (stash d)
  pub closes : Keeps P close
  pub fails : (e : Exc) → Keeps P (base (Core.fatal_error e))
  pub told :
      {A : Type 0} (call : Call) (m : Method Stream A) (s : Stream)
      → P s
      → s.closing ≡ false
      → is_inner call ≡ true
      → ((t : Stream) → (m t).1 ≡ t)
      → P (on_protocol call m s).1
  pub stored :
      (ds : List Delivery) (s : Stream)
      → P s
      → P (record s { core = record (s.core) { replay = ds } })
  pub unpauses : (s : Stream) → P s → P (unpause s)
  pub watches : Keeps P (base watch_again)

-- A call of the protocol that is not the end, while the transport is open.
told-IsSound :
    {A : Type 0} (call : Call) (m : Method Stream A) (s : Stream)
    → IsSound s
    → s.closing ≡ false
    → is_inner call ≡ true
    → ((t : Stream) → (m t).1 ≡ t)
    → IsSound (on_protocol call m s).1
told-IsSound call m s v c l same = ground (
  arith,
  quiet-snoc s.calls call,
  quiet-final (s.calls ++ call ∷ []),
  heard-snoc s.calls call,
  starts-snoc s.calls call,
  final-one s.calls call,
  inner_lem call l,
  same (record s { calls = s.calls ++ call ∷ [] }),
  v,
)

pub set_protocol-IsSound : (p : Protocol) → Keeps IsSound (set_protocol p)
unfolding set_protocol switch_mode Core.remove_reader Core.register_reader Core.is_reading
    Core.add_reader
set_protocol-IsSound p s v = ground arith

watch_again-IsSound : Keeps IsSound (base watch_again)
unfolding watch_again Core.register_reader Core.is_reading Core.add_reader
watch_again-IsSound s v = ground arith

stored-IsSound :
    (ds : List Delivery) (s : Stream)
    → IsSound s
    → IsSound (record s { core = record (s.core) { replay = ds } })
stored-IsSound ds s v = ground arith

unpause-IsSound : (s : Stream) → IsSound s → IsSound (unpause s)
unfolding unpause
unpause-IsSound s v = ground arith

pub IsSound-IsStable : IsStable IsSound
IsSound-IsStable = record {
  sound = λ s v. v;
  remove_reader = remove_reader-IsSound;
  stashes = stash-IsSound;
  closes = close-IsSound;
  fails = fatal_error-IsSound;
  told = told-IsSound;
  stored = stored-IsSound;
  unpauses = unpause-IsSound;
  watches = watch_again-IsSound;
}
