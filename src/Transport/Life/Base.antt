-- ===== src/Transport/Life/Base.antt =====
-- The methods of the base class keep a transport sound.
use tokioop.Prelude.{◌≡◌, arith, none, some, [], ◌∷◌, ◌++◌, ◌⊎◌, inl, inr, Option}
use tokioop.Python.{Exc}
use tokioop.Python.Rules.{Keeps}
use tokioop.Transport.Core
use tokioop.Transport.Core.{Callback}
use tokioop.Transport.Stream.{Stream, base}
use tokioop.Transport.Write.{close, set_buffer}
use tokioop.Transport.Read.{stash}
use tokioop.Transport.Life.Invariant.{IsSound, scheduled-snoc, unmade-snoc}

pub remove_reader-IsSound : Keeps IsSound (base Core.remove_reader)
unfolding Core.remove_reader
remove_reader-IsSound s v = ground arith

pub remove_writer-IsSound : Keeps IsSound (base Core.remove_writer)
unfolding Core.remove_writer
remove_writer-IsSound s v = ground arith

pub add_writer-IsSound : Keeps IsSound (base Core.add_writer)
unfolding Core.add_writer
add_writer-IsSound s v = ground arith

pub set_buffer-IsSound : (bs : _) → Keeps IsSound (base (set_buffer bs))
unfolding set_buffer
set_buffer-IsSound bs s v = ground arith

pub stash-IsSound : (d : _) → Keeps IsSound (stash d)
unfolding stash
stash-IsSound d s v = ground arith

pub register_reader-IsSound : Keeps IsSound (base Core.register_reader)
unfolding Core.register_reader Core.is_reading Core.add_reader
register_reader-IsSound s v = ground arith

pub pause_reading-IsSound : Keeps IsSound (base Core.pause_reading)
unfolding Core.pause_reading Core.is_reading Core.remove_reader
pause_reading-IsSound s v = ground arith

pub close-IsSound : Keeps IsSound close
unfolding close Core.close Core.remove_reader Core.remove_writer Core.call_soon
close-IsSound s v = ground (
  arith,
  scheduled-snoc s.ready (Callback.connection_lost none),
  unmade-snoc s.ready (Callback.connection_lost none),
)

force_close-IsSound : (e : Option Exc) → Keeps IsSound (base (Core.force_close e))
unfolding Core.force_close Core.remove_reader Core.remove_writer Core.call_soon
force_close-IsSound e s v = ground (
  arith,
  scheduled-snoc s.ready (Callback.connection_lost e),
  unmade-snoc s.ready (Callback.connection_lost e),
)

pub abort-IsSound : Keeps IsSound (base Core.abort)
unfolding Core.abort
abort-IsSound = force_close-IsSound none

unfoldable pub noted : Exc → Stream → Stream
noted e s = record s { core = record (s.core) { reported = s.reported ++ e ∷ [] } }

pub noted-IsSound : (e : Exc) (s : Stream) → IsSound s → IsSound (noted e s)
unfolding noted
noted-IsSound e s v = ground arith

pub fatal_error_cases :
    (e : Exc) (s : Stream)
    → ((base (Core.fatal_error e) s).1 ≡ s)
      ⊎ ((base (Core.fatal_error e) s).1 ≡ (base (Core.force_close (some e)) s).1)
      ⊎ ((base (Core.fatal_error e) s).1 ≡ (base (Core.force_close (some e)) (noted e s)).1)
unfolding Core.fatal_error Core.call_exception_handler noted
fatal_error_cases e s = ground arith

pub fatal_error-IsSound : (e : Exc) → Keeps IsSound (base (Core.fatal_error e))
fatal_error-IsSound e s v = elim (fatal_error_cases e s) [
  | inl same ↦ rw same v
  | inr (inl plain) ↦ rw plain (force_close-IsSound (some e) s v)
  | inr (inr told) ↦ rw told (force_close-IsSound (some e) (noted e s) (noted-IsSound e s v))
]
