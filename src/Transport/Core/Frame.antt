-- ===== src/Transport/Core/Frame.antt =====
-- What the methods of the base class leave alone: the stored deliveries, the loop and the protocol;
-- and none of them takes `_closing` back.
use tokioop.Prelude.{◌≡◌, false, Option, some, [], ◌∷◌, ◌++◌, arith}
use tokioop.Python.{Exc, Method}
use tokioop.Transport.Core.{
  Core, remove_reader, remove_writer, call_soon, call_exception_handler, close, force_close,
  fatal_error,
}

pub record Same {A D : Type 0} (c d : Core A D) : Type 0 where
  pub replay_same : d.replay ≡ c.replay
  pub loop_same : d.loop ≡ c.loop
  pub protocol_same : d.protocol ≡ c.protocol
  pub closing_stays : d.closing ≡ false → c.closing ≡ false

module _ {A D : Type 0} where
  abbrev pub Frame : {B : Type 0} → Method (Core A D) B → Type 0
  Frame m = (c : Core A D) → Same c (m c).1

  pub remove_reader-Frame : Frame (remove_reader {A = A} {D = D})
  unfolding remove_reader
  remove_reader-Frame c = ground arith

  pub close-Frame : Frame (close {A = A} {D = D})
  unfolding close remove_reader remove_writer call_soon
  close-Frame c = ground arith

  force_close-Frame : (exc : Option Exc) → Frame (force_close {A = A} {D = D} exc)
  unfolding force_close remove_reader remove_writer call_soon
  force_close-Frame exc c = ground arith

  pub fatal_error-Frame : (e : Exc) → Frame (fatal_error {A = A} {D = D} e)
  unfolding fatal_error call_exception_handler
  fatal_error-Frame e c = ground (
    arith,
    force_close-Frame (some e) c,
    force_close-Frame (some e) (record c { reported = c.reported ++ e ∷ [] }),
  )
