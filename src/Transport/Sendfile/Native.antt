-- ===== src/Transport/Sendfile/Native.antt =====
-- The native attempt of `sendfile`: what it leaves behind when it fails, and when it is cut off.
use tokioop.Prelude.{
  ℕ, ◌≡◌, ap, ◌∙◌, Bool, true, false, ◌&&◌, none, some, [], arith, is_empty, if◌then◌else◌,
}
use tokioop.Python.{
  Bytes, Exc, value_error, type_error, runtime_error, not_available, cancelled_error, Result, ok,
  err, Method, pure, raise, raise_if, try_else, ◌>>◌, ◌>>=◌,
}
use tokioop.Transport.Core
use tokioop.Transport.Stream.{Stream, User, Waiter}
use tokioop.Transport.Write.{make_empty_waiter, reset_empty_waiter, write, bytes_like}
use tokioop.Transport.Read.{resume_reading, flush_replay, watch_again, unpause}
use tokioop.Transport.Read.Mode.{IsReading}
use tokioop.Transport.Sendfile.{
  SendfileArgs, check_count, check_offset, check_sendfile_params, sock_sendfile_native, unavailable,
  sock_sendfile, Transfer, unregister, register_again, try_native, resume_stream, restore, prepare,
  sendfile_native, copy_or_refuse, native_failed, sendfile,
}

-- `sendfile` as it is without a native attempt: the checks, and the copy if it is allowed.
unfoldable pub direct : Method Transfer ℕ → SendfileArgs → Method Transfer ℕ
direct copy a = do
  raise_if (a.debug && a.blocking) value_error
  raise_if a.is_ssl type_error
  check_sendfile_params a
  if a.fallback then copy else raise not_available

-- The waiter of an empty buffer is done at once.
abbrev pub at_once : Method Stream (Unit {0})
at_once s = (ok tt, s)

abbrev attempt : SendfileArgs → Transfer → Result ℕ
attempt a x = (sock_sendfile a false (raise not_available) x).0

sock_sendfile-same :
    (a : SendfileArgs) (x : Transfer)
    → sock_sendfile a false (raise not_available) x ≡ (attempt a x, x)
unfolding sock_sendfile check_sendfile_params check_count check_offset sock_sendfile_native
    unavailable
sock_sendfile-same a x = ground arith

attempt_lem : (a : SendfileArgs) (x y : Transfer) → attempt a x ≡ attempt a y
unfolding sock_sendfile check_sendfile_params check_count check_offset sock_sendfile_native
    unavailable
attempt_lem a x y = ground arith

-- What `sendfile` does after a native attempt that changed nothing.
failed_lem :
    (copy : Method Transfer ℕ) (a : SendfileArgs) (x : Transfer)
    → try_else (λ (_ : Transfer). (attempt a x, x)) (native_failed a.fallback copy) pure x
      ≡ direct copy a x
unfolding sock_sendfile check_sendfile_params check_count check_offset sock_sendfile_native
    unavailable native_failed copy_or_refuse direct
failed_lem copy a x = ground arith

-- The transport between the pause and the resumption.
abbrev waiting : Transfer → Transfer
waiting x = record {
  stream = record (x.stream) {
    core = record (x.stream.core) {
      paused = true;
      reader = elim x.stream.drain_kind [ none ↦ none | some k ↦ x.stream.reader ];
    };
    empty_waiter = some Waiter.finished;
  };
  registered = false;
}

module _ (u : User) (x : Transfer) (reads : IsReading (x.stream)) (known : x.registered ≡ true)
    (free : x.stream.empty_waiter ≡ none) (nothing_stored : x.stream.replay ≡ []) where
  restore_lem : (r : Result ℕ) → restore u true r (waiting x) ≡ (r, x)
  unfolding restore reset_empty_waiter resume_stream resume_reading flush_replay watch_again unpause
      register_again Core.register_reader Core.is_reading Core.add_reader
  restore_lem r = ground (arith, reads)

  prepare_lem : is_empty x.stream.buffer ≡ true → prepare at_once x ≡ (ok true, waiting x)
  unfolding prepare unregister Core.is_reading Core.pause_reading make_empty_waiter
      Core.remove_reader
  prepare_lem b = ground (arith, reads)

  sendfile_native_lem :
      (a : SendfileArgs)
      → is_empty x.stream.buffer ≡ true
      → sendfile_native u at_once a x ≡ (attempt a x, x)
  unfolding sendfile_native
  sendfile_native_lem a b =
      ap
        (λ (z : Result Bool × Transfer).
          ((λ (_ : Transfer). z) >>= (λ resume y.
              let (r, t) = sock_sendfile a false (raise not_available) y in restore u resume r t))
            x)
        (prepare_lem b)
      ∙ ap (λ (z : Result ℕ × Transfer). let (r, t) = z in restore u true r t)
          (sock_sendfile-same a (waiting x))
      ∙ restore_lem (attempt a (waiting x))
      ∙ ap (λ (r : Result ℕ). (r, x)) (attempt_lem a (waiting x) x)

  sendfile_lem :
      (copy : Method Transfer ℕ) (a : SendfileArgs)
      → is_empty x.stream.buffer ≡ true
      → sendfile u try_native at_once copy a x ≡ direct copy a x
  unfolding sendfile
  sendfile_lem copy a b =
      ap
        (λ (c : Bool).
          if c
          then (err runtime_error, x)
          else try_else (sendfile_native u at_once a) (native_failed a.fallback copy) pure x)
        reads.not_closing
      ∙ ap
          (λ (z : Result ℕ × Transfer).
            try_else (λ (_ : Transfer). z) (native_failed a.fallback copy) pure x)
          (sendfile_native_lem a b)
      ∙ failed_lem copy a x

-- On a stream transport that reads, has nothing in its buffer and nothing in store, `sendfile` with the
-- native attempt does the same as without one: the checks of the arguments, and then the copy, or
-- `SendfileNotAvailableError` where the copy is not allowed; the transport is as it was before,
-- reading and registered with the loop.
pub sendfile-direct :
    (u : User) (copy : Method Transfer ℕ) (a : SendfileArgs) (x : Transfer)
    → IsReading (x.stream)
    → x.registered ≡ true
    → x.stream.empty_waiter ≡ none
    → x.stream.replay ≡ []
    → is_empty x.stream.buffer ≡ true
    → sendfile u try_native at_once copy a x ≡ direct copy a x
sendfile-direct u copy a x reads known free stored b =
    sendfile_lem u x reads known free stored copy a b

-- A wait that is cut off.
abbrev pub cut_off : Exc → Method Stream (Unit {0})
cut_off e s = (err e, s)

-- Where the wait for the buffer to drain is cancelled, `sendfile` on a reading transport raises that
-- `CancelledError`, but the transport stays paused and out of the loop's `_transports`, and its waiter
-- stays set, so that from then on every `write` raises a `RuntimeError`.
pub sendfile_stays_paused :
    (u : User) (copy : Method Transfer ℕ) (a : SendfileArgs) (x : Transfer) (payload : Bytes)
    (answer : Result ℕ)
    → IsReading (x.stream)
    → x.registered ≡ true
    → x.stream.empty_waiter ≡ none
    → let (r, t) = sendfile u try_native (cut_off cancelled_error) copy a x in
      (r ≡ err cancelled_error)
      × (t.registered ≡ false)
      × (t.stream.paused ≡ true)
      × (write u (bytes_like payload) answer t.stream ≡ (err runtime_error, t.stream))
unfolding sendfile native_failed sendfile_native prepare unregister Core.is_reading
    Core.pause_reading make_empty_waiter Core.remove_reader write
sendfile_stays_paused u copy a x payload answer reads known free = ground (arith, reads)
