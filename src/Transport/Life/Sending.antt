-- ===== src/Transport/Life/Sending.antt =====
-- What a stream transport has been given to send, and what of it is sent: the steps that leave both
-- alone.
pub mod Fails
pub mod Flush
pub mod Grows
pub mod Writes
pub mod Lines
pub mod Steps
pub mod Runs
use tokioop.Prelude.{
  ℕ, suc, ◌≡◌, refl, sym, ap, ◌∙◌, subst, arith, true, false, none, some, List, [], ◌∷◌, ◌++◌, ◌⊎◌,
  inl, inr, Option, concat, Bool,
}
use tokioop.Python.{Bytes, Exc, Result, ok, err, Method}
use tokioop.Transport.Core
use tokioop.Transport.Core.{Callback, Protocol}
use tokioop.Transport.Stream.{
  Stream, User, Call, Delivery, Waiter, WriteReady, write_sendmsg, write_send, base, on_protocol,
  shutdown, settle, release, call_connection_lost,
}
use tokioop.Transport.Write.{Kernel, close, write_eof, make_empty_waiter, reset_empty_waiter}
use tokioop.Transport.Write.Accounting.{outgoing, IsPrefix}
use tokioop.Transport.Read.{stash, unpause, watch_again, set_protocol, switch_mode}
use tokioop.Transport.Life.Invariant.{IsSound}
use tokioop.Transport.Life.Base.{fatal_error_cases, noted, noted-IsSound}
use tokioop.Transport.Life.Write.{IsBystander}
use tokioop.Transport.Life.Stable.{IsStable, IsSound-IsStable}

-- The platform has `sendmsg`, so that `_write_send` is not used.
abbrev pub uses_send : Option WriteReady → Bool
uses_send (some write_send) = true
uses_send (some write_sendmsg) = false
uses_send none = false

-- `given` is what the user wrote. What is sent is the front of it; and on a connection that is not
-- lost what is sent and what waits make up all of it.
pub record IsFaithful (given : Bytes) (s : Stream) : Type 0 where
  pub sound : IsSound s
  pub sent_prefix : IsPrefix s.sent given
  pub whole : s.sock ≡ true → s.conn_lost ≡ 0 → outgoing s ≡ given
  pub by_sendmsg : uses_send s.write_ready ≡ false

-- From `s` to `t` nothing is sent, and what waits stays while the connection is there.
pub record Spares (s t : Stream) : Type 0 where
  pub same_sent : t.sent ≡ s.sent
  pub open_before : t.sock ≡ true → s.sock ≡ true
  pub same_callback : uses_send s.write_ready ≡ false → uses_send t.write_ready ≡ false
  pub connected_before : t.sock ≡ true → t.conn_lost ≡ 0 → s.conn_lost ≡ 0
  pub same_buffer : t.sock ≡ true → t.conn_lost ≡ 0 → t.buffer ≡ s.buffer

pub Spares-IsFaithful :
    (given : Bytes) (s t : Stream)
    → Spares s t
    → IsSound t
    → IsFaithful given s
    → IsFaithful given t
Spares-IsFaithful given s t p v f = record {
  sound = v;
  sent_prefix = rw p.same_sent (f.sent_prefix);
  whole = λ o c.
      ap (λ x. x ++ concat t.buffer) p.same_sent
      ∙ ap (λ b. s.sent ++ concat b) (p.same_buffer o c)
      ∙ f.whole (p.open_before o) (p.connected_before o c);
  by_sendmsg = p.same_callback f.by_sendmsg;
}

Spares-refl : (s : Stream) → Spares s s
Spares-refl s = ground arith

Spares-trans : (s t v : Stream) → Spares s t → Spares t v → Spares s v
Spares-trans s t v p q = ground (arith, p, q)

-- A method that spares what is to be sent.
abbrev pub Lets : {A : Type 0} → Method Stream A → Type 0
Lets m = (s : Stream) → Spares s (m s).1

remove_reader-Lets : Lets (base Core.remove_reader)
unfolding Core.remove_reader
remove_reader-Lets s = ground arith

pub remove_writer-Lets : Lets (base Core.remove_writer)
unfolding Core.remove_writer
remove_writer-Lets s = ground arith

pub add_writer-Lets : Lets (base Core.add_writer)
unfolding Core.add_writer
add_writer-Lets s = ground arith

pub register_reader-Lets : Lets (base Core.register_reader)
unfolding Core.register_reader Core.is_reading Core.add_reader
register_reader-Lets s = ground arith

pub pause_reading-Lets : Lets (base Core.pause_reading)
unfolding Core.pause_reading Core.is_reading Core.remove_reader
pause_reading-Lets s = ground arith

pub set_protocol-Lets : (p : Protocol) → Lets (set_protocol p)
unfolding set_protocol switch_mode Core.remove_reader Core.register_reader Core.is_reading
    Core.add_reader
set_protocol-Lets p s = ground arith

watch_again-Lets : Lets (base watch_again)
unfolding watch_again Core.register_reader Core.is_reading Core.add_reader
watch_again-Lets s = ground arith

stash-Lets : (d : Delivery) → Lets (stash d)
unfolding stash
stash-Lets d s = ground arith

unpause-Lets : (s : Stream) → Spares s (unpause s)
unfolding unpause
unpause-Lets s = ground arith

stored-Lets :
    (ds : List Delivery) (s : Stream)
    → Spares s (record s { core = record (s.core) { replay = ds } })
stored-Lets ds s = ground arith

pub told-Lets :
    {A : Type 0} (call : Call) (m : Method Stream A) (s : Stream)
    → ((t : Stream) → (m t).1 ≡ t)
    → Spares s (on_protocol call m s).1
told-Lets call m s same = ground (arith, same (record s { calls = s.calls ++ call ∷ [] }))

pub close-Lets : Lets close
unfolding close Core.close Core.remove_reader Core.remove_writer Core.call_soon
close-Lets s = ground arith

-- Where the connection is lost, nothing has to be kept of the buffer.
pub force_close-Lets :
    (e : Option Exc) (s : Stream) → IsSound s → Spares s (base (Core.force_close e) s).1
unfolding Core.force_close Core.remove_reader Core.remove_writer Core.call_soon
force_close-Lets e s v = ground arith

noted-Lets : (e : Exc) (s : Stream) → Spares s (noted e s)
unfolding noted
noted-Lets e s = ground arith

fatal_error-Lets : (e : Exc) (s : Stream) → IsSound s → Spares s (base (Core.fatal_error e) s).1
fatal_error-Lets e s v = elim (fatal_error_cases e s) [
  | inl same ↦ rw same (Spares-refl s)
  | inr (inl plain) ↦ rw plain (force_close-Lets (some e) s v)
  | inr (inr told) ↦ rw told (
      Spares-trans s (noted e s) (base (Core.force_close (some e)) (noted e s)).1 (noted-Lets e s)
        (force_close-Lets (some e) (noted e s) (noted-IsSound e s v)))
]

pub settle-Lets : (w : Waiter) → Lets (settle w)
unfolding settle
settle-Lets w s = ground arith

pub shutdown-Lets : (answer : Result (Unit {0})) → Lets (shutdown answer)
unfolding shutdown
shutdown-Lets answer s = ground arith

pub write_eof-Lets : (k : Kernel) → Lets (write_eof k)
unfolding write_eof shutdown
write_eof-Lets k s = ground arith

pub make_empty_waiter-Lets : Lets make_empty_waiter
unfolding make_empty_waiter
make_empty_waiter-Lets s = ground arith

pub reset_empty_waiter-Lets : Lets reset_empty_waiter
unfolding reset_empty_waiter
reset_empty_waiter-Lets s = ground arith

-- The end of the connection leaves no socket.
pub connection_lost-Lets :
    (u : User) → IsBystander u → (e : Option Exc) → Lets (call_connection_lost u e)
unfolding call_connection_lost release settle
connection_lost-Lets u b e s =
    ground (arith, b.on_lost e (record s { calls = s.calls ++ Call.connection_lost e ∷ [] }))

module _ (given : Bytes) where
  pub Lets-IsFaithful :
      {A : Type 0} (m : Method Stream A)
      → ((s : Stream) → IsSound s → IsSound (m s).1)
      → ((s : Stream) → IsSound s → Spares s (m s).1)
      → (s : Stream) → IsFaithful given s
      → IsFaithful given (m s).1
  Lets-IsFaithful m keeps lets s f =
      Spares-IsFaithful given s (m s).1 (lets s f.sound) (keeps s f.sound) f

  pub IsFaithful-IsStable : IsStable (IsFaithful given)
  IsFaithful-IsStable = record {
    sound = λ s f. f.sound;
    remove_reader =
        Lets-IsFaithful (base Core.remove_reader) IsSound-IsStable.remove_reader
          (λ s _. remove_reader-Lets s);
    stashes = λ d. Lets-IsFaithful (stash d) (IsSound-IsStable.stashes d) (λ s _. stash-Lets d s);
    closes = Lets-IsFaithful close IsSound-IsStable.closes (λ s _. close-Lets s);
    fails = λ e.
        Lets-IsFaithful (base (Core.fatal_error e)) (IsSound-IsStable.fails e) (fatal_error-Lets e);
    told = λ call m s f c l same.
        Spares-IsFaithful given s (on_protocol call m s).1 (told-Lets call m s same)
          (IsSound-IsStable.told call m s f.sound c l same) f;
    stored = λ ds s f.
        Spares-IsFaithful given s (record s { core = record (s.core) { replay = ds } })
          (stored-Lets ds s) (IsSound-IsStable.stored ds s f.sound) f;
    unpauses = λ s f.
        Spares-IsFaithful given s (unpause s) (unpause-Lets s) (IsSound-IsStable.unpauses s f.sound)
          f;
    watches =
        Lets-IsFaithful (base watch_again) IsSound-IsStable.watches (λ s _. watch_again-Lets s);
  }
