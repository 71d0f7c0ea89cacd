-- ===== src/Transport/Datagram/Size.antt =====
-- The buffer of a datagram transport and the size that is kept of it.
use tokioop.Prelude.{ℕ, ◌+◌, ◌<◌, ◌≡◌, true, false, Option, List, [], ◌∷◌, ◌++◌, arith, is_empty}
use tokioop.Python.{Exc, would_block, Result, ok, err}
use tokioop.Transport.Core
use tokioop.Transport.Datagram.{
  Packet, Datagram, DatagramUser, size_of, on_base, get_write_buffer_size,
}

abbrev pub sizes : List Packet → ℕ
sizes [] = 0
sizes (p ∷ ps) = size_of p + sizes ps

-- The datagrams that the kernel took and those that wait, in the order of their `sendto`s.
abbrev pub packets : Datagram → List Packet
packets s = s.sent ++ s.buffer

abbrev pub IsSized : Datagram → Type 0
IsSized s = s.buffer_size ≡ sizes s.buffer

-- The kernel takes a datagram or would block.
abbrev pub Plain : Result (Unit {0}) → Type 0
Plain (ok _) = Unit {0}
Plain (err e) = would_block e ≡ true

-- User code that leaves the transport alone.
pub record IsIdle (u : DatagramUser) : Type 0 where
  pub pauses : (s : Datagram) → u.maybe_pause_protocol s ≡ (ok tt, s)
  pub resumes : (s : Datagram) → u.maybe_resume_protocol s ≡ (ok tt, s)
  pub loses : (e : Option Exc) (s : Datagram) → u.connection_lost e s ≡ (ok tt, s)

pub sizes-append : (ps qs : List Packet) → sizes (ps ++ qs) ≡ sizes ps + sizes qs
sizes-append [] qs = omega arith
sizes-append (p ∷ ps) qs = omega (arith, sizes-append ps qs)

-- `abort` of a connected datagram transport that has datagrams in its buffer, of the size that it
-- keeps, throws them away but keeps the size: `get_write_buffer_size` then tells of bytes that are
-- not there.
abort_keeps_size :
    (s : Datagram)
    → s.conn_lost ≡ 0
    → s.loop ≡ true
    → s.loop_closed ≡ false
    → is_empty s.buffer ≡ false
    → IsSized s
    → let t = (on_base Core.abort s).1 in (t.buffer ≡ []) × (0 < get_write_buffer_size t)
unfolding Core.abort Core.force_close Core.remove_writer Core.remove_reader Core.call_soon
    get_write_buffer_size
abort_keeps_size s c l o e sized = ground arith
