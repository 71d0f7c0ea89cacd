-- ===== src/Transport/Tls/Tests.antt =====
-- `start_tls` on a concrete transport.
use tokioop.Prelude.{refl, inr, true, false, some, [], ◌∷◌}
use tokioop.Python.{cancelled_error, ok, Method, raise}
use tokioop.Transport.Core.{Protocol}
use tokioop.Transport.Core
use tokioop.Transport.Read.{set_protocol}
use tokioop.Transport.Life.{new_stream}
use tokioop.Transport.Tls.{Tls, TlsArgs, start_tls}
use tokioop.Transport.Tls.Handover.{IsActive}
use tokioop.Transport.Tls.Ended.{Ended, start_tls-Ended}

abbrev plain : Protocol
plain = record { id = 1; buffered = false }

abbrev ssl_protocol : Protocol
ssl_protocol = record { id = 2; buffered = true }

-- A server's transport, whose reader has buffered two bytes.
abbrev upgrading : Tls
upgrading = record {
  stream = new_stream true false plain;
  reader_buffer = some (7 ∷ 8 ∷ []);
  incoming = [];
  handles = [];
}

abbrev tls_args : TlsArgs
tls_args = record { has_ssl = true; is_context = true; compatible = true; server_side = true }

upgrading-IsActive : IsActive upgrading.stream
unfolding new_stream set_protocol Core.call_soon
upgrading-IsActive = record {
  has_loop = refl;
  loop_open = refl;
  not_closing = refl;
  not_paused = refl;
}

-- The handshake is cancelled before the callbacks have run.
abbrev cut_off : Method Tls (Unit {0})
cut_off = raise cancelled_error

start_tls-Ended_example :
    Ended
      (ok tt)
      tls_args
      cut_off
      ssl_protocol
      upgrading
      (start_tls (ok tt) cut_off tls_args ssl_protocol upgrading)
start_tls-Ended_example =
    start_tls-Ended (ok tt) cut_off tls_args ssl_protocol upgrading upgrading-IsActive refl
      (λ t h. inr (h.has_loop, h.loop_open))
