-- ===== src/Transport.antt =====
-- The socket transports, python/tokioop/transports.py: the base class in `Core`, the stream
-- transport in `Stream` (its state), `Write`, `Read` (its methods) and `Life` (all of it in any
-- order), the datagram transport in `Datagram`; and `sendfile` and `start_tls` of python/tokioop/loop.py on
-- a stream transport in `Sendfile` and `Tls`.
pub mod Core
pub mod Stream
pub mod Write
pub mod Read
pub mod Datagram
pub mod Life
pub mod Sendfile
pub mod Tls
mod Tests
