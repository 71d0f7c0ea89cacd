-- ===== src/Server.antt =====
-- TCP servers, python/tokioop/loop.py: the sockets that `create_server` opens (`Bind`), all of
-- `create_server` (`Create`), and the callback that accepts its connections (`Accept`).
pub mod Bind
pub mod Create
pub mod Accept
mod Tests
