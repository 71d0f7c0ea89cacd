-- ===== src/Lib.antt =====
-- tokioop: an asyncio event loop whose scheduler is a Rust extension and whose transports, socket
-- coroutines and servers are Python. This library models the Python part.
--
-- The parts, their files and the code they model (paths from the repository's root):
--   Python      the statements of Python that the code uses: exceptions, `try`, `finally`. A method
--               is a function of the object's state to a result and the new state, so what was
--               written before a raise stays written.
--   Transport   python/tokioop/transports.py.
--     Core      `_SelectorTransport`: `pause_reading`, `_register_reader`, `close`, `_force_close`,
--               `abort`, `_fatal_error`. The loop's side of a transport (its reader, its writer, the
--               callbacks that it scheduled) is part of the state.
--     Stream    the state of `_SelectorSocketTransport`, the calls of the protocol, and
--               `_call_connection_lost`.
--     Write     `write`, `writelines`, `_write_sendmsg`, `_write_send`, `write_eof`, the waiter of
--               sendfile. Write/Accounting, Wrote, Flush and Drain are about what becomes of bytes,
--               Write/Stuck where they come to nothing.
--     Read      `_drain_stream`, `_drain_error`, `_read_ready` and its two callbacks,
--               `resume_reading`, `_flush_replay`, `set_protocol`. Read/Order and Read/Replay are
--               about the order of deliveries, Read/Mode about the switch of the read mode that
--               `set_protocol` and `start_tls` make.
--     Datagram  `_SelectorDatagramTransport`: `sendto` (Datagram/Enqueue), `_sendto_ready`
--               (Datagram/Order), the size of the buffer (Datagram/Size), the deliveries, and
--               `resume_reading` (Datagram/Resume). Datagram/Fifo has an abstract mailbox, and the
--               transport under all calls and events; its child modules relate the two.
--     Life      a stream transport from `__init__` on, under every call of a user, every event of the
--               loop and every callback that the loop runs, in any order. Life/Invariant is what holds
--               all the time; Life/Base, Write, Flush, Read and Ready show that each method keeps it,
--               the read side for any statement that Life/Stable names; Life/Teardown is about the
--               end of the connection. Life/Sending is about the bytes given to the transport: its
--               child modules take the errors (Fails), `_write_sendmsg` (Flush), `write` (Grows,
--               Writes), `writelines` (Lines), one event (Steps) and all events (Runs).
--     Sendfile  `sendfile`, `_sendfile_native`, `sock_sendfile` and their checks, of
--               python/tokioop/loop.py, on a stream transport. Sendfile/Fallback is its
--               `_sendfile_fallback`, with the one `bytearray` that the chunks in the transport's
--               buffer are views of; its child modules take a kernel that keeps up (Steps, Sends)
--               and one that does not (Views, Overwrites).
--     Tls       `start_tls` of python/tokioop/loop.py, on a stream transport.
--   Sock        the `sock_*` coroutines of python/tokioop/loop.py: Sock.antt and Sock/Life for those
--               that make one call, Sock/Send for `sock_sendall`, Sock/Sendfile for
--               `_sock_sendfile_fallback`.
--   Server      `create_server`'s sockets (Bind), `create_server` as a whole (Create), and
--               `_accept_connection` (Accept), of the same file.
--   Client      `_connect_sock` and the attempts of `create_connection`, of the same file: one attempt
--               in Client/Once, their sequence in Client/NoLeak, what is raised in Client/Report.
--   Endpoint    what makes sockets and gives them to transports, of the same file: Endpoint.antt has
--               `_ensure_fd_no_transport`, `_create_connection_transport`, `_ensure_resolved` and the
--               removal of stale socket files; Endpoint/Connect has `create_connection` as a whole (on
--               the attempts of Client), `connect_accepted_socket` and `_accept_connection2`;
--               Endpoint/Datagram `create_datagram_endpoint`; Endpoint/Unix `create_unix_connection`
--               and `create_unix_server`.
--   Executor    `run_in_executor`, the default executor and its shutdown, `shutdown_asyncgens`, of the
--               same file, and the part of `close` in src/event_loop.rs that touches the executor.
--   Signals     `add_signal_handler`, `remove_signal_handler` and `_check_callback`, of the same file.
--   Policy      python/tokioop/policy.py and `install` of python/tokioop/__init__.py.
--
-- Transports call the user's protocol, and the loop calls transports and coroutines when the kernel
-- says that a descriptor is ready. User code is a parameter, a record of methods that may change the
-- transport in any way; theorems name what they ask of it. The kernel's answers, the resolver's
-- addresses and the reads of a file are arguments. The order of events is a list of such answers.
--
-- Fuel: `flush_replay` may run user code that flushes again, so it has fuel; more fuel than stored
-- deliveries is enough for protocols that do not store more. `copy_loop` has more fuel than bytes to
-- send, in Sock/Sendfile and in Sendfile/Fallback, since each round but the last sends one or more. The
-- other loops are bounded in the code: 16 reads for one event, `backlog + 1` calls of `accept`.
--
-- Not modelled: the Rust scheduler, which is not Python; the SSL protocol, which is the standard
-- library's, with `_make_ssl_transport`, which is a parameter where connections are made; happy eyeballs,
-- which run in the standard library; name resolution itself; logging and `repr`. `sendfile` takes the copy that follows
-- its native attempt as a parameter; Sendfile/Fallback is that copy.
pub mod Prelude
pub mod Python
pub mod Transport
pub mod Sock
pub mod Server
pub mod Client
pub mod Endpoint
pub mod Signals
pub mod Policy
pub mod Executor
