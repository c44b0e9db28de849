-- ===== src/Lib.antt =====
-- MiniMask: a reverse-tunnel server, its administration API and its client. The server exposes public
-- ports and forwards their visitors over a connection that a client behind a firewall has opened.
--
-- Parts of the program, and the modules that model them (paths from the root of the repository):
-- - src/state.rs, `ClientStore`: Store. Store/Model has the data and the lookups, Store/Ops the
--   operations that change the list and its file, Store/Calls their type, and Store/Ports, Durable,
--   Restart and Tokens what is proved. Each operation returns its result, the store and the disk.
-- - src/state.rs, the other stores: Auth (`AuthStore`), Audit (`AuditLogStore`, `AuditLogFile`), Stats,
--   Broadcast (`WsBroadcaster`). Disk is the file system below them: files by their path, and a list of
--   the failures to come, so that a theorem about all disks is about all failures. Disk/Replace is the
--   write to a second file and the rename.
-- - src/config.rs: Config. src/util.rs: Util, over the record `Crates` of what other crates do, and Tls
--   (certificates, acceptor and connectors), over `Rcgen` and `Rustls`.
-- - src/tunnel/protocol.rs: Tunnel/Wire (a stream of bytes with failures to come) and Tunnel/Protocol.
-- - src/tunnel/listener.rs: Tunnel/Connection and Handshake (`handle_tunnel`), Tunnel/Listener (the
--   public listeners and `public_accept_loop`). src/tunnel/session.rs: Tunnel/Session.
--   src/tunnel/proxy.rs: Tunnel/Proxy (`copy_count`) and Tunnel/Relay (`proxy_connection`).
-- - src/server.rs: Startup (`run` up to the point at which it serves), Stats/Sampler (`stats_sampler`).
-- - src/web: Web/Routes, Requests and Values (the handlers), Cookies (src/web/auth.rs), Errors
--   (src/error.rs), Paths, Table and App (the router of src/web/mod.rs), Assets (src/web/embed.rs),
--   Socket (src/web/ws.rs).
-- - src/client.rs: Client. Attempt is the front of `run_once` up to the session, Streams the
--   session, Once the whole of `run_once`, Supervised the loop around it.
-- - src/gui.rs: Gui. Settings and their file, App the state and what changes it, Window one frame.
-- - src/main.rs: CommandLine.
-- Examples has concrete instances of all parameters and runs the theorems on them.
--
-- How they interact: State has the shared `AppState`, with the accept loops that run and the channels
-- between them and the session drivers, which the source keeps in tasks and behind `Arc`. A task is a
-- sequence of steps on that state; Tunnel/Steps and Web/Safety put the steps of all tasks and the
-- requests to the router in any order, and Startup/Safety begins them with a start of the server. A
-- step is what a task does between two points at which it waits. Client/Relayed joins the two ends of
-- a visitor's connection, and Gui/Attempts the client and the window.
--
-- Numbers: counters are 64 bits wide and wrap around, the counter of the window 32; lengths on the wire
-- are 16 bits wide. Texts are the bytes of their UTF-8 encoding. There is no fuel but in `decimal`,
-- which has 20 digits as a `u64` may have, and in `trim`, which can drop no more white space than there
-- are bytes.
--
-- Not modelled: what yamux, rustls and axum do between two calls of the program; the binding of the
-- tunnel listener, the HTTPS accept loop, the signals and the shutdown of the server (src/server.rs);
-- the console and tracing (src/main.rs); drawing, fonts and colours (src/gui.rs); the front end.
-- Parameters stand for serde_json, toml, base64, hex, hmac, argon2, jsonwebtoken, rcgen, rustls, the
-- extractors of axum, and for the parse of a socket address.
pub mod Common
pub mod Util
pub mod Disk
pub mod Config
pub mod Stats
pub mod Audit
pub mod Auth
pub mod Broadcast
pub mod Store
pub mod State
pub mod Tunnel
pub mod Web
pub mod Client
pub mod Gui
pub mod Tls
pub mod CommandLine
pub mod Startup
pub mod Examples
