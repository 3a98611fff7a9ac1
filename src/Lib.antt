-- ===== src/Lib.antt =====
-- tgwsproxy, a proxy for Telegram's MTProto on routers (`src/*.rs`).
--
-- A client connects over plain TCP or inside a fake TLS session (`src/fake_tls.rs`) and sends a
-- 64-byte handshake (`src/crypto.rs`), from which the proxy takes the transport, the data centre and
-- the keys. The proxy makes a relay handshake of its own and carries the stream, deciphered and
-- enciphered again (`src/proxy.rs`), over a route that `src/upstream.rs` chooses: WebSocket frames
-- (`src/websocket.rs`), plain TCP, or HTTP/2 requests (`src/cf_h2.rs`), for which it cuts the stream
-- into packets (`src/framing.rs`). `src/config.rs` has the options, `src/stats.rs` the counters.
--
-- Files and the code they model:
--   Base        lists, tests, byte orders, signed integers, maps, texts, results; the interfaces
--               `Polls` and `Wires` to tokio's readers and writers, with the laws the code relies on
--   Config      src/config.rs: `hex`, `Config::secret_bytes`, `valid_domain`, `Config::h2_enabled`,
--               `Config::validate`, `Config::link`, and the lists of domains of `Config::from_value`
--   Crypto      src/crypto.rs: `parse_client_handshake`, `generate_relay_handshake`,
--               `build_context`; `Primitives` is AES-CTR and SHA-256
--   Framing     src/framing.rs: `header_len`, `packet_length`
--   FakeTls     src/fake_tls.rs: `Hello` is `authenticate` and `build_server_hello`; `Reader` and
--               `Writer` are the poll functions of `FakeTlsStream`
--   WebSocket   src/websocket.rs: `Writer` is `WsWriter`, `Reader` is `WsReader`, `Handshake` is
--               `read_http_headers`, `validate_upgrade`, `status` and `is_redirect`
--   H2          src/cf_h2.rs: `Budget` is `Budget`, `BudgetPermit`, `ReplyCharge` and the permits of
--               a request; `Packets` is `read_packet`, `strip_padded_body` and
--               `write_encrypted_reply`; `Channel` is `ChannelInner`, in `State`, `History`,
--               `Requests` and `Replays`; `Lanes` is the state of `H2Lane`, how its generations of
--               connections are counted, marked, given up and made; `Posts` is `post` from the
--               response on, `charge_reply` and `replay_id`
--   Proxy       src/proxy.rs: `Admission` is `normalize_dc` and the replay cache of `initial`;
--               `Bridges` is `copy_crypto`, `copy_plain` and `download_ws`, `Uploads` is `upload_ws`
--   Upstream    src/upstream.rs: `Routes` has the tables and waiting times, `Attempts` is
--               `TcpAttempt` and `tcp_fallback`, `Pools` is one bucket of prepared sockets,
--               `Connect` is `connect_inner`, with the outcomes of the attempts as arguments,
--               `Direct` is `direct_route`, `Domains` is `domains_for`, `cf_route`, `h2_route` and
--               `worker`, and `Dispatch` has `connect_inner` over these
--   Stats       src/stats.rs: the counters and the methods of `Stats`; with the listener's slots in
--               `Proxy::start` of src/proxy.rs
--   Memory      streams in memory and a toy cipher, for the runs
--
-- State is passed explicitly. What the code does under one lock is one function, and the orders in
-- which tasks call them are the sequences of the step relations in `H2/Budget/Ledger`,
-- `H2/Channel/Reached`, `H2/Lanes/Reached`, `Upstream/Exclusion`, `Upstream/Capacity` and
-- `Stats/Connections`. Where a function waits in the middle, as `connect` of a lane and the routes of
-- `Upstream` do, what other tasks do to the state until it goes on is a function that comes with the
-- outcome. Time is a number of milliseconds and an argument, as are random bytes. An error keeps its
-- `ErrorKind`, and the status of an `HttpError`, and loses its message. Bytes are numbers below 256,
-- `u16`, `u32` and `u64` are written with their remainders, and `usize_max` is the largest `usize` of
-- the target.
--
-- Parameters: AES-CTR, SHA-256, HMAC, SHA-1, base64 and `from_utf8`; the parser of IP addresses; the
-- crate rand's `shuffle`; the streams, dials and, of the crate h2, the headers and DATA frames of a
-- response and the outcomes of setting up a connection.
--
-- Bounds: the rounds of the poll functions, 32 for reading and 64 for draining, are the source's
-- own. `WsReader::chunk` and the loops of the bridges have a round for each byte that is still to
-- come and one more, and a round that goes on takes a byte at least. The loop that cuts a channel's
-- history has a round for each entry, and each removes one; `chunks` has a round for each byte, and
-- each chunk takes one at least; the block of headers is read along the bytes that come;
-- the relay handshake draws from a list of random blocks, and the answer `none` says that all of them
-- were reserved. A decimal number of a data centre has five digits at most, since it is an `i16`.
--
-- Not modelled: tokio's tasks, sockets and timers, TLS and HTTP/2 themselves. Of src/proxy.rs the
-- order of a connection in `serve`, `initial` and `consume_proxy`, and the `select!` of a bridge with
-- its idle deadline; of src/cf_h2.rs `CfH2Pool`, the waiting loops of `acquire`, `reserve` and
-- `recover`, and the task that carries a request; of src/upstream.rs `Upstream::new`, the loop of
-- `maintain` with its dials, and the reading and refreshing of the list of domains; of src/config.rs
-- JSON and the file. The updater (src/update.rs), the web interface (src/web.rs) and the start of the
-- program (src/main.rs) are input, output and processes for the most part.
pub mod Base
pub mod Config
pub mod Crypto
pub mod FakeTls
pub mod Framing
pub mod H2
pub mod Memory
pub mod Proxy
pub mod Stats
pub mod Upstream
pub mod WebSocket
