-- ===== src/Lib.antt =====
-- BRUP, an intercepting HTTP proxy (backend/brup). The proxy reads HTTP/1.x and HTTP/2 messages, lets an
-- operator hold and edit them, sends them on and logs them; Repeater and Intruder send requests of
-- their own.
--
-- Files and the code they model:
--   Bytes          byte strings and the `bytes` and `str` methods that the program uses; Bytes/Int has
--                  `int(text)` and `str(number)`, with the interpreter's limit on decimal digits
--   Result         Python exceptions as values, without their message texts
--   HttpMessage    backend/brup/http_message.py: Headers (lookups and updates), Message (`Request`,
--                  `Response`, `_serialise`), Parse (`parse_request`, `parse_response`), Read (the stream
--                  readers and `normalise_framing`), Authority (`split_authority`, `build_url`), Rules
--                  (`apply_header_rules`)
--   Http2          backend/brup/http2.py: Fields, Text (the editable form), Translate (to and from
--                  HTTP/1.1)
--   Config         backend/brup/config.py: HeaderRules (`HeaderRule`, `validate_header_rules`),
--                  Overrides (`merge_settings`, `validate_overrides`), Scope (`in_scope`,
--                  `should_intercept`)
--   Upstream       backend/brup/proxy/upstream.py: `_prepare`; Outcome (`UpstreamResult`), Send
--                  (`_open_direct`, `_open_via_proxy`, `send_request`, `send_h2_request`)
--   Vpn            backend/brup/vpn.py: Lines (methods of `str`), Profile (`detect_kind`, `_wg_sections`),
--                  Host (`_emit`, `_run` and what else acts on the machine), Tunnel (the two clients, the
--                  inbound bypass, the machine's part of `_teardown`), Interface (whether the WireGuard
--                  interface is there, as the commands tell), Manager (`connect`, `disconnect`,
--                  `killswitch_error`, `autoconnect`), Invariant, Ends (how `connect` ends), Steps (`run`, any
--                  sequence of them, and `at_start`, the start in backend/brup/main.py)
--   Server         backend/brup/proxy/server.py: Answers (`_error_response`, `_wants_close`,
--                  `_is_passthrough`), Target (`_resolve_target`), State (counters, and the trace of
--                  what is written, sent, held and logged), Exchange (`_exchange`), Http2Exchange
--                  (`_exchange_h2`), Serve (`_serve_requests`, `_handle_connect`)
--   Db             backend/brup/db.py: the tables as lists of rows, and the queries
--   Projects       backend/brup/projects.py: `ProjectManager`, and Runs, any sequence of its operations
--   Events         backend/brup/events.py: `EventHub`
--   Interceptor    backend/brup/proxy/interceptor.py: `hold` in two halves (`hold` until it waits, `leave`
--                  when it goes on), the decisions, and `run`, any sequence of what can happen between
--                  two task switches
--   Intruder       backend/brup/intruder.py: Template (`parse_positions`, `build_request`,
--                  `fix_content_length`, `url_encode_unsafe`), Jobs (`generate_jobs`, `count_jobs`),
--                  Attack (`pause`, `resume`, `stop`, the end of `_run`)
--
-- Bytes and characters are natural numbers, and a literal is the list of its codes. A function that
-- mutates a list in the source returns the new list. A `StreamReader` is the list of bytes that still
-- arrive before EOF, with the reader's buffer limit as an argument. The loops of `_read_chunked` take as
-- fuel one more than the length of the stream, and each round of them consumes a line end, so they end.
-- `int(text)` of a `str` is modelled for texts below code point 256, since authorities are decoded as
-- Latin-1, and `encode` for texts without surrogates.
--
-- The loop of `_serve_requests` takes as fuel one more than the length of the stream, and each round reads
-- a head that is not empty.
--
-- How the parts interact: the server's exchange asks Config whether a message is in scope and held, hands
-- what is held to the operator, asks the VPN manager's kill switch, and sends over Upstream; it logs into
-- the tables. An exchange is a function of its `World`: the settings it took at its start, those that
-- are read later, the operator's decisions and the origins' answers, which may differ from one exchange
-- to the next. Waiting for the operator is Interceptor's part.
--
-- Parameters: the regular-expression engine, `str.lower` on texts, the validation of settings by pydantic,
-- what commands answer to the VPN manager, what network connections answer, `urlparse`, the HTTP/2 client
-- over the h2 library, fresh identifiers, and the time.
--
-- Not modelled: sockets, TLS, the HTTP/2 connection layers, the certificate authority, the HTTP API, the
-- site map, the browser user interface, durations, and the texts of most error messages. The SQL of
-- the database is modelled by what it selects; a table is in the order of its rowid.
mod Prelude
pub mod Bytes
pub mod Result
pub mod HttpMessage
pub mod Config
pub mod Http2
pub mod Intruder
pub mod Interceptor
pub mod Events
pub mod Upstream
pub mod Vpn
pub mod Server
pub mod Db
pub mod Projects
