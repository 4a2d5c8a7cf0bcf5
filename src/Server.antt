-- ===== src/Server.antt =====
-- The proxy server (backend/brup/proxy/server.py): where a request goes, one exchange with its
-- interception, logging and kill switch, and the requests of one connection.
pub mod Answers
pub mod Target
pub mod State
pub mod Exchange
pub mod Http2Exchange
pub mod Serve
pub mod Sends
mod Tests
