-- ===== src/HttpMessage.antt =====
-- HTTP/1.x messages (backend/brup/http_message.py): headers, parsing and serialising, authorities,
-- the project's header rules, and the readers of a byte stream. The children hold the parts.
pub mod Headers
pub mod Message
pub mod Parse
pub mod Read
pub mod Authority
pub mod Rules
mod Tests
