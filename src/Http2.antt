-- ===== src/Http2.antt =====
-- HTTP/2 messages (backend/brup/http2.py): the editable text form and the translation to and from
-- HTTP/1.1.
pub mod Fields
pub mod Text
pub mod Translate
mod Tests
