-- ===== src/Http.antt =====
-- 11_Network/select/http_server.c: the HTTP server.
pub mod Token
pub mod Send
pub mod Header
pub mod Request
pub mod Main
mod Tests
