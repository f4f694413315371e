-- ===== src/Proxy/Laws.antt =====
-- What crosses internal/proxy/http.go, and in which direction.
pub mod Headers
pub mod Gated
pub mod Accounts
pub mod Documents
