-- ===== src/Server.antt =====
-- The crate parda-server: the relay (server/src).
pub mod Store
pub mod Routes
