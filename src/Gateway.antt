-- ===== src/Gateway.antt =====
-- gateway/src: the HTTP gateway in front of the relay server.
pub mod Limiter
pub mod Auth
pub mod Routes
