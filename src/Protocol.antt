-- ===== src/Protocol.antt =====
-- The crate parda-protocol (protocol/src).
pub mod Error
pub mod Envelope
pub mod ClockGuard
pub mod SelfDestruct
pub mod Mixnet
pub mod Trust
pub mod DeadDrop
pub mod Transport
pub mod Store
pub mod Session
pub mod Identity
pub mod SealedSender
