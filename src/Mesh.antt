-- ===== src/Mesh.antt =====
-- The crate parda-mesh (mesh/src).
pub mod Error
pub mod Bundle
pub mod Relay
pub mod Transport
pub mod Hybrid
pub mod Radio
pub mod Node
pub mod Deadline
pub mod Delivery
