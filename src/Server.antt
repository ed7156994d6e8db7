-- ===== src/Server.antt =====
-- src/server.rs: nullifiers, the idempotency cache, nonces and the two handlers of the service.
pub mod Store
pub mod Nullifiers
pub mod Tree
pub mod Bloom
pub mod Nonces
pub mod Handlers
