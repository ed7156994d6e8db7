-- ===== src/FileBinding.antt =====
-- src/file_binding.rs.
pub mod PointCodec
pub mod Private
pub mod File
pub mod Decryption
pub mod Accountable
