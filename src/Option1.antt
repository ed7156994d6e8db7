-- ===== src/Option1.antt =====
-- src/option1_file_binding.rs and src/ristretto_elligator_codec.rs: the second file binding, on a
-- codec that a library outside the repository implements.
pub mod Selectors
pub mod Blocks
pub mod Batch
pub mod File
pub mod Audit
