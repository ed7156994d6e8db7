-- ===== src/Lib.antt =====
-- EBUT: anonymous credit tokens with file bindings.
--
-- A client mints a master token (src/master_mint.rs), refreshes it for each epoch and spends from it at
-- a server (src/server.rs), which keeps nullifiers and nonces in Redis. Files are stored as ElGamal
-- blocks under a Merkle root, and a prover shows possession of challenged blocks
-- (src/file_binding.rs, and with another codec src/option1_file_binding.rs).
--
-- Files of this library and the code they model:
--   Merkle, Challenge: build_merkle_tree, merkle_path_from_tree, verify_merkle_path and
--     derive_challenge_indices, which both file bindings have, with their tags as arguments.
--   FileBinding/PointCodec: encode_chunk_to_point and decode_point_to_chunk.
--   FileBinding/Private: the blocks and HiddenPlaintextBatchProof. FileBinding/File: commitment,
--     proof and verification of a file. FileBinding/Decryption: decrypt_file_from_ciphertexts.
--   FileBinding/Accountable: the blocks that pack several points, their proof, audit and decryption.
--   Option1/Selectors (src/ristretto_elligator_codec.rs), Option1/Blocks, Option1/Batch,
--     Option1/File, Option1/Audit: the same for src/option1_file_binding.rs.
--   Server/Store, Server/Nullifiers, Server/Tree, Server/Bloom, Server/Nonces, Server/Handlers:
--     src/server.rs. Server/Store also has ActError of src/error.rs.
--   Msm: src/msm.rs. Mint: src/master_mint.rs with commit of src/commitments.rs.
--   Limbs: the 256-bit arithmetic of src/batched_eq.rs and src/hash.rs. Hash: src/hash.rs.
--   Setup: src/setup.rs with rand_nonzero of src/types.rs. Bbs: the signature of src/bbs_proof.rs and
--     what a token signs. BatchedEq: src/batched_eq.rs.
--   Spend: src/spend.rs. Refresh: src/epoch_refresh.rs. Each has the prover (Prove), the verifier with
--     the issue of the next token (Verify), the values that an honest prover makes (Honest), the
--     equations between them (Terms, Combined) and the whole run (Complete, Accepted).
--   V3: src/v3_zkp. V3/Gap: gap.rs. V3/Equality: batched_eq.rs. V3/Prover: prover.rs.
--   SameX: src/same_x_bridge.rs.
--   Revocation: src/revocation.rs; Revocation/Prove has its proofs for refresh and spend.
--   Curve: what the code uses of its curve libraries, as an interface, with a decision of equations
--     between linear combinations (Curve/Combination). Bls, Dalek: the two libraries with their
--     scalars, hashes and range proofs, over Curve. Prelude: shared helpers.
--   Samples: the theorems applied to concrete inputs.
--
-- State and errors: the server's state is the database and the nonce manager's fields; a handler is a
-- step from a state to a result and the state after it. A panic is `none`, an error result is `err`.
-- What the code draws from a random generator is an argument. Integers of the source are natural
-- numbers, and the counters that wrap do so in the model.
--
-- Parameters, for code outside the repository: SHA-512, SHA-256 and the default hasher as functions
-- on bytes, the groups and their point codecs (Curve), multi_exp, the external Elligator codec, and
-- Redis with the documented behaviour of its commands, the time to live of a key among it. Redis is
-- written to by this program only and evicts nothing, and no time passes inside a handler: the
-- handlers are served one after another, with the time in between (Server/Handlers/Events). The two
-- parts of verify_merkle_nonce are apart, since other calls run between them. Floating-point
-- policies (how many blocks to sample, the size of a Bloom filter) are arguments.
--
-- Fuel: a tree of n leaves has at most n levels, so its loop gets n; a list is cut into chunks in as
-- many rounds as it has elements; the doubling loop of a 32-bit number gets 32. The sampling loop of
-- the source has no bound: its fuel is an argument, and a theorem says when it is enough.
-- The binary search of the blacklist halves its range, so the length of the list is enough.
--
-- A number of src/same_x_bridge.rs is below 2 ^ 385, so 64 digits are enough for it.
--
-- Bounds: the reduction of 32 bytes subtracts the order at most twice, so its loop gets three rounds.
-- A response over the integers is below 2 ^ 241 in src/batched_eq.rs and below 2 ^ 433 in
-- src/v3_zkp/batched_eq.rs, where the draws have the lengths of the code.
--
-- The scalar field's order is not assumed to be prime: a division is a parameter with the law that
-- the code relies on. Random draws are records of arguments. Range proofs, the pairing and the codec
-- of G2 are interfaces with the laws of their documentation; what holds against a dishonest prover
-- by a cryptographic assumption is not modelled.
--
-- Not modelled: the BBS+ presentation (BbsProof of src/bbs_proof.rs) and src/upload.rs; the plain
-- binding of src/file_binding.rs with its equality proof; serialization, benchmarks and the vendored
-- C library.
pub mod Prelude
pub mod Curve
pub mod Merkle
pub mod Challenge
pub mod FileBinding
pub mod Msm
pub mod Option1
pub mod Mint
pub mod Server
pub mod Limbs
pub mod Bls
pub mod Hash
pub mod Dalek
pub mod BatchedEq
pub mod Setup
pub mod Bbs
pub mod Spend
pub mod Refresh
pub mod SameX
pub mod V3
pub mod Revocation
pub mod Samples
