-- ===== src/Server/Nonces.antt =====
-- src/server.rs: NonceManager, in the standard mode (one Redis key for each nonce) and in the
-- high-privacy mode (a Merkle proof and a Bloom filter).
pub mod Reuse
use ebutv.Prelude.{
  ℕ, zero, suc, ◌+◌, Bool, true, false, not, Option, none, some, List, [], ◌∷◌, ◌++◌, ◌==◌,
  if◌then◌else◌, length, bytes_eq,
}
use ebutv.Prelude.Results.{Result, ok, err}
use ebutv.Prelude.Text.{codes}
use ebutv.Server.Store.{Bytes, ActError, protocol_error, Step, then, ◌>>=◌, ◌>>◌, return, Redis}
use ebutv.Server.Nullifiers.{ServerConfig}
use ebutv.Server.Tree.{MerkleProof, MerkleTree, build, verify}
use ebutv.Server.Bloom.{BloomFilter, insert, contains}

-- What changes while the server runs: the database, and the nonce manager's own fields.
pub record ServerState (Store : Type 0) : Type 0 where
  pub database : Store
  pub bloom_filter : BloomFilter
  pub current_root : Option Bytes
  pub current_tree : Option MerkleTree

-- What comes from the libraries: Redis, the hashes, the printing of bytes as hexadecimal digits.
pub record Host : Type 1 where
  pub redis : Redis
  pub sha256 : Bytes → Bytes
  pub hex : Bytes → Bytes
  pub default_hash : Bytes → ℕ → ℕ

-- A step on the database, as a step of the server.
abbrev pub with_database :
    {S A : Type 0} → ServerState S → Result ActError A × S → Result ActError A × ServerState S
with_database s (r, database) = (
  r,
  record {
    database = database;
    bloom_filter = s.bloom_filter;
    current_root = s.current_root;
    current_tree = s.current_tree;
  },
)

abbrev pub on_database : {S A : Type 0} → Step S A → Step (ServerState S) A
on_database m s = with_database s (m s.database)

module _ (host : Host) (config : ServerConfig) where
  open host use {redis, sha256, hex, default_hash}

  abbrev pub State : Type 0
  State = ServerState redis.Store

  unfoldable pub nonce_key : Bytes → Bytes
  nonce_key nonce = codes "act:nonce:" ++ hex nonce

  -- The script: `if exists == 1 then return 0`, else SETEX and `return 1`.
  unfoldable pub consume_script : Bytes → ℕ → Step redis.Store ℕ
  consume_script key ttl = redis.exists key >>= λ found.
      if found then return 0 else (redis.set_ex key (codes "1") ttl >> return 1)

  unfoldable pub verify_and_consume : Bytes → Step State Bool
  verify_and_consume nonce =
      on_database
        (consume_script (nonce_key nonce) config.nonce_ttl_secs >>= λ result. return (result == 1))

  -- `publish_high_privacy_batch`, on the nonces that it draws.
  unfoldable pub publish_high_privacy_batch : List Bytes → Step State (Bytes × ℕ)
  publish_high_privacy_batch nonces s =
      let tree = build sha256 nonces in
      (
        ok (tree.root, length nonces),
        record {
          database = s.database;
          bloom_filter = s.bloom_filter;
          current_root = some tree.root;
          current_tree = some tree;
        },
      )

  unfoldable pub get_current_root : Step State (Option Bytes)
  get_current_root s = (ok s.current_root, s)

  -- The first part of `verify_merkle_nonce`, under the read lock. The root is the caller's.
  unfoldable pub check_merkle_nonce : Bytes → MerkleProof → Bytes → State → Bool
  check_merkle_nonce nonce merkle_proof expected_root s =
      if not (verify sha256 merkle_proof expected_root)
      then false
      else (if not (bytes_eq merkle_proof.leaf nonce)
          then false
          else (if contains default_hash s.bloom_filter nonce then false else true))

  -- The second part, after the lock is dropped.
  unfoldable pub mark_nonce : Bytes → State → State
  mark_nonce nonce s = record {
    database = s.database;
    bloom_filter = insert default_hash s.bloom_filter nonce;
    current_root = s.current_root;
    current_tree = s.current_tree;
  }

  -- The two parts with no other call between them.
  unfoldable pub verify_merkle_nonce : Bytes → MerkleProof → Bytes → Step State Bool
  verify_merkle_nonce nonce merkle_proof expected_root s =
      if check_merkle_nonce nonce merkle_proof expected_root s
      then (ok true, mark_nonce nonce s)
      else (ok false, s)

  unfoldable pub verify_merkle_nonce_bytes : Bytes → Bytes → Bytes → Step State Bool
  verify_merkle_nonce_bytes nonce proof_bytes root s =
      (err (protocol_error (codes "Binary Merkle proof decoding not available")), s)
