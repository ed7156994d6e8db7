-- ===== src/Server/Handlers.antt =====
-- src/server.rs: handle_refresh and handle_spend. The proof verifiers that they call, the printing of
-- a proof and the serialization of a response are an interface of the handlers.
pub mod Keys
pub mod Recorded
pub mod Cache
pub mod Events
pub mod Added
pub mod Once
pub mod Replay
use ebutv.Prelude.{ℕ, Bool, true, false, not, Option, none, some, List, [], ◌∷◌, if◌then◌else◌}
use ebutv.Prelude.Results.{Result, ok, err}
use ebutv.Prelude.Text.{codes}
use ebutv.Server.Store.{
  Bytes, ActError, protocol_error, verification_failed, Step, then, ◌>>=◌, ◌>>◌, return, fail, lift,
  fail_when,
}
use ebutv.Server.Nullifiers.{
  ServerConfig, check_epoch_nullifier, check_spend_nullifier, store, get, compute_key,
  compute_key_no_nonce,
}
use ebutv.Server.Tree.{MerkleProof}
use ebutv.Server.Nonces.{Host, State, on_database, verify_and_consume, verify_merkle_nonce}

-- A kind of proof with its response. A verification that panics is `none`. What the verifier draws
-- and the time that it reads are in `Run`.
pub record Protocol : Type 1 where
  pub Proof : Type 0
  pub Response : Type 0
  pub Run : Type 0
  pub print : Proof → Bytes
  pub serialize : Response → Option Bytes
  pub deserialize : Bytes → Option Response
  pub now : Run → Result ActError ℕ

pub record Refresh : Type 1 where
  pub protocol : Protocol
  pub n_t : protocol.Proof → Bytes
  pub verify_refresh :
      protocol.Run → protocol.Proof → ℕ → ℕ → Option (Result ActError protocol.Response)

pub record Spend : Type 1 where
  pub protocol : Protocol
  pub k_cur : protocol.Proof → Bytes
  pub k_cur_is_zero : protocol.Proof → Bool
  pub t_issue : protocol.Proof → ℕ
  pub verify_spend :
      protocol.Run → protocol.Proof → ℕ → ℕ → Bytes → Option (Result ActError protocol.Response)

-- `.await.map_err(..)??`
abbrev pub join : {A : Type 0} → Option (Result ActError A) → Result ActError A
join none = err (protocol_error (codes "Blocking task panicked"))
join (some r) = r

abbrev pub or_error : {A : Type 0} → Option A → ActError → Result ActError A
or_error none e = err e
or_error (some a) e = ok a

module _ (host : Host) (config : ServerConfig) where
  -- `if let Some(cached) = …`: the cached response, or the rest of the handler.
  abbrev pub answer :
      (p : Protocol)
      → Bytes
      → Option Bytes
      → Step (State host config) p.Response
      → Step (State host config) p.Response
  answer p message none rest = rest
  answer p message (some cached) rest =
      lift (or_error (p.deserialize cached) (protocol_error message))

  -- `serialize`, `store`, and the response.
  unfoldable pub cache_response :
      (p : Protocol) → Bytes → Bytes → p.Response → Step (State host config) p.Response
  cache_response p message idem_key response = do
    response_bytes ← lift (or_error (p.serialize response) (protocol_error message))
    on_database (store host.redis config idem_key response_bytes)
    return response

  module _ (refresh : Refresh) where
    open refresh use {protocol, n_t, verify_refresh}

    -- Steps 2 to 4.
    unfoldable pub refresh_uncached :
        Bytes → protocol.Run → protocol.Proof → Step (State host config) protocol.Response
    refresh_uncached idem_key run proof = do
      fresh ← on_database (check_epoch_nullifier host.redis config (n_t proof))
      fail_when (not fresh) (verification_failed (codes "Epoch nullifier already used"))
      now ← lift (protocol.now run)
      response ← lift (join (verify_refresh run proof config.current_epoch now))
      cache_response protocol (codes "Failed to serialize refresh response") idem_key response

    unfoldable pub handle_refresh :
        protocol.Run → protocol.Proof → Step (State host config) protocol.Response
    handle_refresh run proof = do
      let idem_key = compute_key_no_nonce host.sha256 host.hex (protocol.print proof)
      cached ← on_database (get host.redis config idem_key)
      answer protocol (codes "Failed to deserialize cached refresh response") cached
          (refresh_uncached idem_key run proof)

  -- Step 3: the nonce, by a Merkle proof when the client sends one with a root.
  unfoldable pub consume_nonce :
      Bytes → Option MerkleProof → Option Bytes → Step (State host config) (Unit {0})
  consume_nonce nonce (some proof) (some root) = do
    valid ← verify_merkle_nonce host config nonce proof root
    fail_when (not valid) (verification_failed (codes "Invalid or reused nonce"))
  consume_nonce nonce proof root = do
    unused ← verify_and_consume host config nonce
    fail_when (not unused) (verification_failed (codes "Nonce already used"))

  module _ (spend : Spend) where
    open spend use {protocol, k_cur, k_cur_is_zero, t_issue, verify_spend}

    pub record Request : Type 0 where
      pub run : protocol.Run
      pub proof : protocol.Proof
      pub nonce : Bytes
      pub merkle_proof : Option MerkleProof
      pub merkle_root : Option Bytes

    -- Steps 4 to 6, after the nullifier check.
    unfoldable pub spend_tail : Bytes → Request → Bool → Step (State host config) protocol.Response
    spend_tail idem_key req fresh = do
      fail_when (not fresh) (verification_failed (codes "Spend nullifier already used"))
      now ← lift (protocol.now req.run)
      response ← lift (join (verify_spend req.run req.proof config.current_epoch now req.nonce))
      cache_response protocol (codes "Failed to serialize spend response") idem_key response

    -- Steps 2 to 6.
    unfoldable pub spend_uncached : Bytes → Request → Step (State host config) protocol.Response
    spend_uncached idem_key req = do
      fail_when (k_cur_is_zero req.proof) (verification_failed (codes "k_cur is zero"))
      consume_nonce req.nonce req.merkle_proof req.merkle_root
      fresh ←
          on_database
            (check_spend_nullifier host.redis config (k_cur req.proof) (t_issue req.proof))
      spend_tail idem_key req fresh

    unfoldable pub handle_spend : Request → Step (State host config) protocol.Response
    handle_spend req = do
      let idem_key = compute_key host.sha256 host.hex (protocol.print req.proof) req.nonce
      cached ← on_database (get host.redis config idem_key)
      answer protocol (codes "Failed to deserialize cached spend response") cached
          (spend_uncached idem_key req)
