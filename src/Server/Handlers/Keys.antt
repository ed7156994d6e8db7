-- ===== src/Server/Handlers/Keys.antt =====
-- src/server.rs: the keys of the nonces and of the cached answers are not those of the nullifiers.
use ebutv.Prelude.{ℕ, ◌≡◌, ◌≢◌, ap, arith, get_or}
use ebutv.Prelude.Text.{codes}
use ebutv.Server.Store.{Bytes}
use ebutv.Server.Nullifiers.{ServerConfig, spend_nullifier_key, compute_key, compute_key_no_nonce}
use ebutv.Server.Nonces.{Host, nonce_key}

-- A key that no nonce and no cached answer is stored under.
pub record Apart (host : Host) (set : Bytes) : Type 0 where
  pub nonces : (c : ServerConfig) (nonce : Bytes) → nonce_key host c nonce ≢ set
  pub answers : (proof nonce : Bytes) → compute_key host.sha256 host.hex proof nonce ≢ set
  pub refreshes : (proof : Bytes) → compute_key_no_nonce host.sha256 host.hex proof ≢ set

-- `act:spend:`, `act:nonce:` and `act:idem:` differ in the fifth byte.
pub spend_nullifier_key-Apart : (host : Host) (epoch : ℕ) → Apart host (spend_nullifier_key epoch)
unfolding spend_nullifier_key nonce_key compute_key compute_key_no_nonce codes
spend_nullifier_key-Apart host epoch = record {
  nonces = λ c nonce h. let bad : 110 ≡ 115 = ap (λ xs. get_or xs 4 0) h in absurd (omega arith);
  answers =
      λ proof nonce h. let bad : 105 ≡ 115 = ap (λ xs. get_or xs 4 0) h in absurd (omega arith);
  refreshes = λ proof h. let bad : 105 ≡ 115 = ap (λ xs. get_or xs 4 0) h in absurd (omega arith);
}
