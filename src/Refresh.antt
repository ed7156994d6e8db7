-- ===== src/Refresh.antt =====
-- src/epoch_refresh.rs: a daily token from a master token, once for each epoch. What the prover
-- draws is a record of arguments, and `Outcome` has its errors and panics.
pub mod Prove
pub mod Verify
pub mod Terms
pub mod Honest
pub mod Combined
pub mod Complete
pub mod Accepted
use ebutv.Prelude.{ℕ, List, [], ◌∷◌, ◌++◌}
use ebutv.Prelude.Outcome.{Outcome, run}
use ebutv.Prelude.Text.{codes, to_le_bytes}
use ebutv.Bls.{Bls}
use ebutv.Dalek.{Dalek}
use ebutv.Hash.{hash_to_scalar, hash_to_g1, write_points}
use ebutv.Setup.{h}
use ebutv.Bbs.{BbsSignature}
use ebutv.BatchedEq.{BatchedEqualityProof, BeqDraws}

module _ (bls : Bls) (dalek : Dalek) where
  open bls use {Point, Scalar, ◌⊕◌, ◌⊛◌, ◌⊞◌, G2, from_number, to_bytes_le, to_compressed_g2}

  pub record RefreshProof : Type 0 where
    pub a_prime : Point
    pub a_bar : Point
    pub t_bbs : Point
    pub t_scale_n : Point
    pub t_n : Point
    pub t_scale_d : Point
    pub t_d : Point
    pub t_scale_b : Point
    pub t_b : Point
    pub z_e : Scalar
    pub z_r1 : Scalar
    pub z_s_tilde : Scalar
    pub z_k_tilde : Scalar
    pub z_c_tilde : Scalar
    pub z_e_tilde : Scalar
    pub z_u : Scalar
    pub z_v : Scalar
    pub z_w : Scalar
    pub batched_eq : BatchedEqualityProof
    pub n_t : Point
    pub k_daily : Point
    pub c_delta : Point
    pub x_bls_commitment : Point
    pub t_scale_x : Point
    pub t_x : Point
    pub z_r_x : Scalar

  pub record RefreshResponse : Type 0 where
    pub a_daily : Point
    pub e_daily : Scalar
    pub s_prime_daily : Scalar

  pub record RefreshClient : Type 0 where
    pub k_sub : Scalar
    pub c_max : ℕ
    pub e_max : ℕ
    pub t : ℕ
    pub k_daily : Scalar
    pub r_daily : Scalar
    pub r_delta : Scalar

  -- `RefreshClient::finalize`: the daily token and its secret.
  unfoldable pub finalize : RefreshClient → RefreshResponse → BbsSignature bls × Scalar
  finalize client response = (
    record {
      a = response.a_daily;
      e = response.e_daily;
      s = client.r_daily ⊞ response.s_prime_daily;
    },
    client.k_daily,
  )

  -- What the prover draws, in its order; `k_daily` and `r1` are drawn until they are not zero.
  pub record RefreshDraws : Type 0 where
    pub k_daily : Scalar
    pub r_daily : Scalar
    pub r_delta : Scalar
    pub r_x : Scalar
    pub r1 : Scalar
    pub rho_e : Scalar
    pub rho_r1 : Scalar
    pub rho_s : Scalar
    pub rho_k : Scalar
    pub rho_c : Scalar
    pub rho_e_msg : Scalar
    pub rho_u : Scalar
    pub rho_v : Scalar
    pub rho_w : Scalar
    pub rho_rx : Scalar
    pub expiry : BeqDraws bls dalek

  -- The base of the nullifiers of an epoch.
  unfoldable pub epoch_base : ℕ → Point
  epoch_base t = hash_to_g1 bls (codes "ACT:Epoch:") (to_le_bytes 4 t)

  unfoldable pub beq_context : Scalar → ℕ → ℕ → List ℕ
  beq_context h_ctx t now_unix = to_bytes_le h_ctx ++ (to_le_bytes 4 t ++ to_le_bytes 8 now_unix)

  -- `RefreshProver::challenge`: the commitments, and the points of the proof, each in their order.
  unfoldable pub challenge : Scalar → G2 → ℕ → ℕ → List Point → List ℕ → List Point → Outcome Scalar
  challenge h_ctx pk_master t now_unix commitments beq_bytes points = run (
      hash_to_scalar bls (
        to_bytes_le h_ctx
        ++ (to_compressed_g2 pk_master
            ++ (to_le_bytes 4 t
                ++ (to_le_bytes 8 now_unix
                    ++ (write_points bls commitments
                        ++ (beq_bytes ++ (write_points bls points ++ codes "Refresh"))))))))

  -- `refresh_emax_bls_commitment`
  unfoldable pub refresh_emax_bls_commitment : RefreshProof → ℕ → Point
  refresh_emax_bls_commitment proof now_unix = proof.c_delta ⊕ from_number now_unix ⊛ h bls 5
