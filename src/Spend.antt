-- ===== src/Spend.antt =====
-- src/spend.rs: the proof of a spend, and what it is made of. What the prover draws is a record of
-- arguments, and `Outcome` has its errors and panics.
pub mod Prove
pub mod Verify
pub mod Terms
pub mod Honest
pub mod Combined
pub mod Bridges
pub mod Complete
pub mod Accepted
use ebutv.Prelude.{ℕ, List, [], ◌∷◌, ◌++◌}
use ebutv.Prelude.Outcome.{Outcome, run}
use ebutv.Prelude.Text.{codes, to_le_bytes}
use ebutv.Bls.{Bls}
use ebutv.Dalek.{Dalek}
use ebutv.Hash.{hash_to_scalar, write_points}
use ebutv.Setup.{h}
use ebutv.Bbs.{BbsSignature}
use ebutv.BatchedEq.{BatchedEqualityProof, BeqDraws}

module _ (bls : Bls) (dalek : Dalek) where
  open bls use {Point, Scalar, ◌⊕◌, ◌⊛◌, ◌⊞◌, G2, from_number, to_bytes_le, to_compressed_g2}

  pub record SpendProof : Type 0 where
    pub a_prime : Point
    pub a_bar : Point
    pub t_bbs : Point
    pub t_scale_t : Point
    pub t_total : Point
    pub t_scale_r : Point
    pub t_refund : Point
    pub t_scale_bp : Point
    pub t_bp : Point
    pub z_e : Scalar
    pub z_r1 : Scalar
    pub z_s_tilde : Scalar
    pub z_x_tilde : Scalar
    pub z_c_tilde : Scalar
    pub z_e_tilde : Scalar
    pub z_u : Scalar
    pub z_v : Scalar
    pub z_w : Scalar
    pub batched_eq : BatchedEqualityProof
    pub s : ℕ
    pub k_cur : Scalar
    pub t_issue : ℕ
    pub k_prime : Point
    pub c_bp : Point
    pub e_max : ℕ
    pub x_bls_commitment : Point
    pub t_scale_x : Point
    pub t_x : Point
    pub z_r_x : Scalar
    pub c_delta : Point
    pub expiry_eq : BatchedEqualityProof
    pub t_scale_exp : Point
    pub t_exp : Point
    pub z_r_delta : Scalar

  pub record SpendResponse : Type 0 where
    pub a_refund : Point
    pub e_refund : Scalar
    pub s_prime_refund : Scalar

  pub record SpendClient : Type 0 where
    pub k_cur : Scalar
    pub c_bal : ℕ
    pub t_issue : ℕ
    pub e_max : ℕ
    pub k_star : Scalar
    pub r_star : Scalar
    pub remaining_balance : ℕ
    pub r_delta : Scalar
    pub r_bp : Scalar

  -- `SpendClient::finalize`: the refund token, its secret, balance, epoch and expiry.
  unfoldable pub finalize : SpendClient → SpendResponse → BbsSignature bls × Scalar × ℕ × ℕ × ℕ
  finalize client response = (
    record {
      a = response.a_refund;
      e = response.e_refund;
      s = client.r_star ⊞ response.s_prime_refund;
    },
    client.k_star,
    client.remaining_balance,
    client.t_issue,
    client.e_max,
  )

  -- What the prover draws, in its order; `k_star` and `r1` are drawn until they are not zero.
  pub record SpendDraws : Type 0 where
    pub k_star : Scalar
    pub r_star : Scalar
    pub r_bp : Scalar
    pub r_delta : Scalar
    pub r_x : Scalar
    pub r1 : Scalar
    pub rho_e : Scalar
    pub rho_r1 : Scalar
    pub rho_s : Scalar
    pub rho_x : Scalar
    pub rho_c : Scalar
    pub rho_emax : Scalar
    pub rho_u : Scalar
    pub rho_v : Scalar
    pub rho_w : Scalar
    pub rho_rx : Scalar
    pub rho_delta : Scalar
    pub balance : BeqDraws bls dalek
    pub expiry : BeqDraws bls dalek

  unfoldable pub beq_context : Scalar → ℕ → Scalar → ℕ → ℕ → ℕ → List ℕ → List ℕ
  beq_context h_ctx s k_cur t_issue e_max now_unix nonce =
      to_bytes_le h_ctx
      ++ (to_le_bytes 4 s
          ++ (to_bytes_le k_cur
              ++ (to_le_bytes 4 t_issue
                  ++ (to_le_bytes 8 e_max ++ (to_le_bytes 8 now_unix ++ nonce)))))

  unfoldable pub expiry_context : Scalar → ℕ → ℕ → ℕ → Scalar → List ℕ → List ℕ
  expiry_context h_ctx t_issue e_max now_unix k_cur nonce =
      to_bytes_le h_ctx
      ++ (to_le_bytes 4 t_issue
          ++ (to_le_bytes 8 e_max ++ (to_le_bytes 8 now_unix ++ (to_bytes_le k_cur ++ nonce))))

  -- `SpendProver::challenge`: the commitments, and the points of the proof, each in their order.
  unfoldable pub challenge :
      Scalar
      → G2
      → ℕ
      → Scalar
      → ℕ
      → ℕ
      → ℕ
      → List ℕ
      → List Point
      → List ℕ
      → List ℕ
      → List Point
      → Outcome Scalar
  challenge h_ctx pk_daily spend_amount k_cur t_issue e_max now_unix nonce commitments beq_bytes
        expiry_bytes points =
      run (
        hash_to_scalar bls (
          to_bytes_le h_ctx
          ++ (to_compressed_g2 pk_daily
              ++ (to_le_bytes 4 spend_amount
                  ++ (to_bytes_le k_cur
                      ++ (to_le_bytes 4 t_issue
                          ++ (to_le_bytes 8 e_max
                              ++ (to_le_bytes 8 now_unix
                                  ++ (nonce
                                      ++ (write_points bls commitments
                                          ++ (beq_bytes
                                              ++ (expiry_bytes
                                                  ++ (write_points bls points
                                                      ++ codes "Spend")))))))))))))

  -- `spend_emax_bls_commitment`
  unfoldable pub spend_emax_bls_commitment : SpendProof → ℕ → Point
  spend_emax_bls_commitment proof now_unix = proof.c_delta ⊕ from_number now_unix ⊛ h bls 5
