-- ===== src/Refresh/Verify.antt =====
-- src/epoch_refresh.rs: `verify_refresh`.
use ebutv.Prelude.{ℕ, not, ◌||◌, List, [], ◌∷◌}
use ebutv.Prelude.Outcome.{Outcome, done, panic, ◌>>=◌, ◌>>◌, run, fail_if}
use ebutv.Prelude.Text.{codes}
use ebutv.Server.Store.{protocol_error, verification_failed}
use ebutv.Bls.{Bls}
use ebutv.Dalek.{Dalek}
use ebutv.Msm.{g1_msm}
use ebutv.Setup.{h, h_table_mul, g1_table_mul, ServerKeys}
use ebutv.BatchedEq.{verify_batched_equality}
use ebutv.BatchedEq as BatchedEq
use ebutv.Refresh.{RefreshProof, RefreshResponse, epoch_base, beq_context, challenge}

module _ (bls : Bls) (dalek : Dalek) where
  open bls use {
    g1, Point, Scalar, identity, ◌⊕◌, ◌⊖◌, neg, ◌⊛◌, ◌⊞◌, ◌⊠◌, negate, scalar_one, point_eq, G2,
    generator, generator_g2, from_number, multi_exp, pairing_is_one, inverse, is_zero,
  }

  abbrev h_at : ℕ → Point
  h_at = h bls

  -- The combination of the equations that has to vanish.
  unfoldable pub combined : RefreshProof bls dalek → ℕ → Point → Point → Scalar → Outcome Point
  combined proof current_epoch h_t c_bridge c =
      let c2 = c ⊠ c in
      let c3 = c2 ⊠ c in
      let ep = from_number current_epoch in
      let sc_h0 = c2 ⊠ proof.z_v ⊞ (c3 ⊠ proof.z_w ⊞ proof.z_s_tilde) in
      let sc_h1 = (c2 ⊞ scalar_one) ⊠ proof.z_k_tilde in
      let sc_h2 = c2 ⊠ proof.z_u in
      let sc_h3 = (c2 ⊞ scalar_one) ⊠ proof.z_c_tilde in
      let sc_h4 = c2 ⊠ (proof.z_r1 ⊠ ep) in
      let sc_h5 = (scalar_one ⊞ (c2 ⊞ c3)) ⊠ proof.z_e_tilde in
      let fixed_sum =
        h_table_mul bls 0 sc_h0
        ⊕ h_table_mul bls 1 sc_h1
        ⊕ h_table_mul bls 2 sc_h2
        ⊕ h_table_mul bls 3 sc_h3
        ⊕ h_table_mul bls 4 sc_h4
        ⊕ h_table_mul bls 5 sc_h5
        ⊕ g1_table_mul bls proof.z_r1 in
      run (
        g1_msm g1 multi_exp
          (h_t ∷ proof.n_t ∷ proof.t_scale_n ∷ proof.t_n ∷ proof.a_prime ∷ proof.k_daily ∷ c_bridge
            ∷ proof.a_bar ∷ proof.t_d ∷ proof.t_scale_d ∷ proof.t_b ∷ proof.t_scale_b ∷ proof.t_bbs
            ∷ [])
          (c ⊠ proof.z_k_tilde
            ∷ negate (c ⊠ proof.z_r1)
            ∷ c
            ∷ negate c
            ∷ negate proof.z_e
            ∷ negate (c2 ⊠ proof.z_r1)
            ∷ negate (c3 ⊠ proof.z_r1)
            ∷ negate c
            ∷ negate c2
            ∷ c2
            ∷ negate c3
            ∷ c3
            ∷ negate scalar_one
            ∷ []))
      >>= λ variable_sum. done (fixed_sum ⊕ variable_sum)

  -- The daily token, on the two scalars that the server draws.
  unfoldable pub issue_daily :
      Scalar → Scalar → ServerKeys bls → Point → Outcome (RefreshResponse bls dalek)
  issue_daily e_daily s_prime_daily keys k_daily = do
    msg_part ← run (
        g1_msm g1 multi_exp (generator ∷ k_daily ∷ h_at 0 ∷ [])
          (scalar_one ∷ scalar_one ∷ s_prime_daily ∷ []))
    let denom = e_daily ⊞ keys.sk_daily
    fail_if (is_zero denom) (protocol_error (codes "Division by zero in issuance"))
    done (record {
      a_daily = inverse denom ⊛ msg_part;
      e_daily = e_daily;
      s_prime_daily = s_prime_daily;
    })

  -- The server draws `e_daily` and `s_prime_daily`. The two checks that run side by side share no
  -- state; the result of the range proof is looked at first.
  unfoldable pub verify_refresh :
      Scalar
      → Scalar
      → RefreshProof bls dalek
      → ℕ
      → ℕ
      → G2
      → ServerKeys bls
      → Scalar
      → Outcome (RefreshResponse bls dalek)
  verify_refresh e_daily s_prime_daily proof current_epoch now_unix pk_master keys h_ctx = do
    fail_if (point_eq proof.n_t identity) (verification_failed (codes "N_T is the identity"))
    fail_if (point_eq proof.a_prime identity || point_eq proof.t_bbs identity)
        (verification_failed (codes "Zero point in proof"))
    let c_bridge = proof.c_delta ⊕ from_number now_unix ⊛ h_at 5
    c ←
        challenge bls dalek h_ctx pk_master current_epoch now_unix
          (proof.n_t ∷ proof.k_daily ∷ proof.c_delta ∷ proof.x_bls_commitment ∷ [])
          (BatchedEq.to_bytes proof.batched_eq)
          (proof.a_prime ∷ proof.a_bar ∷ proof.t_bbs ∷ proof.t_scale_n ∷ proof.t_n ∷ proof.t_scale_d
            ∷ proof.t_d ∷ proof.t_scale_b ∷ proof.t_b ∷ proof.t_scale_x ∷ proof.t_x ∷ [])
    let lhs_x = proof.z_k_tilde ⊛ h_at 1 ⊕ proof.z_r_x ⊛ h_at 0 ⊖ proof.t_x
    let rhs_x = proof.z_r1 ⊛ proof.x_bls_commitment ⊖ proof.t_scale_x
    fail_if (not (point_eq lhs_x rhs_x))
        (verification_failed (codes "x BLS commitment bridge failed"))
    sum ← combined proof current_epoch (epoch_base bls dalek current_epoch) c_bridge c
    fail_if (not (point_eq sum identity))
        (verification_failed (codes "Combined bridge+Schnorr check failed"))
    verify_batched_equality bls dalek proof.batched_eq proof.c_delta (h_at 5) (h_at 0)
        (beq_context bls dalek h_ctx current_epoch now_unix)
        (proof.a_prime ∷ proof.a_bar ∷ proof.t_bbs ∷ proof.n_t ∷ proof.k_daily
          ∷ proof.x_bls_commitment ∷ [])
    let pairing_ok = pairing_is_one proof.a_prime keys.pk_master (neg proof.a_bar) generator_g2
    fail_if (not pairing_ok) (verification_failed (codes "Pairing check failed"))
    issue_daily e_daily s_prime_daily keys proof.k_daily

  -- The proofs in turn, each with the two scalars drawn for it; `panic` if the draws are used up.
  unfoldable pub verify_refresh_batch :
      List (Scalar × Scalar)
      → List (RefreshProof bls dalek)
      → ℕ
      → ℕ
      → G2
      → ServerKeys bls
      → Scalar
      → Outcome (List (RefreshResponse bls dalek))
  verify_refresh_batch draws [] current_epoch now_unix pk_master keys h_ctx = done []
  verify_refresh_batch [] (p ∷ ps) current_epoch now_unix pk_master keys h_ctx = panic
  verify_refresh_batch ((e, s) ∷ draws) (p ∷ ps) current_epoch now_unix pk_master keys h_ctx =
      verify_refresh e s p current_epoch now_unix pk_master keys h_ctx >>= λ response.
      verify_refresh_batch draws ps current_epoch now_unix pk_master keys h_ctx >>= λ responses.
      done (response ∷ responses)
