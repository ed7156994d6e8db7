-- ===== src/Spend/Verify.antt =====
-- src/spend.rs: `verify_spend` and `verify_spend_batch`.
use ebutv.Prelude.{ℕ, ◌+◌, not, ◌&&◌, ◌||◌, List, [], ◌∷◌, ◌==◌, min, length}
use ebutv.Prelude.Outcome.{Outcome, done, panic, ◌>>=◌, ◌>>◌, run, fail_if}
use ebutv.Prelude.Text.{codes}
use ebutv.Server.Store.{protocol_error, verification_failed}
use ebutv.Bls.{Bls}
use ebutv.Dalek.{Dalek}
use ebutv.Msm.{g1_msm}
use ebutv.Setup.{h, h_table_mul, g1_table_mul, ServerKeys}
use ebutv.BatchedEq.{verify_batched_equality}
use ebutv.BatchedEq as BatchedEq
use ebutv.Spend.{SpendProof, SpendResponse, beq_context, expiry_context, challenge}

-- `saturating_add(1)` on a `u32`
abbrev pub next_epoch : ℕ → ℕ
next_epoch t = min (t + 1) 0xffffffff

module _ (bls : Bls) (dalek : Dalek) where
  open bls use {
    g1, Point, Scalar, identity, ◌⊕◌, ◌⊖◌, neg, ◌⊛◌, ◌⊞◌, ◌⊟◌, ◌⊠◌, negate, scalar_one, point_eq,
    G2, generator, generator_g2, from_number, multi_exp, pairing_is_one, inverse, is_zero,
  }

  abbrev h_at : ℕ → Point
  h_at = h bls

  -- The combination of the equations that has to vanish.
  unfoldable pub combined : SpendProof bls dalek → Point → Scalar → Outcome Point
  combined proof c_total c =
      let c2 = c ⊠ c in
      let c3 = c2 ⊠ c in
      let ti = from_number proof.t_issue in
      let sf = from_number proof.s in
      let sc_h0 = (c ⊞ c2) ⊠ proof.z_v ⊞ (c3 ⊠ proof.z_w ⊞ proof.z_s_tilde) in
      let sc_h1 = (scalar_one ⊞ (c ⊞ c2)) ⊠ proof.z_x_tilde in
      let sc_h2 = (c ⊞ c2) ⊠ proof.z_u ⊞ proof.k_cur ⊠ proof.z_r1 in
      let sc_h3 =
        (scalar_one ⊞ (c ⊞ (c2 ⊞ c3))) ⊠ proof.z_c_tilde ⊟ (c2 ⊞ c3) ⊠ (sf ⊠ proof.z_r1) in
      let sc_h4 = (scalar_one ⊞ (c ⊞ c2)) ⊠ (ti ⊠ proof.z_r1) in
      let sc_h5 = (scalar_one ⊞ (c ⊞ c2)) ⊠ proof.z_e_tilde in
      let fixed_sum =
        h_table_mul bls 0 sc_h0
        ⊕ h_table_mul bls 1 sc_h1
        ⊕ h_table_mul bls 2 sc_h2
        ⊕ h_table_mul bls 3 sc_h3
        ⊕ h_table_mul bls 4 sc_h4
        ⊕ h_table_mul bls 5 sc_h5
        ⊕ g1_table_mul bls proof.z_r1 in
      run (
        g1_msm g1 multi_exp
          (proof.a_prime ∷ c_total ∷ proof.k_prime ∷ proof.c_bp ∷ proof.a_bar ∷ proof.t_total
            ∷ proof.t_scale_t ∷ proof.t_refund ∷ proof.t_scale_r ∷ proof.t_bp ∷ proof.t_scale_bp
            ∷ proof.t_bbs ∷ [])
          (negate proof.z_e
            ∷ negate (c ⊠ proof.z_r1)
            ∷ negate (c2 ⊠ proof.z_r1)
            ∷ negate (c3 ⊠ proof.z_r1)
            ∷ negate c
            ∷ negate c
            ∷ c
            ∷ negate c2
            ∷ c2
            ∷ negate c3
            ∷ c3
            ∷ negate scalar_one
            ∷ []))
      >>= λ variable_sum. done (fixed_sum ⊕ variable_sum)

  -- The refund token, on the two scalars that the server draws.
  unfoldable pub issue_refund :
      Scalar → Scalar → ServerKeys bls → Point → Outcome (SpendResponse bls dalek)
  issue_refund e_refund s_prime_refund keys k_prime = do
    msg_part ← run (
        g1_msm g1 multi_exp (generator ∷ k_prime ∷ h_at 0 ∷ [])
          (scalar_one ∷ scalar_one ∷ s_prime_refund ∷ []))
    let denom = e_refund ⊞ keys.sk_daily
    fail_if (is_zero denom) (protocol_error (codes "Division by zero in issuance"))
    done (record {
      a_refund = inverse denom ⊛ msg_part;
      e_refund = e_refund;
      s_prime_refund = s_prime_refund;
    })

  -- The server draws `e_refund` and `s_prime_refund`. The two checks that run side by side share no
  -- state; the result of the range proof is looked at first.
  unfoldable pub verify_spend :
      Scalar
      → Scalar
      → SpendProof bls dalek
      → ℕ
      → ℕ
      → List ℕ
      → G2
      → ServerKeys bls
      → Scalar
      → Outcome (SpendResponse bls dalek)
  verify_spend e_refund s_prime_refund proof current_epoch now_unix nonce pk_daily keys h_ctx = do
    fail_if (proof.s == 0) (verification_failed (codes "Spend amount must be positive"))
    fail_if
        (not (proof.t_issue == current_epoch) && not (next_epoch proof.t_issue == current_epoch))
        (verification_failed (codes "Epoch mismatch"))
    fail_if (point_eq proof.a_prime identity || point_eq proof.t_bbs identity)
        (verification_failed (codes "Zero point in proof"))
    let c_total = proof.k_prime ⊕ from_number proof.s ⊛ h_at 3
    c ←
        challenge bls dalek h_ctx pk_daily proof.s proof.k_cur proof.t_issue proof.e_max now_unix
          nonce (proof.k_prime ∷ c_total ∷ proof.c_bp ∷ proof.c_delta ∷ proof.x_bls_commitment ∷ [])
          (BatchedEq.to_bytes proof.batched_eq) (BatchedEq.to_bytes proof.expiry_eq)
          (proof.a_prime ∷ proof.a_bar ∷ proof.t_bbs ∷ proof.t_scale_t ∷ proof.t_total
            ∷ proof.t_scale_r ∷ proof.t_refund ∷ proof.t_scale_bp ∷ proof.t_bp ∷ proof.t_scale_x
            ∷ proof.t_x ∷ proof.t_scale_exp ∷ proof.t_exp ∷ [])
    let lhs_x = proof.z_x_tilde ⊛ h_at 1 ⊕ proof.z_r_x ⊛ h_at 0 ⊖ proof.t_x
    let rhs_x = proof.z_r1 ⊛ proof.x_bls_commitment ⊖ proof.t_scale_x
    fail_if (not (point_eq lhs_x rhs_x))
        (verification_failed (codes "x BLS commitment bridge failed"))
    let c_exp_bridge = proof.c_delta ⊕ from_number now_unix ⊛ h_at 5
    let lhs_exp = proof.z_e_tilde ⊛ h_at 5 ⊕ proof.z_r_delta ⊛ h_at 0 ⊖ proof.t_exp
    let rhs_exp = proof.z_r1 ⊛ c_exp_bridge ⊖ proof.t_scale_exp
    fail_if (not (point_eq lhs_exp rhs_exp))
        (verification_failed (codes "spend-time expiry bridge failed"))
    sum ← combined proof c_total c
    fail_if (not (point_eq sum identity))
        (verification_failed (codes "Combined bridge+Schnorr check failed"))
    verify_batched_equality bls dalek proof.batched_eq proof.c_bp (h_at 3) (h_at 0)
        (beq_context bls dalek h_ctx proof.s proof.k_cur proof.t_issue proof.e_max now_unix nonce)
        (proof.a_prime ∷ proof.a_bar ∷ proof.t_bbs ∷ proof.k_prime ∷ c_total
          ∷ proof.x_bls_commitment ∷ proof.c_delta ∷ [])
    let pairing_ok = pairing_is_one proof.a_prime keys.pk_daily (neg proof.a_bar) generator_g2
    verify_batched_equality bls dalek proof.expiry_eq proof.c_delta (h_at 5) (h_at 0)
        (expiry_context bls dalek h_ctx proof.t_issue proof.e_max now_unix proof.k_cur nonce)
        (proof.a_prime ∷ proof.a_bar ∷ proof.t_bbs ∷ proof.k_prime ∷ proof.c_delta
          ∷ proof.x_bls_commitment ∷ [])
    fail_if (not pairing_ok) (verification_failed (codes "Pairing check failed"))
    issue_refund e_refund s_prime_refund keys proof.k_prime

  -- The proofs and nonces in step, each with the two scalars drawn for it; `panic` if the draws are
  -- used up.
  unfoldable pub verify_all :
      List (Scalar × Scalar)
      → List (SpendProof bls dalek)
      → ℕ
      → ℕ
      → List (List ℕ)
      → G2
      → ServerKeys bls
      → Scalar
      → Outcome (List (SpendResponse bls dalek))
  verify_all draws [] current_epoch now_unix nonces pk_daily keys h_ctx = done []
  verify_all draws (p ∷ ps) current_epoch now_unix [] pk_daily keys h_ctx = done []
  verify_all [] (p ∷ ps) current_epoch now_unix (n ∷ ns) pk_daily keys h_ctx = panic
  verify_all ((e, s) ∷ draws) (p ∷ ps) current_epoch now_unix (n ∷ ns) pk_daily keys h_ctx =
      verify_spend e s p current_epoch now_unix n pk_daily keys h_ctx >>= λ response.
      verify_all draws ps current_epoch now_unix ns pk_daily keys h_ctx >>= λ responses.
      done (response ∷ responses)

  unfoldable pub verify_spend_batch :
      List (Scalar × Scalar)
      → List (SpendProof bls dalek)
      → ℕ
      → ℕ
      → List (List ℕ)
      → G2
      → ServerKeys bls
      → Scalar
      → Outcome (List (SpendResponse bls dalek))
  verify_spend_batch draws proofs current_epoch now_unix nonces pk_daily keys h_ctx = do
    fail_if (not (length proofs == length nonces))
        (protocol_error (codes "proof/nonce length mismatch"))
    verify_all draws proofs current_epoch now_unix nonces pk_daily keys h_ctx
