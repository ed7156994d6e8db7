-- ===== src/Revocation/Prove.antt =====
-- src/revocation.rs: the proof that a hidden expiry is not revoked, its verification, and their use
-- with the clients and proofs of a refresh and of a spend. `random_ristretto_scalar` is applied to
-- the bytes that are drawn.
use ebutv.Prelude.{ℕ, Option, List, ◌++◌, length, if◌then◌else◌}
use ebutv.Prelude.Outcome.{Outcome, done, failed, ◌>>=◌, ◌>>◌, run, try}
use ebutv.Prelude.Text.{codes, to_le_bytes}
use ebutv.Server.Store.{verification_failed}
use ebutv.Bls.{Bls}
use ebutv.Dalek.{Dalek}
use ebutv.Hash.{scalar_from_le_bytes_mod_order}
use ebutv.Setup.{h}
use ebutv.Spend.{SpendClient, SpendProof, spend_emax_bls_commitment}
use ebutv.Refresh.{RefreshClient, RefreshProof, refresh_emax_bls_commitment}
use ebutv.V3.{bls_g1, bls_h1}
use ebutv.V3.Gap.{Pairing, ServerPublicKey, ServerSecretKey, sign_interval_with_context}
use ebutv.V3.Equality.{commit_rist}
use ebutv.V3.Prover.{
  MultiRange, NonMembershipProof, NonMembershipDraws, Secrets, create_non_membership_proof,
  verify_non_membership_proof,
}
use ebutv.Revocation.{
  RevocationContext, SignedRevocationList, SignedRevocationGap, validate_gap_interval,
  sign_blacklist, find_gap,
}

module _ (bls : Bls) (dalek : Dalek) (pair : Pairing bls) (ranges : MultiRange dalek) where
  open bls use {Point, Scalar, sha256}

  abbrev pub Gap : Type 0
  Gap = SignedRevocationGap (Point × Point)

  abbrev pub SignedList : Type 0
  SignedList = SignedRevocationList (Point × Point)

  unfoldable pub gap_context_scalar : RevocationContext → Option Scalar
  gap_context_scalar ctx = scalar_from_le_bytes_mod_order bls (
      sha256 (
        codes "EBUT:REVOCATION:GAP-CONTEXT:V1"
        ++ (to_le_bytes 8 (length ctx.app_id)
            ++ (ctx.app_id
                ++ (to_le_bytes 8 (length ctx.policy_id)
                    ++ (ctx.policy_id
                        ++ (ctx.server_key_id ++ to_le_bytes 8 ctx.revocation_list_version)))))))

  -- The signed list, on the point that is drawn for the gap with each left end. The context's scalar
  -- is computed once.
  unfoldable pub sign_list :
      (ℕ → Point) → RevocationContext → ServerSecretKey bls dalek pair → List ℕ → Outcome SignedList
  sign_list draws ctx sk blacklisted = do
    gap_ctx ← run (gap_context_scalar ctx)
    done (
        sign_blacklist (Point × Point) ctx
          (λ left right.
            sign_interval_with_context bls dalek pair (draws left) sk left right gap_ctx)
          blacklisted)

  pub record RevocationDraws : Type 0 where
    pub emax_wide : List ℕ
    pub r2_ea : Scalar
    pub r2_eb : Scalar
    pub ea_wide : List ℕ
    pub eb_wide : List ℕ
    pub proof : NonMembershipDraws bls dalek pair ranges

  unfoldable pub random_ristretto_scalar : List ℕ → dalek.Scalar
  random_ristretto_scalar wide = dalek.from_bytes_mod_order_wide wide

  unfoldable pub witness_inputs :
      RevocationDraws
      → SignedList
      → ℕ
      → dalek.Scalar
      → Scalar
      → Outcome (Secrets bls dalek pair ranges)
  witness_inputs d list emax r1_emax r2_emax = do
    found ← try (find_gap (Point × Point) list emax)
    try (validate_gap_interval emax found.left found.right list.ctx.now_unix)
    gap ← try (find_gap (Point × Point) list emax)
    done (record {
      e = emax;
      r1_e = r1_emax;
      r2_e = r2_emax;
      ea = gap.left;
      eb = gap.right;
      sigma = gap.signature;
      r2_ea = d.r2_ea;
      r2_eb = d.r2_eb;
      r1_ea = random_ristretto_scalar d.ea_wide;
      r1_eb = random_ristretto_scalar d.eb_wide;
    })

  unfoldable pub prove_emax_not_revoked_with_bases :
      NonMembershipDraws bls dalek pair ranges
      → RevocationContext
      → ServerPublicKey bls dalek pair
      → Secrets bls dalek pair ranges
      → Point
      → Point
      → Outcome (NonMembershipProof bls dalek pair ranges)
  prove_emax_not_revoked_with_bases d ctx pk inputs value_base blind_base = do
    try (validate_gap_interval inputs.e inputs.ea inputs.eb ctx.now_unix)
    gap_ctx ← run (gap_context_scalar ctx)
    try (
        create_non_membership_proof bls dalek pair ranges d inputs pk gap_ctx value_base blind_base)

  unfoldable pub prove_emax_not_revoked :
      NonMembershipDraws bls dalek pair ranges
      → RevocationContext
      → ServerPublicKey bls dalek pair
      → Secrets bls dalek pair ranges
      → Outcome (NonMembershipProof bls dalek pair ranges)
  prove_emax_not_revoked d ctx pk inputs =
      prove_emax_not_revoked_with_bases d ctx pk inputs (bls_g1 bls dalek) (bls_h1 bls dalek)

  -- A proof with the Ristretto commitment to the expiry.
  pub record ClientRevocationProof : Type 0 where
    pub proof : NonMembershipProof bls dalek pair ranges
    pub user_com_rist : dalek.Point

  unfoldable pub prove_emax_with_bases :
      RevocationDraws
      → SignedList
      → ServerPublicKey bls dalek pair
      → ℕ
      → Scalar
      → Point
      → Point
      → Outcome ClientRevocationProof
  prove_emax_with_bases d list pk emax r2_emax value_base blind_base = do
    let r1_emax = random_ristretto_scalar d.emax_wide
    inputs ← witness_inputs d list emax r1_emax r2_emax
    proof ← prove_emax_not_revoked_with_bases d.proof list.ctx pk inputs value_base blind_base
    done
        (record { proof = proof; user_com_rist = commit_rist bls dalek (dalek.embed emax) r1_emax })

  unfoldable pub prove_emax :
      RevocationDraws
      → SignedList
      → ServerPublicKey bls dalek pair
      → ℕ
      → Scalar
      → Outcome ClientRevocationProof
  prove_emax d list pk emax r2_emax =
      prove_emax_with_bases d list pk emax r2_emax (bls_g1 bls dalek) (bls_h1 bls dalek)

  unfoldable pub prove_refresh_client :
      RevocationDraws
      → SignedList
      → ServerPublicKey bls dalek pair
      → RefreshClient bls dalek
      → Outcome ClientRevocationProof
  prove_refresh_client d list pk client =
      prove_emax_with_bases d list pk client.e_max client.r_delta (h bls 5) (h bls 0)

  unfoldable pub prove_spend_client :
      RevocationDraws
      → SignedList
      → ServerPublicKey bls dalek pair
      → SpendClient bls dalek
      → Outcome ClientRevocationProof
  prove_spend_client d list pk client =
      prove_emax_with_bases d list pk client.e_max client.r_delta (h bls 5) (h bls 0)

  unfoldable pub verify_emax_not_revoked_with_bases :
      RevocationContext
      → NonMembershipProof bls dalek pair ranges
      → ServerPublicKey bls dalek pair
      → dalek.Point
      → Point
      → Point
      → Point
      → Outcome (Unit {0})
  verify_emax_not_revoked_with_bases ctx proof pk user_com_rist user_com_bls value_base blind_base =
      run (gap_context_scalar ctx) >>= λ gap_ctx.
      if verify_non_membership_proof bls dalek pair ranges proof pk user_com_rist user_com_bls
        gap_ctx value_base blind_base
      then done tt
      else failed (verification_failed (codes "revocation non-membership proof failed"))

  unfoldable pub verify_emax_not_revoked :
      RevocationContext
      → NonMembershipProof bls dalek pair ranges
      → ServerPublicKey bls dalek pair
      → dalek.Point
      → Point
      → Outcome (Unit {0})
  verify_emax_not_revoked ctx proof pk user_com_rist user_com_bls =
      verify_emax_not_revoked_with_bases ctx proof pk user_com_rist user_com_bls (bls_g1 bls dalek)
        (bls_h1 bls dalek)

  unfoldable pub verify_refresh_not_revoked :
      RevocationContext
      → NonMembershipProof bls dalek pair ranges
      → ServerPublicKey bls dalek pair
      → RefreshProof bls dalek
      → dalek.Point
      → Outcome (Unit {0})
  verify_refresh_not_revoked ctx proof pk refresh_proof user_com_rist =
      let user_com_bls = refresh_emax_bls_commitment bls dalek refresh_proof ctx.now_unix in
      verify_emax_not_revoked_with_bases ctx proof pk user_com_rist user_com_bls (h bls 5) (h bls 0)

  unfoldable pub verify_spend_not_revoked :
      RevocationContext
      → NonMembershipProof bls dalek pair ranges
      → ServerPublicKey bls dalek pair
      → SpendProof bls dalek
      → dalek.Point
      → Outcome (Unit {0})
  verify_spend_not_revoked ctx proof pk spend_proof user_com_rist =
      let user_com_bls = spend_emax_bls_commitment bls dalek spend_proof ctx.now_unix in
      verify_emax_not_revoked_with_bases ctx proof pk user_com_rist user_com_bls (h bls 5) (h bls 0)

  unfoldable pub verify_refresh_not_revoked_from_client_proof :
      SignedList
      → ClientRevocationProof
      → ServerPublicKey bls dalek pair
      → RefreshProof bls dalek
      → Outcome (Unit {0})
  verify_refresh_not_revoked_from_client_proof list client pk refresh_proof =
      verify_refresh_not_revoked list.ctx client.proof pk refresh_proof client.user_com_rist

  unfoldable pub verify_spend_not_revoked_from_client_proof :
      SignedList
      → ClientRevocationProof
      → ServerPublicKey bls dalek pair
      → SpendProof bls dalek
      → Outcome (Unit {0})
  verify_spend_not_revoked_from_client_proof list client pk spend_proof =
      verify_spend_not_revoked list.ctx client.proof pk spend_proof client.user_com_rist
