-- ===== src/Revocation/Unsigned.antt =====
-- src/revocation.rs: whose handle is revoked, or not, the verifier accepts a gap that nobody signed.
use ebutv.Prelude.{ℕ, ◌+◌, ◌-◌, ◌^◌, ◌<◌, ◌≡◌, refl, sym, arith, some, length, All}
use ebutv.Prelude.Outcome.{done}
use ebutv.Prelude.Results.{ok}
use ebutv.Bls.{Bls}
use ebutv.Dalek.{Dalek}
use ebutv.V3.Gap.{Pairing, ServerSecretKey, public_key, exponent}
use ebutv.V3.Gap.Complete.{⊛-identity}
use ebutv.V3.Equality.{commit_rist}
use ebutv.V3.Prover.{
  MultiRange, Secrets, NonMembershipProof, NonMembershipDraws, create_non_membership_proof,
}
use ebutv.V3.Prover.Complete.{verify_non_membership-create}
use ebutv.Revocation.{RevocationContext}
use ebutv.Revocation.Prove.{gap_context_scalar, verify_emax_not_revoked_with_bases}
use ebutv.Revocation.Complete.{gap_context_scalar_lem}

module _ (bls : Bls) (dalek : Dalek) (pair : Pairing bls) (ranges : MultiRange dalek) where
  open bls use {Point, Scalar, identity, ◌⊕◌, ◌⊛◌, from_number, scalar_zero}

  -- The narrowest gap around a number, with the identity in place of a signature.
  unfoldable pub unsigned : ℕ → dalek.Scalar → Scalar → Secrets bls dalek pair ranges
  unsigned emax r1 r2 = record {
    e = emax;
    r1_e = r1;
    r2_e = r2;
    ea = emax - 1;
    eb = emax + 1;
    sigma = (identity, identity);
    r2_ea = scalar_zero;
    r2_eb = scalar_zero;
    r1_ea = dalek.scalar_zero;
    r1_eb = dalek.scalar_zero;
  }

  -- For every number but the two ends of 64 bits, whatever the server's key, the context and the
  -- blacklist, the prover makes a proof from the identity in place of a signature, and the verifier
  -- accepts it for the commitments to the number.
  pub verify_emax_not_revoked_unsigned :
      (ctx : RevocationContext) (sk : ServerSecretKey bls dalek pair)
      (d : NonMembershipDraws bls dalek pair ranges) (emax : ℕ) (r1 : dalek.Scalar) (r2 : Scalar)
      (value_base blind_base : Point)
      → length d.eq.k_bytes ≡ 54
      → All (λ b. b < 256) d.eq.k_bytes
      → 0 < emax
      → emax + 1 < 2 ^ 64
      → (gap_ctx : Scalar) × (proof : NonMembershipProof bls dalek pair ranges)
        × (gap_context_scalar bls dalek pair ranges ctx ≡ some gap_ctx)
        × (create_non_membership_proof bls dalek pair ranges d
              (unsigned emax r1 r2)
              (public_key bls dalek pair sk)
              gap_ctx
              value_base
              blind_base
            ≡ ok proof)
        × (verify_emax_not_revoked_with_bases bls dalek pair ranges ctx proof
              (public_key bls dalek pair sk)
              (commit_rist bls dalek (dalek.embed emax) r1)
              (from_number emax ⊛ value_base ⊕ r2 ⊛ blind_base)
              value_base
              blind_base
            ≡ done tt)
  unfolding verify_emax_not_revoked_with_bases unsigned
  verify_emax_not_revoked_unsigned ctx sk d emax r1 r2 vb bb len bytes lower upper =
      let context = gap_context_scalar_lem bls dalek pair ranges ctx in
      let made =
        verify_non_membership-create bls dalek pair ranges sk d (unsigned emax r1 r2) context.0 vb
          bb len bytes (omega arith) (omega arith) upper
          (sym (
            ⊛-identity bls dalek pair
              (exponent bls dalek pair sk (emax - 1) (emax + 1) context.0))) in
      (context.0, made.0, context.1, made.1, rw (context.1, made.2) refl)
