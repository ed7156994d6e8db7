-- ===== src/Revocation/Complete.antt =====
-- src/revocation.rs: a holder whose expiry is not blacklisted proves it, against the list that the
-- server signed.
use ebutv.Prelude.{
  ℕ, ◌<◌, ◌≤◌, ◌≡◌, inl, inr, refl, arith, true, false, ◌&&◌, ◌||◌, not, some, List, [], ◌∷◌, leb,
  ltb, ◌==◌, length, All, Bool-cases,
}
use ebutv.Prelude.Outcome.{done}
use ebutv.Prelude.Results.{ok}
use ebutv.Bls.{Bls}
use ebutv.Dalek.{Dalek}
use ebutv.Hash.Reduction.{scalar_from_le_bytes_mod_order_lem}
use ebutv.V3.Gap.{
  Pairing, ServerSecretKey, ServerPublicKey, public_key, exponent, sign_interval_with_context,
}
use ebutv.V3.Equality.{commit_rist}
use ebutv.V3.Prover.{MultiRange, Secrets, NonMembershipProof, create_non_membership_proof}
use ebutv.V3.Prover.Complete.{verify_non_membership-create}
use ebutv.Revocation.{
  RevocationContext, revocation_domain_max_v1, contains, validate_gap_interval, sign_blacklist,
  find_gap,
}
use ebutv.Revocation.Find.{IsEnd, find_gap-sign_blacklist}
use ebutv.Revocation.Prove.{
  Gap, SignedList, RevocationDraws, ClientRevocationProof, gap_context_scalar, sign_list,
  witness_inputs, random_ristretto_scalar, prove_emax_not_revoked_with_bases, prove_emax_with_bases,
  verify_emax_not_revoked_with_bases,
}

contains-All : (P : ℕ → Type 0) (b : ℕ) (xs : List ℕ) → All P xs → contains b xs ≡ true → P b
unfolding contains
contains-All P b [] a h = absurd cc
contains-All P b (x ∷ xs) a h = elim (Bool-cases (b == x)) [
  | inl t ↦ (let e : x ≡ b = ground arith in rw e at a.0)
  | inr f ↦ contains-All P b xs a.1 (rw f at h)
]

-- The three tests on a gap, for a time that is not after the expiry.
validated :
    (emax ea eb now_unix : ℕ)
    → ea < emax
    → emax < eb
    → eb ≤ revocation_domain_max_v1
    → now_unix ≤ emax
    → validate_gap_interval emax ea eb now_unix ≡ ok tt
unfolding validate_gap_interval
validated emax ea eb now_unix lower upper top fresh =
    let domain : ltb revocation_domain_max_v1 emax
          || (ltb revocation_domain_max_v1 ea || ltb revocation_domain_max_v1 eb)
        ≡ false =
      ground arith in
    let inside : not (ltb ea emax && ltb emax eb) ≡ false = ground arith in
    let order : leb eb ea ≡ false = ground arith in
    let time : ltb emax now_unix ≡ false = ground arith in rw (domain, inside, order, time) refl

module _ (bls : Bls) (dalek : Dalek) (pair : Pairing bls) (ranges : MultiRange dalek) where
  open bls use {Point, Scalar, ◌⊕◌, ◌⊛◌, from_number, sha256, length-sha256, sha256-All}

  -- The scalar of the context: the number of the digest.
  pub gap_context_scalar_lem :
      (ctx : RevocationContext)
      → (s : Scalar) × (gap_context_scalar bls dalek pair ranges ctx ≡ some s)
  unfolding gap_context_scalar
  gap_context_scalar_lem ctx =
      (_, scalar_from_le_bytes_mod_order_lem bls _ (length-sha256 _) (sha256-All _))

  inputs :
      RevocationDraws bls dalek pair ranges
      → Gap bls dalek pair ranges
      → ℕ
      → Scalar
      → Secrets bls dalek pair ranges
  inputs d gap emax r2 = record {
    e = emax;
    r1_e = random_ristretto_scalar bls dalek pair ranges d.emax_wide;
    r2_e = r2;
    ea = gap.left;
    eb = gap.right;
    sigma = gap.signature;
    r2_ea = d.r2_ea;
    r2_eb = d.r2_eb;
    r1_ea = random_ristretto_scalar bls dalek pair ranges d.ea_wide;
    r1_eb = random_ristretto_scalar bls dalek pair ranges d.eb_wide;
  }

  -- With a gap that is found and valid, the prover answers what the proof of the gap is.
  prove_emax_lem :
      (d : RevocationDraws bls dalek pair ranges) (list : SignedList bls dalek pair ranges)
      (pk : ServerPublicKey bls dalek pair) (emax : ℕ) (r2 gap_ctx : Scalar) (vb bb : Point)
      (gap : Gap bls dalek pair ranges) (proof : NonMembershipProof bls dalek pair ranges)
      → gap_context_scalar bls dalek pair ranges list.ctx ≡ some gap_ctx
      → find_gap (Point × Point) list emax ≡ ok gap
      → validate_gap_interval emax gap.left gap.right list.ctx.now_unix ≡ ok tt
      → create_non_membership_proof bls dalek pair ranges d.proof
          (inputs d gap emax r2)
          pk
          gap_ctx
          vb
          bb
        ≡ ok proof
      → prove_emax_with_bases bls dalek pair ranges d list pk emax r2 vb bb
        ≡ done (record {
          proof = proof;
          user_com_rist =
              commit_rist bls dalek
                (dalek.embed emax)
                (random_ristretto_scalar bls dalek pair ranges d.emax_wide);
        })
  unfolding prove_emax_with_bases witness_inputs prove_emax_not_revoked_with_bases inputs
  prove_emax_lem d list pk emax r2 gap_ctx vb bb gap proof context found valid made =
      rw (found, valid, context, made, valid) refl

  -- On the list that the server signs for a context, a holder whose expiry is not blacklisted, lies
  -- strictly between 0 and 2 ^ 32 - 1 and is not past gets a proof, which the verifier accepts for
  -- the commitment to the expiry: when no blacklisted handle is above 2 ^ 32 - 1.
  pub verify_emax_not_revoked-prove_emax :
      (points : ℕ → Point) (ctx : RevocationContext) (sk : ServerSecretKey bls dalek pair)
      (blacklisted : List ℕ) (d : RevocationDraws bls dalek pair ranges) (emax : ℕ) (r2 : Scalar)
      (value_base blind_base : Point)
      → length d.proof.eq.k_bytes ≡ 54
      → All (λ b. b < 256) d.proof.eq.k_bytes
      → All (λ b. b ≤ revocation_domain_max_v1) blacklisted
      → 0 < emax
      → emax < revocation_domain_max_v1
      → ctx.now_unix ≤ emax
      → contains emax blacklisted ≡ false
      → (list : SignedList bls dalek pair ranges) × (client : ClientRevocationProof bls dalek pair
          ranges)
        × (sign_list bls dalek pair ranges points ctx sk blacklisted ≡ done list)
        × (prove_emax_with_bases bls dalek pair ranges d list
              (public_key bls dalek pair sk)
              emax
              r2
              value_base
              blind_base
            ≡ done client)
        × (verify_emax_not_revoked_with_bases bls dalek pair ranges ctx client.proof
              (public_key bls dalek pair sk)
              client.user_com_rist
              (from_number emax ⊛ value_base ⊕ r2 ⊛ blind_base)
              value_base
              blind_base
            ≡ done tt)
  unfolding sign_list verify_emax_not_revoked_with_bases inputs IsEnd sign_interval_with_context
      sign_blacklist
  verify_emax_not_revoked-prove_emax points ctx sk blacklisted d emax r2 vb bb len bytes small lower
        upper fresh absent =
      let context = gap_context_scalar_lem ctx in
      let sign : ℕ → ℕ → Point × Point = λ left right.
        sign_interval_with_context bls dalek pair (points left) sk left right context.0 in
      let list = sign_blacklist (Point × Point) ctx sign blacklisted in
      let found = find_gap-sign_blacklist sign ctx blacklisted emax lower upper absent in
      let gap = found.0 in
      let top : gap.right ≤ revocation_domain_max_v1 = elim found.6 [
        | inl e ↦ omega (arith, e)
        | inr c ↦ contains-All (λ b. b ≤ revocation_domain_max_v1) gap.right blacklisted small c
      ] in
      let valid = validated emax gap.left gap.right ctx.now_unix found.2 found.3 top fresh in
      let signed : gap.signature.1
          ≡ exponent bls dalek pair sk gap.left gap.right context.0 ⊛ gap.signature.0 =
        rw found.5 refl in
      let made =
        verify_non_membership-create bls dalek pair ranges sk d.proof (inputs d gap emax r2)
          context.0 vb bb len bytes found.2 found.3 (omega arith) signed in
      (
        list,
        _,
        rw context.1 refl,
        prove_emax_lem d list (public_key bls dalek pair sk) emax r2 context.0 vb bb gap made.0
            context.1 found.1 valid made.1,
        rw (context.1, made.2) refl,
      )
