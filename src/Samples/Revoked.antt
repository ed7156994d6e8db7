-- ===== src/Samples/Revoked.antt =====
-- The theorems on gaps and on revocation, applied to the residues.
use ebutv.Prelude.{
  ℕ, ◌<◌, ◌≤◌, ◌≡◌, inl, inr, refl, arith, ltb, Bool-cases, true, false, some, List, [], ◌∷◌,
  replicate, All, All-replicate,
}
use ebutv.Prelude.Outcome.{done, failed}
use ebutv.Prelude.Results.{ok, err}
use ebutv.Prelude.Text.{codes}
use ebutv.Server.Store.{protocol_error, verification_failed}
use ebutv.V3.Gap.{
  ServerSecretKey, GapDraws, public_key, exponent, prove_with_context_and_bases,
  verify_with_context_and_bases,
}
use ebutv.V3.Gap.Complete.{gap_verify-gap_prove}
use ebutv.V3.Equality.{commit_rist}
use ebutv.V3.Prover.{NonMembershipProof, NonMembershipDraws, create_non_membership_proof}
use ebutv.Revocation.{
  RevocationContext, revocation_domain_max_v1, SignedRevocationGap, contains, sign_blacklist,
  find_gap,
}
use ebutv.Revocation.Find.{
  Clear, IsEnd, sign_blacklist-Clear, find_gap-sign_blacklist, find_gap_blacklisted,
}
use ebutv.Revocation.Prove.{
  SignedList, RevocationDraws, ClientRevocationProof, gap_context_scalar, sign_list, witness_inputs,
  prove_emax_with_bases, verify_emax_not_revoked_with_bases,
}
use ebutv.Revocation.Complete.{verify_emax_not_revoked-prove_emax}
use ebutv.Revocation.Unsigned.{unsigned, verify_emax_not_revoked_unsigned}
use ebutv.Revocation.Refused.{Uppermost, witness_inputs_out_of_domain}
use ebutv.Samples.Residues.{Residue, residue, times, plus}
use ebutv.Samples.Groups.{bls_residues, dalek_one_point, pairing_residues, ranges_one_point}

abbrev key : ServerSecretKey bls_residues dalek_one_point pairing_residues
key = record { x = residue 2; y1 = residue 3; y2 = residue 4; yctx = residue 5 }

abbrev gap_draws : GapDraws bls_residues dalek_one_point pairing_residues
gap_draws = record { r_ea = residue 2; r_ra = residue 3; r_eb = residue 4; r_rb = residue 5 }

abbrev proof_draws :
    NonMembershipDraws bls_residues dalek_one_point pairing_residues ranges_one_point
proof_draws = record {
  gap = gap_draws;
  t = residue 6;
  range = tt;
  eq = record { k_bytes = replicate 54 7; u1 = tt; u2 = residue 7 };
}

abbrev revocation_draws :
    RevocationDraws bls_residues dalek_one_point pairing_residues ranges_one_point
revocation_draws = record {
  emax_wide = replicate 64 1;
  r2_ea = residue 8;
  r2_eb = residue 9;
  ea_wide = replicate 64 2;
  eb_wide = replicate 64 3;
  proof = proof_draws;
}

abbrev context : RevocationContext
context = record {
  app_id = 1 ∷ [];
  policy_id = 2 ∷ 3 ∷ [];
  server_key_id = replicate 32 7;
  revocation_list_version = 44;
  now_unix = 1000;
}

sevens : All (λ b. b < 256) (replicate 54 7)
sevens = All-replicate (λ b. b < 256) 54 7 (omega arith)

abbrev handles : List ℕ
handles = 3000 ∷ 1000 ∷ 3000 ∷ 2000 ∷ []

abbrev sign : ℕ → ℕ → ℕ × ℕ
sign left right = (left, right)

absent : contains 2500 handles ≡ false
unfolding contains
absent = refl

present : contains 2000 handles ≡ true
unfolding contains
present = refl

find_gap-sign_blacklist_example :
    (g : SignedRevocationGap (ℕ × ℕ)) × (find_gap
        (ℕ × ℕ)
        (sign_blacklist (ℕ × ℕ) context sign handles)
        2500
      ≡ ok g)
    × (g.left < 2500)
    × (2500 < g.right)
    × Clear g.left g.right handles
    × (g.signature ≡ sign g.left g.right)
    × IsEnd g.right handles
find_gap-sign_blacklist_example =
    find_gap-sign_blacklist sign context handles 2500 (omega arith) (omega arith) absent

find_gap_blacklisted_example :
    find_gap (ℕ × ℕ) (sign_blacklist (ℕ × ℕ) context sign handles) 2000
    ≡ err (verification_failed (codes "Emax is blacklisted"))
find_gap_blacklisted_example = find_gap_blacklisted sign context handles 2000 present

sign_blacklist-Clear_example :
    All
      (λ g.
        Clear g.left g.right handles × (g.signature ≡ sign g.left g.right) × IsEnd g.right handles)
      (sign_blacklist (ℕ × ℕ) context sign handles).gaps
sign_blacklist-Clear_example = sign_blacklist-Clear sign context handles

small : All (λ b. b ≤ revocation_domain_max_v1) handles
small = (omega arith, (omega arith, (omega arith, (omega arith, tt))))

verify_emax_not_revoked-prove_emax_example :
    (list : SignedList bls_residues dalek_one_point pairing_residues ranges_one_point)
    × (client : ClientRevocationProof bls_residues dalek_one_point pairing_residues
        ranges_one_point)
    × (sign_list bls_residues dalek_one_point pairing_residues ranges_one_point
          (λ n. residue 1)
          context
          key
          handles
        ≡ done list)
    × (prove_emax_with_bases bls_residues dalek_one_point pairing_residues ranges_one_point
          revocation_draws list
          (public_key bls_residues dalek_one_point pairing_residues key)
          2500
          (residue 4)
          (residue 2)
          (residue 3)
        ≡ done client)
    × (verify_emax_not_revoked_with_bases bls_residues dalek_one_point pairing_residues
          ranges_one_point context client.proof
          (public_key bls_residues dalek_one_point pairing_residues key)
          client.user_com_rist
          (plus (times (residue 2500) (residue 2)) (times (residue 4) (residue 3)))
          (residue 2)
          (residue 3)
        ≡ done tt)
verify_emax_not_revoked-prove_emax_example =
    verify_emax_not_revoked-prove_emax bls_residues dalek_one_point pairing_residues
      ranges_one_point (λ n. residue 1) context key handles revocation_draws 2500 (residue 4)
      (residue 2) (residue 3) refl sevens small (omega arith) (omega arith) (omega arith) absent

verify_emax_not_revoked_unsigned_example :
    (gap_ctx : Residue) × (proof : NonMembershipProof bls_residues dalek_one_point pairing_residues
      ranges_one_point)
    × (gap_context_scalar bls_residues dalek_one_point pairing_residues ranges_one_point context
        ≡ some gap_ctx)
    × (create_non_membership_proof bls_residues dalek_one_point pairing_residues ranges_one_point
          proof_draws
          (unsigned bls_residues dalek_one_point pairing_residues ranges_one_point 2000 tt
            (residue 4))
          (public_key bls_residues dalek_one_point pairing_residues key)
          gap_ctx
          (residue 2)
          (residue 3)
        ≡ ok proof)
    × (verify_emax_not_revoked_with_bases bls_residues dalek_one_point pairing_residues
          ranges_one_point context proof
          (public_key bls_residues dalek_one_point pairing_residues key)
          (commit_rist bls_residues dalek_one_point tt tt)
          (plus (times (residue 2000) (residue 2)) (times (residue 4) (residue 3)))
          (residue 2)
          (residue 3)
        ≡ done tt)
verify_emax_not_revoked_unsigned_example =
    verify_emax_not_revoked_unsigned bls_residues dalek_one_point pairing_residues ranges_one_point
      context key proof_draws 2000 tt (residue 4) (residue 2) (residue 3) refl sevens (omega arith)
      (omega arith)

abbrev far_handles : List ℕ
far_handles = 1000 ∷ 5000000000 ∷ 5 ∷ []

far_handle : contains 5000000000 far_handles ≡ true
unfolding contains
far_handle = refl

far_handles-Uppermost : Uppermost 2500 far_handles
unfolding Uppermost contains
far_handles-Uppermost b c = elim (Bool-cases (ltb b 2500)) [
  | inl low ↦ inl (ground arith)
  | inr high ↦ inr (ground arith)
]

witness_inputs_out_of_domain_example :
    witness_inputs bls_residues dalek_one_point pairing_residues ranges_one_point revocation_draws
      (sign_blacklist
        (Residue × Residue)
        context
        (λ left right. (residue left, residue right))
        far_handles)
      2500
      tt
      (residue 4)
    ≡ failed (protocol_error (codes "revocation proof v1 supports Emax/gap endpoints <= u32::MAX"))
witness_inputs_out_of_domain_example =
    witness_inputs_out_of_domain bls_residues dalek_one_point pairing_residues ranges_one_point
      (λ left right. (residue left, residue right)) context revocation_draws far_handles 5000000000
      2500 tt (residue 4) far_handle (omega arith) far_handles-Uppermost (omega arith) (omega arith)

-- The point 7, and the signature on the gap from 10 to 20 for the context 6.
gap_verify-gap_prove_example :
    verify_with_context_and_bases bls_residues dalek_one_point pairing_residues
      (prove_with_context_and_bases bls_residues dalek_one_point pairing_residues gap_draws 10 20
        (residue 8)
        (residue 9)
        (residue 7)
        (times
          (exponent bls_residues dalek_one_point pairing_residues key 10 20 (residue 6))
          (residue 7))
        (residue 4)
        (residue 6)
        (public_key bls_residues dalek_one_point pairing_residues key)
        (residue 2)
        (residue 3))
      (public_key bls_residues dalek_one_point pairing_residues key)
      (residue 6)
      (residue 2)
      (residue 3)
    ≡ true
gap_verify-gap_prove_example =
    gap_verify-gap_prove bls_residues dalek_one_point pairing_residues key gap_draws 10 20
      (residue 8) (residue 9) (residue 7)
      (times (exponent bls_residues dalek_one_point pairing_residues key 10 20 (residue 6))
        (residue 7))
      (residue 4) (residue 6) (residue 2) (residue 3) refl
