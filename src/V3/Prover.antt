-- ===== src/V3/Prover.antt =====
-- src/v3_zkp/prover.rs: the non-membership proof. A hidden number lies strictly inside a signed gap:
-- the proof of the gap, the equality of the commitments on the two curves, and a range proof of both
-- differences. The timings and sizes that go with a proof are left out. Aggregated range proofs are
-- a library's: an interface.
pub mod Terms
pub mod Complete
use ebutv.Prelude.{
  ℕ, ◌-◌, ◌^◌, ◌<◌, ◌≤◌, ◌≡◌, ◌⊎◌, Bool, true, false, ◌&&◌, Option, none, some, List, [], ◌∷◌, leb,
  ltb, ◌==◌, if◌then◌else◌,
}
use ebutv.Prelude.Results.{Result, ok, err, ◌>>=◌}
use ebutv.Prelude.Text.{codes}
use ebutv.Server.Store.{ActError, protocol_error}
use ebutv.Bls.{Bls}
use ebutv.Dalek.{Dalek}
use ebutv.V3.{ristretto_gv, ristretto_g1, bls_g1, bls_h1}
use ebutv.V3.Gap.{
  Pairing, ServerPublicKey, GapProof, GapDraws, prove_with_context_and_bases,
  verify_with_context_and_bases,
}
use ebutv.V3.Equality.{
  EqualityProof, EqualityDraws, Statement, commit_rist, prove_with_bls_bases, verify_with_bls_bases,
}

-- Two values in one range proof, over Pedersen generators and the label of a fresh transcript.
pub record MultiRange (dalek : Dalek) : Type 0 where
  pub prove_multiple :
      dalek.Draws
      → ℕ
      → dalek.Point
      → dalek.Point
      → List ℕ
      → List ℕ
      → List dalek.Scalar
      → ℕ
      → Option dalek.RangeProof
  pub verify_multiple :
      dalek.RangeProof → ℕ → dalek.Point → dalek.Point → List ℕ → List (List ℕ) → ℕ → Bool
  pub verify_multiple-prove_multiple :
      (draws : dalek.Draws) (capacity : ℕ) (p q : dalek.Point) (label : List ℕ) (m1 m2 : ℕ)
      (r1 r2 : dalek.Scalar) (bits : ℕ)
      → (bits ≡ 32) ⊎ (bits ≡ 64)
      → bits ≤ capacity
      → m1 < 2 ^ bits
      → m2 < 2 ^ bits
      → (proof : dalek.RangeProof) × (prove_multiple draws capacity p q label
            (m1 ∷ m2 ∷ [])
            (r1 ∷ r2 ∷ [])
            bits
          ≡ some proof)
        × (verify_multiple proof capacity p q label
              (dalek.compress (dalek.◌⊕◌ (dalek.◌⊛◌ (dalek.embed m1) p) (dalek.◌⊛◌ r1 q))
                ∷ dalek.compress (dalek.◌⊕◌ (dalek.◌⊛◌ (dalek.embed m2) p) (dalek.◌⊛◌ r2 q))
                ∷ [])
              bits
            ≡ true)

unfoldable pub checked_sub : ℕ → ℕ → Option ℕ
checked_sub a b = if ltb a b then none else some (a - b)

-- `a.checked_sub(b).and_then(|d| d.checked_sub(1)).ok_or_else(..)?`
abbrev pub minus_one : Option ℕ → Option ℕ
minus_one none = none
minus_one (some d) = checked_sub d 1

abbrev pub ok_or : {A : Type 0} → Option A → ActError → Result ActError A
ok_or none e = err e
ok_or (some a) e = ok a

unfoldable pub rev_range_bits : ℕ → ℕ → ℕ
rev_range_bits diff1 diff2 = if leb diff1 4294967295 && leb diff2 4294967295 then 32 else 64

-- The capacity of `rev_bp_gens`.
unfoldable pub rev_bp_gens : ℕ → ℕ
rev_bp_gens bits = if bits == 32 then 32 else (if bits == 64 then 64 else 64)

module _ (bls : Bls) (dalek : Dalek) (pair : Pairing bls) (ranges : MultiRange dalek) where
  open bls use {Point, Scalar, ◌⊕◌, ◌⊛◌, scalar_zero, from_number}
  open ranges use {prove_multiple, verify_multiple}

  pub record NonMembershipProof : Type 0 where
    pub com_ea_rist : dalek.Point
    pub com_eb_rist : dalek.Point
    pub batched_eq_proof : EqualityProof bls dalek
    pub gap_proof : GapProof bls dalek pair
    pub aggregated_range_proof : dalek.RangeProof
    pub com_diff1 : dalek.Point
    pub com_diff2 : dalek.Point
    pub range_bits : ℕ

  pub record NonMembershipDraws : Type 0 where
    pub gap : GapDraws bls dalek pair
    pub t : Scalar
    pub range : dalek.Draws
    pub eq : EqualityDraws bls dalek

  -- The hidden number and the ends of its gap, each with its blinders on the two curves.
  pub record Secrets : Type 0 where
    pub e : ℕ
    pub r1_e : dalek.Scalar
    pub r2_e : Scalar
    pub ea : ℕ
    pub eb : ℕ
    pub sigma : Point × Point
    pub r2_ea : Scalar
    pub r2_eb : Scalar
    pub r1_ea : dalek.Scalar
    pub r1_eb : dalek.Scalar

  -- The closure of the range proof.
  unfoldable pub prove_range :
      dalek.Draws → Secrets → Result ActError (dalek.RangeProof × dalek.Point × dalek.Point × ℕ)
  prove_range draws s = do
    diff1 ←
        ok_or (minus_one (checked_sub s.e s.ea))
          (protocol_error (codes "invalid revocation lower gap"))
    diff2 ←
        ok_or (minus_one (checked_sub s.eb s.e))
          (protocol_error (codes "invalid revocation upper gap"))
    let range_bits = rev_range_bits diff1 diff2
    let blinding_diff1 = dalek.◌⊟◌ s.r1_e s.r1_ea
    let blinding_diff2 = dalek.◌⊟◌ s.r1_eb s.r1_e
    proof ←
        ok_or
          (prove_multiple draws (rev_bp_gens range_bits) (ristretto_gv bls dalek)
            (ristretto_g1 bls dalek) (codes "aggregated_diffs") (diff1 ∷ diff2 ∷ [])
            (blinding_diff1 ∷ blinding_diff2 ∷ []) range_bits)
          (protocol_error (codes "revocation range proof generation failed"))
    ok (
      proof,
      commit_rist bls dalek (dalek.embed diff1) blinding_diff1,
      commit_rist bls dalek (dalek.embed diff2) blinding_diff2,
      range_bits,
    )

  unfoldable pub create_non_membership_proof :
      NonMembershipDraws
      → Secrets
      → ServerPublicKey bls dalek pair
      → Scalar
      → Point
      → Point
      → Result ActError NonMembershipProof
  create_non_membership_proof d s pk gap_ctx value_base blind_base =
      let com_e_rist = commit_rist bls dalek (dalek.embed s.e) s.r1_e in
      let com_e_bls = from_number s.e ⊛ value_base ⊕ s.r2_e ⊛ blind_base in
      let com_ea_rist = commit_rist bls dalek (dalek.embed s.ea) s.r1_ea in
      let com_eb_rist = commit_rist bls dalek (dalek.embed s.eb) s.r1_eb in
      let gap_proof =
        prove_with_context_and_bases bls dalek pair d.gap s.ea s.eb s.r2_ea s.r2_eb s.sigma.0
          s.sigma.1 d.t gap_ctx pk value_base blind_base in
      prove_range d.range s >>= λ range. ok (record {
        com_ea_rist = com_ea_rist;
        com_eb_rist = com_eb_rist;
        batched_eq_proof =
            prove_with_bls_bases bls dalek d.eq (record { number = s.e; r1 = s.r1_e; r2 = s.r2_e })
              (record { number = s.ea; r1 = s.r1_ea; r2 = s.r2_ea })
              (record { number = s.eb; r1 = s.r1_eb; r2 = s.r2_eb })
              (record {
                com_e_rist = com_e_rist;
                com_e_bls = com_e_bls;
                com_ea_rist = com_ea_rist;
                com_ea_bls = gap_proof.com_ea;
                com_eb_rist = com_eb_rist;
                com_eb_bls = gap_proof.com_eb;
              })
              value_base blind_base;
        gap_proof = gap_proof;
        aggregated_range_proof = range.0;
        com_diff1 = range.1;
        com_diff2 = range.2;
        range_bits = range.3;
      })

  unfoldable pub verify_non_membership_proof :
      NonMembershipProof
      → ServerPublicKey bls dalek pair
      → dalek.Point
      → Point
      → Scalar
      → Point
      → Point
      → Bool
  verify_non_membership_proof proof pk user_com_rist user_com_bls gap_ctx value_base blind_base =
      let eq_ok =
        verify_with_bls_bases bls dalek proof.batched_eq_proof
          (record {
            com_e_rist = user_com_rist;
            com_e_bls = user_com_bls;
            com_ea_rist = proof.com_ea_rist;
            com_ea_bls = proof.gap_proof.com_ea;
            com_eb_rist = proof.com_eb_rist;
            com_eb_bls = proof.gap_proof.com_eb;
          })
          value_base blind_base in
      let gap_ok =
        verify_with_context_and_bases bls dalek pair proof.gap_proof pk gap_ctx value_base
          blind_base in
      let range_ok =
        verify_multiple proof.aggregated_range_proof (rev_bp_gens proof.range_bits)
          (ristretto_gv bls dalek) (ristretto_g1 bls dalek) (codes "aggregated_diffs")
          (dalek.compress proof.com_diff1 ∷ dalek.compress proof.com_diff2 ∷ []) proof.range_bits in
      let gv = ristretto_gv bls dalek in
      let expected_diff1 = dalek.◌⊖◌ (dalek.◌⊖◌ user_com_rist proof.com_ea_rist) gv in
      let expected_diff2 = dalek.◌⊖◌ (dalek.◌⊖◌ proof.com_eb_rist user_com_rist) gv in
      let ext_ok =
        dalek.point_eq expected_diff1 proof.com_diff1
        && dalek.point_eq expected_diff2 proof.com_diff2 in
      eq_ok && (gap_ok && (ext_ok && range_ok))
