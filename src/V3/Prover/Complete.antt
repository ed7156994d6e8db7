-- ===== src/V3/Prover/Complete.antt =====
-- src/v3_zkp/prover.rs: a number strictly inside a gap is proved to lie there.
use ebutv.Prelude.{
  ℕ, ◌+◌, ◌-◌, ◌^◌, ◌<◌, ◌≤◌, ◌≡◌, ◌⊎◌, inl, inr, refl, ap, ◌∙◌, arith, Bool, true, false, ◌&&◌,
  some, [], ◌∷◌, length, All, ltb, leb, Bool-cases,
}
use ebutv.Prelude.Lists.{bytes_eq}
use ebutv.Prelude.Results.{ok}
use ebutv.Prelude.Text.{codes}
use ebutv.Curve.{Curve}
use ebutv.Curve.Laws.{point_eq_self}
use ebutv.Curve.Combination.{
  expand, scale, collect, put, cancels, same_sign, flip, insert, multiply,
}
use ebutv.Curve.Combination.Sound.{agrees}
use ebutv.Bls.{Bls}
use ebutv.Dalek.{Dalek}
use ebutv.V3.{ristretto_gv, ristretto_g1}
use ebutv.V3.Gap.{Pairing, ServerSecretKey, public_key, exponent, prove_with_context_and_bases}
use ebutv.V3.Gap.Complete.{gap_verify-gap_prove}
use ebutv.V3.Equality.{commit_rist}
use ebutv.V3.Equality.Complete.{equality_verify-equality_prove}
use ebutv.V3.Prover.{
  MultiRange, checked_sub, minus_one, rev_range_bits, rev_bp_gens, NonMembershipProof,
  NonMembershipDraws, Secrets, prove_range, create_non_membership_proof,
  verify_non_membership_proof,
}
use ebutv.V3.Prover.Terms.{expected_diff, com_diff}

-- The difference that is committed to: what lies strictly between.
difference : (a b : ℕ) → b < a → minus_one (checked_sub a b) ≡ some (a - b - 1)
unfolding checked_sub
difference a b h =
    let first : ltb a b ≡ false = ground arith in
    let second : ltb (a - b) 1 ≡ false = ground arith in rw (first, second) refl

-- Either width holds both differences, and the generators have room for it.
pub record Fits (bits m1 m2 : ℕ) : Type 0 where
  pub width : (bits ≡ 32) ⊎ (bits ≡ 64)
  pub room : bits ≤ rev_bp_gens bits
  pub first : m1 < 2 ^ bits
  pub second : m2 < 2 ^ bits

rev_range_bits-Fits : (m1 m2 : ℕ) → m1 < 2 ^ 64 → m2 < 2 ^ 64 → Fits (rev_range_bits m1 m2) m1 m2
unfolding rev_range_bits rev_bp_gens
rev_range_bits-Fits m1 m2 h1 h2 = elim (Bool-cases (leb m1 4294967295 && leb m2 4294967295)) [
  | inl t ↦
      rw t (record {
        width = inl refl;
        room = omega arith;
        first = ground arith;
        second = ground arith;
      })
  | inr f ↦ rw f (record { width = inr refl; room = omega arith; first = h1; second = h2 })
]

all_four :
    (b1 b2 b3 b4 b5 : Bool)
    → b1 ≡ true
    → b2 ≡ true
    → b3 ≡ true
    → b4 ≡ true
    → b5 ≡ true
    → b1 && (b2 && ((b3 && b4) && b5)) ≡ true
all_four b1 b2 b3 b4 b5 h1 h2 h3 h4 h5 = rw (h1, h2, h3, h4, h5) refl

module _ (curve : Curve) where
  open curve use {Point, Scalar, scalar_one, ◌⊕◌, ◌⊖◌, ◌⊛◌, ◌⊞◌, ◌⊟◌}

  expected_lem :
      (d a r s : Scalar) (p q : Point)
      → (d ⊞ a ⊞ scalar_one) ⊛ p ⊕ r ⊛ q ⊖ (a ⊛ p ⊕ s ⊛ q) ⊖ p ≡ d ⊛ p ⊕ (r ⊟ s) ⊛ q
  unfolding expected_diff com_diff expand scale collect put cancels same_sign flip insert multiply
      bytes_eq
  expected_lem d a r s p q =
      agrees curve (d ∷ a ∷ r ∷ s ∷ []) (p ∷ q ∷ []) expected_diff com_diff refl

module _ (bls : Bls) (dalek : Dalek) (pair : Pairing bls) (ranges : MultiRange dalek) where
  open bls use {Point, Scalar, ◌⊕◌, ◌⊛◌, from_number}

  -- The verifier's difference of commitments is the commitment to the difference.
  commitment_lem :
      (a b : ℕ) (r s : dalek.Scalar)
      → b < a
      → dalek.◌⊖◌
          (dalek.◌⊖◌
            (commit_rist bls dalek (dalek.embed a) r)
            (commit_rist bls dalek (dalek.embed b) s))
          (ristretto_gv bls dalek)
        ≡ commit_rist bls dalek (dalek.embed (a - b - 1)) (dalek.◌⊟◌ r s)
  commitment_lem a b r s h =
      let split : dalek.embed a
          ≡ dalek.◌⊞◌ (dalek.◌⊞◌ (dalek.embed (a - b - 1)) (dalek.embed b)) dalek.scalar_one =
        ap dalek.embed (let e : a ≡ a - b - 1 + b + 1 = omega arith in e)
        ∙ dalek.embed_add (a - b - 1 + b) 1
        ∙ ap (dalek.◌⊞◌ (dalek.embed (a - b - 1 + b))) dalek.embed_one
        ∙ ap (λ t. dalek.◌⊞◌ t dalek.scalar_one) (dalek.embed_add (a - b - 1) b) in
      ap
        (λ t.
          dalek.◌⊖◌
            (dalek.◌⊖◌ (commit_rist bls dalek t r) (commit_rist bls dalek (dalek.embed b) s))
            (ristretto_gv bls dalek))
        split
      ∙ expected_lem dalek.curve (dalek.embed (a - b - 1)) (dalek.embed b) r s
          (ristretto_gv bls dalek) (ristretto_g1 bls dalek)

  -- What the closure returns, and the check that it passes.
  Ranged : dalek.Draws → Secrets bls dalek pair ranges → Type 0
  Ranged draws s =
      let d1 = s.e - s.ea - 1 in
      let d2 = s.eb - s.e - 1 in
      let bits = rev_range_bits d1 d2 in
      let com1 = commit_rist bls dalek (dalek.embed d1) (dalek.◌⊟◌ s.r1_e s.r1_ea) in
      let com2 = commit_rist bls dalek (dalek.embed d2) (dalek.◌⊟◌ s.r1_eb s.r1_e) in
      (proof : dalek.RangeProof) × (prove_range bls dalek pair ranges draws s
        ≡ ok (proof, com1, com2, bits))
      × (ranges.verify_multiple proof (rev_bp_gens bits) (ristretto_gv bls dalek)
            (ristretto_g1 bls dalek) (codes "aggregated_diffs")
            (dalek.compress com1 ∷ dalek.compress com2 ∷ []) bits
          ≡ true)

  prove_range_lem :
      (draws : dalek.Draws) (s : Secrets bls dalek pair ranges)
      → s.ea < s.e
      → s.e < s.eb
      → s.eb < 2 ^ 64
      → Ranged draws s
  unfolding prove_range Ranged
  prove_range_lem draws s lower upper top =
      let d1 = s.e - s.ea - 1 in
      let d2 = s.eb - s.e - 1 in
      let fits : Fits (rev_range_bits d1 d2) d1 d2 =
        rev_range_bits-Fits d1 d2 (omega arith) (omega arith) in
      let made =
        ranges.verify_multiple-prove_multiple draws (rev_bp_gens (rev_range_bits d1 d2))
          (ristretto_gv bls dalek) (ristretto_g1 bls dalek) (codes "aggregated_diffs") d1 d2
          (dalek.◌⊟◌ s.r1_e s.r1_ea) (dalek.◌⊟◌ s.r1_eb s.r1_e) (rev_range_bits d1 d2) fits.width
          fits.room fits.first fits.second in
      (made.0, rw (difference s.e s.ea lower, difference s.eb s.e upper, made.1) refl, made.2)

  -- A number of 64 bits strictly inside a gap, with a pair of points in the relation of a signature
  -- on the gap and the context: the prover makes a proof, and the verifier accepts it for the
  -- commitments to the number on both curves.
  pub verify_non_membership-create :
      (sk : ServerSecretKey bls dalek pair) (d : NonMembershipDraws bls dalek pair ranges)
      (s : Secrets bls dalek pair ranges) (gap_ctx : Scalar) (value_base blind_base : Point)
      → length d.eq.k_bytes ≡ 54
      → All (λ b. b < 256) d.eq.k_bytes
      → s.ea < s.e
      → s.e < s.eb
      → s.eb < 2 ^ 64
      → s.sigma.1 ≡ exponent bls dalek pair sk s.ea s.eb gap_ctx ⊛ s.sigma.0
      → (proof : NonMembershipProof bls dalek pair ranges) × (create_non_membership_proof bls dalek
            pair ranges d s
            (public_key bls dalek pair sk)
            gap_ctx
            value_base
            blind_base
          ≡ ok proof)
        × (verify_non_membership_proof bls dalek pair ranges proof
              (public_key bls dalek pair sk)
              (commit_rist bls dalek (dalek.embed s.e) s.r1_e)
              (from_number s.e ⊛ value_base ⊕ s.r2_e ⊛ blind_base)
              gap_ctx
              value_base
              blind_base
            ≡ true)
  unfolding create_non_membership_proof verify_non_membership_proof Ranged
      prove_with_context_and_bases
  verify_non_membership-create sk d s gap_ctx value_base blind_base len all lower upper top signed =
      let ranged : Ranged d.range s = prove_range_lem d.range s lower upper top in
      (
        _,
        rw ranged.1 refl,
        all_four _ _ _ _ _
            (equality_verify-equality_prove bls dalek d.eq
              (record { number = s.e; r1 = s.r1_e; r2 = s.r2_e })
              (record { number = s.ea; r1 = s.r1_ea; r2 = s.r2_ea })
              (record { number = s.eb; r1 = s.r1_eb; r2 = s.r2_eb }) _ value_base blind_base len all
              (omega arith) (omega arith) top
              (record {
                e_rist = refl;
                ea_rist = refl;
                eb_rist = refl;
                e_bls = refl;
                ea_bls = refl;
                eb_bls = refl;
              }))
            (gap_verify-gap_prove bls dalek pair sk d.gap s.ea s.eb s.r2_ea s.r2_eb s.sigma.0
              s.sigma.1 d.t gap_ctx value_base blind_base signed)
            (point_eq_self dalek.curve _ _ (commitment_lem s.e s.ea s.r1_e s.r1_ea lower))
            (point_eq_self dalek.curve _ _ (commitment_lem s.eb s.e s.r1_eb s.r1_e upper)) ranged.2,
      )
