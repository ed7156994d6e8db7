-- ===== src/SameX/Complete.antt =====
-- src/same_x_bridge.rs: the holder of a secret of 31 bytes that opens both commitments is accepted.
use ebutv.Prelude.{
  ℕ, ◌+◌, ◌*◌, ◌/◌, ◌%◌, ◌^◌, ◌<◌, ◌≤◌, ◌≡◌, refl, sym, ap, ◌∙◌, arith, false, some, List, [], ◌∷◌,
  leb, length, All, length-take, bytes_eq_refl,
}
use native.Mathlib.Nat.{mul-le-mul}
use ebutv.Prelude.Lists.{bytes_eq}
use ebutv.Prelude.Outcome.{done}
use ebutv.Prelude.Text.{to_le_bytes, from_le_bytes}
use ebutv.Curve.{Curve}
use ebutv.Curve.Laws.{point_eq_self}
use ebutv.Curve.Combination.{
  expand, scale, collect, put, cancels, same_sign, flip, insert, multiply,
}
use ebutv.Curve.Combination.Sound.{agrees}
use ebutv.Limbs.Value.{length-to_le_bytes, from_le_bytes-to_le_bytes, from_le_bytes-lt, All-take}
use ebutv.Bls.{Bls, order}
use ebutv.Dalek.{Dalek}
use ebutv.V3.Numbers.{periodic}
use ebutv.SameX.{
  digits, SameXStatement, SameXProof, SameXDraws, biguint_to_bls_scalar,
  biguint_to_ristretto_scalar, challenge, validate_statement, prove, verify,
}
use ebutv.SameX.Digits.{from_le_bytes-digits, digits-canonical}
use ebutv.SameX.Terms.{responded, committed}

response_bound : (u c x : ℕ) → u < 2 ^ 384 → c < 2 ^ 128 → x < 2 ^ 248 → u + c * x < 2 ^ 385
response_bound u c x hu hc hx =
    let product : c * x
        ≤ 340282366920938463463374607431768211455
          * 452312848583266388373324160190187140051835877600158453279131187530910662655 =
      mul-le-mul {n₂ = 340282366920938463463374607431768211455}
        {m₂ = 452312848583266388373324160190187140051835877600158453279131187530910662655}
        (omega arith) (omega arith) in
    omega arith

module _ (curve : Curve) where
  open curve use {Point, Scalar, ◌⊕◌, ◌⊛◌, ◌⊞◌, ◌⊠◌}

  responded_lem :
      (u c x a r : Scalar) (p q : Point)
      → (u ⊞ c ⊠ x) ⊛ p ⊕ (a ⊞ c ⊠ r) ⊛ q ≡ u ⊛ p ⊕ a ⊛ q ⊕ c ⊛ (x ⊛ p ⊕ r ⊛ q)
  unfolding responded committed expand scale collect put cancels same_sign flip insert multiply
      bytes_eq
  responded_lem u c x a r p q =
      agrees curve (u ∷ c ∷ x ∷ a ∷ r ∷ []) (p ∷ q ∷ []) responded committed refl

module _ (bls : Bls) (dalek : Dalek) where
  open bls use {
    g1, Point, Scalar, ◌⊕◌, ◌⊛◌, ◌⊞◌, ◌⊠◌, from_number, from_number_add, from_number_mul,
    from_number_order, from_bytes_le_lem, length-sha256, sha256-All,
  }

  bls_lem : (x : ℕ) → biguint_to_bls_scalar bls dalek x ≡ some (from_number x)
  unfolding biguint_to_bls_scalar
  bls_lem x =
      let value : from_le_bytes (to_le_bytes 32 (x % order)) ≡ x % order =
        from_le_bytes-to_le_bytes 32 (x % order) (omega arith) in
      from_bytes_le_lem (to_le_bytes 32 (x % order)) (length-to_le_bytes 32 (x % order))
        (omega arith)
      ∙ ap (λ t. some (from_number t)) value
      ∙ ap some (
          sym (periodic from_number order from_number_order (x / order) (x % order))
          ∙ ap from_number (omega arith))

  rist_lem : (x : ℕ) → x < 2 ^ 385 → biguint_to_ristretto_scalar bls dalek x ≡ dalek.embed x
  unfolding biguint_to_ristretto_scalar
  rist_lem x h =
      dalek.from_bytes_mod_order_wide_lem (to_le_bytes 64 x) (length-to_le_bytes 64 x)
      ∙ ap dalek.embed (from_le_bytes-to_le_bytes 64 x (omega arith))

  challenge_small :
      (ctx : List ℕ) (st : SameXStatement bls dalek) (p : Point) (q : dalek.Point)
      → from_le_bytes (challenge bls dalek ctx st p q) < 2 ^ 128
  unfolding challenge
  challenge_small ctx st p q =
      let len : length (challenge bls dalek ctx st p q) ≡ 16 =
        omega (arith, length-take 16 (bls.sha256 _), length-sha256 _) in
      rw len at (from_le_bytes-lt (challenge bls dalek ctx st p q) (All-take 16 _ (sha256-All _)))

  bls_side :
      (u c x : ℕ) (alpha r : Scalar) (p q w : Point)
      → w ≡ from_number x ⊛ p ⊕ r ⊛ q
      → from_number (u + c * x) ⊛ p ⊕ (alpha ⊞ from_number c ⊠ r) ⊛ q
        ≡ from_number u ⊛ p ⊕ alpha ⊛ q ⊕ from_number c ⊛ w
  bls_side u c x alpha r p q w opens =
      ap (λ t. t ⊛ p ⊕ (alpha ⊞ from_number c ⊠ r) ⊛ q)
        (from_number_add u (c * x) ∙ ap (λ t. from_number u ⊞ t) (from_number_mul c x))
      ∙ responded_lem g1 (from_number u) (from_number c) (from_number x) alpha r p q
      ∙ ap (λ t. from_number u ⊛ p ⊕ alpha ⊛ q ⊕ from_number c ⊛ t) (sym opens)

  rist_side :
      (u c x : ℕ) (alpha r : dalek.Scalar) (p q w : dalek.Point)
      → u < 2 ^ 385
      → c < 2 ^ 385
      → u + c * x < 2 ^ 385
      → w ≡ dalek.◌⊕◌ (dalek.◌⊛◌ (dalek.embed x) p) (dalek.◌⊛◌ r q)
      → dalek.◌⊕◌
          (dalek.◌⊛◌ (biguint_to_ristretto_scalar bls dalek (u + c * x)) p)
          (dalek.◌⊛◌ (dalek.◌⊞◌ alpha (dalek.◌⊠◌ (biguint_to_ristretto_scalar bls dalek c) r)) q)
        ≡ dalek.◌⊕◌
            (dalek.◌⊕◌ (dalek.◌⊛◌ (biguint_to_ristretto_scalar bls dalek u) p) (dalek.◌⊛◌ alpha q))
            (dalek.◌⊛◌ (biguint_to_ristretto_scalar bls dalek c) w)
  rist_side u c x alpha r p q w hu hc hz opens =
      rw
        (
          opens,
          rist_lem (u + c * x) hz,
          rist_lem u hu,
          rist_lem c hc,
          dalek.embed_add u (c * x),
          dalek.embed_mul c x,
        )
        (responded_lem dalek.curve (dalek.embed u) (dalek.embed c) (dalek.embed x) alpha r p q)

  -- A secret of 31 bytes that opens the BLS and the Ristretto commitment of a valid statement: with
  -- 48 bytes of masking randomness the prover makes a proof, and the verifier accepts it in the same
  -- context.
  pub same_x_verify-same_x_prove :
      (d : SameXDraws bls dalek) (ctx x : List ℕ) (r_bls : Scalar) (r_ristretto : dalek.Scalar)
      (st : SameXStatement bls dalek)
      → length d.u_bytes ≡ 48
      → All (λ b. b < 256) d.u_bytes
      → length x ≡ 31
      → All (λ b. b < 256) x
      → validate_statement bls dalek st ≡ done tt
      → st.bls_x_commitment
        ≡ from_number (from_le_bytes x) ⊛ st.bls_x_base ⊕ r_bls ⊛ st.bls_blind_base
      → st.ristretto_x_commitment
        ≡ dalek.◌⊕◌
            (dalek.◌⊛◌ (dalek.embed (from_le_bytes x)) st.ristretto_x_base)
            (dalek.◌⊛◌ r_ristretto st.ristretto_blind_base)
      → (proof : SameXProof bls dalek) × (prove bls dalek d ctx x r_bls r_ristretto st ≡ done proof)
        × (verify bls dalek proof ctx st ≡ done tt)
  unfolding prove verify
  same_x_verify-same_x_prove d ctx x r_bls r_ristretto st ulen uall xlen xall valid opens_bls
        opens_rist =
      let u = from_le_bytes d.u_bytes in
      let hu : u < 2 ^ 384 = rw ulen at (from_le_bytes-lt d.u_bytes uall) in
      let hx : from_le_bytes x < 2 ^ 248 = rw xlen at (from_le_bytes-lt x xall) in
      let t_bls = from_number u ⊛ st.bls_x_base ⊕ d.alpha_bls ⊛ st.bls_blind_base in
      let t_rist =
        dalek.◌⊕◌ (dalek.◌⊛◌ (biguint_to_ristretto_scalar bls dalek u) st.ristretto_x_base)
          (dalek.◌⊛◌ d.alpha_rist st.ristretto_blind_base) in
      let c = from_le_bytes (challenge bls dalek ctx st t_bls t_rist) in
      let hc : c < 2 ^ 128 = challenge_small ctx st t_bls t_rist in
      let z = u + c * from_le_bytes x in
      let hz : z < 2 ^ 385 = response_bound u c (from_le_bytes x) hu hc hx in
      let bound : leb (2 ^ 385) z ≡ false = ground arith in
      let value = from_le_bytes-digits 63 z (omega arith) in
      let on_bls = point_eq_self g1 _ _ (
        bls_side u c (from_le_bytes x) d.alpha_bls r_bls st.bls_x_base st.bls_blind_base
          st.bls_x_commitment opens_bls) in
      let on_rist = point_eq_self dalek.curve _ _ (
        rist_side u c (from_le_bytes x) d.alpha_rist r_ristretto st.ristretto_x_base
          st.ristretto_blind_base st.ristretto_x_commitment (omega arith) (omega arith) hz
          opens_rist) in
      (
        record {
          t_bls = t_bls;
          t_ristretto = t_rist;
          c_bytes = challenge bls dalek ctx st t_bls t_rist;
          z_x_le = digits 63 z;
          z_r_bls = d.alpha_bls ⊞ from_number c ⊠ r_bls;
          z_r_ristretto =
              dalek.◌⊞◌ d.alpha_rist
                (dalek.◌⊠◌ (biguint_to_ristretto_scalar bls dalek c) r_ristretto);
        },
        rw (valid, bls_lem u, bls_lem c, bound) refl,
        rw
            (
              valid,
              digits-canonical z hz,
              bytes_eq_refl (challenge bls dalek ctx st t_bls t_rist),
              value,
              bound,
              bls_lem z,
              bls_lem c,
              on_bls,
              on_rist,
            )
            refl,
      )
