-- ===== src/V3/Gap/Complete.antt =====
-- src/v3_zkp/gap.rs: whoever holds a pair of points in the relation of a signature is accepted; the
-- identity twice is such a pair.
use ebutv.Prelude.{
  ℕ, ◌≡◌, refl, sym, ap, ◌∙◌, Bool, true, false, not, [], ◌∷◌, ==_refl, if◌then◌else◌,
}
use mathlib.Core.Path.{ap₂}
use ebutv.Prelude.Lists.{bytes_eq}
use ebutv.Curve.{Curve}
use ebutv.Curve.Laws.{point_eq_self, ⊛_swap}
use ebutv.Curve.Combination.{
  expand, scale, collect, put, cancels, same_sign, flip, insert, multiply,
}
use ebutv.Curve.Combination.Sound.{agrees}
use ebutv.Bls.{Bls}
use ebutv.Dalek.{Dalek}
use ebutv.V3.{biguint_to_bls_scalar}
use ebutv.V3.Gap.{
  Pairing, ServerSecretKey, GapDraws, public_key, exponent, prove_with_context_and_bases,
  verify_with_context_and_bases,
}
use ebutv.V3.Gap.Terms.{commitment, recomputed, blinded, answered}

accept :
    (b1 b2 b3 b4 : Bool)
    → b1 ≡ true
    → b2 ≡ true
    → b3 ≡ true
    → b4 ≡ true
    → (if not b1 then false else (if not b2 then false else (if not b3 then false else b4))) ≡ true
accept b1 b2 b3 b4 h1 h2 h3 h4 = rw (h1, h2, h3, h4) refl

module _ (curve : Curve) where
  open curve use {Point, Scalar, ◌⊕◌, ◌⊖◌, ◌⊛◌, ◌⊞◌, ◌⊠◌}

  recomputed_lem :
      (r c v s b : Scalar) (p q : Point)
      → r ⊛ p ⊕ s ⊛ q ≡ (r ⊞ c ⊠ v) ⊛ p ⊕ (s ⊞ c ⊠ b) ⊛ q ⊖ c ⊛ (v ⊛ p ⊕ b ⊛ q)
  unfolding commitment recomputed expand scale collect put cancels same_sign flip insert multiply
      bytes_eq
  recomputed_lem r c v s b p q =
      agrees curve (r ∷ c ∷ v ∷ s ∷ b ∷ []) (p ∷ q ∷ []) commitment recomputed refl

  answered_lem :
      (x y1 y2 yctx ea eb ctx r_ea r_eb c t : Scalar) (p q : Point)
      → q ≡ (x ⊞ y1 ⊠ ea ⊞ y2 ⊠ eb ⊞ yctx ⊠ ctx) ⊛ p
      → (y1 ⊠ r_ea ⊞ y2 ⊠ r_eb) ⊛ (t ⊛ p)
        ≡ (y1 ⊠ (r_ea ⊞ c ⊠ ea) ⊞ y2 ⊠ (r_eb ⊞ c ⊠ eb) ⊞ (x ⊞ yctx ⊠ ctx) ⊠ c)
          ⊛ (t ⊛ p)
          ⊖ c
          ⊛ (t ⊛ q)
  unfolding blinded answered expand scale collect put cancels same_sign flip insert multiply
      bytes_eq
  answered_lem x y1 y2 yctx ea eb ctx r_ea r_eb c t p q h =
      agrees curve (x ∷ y1 ∷ y2 ∷ yctx ∷ ea ∷ eb ∷ ctx ∷ r_ea ∷ r_eb ∷ c ∷ t ∷ []) (p ∷ []) blinded
        answered refl
      ∙ ap
          (λ u.
            (y1 ⊠ (r_ea ⊞ c ⊠ ea) ⊞ y2 ⊠ (r_eb ⊞ c ⊠ eb) ⊞ (x ⊞ yctx ⊠ ctx) ⊠ c)
            ⊛ (t ⊛ p)
            ⊖ c
            ⊛ (t ⊛ u))
          (sym h)

module _ (bls : Bls) (dalek : Dalek) (pair : Pairing bls) where
  open bls use {
    g1, Point, Scalar, identity, ◌⊕◌, ◌⊖◌, ◌⊛◌, ◌⊞◌, ◌⊠◌, scalar_zero, from_number, g2_multiple,
    generator_g2, zero-⊛,
  }
  open pair use {
    g2_add, g2_scale, pairing, g2_add_lem, g2_scale_lem, pairing_multiple, multi_pairing_lem,
    gt_eq_iff,
  }

  pub ⊛-identity : (a : Scalar) → a ⊛ identity ≡ identity
  ⊛-identity a =
      ap (λ u. a ⊛ u) (sym (zero-⊛ identity))
      ∙ ⊛_swap g1 a scalar_zero identity
      ∙ zero-⊛ (a ⊛ identity)

  -- A pair of points with the relation of a signature on the gap and the context is enough.
  pub gap_verify-gap_prove :
      (sk : ServerSecretKey bls dalek pair) (d : GapDraws bls dalek pair) (ea eb : ℕ)
      (ra rb : Scalar) (sigma1 sigma2 : Point) (t gap_ctx : Scalar) (value_base blind_base : Point)
      → sigma2 ≡ exponent bls dalek pair sk ea eb gap_ctx ⊛ sigma1
      → verify_with_context_and_bases bls dalek pair
          (prove_with_context_and_bases bls dalek pair d ea eb ra rb sigma1 sigma2 t gap_ctx
            (public_key bls dalek pair sk)
            value_base
            blind_base)
          (public_key bls dalek pair sk)
          gap_ctx
          value_base
          blind_base
        ≡ true
  unfolding verify_with_context_and_bases prove_with_context_and_bases public_key exponent
  gap_verify-gap_prove sk d ea eb ra rb sigma1 sigma2 t gap_ctx g h signed =
      let proof =
        prove_with_context_and_bases bls dalek pair d ea eb ra rb sigma1 sigma2 t gap_ctx
          (public_key bls dalek pair sk) g h in
      let c = biguint_to_bls_scalar bls dalek proof.challenge in
      let left : (a b : Scalar)
          → g2_add (g2_scale (g2_multiple sk.y1) a) (g2_scale (g2_multiple sk.y2) b)
            ≡ g2_multiple (sk.y1 ⊠ a ⊞ sk.y2 ⊠ b) =
        λ a b.
          ap₂ g2_add (g2_scale_lem sk.y1 a) (g2_scale_lem sk.y2 b)
          ∙ g2_add_lem (sk.y1 ⊠ a) (sk.y2 ⊠ b) in
      let right : (c : Scalar)
          → g2_scale (g2_add (g2_multiple sk.x) (g2_scale (g2_multiple sk.yctx) gap_ctx)) c
            ≡ g2_multiple ((sk.x ⊞ sk.yctx ⊠ gap_ctx) ⊠ c) =
        λ c.
          ap (λ u. g2_scale u c)
            (ap (g2_add (g2_multiple sk.x)) (g2_scale_lem sk.yctx gap_ctx)
              ∙ g2_add_lem sk.x (sk.yctx ⊠ gap_ctx))
          ∙ g2_scale_lem (sk.x ⊞ sk.yctx ⊠ gap_ctx) c in
      accept _ _ _ _ (==_refl _) (point_eq_self g1 _ _ (recomputed_lem g1 d.r_ea _ _ d.r_ra _ g h))
        (point_eq_self g1 _ _ (recomputed_lem g1 d.r_eb _ _ d.r_rb _ g h))
        ((gt_eq_iff _ _).1 (
          ap (pairing (t ⊛ sigma1)) (left d.r_ea d.r_eb)
          ∙ pairing_multiple (t ⊛ sigma1) _
          ∙ ap (λ u. pairing u generator_g2)
              (answered_lem g1 sk.x sk.y1 sk.y2 sk.yctx (from_number ea) (from_number eb) gap_ctx
                d.r_ea d.r_eb _ t sigma1 sigma2 signed)
          ∙ sym (multi_pairing_lem (t ⊛ sigma1) _ _)
          ∙ ap (λ u. pair.multi_pairing (t ⊛ sigma1) u (c ⊛ (t ⊛ sigma2)) pair.neg_g2)
              (sym (ap₂ g2_add (left _ _) (right _) ∙ g2_add_lem _ _))))

  -- A gap that nobody signed: with the identity in place of both halves of a signature, the proof of
  -- any gap is accepted, for every server key, context, draw and base.
  pub unsigned_gap-verifies :
      (sk : ServerSecretKey bls dalek pair) (d : GapDraws bls dalek pair) (ea eb : ℕ)
      (ra rb t gap_ctx : Scalar) (value_base blind_base : Point)
      → verify_with_context_and_bases bls dalek pair
          (prove_with_context_and_bases bls dalek pair d ea eb ra rb identity identity t gap_ctx
            (public_key bls dalek pair sk)
            value_base
            blind_base)
          (public_key bls dalek pair sk)
          gap_ctx
          value_base
          blind_base
        ≡ true
  unsigned_gap-verifies sk d ea eb ra rb t gap_ctx value_base blind_base =
      gap_verify-gap_prove sk d ea eb ra rb identity identity t gap_ctx value_base blind_base
        (sym (⊛-identity (exponent bls dalek pair sk ea eb gap_ctx)))
