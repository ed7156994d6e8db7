-- ===== src/Spend/Bridges.antt =====
-- src/spend.rs and src/epoch_refresh.rs: the bridges of a commitment to the token, the pairing
-- equation, and the message under an issued token.
mod Terms
use ebutv.Prelude.{◌≡◌, refl, sym, ap, ◌∙◌, [], ◌∷◌}
use ebutv.Prelude.Lists.{bytes_eq}
use ebutv.Curve.{Curve}
use ebutv.Curve.Laws.{⊖-⊕_self}
use ebutv.Curve.Combination.{
  expand, scale, collect, put, cancels, same_sign, flip, insert, multiply,
}
use ebutv.Curve.Combination.Sound.{agrees, vanishes}
use Terms.{
  value_left, value_right, shifted_left, shifted_right, pairing_left, issued_left, issued_right,
}

module _ (curve : Curve) where
  open curve use {
    Point, Scalar, identity, ◌⊕◌, ◌⊖◌, neg, ◌⊛◌, ◌⊞◌, ◌⊟◌, ◌⊠◌, negate, scalar_one, ⊖_lem,
    identity-⊕, one-⊛,
  }

  -- The responses for a value and its blinding, against the commitment to both.
  pub bridge_lem :
      (c r1 rho_r1 x r rho_x rho : Scalar) (p q : Point)
      → (rho_x ⊞ c ⊠ (x ⊠ r1)) ⊛ p ⊕ (rho ⊞ c ⊠ (r ⊠ r1)) ⊛ q ⊖ (identity ⊕ rho_x ⊛ p ⊕ rho ⊛ q)
        ≡ (rho_r1 ⊞ c ⊠ r1) ⊛ (x ⊛ p ⊕ r ⊛ q) ⊖ rho_r1 ⊛ (x ⊛ p ⊕ r ⊛ q)
  unfolding value_left value_right expand scale collect put cancels same_sign flip insert multiply
      bytes_eq
  bridge_lem c r1 rho_r1 x r rho_x rho p q =
      agrees curve (c ∷ r1 ∷ rho_r1 ∷ x ∷ r ∷ rho_x ∷ rho ∷ []) (p ∷ q ∷ []) value_left value_right
        refl

  pub shifted_bridge_lem :
      (c r1 rho_r1 x r rho_x rho now : Scalar) (p q : Point)
      → (rho_x ⊞ c ⊠ ((x ⊞ now) ⊠ r1))
          ⊛ p
          ⊕ (rho ⊞ c ⊠ (r ⊠ r1))
          ⊛ q
          ⊖ (identity ⊕ rho_x ⊛ p ⊕ rho ⊛ q)
        ≡ (rho_r1 ⊞ c ⊠ r1) ⊛ (x ⊛ p ⊕ r ⊛ q ⊕ now ⊛ p) ⊖ rho_r1 ⊛ (x ⊛ p ⊕ r ⊛ q ⊕ now ⊛ p)
  unfolding shifted_left shifted_right expand scale collect put cancels same_sign flip insert
      multiply bytes_eq
  shifted_bridge_lem c r1 rho_r1 x r rho_x rho now p q =
      agrees curve (c ∷ r1 ∷ rho_r1 ∷ x ∷ r ∷ rho_x ∷ rho ∷ now ∷ []) (p ∷ q ∷ []) shifted_left
        shifted_right refl

  -- A randomised signature: the key times A' is what the prover sends as its other half.
  pub pairing_equation :
      (sk e r1 : Scalar) (a msg : Point)
      → (e ⊞ sk) ⊛ a ≡ msg
      → sk ⊛ (r1 ⊛ a) ⊕ neg (negate e ⊛ (r1 ⊛ a) ⊕ r1 ⊛ msg) ≡ identity
  unfolding pairing_left expand scale collect put cancels same_sign flip insert multiply bytes_eq
  pairing_equation sk e r1 a msg h =
      ap (λ t. sk ⊛ (r1 ⊛ a) ⊕ neg (negate e ⊛ (r1 ⊛ a) ⊕ r1 ⊛ t)) (sym h)
      ∙ sym (⊖_lem (sk ⊛ (r1 ⊛ a)) (negate e ⊛ (r1 ⊛ a) ⊕ r1 ⊛ ((e ⊞ sk) ⊛ a)))
      ∙ vanishes curve (sk ∷ e ∷ r1 ∷ []) (a ∷ []) pairing_left refl

  -- What the server signs for a commitment to five values is the message on them.
  pub issued_lem :
      (k_sub k m t e_max r s : Scalar) (g h0 h1 h2 h3 h4 h5 : Point)
      → identity
          ⊕ scalar_one
          ⊛ g
          ⊕ scalar_one
          ⊛ (k_sub ⊛ h1 ⊕ k ⊛ h2 ⊕ m ⊛ h3 ⊕ t ⊛ h4 ⊕ (e_max ⊛ h5 ⊕ r ⊛ h0))
          ⊕ s
          ⊛ h0
        ≡ g ⊕ (r ⊞ s) ⊛ h0 ⊕ k_sub ⊛ h1 ⊕ k ⊛ h2 ⊕ m ⊛ h3 ⊕ t ⊛ h4 ⊕ e_max ⊛ h5
  unfolding issued_left issued_right expand scale collect put cancels same_sign flip insert multiply
      bytes_eq
  issued_lem k_sub k m t e_max r s g h0 h1 h2 h3 h4 h5 =
      agrees curve (k_sub ∷ k ∷ m ∷ t ∷ e_max ∷ r ∷ s ∷ []) (g ∷ h0 ∷ h1 ∷ h2 ∷ h3 ∷ h4 ∷ h5 ∷ [])
        issued_left issued_right refl
