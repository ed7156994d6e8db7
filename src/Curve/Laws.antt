-- ===== src/Curve/Laws.antt =====
-- Consequences of the group and module laws.
use mathlib.Core.Path.{◌≡◌, sym, ◌∙◌, ap, ap₂, ◌≡⟨◌⟩◌, ◌∎}
use mathlib.Core.Logic.{◌≢◌, inl, inr}
use mathlib.Core.Bool.{true, false}
use ebutv.Prelude.{Bool-cases}
use ebutv.Curve.{Curve}

module _ (c : Curve) where
  open c use {
    point_eq, point_eq_iff, Point, Scalar, identity, ◌⊕◌, ◌⊖◌, neg, ◌⊛◌, ◌⊞◌, ◌⊟◌, ◌⊠◌, ⊕_assoc,
    ⊕_comm, identity-⊕, ⊕-neg, ⊖_lem, ⊞-⊛, ⊟-⊛, ⊠-⊛, ⊛-⊕, ⊠_comm, zero-⊛,
  }

  pub ⊕-identity : (p : Point) → p ⊕ identity ≡ p
  ⊕-identity p = ⊕_comm p identity ∙ identity-⊕ p

  -- (p + q) + (r + s) = (p + r) + (q + s)
  pub ⊕_medial : (p q r s : Point) → p ⊕ q ⊕ (r ⊕ s) ≡ p ⊕ r ⊕ (q ⊕ s)
  ⊕_medial p q r s =
      p ⊕ q ⊕ (r ⊕ s)
      ≡⟨ ⊕_assoc p q (r ⊕ s) ⟩ p ⊕ (q ⊕ (r ⊕ s))
      ≡⟨ ap (λ t. p ⊕ t) (sym (⊕_assoc q r s)) ⟩ p ⊕ (q ⊕ r ⊕ s)
      ≡⟨ ap (λ t. p ⊕ (t ⊕ s)) (⊕_comm q r) ⟩ p ⊕ (r ⊕ q ⊕ s)
      ≡⟨ ap (λ t. p ⊕ t) (⊕_assoc r q s) ⟩ p ⊕ (r ⊕ (q ⊕ s))
      ≡⟨ sym (⊕_assoc p r (q ⊕ s)) ⟩ p ⊕ r ⊕ (q ⊕ s) ∎

  pub ⊕-⊖_self : (p q : Point) → p ⊕ q ⊖ q ≡ p
  ⊕-⊖_self p q = ⊖_lem (p ⊕ q) q ∙ ⊕_assoc p q (neg q) ∙ ap (λ t. p ⊕ t) (⊕-neg q) ∙ ⊕-identity p

  pub ⊖-⊕_self : (p q : Point) → p ⊖ q ⊕ q ≡ p
  ⊖-⊕_self p q =
      ap (λ t. t ⊕ q) (⊖_lem p q)
      ∙ ⊕_assoc p (neg q) q
      ∙ ap (λ t. p ⊕ t) (⊕_comm (neg q) q ∙ ⊕-neg q)
      ∙ ⊕-identity p

  -- A difference is what makes up the sum.
  pub ⊖_unique : (p q r : Point) → p ≡ r ⊕ q → p ⊖ q ≡ r
  ⊖_unique p q r h = ap (λ t. t ⊖ q) h ∙ ⊕-⊖_self r q

  -- (m + p) - (m + q) = p - q
  pub ⊖_common : (m p q : Point) → m ⊕ p ⊖ (m ⊕ q) ≡ p ⊖ q
  ⊖_common m p q = ⊖_unique (m ⊕ p) (m ⊕ q) (p ⊖ q) (
      ap (λ t. m ⊕ t) (sym (⊖-⊕_self p q))
      ∙ ⊕_comm m (p ⊖ q ⊕ q)
      ∙ ⊕_assoc (p ⊖ q) q m
      ∙ ap (λ t. p ⊖ q ⊕ t) (⊕_comm q m))

  pub ⊛-⊖ : (a : Scalar) (p q : Point) → a ⊛ (p ⊖ q) ≡ a ⊛ p ⊖ a ⊛ q
  ⊛-⊖ a p q = sym (
      ⊖_unique (a ⊛ p) (a ⊛ q) (a ⊛ (p ⊖ q))
        (ap (λ t. a ⊛ t) (sym (⊖-⊕_self p q)) ∙ ⊛-⊕ a (p ⊖ q) q))

  -- (p - q) + (r - s) = (p + r) - (q + s)
  pub ⊖-⊕_medial : (p q r s : Point) → p ⊖ q ⊕ (r ⊖ s) ≡ p ⊕ r ⊖ (q ⊕ s)
  ⊖-⊕_medial p q r s = sym (
      ⊖_unique (p ⊕ r) (q ⊕ s) (p ⊖ q ⊕ (r ⊖ s)) (
        ap₂ (λ t u. t ⊕ u) (sym (⊖-⊕_self p q)) (sym (⊖-⊕_self r s))
        ∙ ⊕_medial (p ⊖ q) q (r ⊖ s) s))

  -- a(bP) = b(aP)
  pub ⊛_swap : (a b : Scalar) (p : Point) → a ⊛ (b ⊛ p) ≡ b ⊛ (a ⊛ p)
  ⊛_swap a b p = sym (⊠-⊛ a b p) ∙ ap (λ t. t ⊛ p) (⊠_comm a b) ∙ ⊠-⊛ b a p

  -- The response of a Schnorr proof against its commitment: (k + e x)P = kP + e(xP).
  pub response_lem : (k e x : Scalar) (p : Point) → (k ⊞ e ⊠ x) ⊛ p ≡ k ⊛ p ⊕ e ⊛ (x ⊛ p)
  response_lem k e x p = ⊞-⊛ k (e ⊠ x) p ∙ ap (λ t. k ⊛ p ⊕ t) (⊠-⊛ e x p)

  -- (p + q) + (r - s) = (p + r) + (q - s)
  pub ⊕-⊖_medial : (p q r s : Point) → p ⊕ q ⊕ (r ⊖ s) ≡ p ⊕ r ⊕ (q ⊖ s)
  ⊕-⊖_medial p q r s =
      ap (λ t. p ⊕ q ⊕ t) (⊖_lem r s)
      ∙ ⊕_medial p q r (neg s)
      ∙ ap (λ t. p ⊕ r ⊕ t) (sym (⊖_lem q s))

  -- The difference form of a response: (k - e x)P = kP - e(xP).
  pub minus_response_lem : (k e x : Scalar) (p : Point) → (k ⊟ e ⊠ x) ⊛ p ≡ k ⊛ p ⊖ e ⊛ (x ⊛ p)
  minus_response_lem k e x p = ⊟-⊛ k (e ⊠ x) p ∙ ap (λ t. k ⊛ p ⊖ t) (⊠-⊛ e x p)

  -- A response over two bases.
  pub response_pair_lem :
      (k l e x y : Scalar) (p q : Point)
      → (k ⊞ e ⊠ x) ⊛ p ⊕ (l ⊞ e ⊠ y) ⊛ q ≡ k ⊛ p ⊕ l ⊛ q ⊕ e ⊛ (x ⊛ p ⊕ y ⊛ q)
  response_pair_lem k l e x y p q =
      ap₂ (λ t u. t ⊕ u) (response_lem k e x p) (response_lem l e y q)
      ∙ ⊕_medial (k ⊛ p) (e ⊛ (x ⊛ p)) (l ⊛ q) (e ⊛ (y ⊛ q))
      ∙ ap (λ t. k ⊛ p ⊕ l ⊛ q ⊕ t) (sym (⊛-⊕ e (x ⊛ p) (y ⊛ q)))

  -- One more weighted difference in a sum over two bases.
  pub weighted_difference_lem :
      (a m rho x s : Scalar) (d diff p q : Point)
      → d ≡ a ⊛ p ⊕ m ⊛ q
      → diff ≡ x ⊛ p ⊖ s ⊛ q
      → d ⊕ rho ⊛ diff ≡ (a ⊞ rho ⊠ x) ⊛ p ⊕ (m ⊟ rho ⊠ s) ⊛ q
  weighted_difference_lem a m rho x s d diff p q e f =
      ap₂ (λ t u. t ⊕ rho ⊛ u) e f
      ∙ ap (λ t. a ⊛ p ⊕ m ⊛ q ⊕ t) (⊛-⊖ rho (x ⊛ p) (s ⊛ q))
      ∙ ⊕-⊖_medial (a ⊛ p) (m ⊛ q) (rho ⊛ (x ⊛ p)) (rho ⊛ (s ⊛ q))
      ∙ ap₂ (λ t u. t ⊕ u) (sym (response_lem a rho x p)) (sym (minus_response_lem m rho s q))

  pub point_eq_self : (p q : Point) → p ≡ q → point_eq p q ≡ true
  point_eq_self p q e = (point_eq_iff p q).1 e

  pub point_eq_ne : (p q : Point) → p ≢ q → point_eq p q ≡ false
  point_eq_ne p q n = elim (Bool-cases (point_eq p q)) [
    | inl same ↦ absurd (n ((point_eq_iff p q).0 same))
    | inr differ ↦ differ
  ]

  -- The two equations of a verifier, for a statement with a known witness.
  pub schnorr_lem :
      (k e x : Scalar) (base y : Point) → y ≡ x ⊛ base → (k ⊞ e ⊠ x) ⊛ base ≡ k ⊛ base ⊕ e ⊛ y
  schnorr_lem k e x base y h = response_lem k e x base ∙ ap (λ t. k ⊛ base ⊕ e ⊛ t) (sym h)

  pub schnorr_pair_lem :
      (k l e x z : Scalar) (p q y : Point)
      → y ≡ x ⊛ p ⊕ z ⊛ q
      → (k ⊞ e ⊠ x) ⊛ p ⊕ (l ⊞ e ⊠ z) ⊛ q ≡ k ⊛ p ⊕ l ⊛ q ⊕ e ⊛ y
  schnorr_pair_lem k l e x z p q y h =
      response_pair_lem k l e x z p q ∙ ap (λ t. k ⊛ p ⊕ l ⊛ q ⊕ e ⊛ t) (sym h)
