-- ===== src/FileBinding/Private/Batch.antt =====
-- src/file_binding.rs: HiddenPlaintextBatchProof, on blocks that open under their witnesses.
use ebutv.Prelude.{
  ℕ, zero, suc, ◌+◌, ◌<◌, ◌≡◌, refl, sym, ap, ◌∙◌, ◌≢◌, Bool, true, false, not, List, [], ◌∷◌,
  arith, if◌then◌else◌, length, is_empty,
}
use ebutv.Curve.{Ristretto}
use ebutv.Curve.Laws.{
  point_eq_ne, point_eq_self, response_lem, schnorr_lem, schnorr_pair_lem, weighted_difference_lem,
}
use ebutv.FileBinding.Private.{
  PrivateBlockProof, PrivateFileWitnessBlock, private_plaintext_h,
  derive_private_batch_coefficients, aggregate_loop, aggregate_private_statement, coefficients_from,
  witness_loop, prove, verify,
}
use mathlib.Core.Path.{ap₂}

-- The ladder of checks.
pub accepted :
    (b1 b2 b3 b4 b5 : Bool)
    → b1 ≡ false
    → b2 ≡ false
    → b3 ≡ false
    → b4 ≡ true
    → b5 ≡ true
    → (if b1
        then false
        else (if b2 then false else (if b3 then false else (if not b4 then false else b5))))
      ≡ true
accepted b1 b2 b3 b4 b5 h1 h2 h3 h4 h5 = ground arith

pub occupied : {A : Type 0} (xs : List A) → 0 < length xs → is_empty xs ≡ false
occupied [] h = absurd (omega arith)
occupied (x ∷ xs) h = refl

module _ (sha512 : List ℕ → List ℕ) (r : Ristretto) (pk : r.Point) where
  open r use {
    Point, Scalar, identity, ◌⊕◌, ◌⊖◌, ◌⊛◌, ◌⊞◌, ◌⊟◌, ◌⊠◌, scalar_zero, point_eq, point_eq_iff,
    basepoint, identity-⊕, zero-⊛, ⊞-⊛, ⊟-⊛, ⊠-⊛, ⊛-⊕, curve,
  }

  h : Point
  h = private_plaintext_h sha512 r

  -- What the block says of its witness: its first point is rG, and its second less its commitment is rX - sH.
  pub record Opens (b : PrivateBlockProof Point) (w : PrivateFileWitnessBlock Scalar) : Type 0 where
    pub randomness : b.block.ciphertext.c1 ≡ w.encryption_randomness ⊛ basepoint
    pub difference :
        b.block.ciphertext.c2 ⊖ b.block.plaintext_commitment
        ≡ w.encryption_randomness ⊛ pk ⊖ w.commitment_blinding ⊛ private_plaintext_h sha512 r

  abbrev pub AllOpen :
      List (PrivateBlockProof Point) → List (PrivateFileWitnessBlock Scalar) → Type 0
  AllOpen [] [] = Unit
  AllOpen [] (w ∷ ws) = ⊥
  AllOpen (b ∷ bs) [] = ⊥
  AllOpen (b ∷ bs) (w ∷ ws) = Opens b w × AllOpen bs ws

  -- The aggregated points stand to the aggregated scalars as the blocks to their witnesses.
  abbrev Aggregated : Point × Point → Scalar × Scalar → Type 0
  Aggregated (c1_bar, d_bar) (r_bar, ms) =
      (c1_bar ≡ r_bar ⊛ basepoint) × (d_bar ≡ r_bar ⊛ pk ⊕ ms ⊛ private_plaintext_h sha512 r)

  step_r :
      (p : Point) (a rho x : Scalar) (q base : Point)
      → p ≡ a ⊛ base
      → q ≡ x ⊛ base
      → p ⊕ rho ⊛ q ≡ (a ⊞ rho ⊠ x) ⊛ base
  step_r p a rho x q base e f = ap₂ (λ t u. t ⊕ rho ⊛ u) e f ∙ sym (response_lem curve a rho x base)

  aggregate_step :
      (b : PrivateBlockProof Point) (w : PrivateFileWitnessBlock Scalar) (rho a m : Scalar)
      (p d : Point)
      → Opens b w
      → Aggregated (p, d) (a, m)
      → Aggregated
          (
            p ⊕ rho ⊛ b.block.ciphertext.c1,
            d ⊕ rho ⊛ (b.block.ciphertext.c2 ⊖ b.block.plaintext_commitment),
          )
          (a ⊞ rho ⊠ w.encryption_randomness, m ⊟ rho ⊠ w.commitment_blinding)
  aggregate_step b w rho a m p d o (e, f) = (
    step_r p a rho _ _ basepoint e o.randomness,
    weighted_difference_lem curve a m rho _ _ d _ pk _ f o.difference,
  )

  aggregate_loop-Aggregated :
      (blocks : List (PrivateBlockProof Point)) (ws : List (PrivateFileWitnessBlock Scalar))
      (coeffs : List Scalar) (p d : Point) (a m : Scalar)
      → AllOpen blocks ws
      → length coeffs ≡ length blocks
      → Aggregated (p, d) (a, m)
      → Aggregated
          (aggregate_loop sha512 r blocks coeffs p d)
          (witness_loop sha512 r coeffs blocks ws a m)
  unfolding aggregate_loop witness_loop
  aggregate_loop-Aggregated [] [] [] p d a m o e g = g
  aggregate_loop-Aggregated [] [] (rho ∷ cs) p d a m o e g = g
  aggregate_loop-Aggregated [] (w ∷ ws) cs p d a m o e g = absurd o
  aggregate_loop-Aggregated (b ∷ bs) [] cs p d a m o e g = absurd o
  aggregate_loop-Aggregated (b ∷ bs) (w ∷ ws) [] p d a m o e g = absurd (omega arith)
  aggregate_loop-Aggregated (b ∷ bs) (w ∷ ws) (rho ∷ cs) p d a m o e g =
      aggregate_loop-Aggregated bs ws cs _ _ _ _ o.1 (omega arith)
        (aggregate_step b w rho a m p d o.0 g)

  length-coefficients_from :
      (n i : ℕ) (blocks : List (PrivateBlockProof Point)) (context : List ℕ)
      → length (coefficients_from sha512 r n i blocks context pk) ≡ n
  unfolding coefficients_from
  length-coefficients_from zero i blocks context = refl
  length-coefficients_from (suc n) i blocks context =
      ap suc (length-coefficients_from n (i + 1) blocks context)

  -- Blocks that open are accepted, for every draw of the prover, if there is one at least and
  -- neither the file key nor the commitment base is the identity.
  pub verify-prove :
      (alpha_r alpha_s : Scalar) (context : List ℕ) (blocks : List (PrivateBlockProof Point))
      (ws : List (PrivateFileWitnessBlock Scalar))
      → pk ≢ identity
      → private_plaintext_h sha512 r ≢ identity
      → 0 < length blocks
      → AllOpen blocks ws
      → verify sha512 r (prove sha512 r alpha_r alpha_s context pk blocks ws) context pk blocks
        ≡ true
  unfolding verify prove aggregate_private_statement derive_private_batch_coefficients
  verify-prove ar as' context blocks ws key base pos o =
      let coeffs = coefficients_from sha512 r (length blocks) 0 blocks context pk in
      let (e, f) =
        aggregate_loop-Aggregated blocks ws coeffs identity identity scalar_zero scalar_zero o
          (length-coefficients_from (length blocks) 0 blocks context)
          (
            sym (zero-⊛ basepoint),
            sym (ap₂ (λ t u. t ⊕ u) (zero-⊛ pk) (zero-⊛ _) ∙ identity-⊕ identity),
          ) in
      accepted (is_empty blocks) _ _ _ _ (occupied blocks pos) (point_eq_ne curve pk identity key)
        (point_eq_ne curve _ identity base)
        (point_eq_self curve _ _ (schnorr_lem curve ar _ _ basepoint _ e))
        (point_eq_self curve _ _ (schnorr_pair_lem curve ar as' _ _ _ pk _ _ f))
