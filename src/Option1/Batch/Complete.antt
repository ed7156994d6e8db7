-- ===== src/Option1/Batch/Complete.antt =====
-- src/option1_file_binding.rs: Option1BatchProof, on blocks that open under their witnesses.
use ebutv.Prelude.{
  ℕ, suc, ◌+◌, ◌<◌, ◌≡◌, refl, sym, ap, ◌∙◌, ◌≢◌, Bool, true, false, ◌||◌, not, List, [], ◌∷◌,
  arith, if◌then◌else◌, length, is_empty,
}
use mathlib.Core.Path.{ap₂}
use ebutv.Curve.{Ristretto}
use ebutv.Curve.Laws.{
  point_eq_ne, point_eq_self, response_lem, schnorr_lem, schnorr_pair_lem, weighted_difference_lem,
  ⊕-identity,
}
use ebutv.FileBinding.Private.Batch.{occupied}
use ebutv.Option1.Blocks.{
  Option1FileCommitment, Option1WitnessBlock, Option1BlockProof, option1_batch_coefficients,
  rows_from, row_from,
}
use ebutv.Option1.Batch.{
  any_bad_shape, row_loop, statement_loop, aggregate_statement, blinding_loop, witnesses_loop,
  prove, verify,
}

checked :
    (b1 b2 b3 b4 b5 b6 b7 : Bool)
    → b1 ≡ false
    → b2 ≡ false
    → b3 ≡ false
    → b4 ≡ false
    → b5 ≡ false
    → b6 ≡ true
    → b7 ≡ true
    → (if (b1 || b2) || (b3 || b4)
        then false
        else (if b5 then false else (if not b6 then false else b7)))
      ≡ true
checked b1 b2 b3 b4 b5 b6 b7 h1 h2 h3 h4 h5 h6 h7 = rw (h1, h2, h3, h4, h5, h6, h7) refl

module _ (sha512 : List ℕ → List ℕ) (r : Ristretto) where
  open r use {
    Point, Scalar, identity, ◌⊕◌, ◌⊖◌, ◌⊛◌, ◌⊞◌, ◌⊟◌, ◌⊠◌, scalar_zero, point_eq, curve, identity-⊕,
    zero-⊛, ⊞-⊛, ⊠-⊛, ⊕_assoc,
  }

  module _ (base key h : Point) where
    -- Each point of a block differs from its commitment by the block's mask less the blinding.
    abbrev pub PointsOpen : Scalar → List Point → List Point → List Scalar → Type 0
    PointsOpen rnd [] [] [] = Unit
    PointsOpen rnd (c2 ∷ c2s) (k ∷ ks) (s ∷ ss) =
        (c2 ⊖ k ≡ rnd ⊛ key ⊖ s ⊛ h) × PointsOpen rnd c2s ks ss
    PointsOpen rnd _ _ _ = ⊥

    pub record Opens (b : Option1BlockProof Point) (w : Option1WitnessBlock Scalar) : Type 0 where
      pub randomness : b.block.c1 ≡ w.encryption_randomness ⊛ base
      pub points :
          PointsOpen w.encryption_randomness b.block.c2_points b.block.plaintext_commitments
            w.commitment_blindings

    abbrev pub AllOpen : List (Option1BlockProof Point) → List (Option1WitnessBlock Scalar) → Type 0
    AllOpen [] [] = Unit
    AllOpen [] (w ∷ ws) = ⊥
    AllOpen (b ∷ bs) [] = ⊥
    AllOpen (b ∷ bs) (w ∷ ws) = Opens b w × AllOpen bs ws

    one_more :
        (a rho_sum rho x : Scalar)
        → (a ⊞ rho_sum ⊠ x ⊞ rho ⊠ x) ⊛ key ≡ (a ⊞ (rho_sum ⊞ rho) ⊠ x) ⊛ key
    one_more a rho_sum rho x =
        response_lem curve (a ⊞ rho_sum ⊠ x) rho x key
        ∙ ap (λ t. t ⊕ rho ⊛ (x ⊛ key)) (response_lem curve a rho_sum x key)
        ∙ ⊕_assoc (a ⊛ key) (rho_sum ⊛ (x ⊛ key)) (rho ⊛ (x ⊛ key))
        ∙ ap (λ t. a ⊛ key ⊕ t) (sym (⊞-⊛ rho_sum rho (x ⊛ key)))
        ∙ sym (response_lem curve a (rho_sum ⊞ rho) x key)

    -- The inner loops, on one block with mask `x`: `a` is the sum over the blocks before it.
    abbrev pub RowDone : Scalar → Scalar → Scalar × Point → Scalar × Scalar → Type 0
    RowDone a x (rho_sum, d) (rho_sum', m) =
        (rho_sum ≡ rho_sum') × (d ≡ (a ⊞ rho_sum ⊠ x) ⊛ key ⊕ m ⊛ h)

    pub row_loop_lem :
        (a x : Scalar) (row : List Scalar) (c2s ks : List Point) (ss : List Scalar)
        (rho_sum m : Scalar) (d : Point)
        → length row ≡ length c2s
        → PointsOpen x c2s ks ss
        → d ≡ (a ⊞ rho_sum ⊠ x) ⊛ key ⊕ m ⊛ h
        → RowDone a x
            (row_loop sha512 r row c2s ks rho_sum d)
            (blinding_loop sha512 r row ss rho_sum m)
    unfolding row_loop blinding_loop
    row_loop_lem a x [] [] [] [] rho_sum m d len o e = (refl, e)
    row_loop_lem a x (rho ∷ row) [] ks ss rho_sum m d len o e = absurd (omega arith)
    row_loop_lem a x [] (c2 ∷ c2s) ks ss rho_sum m d len o e = absurd (omega arith)
    row_loop_lem a x [] [] [] (s ∷ ss) rho_sum m d len o e = absurd o
    row_loop_lem a x [] [] (k ∷ ks) ss rho_sum m d len o e = absurd o
    row_loop_lem a x (rho ∷ row) (c2 ∷ c2s) [] ss rho_sum m d len o e = absurd o
    row_loop_lem a x (rho ∷ row) (c2 ∷ c2s) (k ∷ ks) [] rho_sum m d len o e = absurd o
    row_loop_lem a x (rho ∷ row) (c2 ∷ c2s) (k ∷ ks) (s ∷ ss) rho_sum m d len o e =
        row_loop_lem a x row c2s ks ss (rho_sum ⊞ rho) (m ⊟ rho ⊠ s) (d ⊕ rho ⊛ (c2 ⊖ k))
          (omega arith) o.1
          (weighted_difference_lem curve (a ⊞ rho_sum ⊠ x) m rho x s d (c2 ⊖ k) key h e o.0
            ∙ ap (λ t. t ⊕ (m ⊟ rho ⊠ s) ⊛ h) (one_more a rho_sum rho x))

    abbrev Aggregated : Point × Point → Scalar × Scalar → Type 0
    Aggregated (c1_bar, d_bar) (r_bar, ms) =
        (c1_bar ≡ r_bar ⊛ base) × (d_bar ≡ r_bar ⊛ key ⊕ ms ⊛ h)

    length-row_from :
        (digest : List ℕ) (bi j : ℕ) (points : List Point)
        → length (row_from sha512 r digest bi j points) ≡ length points
    unfolding row_from
    length-row_from digest bi j [] = refl
    length-row_from digest bi j (p ∷ points) = ap suc (length-row_from digest bi (j + 1) points)

    pub nothing : (a x : Scalar) → a ⊛ key ≡ (a ⊞ scalar_zero ⊠ x) ⊛ key
    nothing a x = sym (
        response_lem curve a scalar_zero x key
        ∙ ap (λ t. a ⊛ key ⊕ t) (zero-⊛ (x ⊛ key))
        ∙ ⊕-identity curve (a ⊛ key))

    statement_loop_lem :
        (digest : List ℕ) (bi : ℕ) (blocks : List (Option1BlockProof Point))
        (ws : List (Option1WitnessBlock Scalar)) (c1 d : Point) (a m : Scalar)
        → AllOpen blocks ws
        → Aggregated (c1, d) (a, m)
        → Aggregated
            (statement_loop sha512 r blocks (rows_from sha512 r digest bi blocks) c1 d)
            (witnesses_loop sha512 r (rows_from sha512 r digest bi blocks) blocks ws a m)
    unfolding statement_loop witnesses_loop rows_from
    statement_loop_lem digest bi [] [] c1 d a m o e = e
    statement_loop_lem digest bi [] (w ∷ ws) c1 d a m o e = absurd o
    statement_loop_lem digest bi (b ∷ bs) [] c1 d a m o e = absurd o
    statement_loop_lem digest bi (b ∷ bs) (w ∷ ws) c1 d a m o (f, g) =
        let row = row_from sha512 r digest bi 0 b.block.c2_points in
        let x = w.encryption_randomness in
        let start : d ≡ (a ⊞ scalar_zero ⊠ x) ⊛ key ⊕ m ⊛ h =
          g ∙ ap (λ t. t ⊕ m ⊛ h) (nothing a x) in
        let (same, difference) =
          row_loop_lem a x row b.block.c2_points b.block.plaintext_commitments
            w.commitment_blindings scalar_zero m d (length-row_from digest bi 0 b.block.c2_points)
            o.0.points start in
        statement_loop_lem digest (bi + 1) bs ws _ _ _ _ o.1 (
          ap₂ (λ t u. t ⊕ u) f (ap₂ (λ t u. t ⊛ u) same o.0.randomness)
              ∙ sym (response_lem curve a _ x base),
          difference
              ∙ ap
                  (λ t.
                    (a ⊞ t ⊠ x)
                    ⊛ key
                    ⊕ (blinding_loop sha512 r row w.commitment_blindings scalar_zero m).1
                    ⊛ h)
                  same,
        )

  -- Blocks that open, in their shape, are accepted, for every draw of the prover, if there is one
  -- at least and none of the three bases is the identity.
  pub option1_verify-prove :
      (ar as' : Scalar) (context : List ℕ) (commitment : Option1FileCommitment Point)
      (blocks : List (Option1BlockProof Point)) (ws : List (Option1WitnessBlock Scalar))
      → commitment.file_base ≢ identity
      → commitment.file_public_key ≢ identity
      → commitment.commitment_base ≢ identity
      → 0 < length blocks
      → any_bad_shape blocks ≡ false
      → AllOpen commitment.file_base commitment.file_public_key commitment.commitment_base blocks ws
      → verify sha512 r
          (prove sha512 r ar as' context commitment blocks ws)
          context
          commitment
          blocks
        ≡ true
  unfolding verify prove aggregate_statement option1_batch_coefficients
  option1_verify-prove ar as' context commitment blocks ws n1 n2 n3 pos shape o =
      let base = commitment.file_base in
      let key = commitment.file_public_key in
      let h = commitment.commitment_base in
      let (e, f) =
        statement_loop_lem base key h _ 0 blocks ws identity identity scalar_zero scalar_zero o (
          sym (zero-⊛ base),
          sym (ap₂ (λ t u. t ⊕ u) (zero-⊛ key) (zero-⊛ h) ∙ identity-⊕ identity),
        ) in
      checked (is_empty blocks) _ _ _ _ _ _ (occupied blocks pos)
        (point_eq_ne curve base identity n1) (point_eq_ne curve key identity n2)
        (point_eq_ne curve h identity n3) shape
        (point_eq_self curve _ _ (schnorr_lem curve ar _ _ base _ e))
        (point_eq_self curve _ _ (schnorr_pair_lem curve ar as' _ _ _ key h _ f))
