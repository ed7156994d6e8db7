-- ===== src/Option1/Batch.antt =====
-- src/option1_file_binding.rs: the batched proof over packed blocks.
pub mod Complete
use ebutv.Prelude.{
  ℕ, zero, suc, ◌+◌, Bool, true, false, ◌&&◌, ◌||◌, not, List, [], ◌∷◌, ltb, ◌==◌, if◌then◌else◌,
  length, is_empty,
}
use ebutv.Curve.{Ristretto}
use ebutv.Option1.Blocks.{
  Option1FileCommitment, Option1CiphertextBlock, Option1WitnessBlock, Option1BlockProof,
  Option1BatchProof, option1_point_payload_size, option1_points_per_block,
  option1_batch_coefficients, proof_challenge,
}

-- `iter().any(|&l| l == 0 || l > OPTION1_POINT_PAYLOAD_SIZE)`
unfoldable pub any_bad_length : List ℕ → Bool
any_bad_length [] = false
any_bad_length (l ∷ lengths) =
    (l == 0 || ltb option1_point_payload_size l) || any_bad_length lengths

unfoldable pub bad_shape : {Point : Type 0} → Option1CiphertextBlock Point → Bool
bad_shape block =
    ((is_empty block.c2_points
        || not (length block.c2_points == length block.plaintext_commitments))
      || (not (length block.c2_points == length block.point_lengths)
          || ltb option1_points_per_block (length block.c2_points)))
    || any_bad_length block.point_lengths

unfoldable pub any_bad_shape : {Point : Type 0} → List (Option1BlockProof Point) → Bool
any_bad_shape [] = false
any_bad_shape (b ∷ blocks) = bad_shape b.block || any_bad_shape blocks

module _ (sha512 : List ℕ → List ℕ) (r : Ristretto) where
  open r use {Point, Scalar, identity, ◌⊕◌, ◌⊖◌, ◌⊛◌, ◌⊞◌, ◌⊟◌, ◌⊠◌, scalar_zero, point_eq}

  -- The inner loop of `aggregate_statement`: the sum of the row, and the difference so far.
  unfoldable pub row_loop : List Scalar → List Point → List Point → Scalar → Point → Scalar × Point
  row_loop (rho ∷ row) (c2 ∷ c2_points) (k ∷ commitments) rho_sum d_bar =
      row_loop row c2_points commitments (rho_sum ⊞ rho) (d_bar ⊕ rho ⊛ (c2 ⊖ k))
  row_loop row c2_points commitments rho_sum d_bar = (rho_sum, d_bar)

  unfoldable pub statement_loop :
      List (Option1BlockProof Point) → List (List Scalar) → Point → Point → Point × Point
  statement_loop (b ∷ blocks) (row ∷ coeffs) c1_bar d_bar =
      let (rho_sum, d) =
        row_loop row b.block.c2_points b.block.plaintext_commitments scalar_zero d_bar in
      statement_loop blocks coeffs (c1_bar ⊕ rho_sum ⊛ b.block.c1) d
  statement_loop blocks coeffs c1_bar d_bar = (c1_bar, d_bar)

  unfoldable pub aggregate_statement :
      List (Option1BlockProof Point) → List (List Scalar) → Point × Point
  aggregate_statement blocks coeffs = statement_loop blocks coeffs identity identity

  -- The loops of `prove` over the witnesses.
  unfoldable pub blinding_loop : List Scalar → List Scalar → Scalar → Scalar → Scalar × Scalar
  blinding_loop (rho ∷ row) (s ∷ blindings) rho_sum minus_s_bar =
      blinding_loop row blindings (rho_sum ⊞ rho) (minus_s_bar ⊟ rho ⊠ s)
  blinding_loop row blindings rho_sum minus_s_bar = (rho_sum, minus_s_bar)

  unfoldable pub witnesses_loop :
      List (List Scalar)
      → List (Option1BlockProof Point)
      → List (Option1WitnessBlock Scalar)
      → Scalar
      → Scalar
      → Scalar × Scalar
  witnesses_loop (row ∷ coeffs) (b ∷ blocks) (w ∷ witnesses) r_bar minus_s_bar =
      let (rho_sum, ms) = blinding_loop row w.commitment_blindings scalar_zero minus_s_bar in
      witnesses_loop coeffs blocks witnesses (r_bar ⊞ rho_sum ⊠ w.encryption_randomness) ms
  witnesses_loop coeffs blocks witnesses r_bar minus_s_bar = (r_bar, minus_s_bar)

  -- `Option1BatchProof::prove`, on the two scalars that it draws.
  unfoldable pub prove :
      Scalar
      → Scalar
      → List ℕ
      → Option1FileCommitment Point
      → List (Option1BlockProof Point)
      → List (Option1WitnessBlock Scalar)
      → Option1BatchProof Point Scalar
  prove ar as' context commitment blocks witnesses =
      let coeffs = option1_batch_coefficients sha512 r blocks context commitment in
      let (c1_bar, d_bar) = aggregate_statement blocks coeffs in
      let (r_bar, minus_s_bar) = witnesses_loop coeffs blocks witnesses scalar_zero scalar_zero in
      let a1 = ar ⊛ commitment.file_base in
      let a2 = ar ⊛ commitment.file_public_key ⊕ as' ⊛ commitment.commitment_base in
      let c = proof_challenge sha512 r context commitment c1_bar d_bar a1 a2 in
      record { a1 = a1; a2 = a2; z_r = ar ⊞ c ⊠ r_bar; z_minus_s = as' ⊞ c ⊠ minus_s_bar }

  -- `Option1BatchProof::verify`
  unfoldable pub verify :
      Option1BatchProof Point Scalar
      → List ℕ
      → Option1FileCommitment Point
      → List (Option1BlockProof Point)
      → Bool
  verify proof context commitment blocks =
      let coeffs = option1_batch_coefficients sha512 r blocks context commitment in
      let (c1_bar, d_bar) = aggregate_statement blocks coeffs in
      let c = proof_challenge sha512 r context commitment c1_bar d_bar proof.a1 proof.a2 in
      if (is_empty blocks || point_eq commitment.file_base identity)
        || (point_eq commitment.file_public_key identity
            || point_eq commitment.commitment_base identity)
      then false
      else (if any_bad_shape blocks
          then false
          else (if not (point_eq (proof.z_r ⊛ commitment.file_base) (proof.a1 ⊕ c ⊛ c1_bar))
              then false
              else point_eq
                  (proof.z_r ⊛ commitment.file_public_key ⊕ proof.z_minus_s
                    ⊛ commitment.commitment_base)
                  (proof.a2 ⊕ c ⊛ d_bar)))
