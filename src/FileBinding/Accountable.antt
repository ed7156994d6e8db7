-- ===== src/FileBinding/Accountable.antt =====
-- src/file_binding.rs: the accountable binding, whose blocks pack several points under one mask. The
-- inner loops over a block's points are those of Option1/Batch, which the two files share.
pub mod Complete
pub mod Audit
pub mod Decryption
use ebutv.Prelude.{
  ℕ, zero, suc, ◌+◌, ◌*◌, Bool, true, false, ◌||◌, not, List, [], ◌∷◌, ◌++◌, ltb, ◌==◌,
  if◌then◌else◌, length, take, is_empty,
}
use ebutv.Prelude.Text.{codes, to_le_bytes}
use ebutv.Curve.{Ristretto}
use ebutv.Merkle.{Digest, MerklePath}
use ebutv.FileBinding.PointCodec.{reversible_point_payload_size}
use ebutv.FileBinding.Private.{private_plaintext_h}
use ebutv.Option1.Blocks.{triples}
use ebutv.Option1.Batch.{row_loop, blinding_loop}

abbrev pub accountable_file_encoding_v2 : ℕ
accountable_file_encoding_v2 = 2

abbrev pub accountable_point_payload_size : ℕ
accountable_point_payload_size = reversible_point_payload_size

abbrev pub accountable_points_per_block : ℕ
accountable_points_per_block = 16

abbrev pub accountable_packed_block_payload_size : ℕ
accountable_packed_block_payload_size =
    accountable_point_payload_size * accountable_points_per_block

pub record AccountableCiphertextBlock (Point : Type 0) : Type 0 where
  pub c1 : Point
  pub c2_points : List Point
  pub plaintext_commitments : List Point
  pub point_lengths : List ℕ

pub record AccountableFileWitnessBlock (Scalar : Type 0) : Type 0 where
  pub encryption_randomness : Scalar
  pub commitment_blindings : List Scalar

pub record AccountableBlockProof (Point : Type 0) : Type 0 where
  pub index : ℕ
  pub block : AccountableCiphertextBlock Point
  pub merkle_path : MerklePath

pub record AccountableBatchProof (Point Scalar : Type 0) : Type 0 where
  pub a1 : Point
  pub a2 : Point
  pub z_r : Scalar
  pub z_minus_s : Scalar

pub record AccountableFileProof (Point Scalar : Type 0) : Type 0 where
  pub file_id : List ℕ
  pub root_hash : Digest
  pub blocks : List (AccountableBlockProof Point)
  pub batch_proof : AccountableBatchProof Point Scalar

-- `iter().any(|&l| l == 0 || l > ACCOUNTABLE_POINT_PAYLOAD_SIZE)`
unfoldable pub some_length_is_bad : List ℕ → Bool
some_length_is_bad [] = false
some_length_is_bad (l ∷ lengths) =
    (l == 0 || ltb accountable_point_payload_size l) || some_length_is_bad lengths

unfoldable pub some_block_is_bad : {Point : Type 0} → List (AccountableBlockProof Point) → Bool
some_block_is_bad [] = false
some_block_is_bad (b ∷ blocks) =
    (((is_empty b.block.c2_points
          || not (length b.block.c2_points == length b.block.plaintext_commitments))
        || (not (length b.block.c2_points == length b.block.point_lengths)
            || ltb accountable_points_per_block (length b.block.c2_points)))
      || some_length_is_bad b.block.point_lengths)
    || some_block_is_bad blocks

module _ (sha512 : List ℕ → List ℕ) (r : Ristretto) where
  open r use {
    Point, Scalar, identity, ◌⊕◌, ◌⊛◌, ◌⊞◌, ◌⊠◌, scalar_zero, point_eq, basepoint, compress,
    from_bytes_mod_order_wide,
  }

  pub accountable_cipher_leaf : AccountableCiphertextBlock Point → Digest
  accountable_cipher_leaf block = take 32 (
      sha512 (
        codes "EBUT:ACCOUNTABLE-PACKED-CIPHER-LEAF:V1"
        ++ (compress block.c1
            ++ (to_le_bytes 8 (length block.c2_points)
                ++ triples sha512 r block.c2_points block.plaintext_commitments
                    block.point_lengths))))

  pub transcript_blocks : List (AccountableBlockProof Point) → List ℕ
  transcript_blocks [] = []
  transcript_blocks (b ∷ blocks) =
      to_le_bytes 8 b.index
      ++ (compress b.block.c1
          ++ (to_le_bytes 8 (length b.block.c2_points)
              ++ (triples sha512 r b.block.c2_points b.block.plaintext_commitments
                    b.block.point_lengths
                  ++ transcript_blocks blocks)))

  pub accountable_batch_transcript_digest :
      List (AccountableBlockProof Point) → List ℕ → Point → List ℕ
  accountable_batch_transcript_digest blocks context pk = sha512 (
      codes "EBUT:ACCOUNTABLE-PACKED-RHO-TRANSCRIPT:V2"
      ++ (context ++ (compress pk ++ (to_le_bytes 8 (length blocks) ++ transcript_blocks blocks))))

  -- `for j in j..j + points.len()`
  pub coefficient_row : List ℕ → ℕ → ℕ → ℕ → List Point → List Scalar
  coefficient_row digest bi index j [] = []
  coefficient_row digest bi index j (p ∷ points) =
      from_bytes_mod_order_wide (
        sha512 (
          codes "EBUT:ACCOUNTABLE-PACKED-RHO-COEFF:V2"
          ++ (digest ++ (to_le_bytes 8 bi ++ (to_le_bytes 8 index ++ to_le_bytes 8 j)))))
      ∷ coefficient_row digest bi index (j + 1) points

  pub coefficient_rows : List ℕ → ℕ → List (AccountableBlockProof Point) → List (List Scalar)
  coefficient_rows digest bi [] = []
  coefficient_rows digest bi (b ∷ blocks) =
      coefficient_row digest bi b.index 0 b.block.c2_points
      ∷ coefficient_rows digest (bi + 1) blocks

  pub derive_accountable_batch_coefficients :
      List (AccountableBlockProof Point) → List ℕ → Point → List (List Scalar)
  derive_accountable_batch_coefficients blocks context pk =
      coefficient_rows (accountable_batch_transcript_digest blocks context pk) 0 blocks

  pub accountable_loop :
      List (AccountableBlockProof Point) → List (List Scalar) → Point → Point → Point × Point
  accountable_loop (b ∷ blocks) (row ∷ coeffs) c1_bar d_bar =
      let (rho_sum, d) =
        row_loop sha512 r row b.block.c2_points b.block.plaintext_commitments scalar_zero d_bar in
      accountable_loop blocks coeffs (c1_bar ⊕ rho_sum ⊛ b.block.c1) d
  accountable_loop blocks coeffs c1_bar d_bar = (c1_bar, d_bar)

  pub aggregate_accountable_statement :
      List (AccountableBlockProof Point) → List (List Scalar) → Point × Point
  aggregate_accountable_statement blocks coeffs = accountable_loop blocks coeffs identity identity

  pub accountable_challenge : List ℕ → Point → Point → Point → Point → Point → Scalar
  accountable_challenge context pk c1_bar d_bar a1 a2 = from_bytes_mod_order_wide (
      sha512 (
        codes "EBUT:ACCOUNTABLE-PACKED-SCHNORR:V1"
        ++ (context
            ++ (compress basepoint
                ++ (compress pk
                    ++ (compress (private_plaintext_h sha512 r)
                        ++ (compress c1_bar
                            ++ (compress d_bar ++ (compress a1 ++ compress a2)))))))))

  -- The loops of `prove` over the witnesses.
  pub accountable_witness_loop :
      List (List Scalar)
      → List (AccountableBlockProof Point)
      → List (AccountableFileWitnessBlock Scalar)
      → Scalar
      → Scalar
      → Scalar × Scalar
  accountable_witness_loop (row ∷ coeffs) (b ∷ blocks) (w ∷ witnesses) r_bar minus_s_bar =
      let (rho_sum, ms) =
        blinding_loop sha512 r row w.commitment_blindings scalar_zero minus_s_bar in
      accountable_witness_loop coeffs blocks witnesses (r_bar ⊞ rho_sum ⊠ w.encryption_randomness)
        ms
  accountable_witness_loop coeffs blocks witnesses r_bar minus_s_bar = (r_bar, minus_s_bar)

  -- `AccountableBatchProof::prove`, on the two scalars that it draws.
  pub accountable_prove :
      Scalar
      → Scalar
      → List ℕ
      → Point
      → List (AccountableBlockProof Point)
      → List (AccountableFileWitnessBlock Scalar)
      → AccountableBatchProof Point Scalar
  accountable_prove alpha_r alpha_s context pk blocks witnesses =
      let coeffs = derive_accountable_batch_coefficients blocks context pk in
      let (c1_bar, d_bar) = aggregate_accountable_statement blocks coeffs in
      let (r_bar, minus_s_bar) =
        accountable_witness_loop coeffs blocks witnesses scalar_zero scalar_zero in
      let a1 = alpha_r ⊛ basepoint in
      let a2 = alpha_r ⊛ pk ⊕ alpha_s ⊛ private_plaintext_h sha512 r in
      let c = accountable_challenge context pk c1_bar d_bar a1 a2 in
      record { a1 = a1; a2 = a2; z_r = alpha_r ⊞ c ⊠ r_bar; z_minus_s = alpha_s ⊞ c ⊠ minus_s_bar }

  -- `AccountableBatchProof::verify`
  pub accountable_verify :
      AccountableBatchProof Point Scalar
      → List ℕ
      → Point
      → List (AccountableBlockProof Point)
      → Bool
  accountable_verify proof context pk blocks =
      let h = private_plaintext_h sha512 r in
      let coeffs = derive_accountable_batch_coefficients blocks context pk in
      let (c1_bar, d_bar) = aggregate_accountable_statement blocks coeffs in
      let c = accountable_challenge context pk c1_bar d_bar proof.a1 proof.a2 in
      if is_empty blocks || point_eq pk identity
      then false
      else (if point_eq h identity
          then false
          else (if some_block_is_bad blocks
              then false
              else (if not (point_eq (proof.z_r ⊛ basepoint) (proof.a1 ⊕ c ⊛ c1_bar))
                  then false
                  else point_eq (proof.z_r ⊛ pk ⊕ proof.z_minus_s ⊛ h) (proof.a2 ⊕ c ⊛ d_bar))))
