-- ===== src/FileBinding/Private.antt =====
-- src/file_binding.rs: the file commitment, and the hidden-plaintext proof of possession over it.
-- Points and scalars come from the curve interface; SHA-512 is an argument. What the code draws from
-- a random generator is an argument. `none` is a panic, or fuel that ran out in the sampling.
pub mod Batch
use ebutv.Prelude.{
  ℕ, zero, suc, ◌+◌, ◌-◌, ◌≤◌, Bool, true, false, ◌&&◌, ◌||◌, not, Option, none, some, List, [],
  ◌∷◌, ◌++◌, map, ltb, ◌==◌, if◌then◌else◌, length, take, get_elem?, is_empty, bytes_eq,
}
use ebutv.Prelude.Text.{codes, to_le_bytes}
use ebutv.Prelude.Results.{Result, ok, err}
use ebutv.Curve.{Ristretto}
use ebutv.Merkle.{
  Digest, MerklePath, Tags, build_merkle_tree, tree_root, merkle_path_from_tree, verify_merkle_path,
}
use ebutv.Challenge.{derive_challenge_indices}
use ebutv.FileBinding.PointCodec.{encode_chunk_to_point, reversible_point_payload_size}

abbrev pub reversible_point_encoding_v1 : ℕ
reversible_point_encoding_v1 = 1

unfoldable pub file_tags : Tags
file_tags = record { leaf_tag = codes "MERKLE_LEAF"; node_tag = codes "MERKLE_NODE" }

pub challenge_tag : List ℕ
challenge_tag = codes "EBUT:FILE:CHALLENGE-INDEX:V2"

pub record FileCommitment : Type 0 where
  pub file_id : List ℕ
  pub root_hash : Digest
  pub num_blocks : ℕ
  pub block_size : ℕ
  pub file_size : ℕ
  pub encoding_version : ℕ
  pub nonce : List ℕ

pub record CiphertextBlock (Point : Type 0) : Type 0 where
  pub c1 : Point
  pub c2 : Point

pub record PrivateCiphertextBlock (Point : Type 0) : Type 0 where
  pub ciphertext : CiphertextBlock Point
  pub plaintext_commitment : Point

pub record PrivateFileWitnessBlock (Scalar : Type 0) : Type 0 where
  pub encryption_randomness : Scalar
  pub commitment_blinding : Scalar

pub record HiddenPlaintextBatchProof (Point Scalar : Type 0) : Type 0 where
  pub a1 : Point
  pub a2 : Point
  pub z_r : Scalar
  pub z_minus_s : Scalar

pub record PrivateBlockProof (Point : Type 0) : Type 0 where
  pub index : ℕ
  pub block : PrivateCiphertextBlock Point
  pub merkle_path : MerklePath

pub record PrivateFileProof (Point Scalar : Type 0) : Type 0 where
  pub file_id : List ℕ
  pub root_hash : Digest
  pub blocks : List (PrivateBlockProof Point)
  pub batch_proof : HiddenPlaintextBatchProof Point Scalar

-- The tag stands in the record, so that it can be a section's argument.
module _ (sha512 : List ℕ → List ℕ) (r : Ristretto) where
  open r use {
    Point, Scalar, identity, ◌⊕◌, ◌⊖◌, ◌⊛◌, ◌⊞◌, ◌⊟◌, ◌⊠◌, scalar_zero, point_eq, basepoint,
    compress, from_uniform_bytes, from_bytes_mod_order_wide,
  }

  unfoldable pub elgamal_decrypt_block : Scalar → Point → Point → Point
  elgamal_decrypt_block x c1 c2 = c2 ⊖ x ⊛ c1

  unfoldable pub private_plaintext_h : Point
  private_plaintext_h = from_uniform_bytes (sha512 (codes "EBUT:FILE:PRIVATE-PLAINTEXT-H:V1"))

  unfoldable pub private_cipher_leaf : PrivateCiphertextBlock Point → Digest
  private_cipher_leaf block = take 32 (
      sha512 (
        codes "PRIVATE_CIPHER_LEAF_V1"
        ++ (compress block.ciphertext.c1
            ++ (compress block.ciphertext.c2 ++ compress block.plaintext_commitment))))

  -- What the hasher is fed for each block.
  pub block_transcript : List (PrivateBlockProof Point) → List ℕ
  block_transcript [] = []
  block_transcript (b ∷ blocks) =
      to_le_bytes 8 b.index
      ++ (compress b.block.ciphertext.c1
          ++ (compress b.block.ciphertext.c2
              ++ (compress b.block.plaintext_commitment ++ block_transcript blocks)))

  -- `for i in from..from + n`
  pub coefficients_from : ℕ → ℕ → List (PrivateBlockProof Point) → List ℕ → Point → List Scalar
  coefficients_from zero i blocks context pk = []
  coefficients_from (suc n) i blocks context pk =
      from_bytes_mod_order_wide (
        sha512 (
          codes "EBUT:FILE:HIDDEN-M:BATCH-RHO:V1"
          ++ (context ++ (compress pk ++ (block_transcript blocks ++ to_le_bytes 8 i)))))
      ∷ coefficients_from n (i + 1) blocks context pk

  pub derive_private_batch_coefficients :
      List (PrivateBlockProof Point) → List ℕ → Point → List Scalar
  derive_private_batch_coefficients blocks context pk =
      coefficients_from (length blocks) 0 blocks context pk

  pub hidden_plaintext_challenge : List ℕ → Point → Point → Point → Point → Point → Scalar
  hidden_plaintext_challenge context pk c1_bar d_bar a1 a2 = from_bytes_mod_order_wide (
      sha512 (
        codes "EBUT:FILE:HIDDEN-M:SCHNORR:V1"
        ++ (context
            ++ (compress basepoint
                ++ (compress pk
                    ++ (compress private_plaintext_h
                        ++ (compress c1_bar
                            ++ (compress d_bar ++ (compress a1 ++ compress a2)))))))))

  -- The loop over `blocks.iter().zip(coeffs.iter())`.
  pub aggregate_loop : List (PrivateBlockProof Point) → List Scalar → Point → Point → Point × Point
  aggregate_loop [] coeffs c1_bar d_bar = (c1_bar, d_bar)
  aggregate_loop (b ∷ blocks) [] c1_bar d_bar = (c1_bar, d_bar)
  aggregate_loop (b ∷ blocks) (rho ∷ coeffs) c1_bar d_bar =
      aggregate_loop blocks coeffs (c1_bar ⊕ rho ⊛ b.block.ciphertext.c1)
        (d_bar ⊕ rho ⊛ (b.block.ciphertext.c2 ⊖ b.block.plaintext_commitment))

  pub aggregate_private_statement : List (PrivateBlockProof Point) → List Scalar → Point × Point
  aggregate_private_statement blocks coeffs = aggregate_loop blocks coeffs identity identity

  -- The loop over `coeffs.iter().zip(blocks.iter()).zip(witnesses.iter())`.
  pub witness_loop :
      List Scalar
      → List (PrivateBlockProof Point)
      → List (PrivateFileWitnessBlock Scalar)
      → Scalar
      → Scalar
      → Scalar × Scalar
  witness_loop (rho ∷ coeffs) (b ∷ blocks) (w ∷ witnesses) r_bar minus_s_bar =
      witness_loop coeffs blocks witnesses (r_bar ⊞ rho ⊠ w.encryption_randomness)
        (minus_s_bar ⊟ rho ⊠ w.commitment_blinding)
  witness_loop coeffs blocks witnesses r_bar minus_s_bar = (r_bar, minus_s_bar)

  -- `HiddenPlaintextBatchProof::prove`, on the two scalars that it draws.
  pub prove :
      Scalar
      → Scalar
      → List ℕ
      → Point
      → List (PrivateBlockProof Point)
      → List (PrivateFileWitnessBlock Scalar)
      → HiddenPlaintextBatchProof Point Scalar
  prove alpha_r alpha_s context pk blocks witnesses =
      let coeffs = derive_private_batch_coefficients blocks context pk in
      let (c1_bar, d_bar) = aggregate_private_statement blocks coeffs in
      let (r_bar, minus_s_bar) = witness_loop coeffs blocks witnesses scalar_zero scalar_zero in
      let a1 = alpha_r ⊛ basepoint in
      let a2 = alpha_r ⊛ pk ⊕ alpha_s ⊛ private_plaintext_h in
      let c = hidden_plaintext_challenge context pk c1_bar d_bar a1 a2 in
      record { a1 = a1; a2 = a2; z_r = alpha_r ⊞ c ⊠ r_bar; z_minus_s = alpha_s ⊞ c ⊠ minus_s_bar }

  -- `HiddenPlaintextBatchProof::verify`
  pub verify :
      HiddenPlaintextBatchProof Point Scalar
      → List ℕ
      → Point
      → List (PrivateBlockProof Point)
      → Bool
  verify proof context pk blocks =
      let h = private_plaintext_h in
      let coeffs = derive_private_batch_coefficients blocks context pk in
      let (c1_bar, d_bar) = aggregate_private_statement blocks coeffs in
      let c = hidden_plaintext_challenge context pk c1_bar d_bar proof.a1 proof.a2 in
      if is_empty blocks
      then false
      else (if point_eq pk identity
          then false
          else (if point_eq h identity
              then false
              else (if not (point_eq (proof.z_r ⊛ basepoint) (proof.a1 ⊕ c ⊛ c1_bar))
                  then false
                  else point_eq (proof.z_r ⊛ pk ⊕ proof.z_minus_s ⊛ h) (proof.a2 ⊕ c ⊛ d_bar))))
