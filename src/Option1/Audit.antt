-- ===== src/Option1/Audit.antt =====
-- src/option1_file_binding.rs: proving and verifying possession. `none` is an index out of range, or
-- fuel that ran out in the sampling loop.
use ebutv.Prelude.{
  ℕ, Bool, true, false, ◌&&◌, ◌||◌, not, Option, some, List, [], ◌∷◌, ltb, ◌==◌, if◌then◌else◌,
  length, get_elem?, is_empty, bytes_eq,
}
use ebutv.Prelude.Options.{◌>>=◌}
use ebutv.Curve.{Ristretto}
use ebutv.Merkle.{Digest, build_merkle_tree, merkle_path_from_tree, verify_merkle_path}
use ebutv.Challenge.{derive_challenge_indices}
use ebutv.Option1.Blocks.{
  option1_tags, option1_challenge_tag, option1_file_encoding_v3, option1_point_payload_size,
  option1_points_per_block, Option1FileCommitment, Option1CiphertextBlock, Option1WitnessBlock,
  Option1BlockProof, Option1FileProof, option1_cipher_leaf,
}
use ebutv.Option1.Batch.{prove, verify}
use ebutv.Option1.File.{expected_option1_challenge_count}

module _ (sha512 : List ℕ → List ℕ) (r : Ristretto) where
  open r use {Point, Scalar}

  -- The loop over the challenged indices.
  unfoldable pub select_blocks :
      List (Option1CiphertextBlock Point)
      → List (List Digest)
      → List (Option1WitnessBlock Scalar)
      → List ℕ
      → Option (List (Option1BlockProof Point) × List (Option1WitnessBlock Scalar))
  select_blocks public_blocks tree witnesses [] = some ([], [])
  select_blocks public_blocks tree witnesses (i ∷ indices) = do
    block ← get_elem? public_blocks i
    w ← get_elem? witnesses i
    (bs, ws) ← select_blocks public_blocks tree witnesses indices
    some (
      record { index = i; block = block; merkle_path = merkle_path_from_tree tree i } ∷ bs,
      w ∷ ws,
    )

  unfoldable pub create_option1_file_proof :
      ℕ
      → Scalar
      → Scalar
      → Option1FileCommitment Point
      → List (Option1CiphertextBlock Point)
      → List Digest
      → List ℕ
      → ℕ
      → List (Option1WitnessBlock Scalar)
      → List ℕ
      → Option (Option1FileProof Point Scalar)
  create_option1_file_proof fuel ar as' commitment public_blocks leaves challenge_nonce
        num_challenges witnesses context =
      do
        indices ←
            derive_challenge_indices sha512 option1_challenge_tag challenge_nonce fuel
              (length public_blocks) num_challenges
        (blocks, selected) ←
            select_blocks public_blocks (build_merkle_tree sha512 option1_tags leaves) witnesses
              indices
        some (record {
          file_id = commitment.file_id;
          root_hash = commitment.root_hash;
          blocks = blocks;
          batch_proof = prove sha512 r ar as' context commitment blocks selected;
        })

  -- The loop over `proof.blocks.iter().zip(expected_indices.iter())`.
  unfoldable pub check_blocks : List (Option1BlockProof Point) → List ℕ → Digest → Bool
  check_blocks [] expected root = true
  check_blocks (b ∷ bs) [] root = true
  check_blocks (b ∷ bs) (i ∷ expected) root =
      let rest = check_blocks bs expected root in
      if not (b.index == i)
      then false
      else (if not (
            verify_merkle_path sha512 option1_tags (option1_cipher_leaf sha512 r b.block)
              b.merkle_path root)
          then false
          else rest)

  unfoldable pub verify_option1_file_proof :
      ℕ
      → Option1FileProof Point Scalar
      → Option1FileCommitment Point
      → List ℕ
      → List ℕ
      → Option Bool
  verify_option1_file_proof fuel proof commitment challenge_nonce context =
      if not (commitment.encoding_version == option1_file_encoding_v3)
      then some false
      else (if not (commitment.point_payload_size == option1_point_payload_size)
            || not (commitment.points_per_block == option1_points_per_block)
          then some false
          else (if not (bytes_eq proof.file_id commitment.file_id)
                || not (bytes_eq proof.root_hash commitment.root_hash)
              then some false
              else (if ltb commitment.num_blocks (length proof.blocks)
                  then some false
                  else (if ltb 0 commitment.num_blocks && is_empty proof.blocks
                      then some false
                      else (derive_challenge_indices sha512 option1_challenge_tag challenge_nonce
                            fuel commitment.num_blocks (length proof.blocks)
                          >>= λ expected. some (
                              if not (check_blocks proof.blocks expected commitment.root_hash)
                              then false
                              else verify sha512 r proof.batch_proof context commitment
                                  proof.blocks))))))

  unfoldable pub verify_option1_file_proof_with_confidence :
      (ℕ → ℕ)
      → ℕ
      → Option1FileProof Point Scalar
      → Option1FileCommitment Point
      → List ℕ
      → List ℕ
      → Option Bool
  verify_option1_file_proof_with_confidence sample fuel proof commitment challenge_nonce context =
      if not (length proof.blocks == expected_option1_challenge_count sample commitment)
      then some false
      else verify_option1_file_proof fuel proof commitment challenge_nonce context
