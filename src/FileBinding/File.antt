-- ===== src/FileBinding/File.antt =====
-- src/file_binding.rs: committing to a file, proving possession of challenged blocks, verifying the
-- proof, and decrypting the file. `none` is a panic (a failed `expect` or `assert`, an index out of
-- range) or fuel that ran out in the sampling loop.
pub mod Checks
pub mod Completeness
pub mod Swap
use ebutv.Prelude.{
  ℕ, zero, suc, ◌+◌, ◌-◌, ◌*◌, Bool, true, false, ◌&&◌, ◌||◌, not, Option, none, some, List, [],
  ◌∷◌, ◌++◌, map, min, ltb, ◌==◌, if◌then◌else◌, length, take, drop, get_elem?, is_empty, bytes_eq,
}
use ebutv.Prelude.Options.{◌>>=◌, ◌>>◌, assert, expect}
use ebutv.Curve.{Ristretto}
use ebutv.Merkle.{
  Digest, MerklePath, build_merkle_tree, tree_root, merkle_path_from_tree, verify_merkle_path,
}
use ebutv.Challenge.{derive_challenge_indices}
use ebutv.FileBinding.PointCodec.{
  PointEncodingError, invalid_decoded_length, encode_chunk_to_point, decode_point_to_chunk,
  reversible_point_payload_size,
}
use ebutv.FileBinding.Private.{
  FileCommitment, CiphertextBlock, PrivateCiphertextBlock, PrivateFileWitnessBlock,
  PrivateBlockProof, PrivateFileProof, file_tags, challenge_tag, reversible_point_encoding_v1,
  private_plaintext_h, private_cipher_leaf, elgamal_decrypt_block, prove, verify,
}

-- `data.chunks(size)`, on fuel: the length of the data is enough.
unfoldable pub chunks : ℕ → ℕ → List ℕ → List (List ℕ)
chunks zero size xs = []
chunks (suc fuel) size [] = []
chunks (suc fuel) size (x ∷ xs) = take size (x ∷ xs) ∷ chunks fuel size (drop size (x ∷ xs))

unfoldable pub total_length : List (List ℕ) → ℕ
total_length [] = 0
total_length (b ∷ bs) = length b + total_length bs

abbrev pub full_audit_file_bytes : ℕ
full_audit_file_bytes = 100 * 1024

-- `expected_challenge_count`: small files are checked whole. `sample` stands for
-- `auto_challenge_count(_, confidence)`, a computation in floating point.
unfoldable pub expected_challenge_count : (ℕ → ℕ) → FileCommitment → ℕ
expected_challenge_count sample commitment =
    if commitment.num_blocks == 0
    then 0
    else (if not (ltb full_audit_file_bytes commitment.file_size)
        then commitment.num_blocks
        else sample commitment.num_blocks)

module _ (sha512 : List ℕ → List ℕ) (r : Ristretto) where
  open r use {Point, Scalar, ◌⊕◌, ◌⊖◌, ◌⊛◌, basepoint}

  -- What one task of the parallel map makes of a block, on the scalars that it draws.
  unfoldable pub encrypt_private_block :
      Scalar
      → Scalar
      → Point
      → List ℕ
      → Option (PrivateCiphertextBlock Point × Digest × PrivateFileWitnessBlock Scalar)
  encrypt_private_block rnd s pk block_bytes = do
    m ← expect (encode_chunk_to_point sha512 r block_bytes)
    let block : PrivateCiphertextBlock Point = record {
      ciphertext = record { c1 = rnd ⊛ basepoint; c2 = m ⊕ rnd ⊛ pk };
      plaintext_commitment = m ⊕ s ⊛ private_plaintext_h sha512 r;
    }
    some (
      block,
      private_cipher_leaf sha512 r block,
      record { encryption_randomness = rnd; commitment_blinding = s },
    )

  -- The map over the blocks and the loop that splits its results, from block number `i` on.
  unfoldable pub prepare_blocks :
      (ℕ → Scalar × Scalar)
      → Point
      → ℕ
      → List (List ℕ)
      → Option (
          List (PrivateCiphertextBlock Point) × List Digest × List (PrivateFileWitnessBlock Scalar))
  prepare_blocks draws pk i [] = some ([], [], [])
  prepare_blocks draws pk i (block ∷ blocks) = do
    (b, l, w) ← encrypt_private_block (draws i).0 (draws i).1 pk block
    (bs, ls, ws) ← prepare_blocks draws pk (i + 1) blocks
    some (b ∷ bs, l ∷ ls, w ∷ ws)

  unfoldable pub all_fit : List (List ℕ) → Bool
  all_fit [] = true
  all_fit (b ∷ bs) = not (ltb reversible_point_payload_size (length b)) && all_fit bs

  abbrev pub Committed : Type 0
  Committed =
      FileCommitment
      × List (PrivateCiphertextBlock Point)
      × List Digest
      × List (PrivateFileWitnessBlock Scalar)

  unfoldable pub create_private_file_commitment :
      (ℕ → Scalar × Scalar) → List ℕ → List ℕ → List (List ℕ) → Point → Option Committed
  create_private_file_commitment draws nonce file_id blocks pk = do
    assert (all_fit blocks)
    (public_blocks, leaves, witnesses) ← prepare_blocks draws pk 0 blocks
    some (
      record {
        file_id = file_id;
        root_hash = tree_root (build_merkle_tree sha512 file_tags leaves);
        num_blocks = length blocks;
        block_size = reversible_point_payload_size;
        file_size = total_length blocks;
        encoding_version = reversible_point_encoding_v1;
        nonce = nonce;
      },
      public_blocks,
      leaves,
      witnesses,
    )

  unfoldable pub create_private_file_commitment_auto :
      (ℕ → Scalar × Scalar) → List ℕ → List ℕ → List ℕ → Point → Option Committed
  create_private_file_commitment_auto draws nonce file_id file_data pk =
      create_private_file_commitment draws nonce file_id
        (chunks (length file_data) reversible_point_payload_size file_data) pk

  -- The loop over the challenged indices.
  unfoldable pub select_blocks :
      List (PrivateCiphertextBlock Point)
      → List (List Digest)
      → List (PrivateFileWitnessBlock Scalar)
      → List ℕ
      → Option (List (PrivateBlockProof Point) × List (PrivateFileWitnessBlock Scalar))
  select_blocks public_blocks tree witnesses [] = some ([], [])
  select_blocks public_blocks tree witnesses (i ∷ indices) = do
    block ← get_elem? public_blocks i
    w ← get_elem? witnesses i
    (bs, ws) ← select_blocks public_blocks tree witnesses indices
    some (
      record { index = i; block = block; merkle_path = merkle_path_from_tree tree i } ∷ bs,
      w ∷ ws,
    )

  unfoldable pub create_private_file_proof :
      ℕ
      → Scalar
      → Scalar
      → List ℕ
      → List (PrivateCiphertextBlock Point)
      → List Digest
      → Digest
      → List ℕ
      → ℕ
      → Point
      → List (PrivateFileWitnessBlock Scalar)
      → List ℕ
      → Option (PrivateFileProof Point Scalar)
  create_private_file_proof fuel alpha_r alpha_s file_id public_blocks leaves root_hash
        challenge_nonce num_challenges pk witnesses context =
      do
        indices ←
            derive_challenge_indices sha512 challenge_tag challenge_nonce fuel
              (length public_blocks) num_challenges
        (blocks, selected) ←
            select_blocks public_blocks (build_merkle_tree sha512 file_tags leaves) witnesses
              indices
        some (record {
          file_id = file_id;
          root_hash = root_hash;
          blocks = blocks;
          batch_proof = prove sha512 r alpha_r alpha_s context pk blocks selected;
        })

  -- The loop over `proof.blocks.iter().zip(expected_indices.iter())`.
  unfoldable pub check_blocks : List (PrivateBlockProof Point) → List ℕ → Digest → Bool
  check_blocks [] expected root = true
  check_blocks (b ∷ bs) [] root = true
  check_blocks (b ∷ bs) (i ∷ expected) root =
      let rest = check_blocks bs expected root in
      if not (b.index == i)
      then false
      else (if not (
            verify_merkle_path sha512 file_tags (private_cipher_leaf sha512 r b.block) b.merkle_path
              root)
          then false
          else rest)

  unfoldable pub verify_private_file_proof :
      ℕ → PrivateFileProof Point Scalar → FileCommitment → List ℕ → Point → List ℕ → Option Bool
  verify_private_file_proof fuel proof stored challenge_nonce pk context =
      if not (bytes_eq proof.file_id stored.file_id)
        || not (bytes_eq proof.root_hash stored.root_hash)
      then some false
      else (if not (stored.encoding_version == reversible_point_encoding_v1)
          then some false
          else (if stored.block_size == 0 || ltb reversible_point_payload_size stored.block_size
              then some false
              else (if ltb stored.num_blocks (length proof.blocks)
                  then some false
                  else (if ltb 0 stored.num_blocks && is_empty proof.blocks
                      then some false
                      else (derive_challenge_indices sha512 challenge_tag challenge_nonce fuel
                            stored.num_blocks (length proof.blocks)
                          >>= λ expected. some (
                              if not (check_blocks proof.blocks expected stored.root_hash)
                              then false
                              else verify sha512 r proof.batch_proof context pk proof.blocks))))))

  -- `verify_private_file_proof_with_confidence`
  unfoldable pub verify_private_file_proof_with_confidence :
      (ℕ → ℕ)
      → ℕ
      → PrivateFileProof Point Scalar
      → FileCommitment
      → List ℕ
      → Point
      → List ℕ
      → Option Bool
  verify_private_file_proof_with_confidence sample fuel proof stored challenge_nonce pk context =
      if not (length proof.blocks == expected_challenge_count sample stored)
      then some false
      else verify_private_file_proof fuel proof stored challenge_nonce pk context
