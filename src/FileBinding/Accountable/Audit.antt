-- ===== src/FileBinding/Accountable/Audit.antt =====
-- src/file_binding.rs: commitment, proof and verification of the accountable binding. The
-- scalars of block `b` are `draws b`: its randomness, and the blinding of each of its chunks.
use ebutv.Prelude.{
  ℕ, ◌+◌, Bool, true, false, ◌&&◌, ◌||◌, not, Option, some, List, [], ◌∷◌, ltb, ◌==◌, if◌then◌else◌,
  length, get_elem?, is_empty, bytes_eq,
}
use ebutv.Prelude.Options.{◌>>=◌, expect}
use ebutv.Curve.{Ristretto}
use ebutv.Merkle.{Digest, build_merkle_tree, tree_root, merkle_path_from_tree, verify_merkle_path}
use ebutv.Challenge.{derive_challenge_indices}
use ebutv.FileBinding.PointCodec.{encode_chunk_to_point}
use ebutv.FileBinding.Private.{FileCommitment, file_tags, challenge_tag, private_plaintext_h}
use ebutv.FileBinding.File.{chunks, expected_challenge_count}
use ebutv.FileBinding.Accountable.{
  AccountableCiphertextBlock, AccountableFileWitnessBlock, AccountableBlockProof,
  AccountableFileProof, accountable_file_encoding_v2, accountable_point_payload_size,
  accountable_packed_block_payload_size, accountable_cipher_leaf, accountable_prove,
  accountable_verify,
}

-- What the loop over the chunks of one block collects.
pub record PackedChunks (Point Scalar : Type 0) : Type 0 where
  pub c2_points : List Point
  pub plaintext_commitments : List Point
  pub point_lengths : List ℕ
  pub blindings : List Scalar

module _ (sha512 : List ℕ → List ℕ) (r : Ristretto) where
  open r use {Point, Scalar, ◌⊕◌, ◌⊖◌, ◌⊛◌, basepoint}

  unfoldable pub pack_chunks :
      Point → (ℕ → Scalar) → ℕ → List (List ℕ) → Option (PackedChunks Point Scalar)
  pack_chunks shared blinding j [] =
      some
        (record { c2_points = []; plaintext_commitments = []; point_lengths = []; blindings = [] })
  pack_chunks shared blinding j (chunk ∷ rest) = do
    m ← expect (encode_chunk_to_point sha512 r chunk)
    done ← pack_chunks shared blinding (j + 1) rest
    some (record {
      c2_points = (m ⊕ shared) ∷ done.c2_points;
      plaintext_commitments =
          (m ⊕ blinding j ⊛ private_plaintext_h sha512 r) ∷ done.plaintext_commitments;
      point_lengths = length chunk ∷ done.point_lengths;
      blindings = blinding j ∷ done.blindings;
    })

  -- The loop over `file_data.chunks(..)`, from block number `i` on.
  unfoldable pub pack_blocks :
      (ℕ → Scalar × (ℕ → Scalar))
      → Point
      → ℕ
      → List (List ℕ)
      → Option (
          List (AccountableCiphertextBlock Point)
          × List Digest
          × List (AccountableFileWitnessBlock Scalar))
  pack_blocks draws pk i [] = some ([], [], [])
  pack_blocks draws pk i (group ∷ groups) = do
    done ←
        pack_chunks ((draws i).0 ⊛ pk) (draws i).1 0
          (chunks (length group) accountable_point_payload_size group)
    let block : AccountableCiphertextBlock Point = record {
      c1 = (draws i).0 ⊛ basepoint;
      c2_points = done.c2_points;
      plaintext_commitments = done.plaintext_commitments;
      point_lengths = done.point_lengths;
    }
    (bs, ls, ws) ← pack_blocks draws pk (i + 1) groups
    some (
      block ∷ bs,
      accountable_cipher_leaf sha512 r block ∷ ls,
      record { encryption_randomness = (draws i).0; commitment_blindings = done.blindings } ∷ ws,
    )

  unfoldable pub create_accountable_file_commitment_auto :
      (ℕ → Scalar × (ℕ → Scalar))
      → List ℕ
      → List ℕ
      → List ℕ
      → Point
      → Option (
          FileCommitment
          × List (AccountableCiphertextBlock Point)
          × List Digest
          × List (AccountableFileWitnessBlock Scalar))
  create_accountable_file_commitment_auto draws nonce file_id file_data pk = do
    (public_blocks, leaves, witnesses) ←
        pack_blocks draws pk 0
          (chunks (length file_data) accountable_packed_block_payload_size file_data)
    some (
      record {
        file_id = file_id;
        root_hash = tree_root (build_merkle_tree sha512 file_tags leaves);
        num_blocks = length public_blocks;
        block_size = accountable_packed_block_payload_size;
        file_size = length file_data;
        encoding_version = accountable_file_encoding_v2;
        nonce = nonce;
      },
      public_blocks,
      leaves,
      witnesses,
    )

  -- The loop over the challenged indices.
  unfoldable pub select_accountable :
      List (AccountableCiphertextBlock Point)
      → List (List Digest)
      → List (AccountableFileWitnessBlock Scalar)
      → List ℕ
      → Option (List (AccountableBlockProof Point) × List (AccountableFileWitnessBlock Scalar))
  select_accountable public_blocks tree witnesses [] = some ([], [])
  select_accountable public_blocks tree witnesses (i ∷ indices) = do
    block ← get_elem? public_blocks i
    w ← get_elem? witnesses i
    (bs, ws) ← select_accountable public_blocks tree witnesses indices
    some (
      record { index = i; block = block; merkle_path = merkle_path_from_tree tree i } ∷ bs,
      w ∷ ws,
    )

  unfoldable pub create_accountable_file_proof :
      ℕ
      → Scalar
      → Scalar
      → List ℕ
      → List (AccountableCiphertextBlock Point)
      → List Digest
      → Digest
      → List ℕ
      → ℕ
      → Point
      → List (AccountableFileWitnessBlock Scalar)
      → List ℕ
      → Option (AccountableFileProof Point Scalar)
  create_accountable_file_proof fuel alpha_r alpha_s file_id public_blocks leaves root_hash
        challenge_nonce num_challenges pk witnesses context =
      do
        indices ←
            derive_challenge_indices sha512 challenge_tag challenge_nonce fuel
              (length public_blocks) num_challenges
        (blocks, selected) ←
            select_accountable public_blocks (build_merkle_tree sha512 file_tags leaves) witnesses
              indices
        some (record {
          file_id = file_id;
          root_hash = root_hash;
          blocks = blocks;
          batch_proof = accountable_prove sha512 r alpha_r alpha_s context pk blocks selected;
        })

  -- The loop over the blocks and the expected indices.
  unfoldable pub check_accountable : List (AccountableBlockProof Point) → List ℕ → Digest → Bool
  check_accountable (b ∷ bs) (i ∷ expected) root =
      let rest = check_accountable bs expected root in
      if not (b.index == i)
      then false
      else (if not (
            verify_merkle_path sha512 file_tags (accountable_cipher_leaf sha512 r b.block)
              b.merkle_path root)
          then false
          else rest)
  check_accountable blocks expected root = true

  unfoldable pub verify_accountable_file_proof :
      ℕ → AccountableFileProof Point Scalar → FileCommitment → List ℕ → Point → List ℕ → Option Bool
  verify_accountable_file_proof fuel proof stored challenge_nonce pk context =
      if not (stored.encoding_version == accountable_file_encoding_v2)
      then some false
      else (if not (bytes_eq proof.file_id stored.file_id)
            || not (bytes_eq proof.root_hash stored.root_hash)
          then some false
          else (if ltb stored.num_blocks (length proof.blocks)
              then some false
              else (if ltb 0 stored.num_blocks && is_empty proof.blocks
                  then some false
                  else (derive_challenge_indices sha512 challenge_tag challenge_nonce fuel
                        stored.num_blocks (length proof.blocks)
                      >>= λ expected. some (
                          if not (check_accountable proof.blocks expected stored.root_hash)
                          then false
                          else accountable_verify sha512 r proof.batch_proof context pk
                              proof.blocks)))))

  unfoldable pub verify_accountable_file_proof_with_confidence :
      (ℕ → ℕ)
      → ℕ
      → AccountableFileProof Point Scalar
      → FileCommitment
      → List ℕ
      → Point
      → List ℕ
      → Option Bool
  verify_accountable_file_proof_with_confidence sample fuel proof stored challenge_nonce pk
        context =
      if not (length proof.blocks == expected_challenge_count sample stored)
      then some false
      else verify_accountable_file_proof fuel proof stored challenge_nonce pk context
