-- ===== src/Option1/File.antt =====
-- src/option1_file_binding.rs: commitment, proof, verification and decryption of packed blocks. The
-- scalars of a block are an argument: `(draws b).0` for its randomness, `(draws b).1 j` for the
-- blinding of its chunk `j`.
use ebutv.Prelude.{
  ℕ, ◌+◌, ◌-◌, ◌%◌, not, List, [], ◌∷◌, ◌++◌, min, ltb, ◌==◌, if◌then◌else◌, length, take,
}
use ebutv.Prelude.Results.{Result, ok, err, ◌>>=◌, ◌>>◌, fail_if}
use ebutv.Curve.{Ristretto}
use ebutv.Merkle.{Digest, build_merkle_tree, tree_root}
use ebutv.FileBinding.File.{chunks}
use ebutv.Option1.Selectors.{
  ElligatorCodecError, External, encode_chunk, decode_chunk, pack_selectors, unpack_selectors,
}
use ebutv.Option1.Blocks.{
  Option1FileBindingError, codec, invalid_ciphertext, invalid_commitment, option1_tags,
  option1_file_encoding_v3, option1_point_payload_size, option1_points_per_block,
  option1_block_payload_size, option1_full_audit_file_bytes, Option1FileCommitment,
  Option1CiphertextBlock, Option1WitnessBlock, xor_bytes, derive_option1_commitment_base,
  stream_xor_mask, option1_cipher_leaf,
}

-- `?` through `From<ElligatorCodecError>`.
abbrev pub from_codec :
    {A : Type 0} → Result ElligatorCodecError A → Result Option1FileBindingError A
from_codec (ok a) = ok a
from_codec (err e) = err (codec e)

-- `expected_option1_challenge_count`: `sample` stands for `audit_sample_count(_, confidence, ..)`,
-- a computation in floating point.
unfoldable pub expected_option1_challenge_count :
    {Point : Type 0} → (ℕ → ℕ) → Option1FileCommitment Point → ℕ
expected_option1_challenge_count sample commitment =
    if commitment.num_blocks == 0
    then 0
    else (if not (ltb option1_full_audit_file_bytes commitment.file_size)
        then commitment.num_blocks
        else sample commitment.num_blocks)

-- What the loop over the chunks of one block collects: masked points, commitments, lengths,
-- selectors and blindings.
pub record Chunks (Point Scalar : Type 0) : Type 0 where
  pub c2_points : List Point
  pub plaintext_commitments : List Point
  pub point_lengths : List ℕ
  pub selectors : List ℕ
  pub blindings : List Scalar

module _ (sha512 : List ℕ → List ℕ) (r : Ristretto) (external : External r.Point) where
  open r use {Point, Scalar, ◌⊕◌, ◌⊖◌, ◌⊛◌}

  unfoldable pub encode_chunks :
      Point
      → Point
      → (ℕ → Scalar)
      → ℕ
      → List (List ℕ)
      → Result Option1FileBindingError (Chunks Point Scalar)
  encode_chunks shared commitment_base blinding j [] = ok (record {
    c2_points = [];
    plaintext_commitments = [];
    point_lengths = [];
    selectors = [];
    blindings = [];
  })
  encode_chunks shared commitment_base blinding j (chunk ∷ rest) = do
    enc ← from_codec (encode_chunk external chunk)
    done ← encode_chunks shared commitment_base blinding (j + 1) rest
    ok (record {
      c2_points = (enc.point ⊕ shared) ∷ done.c2_points;
      plaintext_commitments =
          (enc.point ⊕ blinding j ⊛ commitment_base) ∷ done.plaintext_commitments;
      point_lengths = enc.len ∷ done.point_lengths;
      selectors = enc.selector ∷ done.selectors;
      blindings = blinding j ∷ done.blindings;
    })

  -- One round of the loop over `file_data.chunks(..).enumerate()`.
  unfoldable pub encrypt_block :
      List ℕ
      → Point
      → Point
      → Point
      → Scalar × (ℕ → Scalar)
      → ℕ
      → List ℕ
      → Result Option1FileBindingError (Option1CiphertextBlock Point × Option1WitnessBlock Scalar)
  encrypt_block file_id file_base file_public_key commitment_base (rnd, blinding) block_index
        group =
      do
        let shared = rnd ⊛ file_public_key
        done ←
            encode_chunks shared commitment_base blinding 0
              (chunks (length group) option1_point_payload_size group)
        selector_plain ← from_codec (pack_selectors done.selectors)
        let selector_mask =
            stream_xor_mask sha512 r shared file_id block_index (length selector_plain)
        ok (
          record {
            c1 = rnd ⊛ file_base;
            c2_points = done.c2_points;
            plaintext_commitments = done.plaintext_commitments;
            point_lengths = done.point_lengths;
            selector_ciphertext = xor_bytes selector_plain selector_mask;
          },
          record { encryption_randomness = rnd; commitment_blindings = done.blindings },
        )

  unfoldable pub encrypt_blocks :
      List ℕ
      → Point
      → Point
      → Point
      → (ℕ → Scalar × (ℕ → Scalar))
      → ℕ
      → List (List ℕ)
      → Result Option1FileBindingError
          (List (Option1CiphertextBlock Point) × List Digest × List (Option1WitnessBlock Scalar))
  encrypt_blocks file_id file_base file_public_key commitment_base draws i [] = ok ([], [], [])
  encrypt_blocks file_id file_base file_public_key commitment_base draws i (group ∷ groups) = do
    (block, w) ← encrypt_block file_id file_base file_public_key commitment_base (draws i) i group
    (bs, ls, ws) ←
        encrypt_blocks file_id file_base file_public_key commitment_base draws (i + 1) groups
    ok (block ∷ bs, option1_cipher_leaf sha512 r block ∷ ls, w ∷ ws)

  abbrev pub Committed : Type 0
  Committed =
      Option1FileCommitment Point
      × List (Option1CiphertextBlock Point)
      × List Digest
      × List (Option1WitnessBlock Scalar)

  unfoldable pub create_option1_file_commitment_auto :
      (ℕ → Scalar × (ℕ → Scalar))
      → List ℕ
      → List ℕ
      → Point
      → Point
      → List ℕ
      → List ℕ
      → Result Option1FileBindingError Committed
  create_option1_file_commitment_auto draws file_id file_data file_base file_public_key server_nonce
        file_salt =
      do
        let commitment_base =
            derive_option1_commitment_base sha512 r file_id file_base file_public_key
        (public_blocks, leaves, witnesses) ←
            encrypt_blocks file_id file_base file_public_key commitment_base draws 0
              (chunks (length file_data) option1_block_payload_size file_data)
        ok (
          record {
            file_id = file_id;
            root_hash = tree_root (build_merkle_tree sha512 option1_tags leaves);
            num_blocks = length public_blocks;
            file_size = length file_data;
            point_payload_size = option1_point_payload_size;
            points_per_block = option1_points_per_block;
            encoding_version = option1_file_encoding_v3;
            file_base = file_base;
            file_public_key = file_public_key;
            commitment_base = commitment_base;
            file_salt = file_salt;
            server_nonce = server_nonce;
          },
          public_blocks,
          leaves,
          witnesses,
        )

  -- The loop over one block's points; a full output ends it.
  unfoldable pub decrypt_points :
      ℕ → Point → List Point → List ℕ → List ℕ → List ℕ → Result Option1FileBindingError (List ℕ)
  decrypt_points file_size shared (c2 ∷ c2_points) (len ∷ lengths) (selector ∷ selectors) out =
      if not (ltb (length out) file_size)
      then ok out
      else (from_codec
            (decode_chunk external (c2 ⊖ shared) selector (min (file_size - length out) len % 256))
          >>= λ chunk. decrypt_points file_size shared c2_points lengths selectors (out ++ chunk))
  decrypt_points file_size shared c2_points lengths selectors out = ok out

  unfoldable pub decrypt_blocks :
      Option1FileCommitment Point
      → Scalar
      → ℕ
      → List (Option1CiphertextBlock Point)
      → List ℕ
      → Result Option1FileBindingError (List ℕ)
  decrypt_blocks commitment x i [] out = ok out
  decrypt_blocks commitment x i (block ∷ blocks) out = do
    let shared = x ⊛ block.c1
    let selector_mask =
        stream_xor_mask sha512 r shared commitment.file_id i (length block.selector_ciphertext)
    selectors ← from_codec (
        unpack_selectors (xor_bytes block.selector_ciphertext selector_mask)
          (length block.c2_points))
    done ←
        decrypt_points commitment.file_size shared block.c2_points block.point_lengths selectors out
    decrypt_blocks commitment x (i + 1) blocks done

  unfoldable pub decrypt_option1_file_from_ciphertexts :
      List (Option1CiphertextBlock Point)
      → Option1FileCommitment Point
      → Scalar
      → Result Option1FileBindingError (List ℕ)
  decrypt_option1_file_from_ciphertexts public_blocks commitment x = do
    fail_if (not (commitment.encoding_version == option1_file_encoding_v3)) invalid_commitment
    fail_if (not (length public_blocks == commitment.num_blocks)) invalid_ciphertext
    out ← decrypt_blocks commitment x 0 public_blocks []
    ok (take commitment.file_size out)
