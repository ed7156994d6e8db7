-- ===== src/Samples/Files.antt =====
-- The theorems on files, applied to the file [5], with a constant hash and a group of two points.
use ebutv.Prelude.{ℕ, ◌≡◌, refl, ◌≢◌, Bool, true, false, some, [], ◌∷◌, replicate, arith}
use ebutv.Prelude.Lists.{bytes_eq}
use ebutv.Prelude.Results.{ok}
use ebutv.Prelude.Loops.{for_below}
use ebutv.Prelude.BitArray.{get_bit, put_bit}
use ebutv.Prelude.Text.{codes, to_le_bytes}
use ebutv.Samples.{constant_hash, two_points, point_ne}
use ebutv.Merkle.{
  build_merkle_tree, tree_root, last_level, levels_from, merkle_hash, verify_merkle_path, fold_path,
}
use ebutv.Challenge.{derive_challenge_indices, range_from}
use ebutv.FileBinding.PointCodec.{
  encode_chunk_to_point, decode_point_to_chunk, search_encoding, suffix_candidate, fill_suffix,
  pack_payload_bits, set_bit_le, get_bit_le, reversible_point_max_encoding_attempts,
}
use ebutv.FileBinding.PointCodec.RoundTrip.{decode_point_to_chunk-encode_chunk_to_point}
use ebutv.FileBinding.Private.{
  FileCommitment, PrivateCiphertextBlock, PrivateFileWitnessBlock, PrivateBlockProof,
  PrivateFileProof, challenge_tag, file_tags, private_plaintext_h, private_cipher_leaf, prove,
  verify,
}
use ebutv.FileBinding.Private.Batch.{verify-prove}
use ebutv.FileBinding.File.{
  Committed, chunks, total_length, all_fit, encrypt_private_block, prepare_blocks,
  create_private_file_commitment, create_private_file_commitment_auto, create_private_file_proof,
  verify_private_file_proof,
}
use ebutv.FileBinding.File.Completeness.{verify_private_file_proof-create_private_file_proof}
use ebutv.FileBinding.File.Swap.{repeat_block, verify_private_file_proof-repeat_block}
use ebutv.FileBinding.Decryption.{decrypt_private_file_from_ciphertexts}
use ebutv.FileBinding.Decryption.RoundTrip.{decrypt_private_file_from_ciphertexts_lem}

encoded : encode_chunk_to_point constant_hash two_points (5 ∷ []) ≡ ok true
unfolding encode_chunk_to_point search_encoding suffix_candidate fill_suffix pack_payload_bits
    set_bit_le get_bit_le for_below get_bit put_bit codes to_le_bytes bytes_eq
    reversible_point_max_encoding_attempts
encoded = refl

decode_point_to_chunk_example : decode_point_to_chunk constant_hash two_points true 1 ≡ ok (5 ∷ [])
decode_point_to_chunk_example =
    decode_point_to_chunk-encode_chunk_to_point constant_hash two_points (5 ∷ []) true
      (omega arith, tt) encoded

abbrev draws : ℕ → Bool × Bool
draws i = (true, false)

abbrev block : PrivateCiphertextBlock Bool
block = record { ciphertext = record { c1 = true; c2 = false }; plaintext_commitment = true }

abbrev opening : PrivateFileWitnessBlock Bool
opening = record { encryption_randomness = true; commitment_blinding = false }

abbrev commitment : FileCommitment
commitment = record {
  file_id = 1 ∷ [];
  root_hash = replicate 32 0;
  num_blocks = 1;
  block_size = 17;
  file_size = 1;
  encoding_version = 1;
  nonce = [];
}

abbrev committed : Committed constant_hash two_points
committed = (commitment, block ∷ [], replicate 32 0 ∷ [], opening ∷ [])

created :
    create_private_file_commitment constant_hash two_points draws [] (1 ∷ []) ((5 ∷ []) ∷ []) true
    ≡ some committed
unfolding create_private_file_commitment all_fit prepare_blocks encrypt_private_block
    encode_chunk_to_point search_encoding suffix_candidate fill_suffix pack_payload_bits set_bit_le
    get_bit_le for_below get_bit put_bit codes to_le_bytes bytes_eq total_length private_plaintext_h
    private_cipher_leaf reversible_point_max_encoding_attempts build_merkle_tree tree_root
    last_level levels_from merkle_hash
created = refl

created_auto :
    create_private_file_commitment_auto constant_hash two_points draws [] (1 ∷ []) (5 ∷ []) true
    ≡ some committed
unfolding create_private_file_commitment_auto chunks
created_auto = created

decrypt_example :
    decrypt_private_file_from_ciphertexts constant_hash two_points (block ∷ []) commitment true
    ≡ ok (5 ∷ [])
decrypt_example =
    decrypt_private_file_from_ciphertexts_lem constant_hash two_points true draws [] (1 ∷ [])
      (5 ∷ []) committed (omega arith, tt) created_auto

base_ne : ◌≢◌ {A = Bool} (private_plaintext_h constant_hash two_points) false
unfolding private_plaintext_h
base_ne = point_ne

sampled : derive_challenge_indices constant_hash challenge_tag [] 0 1 1 ≡ some (0 ∷ [])
unfolding derive_challenge_indices range_from
sampled = refl

audit_example :
    (proof : PrivateFileProof Bool Bool) × (create_private_file_proof constant_hash two_points 0
        true true
        (1 ∷ [])
        (block ∷ [])
        (replicate 32 0 ∷ [])
        (replicate 32 0)
        []
        1
        true
        (opening ∷ [])
        []
      ≡ some proof)
    × (verify_private_file_proof constant_hash two_points 0 proof commitment [] true [] ≡ some true)
audit_example =
    verify_private_file_proof-create_private_file_proof constant_hash two_points true draws []
      (1 ∷ []) ((5 ∷ []) ∷ []) 0 1 true true [] [] (0 ∷ []) committed point_ne base_ne (omega arith)
      (omega arith) created sampled

-- The same block under an index that it does not stand at.
abbrev elsewhere : PrivateBlockProof Bool
elsewhere = record { index = 3; block = block; merkle_path = [] }

batch_example :
    verify constant_hash two_points
      (prove constant_hash two_points true false [] true (elsewhere ∷ []) (opening ∷ []))
      []
      true
      (elsewhere ∷ [])
    ≡ true
batch_example =
    verify-prove constant_hash two_points true true false [] (elsewhere ∷ []) (opening ∷ [])
      point_ne base_ne (omega arith) (record { randomness = refl; difference = refl }, tt)

leaf_verifies :
    verify_merkle_path constant_hash file_tags
      (private_cipher_leaf constant_hash two_points block)
      []
      (replicate 32 0)
    ≡ true
unfolding verify_merkle_path fold_path merkle_hash bytes_eq
leaf_verifies = refl

two_blocks : FileCommitment
two_blocks = record {
  file_id = 1 ∷ [];
  root_hash = replicate 32 0;
  num_blocks = 2;
  block_size = 17;
  file_size = 18;
  encoding_version = 1;
  nonce = [];
}

both : derive_challenge_indices constant_hash challenge_tag [] 0 2 2 ≡ some (0 ∷ 1 ∷ [])
unfolding derive_challenge_indices range_from
both = refl

repeat_block_example :
    verify_private_file_proof constant_hash two_points 0
      (record {
        file_id = 1 ∷ [];
        root_hash = replicate 32 0;
        blocks = repeat_block elsewhere (0 ∷ 1 ∷ []);
        batch_proof =
            prove constant_hash two_points true true [] true
              (repeat_block elsewhere (0 ∷ 1 ∷ []))
              (opening ∷ opening ∷ []);
      })
      two_blocks
      []
      true
      []
    ≡ some true
unfolding two_blocks
repeat_block_example =
    verify_private_file_proof-repeat_block constant_hash two_points true elsewhere opening
      two_blocks 0 2 [] [] (0 ∷ 1 ∷ []) true true point_ne base_ne refl refl (omega arith)
      (omega arith) (record { randomness = refl; difference = refl }) leaf_verifies both
