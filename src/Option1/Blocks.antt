-- ===== src/Option1/Blocks.antt =====
-- src/option1_file_binding.rs: the bases of a file, its blocks and commitment, the leaf of a block
-- and the stream that hides the selectors.
use ebutv.Prelude.{
  ℕ, zero, suc, ◌+◌, ◌*◌, ◌%◌, ◌^◌, List, [], ◌∷◌, ◌++◌, ltb, if◌then◌else◌, length, take,
}
use Prim.Native.Nat.{bit_xor}
use ebutv.Prelude.Text.{codes, to_le_bytes}
use ebutv.Curve.{Ristretto}
use ebutv.Merkle.{Digest, MerklePath, Tags}
use ebutv.Option1.Selectors.{ElligatorCodecError}

abbrev pub option1_file_encoding_v3 : ℕ
option1_file_encoding_v3 = 3

abbrev pub option1_point_payload_size : ℕ
option1_point_payload_size = 31

abbrev pub option1_points_per_block : ℕ
option1_points_per_block = 16

abbrev pub option1_block_payload_size : ℕ
option1_block_payload_size = option1_point_payload_size * option1_points_per_block

abbrev pub option1_full_audit_file_bytes : ℕ
option1_full_audit_file_bytes = 100 * 1024

pub data Option1FileBindingError : Type 0 where
  codec : ElligatorCodecError → Option1FileBindingError
  invalid_ciphertext : Option1FileBindingError
  invalid_commitment : Option1FileBindingError

pub option1_tags : Tags
option1_tags = record {
  leaf_tag = codes "EBUT:OPTION1:MERKLE-LEAF:V3";
  node_tag = codes "EBUT:OPTION1:MERKLE-NODE:V3";
}

pub option1_challenge_tag : List ℕ
option1_challenge_tag = codes "EBUT:OPTION1:CHALLENGE-INDEX:V3"

pub record Option1FileCommitment (Point : Type 0) : Type 0 where
  pub file_id : List ℕ
  pub root_hash : Digest
  pub num_blocks : ℕ
  pub file_size : ℕ
  pub point_payload_size : ℕ
  pub points_per_block : ℕ
  pub encoding_version : ℕ
  pub file_base : Point
  pub file_public_key : Point
  pub commitment_base : Point
  pub file_salt : List ℕ
  pub server_nonce : List ℕ

pub record Option1CiphertextBlock (Point : Type 0) : Type 0 where
  pub c1 : Point
  pub c2_points : List Point
  pub plaintext_commitments : List Point
  pub point_lengths : List ℕ
  pub selector_ciphertext : List ℕ

pub record Option1WitnessBlock (Scalar : Type 0) : Type 0 where
  pub encryption_randomness : Scalar
  pub commitment_blindings : List Scalar

pub record Option1BlockProof (Point : Type 0) : Type 0 where
  pub index : ℕ
  pub block : Option1CiphertextBlock Point
  pub merkle_path : MerklePath

pub record Option1BatchProof (Point Scalar : Type 0) : Type 0 where
  pub a1 : Point
  pub a2 : Point
  pub z_r : Scalar
  pub z_minus_s : Scalar

pub record Option1FileProof (Point Scalar : Type 0) : Type 0 where
  pub file_id : List ℕ
  pub root_hash : Digest
  pub blocks : List (Option1BlockProof Point)
  pub batch_proof : Option1BatchProof Point Scalar

-- `a.iter().zip(b.iter()).map(|(x, y)| x ^ y)`
unfoldable pub xor_bytes : List ℕ → List ℕ → List ℕ
xor_bytes [] bs = []
xor_bytes (a ∷ as') [] = []
xor_bytes (a ∷ as') (b ∷ bs) = bit_xor a b ∷ xor_bytes as' bs

-- Each input behind its length, on eight bytes.
pub framed : List (List ℕ) → List ℕ
framed [] = []
framed (input ∷ inputs) = to_le_bytes 8 (length input) ++ (input ++ framed inputs)

module _ (sha512 : List ℕ → List ℕ) (r : Ristretto) where
  open r use {Point, Scalar, ◌⊕◌, ◌⊖◌, ◌⊛◌, compress, from_uniform_bytes, from_bytes_mod_order_wide}

  pub hash_point : List ℕ → List (List ℕ) → Point
  hash_point domain inputs = from_uniform_bytes (sha512 (domain ++ framed inputs))

  pub derive_option1_file_base : List ℕ → List ℕ → List ℕ → List ℕ → List ℕ → Point
  derive_option1_file_base app_id policy_id server_nonce file_salt file_id =
      hash_point (codes "EBUT:OPTION1:FILE-BASE:V3")
        (app_id ∷ policy_id ∷ server_nonce ∷ file_salt ∷ file_id ∷ [])

  pub derive_option1_commitment_base : List ℕ → Point → Point → Point
  derive_option1_commitment_base file_id file_base file_public_key =
      hash_point (codes "EBUT:OPTION1:FILE-COMMIT-BASE:V3")
        (file_id ∷ compress file_base ∷ compress file_public_key ∷ [])

  -- `while out.len() < len`, on fuel: each round adds a digest. The counter is a wrapping u64.
  unfoldable pub mask_loop : ℕ → ℕ → List ℕ → ℕ → List ℕ → List ℕ
  mask_loop zero counter prefix len out = out
  mask_loop (suc fuel) counter prefix len out =
      let rest =
        mask_loop fuel ((counter + 1) % 2 ^ 64) prefix len
          (out ++ sha512 (prefix ++ to_le_bytes 8 counter)) in
      if ltb (length out) len then rest else out

  unfoldable pub stream_xor_mask : Point → List ℕ → ℕ → ℕ → List ℕ
  stream_xor_mask shared file_id block_index len = take len (
      mask_loop len 0
        (codes "EBUT:OPTION1:SELECTOR-STREAM:V3"
          ++ (compress shared ++ (file_id ++ to_le_bytes 8 block_index)))
        len [])

  -- The loop over the three lists in step.
  pub triples : List Point → List Point → List ℕ → List ℕ
  triples (c2 ∷ c2_points) (k ∷ commitments) (len ∷ lengths) =
      compress c2 ++ (compress k ++ (len ∷ triples c2_points commitments lengths))
  triples _ _ _ = []

  pub option1_cipher_leaf : Option1CiphertextBlock Point → Digest
  option1_cipher_leaf block = take 32 (
      sha512 (
        codes "EBUT:OPTION1:CIPHER-LEAF:V3"
        ++ (compress block.c1
            ++ (to_le_bytes 8 (length block.c2_points)
                ++ (triples block.c2_points block.plaintext_commitments block.point_lengths
                    ++ (to_le_bytes 8 (length block.selector_ciphertext)
                        ++ block.selector_ciphertext))))))

  -- What both transcripts take of the commitment.
  pub commitment_bytes : Option1FileCommitment Point → List ℕ
  commitment_bytes commitment =
      commitment.file_id
      ++ (commitment.root_hash
          ++ (compress commitment.file_base
              ++ (compress commitment.file_public_key ++ compress commitment.commitment_base)))

  pub blocks_bytes : List (Option1BlockProof Point) → List ℕ
  blocks_bytes [] = []
  blocks_bytes (b ∷ blocks) =
      to_le_bytes 8 b.index
      ++ (compress b.block.c1
          ++ (triples b.block.c2_points b.block.plaintext_commitments b.block.point_lengths
              ++ (b.block.selector_ciphertext ++ blocks_bytes blocks)))

  unfoldable pub row_from : List ℕ → ℕ → ℕ → List Point → List Scalar
  row_from digest bi j [] = []
  row_from digest bi j (p ∷ points) =
      from_bytes_mod_order_wide
        (sha512 (codes "EBUT:OPTION1:RHO:V3" ++ (digest ++ (to_le_bytes 8 bi ++ to_le_bytes 8 j))))
      ∷ row_from digest bi (j + 1) points

  unfoldable pub rows_from : List ℕ → ℕ → List (Option1BlockProof Point) → List (List Scalar)
  rows_from digest bi [] = []
  rows_from digest bi (b ∷ blocks) =
      row_from digest bi 0 b.block.c2_points ∷ rows_from digest (bi + 1) blocks

  unfoldable pub option1_batch_coefficients :
      List (Option1BlockProof Point) → List ℕ → Option1FileCommitment Point → List (List Scalar)
  option1_batch_coefficients blocks context commitment =
      rows_from
        (sha512 (
          codes "EBUT:OPTION1:BATCH-TRANSCRIPT:V3"
          ++ (context ++ (commitment_bytes commitment ++ blocks_bytes blocks))))
        0 blocks

  pub proof_challenge :
      List ℕ → Option1FileCommitment Point → Point → Point → Point → Point → Scalar
  proof_challenge context commitment c1_bar d_bar a1 a2 = from_bytes_mod_order_wide (
      sha512 (
        codes "EBUT:OPTION1:SCHNORR:V3"
        ++ (context
            ++ (commitment_bytes commitment
                ++ (compress c1_bar ++ (compress d_bar ++ (compress a1 ++ compress a2)))))))
