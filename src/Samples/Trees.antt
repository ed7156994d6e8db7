-- ===== src/Samples/Trees.antt =====
-- The theorems on trees, samples, filters, multiples and packed blocks, applied.
use ebutv.Prelude.{
  ℕ, ◌+◌, ◌≡◌, refl, ap, ◌==◌, ◌≤◌, ◌⊎◌, Bool, true, false, some, List, [], ◌∷◌, arith, get_or,
  length, min,
}
use ebutv.Prelude.Text.{codes, from_le_bytes}
use ebutv.Curve.Sample.{parity}
use ebutv.Samples.{constant_hash, two_points, point_ne}
use ebutv.Merkle.{
  Digest, build_merkle_tree, tree_root, merkle_path_from_tree, verify_merkle_path, path_loop,
  levels_from, next_level, merkle_hash, merkle_combine,
}
use ebutv.Merkle.Paths.{verify_merkle_path-merkle_path_from_tree}
use ebutv.Merkle.Binding.{Collision, Apart, Occurs, IsDigestPath, verify_merkle_path-Occurs}
use ebutv.Challenge.{derive_challenge_indices, draw_loop, draw, insert}
use ebutv.Challenge.Indices.{
  IsAscending, IsBelow, seen, derive_challenge_indices_lem, derive_challenge_indices_returns,
}
use ebutv.FileBinding.Private.{file_tags, challenge_tag}
use ebutv.Server.Bloom
use ebutv.Server.Tree
use ebutv.Option1.Batch
use ebutv.Server.Bloom.{BloomFilter, contains}
use ebutv.Server.Bloom.Members.{contains-insert}
use ebutv.Server.Tree.{MerkleProof}
use ebutv.Server.Tree.RoundTrip.{verify-prove-build}
use ebutv.Msm.{g1_mul_u32}
use ebutv.Msm.Small.{copies, g1_mul_u32_lem}
use ebutv.Option1.Blocks.{Option1FileCommitment, Option1BlockProof, Option1WitnessBlock}
use ebutv.Option1.Batch.{bad_shape, any_bad_shape, any_bad_length}
use ebutv.Option1.Batch.Complete.{option1_verify-prove}

abbrev three : List Digest
three = (1 ∷ []) ∷ (2 ∷ []) ∷ (3 ∷ []) ∷ []

path_example :
    verify_merkle_path constant_hash file_tags
      (3 ∷ [])
      (merkle_path_from_tree (build_merkle_tree constant_hash file_tags three) 2)
      (tree_root (build_merkle_tree constant_hash file_tags three))
    ≡ true
path_example =
    verify_merkle_path-merkle_path_from_tree constant_hash file_tags three 2 (omega arith)

tags_Apart : Apart file_tags
unfolding file_tags codes
tags_Apart = record {
  sizes = refl;
  differ =
      λ e. let bad : ◌≡◌ {A = Bool} true false = ap (λ l. get_or l 7 0 == 76) e in absurd (cc bad);
}

path_digests :
    IsDigestPath (merkle_path_from_tree (build_merkle_tree constant_hash file_tags three) 2)
unfolding build_merkle_tree levels_from next_level merkle_hash merkle_combine merkle_path_from_tree
    path_loop
path_digests = (refl, tt)

binding_example : Occurs three (3 ∷ []) ⊎ Collision constant_hash
binding_example =
    verify_merkle_path-Occurs constant_hash (λ x. refl) file_tags tags_Apart three (3 ∷ [])
      (merkle_path_from_tree (build_merkle_tree constant_hash file_tags three) 2) (omega arith)
      path_digests
      (verify_merkle_path-merkle_path_from_tree constant_hash file_tags three 2 (omega arith))

drawn : derive_challenge_indices constant_hash challenge_tag [] 1 5 1 ≡ some (0 ∷ [])
unfolding derive_challenge_indices draw_loop draw insert from_le_bytes
drawn = refl

indices_example : IsAscending (0 ∷ []) × IsBelow 5 (0 ∷ []) × (length {A = ℕ} (0 ∷ []) ≡ min 1 5)
indices_example = derive_challenge_indices_lem constant_hash challenge_tag [] 1 5 1 (0 ∷ []) drawn

enough_seen : min 1 5 ≤ length (seen constant_hash challenge_tag [] 1 5 (min 1 5) 0 [])
unfolding seen draw insert from_le_bytes
enough_seen = omega arith

returns_example :
    (indices : List ℕ) × (derive_challenge_indices constant_hash challenge_tag [] 1 5 1
      ≡ some indices)
returns_example = derive_challenge_indices_returns constant_hash challenge_tag [] 1 5 1 enough_seen

abbrev empty_filter : BloomFilter
empty_filter = record { bits = 0 ∷ 0 ∷ []; num_hashes = 3 }

contains-insert_example :
    contains
      (λ item seed. seed + length item)
      (Bloom.insert (λ item seed. seed + length item) empty_filter (7 ∷ []))
      (7 ∷ [])
    ≡ true
contains-insert_example =
    contains-insert (λ item seed. seed + length item) empty_filter (7 ∷ [])
      (record { bytes = (omega arith, (omega arith, tt)); nonempty = omega arith })

tree_example :
    (proof : MerkleProof) × (Tree.prove constant_hash (Tree.build constant_hash three) 1
      ≡ some proof)
    × (proof.leaf ≡ 2 ∷ [])
    × (Tree.verify constant_hash proof (Tree.build constant_hash three).root ≡ true)
tree_example = verify-prove-build constant_hash three 1 (omega arith)

multiple_example : g1_mul_u32 parity true 5 ≡ copies parity 5 true
multiple_example = g1_mul_u32_lem parity true 5 (omega arith)

abbrev packed : Option1FileCommitment Bool
packed = record {
  file_id = 1 ∷ [];
  root_hash = [];
  num_blocks = 1;
  file_size = 1;
  point_payload_size = 31;
  points_per_block = 16;
  encoding_version = 3;
  file_base = true;
  file_public_key = true;
  commitment_base = true;
  file_salt = [];
  server_nonce = [];
}

abbrev packed_block : Option1BlockProof Bool
packed_block = record {
  index = 0;
  block = record {
    c1 = true;
    c2_points = false ∷ true ∷ [];
    plaintext_commitments = true ∷ true ∷ [];
    point_lengths = 31 ∷ 4 ∷ [];
    selector_ciphertext = 9 ∷ [];
  };
  merkle_path = [];
}

abbrev packed_opening : Option1WitnessBlock Bool
packed_opening = record { encryption_randomness = true; commitment_blindings = false ∷ true ∷ [] }

in_shape : any_bad_shape (packed_block ∷ []) ≡ false
unfolding any_bad_shape bad_shape any_bad_length
in_shape = refl

packed_example :
    Batch.verify constant_hash two_points
      (Batch.prove constant_hash two_points true false
        (4 ∷ [])
        packed
        (packed_block ∷ [])
        (packed_opening ∷ []))
      (4 ∷ [])
      packed
      (packed_block ∷ [])
    ≡ true
packed_example =
    option1_verify-prove constant_hash two_points true false (4 ∷ []) packed (packed_block ∷ [])
      (packed_opening ∷ []) point_ne point_ne point_ne (omega arith) in_shape
      (record { randomness = refl; points = (refl, (refl, tt)) }, tt)
