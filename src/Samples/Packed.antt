-- ===== src/Samples/Packed.antt =====
-- The theorem on the accountable binding, applied to a block of two points.
use ebutv.Prelude.{◌≡◌, refl, ◌≢◌, Bool, true, false, [], ◌∷◌, arith}
use ebutv.Samples.{constant_hash, two_points, point_ne}
use ebutv.FileBinding.Private.{private_plaintext_h}
use ebutv.FileBinding.Accountable.{
  AccountableBlockProof, AccountableFileWitnessBlock, some_block_is_bad, some_length_is_bad,
  accountable_prove, accountable_verify,
}
use ebutv.FileBinding.Accountable.Complete.{accountable_verify-accountable_prove}

abbrev packed_block : AccountableBlockProof Bool
packed_block = record {
  index = 2;
  block = record {
    c1 = true;
    c2_points = false ∷ true ∷ [];
    plaintext_commitments = true ∷ true ∷ [];
    point_lengths = 17 ∷ 4 ∷ [];
  };
  merkle_path = [];
}

abbrev packed_opening : AccountableFileWitnessBlock Bool
packed_opening = record { encryption_randomness = true; commitment_blindings = false ∷ true ∷ [] }

shape : some_block_is_bad (packed_block ∷ []) ≡ false
unfolding some_block_is_bad some_length_is_bad
shape = refl

base_point_ne : ◌≢◌ {A = Bool} (private_plaintext_h constant_hash two_points) false
unfolding private_plaintext_h
base_point_ne = point_ne

accountable_example :
    accountable_verify constant_hash two_points
      (accountable_prove constant_hash two_points true false
        (4 ∷ [])
        true
        (packed_block ∷ [])
        (packed_opening ∷ []))
      (4 ∷ [])
      true
      (packed_block ∷ [])
    ≡ true
unfolding private_plaintext_h
accountable_example =
    accountable_verify-accountable_prove constant_hash two_points true true false (4 ∷ [])
      (packed_block ∷ []) (packed_opening ∷ []) point_ne base_point_ne (omega arith) shape
      (record { randomness = refl; points = (refl, (refl, tt)) }, tt)
