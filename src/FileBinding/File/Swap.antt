-- ===== src/FileBinding/File/Swap.antt =====
-- src/file_binding.rs: verify_private_file_proof, and the indices of a proof.
use ebutv.Prelude.{
  ℕ, suc, ◌≤◌, ◌<◌, ◌≡◌, refl, ap, ◌∙◌, ◌≢◌, true, ◌||◌, some, List, [], ◌∷◌, arith, ltb, ◌==◌,
  length, replicate, bytes_eq_refl, ==_refl,
}
use ebutv.Curve.{Ristretto}
use ebutv.Merkle.{verify_merkle_path}
use ebutv.Challenge.{derive_challenge_indices}
use ebutv.Challenge.Indices.{derive_challenge_indices_lem}
use ebutv.FileBinding.Private.{
  FileCommitment, PrivateFileWitnessBlock, PrivateBlockProof, file_tags, challenge_tag,
  private_plaintext_h, private_cipher_leaf, prove,
}
use ebutv.FileBinding.Private.Batch.{Opens, AllOpen, verify-prove}
use ebutv.FileBinding.File.{check_blocks, verify_private_file_proof}
use ebutv.FileBinding.File.Checks.{passes, ltb_no, nonempty}

-- One block and its path, under each of the given indices.
unfoldable pub repeat_block :
    {Point : Type 0} → PrivateBlockProof Point → List ℕ → List (PrivateBlockProof Point)
repeat_block b [] = []
repeat_block b (i ∷ indices) =
    record { index = i; block = b.block; merkle_path = b.merkle_path } ∷ repeat_block b indices

length-repeat_block :
    {Point : Type 0} (b : PrivateBlockProof Point) (indices : List ℕ)
    → length (repeat_block b indices) ≡ length indices
unfolding repeat_block
length-repeat_block b [] = refl
length-repeat_block b (i ∷ indices) = ap suc (length-repeat_block b indices)

module _ (sha512 : List ℕ → List ℕ) (r : Ristretto) (pk : r.Point) where
  open r use {Point, Scalar, identity}

  check_blocks-repeat_block :
      (b : PrivateBlockProof Point) (indices : List ℕ) (root : List ℕ)
      → verify_merkle_path sha512 file_tags
          (private_cipher_leaf sha512 r b.block)
          b.merkle_path
          root
        ≡ true
      → check_blocks sha512 r (repeat_block b indices) indices root ≡ true
  unfolding check_blocks repeat_block
  check_blocks-repeat_block b [] root h = refl
  check_blocks-repeat_block b (i ∷ indices) root h =
      rw (==_refl i, h) (check_blocks-repeat_block b indices root h)

  AllOpen-repeat_block :
      (b : PrivateBlockProof Point) (w : PrivateFileWitnessBlock Scalar) (indices : List ℕ)
      → Opens sha512 r pk b w
      → AllOpen sha512 r pk (repeat_block b indices) (replicate (length indices) w)
  unfolding repeat_block
  AllOpen-repeat_block b w [] o = tt
  AllOpen-repeat_block b w (i ∷ indices) o = (
    record { randomness = o.randomness; difference = o.difference },
    AllOpen-repeat_block b w indices o,
  )

  -- A prover that holds one block of the file, its path and its witness, and no other block, is
  -- accepted: it sends that block under each challenged index. The commitment is of the version
  -- and block size that the code makes, one block at least is asked for and no more than there
  -- are, the sampling ends within the fuel, and the bases are not the identity.
  pub verify_private_file_proof-repeat_block :
      (b : PrivateBlockProof Point) (w : PrivateFileWitnessBlock Scalar) (stored : FileCommitment)
      (fuel k : ℕ) (challenge_nonce context indices : List ℕ) (alpha_r alpha_s : Scalar)
      → pk ≢ identity
      → private_plaintext_h sha512 r ≢ identity
      → stored.encoding_version ≡ 1
      → stored.block_size ≡ 17
      → 0 < k
      → k ≤ stored.num_blocks
      → Opens sha512 r pk b w
      → verify_merkle_path sha512 file_tags
          (private_cipher_leaf sha512 r b.block)
          b.merkle_path
          stored.root_hash
        ≡ true
      → derive_challenge_indices sha512 challenge_tag challenge_nonce fuel stored.num_blocks k
        ≡ some indices
      → verify_private_file_proof sha512 r fuel
          (record {
            file_id = stored.file_id;
            root_hash = stored.root_hash;
            blocks = repeat_block b indices;
            batch_proof =
                prove sha512 r alpha_r alpha_s context pk
                  (repeat_block b indices)
                  (replicate (length indices) w);
          })
          stored
          challenge_nonce
          pk
          context
        ≡ some true
  unfolding verify_private_file_proof
  verify_private_file_proof-repeat_block b w stored fuel k challenge_nonce context indices ar as'
        key base is_v1 is_17 pos few opens path sampled =
      let blocks = repeat_block b indices in
      let (_, _, len) =
        derive_challenge_indices_lem sha512 challenge_tag challenge_nonce fuel stored.num_blocks k
          indices sampled in
      let all_asked : length indices ≡ k = omega (arith, len) in
      let count : length blocks ≡ k = length-repeat_block b indices ∙ all_asked in
      let some_block : 0 < length blocks = omega (arith, count) in
      let sample = derive_challenge_indices sha512 challenge_tag challenge_nonce fuel in
      passes _ _ (stored.encoding_version == 1) (stored.block_size == 0 || ltb 17 stored.block_size)
        _ _ (sample stored.num_blocks (length blocks)) indices
        (λ e. check_blocks sha512 r blocks e stored.root_hash) _ (bytes_eq_refl stored.file_id)
        (bytes_eq_refl stored.root_hash) (ap (λ v. v == 1) is_v1)
        (ap (λ v. v == 0 || ltb 17 v) is_17) (ltb_no _ _ (omega (arith, count)))
        (nonempty stored.num_blocks blocks some_block)
        (ap (sample stored.num_blocks) count ∙ sampled)
        (check_blocks-repeat_block b indices stored.root_hash path)
        (verify-prove sha512 r pk ar as' context blocks _ key base some_block
          (AllOpen-repeat_block b w indices opens))
