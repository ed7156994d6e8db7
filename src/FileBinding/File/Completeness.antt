-- ===== src/FileBinding/File/Completeness.antt =====
-- src/file_binding.rs: create_private_file_commitment, create_private_file_proof and
-- verify_private_file_proof, one after the other.
use ebutv.Prelude.{
  ℕ, zero, suc, ◌+◌, ◌<◌, ◌≡◌, refl, ap, ◌∙◌, ◌≢◌, inl, inr, true, false, ◌||◌, some, List, [], ◌∷◌,
  arith, min, ltb, ◌==◌, length, get_or, get_elem?, bytes_eq, bytes_eq_refl, ==_refl, Bool-cases,
  Option-cases,
}
use ebutv.Prelude.Results.{Result-cases}
use ebutv.Curve.{Ristretto}
use ebutv.Curve.Laws.{⊖_common}
use ebutv.Merkle.{Digest, build_merkle_tree, tree_root, merkle_path_from_tree}
use ebutv.Merkle.Paths.{verify_merkle_path-merkle_path_from_tree}
use ebutv.Challenge.{derive_challenge_indices}
use ebutv.Challenge.Indices.{IsBelow, derive_challenge_indices_lem, derive_challenge_indices-min}
use ebutv.FileBinding.PointCodec.{encode_chunk_to_point}
use ebutv.FileBinding.Private.{
  PrivateCiphertextBlock, PrivateFileWitnessBlock, PrivateBlockProof, PrivateFileProof, file_tags,
  challenge_tag, private_plaintext_h, private_cipher_leaf, prove,
}
use ebutv.FileBinding.Private.Batch.{AllOpen, verify-prove}
use ebutv.FileBinding.File.{
  all_fit, Committed, encrypt_private_block, prepare_blocks, create_private_file_commitment,
  select_blocks, check_blocks, create_private_file_proof, verify_private_file_proof,
}
use ebutv.Prelude.Options.{some_transport}
use ebutv.FileBinding.File.Checks.{passes, ltb_no, nonempty}
use mathlib.Core.Path.{ap₂}

module _ (sha512 : List ℕ → List ℕ) (r : Ristretto) (pk : r.Point) where
  open r use {Point, Scalar, identity, ◌⊕◌, ◌⊖◌, ◌⊛◌, basepoint, curve}

  pub record BlockOpens (b : PrivateCiphertextBlock Point) (w : PrivateFileWitnessBlock Scalar)
      : Type 0 where
    pub randomness : b.ciphertext.c1 ≡ w.encryption_randomness ⊛ basepoint
    pub difference :
        b.ciphertext.c2 ⊖ b.plaintext_commitment
        ≡ w.encryption_randomness ⊛ pk ⊖ w.commitment_blinding ⊛ private_plaintext_h sha512 r

  -- Three lists in step: each leaf is its block's, each witness opens its block.
  abbrev pub AllHonest :
      List (PrivateCiphertextBlock Point)
      → List Digest
      → List (PrivateFileWitnessBlock Scalar)
      → Type 0
  AllHonest [] [] [] = Unit
  AllHonest (b ∷ bs) (l ∷ ls) (w ∷ ws) =
      (l ≡ private_cipher_leaf sha512 r b) × BlockOpens b w × AllHonest bs ls ws
  AllHonest _ _ _ = ⊥

  encrypt_private_block-BlockOpens :
      (rnd s : Scalar) (bytes : List ℕ)
      (t : PrivateCiphertextBlock Point × Digest × PrivateFileWitnessBlock Scalar)
      → encrypt_private_block sha512 r rnd s pk bytes ≡ some t
      → (t.1 ≡ private_cipher_leaf sha512 r t.0) × BlockOpens t.0 t.2
  unfolding encrypt_private_block
  encrypt_private_block-BlockOpens rnd s bytes t h =
      elim (Result-cases (encode_chunk_to_point sha512 r bytes)) [
        | inl (e, fails) ↦ absurd (cc (rw fails at h))
        | inr (m, encodes) ↦
            some_transport (λ t. (t.1 ≡ private_cipher_leaf sha512 r t.0) × BlockOpens t.0 t.2) _ t
              (rw encodes at h)
              (
                refl,
                record {
                  randomness = refl;
                  difference = ⊖_common curve m (rnd ⊛ pk) (s ⊛ private_plaintext_h sha512 r);
                },
              )
      ]

  pub prepare_blocks-AllHonest :
      (draws : ℕ → Scalar × Scalar) (i : ℕ) (blocks : List (List ℕ))
      (t : List (PrivateCiphertextBlock Point)
        × List Digest
        × List (PrivateFileWitnessBlock Scalar))
      → prepare_blocks sha512 r draws pk i blocks ≡ some t
      → AllHonest t.0 t.1 t.2 × (length t.0 ≡ length blocks)
  unfolding prepare_blocks
  prepare_blocks-AllHonest draws i [] t h =
      some_transport (λ t. AllHonest t.0 t.1 t.2 × (length t.0 ≡ 0)) ([], [], []) t h (tt, refl)
  prepare_blocks-AllHonest draws i (block ∷ blocks) t h =
      elim (Option-cases (encrypt_private_block sha512 r (draws i).0 (draws i).1 pk block)) [
        | inl fails ↦ absurd (cc (rw fails at h))
        | inr (one, e) ↦ elim (Option-cases (prepare_blocks sha512 r draws pk (i + 1) blocks)) [
          | inl fails ↦ absurd (cc (rw (e, fails) at h))
          | inr (rest, f) ↦
              let (leaf, opens) = encrypt_private_block-BlockOpens _ _ block one e in
              let (honest, len) = prepare_blocks-AllHonest draws (i + 1) blocks rest f in
              some_transport (λ t. AllHonest t.0 t.1 t.2 × (length t.0 ≡ suc (length blocks))) _ t
                (rw (e, f) at h) ((leaf, opens, honest), ap suc len)
        ]
      ]

  -- What the lists hold at an index of the file.
  AllHonest-get :
      (bs : List (PrivateCiphertextBlock Point)) (ls : List Digest)
      (ws : List (PrivateFileWitnessBlock Scalar)) (i : ℕ)
      → AllHonest bs ls ws
      → i < length bs
      → (b : PrivateCiphertextBlock Point) × (w : PrivateFileWitnessBlock Scalar) × (get_elem? bs i
          ≡ some b)
        × (get_elem? ws i ≡ some w)
        × (get_or ls i [] ≡ private_cipher_leaf sha512 r b)
        × BlockOpens b w
        × (i < length ls)
  AllHonest-get [] ls ws i h lt = elim lt [ ]
  AllHonest-get (b ∷ bs) [] ws i h lt = absurd h
  AllHonest-get (b ∷ bs) (l ∷ ls) [] i h lt = absurd h
  AllHonest-get (b ∷ bs) (l ∷ ls) (w ∷ ws) zero h lt = (b, w, refl, refl, h.0, h.1, omega arith)
  AllHonest-get (b ∷ bs) (l ∷ ls) (w ∷ ws) (suc i) h lt =
      let (b', w', e, f, g, o, k) = AllHonest-get bs ls ws i h.2 (omega arith) in
      (b', w', e, f, g, o, omega arith)

  module _ (bs : List (PrivateCiphertextBlock Point)) (ls : List Digest)
      (ws : List (PrivateFileWitnessBlock Scalar)) (honest : AllHonest bs ls ws) where
    tree : List (List Digest)
    tree = build_merkle_tree sha512 file_tags ls

    -- Selecting challenged blocks succeeds, and what is selected passes the verifier's loop.
    select_blocks_lem :
        (indices : List ℕ)
        → IsBelow (length bs) indices
        → (t : List (PrivateBlockProof Point) × List (PrivateFileWitnessBlock Scalar))
          × (select_blocks sha512 r bs (build_merkle_tree sha512 file_tags ls) ws indices ≡ some t)
          × AllOpen sha512 r pk t.0 t.1
          × (length t.0 ≡ length indices)
          × (check_blocks sha512 r t.0 indices (tree_root (build_merkle_tree sha512 file_tags ls))
              ≡ true)
    unfolding select_blocks check_blocks
    select_blocks_lem [] below = (([], []), refl, tt, refl, refl)
    select_blocks_lem (i ∷ indices) below =
        let (t, e, o, len, ok_rest) = select_blocks_lem indices below.1 in
        let (b, w, eb, ew, leaf, opens, inside) = AllHonest-get bs ls ws i honest below.0 in
        let path = merkle_path_from_tree (build_merkle_tree sha512 file_tags ls) i in
        let verified = verify_merkle_path-merkle_path_from_tree sha512 file_tags ls i inside in
        (
          (record { index = i; block = b; merkle_path = path } ∷ t.0, w ∷ t.1),
          rw (eb, ew, e) refl,
          (record { randomness = opens.randomness; difference = opens.difference }, o),
          ap suc len,
          rw (==_refl i, ← leaf, verified) ok_rest,
        )

  -- What a commitment fixes.
  pub record Made (file_id : List ℕ) (file_blocks : List (List ℕ)) (t : Committed sha512 r)
      : Type 0 where
    pub honest : AllHonest t.1 t.2 t.3
    pub count : length t.1 ≡ length file_blocks
    pub root : t.0.root_hash ≡ tree_root (build_merkle_tree sha512 file_tags t.2)
    pub num_blocks : t.0.num_blocks ≡ length file_blocks
    pub version : t.0.encoding_version ≡ 1
    pub block_size : t.0.block_size ≡ 17
    pub id : t.0.file_id ≡ file_id

  pub create_private_file_commitment-Made :
      (draws : ℕ → Scalar × Scalar) (nonce file_id : List ℕ) (file_blocks : List (List ℕ))
      (t : Committed sha512 r)
      → create_private_file_commitment sha512 r draws nonce file_id file_blocks pk ≡ some t
      → Made file_id file_blocks t
  unfolding create_private_file_commitment
  create_private_file_commitment-Made draws nonce file_id file_blocks t h =
      elim (Bool-cases (all_fit sha512 r file_blocks)) [
        | inr no_fit ↦ absurd (cc (rw no_fit at h))
        | inl fit ↦ elim (Option-cases (prepare_blocks sha512 r draws pk 0 file_blocks)) [
          | inl fails ↦ absurd (cc (rw (fit, fails) at h))
          | inr (p, prepared) ↦
              let (honest, count) = prepare_blocks-AllHonest draws 0 file_blocks p prepared in
              some_transport (Made file_id file_blocks) _ t (rw (fit, prepared) at h) (record {
                honest = honest;
                count = count;
                root = refl;
                num_blocks = refl;
                version = refl;
                block_size = refl;
                id = refl;
              })
        ]
      ]

  -- Whatever file, key, draws, challenge and context: the proof made from a commitment is
  -- accepted, if the commitment is made, the file has a block at least, one at least is asked
  -- for, the sampling ends within the fuel, and the key and the commitment base are not the
  -- identity.
  pub verify_private_file_proof-create_private_file_proof :
      (draws : ℕ → Scalar × Scalar) (nonce file_id : List ℕ) (file_blocks : List (List ℕ))
      (fuel k : ℕ) (alpha_r alpha_s : Scalar) (challenge_nonce context indices : List ℕ)
      (t : Committed sha512 r)
      → pk ≢ identity
      → private_plaintext_h sha512 r ≢ identity
      → 0 < length file_blocks
      → 0 < k
      → create_private_file_commitment sha512 r draws nonce file_id file_blocks pk ≡ some t
      → derive_challenge_indices sha512 challenge_tag challenge_nonce fuel (length file_blocks) k
        ≡ some indices
      → (proof : PrivateFileProof Point Scalar) × (create_private_file_proof sha512 r fuel alpha_r
            alpha_s file_id t.1 t.2 t.0.root_hash challenge_nonce k pk t.3 context
          ≡ some proof)
        × (verify_private_file_proof sha512 r fuel proof t.0 challenge_nonce pk context ≡ some true)
  unfolding create_private_file_proof verify_private_file_proof
  verify_private_file_proof-create_private_file_proof draws nonce file_id file_blocks fuel k ar as'
        challenge_nonce context indices t key base pos asked h sampled =
      let m = create_private_file_commitment-Made draws nonce file_id file_blocks t h in
      let n : ℕ = length file_blocks in
      let (_, below, len) =
        derive_challenge_indices_lem sha512 challenge_tag challenge_nonce fuel n k indices
          sampled in
      let below' : IsBelow (length t.1) indices = rw m.count below in
      let (s, selected, opens, count, checked) =
        select_blocks_lem t.1 t.2 t.3 m.honest indices below' in
      let again =
        derive_challenge_indices-min sha512 challenge_tag challenge_nonce fuel n k ∙ sampled in
      let total : t.0.num_blocks ≡ n = m.num_blocks in
      let asked_for : length s.0 ≡ min k n = count ∙ len in
      let version : (t.0.encoding_version == 1) ≡ true = ap (λ v. v == 1) m.version in
      let size : (t.0.block_size == 0 || ltb 17 t.0.block_size) ≡ false =
        ap (λ v. v == 0 || ltb 17 v) m.block_size in
      let some_block : 0 < length s.0 = omega arith in
      let sample = derive_challenge_indices sha512 challenge_tag challenge_nonce fuel in
      let resampled : sample t.0.num_blocks (length s.0) ≡ some indices =
        ap₂ sample total asked_for ∙ again in
      let same_id : bytes_eq file_id t.0.file_id ≡ true =
        ap (bytes_eq file_id) m.id ∙ bytes_eq_refl file_id in
      let root_checked : check_blocks sha512 r s.0 indices t.0.root_hash ≡ true =
        ap (check_blocks sha512 r s.0 indices) m.root ∙ checked in
      let accepts = verify-prove sha512 r pk ar as' context s.0 s.1 key base some_block opens in
      (
        record {
          file_id = file_id;
          root_hash = t.0.root_hash;
          blocks = s.0;
          batch_proof = prove sha512 r ar as' context pk s.0 s.1;
        },
        rw (m.count, sampled, selected) refl,
        passes _ _ _ _ _ _ _ indices (λ e. check_blocks sha512 r s.0 e t.0.root_hash) _ same_id
            (bytes_eq_refl t.0.root_hash) version size (ltb_no _ _ (omega arith))
            (nonempty t.0.num_blocks s.0 some_block) resampled root_checked accepts,
      )
