-- ===== src/Merkle/Paths.antt =====
-- The path that the tree gives for a leaf leads from the leaf to the root.
use ebutv.Prelude.{
  ℕ, zero, suc, ◌+◌, ◌-◌, ◌*◌, ◌/◌, ◌%◌, ◌≤◌, ◌<◌, ◌≡◌, refl, ap, ◌∙◌, inl, inr, true, false, List,
  [], ◌∷◌, map, arith, ltb, ◌==◌, length, get_or, take, bytes_eq_refl, Bool-cases, length-map,
  get_or-map, ltb→lt, ltb→le,
}
use ebutv.Merkle.{
  Digest, Tags, merkle_hash, merkle_combine, next_level, levels_from, build_merkle_tree, last_level,
  tree_root, fold_path, verify_merkle_path, path_loop, merkle_path_from_tree,
}

-- Below a tree that is not empty stands one level more.
top_of_cons :
    (l : List Digest) (idx : ℕ) (t : List (List Digest))
    → 0 < length t
    → (last_level (l ∷ t) ≡ last_level t)
      × (merkle_path_from_tree (l ∷ t) idx ≡ path_loop (l ∷ take (length t - 1) t) idx)
unfolding last_level merkle_path_from_tree
top_of_cons l idx [] h = absurd (omega arith)
top_of_cons l idx (m ∷ t) h =
    let e : suc (suc (length t)) - 1 ≡ suc (suc (length t) - 1) = omega arith in (refl, rw e refl)

module _ (sha512 : List ℕ → List ℕ) (tags : Tags) where
  length-next_level : (l : List Digest) → length (next_level sha512 tags l) ≡ (length l + 1) / 2
  unfolding next_level
  length-next_level [] = omega arith
  length-next_level (a ∷ []) = omega arith
  length-next_level (a ∷ b ∷ l) = omega (arith, length-next_level l)

  -- The parent of two neighbours.
  next_level_pair :
      (l : List Digest) (k : ℕ)
      → 2 * k + 1 < length l
      → get_or (next_level sha512 tags l) k []
        ≡ merkle_combine sha512 tags (get_or l (2 * k) []) (get_or l (2 * k + 1) [])
  unfolding next_level
  next_level_pair [] k h = absurd (omega arith)
  next_level_pair (a ∷ []) k h = absurd (omega arith)
  next_level_pair (a ∷ b ∷ l) zero h = refl
  next_level_pair (a ∷ b ∷ l) (suc k) h =
      let e : 2 * suc k ≡ suc (suc (2 * k)) = omega arith in
      let e' : 2 * suc k + 1 ≡ suc (suc (2 * k + 1)) = omega arith in
      rw (e', e) (next_level_pair l k (omega arith))

  -- A node with no right neighbour is promoted.
  next_level_single :
      (l : List Digest) (k : ℕ)
      → 2 * k + 1 ≡ length l
      → get_or (next_level sha512 tags l) k [] ≡ get_or l (2 * k) []
  unfolding next_level
  next_level_single [] k h = absurd (omega arith)
  next_level_single (a ∷ []) zero h = refl
  next_level_single (a ∷ []) (suc k) h = absurd (omega arith)
  next_level_single (a ∷ b ∷ l) zero h = absurd (omega arith)
  next_level_single (a ∷ b ∷ l) (suc k) h =
      let e : 2 * suc k ≡ suc (suc (2 * k)) = omega arith in
      rw e (next_level_single l k (omega arith))

  -- One level up: the node and its sibling, or the promoted node.
  path_step :
      (l : List Digest) (ls : List (List Digest)) (idx : ℕ)
      → idx < length l
      → fold_path sha512 tags (get_or l idx []) (path_loop (l ∷ ls) idx)
        ≡ fold_path sha512 tags
            (get_or (next_level sha512 tags l) (idx / 2) [])
            (path_loop ls (idx / 2))
  unfolding path_loop fold_path
  path_step l ls idx h = elim (Bool-cases (idx % 2 == 0)) [
    | inl even ↦
        let e : idx ≡ 2 * (idx / 2) = ground arith in
        let s : idx + 1 ≡ 2 * (idx / 2) + 1 = omega arith in
        elim (Bool-cases (ltb (idx + 1) (length l))) [
          | inl inside ↦
              let right : ltb (idx + 1) idx ≡ false = ground arith in
              rw (even, inside, right, next_level_pair l (idx / 2) (ground arith), ← s, ← e) refl
          | inr last ↦ rw (even, last, next_level_single l (idx / 2) (ground arith), ← e) refl
        ]
    | inr odd ↦
        let e : idx ≡ 2 * (idx / 2) + 1 = ground arith in
        let s : idx - 1 ≡ 2 * (idx / 2) = omega arith in
        let inside : ltb (idx - 1) (length l) ≡ true = ground arith in
        let left : ltb (idx - 1) idx ≡ true = ground arith in
        rw (odd, inside, left, next_level_pair l (idx / 2) (ground arith), ← e, ← s) refl
  ]

  levels_from_nonempty : (fuel : ℕ) (l : List Digest) → 0 < length (levels_from sha512 tags fuel l)
  unfolding levels_from
  levels_from_nonempty zero l = omega arith
  levels_from_nonempty (suc fuel) l = ground arith

  single_level :
      (l : List Digest) (idx : ℕ)
      → idx < length l
      → length l ≤ 1
      → fold_path sha512 tags (get_or l idx []) (merkle_path_from_tree (l ∷ []) idx)
        ≡ tree_root (l ∷ [])
  unfolding fold_path merkle_path_from_tree path_loop tree_root last_level
  single_level l zero h one = refl
  single_level l (suc idx) h one = absurd (omega arith)

  fold_path-levels_from :
      (fuel : ℕ) (l : List Digest) (idx : ℕ)
      → idx < length l
      → length l ≤ suc fuel
      → fold_path sha512 tags
          (get_or l idx [])
          (merkle_path_from_tree (levels_from sha512 tags fuel l) idx)
        ≡ tree_root (levels_from sha512 tags fuel l)
  unfolding levels_from tree_root merkle_path_from_tree
  fold_path-levels_from zero l idx h one = single_level l idx h one
  fold_path-levels_from (suc fuel) l idx h enough = elim (Bool-cases (ltb 1 (length l))) [
    | inl more ↦
        let up = next_level sha512 tags l in
        let two : 1 < length l = ltb→lt 1 (length l) more in
        let (root, path) =
          top_of_cons l idx (levels_from sha512 tags fuel up) (levels_from_nonempty fuel up) in
        let rest = levels_from sha512 tags fuel up in
        rw (more, root)
          (ap (fold_path sha512 tags (get_or l idx [])) path
            ∙ path_step l (take (length rest - 1) rest) idx h
            ∙ fold_path-levels_from fuel up (idx / 2) (omega (arith, length-next_level l))
                (omega (arith, length-next_level l)))
    | inr one ↦ rw one (single_level l idx h (ltb→le 1 (length l) one))
  ]

  -- The fuel, the number of leaves, is enough: the tree ends in a single root.
  pub levels_from_root :
      (fuel : ℕ) (l : List Digest)
      → 0 < length l
      → length l ≤ suc fuel
      → length (last_level (levels_from sha512 tags fuel l)) ≡ 1
  unfolding levels_from
  levels_from_root zero l pos enough = unfold last_level in omega arith
  levels_from_root (suc fuel) l pos enough = elim (Bool-cases (ltb 1 (length l))) [
    | inl more ↦
        let up = next_level sha512 tags l in
        let (root, _) =
          top_of_cons l 0 (levels_from sha512 tags fuel up) (levels_from_nonempty fuel up) in
        rw (more, root)
          (levels_from_root fuel up (omega (arith, length-next_level l, ltb→lt 1 (length l) more))
            (omega (arith, length-next_level l, ltb→lt 1 (length l) more)))
    | inr one ↦ rw one (unfold last_level in omega (arith, ltb→le 1 (length l) one))
  ]

  -- For every leaf, the path from the tree built over the leaves verifies against its root.
  pub verify_merkle_path-merkle_path_from_tree :
      (leaves : List Digest) (index : ℕ)
      → index < length leaves
      → verify_merkle_path sha512 tags
          (get_or leaves index [])
          (merkle_path_from_tree (build_merkle_tree sha512 tags leaves) index)
          (tree_root (build_merkle_tree sha512 tags leaves))
        ≡ true
  unfolding verify_merkle_path build_merkle_tree
  verify_merkle_path-merkle_path_from_tree [] index h = absurd (omega arith)
  verify_merkle_path-merkle_path_from_tree (leaf ∷ leaves) index h =
      let hashed : List Digest = map (merkle_hash sha512 tags) (leaf ∷ leaves) in
      let len : length hashed ≡ suc (length leaves) = length-map (leaf ∷ leaves) _ in
      rw
        (
          ← get_or-map (merkle_hash sha512 tags) (leaf ∷ leaves) index [] [] h,
          fold_path-levels_from (suc (length leaves)) hashed index (omega arith) (omega arith),
        )
        (bytes_eq_refl _)
