-- ===== src/Merkle.antt =====
-- The Merkle tree of the file bindings (src/file_binding.rs, and with other tags
-- src/option1_file_binding.rs): an odd node is promoted to the next level unchanged.
pub mod Paths
pub mod Binding
use ebutv.Prelude.{
  ℕ, zero, suc, ◌+◌, ◌-◌, ◌/◌, ◌%◌, Bool, true, false, List, [], ◌∷◌, ◌++◌, map, ltb, ◌==◌,
  if◌then◌else◌, length, get_or, take, replicate, bytes_eq,
}
use ebutv.Prelude.Text.{codes}

abbrev pub Digest : Type 0
Digest = List ℕ

-- A sibling on the path, and whether it stands to the left.
abbrev pub MerklePath : Type 0
MerklePath = List (Bool × Digest)

-- The tags that keep leaves and inner nodes apart.
pub record Tags : Type 0 where
  pub leaf_tag : List ℕ
  pub node_tag : List ℕ

-- `*tree.last().unwrap().first().unwrap()`
unfoldable pub last_level : List (List Digest) → List Digest
last_level [] = []
last_level (level ∷ []) = level
last_level (level ∷ l ∷ rest) = last_level (l ∷ rest)

unfoldable pub tree_root : List (List Digest) → Digest
tree_root tree = get_or (last_level tree) 0 []

-- In this file the tags are arguments; the two users fix them.
module _ (sha512 : List ℕ → List ℕ) (tags : Tags) where
  unfoldable pub merkle_hash : Digest → Digest
  merkle_hash leaf = take 32 (sha512 (tags.leaf_tag ++ leaf))

  unfoldable pub merkle_combine : Digest → Digest → Digest
  merkle_combine left right = take 32 (sha512 (tags.node_tag ++ (left ++ right)))

  -- One round over `level.chunks(2)`.
  unfoldable pub next_level : List Digest → List Digest
  next_level [] = []
  next_level (a ∷ []) = a ∷ []
  next_level (a ∷ b ∷ rest) = merkle_combine a b ∷ next_level rest

  -- `tree.push(level)` before the loop and in it; the loop runs while a level has two nodes.
  unfoldable pub levels_from : ℕ → List Digest → List (List Digest)
  levels_from zero level = level ∷ []
  levels_from (suc fuel) level =
      let rest = levels_from fuel (next_level level) in
      if ltb 1 (length level) then level ∷ rest else level ∷ []

  unfoldable pub build_merkle_tree : List Digest → List (List Digest)
  build_merkle_tree [] = (replicate 32 0 ∷ []) ∷ []
  build_merkle_tree (leaf ∷ leaves) =
      levels_from (length (leaf ∷ leaves)) (map merkle_hash (leaf ∷ leaves))

  unfoldable pub fold_path : Digest → MerklePath → Digest
  fold_path current [] = current
  fold_path current ((true, sibling) ∷ path) = fold_path (merkle_combine sibling current) path
  fold_path current ((false, sibling) ∷ path) = fold_path (merkle_combine current sibling) path

  unfoldable pub verify_merkle_path : Digest → MerklePath → Digest → Bool
  verify_merkle_path leaf path root = bytes_eq (fold_path (merkle_hash leaf) path) root

abbrev pub sibling_index : ℕ → ℕ
sibling_index idx = if idx % 2 == 0 then idx + 1 else idx - 1

-- The loop over the levels below the root.
unfoldable pub path_loop : List (List Digest) → ℕ → MerklePath
path_loop [] idx = []
path_loop (level ∷ levels) idx =
    let sibling_idx = sibling_index idx in
    let rest = path_loop levels (idx / 2) in
    if ltb sibling_idx (length level)
    then (ltb sibling_idx idx, get_or level sibling_idx []) ∷ rest
    else rest

unfoldable pub merkle_path_from_tree : List (List Digest) → ℕ → MerklePath
merkle_path_from_tree tree index = path_loop (take (length tree - 1) tree) index
