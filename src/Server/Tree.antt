-- ===== src/Server/Tree.antt =====
-- src/server.rs: MerkleTree and MerkleProof, a complete binary tree over the nonces padded with
-- zeros to a power of two. SHA-256 is an argument.
pub mod RoundTrip
use ebutv.Prelude.{
  ℕ, zero, suc, ◌+◌, ◌-◌, ◌*◌, ◌/◌, ◌%◌, Bool, true, false, not, Option, none, some, List, [], ◌∷◌,
  ◌++◌, map, ltb, ◌==◌, if◌then◌else◌, length, get_or, set, replicate, bytes_eq,
}
use ebutv.Prelude.Loops.{for_below}
use ebutv.Server.Store.{Bytes}

pub record MerkleProof : Type 0 where
  pub leaf : Bytes
  pub siblings : List Bytes
  pub index : ℕ

pub record MerkleTree : Type 0 where
  pub leaves : List Bytes
  pub root : Bytes

-- `n.next_power_of_two()`, by doubling from 1 on fuel: `n` doublings are enough.
unfoldable pub double_until : ℕ → ℕ → ℕ → ℕ
double_until zero n p = p
double_until (suc fuel) n p = let rest = double_until fuel n (2 * p) in if ltb p n then rest else p

unfoldable pub next_power_of_two : ℕ → ℕ
next_power_of_two n = double_until n n 1

-- `nonces.resize(next_pow2, [0u8; 16])`
unfoldable pub padded : List Bytes → List Bytes
padded nonces =
    nonces ++ replicate (next_power_of_two (length nonces) - length nonces) (replicate 16 0)

module _ (sha256 : Bytes → Bytes) where
  -- The loop of `verify` over the siblings.
  unfoldable pub climb : Bytes → ℕ → List Bytes → Bytes
  climb current idx [] = current
  climb current idx (sibling ∷ siblings) =
      climb (sha256 (if idx % 2 == 0 then current ++ sibling else sibling ++ current)) (idx / 2)
        siblings

  unfoldable pub verify : MerkleProof → Bytes → Bool
  verify proof root = bytes_eq (climb (sha256 proof.leaf) proof.index proof.siblings) root

  -- One level of `build`, in place: `for i in 0..(level_size / 2)`.
  unfoldable pub halve_in_place : ℕ → List Bytes → List Bytes
  halve_in_place half hashes =
      for_below half (λ i hs. set hs i (sha256 (get_or hs (2 * i) [] ++ get_or hs (2 * i + 1) [])))
        hashes

  -- `while level_size > 1`, on fuel: the level size is enough.
  unfoldable pub build_loop : ℕ → ℕ → List Bytes → List Bytes
  build_loop zero level_size hashes = hashes
  build_loop (suc fuel) level_size hashes =
      let rest = build_loop fuel (level_size / 2) (halve_in_place (level_size / 2) hashes) in
      if ltb 1 level_size then rest else hashes

  unfoldable pub build : List Bytes → MerkleTree
  build nonces =
      let size = next_power_of_two (length nonces) in
      record {
        leaves = nonces;
        root = get_or (build_loop size size (map sha256 (padded nonces))) 0 [];
      }

  -- `level.chunks_exact(2)`, each pair hashed.
  unfoldable pub next_level : List Bytes → List Bytes
  next_level [] = []
  next_level (a ∷ []) = []
  next_level (a ∷ b ∷ rest) = sha256 (a ++ b) ∷ next_level rest

  -- The loop of `prove`, on fuel: the size of the level is enough.
  unfoldable pub collect_siblings : ℕ → List Bytes → ℕ → List Bytes
  collect_siblings zero level idx = []
  collect_siblings (suc fuel) level idx =
      let rest = collect_siblings fuel (next_level level) (idx / 2) in
      if ltb 1 (length level)
      then get_or level (if idx % 2 == 0 then idx + 1 else idx - 1) [] ∷ rest
      else []

  unfoldable pub prove : MerkleTree → ℕ → Option MerkleProof
  prove tree index =
      if not (ltb index (length tree.leaves))
      then none
      else some (record {
        leaf = get_or tree.leaves index [];
        siblings =
            collect_siblings (next_power_of_two (length tree.leaves))
              (map sha256 (padded tree.leaves)) index;
        index = index;
      })
