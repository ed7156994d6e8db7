-- ===== src/Challenge.antt =====
-- Challenge sampling: which blocks of a file a verifier asks for (src/file_binding.rs, and with
-- another tag src/option1_file_binding.rs).
pub mod Indices
use ebutv.Prelude.{
  ℕ, zero, suc, ◌+◌, ◌*◌, ◌/◌, ◌%◌, ◌^◌, Bool, true, false, ◌||◌, Option, none, some, List, [], ◌∷◌,
  ◌++◌, min, ltb, ◌==◌, if◌then◌else◌, length, take,
}
use ebutv.Prelude.Text.{to_le_bytes, from_le_bytes}

-- `BTreeSet::insert` on the ascending list of the members.
unfoldable pub insert : ℕ → List ℕ → List ℕ
insert x [] = x ∷ []
insert x (y ∷ ys) = if ltb x y then x ∷ y ∷ ys else (if x == y then y ∷ ys else y ∷ insert x ys)

-- `(from..from + n).collect()`
unfoldable pub range_from : ℕ → ℕ → List ℕ
range_from from zero = []
range_from from (suc n) = from ∷ range_from (from + 1) n

module _ (sha512 : List ℕ → List ℕ) (tag : List ℕ) (nonce : List ℕ) where
  -- The index that the digest of one counter value gives.
  unfoldable pub draw : ℕ → ℕ → ℕ → ℕ
  draw num_blocks target counter =
      from_le_bytes (
        take 16 (
          sha512 (
            tag
            ++ (nonce
                ++ (to_le_bytes 8 num_blocks ++ (to_le_bytes 8 target ++ to_le_bytes 8 counter))))))
      % num_blocks

  -- `while out.len() < target`; `none` means that the fuel ran out. The counter is a wrapping u64.
  unfoldable pub draw_loop : ℕ → ℕ → ℕ → ℕ → List ℕ → Option (List ℕ)
  draw_loop zero num_blocks target counter out = if ltb (length out) target then none else some out
  draw_loop (suc fuel) num_blocks target counter out =
      let rest =
        draw_loop fuel num_blocks target ((counter + 1) % 2 ^ 64)
          (insert (draw num_blocks target counter) out) in
      if ltb (length out) target then rest else some out

  unfoldable pub derive_challenge_indices : ℕ → ℕ → ℕ → Option (List ℕ)
  derive_challenge_indices fuel num_blocks count =
      if num_blocks == 0 || count == 0
      then some []
      else (if min count num_blocks == num_blocks
          then some (range_from 0 num_blocks)
          else draw_loop fuel num_blocks (min count num_blocks) 0 [])
