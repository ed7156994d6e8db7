-- ===== src/Hash.antt =====
-- src/hash.rs: reduction of bytes to scalars, and the hashes to scalars and points. `none` is a
-- panic of `expect`.
pub mod Reduction
use ebutv.Prelude.{
  ℕ, zero, suc, Bool, true, false, Option, none, some, List, [], ◌∷◌, ◌++◌, if◌then◌else◌, take,
  drop,
}
use ebutv.Prelude.Options.{◌>>=◌}
use ebutv.Prelude.Text.{codes, to_le_bytes}
use ebutv.Limbs.{U256, u256_from_le_bytes, u256_to_le_bytes, u256_lt, sub_u64x4}
use ebutv.Bls.{Bls}

abbrev pub r_limbs : U256
r_limbs = record {
  l0 = 0xffffffff00000001;
  l1 = 0x53bda402fffe5bfe;
  l2 = 0x3339d80809a1d805;
  l3 = 0x73eda753299d7d48;
}

unfoldable pub lt_r : U256 → Bool
lt_r v = u256_lt v r_limbs

-- `K = 2^256 mod r`, in little-endian bytes.
abbrev pub k_2_256_mod_r : List ℕ
k_2_256_mod_r =
    0xfe ∷ 0xff ∷ 0xff ∷ 0xff ∷ 0x01 ∷ 0x00 ∷ 0x00 ∷ 0x00 ∷ 0x02 ∷ 0x48 ∷ 0x03 ∷ 0x00 ∷ 0xfa ∷ 0xb7
    ∷ 0x84 ∷ 0x58 ∷ 0xf5 ∷ 0x4f ∷ 0xbc ∷ 0xec ∷ 0xef ∷ 0x4f ∷ 0x8c ∷ 0x99 ∷ 0x6f ∷ 0x05 ∷ 0xc5
    ∷ 0xac ∷ 0x59 ∷ 0xb1 ∷ 0x24 ∷ 0x18 ∷ []

module _ (bls : Bls) where
  open bls use {
    Point, Scalar, ◌⊞◌, ◌⊠◌, G2, generator, generator_g2, hash_to_curve, to_compressed,
    to_compressed_g2, from_bytes_le, sha256, sha512,
  }

  -- The rounds that are left of the subtraction.
  unfoldable pub reduce : ℕ → U256 → Option Scalar
  reduce zero v = from_bytes_le (u256_to_le_bytes v)
  reduce (suc rounds) v =
      let rest = reduce rounds (sub_u64x4 v r_limbs) in
      if lt_r v then from_bytes_le (u256_to_le_bytes v) else rest

  unfoldable pub scalar_from_le_bytes_mod_order : List ℕ → Option Scalar
  scalar_from_le_bytes_mod_order bytes = reduce 3 (u256_from_le_bytes bytes)

  -- The digest widened, and its halves put together.
  unfoldable pub scalar_from_hash : List ℕ → Option Scalar
  scalar_from_hash digest = do
    let wide_bytes = sha512 digest
    s_lo ← scalar_from_le_bytes_mod_order (take 32 wide_bytes)
    s_hi ← scalar_from_le_bytes_mod_order (drop 32 wide_bytes)
    k ← from_bytes_le k_2_256_mod_r
    some (s_lo ⊞ s_hi ⊠ k)

  -- `hash_to_scalar`, and `hash_to_scalar_from_hasher` on what the hasher was given.
  unfoldable pub hash_to_scalar : List ℕ → Option Scalar
  hash_to_scalar preimage = scalar_from_hash (sha256 preimage)

  unfoldable pub hash_to_g1 : List ℕ → List ℕ → Point
  hash_to_g1 dst message = hash_to_curve message dst

  -- `write_g1` of each point in turn.
  unfoldable pub write_points : List Point → List ℕ
  write_points [] = []
  write_points (p ∷ h) = to_compressed p ++ write_points h

  unfoldable pub compute_h_ctx : List ℕ → G2 → G2 → List Point → Option Scalar
  compute_h_ctx app_id pk_master pk_daily h = hash_to_scalar (
      codes "ACT:Context"
      ++ (app_id
          ++ (to_compressed_g2 pk_master
              ++ (to_compressed_g2 pk_daily
                  ++ (to_compressed generator
                      ++ (to_compressed_g2 generator_g2 ++ write_points h))))))
