-- ===== src/Bls.antt =====
-- What the program uses of blstrs, pairing and sha2 (libraries outside the repository): the group G1
-- with its scalar field and codecs, the keys in G2 with the pairing check, and the two hashes. The
-- laws are those of the documentation: the scalar field has `order` elements, bytes are canonical
-- and little-endian, `multi_exp` is the sum of the products, and the pairing is bilinear and not
-- degenerate.
use ebutv.Prelude.{ℕ, ◌+◌, ◌*◌, ◌<◌, ◌≡◌, ◌↔◌, Bool, true, false, Option, some, List, length, All}
use ebutv.Prelude.Text.{from_le_bytes}
use ebutv.Curve.{Curve}
use ebutv.Msm.{fold_products}

-- The order of the scalar field.
abbrev pub order : ℕ
order = 0x73eda753299d7d483339d80809a1d80553bda402fffe5bfeffffffff00000001

pub record Bls : Type 1 where
  pub g1 : Curve
  pub open g1 use *
  pub G2 : Type 0
  pub generator : Point
  pub generator_g2 : G2
  pub g2_multiple : Scalar → G2
  pub hash_to_curve : List ℕ → List ℕ → Point
  pub to_compressed : Point → List ℕ
  pub to_compressed_g2 : G2 → List ℕ
  pub inverse : Scalar → Scalar
  pub is_zero : Scalar → Bool
  pub from_number : ℕ → Scalar
  pub to_bytes_le : Scalar → List ℕ
  pub from_bytes_le : List ℕ → Option Scalar
  pub multi_exp : List Point → List Scalar → Point
  pub pairing_is_one : Point → G2 → Point → G2 → Bool
  pub sha256 : List ℕ → List ℕ
  pub sha512 : List ℕ → List ℕ
  pub inverse_lem : (d : Scalar) (p : Point) → is_zero d ≡ false → d ⊛ (inverse d ⊛ p) ≡ p
  pub from_number_zero : from_number 0 ≡ scalar_zero
  pub from_number_one : from_number 1 ≡ scalar_one
  pub from_number_add : (a b : ℕ) → from_number (a + b) ≡ from_number a ⊞ from_number b
  pub from_number_mul : (a b : ℕ) → from_number (a * b) ≡ from_number a ⊠ from_number b
  pub from_number_order : (a : ℕ) → from_number (a + order) ≡ from_number a
  pub length-to_bytes_le : (s : Scalar) → length (to_bytes_le s) ≡ 32
  pub to_bytes_le-All : (s : Scalar) → All (λ b. b < 256) (to_bytes_le s)
  pub from_number-to_bytes_le : (s : Scalar) → from_number (from_le_bytes (to_bytes_le s)) ≡ s
  pub from_bytes_le-to_bytes_le : (s : Scalar) → from_bytes_le (to_bytes_le s) ≡ some s
  pub from_bytes_le_lem :
      (bytes : List ℕ)
      → length bytes ≡ 32
      → from_le_bytes bytes < order
      → from_bytes_le bytes ≡ some (from_number (from_le_bytes bytes))
  pub multi_exp_lem :
      (bases : List Point) (scalars : List Scalar)
      → length bases ≡ length scalars
      → multi_exp bases scalars ≡ fold_products g1 bases scalars identity
  pub pairing_lem :
      (sk : Scalar) (p q : Point)
      → (pairing_is_one p (g2_multiple sk) q generator_g2 ≡ true) ↔ (sk ⊛ p ⊕ q ≡ identity)
  pub length-sha256 : (bytes : List ℕ) → length (sha256 bytes) ≡ 32
  pub sha256-All : (bytes : List ℕ) → All (λ b. b < 256) (sha256 bytes)
  pub length-sha512 : (bytes : List ℕ) → length (sha512 bytes) ≡ 64
  pub sha512-All : (bytes : List ℕ) → All (λ b. b < 256) (sha512 bytes)
