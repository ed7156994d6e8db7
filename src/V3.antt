-- ===== src/V3.antt =====
-- src/v3_zkp: the proof that a hidden number lies in a signed gap. Its generators and the reduction of
-- big integers to scalars (src/v3_zkp/generators.rs, src/v3_zkp/utils.rs).
pub mod Numbers
pub mod Gap
pub mod Equality
pub mod Prover
use ebutv.Prelude.{ℕ, ◌+◌, ◌*◌, ◌%◌, Option, none, some, List, [], ◌∷◌, ◌++◌}
use ebutv.Prelude.Text.{codes, to_le_bytes}
use ebutv.Bls.{Bls, order}
use ebutv.Dalek.{Dalek, order_25519}
use ebutv.Setup.{h}

-- `BigUint::from_bytes_be`, after the bytes that were read.
unfoldable pub from_bytes_be : ℕ → List ℕ → ℕ
from_bytes_be acc [] = acc
from_bytes_be acc (b ∷ bytes) = from_bytes_be (256 * acc + b) bytes

module _ (bls : Bls) (dalek : Dalek) where
  open bls use {Point, Scalar, scalar_zero, from_bytes_le, sha512}

  -- `from_repr_vartime(..).unwrap_or(ZERO)`
  abbrev pub or_zero : Option Scalar → Scalar
  or_zero none = scalar_zero
  or_zero (some s) = s

  unfoldable pub biguint_to_bls_scalar : ℕ → Scalar
  biguint_to_bls_scalar x = or_zero (from_bytes_le (to_le_bytes 32 (x % order)))

  unfoldable pub biguint_to_ristretto_scalar : ℕ → dalek.Scalar
  biguint_to_ristretto_scalar x = dalek.from_bytes_mod_order (to_le_bytes 32 (x % order_25519))

  unfoldable pub ristretto_gv : dalek.Point
  ristretto_gv = dalek.from_uniform_bytes (sha512 (codes "EBUT:V3:Ristretto:GV"))

  unfoldable pub ristretto_g1 : dalek.Point
  ristretto_g1 = dalek.from_uniform_bytes (sha512 (codes "EBUT:V3:Ristretto:G1"))

  -- `bls_g1_affine` and `bls_h1_affine`
  unfoldable pub bls_g1 : Point
  bls_g1 = h bls 5

  unfoldable pub bls_h1 : Point
  bls_h1 = h bls 0
