-- ===== src/Samples.antt =====
-- Small concrete inputs on which the theorems are applied: a hash, a Ristretto group of two points
-- whose codec knows two encodings, and a store that holds lists.
pub mod Files
pub mod Minting
pub mod Packed
pub mod Trees
pub mod Database
mod Service
pub mod Residues
pub mod Groups
pub mod Spending
pub mod Epochs
pub mod Revoked
pub mod Bridge
use ebutv.Prelude.{
  ℕ, zero, suc, ◌≡◌, refl, ◌≢◌, Bool, true, false, Option, none, some, List, [], ◌∷◌, ◌++◌,
  replicate, bytes_eq, if◌then◌else◌,
}
use ebutv.Curve.{Curve, Ristretto}
use ebutv.Curve.Sample.{parity}

abbrev pub constant_hash : List ℕ → List ℕ
constant_hash x = replicate 64 0

-- The encoding of the chunk [5] under this hash.
abbrev pub five : List ℕ
five = 10 ∷ replicate 31 0

abbrev pub two_codes : Bool → List ℕ
two_codes true = five
two_codes false = replicate 32 0

abbrev pub two_points : Ristretto
two_points = record {
  curve = parity;
  basepoint = true;
  compress = two_codes;
  decompress = λ bytes.
      if bytes_eq bytes five
      then some true
      else (if bytes_eq bytes (replicate 32 0) then some false else none);
  from_uniform_bytes = λ x. true;
  from_bytes_mod_order_wide = λ x. true;
}

pub point_ne : ◌≢◌ {A = Bool} true false
point_ne e = absurd cc
