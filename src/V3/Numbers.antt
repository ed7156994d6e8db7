-- ===== src/V3/Numbers.antt =====
-- src/v3_zkp/utils.rs: big integers reduce to the scalars that they stand for.
use ebutv.Prelude.{
  ℕ, zero, suc, ◌+◌, ◌*◌, ◌/◌, ◌%◌, ◌^◌, ◌<◌, ◌≡◌, sym, ap, ◌∙◌, arith, List, [], ◌∷◌, length, All,
}
use native.Mathlib.Nat.{pow-succ', mul_assoc}
use ebutv.Prelude.Text.{to_le_bytes, from_le_bytes}
use ebutv.Limbs.Value.{length-to_le_bytes, from_le_bytes-to_le_bytes}
use ebutv.Bls.{Bls, order}
use ebutv.Dalek.{Dalek, order_25519}
use ebutv.V3.{biguint_to_bls_scalar, biguint_to_ristretto_scalar, from_bytes_be}

-- A function that forgets multiples of a number sees the remainder only.
pub periodic :
    {A : Type 0} (f : ℕ → A) (n : ℕ) → ((a : ℕ) → f (a + n) ≡ f a) → (k y : ℕ) → f (y + k * n) ≡ f y
periodic f n h zero y = ap f (let e : y + 0 * n ≡ y = grind arith in e)
periodic f n h (suc k) y =
    ap f (let e : y + suc k * n ≡ y + k * n + n = grind arith in e)
    ∙ h (y + k * n)
    ∙ periodic f n h k y

pub from_bytes_be-lt :
    (bytes : List ℕ) (acc k : ℕ)
    → All (λ b. b < 256) bytes
    → acc < k
    → from_bytes_be acc bytes < k * 256 ^ length bytes
unfolding from_bytes_be
from_bytes_be-lt [] acc k h small = omega arith
from_bytes_be-lt (b ∷ bytes) acc k h small =
    let e : k * 256 ^ suc (length bytes) ≡ 256 * k * 256 ^ length bytes =
      ap (λ t. k * t) (omega (arith, pow-succ' 256 (length bytes)))
      ∙ sym (mul_assoc k 256 (256 ^ length bytes))
      ∙ ap (λ t. t * 256 ^ length bytes) (omega arith) in
    rw e (from_bytes_be-lt bytes (256 * acc + b) (256 * k) h.1 (omega (arith, h.0)))

module _ (bls : Bls) (dalek : Dalek) where
  open bls use {Scalar, from_number, from_number_order, from_bytes_le, from_bytes_le_lem}

  pub biguint_to_bls_scalar_lem : (x : ℕ) → biguint_to_bls_scalar bls dalek x ≡ from_number x
  unfolding biguint_to_bls_scalar
  biguint_to_bls_scalar_lem x =
      let small : x % order < order = omega arith in
      let value : from_le_bytes (to_le_bytes 32 (x % order)) ≡ x % order =
        from_le_bytes-to_le_bytes 32 (x % order) (omega arith) in
      rw
        (from_bytes_le_lem (to_le_bytes 32 (x % order)) (length-to_le_bytes 32 (x % order))
          (omega arith))
        (ap from_number value
          ∙ sym (periodic from_number order from_number_order (x / order) (x % order))
          ∙ ap from_number (omega arith))

  pub biguint_to_ristretto_scalar_lem :
      (x : ℕ) → biguint_to_ristretto_scalar bls dalek x ≡ dalek.embed x
  unfolding biguint_to_ristretto_scalar
  biguint_to_ristretto_scalar_lem x =
      let value : from_le_bytes (to_le_bytes 32 (x % order_25519)) ≡ x % order_25519 =
        from_le_bytes-to_le_bytes 32 (x % order_25519) (omega arith) in
      dalek.from_bytes_mod_order_lem (to_le_bytes 32 (x % order_25519))
      ∙ ap dalek.embed value
      ∙ sym (periodic dalek.embed order_25519 dalek.embed_order (x / order_25519) (x % order_25519))
      ∙ ap dalek.embed (omega arith)
