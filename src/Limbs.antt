-- ===== src/Limbs.antt =====
-- The 256-bit integers of four 64-bit limbs, which src/hash.rs and src/batched_eq.rs each have for
-- themselves. `none` is a failed debug assertion.
pub mod Value
use ebutv.Prelude.{
  ℕ, zero, suc, ◌+◌, ◌-◌, ◌*◌, ◌/◌, ◌%◌, ◌^◌, Bool, true, false, not, ◌||◌, Option, none, some,
  List, [], ◌∷◌, ◌++◌, ltb, ◌==◌, if◌then◌else◌, take, drop,
}
use ebutv.Prelude.Options.{◌>>=◌, assert}
use ebutv.Prelude.Text.{to_le_bytes, from_le_bytes}

-- `[u64; 4]`, the least significant limb first.
pub record U256 : Type 0 where
  pub l0 : ℕ
  pub l1 : ℕ
  pub l2 : ℕ
  pub l3 : ℕ

-- The chunks of eight bytes.
unfoldable pub u256_from_le_bytes : List ℕ → U256
u256_from_le_bytes bytes =
    let rest1 = drop 8 bytes in
    let rest2 = drop 8 rest1 in
    let rest3 = drop 8 rest2 in
    record {
      l0 = from_le_bytes (take 8 bytes);
      l1 = from_le_bytes (take 8 rest1);
      l2 = from_le_bytes (take 8 rest2);
      l3 = from_le_bytes (take 8 rest3);
    }

unfoldable pub u256_to_le_bytes : U256 → List ℕ
u256_to_le_bytes limbs =
    to_le_bytes 8 limbs.l0
    ++ (to_le_bytes 8 limbs.l1 ++ (to_le_bytes 8 limbs.l2 ++ to_le_bytes 8 limbs.l3))

-- The loop from the most significant limb down.
unfoldable pub u256_lt : U256 → U256 → Bool
u256_lt a b =
    if not (a.l3 == b.l3)
    then ltb a.l3 b.l3
    else (if not (a.l2 == b.l2)
        then ltb a.l2 b.l2
        else (if not (a.l1 == b.l1)
            then ltb a.l1 b.l1
            else (if not (a.l0 == b.l0) then ltb a.l0 b.l0 else false)))

-- `a[i] as u128 * b as u128 + carry`
abbrev pub mul_step : ℕ → ℕ → ℕ → ℕ
mul_step a b carry = (a * b + carry) % 2 ^ 128

unfoldable pub u256_mul_u64 : U256 → ℕ → Option U256
u256_mul_u64 a b =
    let p0 = mul_step a.l0 b 0 in
    let p1 = mul_step a.l1 b (p0 / 2 ^ 64) in
    let p2 = mul_step a.l2 b (p1 / 2 ^ 64) in
    let p3 = mul_step a.l3 b (p2 / 2 ^ 64) in
    assert (p3 / 2 ^ 64 == 0) >>= λ _.
    some (record { l0 = p0 % 2 ^ 64; l1 = p1 % 2 ^ 64; l2 = p2 % 2 ^ 64; l3 = p3 % 2 ^ 64 })

unfoldable pub u256_add : U256 → U256 → Option U256
u256_add a b =
    let s0 = a.l0 + b.l0 in
    let s1 = a.l1 + b.l1 + s0 / 2 ^ 64 in
    let s2 = a.l2 + b.l2 + s1 / 2 ^ 64 in
    let s3 = a.l3 + b.l3 + s2 / 2 ^ 64 in
    assert (s3 / 2 ^ 64 == 0) >>= λ _.
    some (record { l0 = s0 % 2 ^ 64; l1 = s1 % 2 ^ 64; l2 = s2 % 2 ^ 64; l3 = s3 % 2 ^ 64 })

-- `overflowing_sub` twice: the difference and the borrow.
unfoldable pub sub_step : ℕ → ℕ → ℕ → ℕ × ℕ
sub_step a b borrow =
    let d1 = (a + 2 ^ 64 - b) % 2 ^ 64 in
    ((d1 + 2 ^ 64 - borrow) % 2 ^ 64, if ltb a b || ltb d1 borrow then 1 else 0)

-- `sub_u64x4` of src/hash.rs
unfoldable pub sub_u64x4 : U256 → U256 → U256
sub_u64x4 a b =
    let d0 = sub_step a.l0 b.l0 0 in
    let d1 = sub_step a.l1 b.l1 d0.1 in
    let d2 = sub_step a.l2 b.l2 d1.1 in
    let d3 = sub_step a.l3 b.l3 d2.1 in record { l0 = d0.0; l1 = d1.0; l2 = d2.0; l3 = d3.0 }
