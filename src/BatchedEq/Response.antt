-- ===== src/BatchedEq/Response.antt =====
-- src/batched_eq.rs: the integer response has no overflow, and is below the order of Ristretto.
use ebutv.Prelude.{
  ℕ, ◌+◌, ◌*◌, ◌^◌, ◌<◌, ◌≤◌, ◌≡◌, refl, ap, arith, true, List, ◌++◌, ◌==◌, get_or, length, All,
}
use native.Mathlib.Nat.{mul-le-mul}
use ebutv.Prelude.Outcome.{done}
use ebutv.Prelude.Text.{from_le_bytes}
use ebutv.Limbs.{u256_from_le_bytes, u256_to_le_bytes}
use ebutv.Limbs.Value.{
  value, u256_from_le_bytes_lem, u256_mul_u64_lem, u256_add_lem, u256_to_le_bytes_lem,
  u256_to_le_bytes-All, get_or-weight, from_le_bytes-append,
}
use ebutv.Bls.{Bls}
use ebutv.Dalek.{Dalek}
use ebutv.BatchedEq.{integer_response}

-- Zeros at the end change the number of the bytes no more than the length of the scalar.
pub padded :
    (bytes zeros : List ℕ)
    → from_le_bytes zeros ≡ 0
    → from_le_bytes (bytes ++ zeros) ≡ from_le_bytes bytes
padded bytes zeros z = rw (from_le_bytes-append bytes zeros, z) (omega arith)

product_bound : (c m : ℕ) → c < 2 ^ 128 → m < 2 ^ 64 → c * m < 2 ^ 192
product_bound c m h k =
    let b : c * m ≤ 340282366920938463463374607431768211455 * 18446744073709551615 =
      mul-le-mul {n₂ = 340282366920938463463374607431768211455} {m₂ = 18446744073709551615}
        (omega arith) (omega arith) in
    omega arith

top_byte : (bytes : List ℕ) → from_le_bytes bytes < 2 ^ 241 → (get_or bytes 31 0 == 0) ≡ true
top_byte bytes h =
    let z : get_or bytes 31 0 ≡ 0 = omega (arith, get_or-weight bytes 31) in rw z refl

module _ (bls : Bls) (dalek : Dalek) where
  -- What the response is: the number u + c·m in 32 bytes.
  pub record Responds (u c m : ℕ) (bytes : List ℕ) : Type 0 where
    pub number : from_le_bytes bytes ≡ u + c * m
    pub size : length bytes ≡ 32
    pub are_bytes : All (λ b. b < 256) bytes
    pub small : from_le_bytes bytes < 2 ^ 241

  -- For a mask below 2 ^ 240, a challenge below 2 ^ 128 and a value below 2 ^ 64, each of the lengths
  -- that the code has, the integer response is made: no step overflows 256 bits, the assertion on
  -- the top byte holds, and the bytes are those of mask + challenge * value, below 2 ^ 241.
  pub integer_response_lem :
      (u_m_32 c_32 : List ℕ) (m : ℕ)
      → length u_m_32 ≡ 32
      → All (λ b. b < 256) u_m_32
      → from_le_bytes u_m_32 < 2 ^ 240
      → length c_32 ≡ 32
      → All (λ b. b < 256) c_32
      → from_le_bytes c_32 < 2 ^ 128
      → m < 2 ^ 64
      → (bytes : List ℕ) × (integer_response bls dalek u_m_32 c_32 m ≡ done bytes)
        × Responds (from_le_bytes u_m_32) (from_le_bytes c_32) m bytes
  unfolding integer_response
  integer_response_lem u c m ul ua us cl ca cs h =
      let (uin, ue) = u256_from_le_bytes_lem u ul ua in
      let (cin, ce) = u256_from_le_bytes_lem c cl ca in
      let fits = product_bound (from_le_bytes c) m cs h in
      let e : value (u256_from_le_bytes c) * m ≡ from_le_bytes c * m = ap (λ t. t * m) ce in
      let (p, pe, pin, pv) = u256_mul_u64_lem (u256_from_le_bytes c) m cin h (omega arith) in
      let (z, ze, zin, zv) =
        u256_add_lem (u256_from_le_bytes u) p uin pin (omega (arith, ue, pv, e)) in
      let bytes = u256_to_le_bytes z in
      let (bv, bl) = u256_to_le_bytes_lem z zin in
      let number : from_le_bytes bytes ≡ from_le_bytes u + from_le_bytes c * m =
        omega (arith, bv, zv, ue, pv, e) in
      let small : from_le_bytes bytes < 2 ^ 241 = omega arith in
      let top : (get_or bytes 31 0 == 0) ≡ true = top_byte bytes small in
      (
        bytes,
        rw (pe, ze, top) refl,
        record { number = number; size = bl; are_bytes = u256_to_le_bytes-All z; small = small },
      )
