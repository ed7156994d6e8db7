-- ===== src/Hash/Reduction.antt =====
-- src/hash.rs: the reduction by subtraction and the wide reduction are those modulo the order.
use ebutv.Prelude.{
  ℕ, zero, suc, ◌+◌, ◌*◌, ◌^◌, ◌<◌, ◌≡◌, refl, sym, ap, ◌∙◌, inl, inr, arith, some, List, take,
  drop, ltb, length, All, Bool-cases, ltb→lt, ltb→le, length-take,
}
use ebutv.Prelude.Text.{from_le_bytes}
use ebutv.Limbs.{U256, u256_from_le_bytes, u256_to_le_bytes, sub_u64x4}
use ebutv.Limbs.Value.{
  value, InRange, u256_lt_lem, sub_u64x4_lem, u256_to_le_bytes_lem, u256_from_le_bytes_lem,
  from_le_bytes-append, take-append-drop, All-take, All-drop, length-drop,
}
use ebutv.Bls.{Bls, order}
use ebutv.Hash.{
  r_limbs, lt_r, k_2_256_mod_r, reduce, scalar_from_le_bytes_mod_order, scalar_from_hash,
  hash_to_scalar,
}

r_limbs-InRange : InRange r_limbs
r_limbs-InRange = record { r0 = omega arith; r1 = omega arith; r2 = omega arith; r3 = omega arith }

lt_r_lem : (v : U256) → InRange v → lt_r v ≡ ltb (value v) order
unfolding lt_r
lt_r_lem v h = u256_lt_lem v r_limbs h r_limbs-InRange

-- `K` stands for 2^256 modulo the order.
abbrev k_number : ℕ
k_number = 0x1824b159acc5056f998c4fefecbc4ff55884b7fa0003480200000001fffffffe

module _ (bls : Bls) where
  open bls use {
    Scalar, ◌⊞◌, ◌⊠◌, from_number, from_number_add, from_number_mul, from_number_order,
    from_bytes_le, from_bytes_le_lem, sha256, sha512, length-sha512, sha512-All,
  }

  canonical :
      (v : U256)
      → InRange v
      → value v < order
      → from_bytes_le (u256_to_le_bytes v) ≡ some (from_number (value v))
  canonical v h small =
      let (e, len) = u256_to_le_bytes_lem v h in
      from_bytes_le_lem (u256_to_le_bytes v) len (omega arith) ∙ ap (λ n. some (from_number n)) e

  reduce_lem :
      (rounds : ℕ) (v : U256)
      → InRange v
      → value v < suc rounds * order
      → reduce bls rounds v ≡ some (from_number (value v))
  unfolding reduce
  reduce_lem zero v h small = canonical v h (omega arith)
  reduce_lem (suc rounds) v h small = elim (Bool-cases (ltb (value v) order)) [
    | inl lt ↦ rw (lt_r_lem v h, lt) (canonical v h (ltb→lt (value v) order lt))
    | inr ge ↦
        let (h', e) = sub_u64x4_lem v r_limbs h r_limbs-InRange (ltb→le (value v) order ge) in
        rw (lt_r_lem v h, ge)
          (reduce_lem rounds (sub_u64x4 v r_limbs) h' (omega arith)
            ∙ ap some (sym (from_number_order (value (sub_u64x4 v r_limbs))) ∙ ap from_number e))
  ]

  -- Bytes are reduced modulo the order of the field, and no panic is reached.
  pub scalar_from_le_bytes_mod_order_lem :
      (bytes : List ℕ)
      → length bytes ≡ 32
      → All (λ b. b < 256) bytes
      → scalar_from_le_bytes_mod_order bls bytes ≡ some (from_number (from_le_bytes bytes))
  unfolding scalar_from_le_bytes_mod_order
  scalar_from_le_bytes_mod_order_lem bytes len all =
      let (h, e) = u256_from_le_bytes_lem bytes len all in
      reduce_lem 3 (u256_from_le_bytes bytes) h (omega (arith, h.r0, h.r1, h.r2, h.r3))
      ∙ ap (λ n. some (from_number n)) e

  k_lem : from_bytes_le k_2_256_mod_r ≡ some (from_number k_number)
  unfolding from_le_bytes
  k_lem = from_bytes_le_lem k_2_256_mod_r refl (omega arith)

  -- The wide reduction of a hash: whatever the digest, the scalar is the number of all the 64 bytes
  -- of its hash, modulo the order, and no panic is reached.
  pub scalar_from_hash_lem :
      (digest : List ℕ)
      → scalar_from_hash bls digest ≡ some (from_number (from_le_bytes (sha512 digest)))
  unfolding scalar_from_hash
  scalar_from_hash_lem digest =
      let wide = sha512 digest in
      let len = length-sha512 digest in
      let n1 : length (take 32 wide) ≡ 32 = omega (arith, length-take 32 wide) in
      let n2 : length (drop 32 wide) ≡ 32 = omega (arith, length-drop 32 wide) in
      let lo = from_le_bytes (take 32 wide) in
      let hi = from_le_bytes (drop 32 wide) in
      let e : from_le_bytes wide ≡ lo + hi * 2 ^ 256 =
        ap from_le_bytes (sym (take-append-drop 32 wide))
        ∙ from_le_bytes-append (take 32 wide) (drop 32 wide)
        ∙ ap (λ u. lo + 256 ^ u * hi) n1
        ∙ omega arith in
      rw
        (
          scalar_from_le_bytes_mod_order_lem (take 32 wide) n1
              (All-take 32 wide (sha512-All digest)),
          scalar_from_le_bytes_mod_order_lem (drop 32 wide) n2
              (All-drop 32 wide (sha512-All digest)),
          k_lem,
        )
        (ap some (
          sym (
            ap from_number e
            ∙ from_number_add lo (hi * 2 ^ 256)
            ∙ ap (λ t. from_number lo ⊞ t)
                (from_number_mul hi (2 ^ 256)
                  ∙ ap (λ t. from_number hi ⊠ t)
                      (from_number_order (k_number + order) ∙ from_number_order k_number)))))

  -- Hashing to a scalar reaches no panic.
  pub hash_to_scalar_returns :
      (preimage : List ℕ) → (s : Scalar) × (hash_to_scalar bls preimage ≡ some s)
  unfolding hash_to_scalar
  hash_to_scalar_returns preimage = (_, scalar_from_hash_lem (sha256 preimage))
