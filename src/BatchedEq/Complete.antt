-- ===== src/BatchedEq/Complete.antt =====
-- src/batched_eq.rs: what the prover makes, the verifier accepts.
use ebutv.Prelude.{
  ℕ, zero, suc, ◌*◌, ◌^◌, ◌<◌, ◌≤◌, ◌≡◌, refl, sym, ap, ◌∙◌, ◌⊎◌, inl, inr, arith, true, false,
  List, [], ◌∷◌, ◌++◌, map, leb, ◌==◌, not, ◌&&◌, Bool-cases, length, take, All, All-append,
  All-replicate, replicate, length-append, length-take, lt→ltb,
}
use mathlib.Core.Path.{ap₂}
use ebutv.Prelude.Lists.{bytes_eq, bytes_eq_refl}
use ebutv.Prelude.Outcome.{done}
use ebutv.Prelude.Text.{from_le_bytes}
use ebutv.Curve.{Curve}
use ebutv.Curve.Combination.{
  Combination, Coefficient, point, scalar, expand, scale, collect, put, cancels, same_sign, flip,
  insert, multiply,
}
use ebutv.Curve.Combination.Sound.{agrees}
use ebutv.Limbs.{u256_from_le_bytes, u256_lt}
use ebutv.Limbs.Value.{
  value, u256_from_le_bytes_lem, u256_lt_lem, InRange, from_le_bytes-lt, All-take,
}
use ebutv.Bls.{Bls}
use ebutv.Dalek.{Dalek}
use ebutv.Hash.Reduction.{scalar_from_le_bytes_mod_order_lem}
use ebutv.BatchedEq.{
  BatchedEqualityProof, BeqDraws, q_25519_limbs, dalek_bp_gens, best_range_bits_u64,
  c128_to_bytes32, range_transcript, compute_beq_challenge, pedersen, prove_equality,
  prove_batched_equality, verify_range, verify_batched_equality,
}
use ebutv.BatchedEq.Response.{padded, integer_response_lem}

-- The commitment that the verifier recomputes from the responses.
left : Combination
left =
    Combination.◌⊖◌
      (Combination.◌⊕◌
        (Combination.◌⊛◌ (Coefficient.◌⊞◌ (scalar 0) (Coefficient.◌⊠◌ (scalar 1) (scalar 2)))
          (point 0))
        (Combination.◌⊛◌ (Coefficient.◌⊞◌ (scalar 3) (Coefficient.◌⊠◌ (scalar 1) (scalar 4)))
          (point 1)))
      (Combination.◌⊛◌ (scalar 1) (
        Combination.◌⊕◌ (Combination.◌⊛◌ (scalar 2) (point 0))
          (Combination.◌⊛◌ (scalar 4) (point 1))))

right : Combination
right =
    Combination.◌⊕◌ (Combination.◌⊛◌ (scalar 0) (point 0)) (Combination.◌⊛◌ (scalar 3) (point 1))

module _ (curve : Curve) where
  open curve use {Point, Scalar, ◌⊕◌, ◌⊖◌, ◌⊛◌, ◌⊞◌, ◌⊠◌}

  reconstruct :
      (u c m v r : Scalar) (p q : Point)
      → (u ⊞ c ⊠ m) ⊛ p ⊕ (v ⊞ c ⊠ r) ⊛ q ⊖ c ⊛ (m ⊛ p ⊕ r ⊛ q) ≡ u ⊛ p ⊕ v ⊛ q
  unfolding left right expand scale collect put cancels same_sign flip insert multiply bytes_eq
  reconstruct u c m v r p q = agrees curve (u ∷ c ∷ m ∷ v ∷ r ∷ []) (p ∷ q ∷ []) left right refl

-- The size of the range fits the value and the generators.
bits_lem :
    (m : ℕ)
    → m < 2 ^ 64
    → ((best_range_bits_u64 m ≡ 32) ⊎ (best_range_bits_u64 m ≡ 64))
      × (best_range_bits_u64 m ≤ dalek_bp_gens (best_range_bits_u64 m))
      × (m < 2 ^ best_range_bits_u64 m)
unfolding best_range_bits_u64 dalek_bp_gens
bits_lem m h = elim (Bool-cases (leb m 0xffffffff)) [
  | inl e ↦ let small : m < 4294967296 = ground arith in rw e (inl refl, omega arith, small)
  | inr e ↦ rw e (inr refl, omega arith, h)
]

q_25519_limbs-InRange : InRange q_25519_limbs
q_25519_limbs-InRange = record {
  r0 = omega arith;
  r1 = omega arith;
  r2 = omega arith;
  r3 = omega arith;
}

pad_zero : (n : ℕ) → from_le_bytes (replicate n 0) ≡ 0
unfolding from_le_bytes
pad_zero zero = refl
pad_zero (suc n) = omega (arith, pad_zero n)

padded_hash :
    (digest : List ℕ)
    → length digest ≡ 32
    → All (λ t. t < 256) digest
    → (length (take 16 digest ++ replicate 16 0) ≡ 32)
      × All (λ t. t < 256) (take 16 digest ++ replicate 16 0)
      × (from_le_bytes (take 16 digest ++ replicate 16 0) < 2 ^ 128)
padded_hash digest len all =
    let n : length (take 16 digest) ≡ 16 = omega (arith, length-take 16 digest) in
    let few = All-take 16 digest all in
    (
      omega (arith, length-append (take 16 digest) (replicate 16 0)),
      All-append _ (take 16 digest) (replicate 16 0) few
          (All-replicate (λ t. t < 256) 16 0 (omega arith)),
      rw (padded (take 16 digest) (replicate 16 0) (pad_zero 16))
          (rw n at (from_le_bytes-lt (take 16 digest) few)),
    )

module _ (bls : Bls) (dalek : Dalek) where
  open bls use {
    Point, Scalar, ◌⊕◌, ◌⊖◌, ◌⊛◌, ◌⊞◌, ◌⊠◌, from_number, from_number_add, from_number_mul,
    to_bytes_le, from_bytes_le-to_bytes_le, to_compressed, sha256, length-sha256, sha256-All,
  }

  below_q :
      (bytes : List ℕ)
      → length bytes ≡ 32
      → All (λ b. b < 256) bytes
      → from_le_bytes bytes < 2 ^ 241
      → u256_lt (u256_from_le_bytes bytes) q_25519_limbs ≡ true
  below_q bytes len all small =
      let (h, e) = u256_from_le_bytes_lem bytes len all in
      u256_lt_lem (u256_from_le_bytes bytes) q_25519_limbs h q_25519_limbs-InRange
      ∙ lt→ltb (value (u256_from_le_bytes bytes)) (value q_25519_limbs) (omega arith)

  bits_pass :
      (bits : ℕ) → (bits ≡ 32) ⊎ (bits ≡ 64) → (not (bits == 32) && not (bits == 64)) ≡ false
  bits_pass bits h = ground arith

  challenge_bytes :
      (context : List ℕ) (comm_bytes : List (List ℕ)) (a b c d e : List ℕ) (bits : ℕ)
      → let c32 =
          c128_to_bytes32 (compute_beq_challenge bls dalek context comm_bytes a b c d e bits) in
        (length c32 ≡ 32) × All (λ t. t < 256) c32 × (from_le_bytes c32 < 2 ^ 128)
  unfolding compute_beq_challenge c128_to_bytes32
  challenge_bytes context comm_bytes a b c d e bits = padded_hash _ (length-sha256 _) (sha256-All _)

  -- For every value below 2^64 and every draw of 30 bytes, the prover makes a proof for the
  -- commitment to the value, and the verifier accepts it: no overflow assertion fails.
  pub verify_batched_equality-prove_batched_equality :
      (draws : BeqDraws bls dalek) (m : ℕ) (r_bls : Scalar) (h4 h0 : Point) (context : List ℕ)
      (commitments : List Point)
      → length draws.u_m ≡ 30
      → All (λ b. b < 256) draws.u_m
      → m < 2 ^ 64
      → (proof : BatchedEqualityProof) × (prove_batched_equality bls dalek draws m r_bls h4 h0
            context commitments
          ≡ done (proof, from_number m ⊛ h4 ⊕ r_bls ⊛ h0))
        × (verify_batched_equality bls dalek proof
              (from_number m ⊛ h4 ⊕ r_bls ⊛ h0)
              h4
              h0
              context
              commitments
            ≡ done tt)
  unfolding prove_batched_equality prove_equality verify_batched_equality verify_range
  verify_batched_equality-prove_batched_equality draws m r_bls h4 h0 context commitments len all h =
      let bits = best_range_bits_u64 m in
      let (kind, capacity, in_range) = bits_lem m h in
      let comm_bytes = map to_compressed commitments in
      let (range, made, accepted) =
        dalek.verify_single-prove_single draws.range (dalek_bp_gens bits)
          (range_transcript context comm_bytes) m draws.r_25519 bits kind capacity in_range in
      let u32 = draws.u_m ++ (0 ∷ 0 ∷ []) in
      let u = from_le_bytes u32 in
      let u_len : length u32 ≡ 32 = omega (arith, length-append draws.u_m (0 ∷ 0 ∷ [])) in
      let u_all =
        All-append _ draws.u_m (0 ∷ 0 ∷ []) all (All-replicate (λ b. b < 256) 2 0 (omega arith)) in
      let u_small : u < 2 ^ 240 =
        rw (padded draws.u_m (0 ∷ 0 ∷ []) (pad_zero 2))
          (rw len at (from_le_bytes-lt draws.u_m all)) in
      let ue = scalar_from_le_bytes_mod_order_lem bls u32 u_len u_all in
      let c_bls = from_number m ⊛ h4 ⊕ r_bls ⊛ h0 in
      let r_bls_point = from_number u ⊛ h4 ⊕ draws.u_r_bls ⊛ h0 in
      let r_25519_point = pedersen bls dalek (dalek.from_bytes_mod_order u32) draws.u_r_25519 in
      let c_25519 = pedersen bls dalek (dalek.embed m) draws.r_25519 in
      let c128 =
        compute_beq_challenge bls dalek context comm_bytes (to_compressed c_bls)
          (dalek.compress c_25519) (to_compressed r_bls_point) (dalek.compress r_25519_point)
          (dalek.range_proof_to_bytes range) bits in
      let c32 = c128_to_bytes32 c128 in
      let (c_len, c_all, c_small) = challenge_bytes _ _ _ _ _ _ _ _ in
      let ce = scalar_from_le_bytes_mod_order_lem bls c32 c_len c_all in
      let c = from_le_bytes c32 in
      let (z, zeq, zr) =
        integer_response_lem bls dalek u32 c32 m u_len u_all u_small c_len c_all c_small h in
      let ze = scalar_from_le_bytes_mod_order_lem bls z zr.size zr.are_bytes in
      let z_bls : from_number (from_le_bytes z) ≡ from_number u ⊞ from_number c ⊠ from_number m =
        ap from_number zr.number
        ∙ from_number_add u (c * m)
        ∙ ap (λ t. from_number u ⊞ t) (from_number_mul c m) in
      let z_25519 : dalek.from_bytes_mod_order z
          ≡ dalek.◌⊞◌ (dalek.from_bytes_mod_order u32)
              (dalek.◌⊠◌ (dalek.from_bytes_mod_order c32) (dalek.embed m)) =
        dalek.from_bytes_mod_order_lem z
        ∙ ap dalek.embed zr.number
        ∙ dalek.embed_add u (c * m)
        ∙ ap₂ dalek.◌⊞◌ (sym (dalek.from_bytes_mod_order_lem u32)) (
            dalek.embed_mul c m
            ∙ ap (λ t. dalek.◌⊠◌ t (dalek.embed m)) (sym (dalek.from_bytes_mod_order_lem c32))) in
      let z_r = draws.u_r_bls ⊞ from_number c ⊠ r_bls in
      let z_r_25519 =
        dalek.◌⊞◌ draws.u_r_25519 (dalek.◌⊠◌ (dalek.from_bytes_mod_order c32) draws.r_25519) in
      (
        record {
          c_bytes = c128;
          c_25519_bytes = dalek.compress c_25519;
          z_e_bytes = z;
          z_r_bls_bytes = to_bytes_le z_r;
          z_r_25519_bytes = dalek.to_bytes z_r_25519;
          range_proof_bytes = dalek.range_proof_to_bytes range;
          range_bits = bits;
        },
        rw (made, ue, ce, zeq) refl,
        rw
            (
              below_q z zr.size zr.are_bytes zr.small,
              bits_pass bits kind,
              ze,
              from_bytes_le-to_bytes_le z_r,
              ce,
              dalek.decompress-compress c_25519,
              z_bls,
              reconstruct bls.g1 (from_number u) (from_number c) (from_number m) draws.u_r_bls r_bls
                  h4 h0,
              dalek.from_bytes_mod_order-to_bytes z_r_25519,
              z_25519,
              reconstruct dalek.curve (dalek.from_bytes_mod_order u32)
                  (dalek.from_bytes_mod_order c32) (dalek.embed m) draws.u_r_25519 draws.r_25519
                  dalek.basepoint dalek.blinding_base,
              bytes_eq_refl c128,
              dalek.range_proof_from_bytes-to_bytes range,
              accepted,
            )
            refl,
      )
