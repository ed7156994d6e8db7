-- ===== src/V3/Equality/Complete.antt =====
-- src/v3_zkp/batched_eq.rs: three numbers of 64 bits that open their commitments are accepted.
use ebutv.Prelude.{
  ℕ, ◌+◌, ◌*◌, ◌^◌, ◌<◌, ◌≤◌, ◌≡◌, refl, ap, ◌∙◌, arith, Bool, true, false, not, List, [], ◌∷◌, leb,
  if◌then◌else◌, take, length, All, length-take,
}
use mathlib.Core.Path.{ap₂}
use native.Mathlib.Nat.{mul-le-mul}
use ebutv.Prelude.Lists.{bytes_eq}
use ebutv.Prelude.Text.{from_le_bytes}
use ebutv.Curve.{Curve}
use ebutv.Curve.Laws.{point_eq_self}
use ebutv.Curve.Combination.{
  expand, scale, collect, put, cancels, same_sign, flip, insert, multiply,
}
use ebutv.Curve.Combination.Sound.{agrees}
use ebutv.Limbs.Value.{from_le_bytes-lt, All-take}
use ebutv.Bls.{Bls}
use ebutv.Dalek.{Dalek}
use ebutv.V3.{
  from_bytes_be, biguint_to_bls_scalar, biguint_to_ristretto_scalar, ristretto_gv, ristretto_g1,
}
use ebutv.V3.Numbers.{from_bytes_be-lt, biguint_to_bls_scalar_lem, biguint_to_ristretto_scalar_lem}
use ebutv.V3.Equality.{
  Statement, Opening, EqualityDraws, batch_gamma, equality_challenge, commit_rist,
  prove_with_bls_bases, verify_with_bls_bases,
}
use ebutv.V3.Equality.Terms.{left, right}

module _ (curve : Curve) where
  open curve use {Point, Scalar, ◌⊕◌, ◌⊛◌, ◌⊞◌, ◌⊠◌}

  batched_lem :
      (k c g g2 a b d u ra rb rd : Scalar) (p q : Point)
      → (k ⊞ c ⊠ (a ⊞ g ⊠ b ⊞ g2 ⊠ d)) ⊛ p ⊕ (u ⊞ c ⊠ (ra ⊞ g ⊠ rb ⊞ g2 ⊠ rd)) ⊛ q
        ≡ k ⊛ p ⊕ u ⊛ q ⊕ c ⊛ (a ⊛ p ⊕ ra ⊛ q ⊕ g ⊛ (b ⊛ p ⊕ rb ⊛ q) ⊕ g2 ⊛ (d ⊛ p ⊕ rd ⊛ q))
  unfolding left right expand scale collect put cancels same_sign flip insert multiply bytes_eq
  batched_lem k c g g2 a b d u ra rb rd p q =
      agrees curve (k ∷ c ∷ g ∷ g2 ∷ a ∷ b ∷ d ∷ u ∷ ra ∷ rb ∷ rd ∷ []) (p ∷ q ∷ []) left right refl

-- The response stays below the limit of 433 bits.
response_bound :
    (k c g a b d : ℕ)
    → k < 2 ^ 432
    → c < 2 ^ 128
    → g < 2 ^ 80
    → a < 2 ^ 64
    → b < 2 ^ 64
    → d < 2 ^ 64
    → k + c * (a + g * b + g * g * d) < 2 ^ 433
response_bound k c g a b d hk hc hg ha hb hd =
    let g2 : g * g ≤ 1208925819614629174706176 * 1208925819614629174706176 =
      mul-le-mul {n₂ = 1208925819614629174706176} {m₂ = 1208925819614629174706176} (omega arith)
        (omega arith) in
    let gb : g * b ≤ 1208925819614629174706176 * 18446744073709551616 =
      mul-le-mul {n₂ = 1208925819614629174706176} {m₂ = 18446744073709551616} (omega arith)
        (omega arith) in
    let gd : g * g * d ≤ 1461501637330902918203684832716283019655932542976 * 18446744073709551616 =
      mul-le-mul {n₂ = 1461501637330902918203684832716283019655932542976}
        {m₂ = 18446744073709551616} (omega arith) (omega arith) in
    let all : c * (a + g * b + g * g * d) ≤ 340282366920938463463374607431768211456 * (2 ^ 226) =
      mul-le-mul {n₂ = 340282366920938463463374607431768211456} {m₂ = 2 ^ 226} (omega arith)
        (omega arith) in
    omega arith

accept :
    (b1 b2 b3 : Bool)
    → b1 ≡ false
    → b2 ≡ true
    → b3 ≡ true
    → (if b1 then false else (if not b2 then false else (if not b3 then false else true))) ≡ true
accept b1 b2 b3 h1 h2 h3 = rw (h1, h2, h3) refl

below : (n m : ℕ) → n < m → leb m n ≡ false
below n m h = ground arith

module _ (bls : Bls) (dalek : Dalek) where
  open bls use {
    g1, Point, Scalar, ◌⊕◌, ◌⊛◌, ◌⊞◌, ◌⊠◌, from_number, from_number_add, from_number_mul, sha256,
    length-sha256, sha256-All,
  }

  truncated : (n : ℕ) (bytes : List ℕ) → n ≤ 32 → from_bytes_be 0 (take n (sha256 bytes)) < 256 ^ n
  truncated n bytes h =
      let len : length (take n (sha256 bytes)) ≡ n =
        omega (arith, length-take n (sha256 bytes), length-sha256 bytes) in
      let bound =
        from_bytes_be-lt (take n (sha256 bytes)) 0 1 (All-take n (sha256 bytes) (sha256-All bytes))
          (omega arith) in
      let e : 1 * 256 ^ length (take n (sha256 bytes)) ≡ 256 ^ n =
        ap (λ t. 1 * 256 ^ t) len ∙ omega arith in
      rw e at bound

  gamma_bound : (st : Statement bls dalek) → batch_gamma bls dalek st < 2 ^ 80
  unfolding batch_gamma
  gamma_bound st = truncated 10 _ (omega arith)

  challenge_bound :
      (p : dalek.Point) (q : Point) (st : Statement bls dalek)
      → equality_challenge bls dalek p q st < 2 ^ 128
  unfolding equality_challenge
  challenge_bound p q st = truncated 16 _ (omega arith)

  -- The commitments open to the numbers.
  pub record Opens (e ea eb : Opening bls dalek) (st : Statement bls dalek)
      (value_base blind_base : Point) : Type 0 where
    pub e_rist : st.com_e_rist ≡ commit_rist bls dalek (dalek.embed e.number) e.r1
    pub ea_rist : st.com_ea_rist ≡ commit_rist bls dalek (dalek.embed ea.number) ea.r1
    pub eb_rist : st.com_eb_rist ≡ commit_rist bls dalek (dalek.embed eb.number) eb.r1
    pub e_bls : st.com_e_bls ≡ from_number e.number ⊛ value_base ⊕ e.r2 ⊛ blind_base
    pub ea_bls : st.com_ea_bls ≡ from_number ea.number ⊛ value_base ⊕ ea.r2 ⊛ blind_base
    pub eb_bls : st.com_eb_bls ≡ from_number eb.number ⊛ value_base ⊕ eb.r2 ⊛ blind_base

  z_bls :
      (k c g a b d : ℕ)
      → from_number (k + c * (a + g * b + g * g * d))
        ≡ from_number k
          ⊞ from_number c
          ⊠ (from_number a ⊞ from_number g ⊠ from_number b ⊞ from_number (g * g) ⊠ from_number d)
  z_bls k c g a b d =
      from_number_add k _
      ∙ ap (λ t. from_number k ⊞ t)
          (from_number_mul c _
            ∙ ap (λ t. from_number c ⊠ t)
                (from_number_add (a + g * b) _
                  ∙ ap₂ (λ t u. t ⊞ u)
                      (from_number_add a _ ∙ ap (λ t. from_number a ⊞ t) (from_number_mul g b))
                      (from_number_mul (g * g) d)))

  z_rist :
      (k c g a b d : ℕ)
      → dalek.embed (k + c * (a + g * b + g * g * d))
        ≡ dalek.◌⊞◌ (dalek.embed k) (
            dalek.◌⊠◌ (dalek.embed c) (
              dalek.◌⊞◌
                (dalek.◌⊞◌ (dalek.embed a) (dalek.◌⊠◌ (dalek.embed g) (dalek.embed b)))
                (dalek.◌⊠◌ (dalek.embed (g * g)) (dalek.embed d))))
  z_rist k c g a b d =
      dalek.embed_add k _
      ∙ ap (dalek.◌⊞◌ (dalek.embed k)) (
          dalek.embed_mul c _
          ∙ ap (dalek.◌⊠◌ (dalek.embed c)) (
              dalek.embed_add (a + g * b) _
              ∙ ap₂ dalek.◌⊞◌
                  (dalek.embed_add a _ ∙ ap (dalek.◌⊞◌ (dalek.embed a)) (dalek.embed_mul g b))
                  (dalek.embed_mul (g * g) d)))

  bls_side :
      (k c g a b d : ℕ) (u ra rb rd : Scalar) (p q x y z : Point)
      → x ≡ from_number a ⊛ p ⊕ ra ⊛ q
      → y ≡ from_number b ⊛ p ⊕ rb ⊛ q
      → z ≡ from_number d ⊛ p ⊕ rd ⊛ q
      → biguint_to_bls_scalar bls dalek (k + c * (a + g * b + g * g * d))
          ⊛ p
          ⊕ (u
              ⊞ biguint_to_bls_scalar bls dalek c
              ⊠ (ra
                  ⊞ biguint_to_bls_scalar bls dalek g
                  ⊠ rb
                  ⊞ biguint_to_bls_scalar bls dalek (g * g)
                  ⊠ rd))
          ⊛ q
        ≡ biguint_to_bls_scalar bls dalek k
          ⊛ p
          ⊕ u
          ⊛ q
          ⊕ biguint_to_bls_scalar bls dalek c
          ⊛ (x
              ⊕ biguint_to_bls_scalar bls dalek g
              ⊛ y
              ⊕ biguint_to_bls_scalar bls dalek (g * g)
              ⊛ z)
  bls_side k c g a b d u ra rb rd p q x y z hx hy hz =
      rw
        (
          hx,
          hy,
          hz,
          biguint_to_bls_scalar_lem bls dalek (k + c * (a + g * b + g * g * d)),
          biguint_to_bls_scalar_lem bls dalek k,
          biguint_to_bls_scalar_lem bls dalek c,
          biguint_to_bls_scalar_lem bls dalek g,
          biguint_to_bls_scalar_lem bls dalek (g * g),
          z_bls k c g a b d,
        )
        (batched_lem g1 (from_number k) (from_number c) (from_number g) (from_number (g * g))
          (from_number a) (from_number b) (from_number d) u ra rb rd p q)

  rist_side :
      (k c g a b d : ℕ) (u ra rb rd : dalek.Scalar) (x y z : dalek.Point)
      → x ≡ commit_rist bls dalek (dalek.embed a) ra
      → y ≡ commit_rist bls dalek (dalek.embed b) rb
      → z ≡ commit_rist bls dalek (dalek.embed d) rd
      → commit_rist bls dalek
          (biguint_to_ristretto_scalar bls dalek (k + c * (a + g * b + g * g * d)))
          (dalek.◌⊞◌ u (
            dalek.◌⊠◌ (biguint_to_ristretto_scalar bls dalek c) (
              dalek.◌⊞◌
                (dalek.◌⊞◌ ra (dalek.◌⊠◌ (biguint_to_ristretto_scalar bls dalek g) rb))
                (dalek.◌⊠◌ (biguint_to_ristretto_scalar bls dalek (g * g)) rd))))
        ≡ dalek.◌⊕◌ (commit_rist bls dalek (biguint_to_ristretto_scalar bls dalek k) u) (
            dalek.◌⊛◌ (biguint_to_ristretto_scalar bls dalek c) (
              dalek.◌⊕◌
                (dalek.◌⊕◌ x (dalek.◌⊛◌ (biguint_to_ristretto_scalar bls dalek g) y))
                (dalek.◌⊛◌ (biguint_to_ristretto_scalar bls dalek (g * g)) z)))
  rist_side k c g a b d u ra rb rd x y z hx hy hz =
      rw
        (
          hx,
          hy,
          hz,
          biguint_to_ristretto_scalar_lem bls dalek (k + c * (a + g * b + g * g * d)),
          biguint_to_ristretto_scalar_lem bls dalek k,
          biguint_to_ristretto_scalar_lem bls dalek c,
          biguint_to_ristretto_scalar_lem bls dalek g,
          biguint_to_ristretto_scalar_lem bls dalek (g * g),
          z_rist k c g a b d,
        )
        (batched_lem dalek.curve (dalek.embed k) (dalek.embed c) (dalek.embed g)
          (dalek.embed (g * g)) (dalek.embed a) (dalek.embed b) (dalek.embed d) u ra rb rd
          (ristretto_gv bls dalek) (ristretto_g1 bls dalek))

  -- Three numbers below 2 ^ 64 that open the commitments on both curves are proved equal: the
  -- verifier accepts the prover's proof, for 54 bytes of masking randomness.
  pub equality_verify-equality_prove :
      (d : EqualityDraws bls dalek) (e ea eb : Opening bls dalek) (st : Statement bls dalek)
      (value_base blind_base : Point)
      → length d.k_bytes ≡ 54
      → All (λ b. b < 256) d.k_bytes
      → e.number < 2 ^ 64
      → ea.number < 2 ^ 64
      → eb.number < 2 ^ 64
      → Opens e ea eb st value_base blind_base
      → verify_with_bls_bases bls dalek
          (prove_with_bls_bases bls dalek d e ea eb st value_base blind_base)
          st
          value_base
          blind_base
        ≡ true
  unfolding verify_with_bls_bases prove_with_bls_bases
  equality_verify-equality_prove d e ea eb st g h len all le la lb o =
      let proof = prove_with_bls_bases bls dalek d e ea eb st g h in
      let k = from_le_bytes d.k_bytes in
      let gamma = batch_gamma bls dalek st in
      let c = equality_challenge bls dalek proof.r1_comb proof.r2_comb st in
      let kb : k < 2 ^ 432 = rw len at (from_le_bytes-lt d.k_bytes all) in
      let gb : gamma < 2 ^ 80 = gamma_bound st in
      let cb : c < 2 ^ 128 = challenge_bound proof.r1_comb proof.r2_comb st in
      accept _ _ _
        (below _ _ (response_bound k c gamma e.number ea.number eb.number kb cb gb le la lb))
        (point_eq_self dalek.curve _ _ (
          rist_side k c gamma e.number ea.number eb.number d.u1 e.r1 ea.r1 eb.r1 _ _ _ o.e_rist
            o.ea_rist o.eb_rist))
        (point_eq_self g1 _ _ (
          bls_side k c gamma e.number ea.number eb.number d.u2 e.r2 ea.r2 eb.r2 g h _ _ _ o.e_bls
            o.ea_bls o.eb_bls))
