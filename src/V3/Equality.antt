-- ===== src/V3/Equality.antt =====
-- src/v3_zkp/batched_eq.rs: three numbers, each in a Ristretto and a BLS commitment, batched by
-- powers of a challenge.
pub mod Terms
pub mod Complete
use ebutv.Prelude.{
  ℕ, ◌+◌, ◌*◌, ◌^◌, Bool, true, false, not, List, [], ◌∷◌, ◌++◌, leb, if◌then◌else◌, take,
}
use ebutv.Prelude.Text.{codes, from_le_bytes}
use ebutv.Bls.{Bls}
use ebutv.Dalek.{Dalek}
use ebutv.V3.{
  from_bytes_be, biguint_to_bls_scalar, biguint_to_ristretto_scalar, ristretto_gv, ristretto_g1,
}

module _ (bls : Bls) (dalek : Dalek) where
  open bls use {Point, Scalar, ◌⊕◌, ◌⊛◌, ◌⊞◌, ◌⊠◌, point_eq, to_compressed, sha256}

  -- The six commitments: to e, to ea and to eb, on each curve.
  pub record Statement : Type 0 where
    pub com_e_rist : dalek.Point
    pub com_e_bls : Point
    pub com_ea_rist : dalek.Point
    pub com_ea_bls : Point
    pub com_eb_rist : dalek.Point
    pub com_eb_bls : Point

  pub record EqualityProof : Type 0 where
    pub r1_comb : dalek.Point
    pub r2_comb : Point
    pub z_e : ℕ
    pub z_r1 : dalek.Scalar
    pub z_r2 : Scalar

  unfoldable pub write_public_statement : Statement → List ℕ
  write_public_statement st =
      dalek.compress st.com_e_rist
      ++ (to_compressed st.com_e_bls
          ++ (dalek.compress st.com_ea_rist
              ++ (to_compressed st.com_ea_bls
                  ++ (dalek.compress st.com_eb_rist ++ to_compressed st.com_eb_bls))))

  unfoldable pub equality_challenge : dalek.Point → Point → Statement → ℕ
  equality_challenge r1_point r2_point st = from_bytes_be 0 (
      take 16 (
        sha256 (
          codes "cross_curve_batched_proof_v2"
          ++ (write_public_statement st ++ (dalek.compress r1_point ++ to_compressed r2_point)))))

  -- The batching challenge, of ten bytes.
  unfoldable pub batch_gamma : Statement → ℕ
  batch_gamma st =
      from_bytes_be 0 (take 10 (sha256 (codes "batch_gamma_v1" ++ write_public_statement st)))

  -- A number with its blinders on the two curves.
  pub record Opening : Type 0 where
    pub number : ℕ
    pub r1 : dalek.Scalar
    pub r2 : Scalar

  -- What the prover draws: `k` is 54 bytes, `u1` is reduced from 32.
  pub record EqualityDraws : Type 0 where
    pub k_bytes : List ℕ
    pub u1 : dalek.Scalar
    pub u2 : Scalar

  -- `v·gv + r·g1`
  abbrev pub commit_rist : dalek.Scalar → dalek.Scalar → dalek.Point
  commit_rist v r =
      dalek.◌⊕◌ (dalek.◌⊛◌ v (ristretto_gv bls dalek)) (dalek.◌⊛◌ r (ristretto_g1 bls dalek))

  unfoldable pub prove_with_bls_bases :
      EqualityDraws → Opening → Opening → Opening → Statement → Point → Point → EqualityProof
  prove_with_bls_bases d e ea eb st value_base blind_base =
      let gamma = batch_gamma st in
      let gamma2 = gamma * gamma in
      let e_comb = e.number + gamma * ea.number + gamma2 * eb.number in
      let gamma_rist = biguint_to_ristretto_scalar bls dalek gamma in
      let gamma2_rist = biguint_to_ristretto_scalar bls dalek gamma2 in
      let r1_comb =
        dalek.◌⊞◌ (dalek.◌⊞◌ e.r1 (dalek.◌⊠◌ gamma_rist ea.r1)) (dalek.◌⊠◌ gamma2_rist eb.r1) in
      let gamma_bls = biguint_to_bls_scalar bls dalek gamma in
      let gamma2_bls = biguint_to_bls_scalar bls dalek gamma2 in
      let r2_comb = e.r2 ⊞ gamma_bls ⊠ ea.r2 ⊞ gamma2_bls ⊠ eb.r2 in
      let k = from_le_bytes d.k_bytes in
      let r1_point = commit_rist (biguint_to_ristretto_scalar bls dalek k) d.u1 in
      let r2_point = biguint_to_bls_scalar bls dalek k ⊛ value_base ⊕ d.u2 ⊛ blind_base in
      let c = equality_challenge r1_point r2_point st in
      record {
        r1_comb = r1_point;
        r2_comb = r2_point;
        z_e = k + c * e_comb;
        z_r1 = dalek.◌⊞◌ d.u1 (dalek.◌⊠◌ (biguint_to_ristretto_scalar bls dalek c) r1_comb);
        z_r2 = d.u2 ⊞ biguint_to_bls_scalar bls dalek c ⊠ r2_comb;
      }

  unfoldable pub verify_with_bls_bases : EqualityProof → Statement → Point → Point → Bool
  verify_with_bls_bases proof st value_base blind_base =
      let gamma = batch_gamma st in
      let gamma2 = gamma * gamma in
      let gamma_rist = biguint_to_ristretto_scalar bls dalek gamma in
      let gamma2_rist = biguint_to_ristretto_scalar bls dalek gamma2 in
      let com_comb_rist =
        dalek.◌⊕◌ (dalek.◌⊕◌ st.com_e_rist (dalek.◌⊛◌ gamma_rist st.com_ea_rist))
          (dalek.◌⊛◌ gamma2_rist st.com_eb_rist) in
      let gamma_bls = biguint_to_bls_scalar bls dalek gamma in
      let gamma2_bls = biguint_to_bls_scalar bls dalek gamma2 in
      let com_comb_bls = st.com_e_bls ⊕ gamma_bls ⊛ st.com_ea_bls ⊕ gamma2_bls ⊛ st.com_eb_bls in
      let c = equality_challenge proof.r1_comb proof.r2_comb st in
      let z_q = biguint_to_ristretto_scalar bls dalek proof.z_e in
      let z_r = biguint_to_bls_scalar bls dalek proof.z_e in
      let c_q = biguint_to_ristretto_scalar bls dalek c in
      let c_r = biguint_to_bls_scalar bls dalek c in
      if leb (2 ^ 433) proof.z_e
      then false
      else (if not (
            dalek.point_eq (commit_rist z_q proof.z_r1)
              (dalek.◌⊕◌ proof.r1_comb (dalek.◌⊛◌ c_q com_comb_rist)))
          then false
          else (if not (
                point_eq (z_r ⊛ value_base ⊕ proof.z_r2 ⊛ blind_base)
                  (proof.r2_comb ⊕ c_r ⊛ com_comb_bls))
              then false
              else true))
