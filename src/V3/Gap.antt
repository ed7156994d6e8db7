-- ===== src/V3/Gap.antt =====
-- src/v3_zkp/gap.rs: signed gaps, and the proof of one with its ends hidden. The groups G2 and Gt and
-- the pairing are a library's: an interface with the bilinearity that the code relies on.
pub mod Terms
pub mod Complete
use ebutv.Prelude.{ℕ, ◌≡◌, ◌↔◌, Bool, true, false, not, List, [], ◌∷◌, ◌++◌, ◌==◌, if◌then◌else◌}
use ebutv.Prelude.Text.{codes}
use ebutv.Bls.{Bls}
use ebutv.Dalek.{Dalek}
use ebutv.V3.{from_bytes_be, biguint_to_bls_scalar}

pub record Pairing (bls : Bls) : Type 1 where
  pub Gt : Type 0
  pub gt_eq : Gt → Gt → Bool
  pub gt_bytes : Gt → List ℕ
  pub g2_add : bls.G2 → bls.G2 → bls.G2
  pub g2_scale : bls.G2 → bls.Scalar → bls.G2
  pub neg_g2 : bls.G2
  pub pairing : bls.Point → bls.G2 → Gt
  -- The product of two pairings.
  pub multi_pairing : bls.Point → bls.G2 → bls.Point → bls.G2 → Gt
  pub gt_eq_iff : (a b : Gt) → (gt_eq a b ≡ true) ↔ (a ≡ b)
  pub g2_add_lem :
      (a b : bls.Scalar)
      → g2_add (bls.g2_multiple a) (bls.g2_multiple b) ≡ bls.g2_multiple (bls.◌⊞◌ a b)
  pub g2_scale_lem :
      (a b : bls.Scalar) → g2_scale (bls.g2_multiple a) b ≡ bls.g2_multiple (bls.◌⊠◌ a b)
  pub pairing_multiple :
      (p : bls.Point) (a : bls.Scalar)
      → pairing p (bls.g2_multiple a) ≡ pairing (bls.◌⊛◌ a p) bls.generator_g2
  pub multi_pairing_lem :
      (p q : bls.Point) (a : bls.Scalar)
      → multi_pairing p (bls.g2_multiple a) q neg_g2
        ≡ pairing (bls.◌⊖◌ (bls.◌⊛◌ a p) q) bls.generator_g2

module _ (bls : Bls) (dalek : Dalek) (pair : Pairing bls) where
  open bls use {
    Point, Scalar, ◌⊕◌, ◌⊖◌, ◌⊛◌, ◌⊞◌, ◌⊠◌, scalar_zero, point_eq, G2, g2_multiple, from_number,
    to_bytes_le, to_compressed, to_compressed_g2, sha256,
  }
  open pair use {Gt, gt_eq, gt_bytes, g2_add, g2_scale, neg_g2, pairing, multi_pairing}

  pub record ServerPublicKey : Type 0 where
    pub x_g2 : G2
    pub y1_g2 : G2
    pub y2_g2 : G2
    pub yctx_g2 : G2

  pub record ServerSecretKey : Type 0 where
    pub x : Scalar
    pub y1 : Scalar
    pub y2 : Scalar
    pub yctx : Scalar

  -- The public half of `generate`, whose secret half is drawn.
  unfoldable pub public_key : ServerSecretKey → ServerPublicKey
  public_key sk = record {
    x_g2 = g2_multiple sk.x;
    y1_g2 = g2_multiple sk.y1;
    y2_g2 = g2_multiple sk.y2;
    yctx_g2 = g2_multiple sk.yctx;
  }

  unfoldable pub exponent : ServerSecretKey → ℕ → ℕ → Scalar → Scalar
  exponent sk ea eb gap_ctx =
      sk.x ⊞ sk.y1 ⊠ from_number ea ⊞ sk.y2 ⊠ from_number eb ⊞ sk.yctx ⊠ gap_ctx

  -- `sign_interval_with_context`, on the point that it draws.
  unfoldable pub sign_interval_with_context :
      Point → ServerSecretKey → ℕ → ℕ → Scalar → Point × Point
  sign_interval_with_context h sk ea eb gap_ctx = (h, exponent sk ea eb gap_ctx ⊛ h)

  unfoldable pub sign_interval : Point → ServerSecretKey → ℕ → ℕ → Point × Point
  sign_interval h sk ea eb = sign_interval_with_context h sk ea eb scalar_zero

  unfoldable pub compress_all : List Point → List ℕ
  compress_all [] = []
  compress_all (p ∷ ps) = to_compressed p ++ compress_all ps

  -- The points after the two bases: both commitments, the blinded signature, and `a1`, `a2`.
  unfoldable pub hash_gap_transcript :
      ServerPublicKey → Scalar → Point → Point → List Point → Gt → ℕ
  hash_gap_transcript pk gap_ctx bls_value_base bls_blind_base points a_pair = from_bytes_be 0 (
      sha256 (
        codes "gap_proof_v3_ctx_bound"
        ++ (to_compressed_g2 pk.x_g2
            ++ (to_compressed_g2 pk.y1_g2
                ++ (to_compressed_g2 pk.y2_g2
                    ++ (to_compressed_g2 pk.yctx_g2
                        ++ (to_bytes_le gap_ctx
                            ++ (compress_all (bls_value_base ∷ bls_blind_base ∷ points)
                                ++ gt_bytes a_pair))))))))

  pub record GapProof : Type 0 where
    pub com_ea : Point
    pub com_eb : Point
    pub sigma1_blind : Point
    pub sigma2_blind : Point
    pub a1 : Point
    pub a2 : Point
    pub a_pair : Gt
    pub challenge : ℕ
    pub s_ea : Scalar
    pub s_ra : Scalar
    pub s_eb : Scalar
    pub s_rb : Scalar

  -- The blinders that the prover draws.
  pub record GapDraws : Type 0 where
    pub r_ea : Scalar
    pub r_ra : Scalar
    pub r_eb : Scalar
    pub r_rb : Scalar

  unfoldable pub prove_with_context_and_bases :
      GapDraws
      → ℕ
      → ℕ
      → Scalar
      → Scalar
      → Point
      → Point
      → Scalar
      → Scalar
      → ServerPublicKey
      → Point
      → Point
      → GapProof
  prove_with_context_and_bases d ea eb ra rb sigma1 sigma2 t gap_ctx pk g1 h1 =
      let com_ea = from_number ea ⊛ g1 ⊕ ra ⊛ h1 in
      let com_eb = from_number eb ⊛ g1 ⊕ rb ⊛ h1 in
      let sigma1_blind = t ⊛ sigma1 in
      let sigma2_blind = t ⊛ sigma2 in
      let a1 = d.r_ea ⊛ g1 ⊕ d.r_ra ⊛ h1 in
      let a2 = d.r_eb ⊛ g1 ⊕ d.r_rb ⊛ h1 in
      let combined_pk_g2 = g2_add (g2_scale pk.y1_g2 d.r_ea) (g2_scale pk.y2_g2 d.r_eb) in
      let a_pair = pairing sigma1_blind combined_pk_g2 in
      let challenge =
        hash_gap_transcript pk gap_ctx g1 h1
          (com_ea ∷ com_eb ∷ sigma1_blind ∷ sigma2_blind ∷ a1 ∷ a2 ∷ []) a_pair in
      let c = biguint_to_bls_scalar bls dalek challenge in
      record {
        com_ea = com_ea;
        com_eb = com_eb;
        sigma1_blind = sigma1_blind;
        sigma2_blind = sigma2_blind;
        a1 = a1;
        a2 = a2;
        a_pair = a_pair;
        challenge = challenge;
        s_ea = d.r_ea ⊞ c ⊠ from_number ea;
        s_ra = d.r_ra ⊞ c ⊠ ra;
        s_eb = d.r_eb ⊞ c ⊠ from_number eb;
        s_rb = d.r_rb ⊞ c ⊠ rb;
      }

  unfoldable pub verify_with_context_and_bases :
      GapProof → ServerPublicKey → Scalar → Point → Point → Bool
  verify_with_context_and_bases proof pk gap_ctx g1 h1 =
      let challenge_recomputed =
        hash_gap_transcript pk gap_ctx g1 h1
          (proof.com_ea ∷ proof.com_eb ∷ proof.sigma1_blind ∷ proof.sigma2_blind ∷ proof.a1
            ∷ proof.a2 ∷ [])
          proof.a_pair in
      let c = biguint_to_bls_scalar bls dalek proof.challenge in
      let combined_pk_g2 =
        g2_add (g2_add (g2_scale pk.y1_g2 proof.s_ea) (g2_scale pk.y2_g2 proof.s_eb))
          (g2_scale (g2_add pk.x_g2 (g2_scale pk.yctx_g2 gap_ctx)) c) in
      if not (proof.challenge == challenge_recomputed)
      then false
      else (if not (point_eq proof.a1 (proof.s_ea ⊛ g1 ⊕ proof.s_ra ⊛ h1 ⊖ c ⊛ proof.com_ea))
          then false
          else (if not (point_eq proof.a2 (proof.s_eb ⊛ g1 ⊕ proof.s_rb ⊛ h1 ⊖ c ⊛ proof.com_eb))
              then false
              else gt_eq proof.a_pair (
                  multi_pairing proof.sigma1_blind combined_pk_g2 (c ⊛ proof.sigma2_blind) neg_g2)))
