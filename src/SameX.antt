-- ===== src/SameX.antt =====
-- src/same_x_bridge.rs: one secret of 31 bytes in a BLS commitment and in a Ristretto commitment. A
-- `BigUint` is a number; what the prover draws is a record of arguments.
pub mod Digits
pub mod Terms
pub mod Complete
use ebutv.Prelude.{
  ℕ, zero, suc, ◌+◌, ◌*◌, ◌/◌, ◌%◌, ◌^◌, Bool, true, false, ◌&&◌, ◌||◌, not, Option, List, [], ◌∷◌,
  ◌++◌, leb, ◌==◌, if◌then◌else◌, take, length, bytes_eq,
}
use ebutv.Prelude.Outcome.{Outcome, done, ◌>>=◌, ◌>>◌, run, fail_if}
use ebutv.Prelude.Text.{codes, to_le_bytes, from_le_bytes}
use ebutv.Server.Store.{protocol_error, verification_failed}
use ebutv.Bls.{Bls, order}
use ebutv.Dalek.{Dalek}

-- `BigUint::to_bytes_le`: as many digits as the number has, and one for 0. The fuel is one less than
-- the digits there can be.
unfoldable pub digits : ℕ → ℕ → List ℕ
digits zero n = n % 256 ∷ []
digits (suc fuel) n =
    let rest = digits fuel (n / 256) in if n / 256 == 0 then n % 256 ∷ [] else n % 256 ∷ rest

unfoldable pub last_or : ℕ → List ℕ → ℕ
last_or d [] = d
last_or d (b ∷ bytes) = last_or b bytes

unfoldable pub canonical_biguint_le : List ℕ → Bool
canonical_biguint_le bytes =
    leb (length bytes) 49 && (leb (length bytes) 1 || not (last_or 0 bytes == 0))

module _ (bls : Bls) (dalek : Dalek) where
  open bls use {
    Point, Scalar, identity, ◌⊕◌, ◌⊛◌, ◌⊞◌, ◌⊠◌, point_eq, from_bytes_le, to_compressed, sha256,
  }

  -- `CanonicalX::to_bls_scalar`
  unfoldable pub to_bls_scalar : List ℕ → Option Scalar
  to_bls_scalar x = from_bytes_le (x ++ (0 ∷ []))

  pub record SameXStatement : Type 0 where
    pub bls_x_base : Point
    pub bls_blind_base : Point
    pub bls_x_commitment : Point
    pub ristretto_x_base : dalek.Point
    pub ristretto_blind_base : dalek.Point
    pub ristretto_x_commitment : dalek.Point

  -- The statement of a tag without a blinder.
  unfoldable pub file_tag_statement :
      Point → Point → Point → dalek.Point → dalek.Point → SameXStatement
  file_tag_statement x_base blind_base commitment binding_generator binding_tag = record {
    bls_x_base = x_base;
    bls_blind_base = blind_base;
    bls_x_commitment = commitment;
    ristretto_x_base = binding_generator;
    ristretto_blind_base = dalek.identity;
    ristretto_x_commitment = binding_tag;
  }

  pub record SameXProof : Type 0 where
    pub t_bls : Point
    pub t_ristretto : dalek.Point
    pub c_bytes : List ℕ
    pub z_x_le : List ℕ
    pub z_r_bls : Scalar
    pub z_r_ristretto : dalek.Scalar

  pub record SameXDraws : Type 0 where
    pub u_bytes : List ℕ
    pub alpha_bls : Scalar
    pub alpha_rist : dalek.Scalar

  unfoldable pub biguint_to_bls_scalar : ℕ → Option Scalar
  biguint_to_bls_scalar x = from_bytes_le (to_le_bytes 32 (x % order))

  unfoldable pub biguint_to_ristretto_scalar : ℕ → dalek.Scalar
  biguint_to_ristretto_scalar x = dalek.from_bytes_mod_order_wide (to_le_bytes 64 x)

  unfoldable pub challenge : List ℕ → SameXStatement → Point → dalek.Point → List ℕ
  challenge ctx st t_bls t_rist = take 16 (
      sha256 (
        codes "EBUT:SAME-X-BRIDGE:V1"
        ++ (to_le_bytes 8 (length ctx)
            ++ (ctx
                ++ (to_compressed st.bls_x_base
                    ++ (to_compressed st.bls_blind_base
                        ++ (to_compressed st.bls_x_commitment
                            ++ (dalek.compress st.ristretto_x_base
                                ++ (dalek.compress st.ristretto_blind_base
                                    ++ (dalek.compress st.ristretto_x_commitment
                                        ++ (to_compressed t_bls ++ dalek.compress t_rist)))))))))))

  unfoldable pub validate_statement : SameXStatement → Outcome (Unit {0})
  validate_statement st =
      fail_if
        (point_eq st.bls_x_base identity
          || (point_eq st.bls_blind_base identity
              || (point_eq st.bls_x_commitment identity
                  || (dalek.point_eq st.ristretto_x_base dalek.identity
                      || dalek.point_eq st.ristretto_x_commitment dalek.identity))))
        (verification_failed (codes "same-x statement contains an identity point"))

  unfoldable pub prove :
      SameXDraws → List ℕ → List ℕ → Scalar → dalek.Scalar → SameXStatement → Outcome SameXProof
  prove d ctx x r_bls r_ristretto st = do
    validate_statement st
    let u = from_le_bytes d.u_bytes
    u_bls ← run (biguint_to_bls_scalar u)
    let u_rist = biguint_to_ristretto_scalar u
    let t_bls = u_bls ⊛ st.bls_x_base ⊕ d.alpha_bls ⊛ st.bls_blind_base
    let t_ristretto =
        dalek.◌⊕◌ (dalek.◌⊛◌ u_rist st.ristretto_x_base)
          (dalek.◌⊛◌ d.alpha_rist st.ristretto_blind_base)
    let c_bytes = challenge ctx st t_bls t_ristretto
    let c = from_le_bytes c_bytes
    c_bls ← run (biguint_to_bls_scalar c)
    let c_rist = biguint_to_ristretto_scalar c
    let z_x = u + c * from_le_bytes x
    fail_if (leb (2 ^ 385) z_x) (protocol_error (codes "same-x response bound exceeded"))
    done (record {
      t_bls = t_bls;
      t_ristretto = t_ristretto;
      c_bytes = c_bytes;
      z_x_le = digits 63 z_x;
      z_r_bls = d.alpha_bls ⊞ c_bls ⊠ r_bls;
      z_r_ristretto = dalek.◌⊞◌ d.alpha_rist (dalek.◌⊠◌ c_rist r_ristretto);
    })

  unfoldable pub verify : SameXProof → List ℕ → SameXStatement → Outcome (Unit {0})
  verify proof ctx st = do
    validate_statement st
    fail_if (not (canonical_biguint_le proof.z_x_le))
        (verification_failed (codes "same-x z_x is not canonical"))
    let expected_c = challenge ctx st proof.t_bls proof.t_ristretto
    fail_if (not (bytes_eq expected_c proof.c_bytes))
        (verification_failed (codes "same-x challenge mismatch"))
    let z_x = from_le_bytes proof.z_x_le
    fail_if (leb (2 ^ 385) z_x) (verification_failed (codes "same-x z_x bound exceeded"))
    z_bls ← run (biguint_to_bls_scalar z_x)
    let z_rist = biguint_to_ristretto_scalar z_x
    let c = from_le_bytes proof.c_bytes
    c_bls ← run (biguint_to_bls_scalar c)
    let c_rist = biguint_to_ristretto_scalar c
    let lhs_bls = z_bls ⊛ st.bls_x_base ⊕ proof.z_r_bls ⊛ st.bls_blind_base
    let rhs_bls = proof.t_bls ⊕ c_bls ⊛ st.bls_x_commitment
    fail_if (not (point_eq lhs_bls rhs_bls))
        (verification_failed (codes "same-x BLS equation failed"))
    let lhs_rist =
        dalek.◌⊕◌ (dalek.◌⊛◌ z_rist st.ristretto_x_base)
          (dalek.◌⊛◌ proof.z_r_ristretto st.ristretto_blind_base)
    let rhs_rist = dalek.◌⊕◌ proof.t_ristretto (dalek.◌⊛◌ c_rist st.ristretto_x_commitment)
    fail_if (not (dalek.point_eq lhs_rist rhs_rist))
        (verification_failed (codes "same-x Ristretto equation failed"))
    done tt
