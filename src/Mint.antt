-- ===== src/Mint.antt =====
-- src/master_mint.rs: minting a master token. A client commits to its secret with a proof of knowledge;
-- the server signs the commitment blindly. `none` is a panic of the sums of src/msm.rs. The byte forms
-- and the hash to a scalar (src/hash.rs) and the generators (src/setup.rs) are an interface.
pub mod Signature
use ebutv.Prelude.{
  ℕ, ◌≡◌, ◌==◌, Bool, true, false, not, Option, none, some, List, [], ◌∷◌, ◌++◌, if◌then◌else◌,
}
use ebutv.Prelude.Results.{Result, ok, err}
use ebutv.Prelude.Options.{◌>>=◌}
use ebutv.Prelude.Text.{codes}
use ebutv.Curve.{Curve}
use ebutv.Server.Store.{ActError, verification_failed, protocol_error}
use ebutv.Msm.{g1_msm}

-- The scalar field and the transcript, and the generators g1, h0, h1, ….
pub record Setting : Type 1 where
  pub g1 : Curve
  pub open g1 use *
  pub inverse : Scalar → Scalar
  pub is_zero : Scalar → Bool
  pub inverse_lem : (d : Scalar) (p : Point) → is_zero d ≡ false → d ⊛ (inverse d ⊛ p) ≡ p
  pub from_number : ℕ → Scalar
  pub multi_exp : List Point → List Scalar → Point
  pub write_scalar : Scalar → List ℕ
  pub write_g1 : Point → List ℕ
  pub hash_to_scalar : List ℕ → Scalar
  pub base : Point
  pub h : ℕ → Point

module _ (setting : Setting) where
  open setting use {
    g1, Point, Scalar, ◌⊕◌, ◌⊛◌, ◌⊞◌, ◌⊠◌, scalar_one, point_eq, inverse, is_zero, from_number,
    multi_exp, write_scalar, write_g1, hash_to_scalar, base, h,
  }

  pub record ProofOfKnowledge : Type 0 where
    pub t : Point
    pub s_k : Scalar
    pub s_r : Scalar

  pub record MasterMintRequest : Type 0 where
    pub k_sub_commit : Point
    pub pok : ProofOfKnowledge

  pub record BbsSignature : Type 0 where
    pub a : Point
    pub e : Scalar
    pub s : Scalar

  pub challenge : Scalar → Point → Point → Scalar
  challenge h_ctx k_sub_commit t =
      hash_to_scalar
        (write_scalar h_ctx ++ (write_g1 k_sub_commit ++ (write_g1 t ++ codes "PoK:MasterSecret")))

  -- `ProofOfKnowledge::prove`, on the two scalars that it draws.
  unfoldable pub prove_secret :
      Scalar → Scalar → Scalar → Scalar → Point → Scalar → Option ProofOfKnowledge
  prove_secret alpha beta k_sub r_sub k_sub_commit h_ctx = do
    t ← g1_msm g1 multi_exp (h 1 ∷ h 0 ∷ []) (alpha ∷ beta ∷ [])
    let c = challenge h_ctx k_sub_commit t
    some (record { t = t; s_k = alpha ⊞ c ⊠ k_sub; s_r = beta ⊞ c ⊠ r_sub })

  -- `ProofOfKnowledge::verify`
  unfoldable pub verify_secret :
      ProofOfKnowledge → Point → Scalar → Option (Result ActError (Unit {0}))
  verify_secret pok k_sub_commit h_ctx =
      let c = challenge h_ctx k_sub_commit pok.t in
      g1_msm g1 multi_exp (h 1 ∷ h 0 ∷ []) (pok.s_k ∷ pok.s_r ∷ []) >>= λ lhs. some (
        if not (point_eq lhs (pok.t ⊕ c ⊛ k_sub_commit))
        then err (verification_failed (codes "PoK verification failed"))
        else ok tt)

  -- src/commitments.rs: `commit(m, r, g, h)`
  unfoldable pub commit : Scalar → Scalar → Point → Point → Point
  commit m r g h' = m ⊛ g ⊕ r ⊛ h'

  -- `MasterMintClient::begin_with_x`, after the conversion of the secret to a scalar.
  unfoldable pub begin_with_x :
      Scalar → Scalar → Scalar → Scalar → Scalar → Option MasterMintRequest
  begin_with_x alpha beta k_sub r_sub h_ctx = do
    let k_sub_commit = commit k_sub r_sub (h 1) (h 0)
    pok ← prove_secret alpha beta k_sub r_sub k_sub_commit h_ctx
    some (record { k_sub_commit = k_sub_commit; pok = pok })

  -- `MasterMintClient::finalize`
  unfoldable pub finalize : Scalar → Point → Scalar → Scalar → BbsSignature
  finalize r_sub a_sub e_sub s_prime_sub = record { a = a_sub; e = e_sub; s = r_sub ⊞ s_prime_sub }

  -- The end of `issue`: the signature on the sum of the message part.
  unfoldable pub sign : Scalar → Scalar → Scalar → Point → Result ActError (Point × Scalar × Scalar)
  sign sk_master e_sub s_prime_sub msg_part =
      if is_zero (e_sub ⊞ sk_master)
      then err (protocol_error (codes "Division by zero"))
      else ok (inverse (e_sub ⊞ sk_master) ⊛ msg_part, e_sub, s_prime_sub)

  -- `MasterMintServer::issue`, on the two scalars that it draws.
  unfoldable pub issue :
      Scalar
      → Scalar
      → MasterMintRequest
      → ℕ
      → ℕ
      → Scalar
      → Scalar
      → Option (Result ActError (Point × Scalar × Scalar))
  issue e_sub s_prime_sub request c_max e_max sk_master h_ctx =
      verify_secret request.pok request.k_sub_commit h_ctx >>= λ verdict. elim verdict [
        | err e ↦ some (err e)
        | ok _ ↦
            if c_max == 0
            then some (err (protocol_error (codes "c_max must be positive")))
            else (g1_msm g1 multi_exp (base ∷ request.k_sub_commit ∷ h 0 ∷ h 3 ∷ h 5 ∷ []) (
                  scalar_one
                  ∷ scalar_one
                  ∷ s_prime_sub
                  ∷ from_number c_max
                  ∷ from_number e_max
                  ∷ [])
                >>= λ msg_part. some (sign sk_master e_sub s_prime_sub msg_part))
      ]
