-- ===== src/Mint/Signature.antt =====
-- src/master_mint.rs: a client and the server, from the request to the signature.
use ebutv.Prelude.{ℕ, ◌≡◌, refl, sym, ap, ◌∙◌, false, some, [], ◌∷◌, ◌==◌}
use mathlib.Core.Path.{ap₂}
use ebutv.Prelude.Results.{ok}
use ebutv.Curve.Laws.{point_eq_self, response_pair_lem}
use ebutv.Msm.{g1_msm, fold_products}
use ebutv.Mint.{
  Setting, MasterMintRequest, challenge, prove_secret, verify_secret, commit, begin_with_x,
  finalize, sign, issue,
}

module _ (setting : Setting) where
  open setting use {
    g1, Point, Scalar, identity, ◌⊕◌, ◌⊛◌, ◌⊞◌, ◌⊠◌, scalar_one, point_eq, inverse, is_zero,
    inverse_lem, from_number, multi_exp, base, h, identity-⊕, ⊞-⊛, ⊠-⊛, one-⊛, ⊕_assoc, ⊕_comm,
  }

  two_bases :
      (p q : Point) (a b : Scalar)
      → g1_msm g1 multi_exp (p ∷ q ∷ []) (a ∷ b ∷ []) ≡ some (a ⊛ p ⊕ b ⊛ q)
  unfolding g1_msm fold_products
  two_bases p q a b = ap (λ t. some (t ⊕ b ⊛ q)) (identity-⊕ (a ⊛ p))

  -- The request that `begin_with_x` makes.
  honest : (alpha beta k_sub r_sub h_ctx : Scalar) → MasterMintRequest setting
  honest alpha beta k_sub r_sub h_ctx =
      let k = k_sub ⊛ h 1 ⊕ r_sub ⊛ h 0 in
      let t = alpha ⊛ h 1 ⊕ beta ⊛ h 0 in
      let c = challenge setting h_ctx k t in
      record {
        k_sub_commit = k;
        pok = record { t = t; s_k = alpha ⊞ c ⊠ k_sub; s_r = beta ⊞ c ⊠ r_sub };
      }

  begin_lem :
      (alpha beta k_sub r_sub h_ctx : Scalar)
      → begin_with_x setting alpha beta k_sub r_sub h_ctx
        ≡ some (honest alpha beta k_sub r_sub h_ctx)
  unfolding begin_with_x prove_secret commit honest
  begin_lem alpha beta k_sub r_sub h_ctx = rw (two_bases (h 1) (h 0) alpha beta) refl

  honest_verifies :
      (alpha beta k_sub r_sub h_ctx : Scalar)
      → verify_secret setting
          (honest alpha beta k_sub r_sub h_ctx).pok
          (honest alpha beta k_sub r_sub h_ctx).k_sub_commit
          h_ctx
        ≡ some (ok tt)
  unfolding verify_secret honest
  honest_verifies alpha beta k_sub r_sub h_ctx =
      let k = k_sub ⊛ h 1 ⊕ r_sub ⊛ h 0 in
      let t = alpha ⊛ h 1 ⊕ beta ⊛ h 0 in
      let c = challenge setting h_ctx k t in
      rw
        (
          two_bases (h 1) (h 0) (alpha ⊞ c ⊠ k_sub) (beta ⊞ c ⊠ r_sub),
          point_eq_self g1 _ _ (response_pair_lem g1 alpha beta c k_sub r_sub (h 1) (h 0)),
        )
        refl

  -- What a signature signs: the secret, the capacity and the expiry, under the blinding.
  unfoldable pub message : Scalar → Scalar → ℕ → ℕ → Point
  message k_sub s c_max e_max =
      base ⊕ (k_sub ⊛ h 1 ⊕ s ⊛ h 0) ⊕ from_number c_max ⊛ h 3 ⊕ from_number e_max ⊛ h 5

  five_bases :
      (k : Point) (s a b : Scalar)
      → g1_msm g1 multi_exp
          (base ∷ k ∷ h 0 ∷ h 3 ∷ h 5 ∷ [])
          (scalar_one ∷ scalar_one ∷ s ∷ a ∷ b ∷ [])
        ≡ some (base ⊕ k ⊕ s ⊛ h 0 ⊕ a ⊛ h 3 ⊕ b ⊛ h 5)
  unfolding g1_msm fold_products
  five_bases k s a b =
      ap₂ (λ t u. some (t ⊕ u ⊕ s ⊛ h 0 ⊕ a ⊛ h 3 ⊕ b ⊛ h 5))
        (identity-⊕ (scalar_one ⊛ base) ∙ one-⊛ base) (one-⊛ k)

  message_lem :
      (k_sub r_sub s : Scalar) (c_max e_max : ℕ)
      → base
          ⊕ (k_sub ⊛ h 1 ⊕ r_sub ⊛ h 0)
          ⊕ s
          ⊛ h 0
          ⊕ from_number c_max
          ⊛ h 3
          ⊕ from_number e_max
          ⊛ h 5
        ≡ message k_sub (r_sub ⊞ s) c_max e_max
  unfolding message
  message_lem k_sub r_sub s c_max e_max =
      ap (λ t. t ⊕ from_number c_max ⊛ h 3 ⊕ from_number e_max ⊛ h 5)
        (⊕_assoc base (k_sub ⊛ h 1 ⊕ r_sub ⊛ h 0) (s ⊛ h 0)
          ∙ ap (λ t. base ⊕ t)
              (⊕_assoc (k_sub ⊛ h 1) (r_sub ⊛ h 0) (s ⊛ h 0)
                ∙ ap (λ t. k_sub ⊛ h 1 ⊕ t) (sym (⊞-⊛ r_sub s (h 0)))))

  issue_lem :
      (alpha beta k_sub r_sub h_ctx e_sub s_prime sk : Scalar) (c_max e_max : ℕ)
      → (c_max == 0) ≡ false
      → is_zero (e_sub ⊞ sk) ≡ false
      → issue setting e_sub s_prime (honest alpha beta k_sub r_sub h_ctx) c_max e_max sk h_ctx
        ≡ some (
            ok (
              inverse (e_sub ⊞ sk)
                  ⊛ (base
                      ⊕ (k_sub ⊛ h 1 ⊕ r_sub ⊛ h 0)
                      ⊕ s_prime
                      ⊛ h 0
                      ⊕ from_number c_max
                      ⊛ h 3
                      ⊕ from_number e_max
                      ⊛ h 5),
              e_sub,
              s_prime,
            ))
  unfolding issue sign
  issue_lem alpha beta k_sub r_sub h_ctx e_sub s_prime sk c_max e_max pos unit =
      rw (honest_verifies alpha beta k_sub r_sub h_ctx, pos)
        (unfold honest in
          rw
            (
              five_bases (k_sub ⊛ h 1 ⊕ r_sub ⊛ h 0) s_prime (from_number c_max)
                  (from_number e_max),
              unit,
            )
            refl)

  -- A client that follows the protocol is served: from its request the server issues, if the capacity
  -- is positive and the drawn exponent is not the negated key, and the finished signature is one on
  -- the client's secret, capacity and expiry: (e + sk)·A is the message point.
  pub begin-issue-finalize :
      (alpha beta k_sub r_sub h_ctx e_sub s_prime sk : Scalar) (c_max e_max : ℕ)
      → (c_max == 0) ≡ false
      → is_zero (e_sub ⊞ sk) ≡ false
      → (request : MasterMintRequest setting) × (a : Point) × (begin_with_x setting alpha beta k_sub
            r_sub h_ctx
          ≡ some request)
        × (issue setting e_sub s_prime request c_max e_max sk h_ctx ≡ some (ok (a, e_sub, s_prime)))
        × (((finalize setting r_sub a e_sub s_prime).e ⊞ sk)
              ⊛ (finalize setting r_sub a e_sub s_prime).a
            ≡ message k_sub (finalize setting r_sub a e_sub s_prime).s c_max e_max)
  unfolding finalize
  begin-issue-finalize alpha beta k_sub r_sub h_ctx e_sub s_prime sk c_max e_max pos unit = (
    honest alpha beta k_sub r_sub h_ctx,
    _,
    begin_lem alpha beta k_sub r_sub h_ctx,
    issue_lem alpha beta k_sub r_sub h_ctx e_sub s_prime sk c_max e_max pos unit,
    inverse_lem (e_sub ⊞ sk) _ unit ∙ message_lem k_sub r_sub s_prime c_max e_max,
  )
