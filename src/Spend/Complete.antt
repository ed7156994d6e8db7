-- ===== src/Spend/Complete.antt =====
-- src/spend.rs: an honest spend is accepted, and the refund is a token over what is left.
use ebutv.Prelude.{
  ℕ, ◌-◌, ◌^◌, ◌<◌, ◌≤◌, ◌≡◌, refl, sym, ap, ◌∙◌, ◌≢◌, arith, false, not, ◌&&◌, List, [], ◌∷◌, ltb,
  ◌==◌, length, All,
}
use ebutv.Prelude.Outcome.{done, run}
use ebutv.Curve.Laws.{point_eq_self, point_eq_ne}
use ebutv.Bls.{Bls}
use ebutv.Dalek.{Dalek}
use ebutv.Msm.{g1_msm, fold_products}
use ebutv.Hash.Reduction.{hash_to_scalar_returns}
use ebutv.Setup.{h, ServerKeys, generate}
use ebutv.Bbs.{BbsSignature, IsToken, daily_message}
use ebutv.BatchedEq.{BatchedEqualityProof, prove_batched_equality, verify_batched_equality}
use ebutv.BatchedEq as BatchedEq
use ebutv.BatchedEq.Complete.{verify_batched_equality-prove_batched_equality}
use ebutv.Spend.{SpendDraws, SpendResponse, beq_context, expiry_context, challenge, finalize}
use ebutv.Spend.Prove.{prove}
use ebutv.Spend.Verify.{issue_refund, verify_spend, next_epoch}
use ebutv.Spend.Honest.{
  Spending, k_prime, c_total, c_bp, c_delta, x_bls_commitment, a_prime, a_bar, t_bbs, msg_part,
  c_exp_bridge, points, client, honest,
}
use ebutv.Spend.Combined.{combined_lem}
use ebutv.Spend.Bridges.{bridge_lem, shifted_bridge_lem, pairing_equation, issued_lem}

module _ (bls : Bls) (dalek : Dalek) where
  open bls use {
    g1, Point, Scalar, identity, ◌⊕◌, ◌⊖◌, ◌⊛◌, ◌⊞◌, ◌⊠◌, scalar_one, point_eq, from_number,
    from_number_add, inverse, is_zero, inverse_lem, generator, pairing_lem, identity-⊕, one-⊛,
    g2_multiple,
  }

  pub challenge_returns :
      (h_ctx : Scalar) (pk : bls.G2) (spent : ℕ) (k_cur : Scalar) (t_issue e_max now_unix : ℕ)
      (nonce : List ℕ) (commitments : List Point) (beq_bytes expiry_bytes : List ℕ)
      (ps : List Point)
      → (c : Scalar) × (challenge bls dalek h_ctx pk spent k_cur t_issue e_max now_unix nonce
            commitments beq_bytes expiry_bytes ps
          ≡ done c)
  unfolding challenge
  challenge_returns h_ctx pk spent k_cur t_issue e_max now_unix nonce commitments beq_bytes
        expiry_bytes ps =
      let (c, e) = hash_to_scalar_returns bls _ in (c, ap run e)

  module _ (d : SpendDraws bls dalek) (token : BbsSignature bls) (k_sub k_cur : Scalar)
      (c_bal t_issue e_max now_unix spent : ℕ) (nonce : List ℕ) (h_ctx : Scalar)
      (sk_master sk_daily : Scalar) where
    abbrev pub keys : ServerKeys bls
    keys = generate bls sk_master sk_daily

    abbrev pub q : Spending bls dalek
    q = record {
      d = d;
      token = token;
      k_sub = k_sub;
      k_cur = k_cur;
      balance = from_number c_bal;
      c_bal = c_bal;
      m = c_bal - spent;
      t_issue = t_issue;
      e_max = e_max;
      delta = e_max - now_unix;
      now_unix = now_unix;
      spent = spent;
    }

    -- What the range proofs and the challenge of an honest proof satisfy.
    pub record Made (c : Scalar) (batched_eq expiry_eq : BatchedEqualityProof) : Type 0 where
      pub balance_ok :
          verify_batched_equality bls dalek batched_eq
            (c_bp bls dalek q)
            (h bls 3)
            (h bls 0)
            (beq_context bls dalek h_ctx spent k_cur t_issue e_max now_unix nonce)
            (a_prime bls dalek q
              ∷ a_bar bls dalek q
              ∷ t_bbs bls dalek q
              ∷ k_prime bls dalek q
              ∷ c_total bls dalek q
              ∷ x_bls_commitment bls dalek q
              ∷ c_delta bls dalek q
              ∷ [])
          ≡ done tt
      pub expiry_ok :
          verify_batched_equality bls dalek expiry_eq
            (c_delta bls dalek q)
            (h bls 5)
            (h bls 0)
            (expiry_context bls dalek h_ctx t_issue e_max now_unix k_cur nonce)
            (a_prime bls dalek q
              ∷ a_bar bls dalek q
              ∷ t_bbs bls dalek q
              ∷ k_prime bls dalek q
              ∷ c_delta bls dalek q
              ∷ x_bls_commitment bls dalek q
              ∷ [])
          ≡ done tt
      pub challenge_ok :
          challenge bls dalek h_ctx keys.pk_daily spent k_cur t_issue e_max now_unix nonce
            (k_prime bls dalek q
              ∷ c_total bls dalek q
              ∷ c_bp bls dalek q
              ∷ c_delta bls dalek q
              ∷ x_bls_commitment bls dalek q
              ∷ [])
            (BatchedEq.to_bytes batched_eq)
            (BatchedEq.to_bytes expiry_eq)
            (points bls dalek q)
          ≡ done c

    pub prove_lem :
        (spent == 0) ≡ false
        → ltb c_bal spent ≡ false
        → ltb e_max now_unix ≡ false
        → c_bal < 2 ^ 64
        → e_max < 2 ^ 64
        → length d.balance.u_m ≡ 30
        → All (λ b. b < 256) d.balance.u_m
        → length d.expiry.u_m ≡ 30
        → All (λ b. b < 256) d.expiry.u_m
        → (c : Scalar) × (b : BatchedEqualityProof) × (x : BatchedEqualityProof) × (prove bls dalek
              d token k_sub k_cur c_bal t_issue e_max now_unix spent nonce keys.pk_daily h_ctx
            ≡ done (client bls dalek q, honest bls dalek q c b x))
          × Made c b x
    unfolding prove g1_msm fold_products
    prove_lem e1 e2 e3 l1 l2 n1 a1 n2 a2 =
        let left : c_bal - spent < 2 ^ 64 = omega arith in
        let delta : e_max - now_unix < 2 ^ 64 = omega arith in
        let (b, made_b, ok_b) =
          verify_batched_equality-prove_batched_equality bls dalek d.balance (c_bal - spent) d.r_bp
            (h bls 3) (h bls 0) _ _ n1 a1 left in
        let (x, made_x, ok_x) =
          verify_batched_equality-prove_batched_equality bls dalek d.expiry (e_max - now_unix)
            d.r_delta (h bls 5) (h bls 0) _ _ n2 a2 delta in
        let (c, made_c) =
          challenge_returns h_ctx keys.pk_daily spent k_cur t_issue e_max now_unix nonce _
            (BatchedEq.to_bytes b) (BatchedEq.to_bytes x) (points bls dalek q) in
        (
          c,
          b,
          x,
          rw
              (
                e1,
                e2,
                e3,
                made_b,
                point_eq_self g1 (c_bp bls dalek q) (c_bp bls dalek q) refl,
                made_x,
                point_eq_self g1 (c_delta bls dalek q) (c_delta bls dalek q) refl,
                made_c,
              )
              refl,
          record { balance_ok = ok_b; expiry_ok = ok_x; challenge_ok = made_c },
        )

    msg_part_lem : msg_part bls dalek q ≡ daily_message bls token.s k_sub k_cur c_bal t_issue e_max
    unfolding daily_message
    msg_part_lem =
        ap
          (λ t.
            t
            ⊕ token.s
            ⊛ h bls 0
            ⊕ k_sub
            ⊛ h bls 1
            ⊕ k_cur
            ⊛ h bls 2
            ⊕ from_number c_bal
            ⊛ h bls 3
            ⊕ from_number t_issue
            ⊛ h bls 4
            ⊕ from_number e_max
            ⊛ h bls 5)
          (identity-⊕ (scalar_one ⊛ generator) ∙ one-⊛ generator)

    -- What the server answers for the commitment of the proof.
    pub refund : Scalar → Scalar → SpendResponse bls dalek
    refund e_refund s_prime = record {
      a_refund =
          inverse (e_refund ⊞ sk_daily)
          ⊛ (identity
              ⊕ scalar_one
              ⊛ generator
              ⊕ scalar_one
              ⊛ k_prime bls dalek q
              ⊕ s_prime
              ⊛ h bls 0);
      e_refund = e_refund;
      s_prime_refund = s_prime;
    }

    pub refund-IsToken :
        (e_refund s_prime : Scalar)
        → is_zero (e_refund ⊞ sk_daily) ≡ false
        → IsToken bls sk_daily k_sub
            (finalize bls dalek (client bls dalek q) (refund e_refund s_prime))
    unfolding finalize refund daily_message
    refund-IsToken e_refund s_prime unit =
        inverse_lem (e_refund ⊞ sk_daily) _ unit
        ∙ issued_lem g1 k_sub d.k_star (from_number (c_bal - spent)) (from_number t_issue)
            (from_number e_max) d.r_star s_prime generator (h bls 0) (h bls 1) (h bls 2) (h bls 3)
            (h bls 4) (h bls 5)

    expiry_bridge :
        (c : Scalar)
        → from_number e_max ≡ from_number (e_max - now_unix) ⊞ from_number now_unix
        → (d.rho_emax ⊞ c ⊠ (from_number e_max ⊠ d.r1))
            ⊛ h bls 5
            ⊕ (d.rho_delta ⊞ c ⊠ (d.r_delta ⊠ d.r1))
            ⊛ h bls 0
            ⊖ (identity ⊕ d.rho_emax ⊛ h bls 5 ⊕ d.rho_delta ⊛ h bls 0)
          ≡ (d.rho_r1 ⊞ c ⊠ d.r1) ⊛ c_exp_bridge bls dalek q ⊖ d.rho_r1 ⊛ c_exp_bridge bls dalek q
    expiry_bridge c e = rw e (
        shifted_bridge_lem g1 c d.r1 d.rho_r1 (from_number (e_max - now_unix)) d.r_delta d.rho_emax
          d.rho_delta (from_number now_unix) (h bls 5) (h bls 0))

    pub verify_lem :
        (c : Scalar) (b x : BatchedEqualityProof) (current_epoch : ℕ) (e_refund s_prime : Scalar)
        → Made c b x
        → (spent == 0) ≡ false
        → spent ≤ c_bal
        → now_unix ≤ e_max
        → (not (t_issue == current_epoch) && not (next_epoch t_issue == current_epoch)) ≡ false
        → IsToken bls sk_daily k_sub (token, k_cur, c_bal, t_issue, e_max)
        → a_prime bls dalek q ≢ identity
        → t_bbs bls dalek q ≢ identity
        → is_zero (e_refund ⊞ sk_daily) ≡ false
        → verify_spend bls dalek e_refund s_prime
            (honest bls dalek q c b x)
            current_epoch
            now_unix
            nonce
            keys.pk_daily
            keys
            h_ctx
          ≡ done (refund e_refund s_prime)
    unfolding verify_spend issue_refund g1_msm fold_products refund generate
    verify_lem c b x current_epoch e_refund s_prime made e1 le1 le2 e2 valid n1 n2 unit =
        let sum : from_number c_bal ≡ from_number (c_bal - spent) ⊞ from_number spent =
          ap from_number (omega arith) ∙ from_number_add (c_bal - spent) spent in
        let expiry : from_number e_max ≡ from_number (e_max - now_unix) ⊞ from_number now_unix =
          ap from_number (omega arith) ∙ from_number_add (e_max - now_unix) now_unix in
        rw
          (
            e1,
            e2,
            point_eq_ne g1 (a_prime bls dalek q) identity n1,
            point_eq_ne g1 (t_bbs bls dalek q) identity n2,
            made.challenge_ok,
            point_eq_self g1 _ _
                (bridge_lem g1 c d.r1 d.rho_r1 k_sub d.r_x d.rho_x d.rho_rx (h bls 1) (h bls 0)),
            point_eq_self g1 _ _ (expiry_bridge c expiry),
            combined_lem bls dalek q c b x sum,
            point_eq_self g1 identity identity refl,
            made.balance_ok,
            made.expiry_ok,
            (pairing_lem sk_daily (a_prime bls dalek q) _).1 (
                pairing_equation g1 sk_daily token.e d.r1 token.a (msg_part bls dalek q)
                  (valid ∙ sym msg_part_lem)),
            unit,
          )
          refl
