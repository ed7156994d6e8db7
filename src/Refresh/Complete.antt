-- ===== src/Refresh/Complete.antt =====
-- src/epoch_refresh.rs: an honest refresh is accepted.
use ebutv.Prelude.{
  ℕ, ◌-◌, ◌^◌, ◌<◌, ◌≤◌, ◌≡◌, refl, sym, ap, ◌∙◌, ◌≢◌, arith, false, List, [], ◌∷◌, ltb, length,
  All,
}
use ebutv.Prelude.Outcome.{done, run}
use ebutv.Curve.Laws.{point_eq_self, point_eq_ne}
use ebutv.Bls.{Bls}
use ebutv.Dalek.{Dalek}
use ebutv.Msm.{g1_msm, fold_products}
use ebutv.Hash.Reduction.{hash_to_scalar_returns}
use ebutv.Setup.{h, ServerKeys, generate}
use ebutv.Bbs.{BbsSignature, IsMaster, IsToken, master_message, daily_message}
use ebutv.BatchedEq.{BatchedEqualityProof, verify_batched_equality}
use ebutv.BatchedEq as BatchedEq
use ebutv.BatchedEq.Complete.{verify_batched_equality-prove_batched_equality}
use ebutv.Refresh.{RefreshDraws, RefreshResponse, beq_context, challenge, finalize}
use ebutv.Refresh.Prove.{prove}
use ebutv.Refresh.Verify.{issue_daily, verify_refresh}
use ebutv.Refresh.Honest.{
  Refreshing, n_t, k_daily_commit, c_delta, x_bls_commitment, a_prime, a_bar, t_bbs, msg_part,
  points, client, honest,
}
use ebutv.Refresh.Combined.{combined_lem}
use ebutv.Spend.Bridges.{bridge_lem, pairing_equation, issued_lem}

module _ (bls : Bls) (dalek : Dalek) where
  open bls use {
    g1, Point, Scalar, identity, ◌⊕◌, ◌⊛◌, ◌⊞◌, scalar_one, from_number, from_number_add, inverse,
    is_zero, inverse_lem, generator, pairing_lem, identity-⊕, one-⊛,
  }

  challenge_returns :
      (h_ctx : Scalar) (pk : bls.G2) (t now_unix : ℕ) (commitments : List Point)
      (beq_bytes : List ℕ) (ps : List Point)
      → (c : Scalar) × (challenge bls dalek h_ctx pk t now_unix commitments beq_bytes ps ≡ done c)
  unfolding challenge
  challenge_returns h_ctx pk t now_unix commitments beq_bytes ps =
      let (c, e) = hash_to_scalar_returns bls _ in (c, ap run e)

  module _ (d : RefreshDraws bls dalek) (master : BbsSignature bls) (k_sub : Scalar)
      (c_max e_max t now_unix : ℕ) (h_ctx sk_master sk_daily : Scalar) where
    abbrev keys : ServerKeys bls
    keys = generate bls sk_master sk_daily

    abbrev pub q : Refreshing bls dalek
    q = record {
      d = d;
      master = master;
      k_sub = k_sub;
      c_max = c_max;
      e_max = e_max;
      expiry = from_number e_max;
      t = t;
      delta = e_max - now_unix;
      now_unix = now_unix;
    }

    -- What the range proof and the challenge of an honest proof satisfy.
    pub record Made (c : Scalar) (batched_eq : BatchedEqualityProof) : Type 0 where
      pub expiry_ok :
          verify_batched_equality bls dalek batched_eq
            (c_delta bls dalek q)
            (h bls 5)
            (h bls 0)
            (beq_context bls dalek h_ctx t now_unix)
            (a_prime bls dalek q
              ∷ a_bar bls dalek q
              ∷ t_bbs bls dalek q
              ∷ n_t bls dalek q
              ∷ k_daily_commit bls dalek q
              ∷ x_bls_commitment bls dalek q
              ∷ [])
          ≡ done tt
      pub challenge_ok :
          challenge bls dalek h_ctx keys.pk_master t now_unix
            (n_t bls dalek q
              ∷ k_daily_commit bls dalek q
              ∷ c_delta bls dalek q
              ∷ x_bls_commitment bls dalek q
              ∷ [])
            (BatchedEq.to_bytes batched_eq)
            (points bls dalek q)
          ≡ done c

    pub prove_lem :
        ltb e_max now_unix ≡ false
        → e_max < 2 ^ 64
        → length d.expiry.u_m ≡ 30
        → All (λ b. b < 256) d.expiry.u_m
        → (c : Scalar) × (b : BatchedEqualityProof) × (prove bls dalek d master k_sub c_max e_max t
              now_unix keys.pk_master h_ctx
            ≡ done (client bls dalek q, honest bls dalek q c b))
          × Made c b
    unfolding prove g1_msm fold_products
    prove_lem e l n a =
        let delta : e_max - now_unix < 2 ^ 64 = omega arith in
        let (b, made_b, ok_b) =
          verify_batched_equality-prove_batched_equality bls dalek d.expiry (e_max - now_unix)
            d.r_delta (h bls 5) (h bls 0) _ _ n a delta in
        let (c, made_c) =
          challenge_returns h_ctx keys.pk_master t now_unix _ (BatchedEq.to_bytes b)
            (points bls dalek q) in
        (
          c,
          b,
          rw (e, made_b, point_eq_self g1 (c_delta bls dalek q) (c_delta bls dalek q) refl, made_c)
              refl,
          record { expiry_ok = ok_b; challenge_ok = made_c },
        )

    msg_part_lem : msg_part bls dalek q ≡ master_message bls master.s k_sub c_max e_max
    unfolding master_message
    msg_part_lem =
        ap
          (λ u.
            u
            ⊕ master.s
            ⊛ h bls 0
            ⊕ k_sub
            ⊛ h bls 1
            ⊕ from_number c_max
            ⊛ h bls 3
            ⊕ from_number e_max
            ⊛ h bls 5)
          (identity-⊕ (scalar_one ⊛ generator) ∙ one-⊛ generator)

    -- What the server answers for the commitment of the proof.
    pub daily : Scalar → Scalar → RefreshResponse bls dalek
    daily e_daily s_prime = record {
      a_daily =
          inverse (e_daily ⊞ sk_daily)
          ⊛ (identity
              ⊕ scalar_one
              ⊛ generator
              ⊕ scalar_one
              ⊛ k_daily_commit bls dalek q
              ⊕ s_prime
              ⊛ h bls 0);
      e_daily = e_daily;
      s_prime_daily = s_prime;
    }

    pub daily-IsToken :
        (e_daily s_prime : Scalar)
        → is_zero (e_daily ⊞ sk_daily) ≡ false
        → IsToken bls sk_daily k_sub (
          (finalize bls dalek (client bls dalek q) (daily e_daily s_prime)).0,
          (finalize bls dalek (client bls dalek q) (daily e_daily s_prime)).1,
          c_max,
          t,
          e_max,
        )
    unfolding finalize daily daily_message
    daily-IsToken e_daily s_prime unit =
        inverse_lem (e_daily ⊞ sk_daily) _ unit
        ∙ issued_lem g1 k_sub d.k_daily (from_number c_max) (from_number t) (from_number e_max)
            d.r_daily s_prime generator (h bls 0) (h bls 1) (h bls 2) (h bls 3) (h bls 4) (h bls 5)

    pub verify_lem :
        (c : Scalar) (b : BatchedEqualityProof) (e_daily s_prime : Scalar)
        → Made c b
        → now_unix ≤ e_max
        → IsMaster bls sk_master k_sub master c_max e_max
        → n_t bls dalek q ≢ identity
        → a_prime bls dalek q ≢ identity
        → t_bbs bls dalek q ≢ identity
        → is_zero (e_daily ⊞ sk_daily) ≡ false
        → verify_refresh bls dalek e_daily s_prime
            (honest bls dalek q c b)
            t
            now_unix
            keys.pk_master
            keys
            h_ctx
          ≡ done (daily e_daily s_prime)
    unfolding verify_refresh issue_daily g1_msm fold_products daily generate
    verify_lem c b e_daily s_prime made le valid n0 n1 n2 unit =
        let expiry : from_number e_max ≡ from_number (e_max - now_unix) ⊞ from_number now_unix =
          ap from_number (omega arith) ∙ from_number_add (e_max - now_unix) now_unix in
        rw
          (
            point_eq_ne g1 (n_t bls dalek q) identity n0,
            point_eq_ne g1 (a_prime bls dalek q) identity n1,
            point_eq_ne g1 (t_bbs bls dalek q) identity n2,
            made.challenge_ok,
            point_eq_self g1 _ _
                (bridge_lem g1 c d.r1 d.rho_r1 k_sub d.r_x d.rho_k d.rho_rx (h bls 1) (h bls 0)),
            combined_lem bls dalek q c b expiry,
            point_eq_self g1 identity identity refl,
            made.expiry_ok,
            (pairing_lem sk_master (a_prime bls dalek q) _).1 (
                pairing_equation g1 sk_master master.e d.r1 master.a (msg_part bls dalek q)
                  (valid ∙ sym msg_part_lem)),
            unit,
          )
          refl
