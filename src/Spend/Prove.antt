-- ===== src/Spend/Prove.antt =====
-- src/spend.rs: `SpendProver::prove`.
use ebutv.Prelude.{ℕ, ◌-◌, List, [], ◌∷◌, ltb, ◌==◌}
use ebutv.Prelude.Outcome.{Outcome, done, ◌>>=◌, ◌>>◌, run, fail_if}
use ebutv.Prelude.Options.{assert}
use ebutv.Prelude.Text.{codes}
use ebutv.Server.Store.{protocol_error}
use ebutv.Bls.{Bls}
use ebutv.Dalek.{Dalek}
use ebutv.Msm.{g1_msm}
use ebutv.Setup.{h}
use ebutv.Bbs.{BbsSignature}
use ebutv.BatchedEq.{prove_batched_equality}
use ebutv.BatchedEq as BatchedEq
use ebutv.Spend.{SpendProof, SpendClient, SpendDraws, beq_context, expiry_context, challenge}

module _ (bls : Bls) (dalek : Dalek) where
  open bls use {
    g1, Point, Scalar, ◌⊕◌, ◌⊛◌, ◌⊞◌, ◌⊟◌, ◌⊠◌, negate, scalar_one, point_eq, G2, generator,
    from_number, multi_exp,
  }

  abbrev msm : List Point → List Scalar → Outcome Point
  msm bases scalars = run (g1_msm g1 multi_exp bases scalars)

  abbrev h_at : ℕ → Point
  h_at = h bls

  unfoldable pub prove :
      SpendDraws bls dalek
      → BbsSignature bls
      → Scalar
      → Scalar
      → ℕ
      → ℕ
      → ℕ
      → ℕ
      → ℕ
      → List ℕ
      → G2
      → Scalar
      → Outcome (SpendClient bls dalek × SpendProof bls dalek)
  prove d token k_sub k_cur c_bal t_issue e_max now_unix spend_amount nonce pk_daily h_ctx = do
    fail_if (spend_amount == 0) (protocol_error (codes "Spend amount must be positive"))
    fail_if (ltb c_bal spend_amount) (protocol_error (codes "Insufficient balance"))
    fail_if (ltb e_max now_unix) (protocol_error (codes "Token expired"))
    let expiry_delta = e_max - now_unix
    let m = c_bal - spend_amount
    let k_prime =
        k_sub
        ⊛ h_at 1
        ⊕ d.k_star
        ⊛ h_at 2
        ⊕ from_number m
        ⊛ h_at 3
        ⊕ from_number t_issue
        ⊛ h_at 4
        ⊕ (from_number e_max ⊛ h_at 5 ⊕ d.r_star ⊛ h_at 0)
    let c_bp = from_number m ⊛ h_at 3 ⊕ d.r_bp ⊛ h_at 0
    let c_delta = from_number expiry_delta ⊛ h_at 5 ⊕ d.r_delta ⊛ h_at 0
    let x_bls_commitment = k_sub ⊛ h_at 1 ⊕ d.r_x ⊛ h_at 0
    let a_prime = d.r1 ⊛ token.a
    msg_part ← msm (generator ∷ h_at 0 ∷ h_at 1 ∷ h_at 2 ∷ h_at 3 ∷ h_at 4 ∷ h_at 5 ∷ []) (
        scalar_one
        ∷ token.s
        ∷ k_sub
        ∷ k_cur
        ∷ from_number c_bal
        ∷ from_number t_issue
        ∷ from_number e_max
        ∷ [])
    let a_bar = negate token.e ⊛ a_prime ⊕ d.r1 ⊛ msg_part
    let s_tilde = token.s ⊠ d.r1
    let x_tilde = k_sub ⊠ d.r1
    let c_tilde = from_number c_bal ⊠ d.r1
    let e_tilde = from_number e_max ⊠ d.r1
    t_bbs ← msm (a_prime ∷ generator ∷ h_at 0 ∷ h_at 1 ∷ h_at 2 ∷ h_at 3 ∷ h_at 4 ∷ h_at 5 ∷ []) (
        negate d.rho_e
        ∷ d.rho_r1
        ∷ d.rho_s
        ∷ d.rho_x
        ∷ k_cur ⊠ d.rho_r1
        ∷ d.rho_c
        ∷ from_number t_issue ⊠ d.rho_r1
        ∷ d.rho_emax
        ∷ [])
    let c_total = k_prime ⊕ from_number spend_amount ⊛ h_at 3
    let t_scale_t = d.rho_r1 ⊛ c_total
    let bases = h_at 1 ∷ h_at 2 ∷ h_at 3 ∷ h_at 4 ∷ h_at 5 ∷ h_at 0 ∷ []
    t_total ←
        msm bases
          (d.rho_x ∷ d.rho_u ∷ d.rho_c ∷ d.rho_r1 ⊠ from_number t_issue ∷ d.rho_emax ∷ d.rho_v ∷ [])
    let t_scale_r = d.rho_r1 ⊛ k_prime
    let rho_m = d.rho_c ⊟ from_number spend_amount ⊠ d.rho_r1
    t_refund ←
        msm bases
          (d.rho_x ∷ d.rho_u ∷ rho_m ∷ d.rho_r1 ⊠ from_number t_issue ∷ d.rho_emax ∷ d.rho_v ∷ [])
    let t_scale_bp = d.rho_r1 ⊛ c_bp
    t_bp ← msm (h_at 3 ∷ h_at 0 ∷ []) (rho_m ∷ d.rho_w ∷ [])
    let t_scale_x = d.rho_r1 ⊛ x_bls_commitment
    t_x ← msm (h_at 1 ∷ h_at 0 ∷ []) (d.rho_x ∷ d.rho_rx ∷ [])
    let c_exp_bridge = c_delta ⊕ from_number now_unix ⊛ h_at 5
    let t_scale_exp = d.rho_r1 ⊛ c_exp_bridge
    t_exp ← msm (h_at 5 ∷ h_at 0 ∷ []) (d.rho_emax ∷ d.rho_delta ∷ [])
    (batched_eq, c_bp_from_beq) ←
        prove_batched_equality bls dalek d.balance m d.r_bp (h_at 3) (h_at 0)
          (beq_context bls dalek h_ctx spend_amount k_cur t_issue e_max now_unix nonce)
          (a_prime ∷ a_bar ∷ t_bbs ∷ k_prime ∷ c_total ∷ x_bls_commitment ∷ c_delta ∷ [])
    run (assert (point_eq c_bp c_bp_from_beq))
    (expiry_eq, c_delta_from_beq) ←
        prove_batched_equality bls dalek d.expiry expiry_delta d.r_delta (h_at 5) (h_at 0)
          (expiry_context bls dalek h_ctx t_issue e_max now_unix k_cur nonce)
          (a_prime ∷ a_bar ∷ t_bbs ∷ k_prime ∷ c_delta ∷ x_bls_commitment ∷ [])
    run (assert (point_eq c_delta c_delta_from_beq))
    c ←
        challenge bls dalek h_ctx pk_daily spend_amount k_cur t_issue e_max now_unix nonce
          (k_prime ∷ c_total ∷ c_bp ∷ c_delta ∷ x_bls_commitment ∷ [])
          (BatchedEq.to_bytes batched_eq) (BatchedEq.to_bytes expiry_eq)
          (a_prime ∷ a_bar ∷ t_bbs ∷ t_scale_t ∷ t_total ∷ t_scale_r ∷ t_refund ∷ t_scale_bp ∷ t_bp
            ∷ t_scale_x ∷ t_x ∷ t_scale_exp ∷ t_exp ∷ [])
    done (
      record {
        k_cur = k_cur;
        c_bal = c_bal;
        t_issue = t_issue;
        e_max = e_max;
        k_star = d.k_star;
        r_star = d.r_star;
        remaining_balance = m;
        r_delta = d.r_delta;
        r_bp = d.r_bp;
      },
      record {
        a_prime = a_prime;
        a_bar = a_bar;
        t_bbs = t_bbs;
        t_scale_t = t_scale_t;
        t_total = t_total;
        t_scale_r = t_scale_r;
        t_refund = t_refund;
        t_scale_bp = t_scale_bp;
        t_bp = t_bp;
        z_e = d.rho_e ⊞ c ⊠ token.e;
        z_r1 = d.rho_r1 ⊞ c ⊠ d.r1;
        z_s_tilde = d.rho_s ⊞ c ⊠ s_tilde;
        z_x_tilde = d.rho_x ⊞ c ⊠ x_tilde;
        z_c_tilde = d.rho_c ⊞ c ⊠ c_tilde;
        z_e_tilde = d.rho_emax ⊞ c ⊠ e_tilde;
        z_u = d.rho_u ⊞ c ⊠ (d.k_star ⊠ d.r1);
        z_v = d.rho_v ⊞ c ⊠ (d.r_star ⊠ d.r1);
        z_w = d.rho_w ⊞ c ⊠ (d.r_bp ⊠ d.r1);
        batched_eq = batched_eq;
        s = spend_amount;
        k_cur = k_cur;
        t_issue = t_issue;
        k_prime = k_prime;
        c_bp = c_bp;
        e_max = e_max;
        x_bls_commitment = x_bls_commitment;
        t_scale_x = t_scale_x;
        t_x = t_x;
        z_r_x = d.rho_rx ⊞ c ⊠ (d.r_x ⊠ d.r1);
        c_delta = c_delta;
        expiry_eq = expiry_eq;
        t_scale_exp = t_scale_exp;
        t_exp = t_exp;
        z_r_delta = d.rho_delta ⊞ c ⊠ (d.r_delta ⊠ d.r1);
      },
    )
