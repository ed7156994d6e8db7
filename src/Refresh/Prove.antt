-- ===== src/Refresh/Prove.antt =====
-- src/epoch_refresh.rs: `RefreshProver::prove`.
use ebutv.Prelude.{ℕ, ◌-◌, List, [], ◌∷◌, ltb}
use ebutv.Prelude.Outcome.{Outcome, done, ◌>>=◌, ◌>>◌, run, fail_if}
use ebutv.Prelude.Options.{assert}
use ebutv.Prelude.Text.{codes}
use ebutv.Server.Store.{protocol_error}
use ebutv.Bls.{Bls}
use ebutv.Dalek.{Dalek}
use ebutv.Msm.{g1_msm}
use ebutv.Setup.{h}
use ebutv.Bbs.{BbsSignature}
use ebutv.BatchedEq.{prove_batched_equality}
use ebutv.BatchedEq as BatchedEq
use ebutv.Refresh.{RefreshProof, RefreshClient, RefreshDraws, epoch_base, beq_context, challenge}

module _ (bls : Bls) (dalek : Dalek) where
  open bls use {
    g1, Point, Scalar, ◌⊕◌, ◌⊛◌, ◌⊞◌, ◌⊠◌, negate, scalar_one, point_eq, G2, generator, from_number,
    multi_exp,
  }

  abbrev msm : List Point → List Scalar → Outcome Point
  msm bases scalars = run (g1_msm g1 multi_exp bases scalars)

  abbrev h_at : ℕ → Point
  h_at = h bls

  unfoldable pub prove :
      RefreshDraws bls dalek
      → BbsSignature bls
      → Scalar
      → ℕ
      → ℕ
      → ℕ
      → ℕ
      → G2
      → Scalar
      → Outcome (RefreshClient bls dalek × RefreshProof bls dalek)
  prove d master k_sub c_max e_max t now_unix pk_master h_ctx = do
    fail_if (ltb e_max now_unix) (protocol_error (codes "Master token expired"))
    let delta = e_max - now_unix
    let h_t = epoch_base bls dalek t
    let n_t = k_sub ⊛ h_t
    let k_daily_commit =
        k_sub
        ⊛ h_at 1
        ⊕ d.k_daily
        ⊛ h_at 2
        ⊕ from_number c_max
        ⊛ h_at 3
        ⊕ from_number t
        ⊛ h_at 4
        ⊕ (from_number e_max ⊛ h_at 5 ⊕ d.r_daily ⊛ h_at 0)
    let c_delta = from_number delta ⊛ h_at 5 ⊕ d.r_delta ⊛ h_at 0
    let x_bls_commitment = k_sub ⊛ h_at 1 ⊕ d.r_x ⊛ h_at 0
    let a_prime = d.r1 ⊛ master.a
    msg_part ←
        msm (generator ∷ h_at 0 ∷ h_at 1 ∷ h_at 3 ∷ h_at 5 ∷ [])
          (scalar_one ∷ master.s ∷ k_sub ∷ from_number c_max ∷ from_number e_max ∷ [])
    let a_bar = negate master.e ⊛ a_prime ⊕ d.r1 ⊛ msg_part
    let s_tilde = master.s ⊠ d.r1
    let k_tilde = k_sub ⊠ d.r1
    let c_tilde = from_number c_max ⊠ d.r1
    let e_tilde = from_number e_max ⊠ d.r1
    t_bbs ←
        msm (a_prime ∷ generator ∷ h_at 0 ∷ h_at 1 ∷ h_at 3 ∷ h_at 5 ∷ [])
          (negate d.rho_e ∷ d.rho_r1 ∷ d.rho_s ∷ d.rho_k ∷ d.rho_c ∷ d.rho_e_msg ∷ [])
    let t_scale_n = d.rho_r1 ⊛ n_t
    let t_n = d.rho_k ⊛ h_t
    let t_scale_d = d.rho_r1 ⊛ k_daily_commit
    t_d ←
        msm (h_at 1 ∷ h_at 2 ∷ h_at 3 ∷ h_at 4 ∷ h_at 5 ∷ h_at 0 ∷ [])
          (d.rho_k ∷ d.rho_u ∷ d.rho_c ∷ d.rho_r1 ⊠ from_number t ∷ d.rho_e_msg ∷ d.rho_v ∷ [])
    let c_bridge = c_delta ⊕ from_number now_unix ⊛ h_at 5
    let t_scale_b = d.rho_r1 ⊛ c_bridge
    t_b ← msm (h_at 5 ∷ h_at 0 ∷ []) (d.rho_e_msg ∷ d.rho_w ∷ [])
    let t_scale_x = d.rho_r1 ⊛ x_bls_commitment
    t_x ← msm (h_at 1 ∷ h_at 0 ∷ []) (d.rho_k ∷ d.rho_rx ∷ [])
    (batched_eq, c_delta_from_beq) ←
        prove_batched_equality bls dalek d.expiry delta d.r_delta (h_at 5) (h_at 0)
          (beq_context bls dalek h_ctx t now_unix)
          (a_prime ∷ a_bar ∷ t_bbs ∷ n_t ∷ k_daily_commit ∷ x_bls_commitment ∷ [])
    run (assert (point_eq c_delta c_delta_from_beq))
    c ←
        challenge bls dalek h_ctx pk_master t now_unix
          (n_t ∷ k_daily_commit ∷ c_delta ∷ x_bls_commitment ∷ []) (BatchedEq.to_bytes batched_eq)
          (a_prime ∷ a_bar ∷ t_bbs ∷ t_scale_n ∷ t_n ∷ t_scale_d ∷ t_d ∷ t_scale_b ∷ t_b ∷ t_scale_x
            ∷ t_x ∷ [])
    done (
      record {
        k_sub = k_sub;
        c_max = c_max;
        e_max = e_max;
        t = t;
        k_daily = d.k_daily;
        r_daily = d.r_daily;
        r_delta = d.r_delta;
      },
      record {
        a_prime = a_prime;
        a_bar = a_bar;
        t_bbs = t_bbs;
        t_scale_n = t_scale_n;
        t_n = t_n;
        t_scale_d = t_scale_d;
        t_d = t_d;
        t_scale_b = t_scale_b;
        t_b = t_b;
        z_e = d.rho_e ⊞ c ⊠ master.e;
        z_r1 = d.rho_r1 ⊞ c ⊠ d.r1;
        z_s_tilde = d.rho_s ⊞ c ⊠ s_tilde;
        z_k_tilde = d.rho_k ⊞ c ⊠ k_tilde;
        z_c_tilde = d.rho_c ⊞ c ⊠ c_tilde;
        z_e_tilde = d.rho_e_msg ⊞ c ⊠ e_tilde;
        z_u = d.rho_u ⊞ c ⊠ (d.k_daily ⊠ d.r1);
        z_v = d.rho_v ⊞ c ⊠ (d.r_daily ⊠ d.r1);
        z_w = d.rho_w ⊞ c ⊠ (d.r_delta ⊠ d.r1);
        batched_eq = batched_eq;
        n_t = n_t;
        k_daily = k_daily_commit;
        c_delta = c_delta;
        x_bls_commitment = x_bls_commitment;
        t_scale_x = t_scale_x;
        t_x = t_x;
        z_r_x = d.rho_rx ⊞ c ⊠ (d.r_x ⊠ d.r1);
      },
    )
