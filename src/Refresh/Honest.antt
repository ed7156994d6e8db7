-- ===== src/Refresh/Honest.antt =====
-- src/epoch_refresh.rs: the proof that the prover sends, as a function of its secrets, its draws, the
-- challenge and the range proof.
use ebutv.Prelude.{ℕ, List, [], ◌∷◌}
use ebutv.Bls.{Bls}
use ebutv.Dalek.{Dalek}
use ebutv.Setup.{h}
use ebutv.Bbs.{BbsSignature}
use ebutv.BatchedEq.{BatchedEqualityProof}
use ebutv.Refresh.{RefreshProof, RefreshClient, RefreshDraws, epoch_base}

module _ (bls : Bls) (dalek : Dalek) where
  open bls use {
    g1, Point, Scalar, identity, ◌⊕◌, ◌⊛◌, ◌⊞◌, ◌⊠◌, negate, scalar_one, generator, from_number,
  }

  -- The secrets and the public data of a refresh; `expiry` is the scalar of the expiry.
  pub record Refreshing : Type 0 where
    pub d : RefreshDraws bls dalek
    pub master : BbsSignature bls
    pub k_sub : Scalar
    pub c_max : ℕ
    pub e_max : ℕ
    pub expiry : Scalar
    pub t : ℕ
    pub delta : ℕ
    pub now_unix : ℕ

  module _ (q : Refreshing) where
    abbrev pub n_t : Point
    n_t = q.k_sub ⊛ epoch_base bls dalek q.t

    abbrev pub k_daily_commit : Point
    k_daily_commit =
        q.k_sub
        ⊛ h bls 1
        ⊕ q.d.k_daily
        ⊛ h bls 2
        ⊕ from_number q.c_max
        ⊛ h bls 3
        ⊕ from_number q.t
        ⊛ h bls 4
        ⊕ (q.expiry ⊛ h bls 5 ⊕ q.d.r_daily ⊛ h bls 0)

    abbrev pub c_delta : Point
    c_delta = from_number q.delta ⊛ h bls 5 ⊕ q.d.r_delta ⊛ h bls 0

    abbrev pub c_bridge : Point
    c_bridge = c_delta ⊕ from_number q.now_unix ⊛ h bls 5

    abbrev pub x_bls_commitment : Point
    x_bls_commitment = q.k_sub ⊛ h bls 1 ⊕ q.d.r_x ⊛ h bls 0

    abbrev pub a_prime : Point
    a_prime = q.d.r1 ⊛ q.master.a

    abbrev pub msg_part : Point
    msg_part =
        identity
        ⊕ scalar_one
        ⊛ generator
        ⊕ q.master.s
        ⊛ h bls 0
        ⊕ q.k_sub
        ⊛ h bls 1
        ⊕ from_number q.c_max
        ⊛ h bls 3
        ⊕ q.expiry
        ⊛ h bls 5

    abbrev pub a_bar : Point
    a_bar = negate q.master.e ⊛ a_prime ⊕ q.d.r1 ⊛ msg_part

    abbrev pub t_bbs : Point
    t_bbs =
        identity
        ⊕ negate q.d.rho_e
        ⊛ a_prime
        ⊕ q.d.rho_r1
        ⊛ generator
        ⊕ q.d.rho_s
        ⊛ h bls 0
        ⊕ q.d.rho_k
        ⊛ h bls 1
        ⊕ q.d.rho_c
        ⊛ h bls 3
        ⊕ q.d.rho_e_msg
        ⊛ h bls 5

    abbrev pub t_d : Point
    t_d =
        identity
        ⊕ q.d.rho_k
        ⊛ h bls 1
        ⊕ q.d.rho_u
        ⊛ h bls 2
        ⊕ q.d.rho_c
        ⊛ h bls 3
        ⊕ q.d.rho_r1
        ⊠ from_number q.t
        ⊛ h bls 4
        ⊕ q.d.rho_e_msg
        ⊛ h bls 5
        ⊕ q.d.rho_v
        ⊛ h bls 0

    -- `blinder·p + rho·h0`
    abbrev pub blinded : Scalar → Point → Scalar → Point
    blinded blinder p rho = identity ⊕ blinder ⊛ p ⊕ rho ⊛ h bls 0

    abbrev pub points : List Point
    points =
        a_prime
        ∷ a_bar
        ∷ t_bbs
        ∷ q.d.rho_r1 ⊛ n_t
        ∷ q.d.rho_k ⊛ epoch_base bls dalek q.t
        ∷ q.d.rho_r1 ⊛ k_daily_commit
        ∷ t_d
        ∷ q.d.rho_r1 ⊛ c_bridge
        ∷ blinded q.d.rho_e_msg (h bls 5) q.d.rho_w
        ∷ q.d.rho_r1 ⊛ x_bls_commitment
        ∷ blinded q.d.rho_k (h bls 1) q.d.rho_rx
        ∷ []

    abbrev pub client : RefreshClient bls dalek
    client = record {
      k_sub = q.k_sub;
      c_max = q.c_max;
      e_max = q.e_max;
      t = q.t;
      k_daily = q.d.k_daily;
      r_daily = q.d.r_daily;
      r_delta = q.d.r_delta;
    }

    abbrev pub honest : Scalar → BatchedEqualityProof → RefreshProof bls dalek
    honest c batched_eq = record {
      a_prime = a_prime;
      a_bar = a_bar;
      t_bbs = t_bbs;
      t_scale_n = q.d.rho_r1 ⊛ n_t;
      t_n = q.d.rho_k ⊛ epoch_base bls dalek q.t;
      t_scale_d = q.d.rho_r1 ⊛ k_daily_commit;
      t_d = t_d;
      t_scale_b = q.d.rho_r1 ⊛ c_bridge;
      t_b = blinded q.d.rho_e_msg (h bls 5) q.d.rho_w;
      z_e = q.d.rho_e ⊞ c ⊠ q.master.e;
      z_r1 = q.d.rho_r1 ⊞ c ⊠ q.d.r1;
      z_s_tilde = q.d.rho_s ⊞ c ⊠ (q.master.s ⊠ q.d.r1);
      z_k_tilde = q.d.rho_k ⊞ c ⊠ (q.k_sub ⊠ q.d.r1);
      z_c_tilde = q.d.rho_c ⊞ c ⊠ (from_number q.c_max ⊠ q.d.r1);
      z_e_tilde = q.d.rho_e_msg ⊞ c ⊠ (q.expiry ⊠ q.d.r1);
      z_u = q.d.rho_u ⊞ c ⊠ (q.d.k_daily ⊠ q.d.r1);
      z_v = q.d.rho_v ⊞ c ⊠ (q.d.r_daily ⊠ q.d.r1);
      z_w = q.d.rho_w ⊞ c ⊠ (q.d.r_delta ⊠ q.d.r1);
      batched_eq = batched_eq;
      n_t = n_t;
      k_daily = k_daily_commit;
      c_delta = c_delta;
      x_bls_commitment = x_bls_commitment;
      t_scale_x = q.d.rho_r1 ⊛ x_bls_commitment;
      t_x = blinded q.d.rho_k (h bls 1) q.d.rho_rx;
      z_r_x = q.d.rho_rx ⊞ c ⊠ (q.d.r_x ⊠ q.d.r1);
    }
