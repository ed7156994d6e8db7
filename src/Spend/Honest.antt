-- ===== src/Spend/Honest.antt =====
-- src/spend.rs: the proof that the prover sends, as a function of its secrets, its draws, the
-- challenge and the two range proofs.
use ebutv.Prelude.{ℕ, List, [], ◌∷◌}
use ebutv.Bls.{Bls}
use ebutv.Dalek.{Dalek}
use ebutv.Setup.{h}
use ebutv.Bbs.{BbsSignature}
use ebutv.BatchedEq.{BatchedEqualityProof}
use ebutv.Spend.{SpendProof, SpendClient, SpendDraws}

module _ (bls : Bls) (dalek : Dalek) where
  open bls use {
    g1, Point, Scalar, identity, ◌⊕◌, ◌⊛◌, ◌⊞◌, ◌⊟◌, ◌⊠◌, negate, scalar_one, generator,
    from_number,
  }

  -- The secrets and the public data of a spend; `balance` is the scalar of the token's balance.
  pub record Spending : Type 0 where
    pub d : SpendDraws bls dalek
    pub token : BbsSignature bls
    pub k_sub : Scalar
    pub k_cur : Scalar
    pub balance : Scalar
    pub c_bal : ℕ
    pub m : ℕ
    pub t_issue : ℕ
    pub e_max : ℕ
    pub delta : ℕ
    pub now_unix : ℕ
    pub spent : ℕ

  module _ (q : Spending) where
    abbrev pub k_prime : Point
    k_prime =
        q.k_sub
        ⊛ h bls 1
        ⊕ q.d.k_star
        ⊛ h bls 2
        ⊕ from_number q.m
        ⊛ h bls 3
        ⊕ from_number q.t_issue
        ⊛ h bls 4
        ⊕ (from_number q.e_max ⊛ h bls 5 ⊕ q.d.r_star ⊛ h bls 0)

    abbrev pub c_total : Point
    c_total = k_prime ⊕ from_number q.spent ⊛ h bls 3

    abbrev pub c_bp : Point
    c_bp = from_number q.m ⊛ h bls 3 ⊕ q.d.r_bp ⊛ h bls 0

    abbrev pub c_delta : Point
    c_delta = from_number q.delta ⊛ h bls 5 ⊕ q.d.r_delta ⊛ h bls 0

    abbrev pub x_bls_commitment : Point
    x_bls_commitment = q.k_sub ⊛ h bls 1 ⊕ q.d.r_x ⊛ h bls 0

    abbrev pub a_prime : Point
    a_prime = q.d.r1 ⊛ q.token.a

    abbrev pub msg_part : Point
    msg_part =
        identity
        ⊕ scalar_one
        ⊛ generator
        ⊕ q.token.s
        ⊛ h bls 0
        ⊕ q.k_sub
        ⊛ h bls 1
        ⊕ q.k_cur
        ⊛ h bls 2
        ⊕ q.balance
        ⊛ h bls 3
        ⊕ from_number q.t_issue
        ⊛ h bls 4
        ⊕ from_number q.e_max
        ⊛ h bls 5

    abbrev pub a_bar : Point
    a_bar = negate q.token.e ⊛ a_prime ⊕ q.d.r1 ⊛ msg_part

    abbrev pub t_bbs : Point
    t_bbs =
        identity
        ⊕ negate q.d.rho_e
        ⊛ a_prime
        ⊕ q.d.rho_r1
        ⊛ generator
        ⊕ q.d.rho_s
        ⊛ h bls 0
        ⊕ q.d.rho_x
        ⊛ h bls 1
        ⊕ q.k_cur
        ⊠ q.d.rho_r1
        ⊛ h bls 2
        ⊕ q.d.rho_c
        ⊛ h bls 3
        ⊕ from_number q.t_issue
        ⊠ q.d.rho_r1
        ⊛ h bls 4
        ⊕ q.d.rho_emax
        ⊛ h bls 5

    abbrev pub rho_m : Scalar
    rho_m = q.d.rho_c ⊟ from_number q.spent ⊠ q.d.rho_r1

    -- The commitments to the blinders of the token and of the refund, and the two of the values.
    abbrev pub bridge : Scalar → Point
    bridge rho =
        identity
        ⊕ q.d.rho_x
        ⊛ h bls 1
        ⊕ q.d.rho_u
        ⊛ h bls 2
        ⊕ rho
        ⊛ h bls 3
        ⊕ q.d.rho_r1
        ⊠ from_number q.t_issue
        ⊛ h bls 4
        ⊕ q.d.rho_emax
        ⊛ h bls 5
        ⊕ q.d.rho_v
        ⊛ h bls 0

    abbrev pub c_exp_bridge : Point
    c_exp_bridge = c_delta ⊕ from_number q.now_unix ⊛ h bls 5

    -- `blinder·p + rho·h0`
    abbrev pub blinded : Scalar → Point → Scalar → Point
    blinded blinder p rho = identity ⊕ blinder ⊛ p ⊕ rho ⊛ h bls 0

    abbrev pub points : List Point
    points =
        a_prime
        ∷ a_bar
        ∷ t_bbs
        ∷ q.d.rho_r1 ⊛ c_total
        ∷ bridge q.d.rho_c
        ∷ q.d.rho_r1 ⊛ k_prime
        ∷ bridge rho_m
        ∷ q.d.rho_r1 ⊛ c_bp
        ∷ blinded rho_m (h bls 3) q.d.rho_w
        ∷ q.d.rho_r1 ⊛ x_bls_commitment
        ∷ blinded q.d.rho_x (h bls 1) q.d.rho_rx
        ∷ q.d.rho_r1 ⊛ c_exp_bridge
        ∷ blinded q.d.rho_emax (h bls 5) q.d.rho_delta
        ∷ []

    abbrev pub client : SpendClient bls dalek
    client = record {
      k_cur = q.k_cur;
      c_bal = q.c_bal;
      t_issue = q.t_issue;
      e_max = q.e_max;
      k_star = q.d.k_star;
      r_star = q.d.r_star;
      remaining_balance = q.m;
      r_delta = q.d.r_delta;
      r_bp = q.d.r_bp;
    }

    abbrev pub honest : Scalar → BatchedEqualityProof → BatchedEqualityProof → SpendProof bls dalek
    honest c batched_eq expiry_eq = record {
      a_prime = a_prime;
      a_bar = a_bar;
      t_bbs = t_bbs;
      t_scale_t = q.d.rho_r1 ⊛ c_total;
      t_total = bridge q.d.rho_c;
      t_scale_r = q.d.rho_r1 ⊛ k_prime;
      t_refund = bridge rho_m;
      t_scale_bp = q.d.rho_r1 ⊛ c_bp;
      t_bp = blinded rho_m (h bls 3) q.d.rho_w;
      z_e = q.d.rho_e ⊞ c ⊠ q.token.e;
      z_r1 = q.d.rho_r1 ⊞ c ⊠ q.d.r1;
      z_s_tilde = q.d.rho_s ⊞ c ⊠ (q.token.s ⊠ q.d.r1);
      z_x_tilde = q.d.rho_x ⊞ c ⊠ (q.k_sub ⊠ q.d.r1);
      z_c_tilde = q.d.rho_c ⊞ c ⊠ (q.balance ⊠ q.d.r1);
      z_e_tilde = q.d.rho_emax ⊞ c ⊠ (from_number q.e_max ⊠ q.d.r1);
      z_u = q.d.rho_u ⊞ c ⊠ (q.d.k_star ⊠ q.d.r1);
      z_v = q.d.rho_v ⊞ c ⊠ (q.d.r_star ⊠ q.d.r1);
      z_w = q.d.rho_w ⊞ c ⊠ (q.d.r_bp ⊠ q.d.r1);
      batched_eq = batched_eq;
      s = q.spent;
      k_cur = q.k_cur;
      t_issue = q.t_issue;
      k_prime = k_prime;
      c_bp = c_bp;
      e_max = q.e_max;
      x_bls_commitment = x_bls_commitment;
      t_scale_x = q.d.rho_r1 ⊛ x_bls_commitment;
      t_x = blinded q.d.rho_x (h bls 1) q.d.rho_rx;
      z_r_x = q.d.rho_rx ⊞ c ⊠ (q.d.r_x ⊠ q.d.r1);
      c_delta = c_delta;
      expiry_eq = expiry_eq;
      t_scale_exp = q.d.rho_r1 ⊛ c_exp_bridge;
      t_exp = blinded q.d.rho_emax (h bls 5) q.d.rho_delta;
      z_r_delta = q.d.rho_delta ⊞ c ⊠ (q.d.r_delta ⊠ q.d.r1);
    }
