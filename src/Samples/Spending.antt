-- ===== src/Samples/Spending.antt =====
-- The theorem on an honest spend, applied to the residues.
use ebutv.Prelude.{
  ◌+◌, ◌<◌, ◌≡◌, ◌≢◌, false, ◌==◌, inl, refl, ap, arith, [], ◌∷◌, replicate, All, All-replicate,
}
use ebutv.Prelude.Outcome.{done}
use ebutv.Hash.{hash_to_g1}
use ebutv.Setup.{generate, h}
use ebutv.Bbs.{BbsSignature, IsToken, daily_message}
use ebutv.BatchedEq.{BeqDraws}
use ebutv.Spend.{SpendDraws, SpendClient, SpendProof, SpendResponse, finalize}
use ebutv.Spend.Prove.{prove}
use ebutv.Spend.Verify.{verify_spend}
use ebutv.Spend.Honest.{t_bbs}
use ebutv.Spend.Complete.{q}
use ebutv.Spend.Accepted.{verify_spend-prove}
use ebutv.Samples.Residues.{Residue, residue, times, one-times}
use ebutv.Samples.Groups.{bls_residues, dalek_one_point}

abbrev pub masks : BeqDraws bls_residues dalek_one_point
masks = record {
  r_25519 = tt;
  range = tt;
  u_m = replicate 30 7;
  u_r_bls = residue 1;
  u_r_25519 = tt;
}

abbrev draws : SpendDraws bls_residues dalek_one_point
draws = record {
  k_star = residue 2;
  r_star = residue 3;
  r_bp = residue 4;
  r_delta = residue 5;
  r_x = residue 6;
  r1 = residue 1;
  rho_e = residue 1;
  rho_r1 = residue 1;
  rho_s = residue 1;
  rho_x = residue 1;
  rho_c = residue 1;
  rho_emax = residue 1;
  rho_u = residue 1;
  rho_v = residue 1;
  rho_w = residue 1;
  rho_rx = residue 1;
  rho_delta = residue 1;
  balance = masks;
  expiry = masks;
}

-- Signed with the key 0 and the exponent 1: the message itself.
abbrev token : BbsSignature bls_residues
token = record {
  a = daily_message bls_residues (residue 8) (residue 3) (residue 5) 7 4 100;
  e = residue 1;
  s = residue 8;
}

token_valid : IsToken bls_residues (residue 0) (residue 3) (token, residue 5, 7, 4, 100)
token_valid = one-times token.a

pub nonzero : (r : Residue) → r.0 == 0 ≡ false → r ≢ residue 0
nonzero r h e = let n : r.0 ≡ 0 = ap (λ (t : Residue). t.0) e in absurd (ground arith)

token_a : times (residue 1) token.a ≢ residue 0
unfolding daily_message h hash_to_g1
token_a = nonzero (times (residue 1) token.a) refl

blinded :
    t_bbs bls_residues dalek_one_point (
      q bls_residues dalek_one_point draws token
        (residue 3)
        (residue 5)
        7
        4
        100
        50
        2
        (9 ∷ [])
        (residue 11)
        (residue 12)
        (residue 0))
    ≢ residue 0
unfolding daily_message h hash_to_g1
blinded = nonzero _ refl

pub sevens : All (λ b. b < 256) (replicate 30 7)
sevens = All-replicate (λ b. b < 256) 30 7 (omega arith)

verify_spend-prove_example :
    (client : SpendClient bls_residues dalek_one_point) × (proof : SpendProof bls_residues
      dalek_one_point)
    × (response : SpendResponse bls_residues dalek_one_point) × (prove bls_residues dalek_one_point
          draws token
          (residue 3)
          (residue 5)
          7
          4
          100
          50
          2
          (9 ∷ [])
          (residue 0)
          (residue 11)
        ≡ done (client, proof))
    × (verify_spend bls_residues dalek_one_point
          (residue 1)
          (residue 13)
          proof
          4
          50
          (9 ∷ [])
          (residue 0)
          (generate bls_residues (residue 12) (residue 0))
          (residue 11)
        ≡ done response)
    × IsToken bls_residues
        (residue 0)
        (residue 3)
        (finalize bls_residues dalek_one_point client response)
    × ((finalize bls_residues dalek_one_point client response).2 + 2 ≡ 7)
    × ((finalize bls_residues dalek_one_point client response).3 ≡ 4)
    × ((finalize bls_residues dalek_one_point client response).4 ≡ 100)
verify_spend-prove_example =
    verify_spend-prove bls_residues dalek_one_point draws token (residue 3) (residue 5) 7 4 100 50 2
      (9 ∷ []) (residue 11) (residue 12) (residue 0) 4 (residue 1) (residue 13) (omega arith)
      (omega arith) (omega arith) (omega arith) (omega arith) (inl refl) (omega arith) refl sevens
      refl sevens token_valid token_a blinded refl
