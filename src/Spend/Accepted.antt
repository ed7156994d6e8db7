-- ===== src/Spend/Accepted.antt =====
-- src/spend.rs: a client with a token spends from it, and gets a token over what is left.
use ebutv.Prelude.{
  ℕ, ◌+◌, ◌^◌, ◌<◌, ◌≤◌, ◌≡◌, refl, ◌≢◌, ◌⊎◌, arith, false, not, ◌&&◌, List, ◌==◌, length, All,
  le→ltb,
}
use ebutv.Prelude.Outcome.{done}
use ebutv.Bls.{Bls}
use ebutv.Dalek.{Dalek}
use ebutv.Setup.{generate}
use ebutv.Bbs.{BbsSignature, IsToken}
use ebutv.Spend.{SpendProof, SpendClient, SpendDraws, SpendResponse, finalize}
use ebutv.Spend.Prove.{prove}
use ebutv.Spend.Verify.{verify_spend, next_epoch}
use ebutv.Spend.Honest.{t_bbs}
use ebutv.Spend.Complete.{q, prove_lem, verify_lem, refund, refund-IsToken}

in_time :
    (t_issue current_epoch : ℕ)
    → (t_issue ≡ current_epoch) ⊎ (t_issue + 1 ≡ current_epoch)
    → current_epoch < 2 ^ 32
    → (not (t_issue == current_epoch) && not (next_epoch t_issue == current_epoch)) ≡ false
in_time t_issue current_epoch h small = ground arith

not_zero : (n : ℕ) → 0 < n → (n == 0) ≡ false
not_zero n h = ground arith

module _ (bls : Bls) (dalek : Dalek) where
  open bls use {Point, Scalar, identity, ◌⊛◌, ◌⊞◌, is_zero, g2_multiple}

  -- Spending from a token: if the token is the client's, signed by the server, in time and not
  -- expired, and the amount is positive and within the balance, then for all draws (30 bytes for
  -- each of the two integer blinders) the prover returns a proof, the server accepts it, and what the
  -- client makes of the answer is a token with the same secret, epoch and expiry and with the amount
  -- taken off. Neither of the two points that the server compares with the identity is it, and the
  -- drawn exponent is not the negated key.
  pub verify_spend-prove :
      (d : SpendDraws bls dalek) (token : BbsSignature bls) (k_sub k_cur : Scalar)
      (c_bal t_issue e_max now_unix spent : ℕ) (nonce : List ℕ) (h_ctx : Scalar)
      (sk_master sk_daily : Scalar) (current_epoch : ℕ) (e_refund s_prime : Scalar)
      → 0 < spent
      → spent ≤ c_bal
      → c_bal < 2 ^ 32
      → now_unix ≤ e_max
      → e_max < 2 ^ 64
      → (t_issue ≡ current_epoch) ⊎ (t_issue + 1 ≡ current_epoch)
      → current_epoch < 2 ^ 32
      → length d.balance.u_m ≡ 30
      → All (λ b. b < 256) d.balance.u_m
      → length d.expiry.u_m ≡ 30
      → All (λ b. b < 256) d.expiry.u_m
      → IsToken bls sk_daily k_sub (token, k_cur, c_bal, t_issue, e_max)
      → d.r1 ⊛ token.a ≢ identity
      → t_bbs bls dalek (
          q bls dalek d token k_sub k_cur c_bal t_issue e_max now_unix spent nonce h_ctx sk_master
            sk_daily)
        ≢ identity
      → is_zero (e_refund ⊞ sk_daily) ≡ false
      → (client : SpendClient bls dalek) × (proof : SpendProof bls dalek)
        × (response : SpendResponse bls dalek) × (prove bls dalek d token k_sub k_cur c_bal t_issue
              e_max now_unix spent nonce
              (g2_multiple sk_daily)
              h_ctx
            ≡ done (client, proof))
        × (verify_spend bls dalek e_refund s_prime proof current_epoch now_unix nonce
              (g2_multiple sk_daily)
              (generate bls sk_master sk_daily)
              h_ctx
            ≡ done response)
        × IsToken bls sk_daily k_sub (finalize bls dalek client response)
        × ((finalize bls dalek client response).2 + spent ≡ c_bal)
        × ((finalize bls dalek client response).3 ≡ t_issue)
        × ((finalize bls dalek client response).4 ≡ e_max)
  unfolding finalize generate
  verify_spend-prove d token k_sub k_cur c_bal t_issue e_max now_unix spent nonce h_ctx sk_master
        sk_daily current_epoch e_refund s_prime pos within fits alive width epoch epoch_fits n1 a1
        n2 a2 valid p1 p2 unit =
      let small : c_bal < 2 ^ 64 = omega arith in
      let (c, b, x, made, facts) =
        prove_lem bls dalek d token k_sub k_cur c_bal t_issue e_max now_unix spent nonce h_ctx
          sk_master sk_daily (not_zero spent pos) (le→ltb c_bal spent within)
          (le→ltb e_max now_unix alive) small width n1 a1 n2 a2 in
      (
        _,
        _,
        refund bls dalek d token k_sub k_cur c_bal t_issue e_max now_unix spent nonce h_ctx
            sk_master sk_daily e_refund s_prime,
        made,
        verify_lem bls dalek d token k_sub k_cur c_bal t_issue e_max now_unix spent nonce h_ctx
            sk_master sk_daily c b x current_epoch e_refund s_prime facts (not_zero spent pos)
            within alive (in_time t_issue current_epoch epoch epoch_fits) valid p1 p2 unit,
        refund-IsToken bls dalek d token k_sub k_cur c_bal t_issue e_max now_unix spent nonce h_ctx
            sk_master sk_daily e_refund s_prime unit,
        omega arith,
        refl,
        refl,
      )
