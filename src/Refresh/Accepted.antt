-- ===== src/Refresh/Accepted.antt =====
-- src/epoch_refresh.rs: a client with a master token gets a daily token for the epoch.
use ebutv.Prelude.{ℕ, ◌^◌, ◌<◌, ◌≤◌, ◌≡◌, refl, ◌≢◌, false, length, All, le→ltb}
use ebutv.Prelude.Outcome.{done}
use ebutv.Bls.{Bls}
use ebutv.Dalek.{Dalek}
use ebutv.Setup.{generate}
use ebutv.Bbs.{BbsSignature, IsMaster, IsToken}
use ebutv.Refresh.{RefreshProof, RefreshClient, RefreshDraws, RefreshResponse, epoch_base, finalize}
use ebutv.Refresh.Prove.{prove}
use ebutv.Refresh.Verify.{verify_refresh}
use ebutv.Refresh.Honest.{t_bbs}
use ebutv.Refresh.Complete.{q, prove_lem, verify_lem, daily, daily-IsToken}

module _ (bls : Bls) (dalek : Dalek) where
  open bls use {Scalar, identity, ◌⊛◌, ◌⊞◌, is_zero, g2_multiple}

  -- Refreshing a master token: if the token is the client's, signed by the server and not expired,
  -- then for all draws (30 bytes for the integer blinder) the prover returns a proof for the epoch,
  -- with the client's nullifier of that epoch, the server accepts it, and what the client makes of
  -- the answer is a daily token with the same secret and expiry, the full capacity as its balance,
  -- and that epoch. None of the three points that the server compares with the identity is it, and
  -- the drawn exponent is not the negated key.
  pub verify_refresh-prove :
      (d : RefreshDraws bls dalek) (master : BbsSignature bls) (k_sub : Scalar)
      (c_max e_max t now_unix : ℕ) (h_ctx sk_master sk_daily e_daily s_prime : Scalar)
      → now_unix ≤ e_max
      → e_max < 2 ^ 64
      → length d.expiry.u_m ≡ 30
      → All (λ b. b < 256) d.expiry.u_m
      → IsMaster bls sk_master k_sub master c_max e_max
      → k_sub ⊛ epoch_base bls dalek t ≢ identity
      → d.r1 ⊛ master.a ≢ identity
      → t_bbs bls dalek (q bls dalek d master k_sub c_max e_max t now_unix h_ctx sk_master sk_daily)
        ≢ identity
      → is_zero (e_daily ⊞ sk_daily) ≡ false
      → (client : RefreshClient bls dalek) × (proof : RefreshProof bls dalek)
        × (response : RefreshResponse bls dalek) × (prove bls dalek d master k_sub c_max e_max t
              now_unix
              (g2_multiple sk_master)
              h_ctx
            ≡ done (client, proof))
        × (proof.n_t ≡ k_sub ⊛ epoch_base bls dalek t)
        × (verify_refresh bls dalek e_daily s_prime proof t now_unix
              (g2_multiple sk_master)
              (generate bls sk_master sk_daily)
              h_ctx
            ≡ done response)
        × IsToken bls sk_daily k_sub (
          (finalize bls dalek client response).0,
          (finalize bls dalek client response).1,
          c_max,
          t,
          e_max,
        )
  unfolding generate
  verify_refresh-prove d master k_sub c_max e_max t now_unix h_ctx sk_master sk_daily e_daily
        s_prime alive width n a valid p0 p1 p2 unit =
      let (c, b, made, facts) =
        prove_lem bls dalek d master k_sub c_max e_max t now_unix h_ctx sk_master sk_daily
          (le→ltb e_max now_unix alive) width n a in
      (
        _,
        _,
        daily bls dalek d master k_sub c_max e_max t now_unix h_ctx sk_master sk_daily e_daily
            s_prime,
        made,
        refl,
        verify_lem bls dalek d master k_sub c_max e_max t now_unix h_ctx sk_master sk_daily c b
            e_daily s_prime facts alive valid p0 p1 p2 unit,
        daily-IsToken bls dalek d master k_sub c_max e_max t now_unix h_ctx sk_master sk_daily
            e_daily s_prime unit,
      )
