-- ===== src/Refresh/Combined.antt =====
-- src/epoch_refresh.rs: the combined equation of an honest refresh vanishes.
use ebutv.Prelude.{◌≡◌, refl, ap, List, [], ◌∷◌}
use ebutv.Prelude.Lists.{bytes_eq}
use ebutv.Prelude.Outcome.{done}
use ebutv.Curve.Combination.{
  expand, scale, collect, put, cancels, same_sign, flip, insert, multiply,
}
use ebutv.Curve.Combination.Sound.{vanishes}
use ebutv.Bls.{Bls}
use ebutv.Dalek.{Dalek}
use ebutv.Msm.{g1_msm, fold_products}
use ebutv.Setup.{h}
use ebutv.Setup.Laws.{h_table_mul_lem, g1_table_mul_lem}
use ebutv.BatchedEq.{BatchedEqualityProof}
use ebutv.Refresh.{epoch_base}
use ebutv.Refresh.Terms.{sum}
use ebutv.Refresh.Honest.{Refreshing, honest, c_bridge}
use ebutv.Refresh.Verify.{combined}

sum_vanishes : collect (expand sum) ≡ []
unfolding sum expand scale collect put cancels same_sign flip insert multiply bytes_eq
sum_vanishes = refl

module _ (bls : Bls) (dalek : Dalek) (q : Refreshing bls dalek) where
  open bls use {g1, Point, Scalar, identity, ◌⊞◌, generator, from_number, multi_exp_lem}

  abbrev scalars : Scalar → List Scalar
  scalars c =
      c
      ∷ q.master.e
      ∷ q.master.s
      ∷ q.k_sub
      ∷ from_number q.c_max
      ∷ from_number q.t
      ∷ q.expiry
      ∷ from_number q.delta
      ∷ from_number q.now_unix
      ∷ q.d.k_daily
      ∷ q.d.r_daily
      ∷ q.d.r_delta
      ∷ q.d.r1
      ∷ q.d.rho_e
      ∷ q.d.rho_r1
      ∷ q.d.rho_s
      ∷ q.d.rho_k
      ∷ q.d.rho_c
      ∷ q.d.rho_e_msg
      ∷ q.d.rho_u
      ∷ q.d.rho_v
      ∷ q.d.rho_w
      ∷ []

  abbrev bases : List Point
  bases =
      q.master.a
      ∷ generator
      ∷ h bls 0
      ∷ h bls 1
      ∷ h bls 2
      ∷ h bls 3
      ∷ h bls 4
      ∷ h bls 5
      ∷ epoch_base bls dalek q.t
      ∷ []

  pub combined_lem :
      (c : Scalar) (batched_eq : BatchedEqualityProof)
      → q.expiry ≡ from_number q.delta ⊞ from_number q.now_unix
      → combined bls dalek
          (honest bls dalek q c batched_eq)
          q.t
          (epoch_base bls dalek q.t)
          (c_bridge bls dalek q)
          c
        ≡ done identity
  unfolding combined g1_msm fold_products sum
  combined_lem c batched_eq e = rw e (
      simp (h_table_mul_lem, g1_table_mul_lem, multi_exp_lem)
        (ap done (vanishes g1 (scalars c) bases sum sum_vanishes)))
