-- ===== src/Spend/Combined.antt =====
-- src/spend.rs: the combined equation of an honest spend vanishes.
use ebutv.Prelude.{◌≡◌, refl, ap, List, [], ◌∷◌}
use ebutv.Prelude.Lists.{bytes_eq}
use ebutv.Prelude.Outcome.{done}
use ebutv.Curve.Combination.{
  expand, scale, collect, put, cancels, same_sign, flip, insert, multiply,
}
use ebutv.Curve.Combination.Sound.{vanishes}
use ebutv.Bls.{Bls}
use ebutv.Dalek.{Dalek}
use ebutv.Msm.{g1_msm, fold_products}
use ebutv.Setup.{h}
use ebutv.Setup.Laws.{h_table_mul_lem, g1_table_mul_lem}
use ebutv.BatchedEq.{BatchedEqualityProof}
use ebutv.Spend.Terms.{sum}
use ebutv.Spend.Honest.{Spending, honest, c_total}
use ebutv.Spend.Verify.{combined}

sum_vanishes : collect (expand sum) ≡ []
unfolding sum expand scale collect put cancels same_sign flip insert multiply bytes_eq
sum_vanishes = refl

module _ (bls : Bls) (dalek : Dalek) (q : Spending bls dalek) where
  open bls use {g1, Point, Scalar, identity, ◌⊞◌, generator, from_number, multi_exp_lem}

  abbrev scalars : Scalar → List Scalar
  scalars c =
      c
      ∷ q.token.e
      ∷ q.token.s
      ∷ q.k_sub
      ∷ q.k_cur
      ∷ from_number q.m
      ∷ from_number q.spent
      ∷ from_number q.t_issue
      ∷ from_number q.e_max
      ∷ q.d.k_star
      ∷ q.d.r_star
      ∷ q.d.r_bp
      ∷ q.d.r1
      ∷ q.d.rho_e
      ∷ q.d.rho_r1
      ∷ q.d.rho_s
      ∷ q.d.rho_x
      ∷ q.d.rho_c
      ∷ q.d.rho_emax
      ∷ q.d.rho_u
      ∷ q.d.rho_v
      ∷ q.d.rho_w
      ∷ []

  abbrev bases : List Point
  bases = q.token.a ∷ generator ∷ h bls 0 ∷ h bls 1 ∷ h bls 2 ∷ h bls 3 ∷ h bls 4 ∷ h bls 5 ∷ []

  pub combined_lem :
      (c : Scalar) (batched_eq expiry_eq : BatchedEqualityProof)
      → q.balance ≡ from_number q.m ⊞ from_number q.spent
      → combined bls dalek (honest bls dalek q c batched_eq expiry_eq) (c_total bls dalek q) c
        ≡ done identity
  unfolding combined g1_msm fold_products sum
  combined_lem c batched_eq expiry_eq e = rw e (
      simp (h_table_mul_lem, g1_table_mul_lem, multi_exp_lem)
        (ap done (vanishes g1 (scalars c) bases sum sum_vanishes)))
