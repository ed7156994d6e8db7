-- ===== src/Setup/Laws.antt =====
-- src/setup.rs with src/msm.rs: a table multiplies by the scalar whose bytes it is given.
use ebutv.Prelude.{ℕ, zero, suc, ◌+◌, ◌≡◌, sym, ap, ◌∙◌, arith}
use mathlib.Core.Path.{ap₂}
use ebutv.Prelude.Text.{from_le_bytes}
use ebutv.Bls.{Bls}
use ebutv.Msm.{new, mul}
use ebutv.Msm.Small.{copies}
use ebutv.Msm.Table.{mul-new}
use ebutv.Setup.{h, h_table_mul, g1_table_mul}

module _ (bls : Bls) where
  open bls use {
    g1, Point, Scalar, ◌⊕◌, ◌⊛◌, generator, from_number, from_number_zero, from_number_one,
    from_number_add, to_bytes_le, length-to_bytes_le, to_bytes_le-All, from_number-to_bytes_le,
    zero-⊛, one-⊛, ⊞-⊛,
  }

  copies_lem : (n : ℕ) (p : Point) → copies g1 n p ≡ from_number n ⊛ p
  unfolding copies
  copies_lem zero p = sym (ap (λ t. t ⊛ p) from_number_zero ∙ zero-⊛ p)
  copies_lem (suc n) p =
      let e : suc n ≡ 1 + n = omega arith in
      ap₂ (λ t u. t ⊕ u) (sym (ap (λ t. t ⊛ p) from_number_one ∙ one-⊛ p)) (copies_lem n p)
      ∙ sym (⊞-⊛ (from_number 1) (from_number n) p)
      ∙ ap (λ t. t ⊛ p) (sym (from_number_add 1 n))
      ∙ ap (λ t. from_number t ⊛ p) (sym e)

  -- A fixed-base table of a point, given the bytes of a scalar, computes the scalar multiple.
  pub table_mul_lem : (p : Point) (s : Scalar) → mul g1 (new g1 p) (to_bytes_le s) ≡ s ⊛ p
  table_mul_lem p s =
      mul-new g1 p (to_bytes_le s) (length-to_bytes_le s) (to_bytes_le-All s)
      ∙ copies_lem (from_le_bytes (to_bytes_le s)) p
      ∙ ap (λ t. t ⊛ p) (from_number-to_bytes_le s)

  pub h_table_mul_lem : (i : ℕ) (s : Scalar) → h_table_mul bls i s ≡ s ⊛ h bls i
  unfolding h_table_mul
  h_table_mul_lem i s = table_mul_lem (h bls i) s

  pub g1_table_mul_lem : (s : Scalar) → g1_table_mul bls s ≡ s ⊛ generator
  unfolding g1_table_mul
  g1_table_mul_lem s = table_mul_lem generator s
