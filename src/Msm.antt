-- ===== src/Msm.antt =====
-- src/msm.rs: sums of multiples over G1, small multiples by doubling, and fixed-base tables. The
-- group is the curve interface: a point's affine form is the point itself. `multi_exp` of the
-- curve library is an argument.
pub mod Small
pub mod Table
use ebutv.Prelude.{
  ℕ, zero, suc, ◌+◌, ◌-◌, ◌*◌, ◌/◌, ◌%◌, ◌^◌, Bool, true, false, not, Option, none, some, List, [],
  ◌∷◌, ◌++◌, ltb, ◌==◌, if◌then◌else◌, length, get_or, is_empty,
}
use ebutv.Prelude.Loops.{for_below}
use ebutv.Curve.{Curve}

abbrev pub window_bits : ℕ
window_bits = 4

abbrev pub non_zero_digits : ℕ
non_zero_digits = 15

abbrev pub num_windows : ℕ
num_windows = 64

module _ (g1 : Curve) where
  open g1 use {Point, Scalar, identity, ◌⊕◌, ◌⊛◌}

  -- The fold over the zipped lists.
  unfoldable pub fold_products : List Point → List Scalar → Point → Point
  fold_products (base ∷ bases) (scalar ∷ scalars) acc =
      fold_products bases scalars (acc ⊕ scalar ⊛ base)
  fold_products bases scalars acc = acc

  -- `none` is the panic on lengths that differ.
  unfoldable pub g1_msm :
      (List Point → List Scalar → Point) → List Point → List Scalar → Option Point
  g1_msm multi_exp bases scalars =
      if not (length bases == length scalars)
      then none
      else (if is_empty bases
          then some identity
          else (if ltb (length bases) 12
              then some (fold_products bases scalars identity)
              else some (multi_exp bases scalars)))

  -- `while n > 0`, on fuel: 32 rounds are enough for a `u32`.
  unfoldable pub double_and_add : ℕ → ℕ → Point → Point → Point
  double_and_add zero n result addend = result
  double_and_add (suc fuel) n result addend =
      let rest =
        double_and_add fuel (n / 2) (if n % 2 == 1 then result ⊕ addend else result)
          (addend ⊕ addend) in
      if ltb 0 n then rest else result

  unfoldable pub g1_mul_u32 : Point → ℕ → Point
  g1_mul_u32 point scalar =
      if scalar == 0
      then identity
      else (if scalar == 1 then point else double_and_add 32 scalar identity point)

  -- `proj_buf`: the multiples 1 to `n` of `base_exp`, from the one before them on.
  unfoldable pub multiples : ℕ → Point → Point → List Point
  multiples zero base_exp last = []
  multiples (suc n) base_exp last = last ∷ multiples n base_exp (last ⊕ base_exp)

  -- `FixedBaseTable::new`: the windows that are left.
  unfoldable pub table_from : ℕ → Point → List Point
  table_from zero base_exp = []
  table_from (suc windows) base_exp =
      multiples non_zero_digits base_exp base_exp
      ++ table_from windows (for_below window_bits (λ _ p. p ⊕ p) base_exp)

  unfoldable pub new : Point → List Point
  new base = table_from num_windows base

  -- The four bits of window `w`.
  abbrev pub digit_at : List ℕ → ℕ → ℕ
  digit_at bytes w = (get_or bytes (w / 2) 0 / 2 ^ (4 * (w % 2))) % 16

  -- `FixedBaseTable::mul`, on the scalar's bytes in little-endian order.
  unfoldable pub mul : List Point → List ℕ → Point
  mul table bytes =
      for_below num_windows
        (λ w result.
          if digit_at bytes w == 0
          then result
          else result ⊕ get_or table (w * non_zero_digits + digit_at bytes w - 1) identity)
        identity
