-- ===== src/V3/Equality/Terms.antt =====
-- The batched equation of src/v3_zkp/batched_eq.rs, written out as combinations: over the scalars k,
-- c, gamma, gamma2, the three numbers, u, and their three blinders.
use ebutv.Curve.Combination.{Combination, scalar, ◌⊞◌, ◌⊠◌, point, ◌⊕◌, ◌⊛◌}

unfoldable pub left : Combination
left =
    (scalar 0 ⊞ scalar 1 ⊠ (scalar 4 ⊞ scalar 2 ⊠ scalar 5 ⊞ scalar 3 ⊠ scalar 6)) ⊛ point 0
    ⊕ (scalar 7 ⊞ scalar 1 ⊠ (scalar 8 ⊞ scalar 2 ⊠ scalar 9 ⊞ scalar 3 ⊠ scalar 10)) ⊛ point 1

unfoldable pub right : Combination
right =
    scalar 0 ⊛ point 0
    ⊕ scalar 7 ⊛ point 1
    ⊕ scalar 1
      ⊛ (scalar 4 ⊛ point 0
          ⊕ scalar 8 ⊛ point 1
          ⊕ scalar 2 ⊛ (scalar 5 ⊛ point 0 ⊕ scalar 9 ⊛ point 1)
          ⊕ scalar 3 ⊛ (scalar 6 ⊛ point 0 ⊕ scalar 10 ⊛ point 1))
