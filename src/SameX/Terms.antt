-- ===== src/SameX/Terms.antt =====
-- The equation of src/same_x_bridge.rs, written out as combinations: over u, c, x, alpha and r.
use ebutv.Curve.Combination.{Combination, scalar, ◌⊞◌, ◌⊠◌, point, ◌⊕◌, ◌⊛◌}

unfoldable pub responded : Combination
responded = (scalar 0 ⊞ scalar 1 ⊠ scalar 2) ⊛ point 0 ⊕ (scalar 3 ⊞ scalar 1 ⊠ scalar 4) ⊛ point 1

unfoldable pub committed : Combination
committed =
    scalar 0 ⊛ point 0 ⊕ scalar 3 ⊛ point 1 ⊕ scalar 1 ⊛ (scalar 2 ⊛ point 0 ⊕ scalar 4 ⊛ point 1)
