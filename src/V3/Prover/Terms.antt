-- ===== src/V3/Prover/Terms.antt =====
-- The equation between the commitments of src/v3_zkp/prover.rs, written out as combinations: over
-- the difference, the lower number and the two blinders.
use ebutv.Curve.Combination.{Combination, scalar, one, ◌⊞◌, ◌⊟◌, point, ◌⊕◌, ◌⊖◌, ◌⊛◌}

unfoldable pub expected_diff : Combination
expected_diff =
    (scalar 0 ⊞ scalar 1 ⊞ one) ⊛ point 0
    ⊕ scalar 2 ⊛ point 1
    ⊖ (scalar 1 ⊛ point 0 ⊕ scalar 3 ⊛ point 1)
    ⊖ point 0

unfoldable pub com_diff : Combination
com_diff = scalar 0 ⊛ point 0 ⊕ (scalar 2 ⊟ scalar 3) ⊛ point 1
