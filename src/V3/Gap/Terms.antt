-- ===== src/V3/Gap/Terms.antt =====
-- The equations of src/v3_zkp/gap.rs, written out as combinations.
use ebutv.Curve.Combination.{Coefficient, Combination, scalar, ◌⊞◌, ◌⊠◌, point, ◌⊕◌, ◌⊖◌, ◌⊛◌}

-- Over the scalars r, c, v, s, b: what is recomputed of a commitment to blinders.
unfoldable pub commitment : Combination
commitment = scalar 0 ⊛ point 0 ⊕ scalar 3 ⊛ point 1

unfoldable pub recomputed : Combination
recomputed =
    (scalar 0 ⊞ scalar 1 ⊠ scalar 2) ⊛ point 0
    ⊕ (scalar 3 ⊞ scalar 1 ⊠ scalar 4) ⊛ point 1
    ⊖ scalar 1 ⊛ (scalar 2 ⊛ point 0 ⊕ scalar 4 ⊛ point 1)

-- Over x, y1, y2, yctx, ea, eb, ctx, r_ea, r_eb, c, t: the pairing equation on the signature's point.
abbrev exponent : Coefficient
exponent = scalar 0 ⊞ scalar 1 ⊠ scalar 4 ⊞ scalar 2 ⊠ scalar 5 ⊞ scalar 3 ⊠ scalar 6

unfoldable pub blinded : Combination
blinded = (scalar 1 ⊠ scalar 7 ⊞ scalar 2 ⊠ scalar 8) ⊛ (scalar 10 ⊛ point 0)

unfoldable pub answered : Combination
answered =
    (scalar 1 ⊠ (scalar 7 ⊞ scalar 9 ⊠ scalar 4)
        ⊞ scalar 2 ⊠ (scalar 8 ⊞ scalar 9 ⊠ scalar 5)
        ⊞ (scalar 0 ⊞ scalar 3 ⊠ scalar 6) ⊠ scalar 9)
      ⊛ (scalar 10 ⊛ point 0)
    ⊖ scalar 9 ⊛ (scalar 10 ⊛ (exponent ⊛ point 0))
