-- ===== src/Spend/Bridges/Terms.antt =====
-- The smaller equations of src/spend.rs and src/epoch_refresh.rs, written out as combinations.
use ebutv.Curve.Combination.{
  Coefficient, Combination, scalar, one, negate, ◌⊞◌, ◌⊠◌, point, identity, ◌⊕◌, ◌⊖◌, ◌⊛◌,
}

abbrev c : Coefficient
c = scalar 0

abbrev r1 : Coefficient
r1 = scalar 1

abbrev rho_r1 : Coefficient
rho_r1 = scalar 2

abbrev x : Coefficient
x = scalar 3

abbrev r : Coefficient
r = scalar 4

abbrev rho_x : Coefficient
rho_x = scalar 5

abbrev rho : Coefficient
rho = scalar 6

abbrev now : Coefficient
now = scalar 7

abbrev p : Combination
p = point 0

abbrev q : Combination
q = point 1

abbrev left : Coefficient → Combination
left v = (rho_x ⊞ c ⊠ (v ⊠ r1)) ⊛ p ⊕ (rho ⊞ c ⊠ (r ⊠ r1)) ⊛ q ⊖ (identity ⊕ rho_x ⊛ p ⊕ rho ⊛ q)

abbrev right : Combination → Combination
right commitment = (rho_r1 ⊞ c ⊠ r1) ⊛ commitment ⊖ rho_r1 ⊛ commitment

unfoldable pub value_left : Combination
value_left = left x

unfoldable pub value_right : Combination
value_right = right (x ⊛ p ⊕ r ⊛ q)

-- With a value that is the sum of a committed one and a public one.
unfoldable pub shifted_left : Combination
shifted_left = left (x ⊞ now)

unfoldable pub shifted_right : Combination
shifted_right = right (x ⊛ p ⊕ r ⊛ q ⊕ now ⊛ p)

-- The pairing equation: scalars sk, e, r1 and the signature's point.
unfoldable pub pairing_left : Combination
pairing_left =
    scalar 0 ⊛ (scalar 2 ⊛ p)
    ⊖ (negate (scalar 1) ⊛ (scalar 2 ⊛ p) ⊕ scalar 2 ⊛ ((scalar 1 ⊞ scalar 0) ⊛ p))

-- The message under a token: k_sub, k, m, t, e_max, r, s' over the generator and h0 to h5.
unfoldable pub issued_left : Combination
issued_left =
    identity
    ⊕ one ⊛ point 0
    ⊕ one
      ⊛ (scalar 0 ⊛ point 2
          ⊕ scalar 1 ⊛ point 3
          ⊕ scalar 2 ⊛ point 4
          ⊕ scalar 3 ⊛ point 5
          ⊕ (scalar 4 ⊛ point 6 ⊕ scalar 5 ⊛ point 1))
    ⊕ scalar 6 ⊛ point 1

unfoldable pub issued_right : Combination
issued_right =
    point 0
    ⊕ (scalar 5 ⊞ scalar 6) ⊛ point 1
    ⊕ scalar 0 ⊛ point 2
    ⊕ scalar 1 ⊛ point 3
    ⊕ scalar 2 ⊛ point 4
    ⊕ scalar 3 ⊛ point 5
    ⊕ scalar 4 ⊛ point 6
