-- ===== src/Curve/Sample.antt =====
-- A small group on which theorems are applied: two points, scalars modulo two.
use mathlib.Core.Path.{◌≡◌, refl}
use mathlib.Core.Logic.{◌↔◌}
use mathlib.Core.Bool.{Bool, true, false, ◌&&◌}
use native.Mathlib.Omega.{arith}
use ebutv.Curve.{Curve}

abbrev flip : Bool → Bool → Bool
flip true true = false
flip true false = true
flip false b = b

abbrev same : Bool → Bool → Bool
same true b = b
same false true = false
same false false = true

pub same_iff : (p q : Bool) → (same p q ≡ true) ↔ (p ≡ q)
same_iff p q = ground arith

pub assoc_law : (p q r : Bool) → flip (flip p q) r ≡ flip p (flip q r)
assoc_law p q r = ground arith

pub comm_law : (p q : Bool) → flip p q ≡ flip q p
comm_law p q = ground arith

pub neg_law : (p : Bool) → flip p p ≡ false
neg_law p = ground arith

pub add_law : (a b p : Bool) → (flip a b && p) ≡ flip (a && p) (b && p)
add_law a b p = ground arith

pub mul_law : (a b p : Bool) → ((a && b) && p) ≡ (a && (b && p))
mul_law a b p = ground arith

pub distrib_law : (a p q : Bool) → (a && flip p q) ≡ flip (a && p) (a && q)
distrib_law a p q = ground arith

pub mul_comm_law : (a b : Bool) → (a && b) ≡ (b && a)
mul_comm_law a b = ground arith

abbrev pub parity : Curve
parity = record {
  Point = Bool;
  Scalar = Bool;
  identity = false;
  ◌⊕◌ = flip;
  ◌⊖◌ = flip;
  neg = λ p. p;
  ◌⊛◌ = λ a p. a && p;
  scalar_zero = false;
  scalar_one = true;
  ◌⊞◌ = flip;
  ◌⊟◌ = flip;
  ◌⊠◌ = λ a b. a && b;
  negate = λ a. a;
  point_eq = same;
  point_eq_iff = same_iff;
  ⊕_assoc = assoc_law;
  ⊕_comm = comm_law;
  identity-⊕ = λ p. refl;
  ⊕-neg = neg_law;
  ⊖_lem = λ p q. refl;
  ⊞-⊛ = add_law;
  ⊟-⊛ = add_law;
  negate-⊛ = λ a p. refl;
  ⊠-⊛ = mul_law;
  zero-⊛ = λ p. refl;
  one-⊛ = λ p. refl;
  ⊛-⊕ = distrib_law;
  ⊠_comm = mul_comm_law;
}
