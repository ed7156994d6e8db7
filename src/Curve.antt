-- ===== src/Curve.antt =====
-- What the program uses of its curve libraries (curve25519_dalek_ng, blstrs), as an interface:
-- an abelian group of points with a module structure over the scalars, and the byte codecs of
-- Ristretto points. The implementations are not part of the repository.
pub mod Laws
pub mod Sample
pub mod Combination
use Prim.Native.Nat.{ℕ}
use mathlib.Core.Path.{◌≡◌}
use mathlib.Core.Logic.{◌↔◌}
use mathlib.Core.Bool.{Bool, true}
use mathlib.Core.Option.{Option}
use mathlib.Core.List.{List}

pub record Curve : Type 1 where
  pub Point : Type 0
  pub Scalar : Type 0
  pub identity : Point
  infixl 65 ◌⊕◌ ◌⊖◌ ◌⊞◌ ◌⊟◌
  infixl 70 ◌⊛◌ ◌⊠◌
  pub ◌⊕◌ : Point → Point → Point
  pub ◌⊖◌ : Point → Point → Point
  pub neg : Point → Point
  pub ◌⊛◌ : Scalar → Point → Point
  pub scalar_zero : Scalar
  pub scalar_one : Scalar
  pub ◌⊞◌ : Scalar → Scalar → Scalar
  pub ◌⊟◌ : Scalar → Scalar → Scalar
  pub ◌⊠◌ : Scalar → Scalar → Scalar
  pub negate : Scalar → Scalar
  pub point_eq : Point → Point → Bool
  pub point_eq_iff : (p q : Point) → (point_eq p q ≡ true) ↔ (p ≡ q)
  pub ⊕_assoc : (p q r : Point) → p ⊕ q ⊕ r ≡ p ⊕ (q ⊕ r)
  pub ⊕_comm : (p q : Point) → p ⊕ q ≡ q ⊕ p
  pub identity-⊕ : (p : Point) → identity ⊕ p ≡ p
  pub ⊕-neg : (p : Point) → p ⊕ neg p ≡ identity
  pub ⊖_lem : (p q : Point) → p ⊖ q ≡ p ⊕ neg q
  pub ⊞-⊛ : (a b : Scalar) (p : Point) → (a ⊞ b) ⊛ p ≡ a ⊛ p ⊕ b ⊛ p
  pub ⊟-⊛ : (a b : Scalar) (p : Point) → (a ⊟ b) ⊛ p ≡ a ⊛ p ⊖ b ⊛ p
  pub negate-⊛ : (a : Scalar) (p : Point) → negate a ⊛ p ≡ neg (a ⊛ p)
  pub ⊠-⊛ : (a b : Scalar) (p : Point) → (a ⊠ b) ⊛ p ≡ a ⊛ (b ⊛ p)
  pub zero-⊛ : (p : Point) → scalar_zero ⊛ p ≡ identity
  pub one-⊛ : (p : Point) → scalar_one ⊛ p ≡ p
  pub ⊛-⊕ : (a : Scalar) (p q : Point) → a ⊛ (p ⊕ q) ≡ a ⊛ p ⊕ a ⊛ q
  pub ⊠_comm : (a b : Scalar) → a ⊠ b ≡ b ⊠ a

-- Ristretto: the group with its basepoint, its codec and the reductions of wide bytes.
pub record Ristretto : Type 1 where
  pub curve : Curve
  pub open curve use *
  pub basepoint : Point
  pub compress : Point → List ℕ
  pub decompress : List ℕ → Option Point
  pub from_uniform_bytes : List ℕ → Point
  pub from_bytes_mod_order_wide : List ℕ → Scalar
