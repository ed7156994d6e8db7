-- ===== src/Curve/Combination.antt =====
-- Linear combinations of points, written out, and a decision of their equality: both sides are
-- multiplied out into signed products of scalars with a point, and opposite products cancel.
pub mod Sound
use ebutv.Prelude.{
  ℕ, Bool, true, false, ◌&&◌, not, List, [], ◌∷◌, ◌++◌, map, ◌==◌, leb, if◌then◌else◌, get_or,
  bytes_eq,
}
use ebutv.Curve.{Curve}

infixl 65 ◌⊞◌ ◌⊟◌ ◌⊕◌ ◌⊖◌
infixl 70 ◌⊠◌ ◌⊛◌
pub data Coefficient : Type 0 where
  scalar : ℕ → Coefficient
  one : Coefficient
  negate : Coefficient → Coefficient
  ◌⊞◌ : Coefficient → Coefficient → Coefficient
  ◌⊟◌ : Coefficient → Coefficient → Coefficient
  ◌⊠◌ : Coefficient → Coefficient → Coefficient

pub data Combination : Type 0 where
  point : ℕ → Combination
  identity : Combination
  ◌⊕◌ : Combination → Combination → Combination
  ◌⊖◌ : Combination → Combination → Combination
  ◌⊛◌ : Coefficient → Combination → Combination

-- A product of scalars, in ascending order, with a point. The flag is a minus sign.
pub record Product : Type 0 where
  pub negative : Bool
  pub factors : List ℕ
  pub base : ℕ

unfoldable pub insert : ℕ → List ℕ → List ℕ
insert i [] = i ∷ []
insert i (j ∷ js) = if leb i j then i ∷ (j ∷ js) else j ∷ insert i js

unfoldable pub multiply : ℕ → Product → Product
multiply i t = record t { factors = insert i t.factors }

unfoldable pub flip : Product → Product
flip t = record t { negative = not t.negative }

unfoldable pub scale : Coefficient → List Product → List Product
scale (scalar i) ts = map (multiply i) ts
scale one ts = ts
scale (negate a) ts = map flip (scale a ts)
scale (a ⊞ b) ts = scale a ts ++ scale b ts
scale (a ⊟ b) ts = scale a ts ++ map flip (scale b ts)
scale (a ⊠ b) ts = scale a (scale b ts)

unfoldable pub expand : Combination → List Product
expand (point i) = record { negative = false; factors = []; base = i } ∷ []
expand identity = []
expand (p ⊕ q) = expand p ++ expand q
expand (p ⊖ q) = expand p ++ map flip (expand q)
expand (a ⊛ p) = scale a (expand p)

unfoldable pub same_sign : Bool → Bool → Bool
same_sign true b = b
same_sign false b = not b

unfoldable pub cancels : Product → Product → Bool
cancels t u =
    not (same_sign t.negative u.negative) && (t.base == u.base && bytes_eq t.factors u.factors)

-- A product with what is left: an opposite one cancels it.
unfoldable pub put : Product → List Product → List Product
put t [] = t ∷ []
put t (u ∷ us) = if cancels t u then us else u ∷ put t us

unfoldable pub collect : List Product → List Product
collect [] = []
collect (t ∷ ts) = put t (collect ts)
