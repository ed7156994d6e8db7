-- ===== src/Curve/Combination/Sound.antt =====
-- A combination that collects to nothing is the identity in every group.
use ebutv.Prelude.{
  ℕ, ◌≡◌, refl, sym, ap, ◌∙◌, inl, inr, Bool, true, false, ◌&&◌, not, List, [], ◌∷◌, ◌++◌, map,
  ◌==◌, leb, Bool-cases, get_or, bytes_eq→eq, ==→eq,
}
use mathlib.Core.Path.{ap₂}
use ebutv.Curve.{Curve}
use ebutv.Curve.Laws
use ebutv.Curve.Combination.{
  Coefficient, Combination, Product, insert, multiply, flip, scale, expand, same_sign, cancels, put,
  collect, scalar, one, point,
}

module _ (c : Curve) (scalars : List c.Scalar) (points : List c.Point) where
  open c use {
    Point, Scalar, identity, ◌⊕◌, ◌⊖◌, neg, ◌⊛◌, scalar_zero, scalar_one, ◌⊞◌, ◌⊟◌, ◌⊠◌, negate,
    negate-⊛, ⊕_assoc, ⊕_comm, identity-⊕, ⊕-neg, ⊖_lem, ⊞-⊛, ⊟-⊛, ⊠-⊛, one-⊛, ⊛-⊕, zero-⊛,
  }

  abbrev pub coefficient : Coefficient → Scalar
  coefficient (scalar i) = get_or scalars i scalar_zero
  coefficient one = scalar_one
  coefficient (Coefficient.negate a) = negate (coefficient a)
  coefficient (Coefficient.◌⊞◌ a b) = coefficient a ⊞ coefficient b
  coefficient (Coefficient.◌⊟◌ a b) = coefficient a ⊟ coefficient b
  coefficient (Coefficient.◌⊠◌ a b) = coefficient a ⊠ coefficient b

  abbrev pub value : Combination → Point
  value (point i) = get_or points i identity
  value Combination.identity = identity
  value (Combination.◌⊕◌ p q) = value p ⊕ value q
  value (Combination.◌⊖◌ p q) = value p ⊖ value q
  value (Combination.◌⊛◌ a p) = coefficient a ⊛ value p

  multiple : List ℕ → Point → Point
  multiple [] p = p
  multiple (i ∷ is) p = get_or scalars i scalar_zero ⊛ multiple is p

  abbrev signed : Bool → Point → Point
  signed true p = neg p
  signed false p = p

  product : Product → Point
  product t = signed t.negative (multiple t.factors (get_or points t.base identity))

  total : List Product → Point
  total [] = identity
  total (t ∷ ts) = product t ⊕ total ts

  neg_unique : (p q : Point) → p ⊕ q ≡ identity → q ≡ neg p
  neg_unique p q h =
      sym (identity-⊕ q)
      ∙ ap (λ t. t ⊕ q) (sym (⊕_comm (neg p) p ∙ ⊕-neg p))
      ∙ ⊕_assoc (neg p) p q
      ∙ ap (λ t. neg p ⊕ t) h
      ∙ Laws.⊕-identity c (neg p)

  neg_neg : (p : Point) → neg (neg p) ≡ p
  neg_neg p = sym (neg_unique (neg p) p (⊕_comm (neg p) p ∙ ⊕-neg p))

  neg-⊕ : (p q : Point) → neg (p ⊕ q) ≡ neg p ⊕ neg q
  neg-⊕ p q = sym (
      neg_unique (p ⊕ q) (neg p ⊕ neg q) (
        Laws.⊕_medial c p q (neg p) (neg q)
        ∙ ap₂ (λ t u. t ⊕ u) (⊕-neg p) (⊕-neg q)
        ∙ identity-⊕ identity))

  neg-identity : neg identity ≡ identity
  neg-identity = sym (neg_unique identity identity (identity-⊕ identity))

  ⊛-identity : (a : Scalar) → a ⊛ identity ≡ identity
  ⊛-identity a =
      ap (λ t. a ⊛ t) (sym (zero-⊛ identity))
      ∙ Laws.⊛_swap c a scalar_zero identity
      ∙ zero-⊛ (a ⊛ identity)

  ⊛-neg : (a : Scalar) (p : Point) → a ⊛ neg p ≡ neg (a ⊛ p)
  ⊛-neg a p =
      neg_unique (a ⊛ p) (a ⊛ neg p)
        (sym (⊛-⊕ a p (neg p)) ∙ ap (λ t. a ⊛ t) (⊕-neg p) ∙ ⊛-identity a)

  multiple-insert :
      (i : ℕ) (is : List ℕ) (p : Point)
      → multiple (insert i is) p ≡ get_or scalars i scalar_zero ⊛ multiple is p
  unfolding multiple insert
  multiple-insert i [] p = refl
  multiple-insert i (j ∷ js) p = elim (Bool-cases (leb i j)) [
    | inl e ↦ rw e refl
    | inr e ↦ rw e (
        ap (λ t. get_or scalars j scalar_zero ⊛ t) (multiple-insert i js p)
        ∙ Laws.⊛_swap c (get_or scalars j scalar_zero) (get_or scalars i scalar_zero)
            (multiple js p))
  ]

  signed-⊛ : (a : Scalar) (b : Bool) (p : Point) → signed b (a ⊛ p) ≡ a ⊛ signed b p
  signed-⊛ a true p = sym (⊛-neg a p)
  signed-⊛ a false p = refl

  signed-not : (b : Bool) (p : Point) → signed (not b) p ≡ neg (signed b p)
  signed-not true p = sym (neg_neg p)
  signed-not false p = refl

  total-append : (ts us : List Product) → total (ts ++ us) ≡ total ts ⊕ total us
  unfolding total
  total-append [] us = sym (identity-⊕ (total us))
  total-append (t ∷ ts) us =
      ap (λ x. product t ⊕ x) (total-append ts us) ∙ sym (⊕_assoc (product t) (total ts) (total us))

  total-flip : (ts : List Product) → total (map flip ts) ≡ neg (total ts)
  unfolding total product flip
  total-flip [] = sym neg-identity
  total-flip (t ∷ ts) =
      ap₂ (λ x y. x ⊕ y)
        (signed-not t.negative (multiple t.factors (get_or points t.base identity))) (total-flip ts)
      ∙ sym (neg-⊕ _ (total ts))

  total-multiply :
      (i : ℕ) (ts : List Product)
      → total (map (multiply i) ts) ≡ get_or scalars i scalar_zero ⊛ total ts
  unfolding total product multiply
  total-multiply i [] = sym (⊛-identity (get_or scalars i scalar_zero))
  total-multiply i (t ∷ ts) =
      let a = get_or scalars i scalar_zero in
      let p = multiple t.factors (get_or points t.base identity) in
      ap₂ (λ x y. x ⊕ y)
        (ap (signed t.negative) (multiple-insert i t.factors (get_or points t.base identity))
          ∙ signed-⊛ a t.negative p)
        (total-multiply i ts)
      ∙ sym (⊛-⊕ a (signed t.negative p) (total ts))

  total-scale :
      (a : Coefficient) (ts : List Product) → total (scale a ts) ≡ coefficient a ⊛ total ts
  unfolding scale
  total-scale (scalar i) ts = total-multiply i ts
  total-scale one ts = sym (one-⊛ (total ts))
  total-scale (Coefficient.negate a) ts =
      total-flip (scale a ts)
      ∙ ap neg (total-scale a ts)
      ∙ sym (negate-⊛ (coefficient a) (total ts))
  total-scale (Coefficient.◌⊞◌ a b) ts =
      total-append (scale a ts) (scale b ts)
      ∙ ap₂ (λ x y. x ⊕ y) (total-scale a ts) (total-scale b ts)
      ∙ sym (⊞-⊛ (coefficient a) (coefficient b) (total ts))
  total-scale (Coefficient.◌⊟◌ a b) ts =
      total-append (scale a ts) (map flip (scale b ts))
      ∙ ap₂ (λ x y. x ⊕ y) (total-scale a ts) (total-flip (scale b ts) ∙ ap neg (total-scale b ts))
      ∙ sym (⊖_lem (coefficient a ⊛ total ts) (coefficient b ⊛ total ts))
      ∙ sym (⊟-⊛ (coefficient a) (coefficient b) (total ts))
  total-scale (Coefficient.◌⊠◌ a b) ts =
      total-scale a (scale b ts)
      ∙ ap (λ x. coefficient a ⊛ x) (total-scale b ts)
      ∙ sym (⊠-⊛ (coefficient a) (coefficient b) (total ts))

  total-expand : (p : Combination) → total (expand p) ≡ value p
  unfolding expand total product multiple
  total-expand (point i) = Laws.⊕-identity c (get_or points i identity)
  total-expand Combination.identity = refl
  total-expand (Combination.◌⊕◌ p q) =
      total-append (expand p) (expand q) ∙ ap₂ (λ x y. x ⊕ y) (total-expand p) (total-expand q)
  total-expand (Combination.◌⊖◌ p q) =
      total-append (expand p) (map flip (expand q))
      ∙ ap₂ (λ x y. x ⊕ y) (total-expand p) (total-flip (expand q) ∙ ap neg (total-expand q))
      ∙ sym (⊖_lem (value p) (value q))
  total-expand (Combination.◌⊛◌ a p) =
      total-scale a (expand p) ∙ ap (λ x. coefficient a ⊛ x) (total-expand p)

  opposite :
      (a b : Bool) (p : Point) → not (same_sign a b) ≡ true → signed a p ⊕ signed b p ≡ identity
  unfolding same_sign
  opposite true true p h = absurd cc
  opposite true false p h = ⊕_comm (neg p) p ∙ ⊕-neg p
  opposite false true p h = ⊕-neg p
  opposite false false p h = absurd cc

  and_parts : (a b : Bool) → (a && b) ≡ true → (a ≡ true) × (b ≡ true)
  and_parts true true h = (refl, refl)
  and_parts true false h = absurd cc
  and_parts false b h = absurd cc

  cancel : (t u : Product) → cancels t u ≡ true → product t ⊕ product u ≡ identity
  unfolding cancels product
  cancel t u h =
      let (sign, rest) = and_parts (not (same_sign t.negative u.negative)) _ h in
      let (same_base, same_factors) = and_parts (t.base == u.base) _ rest in
      ap₂
        (λ b fs.
          signed t.negative (multiple t.factors (get_or points t.base identity))
          ⊕ signed u.negative (multiple fs (get_or points b identity)))
        (sym (==→eq t.base u.base same_base)) (sym (bytes_eq→eq t.factors u.factors same_factors))
      ∙ opposite t.negative u.negative (multiple t.factors (get_or points t.base identity)) sign

  total-put : (t : Product) (us : List Product) → total (put t us) ≡ product t ⊕ total us
  unfolding put total
  total-put t [] = refl
  total-put t (u ∷ us) = elim (Bool-cases (cancels t u)) [
    | inl e ↦ rw e (
        sym (identity-⊕ (total us))
        ∙ ap (λ x. x ⊕ total us) (sym (cancel t u e))
        ∙ ⊕_assoc (product t) (product u) (total us))
    | inr e ↦ rw e (
        ap (λ x. product u ⊕ x) (total-put t us)
        ∙ sym (⊕_assoc (product u) (product t) (total us))
        ∙ ap (λ x. x ⊕ total us) (⊕_comm (product u) (product t))
        ∙ ⊕_assoc (product t) (product u) (total us))
  ]

  total-collect : (ts : List Product) → total (collect ts) ≡ total ts
  unfolding collect total
  total-collect [] = refl
  total-collect (t ∷ ts) = total-put t (collect ts) ∙ ap (λ x. product t ⊕ x) (total-collect ts)

  -- What collects to nothing is the identity.
  pub vanishes : (p : Combination) → collect (expand p) ≡ [] → value p ≡ identity
  unfolding total
  vanishes p h = sym (total-expand p) ∙ sym (total-collect (expand p)) ∙ ap total h

  pub agrees : (p q : Combination) → collect (expand (Combination.◌⊖◌ p q)) ≡ [] → value p ≡ value q
  agrees p q h =
      sym (Laws.⊖-⊕_self c (value p) (value q))
      ∙ ap (λ x. x ⊕ value q) (vanishes (Combination.◌⊖◌ p q) h)
      ∙ identity-⊕ (value q)
