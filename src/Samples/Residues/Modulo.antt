-- ===== src/Samples/Residues/Modulo.antt =====
-- The residues modulo a number above 1, with the usual sum and product.
use ebutv.Prelude.{
  ℕ, ◌+◌, ◌-◌, ◌*◌, ◌/◌, ◌%◌, ◌<◌, ◌≡◌, ◌↔◌, refl, sym, ap, ◌∙◌, arith, Bool, true, ◌==◌, ==_refl,
}
use native.Mathlib.Nat.{
  mod-lt, mod-eq_of_lt, mod-add-mod, add-mod-mod, add-mod, add-mul-mod_self_right, mod_self,
  zero-mod, mod-add-div', mul_comm, mul_assoc,
}
use native.Mathlib.Bridge.{le_prop}
use mathlib.Core.HLevel.{Σ_prop_path}
use ebutv.Curve.{Curve}

pub product-mod_left : (n a b : ℕ) → a % n * b % n ≡ a * b % n
product-mod_left n a b =
    let e : a * b ≡ a % n * b + a / n * b * n =
      ap (λ t. t * b) (sym (mod-add-div' a n)) ∙ grind arith in
    sym (ap (λ t. t % n) e ∙ add-mul-mod_self_right (a % n * b) (a / n * b) n)

pub product-mod_right : (n a b : ℕ) → a * (b % n) % n ≡ a * b % n
product-mod_right n a b =
    ap (λ t. t % n) (mul_comm a (b % n)) ∙ product-mod_left n b a ∙ ap (λ t. t % n) (mul_comm b a)

module _ (n : ℕ) (two : 1 < n) where
  abbrev pub Residue : Type 0
  Residue = (v : ℕ) × (v < n)

  pub residue_ext : (a b : Residue) → a.0 ≡ b.0 → a ≡ b
  residue_ext a b h = Σ_prop_path (λ v. le_prop) h

  abbrev pub residue : ℕ → Residue
  residue v = (v % n, mod-lt v (let e : 0 < n = omega (arith, two) in e))

  abbrev pub plus : Residue → Residue → Residue
  plus a b = residue (a.0 + b.0)

  abbrev pub times : Residue → Residue → Residue
  times a b = residue (a.0 * b.0)

  abbrev pub minus : Residue → Residue
  minus a = times (residue (n - 1)) a

  abbrev pub same : Residue → Residue → Bool
  same a b = a.0 == b.0

  pub same_iff : (a b : Residue) → (same a b ≡ true) ↔ (a ≡ b)
  same_iff a b = (
    (λ h. residue_ext a b (let e : a.0 ≡ b.0 = ground arith in e)),
    (λ h. ap (λ t. a.0 == t.0) (sym h) ∙ ==_refl a.0),
  )

  pub plus_assoc : (a b c : Residue) → plus (plus a b) c ≡ plus a (plus b c)
  plus_assoc a b c = residue_ext _ _ (
      mod-add-mod (a.0 + b.0) n c.0
      ∙ ap (λ t. t % n) (let e : a.0 + b.0 + c.0 ≡ a.0 + (b.0 + c.0) = omega arith in e)
      ∙ sym (add-mod-mod a.0 (b.0 + c.0) n))

  pub plus_comm : (a b : Residue) → plus a b ≡ plus b a
  plus_comm a b =
      residue_ext _ _ (ap (λ t. t % n) (let e : a.0 + b.0 ≡ b.0 + a.0 = omega arith in e))

  pub zero-plus : (a : Residue) → plus (residue 0) a ≡ a
  zero-plus a = residue_ext (plus (residue 0) a) a (
      mod-add-mod 0 n a.0
      ∙ ap (λ t. t % n) (let e : 0 + a.0 ≡ a.0 = omega arith in e)
      ∙ mod-eq_of_lt a.1)

  pub times_assoc : (a b c : Residue) → times (times a b) c ≡ times a (times b c)
  times_assoc a b c = residue_ext _ _ (
      product-mod_left n (a.0 * b.0) c.0
      ∙ ap (λ t. t % n) (mul_assoc a.0 b.0 c.0)
      ∙ sym (product-mod_right n a.0 (b.0 * c.0)))

  pub times_comm : (a b : Residue) → times a b ≡ times b a
  times_comm a b = residue_ext _ _ (ap (λ t. t % n) (mul_comm a.0 b.0))

  pub times_distrib : (a b c : Residue) → times (plus a b) c ≡ plus (times a c) (times b c)
  times_distrib a b c = residue_ext _ _ (
      product-mod_left n (a.0 + b.0) c.0
      ∙ ap (λ t. t % n) (let e : (a.0 + b.0) * c.0 ≡ a.0 * c.0 + b.0 * c.0 = grind arith in e)
      ∙ add-mod (a.0 * c.0) (b.0 * c.0) n)

  pub times_distrib_left : (a b c : Residue) → times a (plus b c) ≡ plus (times a b) (times a c)
  times_distrib_left a b c =
      times_comm a (plus b c)
      ∙ times_distrib b c a
      ∙ ap (λ t. plus t (times c a)) (times_comm b a)
      ∙ ap (plus (times a b)) (times_comm c a)

  pub one-times : (a : Residue) → times (residue 1) a ≡ a
  one-times a = residue_ext (times (residue 1) a) a (
      product-mod_left n 1 a.0
      ∙ ap (λ t. t % n) (let e : 1 * a.0 ≡ a.0 = omega arith in e)
      ∙ mod-eq_of_lt a.1)

  pub zero-times : (a : Residue) → times (residue 0) a ≡ residue 0
  zero-times a =
      residue_ext (times (residue 0) a) (residue 0)
        (product-mod_left n 0 a.0 ∙ ap (λ t. t % n) (let e : 0 * a.0 ≡ 0 = omega arith in e))

  opposite : plus (residue 1) (residue (n - 1)) ≡ residue 0
  opposite = residue_ext (plus (residue 1) (residue (n - 1))) (residue 0) (
      mod-add-mod 1 n ((n - 1) % n)
      ∙ add-mod-mod 1 (n - 1) n
      ∙ ap (λ t. t % n) (let e : 1 + (n - 1) ≡ n = omega (arith, two) in e)
      ∙ mod_self n
      ∙ sym (zero-mod n))

  pub plus-minus : (a : Residue) → plus a (minus a) ≡ residue 0
  plus-minus a =
      ap (λ t. plus t (minus a)) (sym (one-times a))
      ∙ sym (times_distrib (residue 1) (residue (n - 1)) a)
      ∙ ap (λ t. times t a) opposite
      ∙ zero-times a

  abbrev pub curve : Curve
  curve = record {
    Point = Residue;
    Scalar = Residue;
    identity = residue 0;
    ◌⊕◌ = plus;
    ◌⊖◌ = λ a b. plus a (minus b);
    neg = minus;
    ◌⊛◌ = times;
    scalar_zero = residue 0;
    scalar_one = residue 1;
    ◌⊞◌ = plus;
    ◌⊟◌ = λ a b. plus a (minus b);
    ◌⊠◌ = times;
    negate = minus;
    point_eq = same;
    point_eq_iff = same_iff;
    ⊕_assoc = plus_assoc;
    ⊕_comm = plus_comm;
    identity-⊕ = zero-plus;
    ⊕-neg = plus-minus;
    ⊖_lem = λ a b. refl;
    ⊞-⊛ = times_distrib;
    ⊟-⊛ = λ a b p.
        times_distrib a (minus b) p ∙ ap (plus (times a p)) (times_assoc (residue (n - 1)) b p);
    negate-⊛ = λ a p. times_assoc (residue (n - 1)) a p;
    ⊠-⊛ = times_assoc;
    zero-⊛ = zero-times;
    one-⊛ = one-times;
    ⊛-⊕ = times_distrib_left;
    ⊠_comm = times_comm;
  }
