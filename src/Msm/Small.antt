-- ===== src/Msm/Small.antt =====
-- src/msm.rs: g1_mul_u32 and repeated addition.
use ebutv.Prelude.{
  ℕ, zero, suc, ◌+◌, ◌/◌, ◌%◌, ◌^◌, ◌<◌, ◌≡◌, refl, sym, ap, ◌∙◌, inl, inr, arith, ltb, ◌==◌,
  if◌then◌else◌, Bool-cases, ==→eq, ltb→le,
}
use native.Mathlib.Nat.{pow-succ'}
use ebutv.Curve.{Curve}
use ebutv.Curve.Laws.{⊕-identity}
use ebutv.Msm.{double_and_add, g1_mul_u32}

module _ (g1 : Curve) where
  open g1 use {Point, identity, ◌⊕◌, ⊕_assoc, ⊕_comm, identity-⊕}

  -- The sum of `n` copies of a point.
  unfoldable pub copies : ℕ → Point → Point
  copies zero p = identity
  copies (suc n) p = p ⊕ copies n p

  copies-double : (n : ℕ) (p : Point) → copies n (p ⊕ p) ≡ copies (n + n) p
  unfolding copies
  copies-double zero p = refl
  copies-double (suc n) p =
      let e : suc n + suc n ≡ suc (suc (n + n)) = omega arith in
      rw e (ap (λ t. p ⊕ p ⊕ t) (copies-double n p) ∙ ⊕_assoc p p (copies (n + n) p))

  copies_zero : (n : ℕ) (p result : Point) → n ≡ 0 → result ≡ result ⊕ copies n p
  unfolding copies
  copies_zero n p result e = rw e (sym (⊕-identity g1 result))

  -- A number of copies, by its half and its parity.
  halves :
      (n : ℕ) (p result : Point)
      → (if n % 2 == 1 then result ⊕ p else result) ⊕ copies (n / 2) (p ⊕ p) ≡ result ⊕ copies n p
  unfolding copies
  halves n p result = elim (Bool-cases (n % 2 == 1)) [
    | inl odd ↦
        let o : n % 2 ≡ 1 = ==→eq (n % 2) 1 odd in
        let e : n ≡ suc (n / 2 + n / 2) = omega arith in
        rw (odd, copies-double (n / 2) p)
          (⊕_assoc result p (copies (n / 2 + n / 2) p) ∙ ap (λ m. result ⊕ copies m p) (sym e))
    | inr even ↦
        let o : n % 2 ≡ 0 = ground arith in
        let e : n ≡ n / 2 + n / 2 = omega arith in
        rw (even, copies-double (n / 2) p) (ap (λ m. result ⊕ copies m p) (sym e))
  ]

  double_and_add_lem :
      (fuel n : ℕ) (result addend : Point)
      → n < 2 ^ fuel
      → double_and_add g1 fuel n result addend ≡ result ⊕ copies n addend
  unfolding double_and_add
  double_and_add_lem zero n result addend h = copies_zero n addend result (omega arith)
  double_and_add_lem (suc fuel) n result addend h = elim (Bool-cases (ltb 0 n)) [
    | inr e ↦ rw e (copies_zero n addend result (omega (arith, ltb→le 0 n e)))
    | inl e ↦ rw e (
        double_and_add_lem fuel (n / 2) (if n % 2 == 1 then result ⊕ addend else result)
          (addend ⊕ addend) (omega (arith, pow-succ' 2 fuel))
        ∙ halves n addend result)
  ]

  -- The multiple by a number of 32 bits is the sum of that many copies of the point.
  pub g1_mul_u32_lem : (p : Point) (n : ℕ) → n < 4294967296 → g1_mul_u32 g1 p n ≡ copies n p
  unfolding g1_mul_u32 copies
  g1_mul_u32_lem p n h = elim (Bool-cases (n == 0)) [
    | inl e ↦ let z : n ≡ 0 = ==→eq n 0 e in rw z refl
    | inr e ↦ elim (Bool-cases (n == 1)) [
      | inl f ↦ let o : n ≡ 1 = ==→eq n 1 f in rw o (sym (⊕-identity g1 p))
      | inr f ↦ rw (e, f) (double_and_add_lem 32 n identity p h ∙ identity-⊕ (copies n p))
    ]
  ]
