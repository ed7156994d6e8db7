-- ===== src/SameX/Digits.antt =====
-- src/same_x_bridge.rs: the digits of a number are canonical and stand for the number.
use ebutv.Prelude.{
  ℕ, zero, suc, ◌/◌, ◌%◌, ◌^◌, ◌<◌, ◌≤◌, ◌≡◌, ◌≢◌, refl, arith, Bool, true, false, ◌||◌, inl, inr,
  leb, ◌==◌, length, Bool-cases,
}
use native.Mathlib.Nat.{pow-succ'}
use ebutv.Prelude.Text.{from_le_bytes}
use ebutv.SameX.{digits, last_or, canonical_biguint_le}

pub from_le_bytes-digits : (fuel n : ℕ) → n < 256 ^ suc fuel → from_le_bytes (digits fuel n) ≡ n
unfolding from_le_bytes digits
from_le_bytes-digits zero n h = omega arith
from_le_bytes-digits (suc fuel) n h = elim (Bool-cases (n / 256 == 0)) [
  | inl t ↦ rw t (let e : n / 256 ≡ 0 = ground arith in omega arith)
  | inr f ↦ rw f (
      let rest = from_le_bytes-digits fuel (n / 256) (omega (arith, pow-succ' 256 (suc fuel))) in
      omega (arith, rest))
]

length-digits : (fuel w n : ℕ) → 0 < w → n < 256 ^ w → length (digits fuel n) ≤ w
unfolding digits
length-digits zero w n p h = omega arith
length-digits (suc fuel) zero n p h = absurd (omega arith)
length-digits (suc fuel) (suc zero) n p h = elim (Bool-cases (n / 256 == 0)) [
  | inl t ↦ rw t (omega arith)
  | inr f ↦ absurd (let e : n / 256 ≢ 0 = ground arith in omega (arith, e))
]
length-digits (suc fuel) (suc (suc w)) n p h = elim (Bool-cases (n / 256 == 0)) [
  | inl t ↦ rw t (omega arith)
  | inr f ↦ rw f (
      omega (
        arith,
        length-digits fuel (suc w) (n / 256) (omega arith) (omega (arith, pow-succ' 256 (suc w))),
      ))
]

last-digits : (fuel n d : ℕ) → n < 256 ^ suc fuel → n ≢ 0 → last_or d (digits fuel n) ≢ 0
unfolding digits last_or
last-digits zero n d h p = omega (arith, p)
last-digits (suc fuel) n d h p = elim (Bool-cases (n / 256 == 0)) [
  | inl t ↦ rw t (let e : n / 256 ≡ 0 = ground arith in omega (arith, p))
  | inr f ↦ rw f (
      last-digits fuel (n / 256) (n % 256) (omega (arith, pow-succ' 256 (suc fuel)))
        (let e : n / 256 ≢ 0 = ground arith in e))
]

either : (b : Bool) → b || true ≡ true
either true = refl
either false = refl

pub digits-canonical : (n : ℕ) → n < 2 ^ 385 → canonical_biguint_le (digits 63 n) ≡ true
unfolding canonical_biguint_le
digits-canonical n h =
    let short : length (digits 63 n) ≤ 49 = length-digits 63 49 n (omega arith) (omega arith) in
    let e : leb (length (digits 63 n)) 49 ≡ true = ground arith in
    elim (Bool-cases (n == 0)) [
      | inl t ↦
          (let single : length (digits 63 n) ≤ 1 =
              length-digits 63 1 n (omega arith)
                (let z : n ≡ 0 = ground arith in omega (arith, z)) in
            let one : leb (length (digits 63 n)) 1 ≡ true = ground arith in rw (e, one) refl)
      | inr f ↦
          (let last : last_or 0 (digits 63 n) ≢ 0 =
              last-digits 63 n 0 (omega arith) (let z : n ≢ 0 = ground arith in z) in
            let test : last_or 0 (digits 63 n) == 0 ≡ false = ground arith in
            rw (e, test) (either (leb (length (digits 63 n)) 1)))
    ]
