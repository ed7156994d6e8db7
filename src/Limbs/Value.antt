-- ===== src/Limbs/Value.antt =====
-- The operations on limbs and the numbers that they stand for.
use ebutv.Prelude.{
  ℕ, zero, suc, ◌+◌, ◌-◌, ◌*◌, ◌/◌, ◌%◌, ◌^◌, ◌<◌, ◌≤◌, ◌≡◌, refl, ap, sym, ◌∙◌, some, List, [],
  ◌∷◌, ◌++◌, ltb, take, drop, arith, length, All, length-take, All-append, get_or,
}
use mathlib.Core.Path.{ap₂}
use native.Mathlib.Nat.{mul-le-mul, pow-succ', mul_assoc, mul_left_comm}
use ebutv.Prelude.Text.{to_le_bytes, from_le_bytes}
use ebutv.Limbs.{
  U256, u256_from_le_bytes, u256_to_le_bytes, u256_lt, mul_step, u256_mul_u64, u256_add, sub_step,
  sub_u64x4,
}

abbrev pub value : U256 → ℕ
value a = a.l0 + 2 ^ 64 * a.l1 + 2 ^ 128 * a.l2 + 2 ^ 192 * a.l3

pub record InRange (a : U256) : Type 0 where
  pub r0 : a.l0 < 2 ^ 64
  pub r1 : a.l1 < 2 ^ 64
  pub r2 : a.l2 < 2 ^ 64
  pub r3 : a.l3 < 2 ^ 64

-- A comparison of limbs is the comparison of the numbers.
pub u256_lt_lem : (a b : U256) → InRange a → InRange b → u256_lt a b ≡ ltb (value a) (value b)
unfolding u256_lt
u256_lt_lem a b h k = ground arith

pub u256_add_lem :
    (a b : U256)
    → InRange a
    → InRange b
    → value a + value b < 2 ^ 256
    → (c : U256) × (u256_add a b ≡ some c) × InRange c × (value c ≡ value a + value b)
unfolding u256_add
u256_add_lem a b h k fits =
    let s0 = a.l0 + b.l0 in
    let s1 = a.l1 + b.l1 + s0 / 2 ^ 64 in
    let s2 = a.l2 + b.l2 + s1 / 2 ^ 64 in
    let s3 = a.l3 + b.l3 + s2 / 2 ^ 64 in
    let e : s3 / 2 ^ 64 ≡ 0 = omega arith in
    (
      record { l0 = s0 % 2 ^ 64; l1 = s1 % 2 ^ 64; l2 = s2 % 2 ^ 64; l3 = s3 % 2 ^ 64 },
      rw e refl,
      record { r0 = omega arith; r1 = omega arith; r2 = omega arith; r3 = omega arith },
      omega arith,
    )

product_bound : (a b c : ℕ) → a < 2 ^ 64 → b < 2 ^ 64 → c < 2 ^ 64 → a * b + c < 2 ^ 128
product_bound a b c h k l =
    let m : a * b ≤ 18446744073709551615 * 18446744073709551615 =
      mul-le-mul {n₂ = 18446744073709551615} {m₂ = 18446744073709551615} (omega arith)
        (omega arith) in
    omega arith

step_exact : (a b c : ℕ) → a < 2 ^ 64 → b < 2 ^ 64 → c < 2 ^ 64 → mul_step a b c ≡ a * b + c
step_exact a b c h k l = omega (arith, product_bound a b c h k l)

distribute :
    (a : U256) (b : ℕ)
    → value a * b ≡ a.l0 * b + 2 ^ 64 * (a.l1 * b) + 2 ^ 128 * (a.l2 * b) + 2 ^ 192 * (a.l3 * b)
distribute a b = grind arith

pub u256_mul_u64_lem :
    (a : U256) (b : ℕ)
    → InRange a
    → b < 2 ^ 64
    → value a * b < 2 ^ 256
    → (c : U256) × (u256_mul_u64 a b ≡ some c) × InRange c × (value c ≡ value a * b)
unfolding u256_mul_u64
u256_mul_u64_lem a b h k fits =
    let p0 = mul_step a.l0 b 0 in
    let p1 = mul_step a.l1 b (p0 / 2 ^ 64) in
    let p2 = mul_step a.l2 b (p1 / 2 ^ 64) in
    let p3 = mul_step a.l3 b (p2 / 2 ^ 64) in
    let e0 : p0 ≡ a.l0 * b + 0 = step_exact a.l0 b 0 h.r0 k (omega arith) in
    let e1 : p1 ≡ a.l1 * b + p0 / 2 ^ 64 = step_exact a.l1 b (p0 / 2 ^ 64) h.r1 k (omega arith) in
    let e2 : p2 ≡ a.l2 * b + p1 / 2 ^ 64 = step_exact a.l2 b (p1 / 2 ^ 64) h.r2 k (omega arith) in
    let e3 : p3 ≡ a.l3 * b + p2 / 2 ^ 64 = step_exact a.l3 b (p2 / 2 ^ 64) h.r3 k (omega arith) in
    let d = distribute a b in
    let e : p3 / 2 ^ 64 ≡ 0 = omega arith in
    (
      record { l0 = p0 % 2 ^ 64; l1 = p1 % 2 ^ 64; l2 = p2 % 2 ^ 64; l3 = p3 % 2 ^ 64 },
      rw e refl,
      record { r0 = omega arith; r1 = omega arith; r2 = omega arith; r3 = omega arith },
      omega arith,
    )

borrow_lem :
    (a b borrow : ℕ)
    → a < 2 ^ 64
    → b < 2 ^ 64
    → borrow < 2
    → ((sub_step a b borrow).0 + b + borrow ≡ a + 2 ^ 64 * (sub_step a b borrow).1)
      × ((sub_step a b borrow).0 < 2 ^ 64)
      × ((sub_step a b borrow).1 < 2)
unfolding sub_step
borrow_lem a b borrow h k l = ground arith

pub sub_u64x4_lem :
    (a b : U256)
    → InRange a
    → InRange b
    → value b ≤ value a
    → InRange (sub_u64x4 a b) × (value (sub_u64x4 a b) + value b ≡ value a)
unfolding sub_u64x4
sub_u64x4_lem a b h k le =
    let d0 = sub_step a.l0 b.l0 0 in
    let d1 = sub_step a.l1 b.l1 d0.1 in
    let d2 = sub_step a.l2 b.l2 d1.1 in
    let (e0, f0, g0) = borrow_lem a.l0 b.l0 0 h.r0 k.r0 (omega arith) in
    let (e1, f1, g1) = borrow_lem a.l1 b.l1 d0.1 h.r1 k.r1 g0 in
    let (e2, f2, g2) = borrow_lem a.l2 b.l2 d1.1 h.r2 k.r2 g1 in
    let (e3, f3, g3) = borrow_lem a.l3 b.l3 d2.1 h.r3 k.r3 g2 in
    (record { r0 = f0; r1 = f1; r2 = f2; r3 = f3 }, omega arith)

pub from_le_bytes-append :
    (xs ys : List ℕ)
    → from_le_bytes (xs ++ ys) ≡ from_le_bytes xs + 256 ^ length xs * from_le_bytes ys
unfolding from_le_bytes
from_le_bytes-append [] ys = omega arith
from_le_bytes-append (x ∷ xs) ys =
    let e : 256 ^ suc (length xs) * from_le_bytes ys ≡ 256 * (256 ^ length xs * from_le_bytes ys) =
      ap (λ t. t * from_le_bytes ys) (omega (arith, pow-succ' 256 (length xs)))
      ∙ mul_assoc 256 (256 ^ length xs) (from_le_bytes ys) in
    omega (arith, from_le_bytes-append xs ys)

pub from_le_bytes-lt : (xs : List ℕ) → All (λ b. b < 256) xs → from_le_bytes xs < 256 ^ length xs
unfolding from_le_bytes
from_le_bytes-lt [] h = omega arith
from_le_bytes-lt (x ∷ xs) h = omega (arith, h.0, from_le_bytes-lt xs h.1, pow-succ' 256 (length xs))

pub length-to_le_bytes : (w n : ℕ) → length (to_le_bytes w n) ≡ w
unfolding to_le_bytes
length-to_le_bytes zero n = refl
length-to_le_bytes (suc w) n = ap suc (length-to_le_bytes w (n / 256))

pub from_le_bytes-to_le_bytes : (w n : ℕ) → n < 256 ^ w → from_le_bytes (to_le_bytes w n) ≡ n
unfolding from_le_bytes to_le_bytes
from_le_bytes-to_le_bytes zero n h = omega arith
from_le_bytes-to_le_bytes (suc w) n h =
    let fits : n / 256 < 256 ^ w = omega (arith, pow-succ' 256 w) in
    omega (arith, from_le_bytes-to_le_bytes w (n / 256) fits)

eight :
    (n : ℕ) (ys : List ℕ)
    → n < 2 ^ 64
    → from_le_bytes (to_le_bytes 8 n ++ ys) ≡ n + 2 ^ 64 * from_le_bytes ys
eight n ys h =
    from_le_bytes-append (to_le_bytes 8 n) ys
    ∙ ap₂ (λ t u. t + 256 ^ u * from_le_bytes ys) (from_le_bytes-to_le_bytes 8 n (omega arith))
        (length-to_le_bytes 8 n)

-- The bytes of the limbs are those of the number.
pub u256_to_le_bytes_lem :
    (a : U256)
    → InRange a
    → (from_le_bytes (u256_to_le_bytes a) ≡ value a) × (length (u256_to_le_bytes a) ≡ 32)
unfolding u256_to_le_bytes to_le_bytes
u256_to_le_bytes_lem a h = (
  omega (
    arith,
    eight a.l0 (to_le_bytes 8 a.l1 ++ (to_le_bytes 8 a.l2 ++ to_le_bytes 8 a.l3)) h.r0,
    eight a.l1 (to_le_bytes 8 a.l2 ++ to_le_bytes 8 a.l3) h.r1,
    eight a.l2 (to_le_bytes 8 a.l3) h.r2,
    from_le_bytes-to_le_bytes 8 a.l3 (omega (arith, h.r3)),
  ),
  refl,
)

pub take-append-drop : (n : ℕ) (xs : List ℕ) → take n xs ++ drop n xs ≡ xs
take-append-drop zero xs = refl
take-append-drop (suc n) [] = refl
take-append-drop (suc n) (x ∷ xs) = ap (λ (t : List ℕ). x ∷ t) (take-append-drop n xs)

pub All-take : (n : ℕ) (xs : List ℕ) → All (λ b. b < 256) xs → All (λ b. b < 256) (take n xs)
All-take zero xs h = tt
All-take (suc n) [] h = tt
All-take (suc n) (x ∷ xs) h = (h.0, All-take n xs h.1)

pub All-drop : (n : ℕ) (xs : List ℕ) → All (λ b. b < 256) xs → All (λ b. b < 256) (drop n xs)
All-drop zero xs h = h
All-drop (suc n) [] h = tt
All-drop (suc n) (x ∷ xs) h = All-drop n xs h.1

pub length-drop : (n : ℕ) (xs : List ℕ) → length (drop n xs) ≡ length xs - n
length-drop zero xs = omega arith
length-drop (suc n) [] = omega arith
length-drop (suc n) (x ∷ xs) = omega (arith, length-drop n xs)

-- The first eight bytes and the rest.
piece :
    (xs : List ℕ)
    → 8 ≤ length xs
    → All (λ b. b < 256) xs
    → (from_le_bytes xs ≡ from_le_bytes (take 8 xs) + 2 ^ 64 * from_le_bytes (drop 8 xs))
      × (from_le_bytes (take 8 xs) < 2 ^ 64)
piece xs h all =
    let len : length (take 8 xs) ≡ 8 = omega (arith, length-take 8 xs) in
    (
      ap from_le_bytes (sym (take-append-drop 8 xs))
          ∙ from_le_bytes-append (take 8 xs) (drop 8 xs)
          ∙ ap (λ u. from_le_bytes (take 8 xs) + 256 ^ u * from_le_bytes (drop 8 xs)) len,
      rw len at (from_le_bytes-lt (take 8 xs) (All-take 8 xs all)),
    )

-- The limbs of 32 bytes stand for the number of the bytes.
pub u256_from_le_bytes_lem :
    (bytes : List ℕ)
    → length bytes ≡ 32
    → All (λ b. b < 256) bytes
    → InRange (u256_from_le_bytes bytes) × (value (u256_from_le_bytes bytes) ≡ from_le_bytes bytes)
unfolding u256_from_le_bytes
u256_from_le_bytes_lem bytes len all =
    let r1 = drop 8 bytes in
    let r2 = drop 8 r1 in
    let r3 = drop 8 r2 in
    let n1 : length r1 ≡ 24 = omega (arith, length-drop 8 bytes) in
    let n2 : length r2 ≡ 16 = omega (arith, length-drop 8 r1) in
    let n3 : length r3 ≡ 8 = omega (arith, length-drop 8 r2) in
    let n4 : length (drop 8 r3) ≡ 0 = omega (arith, length-drop 8 r3) in
    let a1 = All-drop 8 bytes all in
    let a2 = All-drop 8 r1 a1 in
    let a3 = All-drop 8 r2 a2 in
    let (e0, f0) = piece bytes (omega arith) all in
    let (e1, f1) = piece r1 (omega arith) a1 in
    let (e2, f2) = piece r2 (omega arith) a2 in
    let (e3, f3) = piece r3 (omega arith) a3 in
    let z : from_le_bytes (drop 8 r3) < 1 =
      rw n4 at (from_le_bytes-lt (drop 8 r3) (All-drop 8 r3 a3)) in
    (record { r0 = f0; r1 = f1; r2 = f2; r3 = f3 }, omega arith)

pub to_le_bytes-All : (w n : ℕ) → All (λ b. b < 256) (to_le_bytes w n)
unfolding to_le_bytes
to_le_bytes-All zero n = tt
to_le_bytes-All (suc w) n = (omega arith, to_le_bytes-All w (n / 256))

pub u256_to_le_bytes-All : (a : U256) → All (λ b. b < 256) (u256_to_le_bytes a)
unfolding u256_to_le_bytes
u256_to_le_bytes-All a = All-append _ (to_le_bytes 8 a.l0) _ (to_le_bytes-All 8 a.l0) (
    All-append _ (to_le_bytes 8 a.l1) _ (to_le_bytes-All 8 a.l1)
      (All-append _ (to_le_bytes 8 a.l2) _ (to_le_bytes-All 8 a.l2) (to_le_bytes-All 8 a.l3)))

-- A byte weighs no more than the number.
pub get_or-weight : (xs : List ℕ) (i : ℕ) → get_or xs i 0 * 256 ^ i ≤ from_le_bytes xs
unfolding from_le_bytes
get_or-weight [] i = omega arith
get_or-weight (x ∷ xs) zero = omega arith
get_or-weight (x ∷ xs) (suc i) =
    let e : get_or xs i 0 * 256 ^ suc i ≡ 256 * (get_or xs i 0 * 256 ^ i) =
      ap (λ t. get_or xs i 0 * t) (pow-succ' 256 i) ∙ mul_left_comm (get_or xs i 0) 256 (256 ^ i) in
    omega (arith, get_or-weight xs i)
