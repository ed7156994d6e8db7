-- ===== src/Prelude/BitArray.antt =====
-- Bits of a byte array, the lowest bit of a byte first: `(bytes[i / 8] >> (i % 8)) & 1`,
-- `bytes[i / 8] |= 1 << (i % 8)` and `bytes[i / 8] &= !(1 << (i % 8))`.
use Prim.Native.Nat.{ℕ, zero, suc, ◌+◌, ◌-◌, ◌*◌, ◌/◌, ◌%◌, ◌^◌, ◌<◌, bit_and, bit_or}
use mathlib.Core.Path.{◌≡◌, refl, sym, ◌∙◌, ap}
use mathlib.Core.Logic.{◌≢◌}
use mathlib.Core.Bool.{Bool, true, false, ◌&&◌}
use mathlib.Core.List.{List}
use native.Mathlib.Omega.{arith}
use native.Mathlib.Decide.{ℕ_discrete}
use ebutv.Prelude.Tests.{◌==◌, ==→eq, if◌then◌else◌, ltb, ltb→lt, Bool_ext}
use ebutv.Prelude.Lists.{
  length, get_or, set, All, length-set, get_or-set_self, get_or-set_ne, All-get_or, All-set,
  List_ext,
}

abbrev pub IsByte : ℕ → Type 0
IsByte b = b < 256

abbrev pub byte_bit : ℕ → ℕ → Bool
byte_bit b k = bit_and (b / 2 ^ k) 1 == 1

abbrev pub put_byte_bit : ℕ → ℕ → Bool → ℕ
put_byte_bit b k v = if v then bit_or b (2 ^ k) else bit_and b (255 - 2 ^ k)

unfoldable pub get_bit : List ℕ → ℕ → Bool
get_bit bytes i = byte_bit (get_or bytes (i / 8) 0) (i % 8)

unfoldable pub put_bit : List ℕ → ℕ → Bool → List ℕ
put_bit bytes i v = set bytes (i / 8) (put_byte_bit (get_or bytes (i / 8) 0) (i % 8) v)

-- The laws of one byte, by evaluation.
all_below : ℕ → (ℕ → Bool) → Bool
all_below zero p = true
all_below (suc n) p = p n && all_below n p

all_below→ : (n : ℕ) (p : ℕ → Bool) (x : ℕ) → all_below n p ≡ true → x < n → p x ≡ true
unfolding all_below
all_below→ zero p x h lt = absurd (omega arith)
all_below→ (suc n) p x h lt = ground (arith, all_below→ n p x)

same : Bool → Bool → Bool
same true b = b
same false true = false
same false false = true

same→eq : (a b : Bool) → same a b ≡ true → a ≡ b
unfolding same
same→eq true b h = sym h
same→eq false true h = cc
same→eq false false h = refl

put_law : Bool → ℕ → ℕ → ℕ → Bool
put_law v b k j = same (byte_bit (put_byte_bit b k v) j) (if k == j then v else byte_bit b j)

put_table : (v : Bool) → all_below 256 (λ b. all_below 8 (λ k. all_below 8 (put_law v b k))) ≡ true
unfolding all_below put_law same
put_table true = refl
put_table false = refl

range_law : Bool → ℕ → ℕ → Bool
range_law v b k = ltb (put_byte_bit b k v) 256

range_table : (v : Bool) → all_below 256 (λ b. all_below 8 (range_law v b)) ≡ true
unfolding all_below range_law
range_table true = refl
range_table false = refl

byte_bit-put :
    (b k j : ℕ) (v : Bool)
    → b < 256
    → k < 8
    → j < 8
    → byte_bit (put_byte_bit b k v) j ≡ (if k == j then v else byte_bit b j)
byte_bit-put b k j v hb hk hj = same→eq _ _ (
    unfold put_law in
    all_below→ 8 (put_law v b k) j
      (all_below→ 8 (λ k. all_below 8 (put_law v b k)) k
        (all_below→ 256 (λ b. all_below 8 (λ k. all_below 8 (put_law v b k))) b (put_table v) hb)
        hk)
      hj)

put_byte_bit-IsByte : (b k : ℕ) (v : Bool) → b < 256 → k < 8 → IsByte (put_byte_bit b k v)
put_byte_bit-IsByte b k v hb hk = ltb→lt _ _ (
    unfold range_law in
    all_below→ 8 (range_law v b) k
      (all_below→ 256 (λ b. all_below 8 (range_law v b)) b (range_table v) hb) hk)

-- A byte is the sum of its bits.
of_bits : (ℕ → Bool) → ℕ → ℕ
of_bits f zero = 0
of_bits f (suc k) = of_bits f k + (if f k then 2 ^ k else 0)

of_bits_ext : (f g : ℕ → Bool) (n : ℕ) → ((k : ℕ) → k < n → f k ≡ g k) → of_bits f n ≡ of_bits g n
unfolding of_bits
of_bits_ext f g zero h = refl
of_bits_ext f g (suc k) h =
    rw (h k (omega arith), of_bits_ext f g k (λ j q. h j (omega arith))) refl

sum_law : ℕ → Bool
sum_law b = of_bits (byte_bit b) 8 == b

sum_table : all_below 256 sum_law ≡ true
unfolding all_below sum_law of_bits
sum_table = refl

of_bits-byte_bit : (b : ℕ) → b < 256 → of_bits (byte_bit b) 8 ≡ b
of_bits-byte_bit b h = ==→eq _ _ (unfold sum_law in all_below→ 256 sum_law b sum_table h)

byte_ext : (a b : ℕ) → a < 256 → b < 256 → ((k : ℕ) → k < 8 → byte_bit a k ≡ byte_bit b k) → a ≡ b
byte_ext a b ha hb h =
    sym (of_bits-byte_bit a ha) ∙ of_bits_ext (byte_bit a) (byte_bit b) 8 h ∙ of_bits-byte_bit b hb

-- The laws of arrays.
pub length-put_bit : (xs : List ℕ) (i : ℕ) (v : Bool) → length (put_bit xs i v) ≡ length xs
unfolding put_bit
length-put_bit xs i v = length-set xs (i / 8) _

pub put_bit-IsByte : (xs : List ℕ) (i : ℕ) (v : Bool) → All IsByte xs → All IsByte (put_bit xs i v)
unfolding put_bit
put_bit-IsByte xs i v h = All-set IsByte xs (i / 8) _ h (
    put_byte_bit-IsByte (get_or xs (i / 8) 0) (i % 8) v
      (All-get_or IsByte xs (i / 8) 0 h (omega arith)) (omega arith))

-- Reading a bit after a write of one.
pub get_bit-put_bit :
    (xs : List ℕ) (i j : ℕ) (v : Bool)
    → All IsByte xs
    → i < 8 * length xs
    → get_bit (put_bit xs i v) j ≡ (if i == j then v else get_bit xs j)
unfolding get_bit put_bit
get_bit-put_bit xs i j v h hi = elim (ℕ_discrete (i / 8) (j / 8)) [
  | yes e ↦
      rw
        (
          ← e,
          get_or-set_self xs (i / 8) (put_byte_bit (get_or xs (i / 8) 0) (i % 8) v) 0 (omega arith),
          byte_bit-put (get_or xs (i / 8) 0) (i % 8) (j % 8) v
              (All-get_or IsByte xs (i / 8) 0 h (omega arith)) (omega arith) (omega arith),
        )
        (ap (λ (t : Bool). if t then v else byte_bit (get_or xs (i / 8) 0) (j % 8)) (same_place e))
  | no n ↦
      rw
        (
          get_or-set_ne xs (i / 8) (j / 8) (put_byte_bit (get_or xs (i / 8) 0) (i % 8) v) 0 n,
          other_place n,
        )
        refl
]
  where
    same_place : i / 8 ≡ j / 8 → (i % 8 == j % 8) ≡ (i == j)
    same_place e = Bool_ext (i % 8 == j % 8) (i == j) (λ p. ground arith) (λ p. ground arith)

    other_place : i / 8 ≢ j / 8 → (i == j) ≡ false
    other_place n = ground arith

-- Two byte arrays of one length with the same bits are one array.
pub bits_ext :
    (xs ys : List ℕ)
    → All IsByte xs
    → All IsByte ys
    → length xs ≡ length ys
    → ((i : ℕ) → i < 8 * length xs → get_bit xs i ≡ get_bit ys i)
    → xs ≡ ys
unfolding get_bit
bits_ext xs ys hx hy e h = List_ext xs ys 0 e λ i q.
    byte_ext (get_or xs i 0) (get_or ys i 0) (All-get_or IsByte xs i 0 hx (omega arith))
      (All-get_or IsByte ys i 0 hy (omega arith))
      λ k hk. at_byte i k hk (h (8 * i + k) (omega arith))
  where
    at_byte :
        (i k : ℕ)
        → k < 8
        → byte_bit (get_or xs ((8 * i + k) / 8) 0) ((8 * i + k) % 8)
          ≡ byte_bit (get_or ys ((8 * i + k) / 8) 0) ((8 * i + k) % 8)
        → byte_bit (get_or xs i 0) k ≡ byte_bit (get_or ys i 0) k
    at_byte i k hk p =
        let d : (8 * i + k) / 8 ≡ i = omega arith in
        let m : (8 * i + k) % 8 ≡ k = omega arith in rw (d, m) at p
