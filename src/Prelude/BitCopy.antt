-- ===== src/Prelude/BitCopy.antt =====
-- Two loops that move bits between byte arrays: one writes every bit, one only sets bits.
use ebutv.Prelude.Tests.{◌==◌, ltb, leb, if◌then◌else◌, Bool-cases}
use ebutv.Prelude.Lists.{length, get_or, All, replicate, length-replicate, All-replicate}
use ebutv.Prelude.Loops.{for_below, for_below-inv}
use ebutv.Prelude.BitArray.{
  IsByte, get_bit, put_bit, length-put_bit, put_bit-IsByte, get_bit-put_bit,
}
use Prim.Native.Nat.{ℕ, zero, suc, ◌+◌, ◌-◌, ◌*◌, ◌/◌, ◌%◌, ◌^◌, ◌≤◌, ◌<◌}
use mathlib.Core.Path.{◌≡◌, refl, ◌∙◌}
use mathlib.Core.Logic.{inl, inr}
use mathlib.Core.Bool.{Bool, true, false, ◌&&◌, ◌||◌}
use mathlib.Core.List.{List}
use native.Mathlib.Decide.{ℕ_discrete}
use native.Mathlib.Nat.{zero-div}
use native.Mathlib.Omega.{arith}

get_or-zeros : (n i : ℕ) → ◌≡◌ {A = ℕ} (get_or (replicate n 0) i 0) 0
get_or-zeros zero i = refl
get_or-zeros (suc n) zero = refl
get_or-zeros (suc n) (suc i) = get_or-zeros n i

pub get_bit-zeros : (n i : ℕ) → get_bit (replicate n 0) i ≡ false
unfolding get_bit
get_bit-zeros n i = rw (get_or-zeros n (i / 8), zero-div (2 ^ (i % 8))) refl

-- One step of an invariant on an array of `size` bytes whose bits are `bits`.
abbrev pub HasBits : ℕ → (ℕ → Bool) → List ℕ → Type 0
HasBits size bits xs = (length xs ≡ size) × All IsByte xs × ((j : ℕ) → get_bit xs j ≡ bits j)

pub put_bit-HasBits :
    (size i : ℕ) (v : Bool) (bits : ℕ → Bool) (xs : List ℕ)
    → i < 8 * size
    → HasBits size bits xs
    → HasBits size (λ j. if i == j then v else bits j) (put_bit xs i v)
put_bit-HasBits size i v bits xs h (len, bytes, same) = (
  rw (length-put_bit xs i v) len,
  put_bit-IsByte xs i v bytes,
  λ j. rw (get_bit-put_bit xs i j v bytes (omega arith), same j) refl,
)

pub zeros-HasBits : (size : ℕ) → HasBits size (λ j. false) (replicate size 0)
zeros-HasBits size =
    (length-replicate size 0, All-replicate IsByte size 0 (omega arith), get_bit-zeros size)

abbrev in_window : ℕ → ℕ → ℕ → Bool
in_window b n j = leb b j && ltb j (b + n)

-- Bits `a`, `a + 1`, … of `src` written over bits `b`, `b + 1`, … of `dst`, or joined to them.
abbrev pub written : ℕ → ℕ → ℕ → (ℕ → Bool) → (ℕ → Bool) → ℕ → Bool
written n a b src bits j = if in_window b n j then src (j - b + a) else bits j

abbrev pub joined : ℕ → ℕ → ℕ → (ℕ → Bool) → (ℕ → Bool) → ℕ → Bool
joined n a b src bits j = if in_window b n j then src (j - b + a) || bits j else bits j

module _ (size a b : ℕ) (src : ℕ → Bool) (bits : ℕ → Bool) (dst : List ℕ) where
  pub write_bits_lem :
      (n : ℕ)
      → n + b ≤ 8 * size
      → HasBits size bits dst
      → HasBits size
          (written n a b src bits)
          (for_below n (λ i c. put_bit c (i + b) (src (i + a))) dst)
  write_bits_lem n fits h =
      for_below-inv (λ i c. HasBits size (written i a b src bits) c) n _ dst
        (h.0, h.1, λ j. rw (h.2 j) (ground arith))
        λ i c lt hc.
          let (len, bytes, same) =
            put_bit-HasBits size (i + b) (src (i + a)) (written i a b src bits) c (omega arith)
              hc in
          (len, bytes, λ j. same j ∙ next i j)
    where
      next :
          (i j : ℕ)
          → (if i + b == j then src (i + a) else written i a b src bits j)
            ≡ written (suc i) a b src bits j
      next i j = elim (ℕ_discrete (i + b) j) [
        | yes e ↦ let d : i + a ≡ j - b + a = omega arith in rw d (ground arith)
        | no n ↦ ground arith
      ]

  pub join_bits_lem :
      (n : ℕ)
      → n + b ≤ 8 * size
      → HasBits size bits dst
      → HasBits size
          (joined n a b src bits)
          (for_below n (λ i c. if src (i + a) then put_bit c (i + b) true else c) dst)
  join_bits_lem n fits h =
      for_below-inv (λ i c. HasBits size (joined i a b src bits) c) n _ dst
        (h.0, h.1, λ j. rw (h.2 j) (ground arith)) step
    where
      next_set :
          (i j : ℕ)
          → src (i + a) ≡ true
          → (if i + b == j then true else joined i a b src bits j) ≡ joined (suc i) a b src bits j
      next_set i j t = elim (ℕ_discrete (i + b) j) [
        | yes e ↦
            let d : i + a ≡ j - b + a = omega arith in
            let t' : src (j - b + a) ≡ true = rw d at t in ground arith
        | no n ↦ ground arith
      ]

      next_clear :
          (i j : ℕ) → src (i + a) ≡ false → joined i a b src bits j ≡ joined (suc i) a b src bits j
      next_clear i j t = elim (ℕ_discrete (i + b) j) [
        | yes e ↦
            let d : i + a ≡ j - b + a = omega arith in
            let t' : src (j - b + a) ≡ false = rw d at t in ground arith
        | no n ↦ ground arith
      ]

      step :
          (i : ℕ) (c : List ℕ)
          → i < n
          → HasBits size (joined i a b src bits) c
          → HasBits size
              (joined (suc i) a b src bits)
              (if src (i + a) then put_bit c (i + b) true else c)
      step i c lt hc = elim (Bool-cases (src (i + a))) [
        | inl t ↦
            let (len, bytes, same) =
              put_bit-HasBits size (i + b) true (joined i a b src bits) c (omega arith) hc in
            rw t (len, bytes, λ j. same j ∙ next_set i j t)
        | inr f ↦ rw f (hc.0, hc.1, λ j. hc.2 j ∙ next_clear i j f)
      ]
