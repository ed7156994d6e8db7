-- ===== src/Msm/Table.antt =====
-- src/msm.rs: a fixed-base table multiplies by the number that the scalar's bytes stand for.
use ebutv.Prelude.{
  ℕ, zero, suc, ◌+◌, ◌-◌, ◌*◌, ◌/◌, ◌%◌, ◌^◌, ◌<◌, ◌≡◌, refl, sym, ap, ◌∙◌, inl, inr, arith, List,
  [], ◌∷◌, ◌++◌, ◌==◌, if◌then◌else◌, Bool-cases, ==→eq, length, get_or, All,
}
use mathlib.Core.Path.{ap₂}
use native.Mathlib.Nat.{pow-succ', mul_assoc}
use ebutv.Prelude.Lists.{bytes_eq}
use ebutv.Prelude.Loops.{for_below}
use ebutv.Prelude.Text.{from_le_bytes}
use ebutv.Curve.{Curve}
use ebutv.Curve.Combination.{Combination, point, expand, collect, put, cancels, same_sign, flip}
use ebutv.Curve.Combination.Sound.{agrees}
use ebutv.Curve.Laws.{⊕-identity}
use ebutv.Msm.{multiples, table_from, new, digit_at, mul, window_bits}
use ebutv.Msm.Small.{copies}

twice : Combination → Combination
twice q = Combination.◌⊕◌ q q

sum_of : ℕ → Combination
sum_of zero = Combination.identity
sum_of (suc n) = Combination.◌⊕◌ (point 0) (sum_of n)

module _ (g1 : Curve) where
  open g1 use {Point, identity, ◌⊕◌, ⊕_assoc, ⊕_comm, identity-⊕}

  copies-add : (m n : ℕ) (p : Point) → copies g1 (m + n) p ≡ copies g1 m p ⊕ copies g1 n p
  unfolding copies
  copies-add zero n p =
      let e : zero + n ≡ n = omega arith in rw e (sym (identity-⊕ (copies g1 n p)))
  copies-add (suc m) n p =
      let e : suc m + n ≡ suc (m + n) = omega arith in
      rw e (ap (λ t. p ⊕ t) (copies-add m n p) ∙ sym (⊕_assoc p (copies g1 m p) (copies g1 n p)))

  copies-identity : (n : ℕ) → copies g1 n identity ≡ identity
  unfolding copies
  copies-identity zero = refl
  copies-identity (suc n) = identity-⊕ (copies g1 n identity) ∙ copies-identity n

  copies-copies : (m n : ℕ) (p : Point) → copies g1 m (copies g1 n p) ≡ copies g1 (m * n) p
  unfolding copies
  copies-copies zero n p = let e : zero * n ≡ 0 = grind arith in rw e refl
  copies-copies (suc m) n p =
      let e : suc m * n ≡ n + m * n = grind arith in
      rw e (ap (λ t. copies g1 n p ⊕ t) (copies-copies m n p) ∙ sym (copies-add n (m * n) p))

  sixteen : (p : Point) → for_below window_bits (λ _ q. q ⊕ q) p ≡ copies g1 16 p
  unfolding for_below copies twice sum_of expand collect put cancels same_sign bytes_eq flip
  sixteen p = agrees g1 [] (p ∷ []) (twice (twice (twice (twice (point 0))))) (sum_of 16) refl

  length-multiples : (n : ℕ) (b last : Point) → length (multiples g1 n b last) ≡ n
  unfolding multiples
  length-multiples zero b last = refl
  length-multiples (suc n) b last = ap suc (length-multiples n b (last ⊕ b))

  get_or-multiples :
      (n j : ℕ) (b last d : Point)
      → j < n
      → get_or (multiples g1 n b last) j d ≡ last ⊕ copies g1 j b
  unfolding multiples copies
  get_or-multiples zero j b last d h = elim h [ ]
  get_or-multiples (suc n) zero b last d h = sym (⊕-identity g1 last)
  get_or-multiples (suc n) (suc j) b last d h =
      get_or-multiples n j b (last ⊕ b) d (omega arith) ∙ ⊕_assoc last b (copies g1 j b)

  get_or-append_r :
      (xs ys : List Point) (i : ℕ) (d : Point) → get_or (xs ++ ys) (length xs + i) d ≡ get_or ys i d
  get_or-append_r [] ys i d = let e : 0 + i ≡ i = omega arith in rw e refl
  get_or-append_r (x ∷ xs) ys i d =
      let e : suc (length xs) + i ≡ suc (length xs + i) = omega arith in
      rw e (get_or-append_r xs ys i d)

  get_or-append_l' :
      (xs ys : List Point) (i : ℕ) (d : Point)
      → i < length xs
      → get_or (xs ++ ys) i d ≡ get_or xs i d
  get_or-append_l' [] ys i d h = elim h [ ]
  get_or-append_l' (x ∷ xs) ys zero d h = refl
  get_or-append_l' (x ∷ xs) ys (suc i) d h = get_or-append_l' xs ys i d (omega arith)

  next : (j : ℕ) (b : Point) → b ⊕ copies g1 j b ≡ copies g1 (suc j) b
  unfolding copies
  next j b = refl

  -- The entry for digit `suc j` of window `w`.
  entry :
      (windows w j : ℕ) (b d : Point)
      → w < windows
      → j < 15
      → get_or (table_from g1 windows b) (w * 15 + j) d ≡ copies g1 (suc j * 16 ^ w) b
  unfolding table_from
  entry zero w j b d h k = elim h [ ]
  entry (suc windows) zero j b d h k =
      let e : 0 * 15 + j ≡ j = omega arith in
      let f : suc j * 16 ^ 0 ≡ suc j = omega arith in
      rw (e, f)
        (get_or-append_l' (multiples g1 15 b b) _ j d (omega (arith, length-multiples 15 b b))
          ∙ get_or-multiples 15 j b b d k
          ∙ next j b)
  entry (suc windows) (suc w) j b d h k =
      let e : suc w * 15 + j ≡ length (multiples g1 15 b b) + (w * 15 + j) =
        omega (arith, length-multiples 15 b b) in
      let f : suc j * 16 ^ w * 16 ≡ suc j * 16 ^ suc w =
        mul_assoc (suc j) (16 ^ w) 16 ∙ ap (λ t. suc j * t) (omega (arith, pow-succ' 16 w)) in
      rw e (
        get_or-append_r (multiples g1 15 b b) _ (w * 15 + j) d
        ∙ entry windows w j (for_below window_bits (λ _ q. q ⊕ q) b) d (omega arith) k
        ∙ ap (λ t. copies g1 (suc j * 16 ^ w) t) (sixteen b)
        ∙ copies-copies (suc j * 16 ^ w) 16 b
        ∙ ap (λ t. copies g1 t b) f)

  table_entry :
      (base : Point) (w j : ℕ)
      → w < 64
      → j < 15
      → get_or (new g1 base) (w * 15 + j) identity ≡ copies g1 (suc j * 16 ^ w) base
  unfolding new
  table_entry base w j h k = entry 64 w j base identity h k

  -- The number that the first `n` digits stand for.
  digits_value : List ℕ → ℕ → ℕ
  digits_value bytes zero = 0
  digits_value bytes (suc n) = digits_value bytes n + digit_at g1 bytes n * 16 ^ n

  mul_digits :
      (base : Point) (bytes : List ℕ) (n : ℕ)
      → n < 65
      → for_below n
          (λ w result.
            if digit_at g1 bytes w == 0
            then result
            else result ⊕ get_or (new g1 base) (w * 15 + digit_at g1 bytes w - 1) identity)
          identity
        ≡ copies g1 (digits_value bytes n) base
  unfolding for_below digits_value copies
  mul_digits base bytes zero h = refl
  mul_digits base bytes (suc n) h = elim (Bool-cases (digit_at g1 bytes n == 0)) [
    | inl e ↦
        let z : digit_at g1 bytes n ≡ 0 = ==→eq (digit_at g1 bytes n) 0 e in
        let f : digits_value bytes n + digit_at g1 bytes n * 16 ^ n ≡ digits_value bytes n =
          rw z (omega arith) in
        rw (e, f) (mul_digits base bytes n (omega arith))
    | inr e ↦
        let digit = digit_at g1 bytes n in
        let f : n * 15 + digit - 1 ≡ n * 15 + (digit - 1) = ground arith in
        let g : suc (digit - 1) ≡ digit = ground arith in
        rw (e, f)
          (ap₂ (λ t u. t ⊕ u) (mul_digits base bytes n (omega arith))
              (table_entry base n (digit - 1) (omega arith) (omega arith)
                ∙ ap (λ t. copies g1 (t * 16 ^ n) base) g)
            ∙ sym (copies-add (digits_value bytes n) (digit * 16 ^ n) base))
  ]

  digit_at_next :
      (b : ℕ) (bs : List ℕ) (v : ℕ) → digit_at g1 (b ∷ bs) (suc (suc v)) ≡ digit_at g1 bs v
  digit_at_next b bs v =
      let e : suc (suc v) / 2 ≡ suc (v / 2) = omega arith in
      let f : suc (suc v) % 2 ≡ v % 2 = omega arith in rw (e, f) refl

  digits_value_next :
      (b : ℕ) (bs : List ℕ) (n : ℕ)
      → b < 256
      → digits_value (b ∷ bs) (suc (suc n)) ≡ b + 256 * digits_value bs n
  unfolding digits_value
  digits_value_next b bs zero h = omega arith
  digits_value_next b bs (suc n) h =
      let e : 16 ^ suc (suc n) ≡ 16 ^ n * 256 =
        omega (arith, pow-succ' 16 (suc n), pow-succ' 16 n) in
      let f : digit_at g1 (b ∷ bs) (suc (suc n)) * 16 ^ suc (suc n)
          ≡ digit_at g1 bs n * 16 ^ n * 256 =
        ap₂ (λ t u. t * u) (digit_at_next b bs n) e
        ∙ sym (mul_assoc (digit_at g1 bs n) (16 ^ n) 256) in
      ap₂ (λ t u. t + u) (digits_value_next b bs n h) f ∙ omega arith

  -- All the digits of a string of bytes.
  digits_value_lem :
      (bytes : List ℕ)
      → All (λ b. b < 256) bytes
      → digits_value bytes (length bytes + length bytes) ≡ from_le_bytes bytes
  unfolding digits_value from_le_bytes
  digits_value_lem [] h = refl
  digits_value_lem (b ∷ bs) h =
      let e : suc (length bs) + suc (length bs) ≡ suc (suc (length bs + length bs)) = omega arith in
      rw e (
        digits_value_next b bs (length bs + length bs) h.0
        ∙ ap (λ t. b + 256 * t) (digits_value_lem bs h.1))

  pub mul-new :
      (base : Point) (bytes : List ℕ)
      → length bytes ≡ 32
      → All (λ b. b < 256) bytes
      → mul g1 (new g1 base) bytes ≡ copies g1 (from_le_bytes bytes) base
  unfolding mul
  mul-new base bytes len h =
      mul_digits base bytes 64 (omega arith)
      ∙ ap (λ t. copies g1 t base)
          (ap (digits_value bytes) (omega arith) ∙ digits_value_lem bytes h)
