-- ===== src/Challenge/Indices.antt =====
-- The indices are different blocks of the file, as many as asked for.
use ebutv.Prelude.{
  ℕ, zero, suc, ◌+◌, ◌%◌, ◌^◌, ◌≤◌, ◌<◌, ◌≡◌, refl, ap, ◌∙◌, inl, inr, ◌||◌, some, List, [], ◌∷◌,
  arith, min, ltb, ◌==◌, length, All, Bool-cases, Bool_ext, ltb→lt, ltb→le,
}
use ebutv.Challenge.{insert, range_from, draw, draw_loop, derive_challenge_indices}

-- Strictly ascending, so without repetition.
abbrev pub IsAscending : List ℕ → Type 0
IsAscending [] = Unit
IsAscending (x ∷ xs) = All (λ y. x < y) xs × IsAscending xs

abbrev pub IsBelow : ℕ → List ℕ → Type 0
IsBelow n xs = All (λ y. y < n) xs

All-lt_trans : (x y : ℕ) (xs : List ℕ) → x < y → All (λ z. y < z) xs → All (λ z. x < z) xs
All-lt_trans x y [] h p = tt
All-lt_trans x y (z ∷ xs) h p = (omega arith, All-lt_trans x y xs h p.1)

insert-All : (P : ℕ → Type 0) (x : ℕ) (xs : List ℕ) → P x → All P xs → All P (insert x xs)
unfolding insert
insert-All P x [] p h = (p, tt)
insert-All P x (y ∷ ys) p h = elim (Bool-cases (ltb x y)) [
  | inl lt ↦ rw lt (p, h)
  | inr ge ↦ elim (Bool-cases (x == y)) [
    | inl eq ↦ rw (ge, eq) h
    | inr ne ↦ rw (ge, ne) (h.0, insert-All P x ys p h.1)
  ]
]

insert-IsAscending : (x : ℕ) (xs : List ℕ) → IsAscending xs → IsAscending (insert x xs)
unfolding insert
insert-IsAscending x [] h = (tt, tt)
insert-IsAscending x (y ∷ ys) h = elim (Bool-cases (ltb x y)) [
  | inl lt ↦ rw lt ((ltb→lt x y lt, All-lt_trans x y ys (ltb→lt x y lt) h.0), h)
  | inr ge ↦ elim (Bool-cases (x == y)) [
    | inl eq ↦ rw (ge, eq) h
    | inr ne ↦
        rw (ge, ne) (insert-All (λ z. y < z) x ys (ground arith) h.0, insert-IsAscending x ys h.1)
  ]
]

-- A set grows by one at most.
length-insert :
    (x : ℕ) (xs : List ℕ)
    → (length xs ≤ length (insert x xs)) × (length (insert x xs) ≤ length xs + 1)
unfolding insert
length-insert x [] = omega arith
length-insert x (y ∷ ys) = ground (arith, length-insert x ys)

range_from_lem :
    (n from : ℕ)
    → (length (range_from from n) ≡ n)
      × IsAscending (range_from from n)
      × All (λ y. from ≤ y) (range_from from n)
      × IsBelow (from + n) (range_from from n)
unfolding range_from
range_from_lem zero from = (refl, tt, tt, tt)
range_from_lem (suc n) from =
    let (len, up, lo, hi) = range_from_lem n (from + 1) in
    let e : from + 1 + n ≡ from + suc n = omega arith in
    (
      ap suc len,
      (above (range_from (from + 1) n) lo, up),
      (omega arith, weaken _ lo),
      (omega arith, rw e at hi),
    )
  where
    above : (xs : List ℕ) → All (λ y. from + 1 ≤ y) xs → All (λ y. from < y) xs
    above [] h = tt
    above (x ∷ xs) h = (omega arith, above xs h.1)

    weaken : (xs : List ℕ) → All (λ y. from + 1 ≤ y) xs → All (λ y. from ≤ y) xs
    weaken [] h = tt
    weaken (x ∷ xs) h = (omega arith, weaken xs h.1)

-- What the loop keeps, and what it has established when it ends.
record Sample (num_blocks target : ℕ) (out : List ℕ) : Type 0 where
  ascending : IsAscending out
  below : IsBelow num_blocks out
  bounded : length out ≤ target

module _ (sha512 : List ℕ → List ℕ) (tag : List ℕ) (nonce : List ℕ) where
  draw-lt :
      (num_blocks target counter : ℕ)
      → 0 < num_blocks
      → draw sha512 tag nonce num_blocks target counter < num_blocks
  unfolding draw
  draw-lt n t c h = grind arith

  draw_loop-Sample :
      (fuel num_blocks target counter : ℕ) (out found : List ℕ)
      → 0 < num_blocks
      → Sample num_blocks target out
      → draw_loop sha512 tag nonce fuel num_blocks target counter out ≡ some found
      → Sample num_blocks target found × (target ≤ length found)
  unfolding draw_loop
  draw_loop-Sample zero n t c out found pos s h = elim (Bool-cases (ltb (length out) t)) [
    | inl lt ↦ absurd (cc (rw lt at h))
    | inr ge ↦
        let h' : some out ≡ some found = rw ge at h in
        let e : out ≡ found = cc in rw (← e) (s, ltb→le (length out) t ge)
  ]
  draw_loop-Sample (suc fuel) n t c out found pos s h = elim (Bool-cases (ltb (length out) t)) [
    | inl lt ↦
        let x = draw sha512 tag nonce n t c in
        draw_loop-Sample fuel n t ((c + 1) % 2 ^ 64) (insert x out) found pos
          (record {
            ascending = insert-IsAscending x out s.ascending;
            below = insert-All (λ y. y < n) x out (draw-lt n t c pos) s.below;
            bounded = omega (arith, length-insert x out, ltb→lt (length out) t lt);
          })
          (rw lt at h)
    | inr ge ↦
        let h' : some out ≡ some found = rw ge at h in
        let e : out ≡ found = cc in rw (← e) (s, ltb→le (length out) t ge)
  ]

  -- Whatever the hash does: indices that are returned come without repetition, in ascending
  -- order, each is a block of the file, and there are min(count, num_blocks) of them.
  pub derive_challenge_indices_lem :
      (fuel num_blocks count : ℕ) (indices : List ℕ)
      → derive_challenge_indices sha512 tag nonce fuel num_blocks count ≡ some indices
      → IsAscending indices × IsBelow num_blocks indices × (length indices ≡ min count num_blocks)
  unfolding derive_challenge_indices
  derive_challenge_indices_lem fuel n k indices h = elim (Bool-cases (n == 0 || k == 0)) [
    | inl zero_case ↦
        let h' : some [] ≡ some indices = rw zero_case at h in
        let e : [] ≡ indices = cc in rw (← e) (tt, tt, ground arith)
    | inr nonzero ↦ elim (Bool-cases (min k n == n)) [
      | inl whole ↦
          let h' : some (range_from 0 n) ≡ some indices = rw (nonzero, whole) at h in
          let e : range_from 0 n ≡ indices = cc in
          let (len, up, _, hi) = range_from_lem n 0 in
          let z : 0 + n ≡ n = omega arith in rw (← e) (up, rw z at hi, len ∙ ground arith)
      | inr part ↦
          let (s, enough) =
            draw_loop-Sample fuel n (min k n) 0 [] indices (ground arith)
              (record { ascending = tt; below = tt; bounded = omega arith })
              (rw (nonzero, part) at h) in
          (s.ascending, s.below, omega (arith, s.bounded))
    ]
  ]

  -- The indices seen in the first draws.
  unfoldable pub seen : ℕ → ℕ → ℕ → ℕ → List ℕ → List ℕ
  seen zero n t c out = out
  seen (suc draws) n t c out =
      seen draws n t ((c + 1) % 2 ^ 64) (insert (draw sha512 tag nonce n t c) out)

  draw_loop_returns :
      (fuel n t c : ℕ) (out : List ℕ)
      → t ≤ length (seen fuel n t c out)
      → (found : List ℕ) × (draw_loop sha512 tag nonce fuel n t c out ≡ some found)
  unfolding draw_loop seen
  draw_loop_returns zero n t c out h = (out, ground arith)
  draw_loop_returns (suc fuel) n t c out h = elim (Bool-cases (ltb (length out) t)) [
    | inl lt ↦ rw lt (draw_loop_returns fuel n t ((c + 1) % 2 ^ 64) _ h)
    | inr ge ↦ (out, rw ge refl)
  ]

  -- The sampling ends within the fuel if that many digests hit as many different blocks as are
  -- asked for.
  pub derive_challenge_indices_returns :
      (fuel num_blocks count : ℕ)
      → min count num_blocks ≤ length (seen fuel num_blocks (min count num_blocks) 0 [])
      → (indices : List ℕ) × (derive_challenge_indices sha512 tag nonce fuel num_blocks count
          ≡ some indices)
  unfolding derive_challenge_indices
  derive_challenge_indices_returns fuel n k h = elim (Bool-cases (n == 0 || k == 0)) [
    | inl zero_case ↦ ([], rw zero_case refl)
    | inr nonzero ↦ elim (Bool-cases (min k n == n)) [
      | inl whole ↦ (range_from 0 n, rw (nonzero, whole) refl)
      | inr part ↦ rw (nonzero, part) (draw_loop_returns fuel n (min k n) 0 [] h)
    ]
  ]

  -- Asking for as many indices as there are gives the same ones again.
  pub derive_challenge_indices-min :
      (fuel n k : ℕ)
      → derive_challenge_indices sha512 tag nonce fuel n (min k n)
        ≡ derive_challenge_indices sha512 tag nonce fuel n k
  unfolding derive_challenge_indices
  derive_challenge_indices-min fuel n k =
      let same_min : min (min k n) n ≡ min k n = omega arith in
      let same_zero : (n == 0 || min k n == 0) ≡ (n == 0 || k == 0) =
        Bool_ext (n == 0 || min k n == 0) (n == 0 || k == 0) (λ h. ground arith)
          (λ h. ground arith) in
      rw (same_min, same_zero) refl
