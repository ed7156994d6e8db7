-- ===== src/Revocation/Search.antt =====
-- src/revocation.rs: is_blacklisted, whose binary search finds the members of an ascending list and
-- nothing else.
use ebutv.Prelude.{
  ℕ, zero, suc, ◌+◌, ◌-◌, ◌/◌, ◌≤◌, ◌<◌, ◌≡◌, inl, inr, refl, sym, arith, Bool, true, false, List,
  [], ◌∷◌, length, get_or, ◌==◌, ==→eq, ltb, leb, Bool-cases,
}
use ebutv.Revocation.{contains, locate, binary_search}
use ebutv.Revocation.Gaps.{Ascending}

get_or-Ascending :
    (left : ℕ) (xs : List ℕ) (i : ℕ) → Ascending left xs → i < length xs → left ≤ get_or xs i 0
unfolding Ascending
get_or-Ascending left [] i s h = omega arith
get_or-Ascending left (x ∷ xs) zero s h = s.0
get_or-Ascending left (x ∷ xs) (suc i) s h =
    omega (arith, s.0, get_or-Ascending x xs i s.1 (omega arith))

-- An ascending list does not fall.
monotone :
    (left : ℕ) (xs : List ℕ) (i j : ℕ)
    → Ascending left xs
    → i ≤ j
    → j < length xs
    → get_or xs i 0 ≤ get_or xs j 0
unfolding Ascending
monotone left [] i j s h b = omega arith
monotone left (x ∷ xs) zero zero s h b = omega arith
monotone left (x ∷ xs) zero (suc j) s h b = get_or-Ascending x xs j s.1 (omega arith)
monotone left (x ∷ xs) (suc i) zero s h b = omega arith
monotone left (x ∷ xs) (suc i) (suc j) s h b = monotone x xs i j s.1 (omega arith) (omega arith)

contains-get_or : (xs : List ℕ) (i : ℕ) → i < length xs → contains (get_or xs i 0) xs ≡ true
unfolding contains
contains-get_or [] i h = absurd (omega arith)
contains-get_or (x ∷ xs) zero h = ground arith
contains-get_or (x ∷ xs) (suc i) h = ground (arith, contains-get_or xs i (omega arith))

-- A member is at some place.
place :
    (x : ℕ) (xs : List ℕ) → contains x xs ≡ true → (i : ℕ) × (i < length xs) × (get_or xs i 0 ≡ x)
unfolding contains
place x [] h = absurd (cc h)
place x (y ∷ ys) h = elim (Bool-cases (x == y)) [
  | inl t ↦ (0, omega arith, sym (==→eq x y t))
  | inr f ↦ let (i, b, e) = place x ys (rw f at h) in (suc i, omega arith, e)
]

-- The place that the loop ends on is in the range.
locate-Bounded :
    (fuel : ℕ) (xs : List ℕ) (x base size : ℕ) → 1 ≤ size → locate fuel xs x base size < base + size
unfolding locate
locate-Bounded zero xs x base size h = omega arith
locate-Bounded (suc fuel) xs x base size h = elim (Bool-cases (leb size 1)) [
  | inl t ↦ rw t (omega arith)
  | inr f ↦ elim (Bool-cases (ltb x (get_or xs (base + size / 2) 0))) [
    | inl l ↦
        rw (f, l)
          (let low = locate-Bounded fuel xs x base (size - size / 2) (ground arith) in ground arith)
    | inr g ↦
        rw (f, g)
          (let high = locate-Bounded fuel xs x (base + size / 2) (size - size / 2) (ground arith) in
            ground arith)
  ]
]

-- What is at a place of the range is at the place that the loop ends on.
get_or-locate :
    (fuel : ℕ) (xs : List ℕ) (x base size i : ℕ)
    → Ascending 0 xs
    → 1 ≤ size
    → size ≤ fuel + 1
    → base + size ≤ length xs
    → base ≤ i
    → i < base + size
    → get_or xs i 0 ≡ x
    → get_or xs (locate fuel xs x base size) 0 ≡ x
unfolding locate
get_or-locate zero xs x base size i s one enough bound lower upper e =
    let same : i ≡ base = omega arith in rw same at e
get_or-locate (suc fuel) xs x base size i s one enough bound lower upper e =
    elim (Bool-cases (leb size 1)) [
      | inl t ↦ rw t (let same : i ≡ base = ground arith in rw same at e)
      | inr f ↦
          let two : 2 ≤ size = ground arith in
          elim (Bool-cases (ltb x (get_or xs (base + size / 2) 0))) [
            | inl l ↦
                rw (f, l)
                  (get_or-locate fuel xs x base (size - size / 2) i s (omega arith) (omega arith)
                    (omega arith) lower (before two l) e)
            | inr g ↦
                rw (f, g)
                  (let (j, low, high, here) = behind two g in
                    get_or-locate fuel xs x (base + size / 2) (size - size / 2) j s (omega arith)
                      (omega arith) (omega arith) low high here)
          ]
    ]
  where
    before : 2 ≤ size → ltb x (get_or xs (base + size / 2) 0) ≡ true → i < base + (size - size / 2)
    before two l = elim (Bool-cases (ltb i (base + size / 2))) [
      | inl t ↦ ground arith
      | inr f ↦
          let up = monotone 0 xs (base + size / 2) i s (ground arith) (omega arith) in ground arith
    ]

    behind :
        2 ≤ size
        → ltb x (get_or xs (base + size / 2) 0) ≡ false
        → (j : ℕ) × (base + size / 2 ≤ j)
          × (j < base + size / 2 + (size - size / 2))
          × (get_or xs j 0 ≡ x)
    behind two g = elim (Bool-cases (ltb i (base + size / 2))) [
      | inl t ↦
          let up = monotone 0 xs i (base + size / 2) s (ground arith) (omega arith) in
          (base + size / 2, omega arith, omega arith, ground arith)
      | inr f ↦ (i, ground arith, omega arith, e)
    ]

-- The search finds the members of an ascending list, and nothing else.
pub binary_search_lem : (xs : List ℕ) (x : ℕ) → Ascending 0 xs → binary_search xs x ≡ contains x xs
unfolding binary_search contains
binary_search_lem [] x s = refl
binary_search_lem (y ∷ ys) x s =
    let some : suc (length ys) == 0 ≡ false = ground arith in
    rw some (searched (y ∷ ys) (omega arith) s (contains x (y ∷ ys)) refl)
  where
    searched :
        (xs : List ℕ)
        → 0 < length xs
        → Ascending 0 xs
        → (found : Bool) → contains x xs ≡ found
        → get_or xs (locate (length xs) xs x 0 (length xs)) 0 == x ≡ found
    searched xs one s true c =
        let (i, b, e) = place x xs c in
        let hit =
          get_or-locate (length xs) xs x 0 (length xs) i s (omega arith) (omega arith) (omega arith)
            (omega arith) (omega arith) e in
        ground arith
    searched xs one s false c =
        let end = locate (length xs) xs x 0 (length xs) in
        let bound : end < 0 + length xs =
          locate-Bounded (length xs) xs x 0 (length xs) (omega arith) in
        elim (Bool-cases (get_or xs end 0 == x)) [
          | inr f ↦ f
          | inl t ↦
              let e = ==→eq _ _ t in
              let member = contains-get_or xs end (omega arith) in absurd (cc (rw e at member))
        ]
