-- ===== src/Revocation/Gaps.antt =====
-- src/revocation.rs: sorting keeps the handles, and no signed gap has one of them strictly inside.
use ebutv.Prelude.{
  ℕ, ◌≤◌, ◌≡◌, inl, inr, refl, sym, ap, ◌∙◌, arith, Bool, true, false, ◌||◌, List, [], ◌∷◌, ◌==◌,
  leb, Bool-cases,
}
use ebutv.Revocation.{insert, sort_unstable, dedup_from, dedup, contains}

swap_or : (a b c : Bool) → a || (b || c) ≡ b || (a || c)
swap_or true true c = refl
swap_or true false c = refl
swap_or false b c = refl

contains-insert : (b x : ℕ) (xs : List ℕ) → contains b (insert x xs) ≡ b == x || contains b xs
unfolding contains insert
contains-insert b x [] = refl
contains-insert b x (y ∷ ys) = elim (Bool-cases (leb x y)) [
  | inl t ↦ rw t refl
  | inr f ↦
      rw f
        (ap (λ c. b == y || c) (contains-insert b x ys) ∙ swap_or (b == y) (b == x) (contains b ys))
]

pub contains-sort_unstable : (b : ℕ) (xs : List ℕ) → contains b (sort_unstable xs) ≡ contains b xs
unfolding contains sort_unstable
contains-sort_unstable b [] = refl
contains-sort_unstable b (x ∷ xs) =
    contains-insert b x (sort_unstable xs) ∙ ap (λ c. b == x || c) (contains-sort_unstable b xs)

twice : (a c : Bool) → a || (a || c) ≡ a || c
twice true c = refl
twice false c = refl

contains-dedup_from :
    (b x : ℕ) (xs : List ℕ) → contains b (dedup_from x xs) ≡ b == x || contains b xs
unfolding contains dedup_from
contains-dedup_from b x [] = refl
contains-dedup_from b x (y ∷ ys) = elim (Bool-cases (x == y)) [
  | inl t ↦ rw t (
      contains-dedup_from b y ys
      ∙ sym (twice (b == y) (contains b ys))
      ∙ ap (λ z. b == z || (b == y || contains b ys)) (let e : y ≡ x = ground arith in e))
  | inr f ↦ rw f (ap (λ c. b == x || c) (contains-dedup_from b y ys))
]

contains-dedup : (b : ℕ) (xs : List ℕ) → contains b (dedup xs) ≡ contains b xs
unfolding dedup contains
contains-dedup b [] = refl
contains-dedup b (x ∷ xs) = contains-dedup_from b x xs

-- The list of handles that is kept has the members of the blacklist that was given.
pub contains-dedup-sort_unstable :
    (b : ℕ) (xs : List ℕ) → contains b (dedup (sort_unstable xs)) ≡ contains b xs
contains-dedup-sort_unstable b xs =
    contains-dedup b (sort_unstable xs) ∙ contains-sort_unstable b xs

-- Ascending from a number on.
unfoldable pub Ascending : ℕ → List ℕ → Type 0
Ascending left [] = Unit
Ascending left (x ∷ xs) = (left ≤ x) × Ascending x xs

insert-Ascending :
    (left x : ℕ) (xs : List ℕ) → left ≤ x → Ascending left xs → Ascending left (insert x xs)
unfolding Ascending insert
insert-Ascending left x [] h s = (h, tt)
insert-Ascending left x (y ∷ ys) h s = elim (Bool-cases (leb x y)) [
  | inl t ↦ rw t (h, (ground arith, s.1))
  | inr f ↦ rw f (s.0, insert-Ascending y x ys (ground arith) s.1)
]

sort_unstable-Ascending : (xs : List ℕ) → Ascending 0 (sort_unstable xs)
unfolding Ascending sort_unstable
sort_unstable-Ascending [] = tt
sort_unstable-Ascending (x ∷ xs) =
    insert-Ascending 0 x (sort_unstable xs) (omega arith) (sort_unstable-Ascending xs)

dedup_from-Ascending :
    (left x : ℕ) (xs : List ℕ) → left ≤ x → Ascending x xs → Ascending left (dedup_from x xs)
unfolding Ascending dedup_from
dedup_from-Ascending left x [] h s = (h, tt)
dedup_from-Ascending left x (y ∷ ys) h s = elim (Bool-cases (x == y)) [
  | inl t ↦ rw t (dedup_from-Ascending left y ys (omega (arith, s.0)) s.1)
  | inr f ↦ rw f (h, dedup_from-Ascending x y ys s.0 s.1)
]

dedup-Ascending : (xs : List ℕ) → Ascending 0 xs → Ascending 0 (dedup xs)
unfolding dedup Ascending
dedup-Ascending [] s = tt
dedup-Ascending (x ∷ xs) s = dedup_from-Ascending 0 x xs (omega arith) s.1

pub dedup-sort_unstable-Ascending : (xs : List ℕ) → Ascending 0 (dedup (sort_unstable xs))
dedup-sort_unstable-Ascending xs = dedup-Ascending (sort_unstable xs) (sort_unstable-Ascending xs)

pub contains-Ascending :
    (left b : ℕ) (xs : List ℕ) → Ascending left xs → contains b xs ≡ true → left ≤ b
unfolding contains Ascending
contains-Ascending left b [] s h = ground arith
contains-Ascending left b (x ∷ xs) s h = elim (Bool-cases (b == x)) [
  | inl t ↦ ground (arith, s.0)
  | inr f ↦ omega (arith, s.0, contains-Ascending x b xs s.1 (rw f at h))
]
