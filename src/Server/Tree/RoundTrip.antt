-- ===== src/Server/Tree/RoundTrip.antt =====
-- src/server.rs: build, prove and verify of the Merkle tree of nonces.
use ebutv.Prelude.{
  ℕ, zero, suc, ◌+◌, ◌-◌, ◌*◌, ◌/◌, ◌%◌, ◌^◌, ◌≤◌, ◌<◌, ◌≡◌, refl, sym, ap, ◌∙◌, inl, inr, true,
  some, List, [], ◌∷◌, ◌++◌, map, arith, ltb, ◌==◌, if◌then◌else◌, length, get_or, replicate,
  bytes_eq, bytes_eq_refl, length-append, length-replicate, length-map, length-set, get_or-set_self,
  get_or-set_ne, get_or-map, get_or-append_l, lt→ltb, ltb→le, ltb→lt, Bool-cases,
}
use native.Mathlib.Decide.{ℕ_discrete}
use mathlib.Core.Path.{ap₂}
use native.Mathlib.Nat.{pow-succ', one-le-pow}
use ebutv.Prelude.Loops.{for_below-inv}
use ebutv.Server.Store.{Bytes}
use ebutv.Server.Tree.{
  MerkleProof, double_until, next_power_of_two, padded, climb, verify, halve_in_place, build_loop,
  build, next_level, collect_siblings, prove,
}

-- A power of two, with its exponent.
abbrev IsPower : ℕ → Type 0
IsPower n = (k : ℕ) × (n ≡ 2 ^ k)

twice : (k : ℕ) → 2 ^ suc k ≡ 2 * 2 ^ k
twice k = pow-succ' 2 k

one_le : (k : ℕ) → 1 ≤ 2 ^ k
one_le k = one-le-pow k 2 (omega arith)

double_until_lem :
    (fuel n k : ℕ)
    → n ≤ 2 ^ k + fuel
    → IsPower (double_until fuel n (2 ^ k)) × (n ≤ double_until fuel n (2 ^ k))
unfolding double_until
double_until_lem zero n k h = ((k, refl), omega arith)
double_until_lem (suc fuel) n k h = elim (Bool-cases (ltb (2 ^ k) n)) [
  | inr e ↦ rw e ((k, refl), ltb→le (2 ^ k) n e)
  | inl e ↦
      let below = ltb→lt (2 ^ k) n e in
      let rest = double_until_lem fuel n (suc k) (omega (arith, twice k, one_le k)) in
      rw (e, sym (twice k)) rest
]

exponent_le : (k : ℕ) → k ≤ 2 ^ k
exponent_le zero = omega arith
exponent_le (suc k) = omega (arith, exponent_le k, twice k, one_le k)

next_power_of_two_lem : (n : ℕ) → IsPower (next_power_of_two n) × (n ≤ next_power_of_two n)
unfolding next_power_of_two
next_power_of_two_lem n = double_until_lem n n 0 (omega arith)

length-padded : (nonces : List Bytes) → length (padded nonces) ≡ next_power_of_two (length nonces)
unfolding padded
length-padded nonces =
    let (_, above) = next_power_of_two_lem (length nonces) in
    let missing : ℕ = next_power_of_two (length nonces) - length nonces in
    length-append nonces (replicate missing (replicate 16 0))
    ∙ omega (arith, length-replicate missing (replicate {A = ℕ} 16 0))

get_or-padded :
    (nonces : List Bytes) (i : ℕ)
    → i < length nonces
    → get_or (padded nonces) i [] ≡ get_or nonces i []
unfolding padded
get_or-padded nonces i h = get_or-append_l nonces _ i [] h

module _ (sha256 : Bytes → Bytes) where
  -- The levels, halved `k` times.
  top : ℕ → List Bytes → List Bytes
  top zero level = level
  top (suc k) level = top k (next_level sha256 level)

  get_or-next_level :
      (level : List Bytes) (i : ℕ)
      → 2 * i + 1 < length level
      → get_or (next_level sha256 level) i []
        ≡ sha256 (get_or level (2 * i) [] ++ get_or level (2 * i + 1) [])
  unfolding next_level
  get_or-next_level [] i h = elim h [ ]
  get_or-next_level (a ∷ []) i h = absurd (omega arith)
  get_or-next_level (a ∷ b ∷ rest) zero h = refl
  get_or-next_level (a ∷ b ∷ rest) (suc i) h =
      let e : 2 * suc i ≡ suc (suc (2 * i)) = omega arith in
      let f : suc (suc (2 * i)) + 1 ≡ suc (suc (2 * i + 1)) = omega arith in
      rw (e, f) (get_or-next_level rest i (omega arith))

  length-next_level :
      (level : List Bytes) (n : ℕ) → length level ≡ 2 * n → length (next_level sha256 level) ≡ n
  unfolding next_level
  length-next_level [] n h = omega arith
  length-next_level (a ∷ []) n h = absurd (omega arith)
  length-next_level (a ∷ b ∷ rest) zero h = absurd (omega arith)
  length-next_level (a ∷ b ∷ rest) (suc n) h = ap suc (length-next_level rest n (omega arith))

  -- The place of a node and of its sibling under their parent.
  climb_step :
      (level : List Bytes) (idx : ℕ)
      → idx < length level
      → (n : ℕ) → length level ≡ 2 * n
      → sha256 (
          if idx % 2 == 0
          then get_or level idx [] ++ get_or level (if idx % 2 == 0 then idx + 1 else idx - 1) []
          else get_or level (if idx % 2 == 0 then idx + 1 else idx - 1) [] ++ get_or level idx [])
        ≡ get_or (next_level sha256 level) (idx / 2) []
  climb_step level idx inside n even = elim (Bool-cases (idx % 2 == 0)) [
    | inl e ↦
        let p : 2 * (idx / 2) ≡ idx = ground arith in
        let h : 2 * (idx / 2) + 1 < length level = omega arith in
        let both = get_or-next_level level (idx / 2) h in rw e (sym (rw p at both))
    | inr e ↦
        let o : idx % 2 ≡ 1 = ground arith in
        let p : 2 * (idx / 2) ≡ idx - 1 = omega arith in
        let q : idx - 1 + 1 ≡ idx = omega arith in
        let h : 2 * (idx / 2) + 1 < length level = omega arith in
        let both = get_or-next_level level (idx / 2) h in rw e (sym (rw (p, q) at both))
  ]

  climb-collect_siblings :
      (k fuel : ℕ) (level : List Bytes) (idx : ℕ)
      → length level ≡ 2 ^ k
      → k ≤ fuel
      → idx < length level
      → climb sha256 (get_or level idx []) idx (collect_siblings sha256 fuel level idx)
        ≡ get_or (top k level) 0 []
  unfolding climb collect_siblings top
  climb-collect_siblings zero fuel [] idx len enough inside = elim inside [ ]
  climb-collect_siblings zero zero (a ∷ []) zero len enough inside = refl
  climb-collect_siblings zero (suc fuel) (a ∷ []) zero len enough inside = refl
  climb-collect_siblings zero fuel (a ∷ []) (suc idx) len enough inside = absurd (omega arith)
  climb-collect_siblings zero fuel (a ∷ b ∷ rest) idx len enough inside = absurd (omega arith)
  climb-collect_siblings (suc k) zero level idx len enough inside = absurd (omega arith)
  climb-collect_siblings (suc k) (suc fuel) level idx len enough inside =
      let even : length level ≡ 2 * 2 ^ k = len ∙ twice k in
      let big : ltb 1 (length level) ≡ true = lt→ltb 1 (length level) (omega (arith, one_le k)) in
      let half = length-next_level level (2 ^ k) even in
      let rest =
        climb-collect_siblings k fuel (next_level sha256 level) (idx / 2) half (omega arith)
          (omega arith) in
      let siblings = collect_siblings sha256 fuel (next_level sha256 level) (idx / 2) in
      rw big (
        ap (λ t. climb sha256 t (idx / 2) siblings) (climb_step level idx inside (2 ^ k) even)
        ∙ rest)

  -- After `i` rounds in place: the parents below `i`, the level as it was from there on.
  record HalvedTo (level : List Bytes) (i : ℕ) (t : List Bytes) : Type 0 where
    same_size : length t ≡ length level
    done :
        (j : ℕ)
        → j < i
        → get_or t j [] ≡ sha256 (get_or level (2 * j) [] ++ get_or level (2 * j + 1) [])
    left : (j : ℕ) → i ≤ j → get_or t j [] ≡ get_or level j []

  halve_in_place-HalvedTo :
      (half : ℕ) (level : List Bytes)
      → 2 * half ≤ length level
      → HalvedTo level half (halve_in_place sha256 half level)
  unfolding halve_in_place
  halve_in_place-HalvedTo half level fits =
      for_below-inv (HalvedTo level) half _ level
        (record { same_size = refl; done = λ j lt. absurd (omega arith); left = λ j le. refl })
        λ i t lt h.
          let size = h.same_size in
          record {
            same_size = length-set t i _ ∙ h.same_size;
            done = λ j below. elim (ℕ_discrete i j) [
              | yes e ↦
                  let l = h.left (2 * i) (omega arith) in
                  let r = h.left (2 * i + 1) (omega arith) in
                  rw (← e, get_or-set_self t i _ [] (omega arith), l, r) refl
              | no n ↦ get_or-set_ne t i j _ [] n ∙ h.done j (omega (arith, n))
            ];
            left = λ j above.
                get_or-set_ne t i j _ [] (λ e. absurd (omega (arith, e))) ∙ h.left j (omega arith);
          }

  -- A level that is the front of the array.
  record Front (n : ℕ) (hashes level : List Bytes) : Type 0 where
    room : n ≤ length hashes
    size : length level ≡ n
    same : (j : ℕ) → j < n → get_or hashes j [] ≡ get_or level j []

  halve_in_place-Front :
      (n : ℕ) (hashes level : List Bytes)
      → Front (2 * n) hashes level
      → Front n (halve_in_place sha256 n hashes) (next_level sha256 level)
  halve_in_place-Front n hashes level f =
      let halved = halve_in_place-HalvedTo n hashes f.room in
      record {
        room = omega (arith, f.room, halved.same_size);
        size = length-next_level level n f.size;
        same = λ j lt.
            let l = f.same (2 * j) (omega arith) in
            let r = f.same (2 * j + 1) (omega arith) in
            let inside : 2 * j + 1 < length level = omega (arith, f.size) in
            halved.done j lt
            ∙ ap₂ (λ x y. sha256 (x ++ y)) l r
            ∙ sym (get_or-next_level level j inside);
      }

  build_loop_lem :
      (k fuel : ℕ) (hashes level : List Bytes)
      → k ≤ fuel
      → Front (2 ^ k) hashes level
      → get_or (build_loop sha256 fuel (2 ^ k) hashes) 0 [] ≡ get_or (top k level) 0 []
  unfolding build_loop top
  build_loop_lem zero zero hashes level enough f = f.same 0 (omega arith)
  build_loop_lem zero (suc fuel) hashes level enough f = f.same 0 (omega arith)
  build_loop_lem (suc k) zero hashes level enough f = absurd (omega arith)
  build_loop_lem (suc k) (suc fuel) hashes level enough f =
      let big : ltb 1 (2 ^ suc k) ≡ true =
        lt→ltb 1 (2 ^ suc k) (omega (arith, twice k, one_le k)) in
      let half : 2 ^ suc k / 2 ≡ 2 ^ k = omega (arith, twice k) in
      rw (big, half)
        (build_loop_lem k fuel (halve_in_place sha256 (2 ^ k) hashes) (next_level sha256 level)
          (omega arith) (halve_in_place-Front (2 ^ k) hashes level (rw (twice k) at f)))

  root_agrees :
      (k size : ℕ) (level : List Bytes) (i : ℕ)
      → size ≡ 2 ^ k
      → length level ≡ size
      → i < length level
      → climb sha256 (get_or level i []) i (collect_siblings sha256 size level i)
        ≡ get_or (build_loop sha256 size size level) 0 []
  root_agrees k size level i power full inside =
      let enough : k ≤ size = omega (arith, exponent_le k, power) in
      let front : Front (2 ^ k) level level = record {
        room = omega (arith, full, power);
        size = full ∙ power;
        same = λ j lt. refl;
      } in
      let built = build_loop_lem k size level level enough front in
      climb-collect_siblings k size level i (full ∙ power) enough inside
      ∙ sym (ap (λ t. get_or (build_loop sha256 size t level) 0 []) power ∙ built)

  -- Each nonce of a batch has a proof: it carries the nonce and verifies against the batch's root.
  pub verify-prove-build :
      (nonces : List Bytes) (i : ℕ)
      → i < length nonces
      → (proof : MerkleProof) × (prove sha256 (build sha256 nonces) i ≡ some proof)
        × (proof.leaf ≡ get_or nonces i [])
        × (verify sha256 proof (build sha256 nonces).root ≡ true)
  unfolding prove build verify
  verify-prove-build nonces i inside =
      let ((k, power), above) = next_power_of_two_lem (length nonces) in
      let level = map sha256 (padded nonces) in
      let full : length level ≡ next_power_of_two (length nonces) =
        length-map (padded nonces) sha256 ∙ length-padded nonces in
      let leaf : get_or level i [] ≡ sha256 (get_or nonces i []) =
        get_or-map sha256 (padded nonces) i [] [] (omega (arith, length-padded nonces))
        ∙ ap sha256 (get_or-padded nonces i inside) in
      let siblings = collect_siblings sha256 (next_power_of_two (length nonces)) level i in
      let root = (build sha256 nonces).root in
      let e =
        root_agrees k (next_power_of_two (length nonces)) level i power full
          (omega (arith, full)) in
      let e' = ap (λ t. climb sha256 t i siblings) (sym leaf) ∙ e in
      (
        record { leaf = get_or nonces i []; siblings = siblings; index = i },
        rw (lt→ltb i (length nonces) inside) refl,
        refl,
        ap (λ t. bytes_eq t root) e' ∙ bytes_eq_refl root,
      )
