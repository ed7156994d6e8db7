-- ===== src/Revocation.antt =====
-- src/revocation.rs: the signed gaps between the blacklisted handles, and the proof that a hidden
-- expiry lies in one of them. The list comes first, over any way to sign a gap.
pub mod Gaps
pub mod Search
pub mod Find
pub mod Prove
pub mod Complete
pub mod Refused
pub mod Unsigned
use ebutv.Prelude.{
  ℕ, zero, suc, length, get_or, ◌+◌, ◌-◌, ◌/◌, ◌^◌, Bool, true, false, ◌&&◌, ◌||◌, not, Option,
  none, some, List, [], ◌∷◌, leb, ltb, ◌==◌, if◌then◌else◌,
}
use ebutv.Prelude.Results.{Result, ok, err, ◌>>◌, fail_if}
use ebutv.Prelude.Text.{codes}
use ebutv.Server.Store.{ActError, protocol_error, verification_failed}

pub record RevocationContext : Type 0 where
  pub app_id : List ℕ
  pub policy_id : List ℕ
  pub server_key_id : List ℕ
  pub revocation_list_version : ℕ
  pub now_unix : ℕ

-- `u32::MAX`
abbrev pub revocation_domain_max_v1 : ℕ
revocation_domain_max_v1 = 4294967295

unfoldable pub saturating_add : ℕ → ℕ → ℕ
saturating_add a b = if leb (2 ^ 64) (a + b) then 2 ^ 64 - 1 else a + b

unfoldable pub insert : ℕ → List ℕ → List ℕ
insert x [] = x ∷ []
insert x (y ∷ ys) = if leb x y then x ∷ (y ∷ ys) else y ∷ insert x ys

-- The result of `sort_unstable`.
unfoldable pub sort_unstable : List ℕ → List ℕ
sort_unstable [] = []
sort_unstable (x ∷ xs) = insert x (sort_unstable xs)

-- The result of `dedup`: one of each run of equal numbers.
unfoldable pub dedup_from : ℕ → List ℕ → List ℕ
dedup_from x [] = x ∷ []
dedup_from x (y ∷ ys) = let rest = dedup_from y ys in if x == y then rest else x ∷ rest

unfoldable pub dedup : List ℕ → List ℕ
dedup [] = []
dedup (x ∷ xs) = dedup_from x xs

unfoldable pub contains : ℕ → List ℕ → Bool
contains x [] = false
contains x (y ∷ ys) = x == y || contains x ys

-- The loop of `binary_search`: the half of the range from `base` that can hold `x`, until one place is
-- left. The fuel is the length of the list.
unfoldable pub locate : ℕ → List ℕ → ℕ → ℕ → ℕ → ℕ
locate zero xs x base size = base
locate (suc fuel) xs x base size =
    let half = size / 2 in
    let next = if ltb x (get_or xs (base + half) 0) then base else base + half in
    let rest = locate fuel xs x next (size - half) in if leb size 1 then base else rest

-- `binary_search(..).is_ok()`, on a list in any order.
unfoldable pub binary_search : List ℕ → ℕ → Bool
binary_search xs x =
    if length xs == 0 then false else get_or xs (locate (length xs) xs x 0 (length xs)) 0 == x

unfoldable pub find : {A : Type 0} → (A → Bool) → List A → Option A
find test [] = none
find test (x ∷ xs) = if test x then some x else find test xs

unfoldable pub any : {A : Type 0} → (A → Bool) → List A → Bool
any test [] = false
any test (x ∷ xs) = test x || any test xs

-- The arguments are the hidden expiry, the ends of the gap and the time.
unfoldable pub validate_gap_interval : ℕ → ℕ → ℕ → ℕ → Result ActError (Unit {0})
validate_gap_interval emax ea eb now_unix = do
  fail_if
      (ltb revocation_domain_max_v1 emax
        || (ltb revocation_domain_max_v1 ea || ltb revocation_domain_max_v1 eb))
      (protocol_error (codes "revocation proof v1 supports Emax/gap endpoints <= u32::MAX"))
  fail_if (not (ltb ea emax && ltb emax eb))
      (protocol_error (codes "Emax not inside revocation gap"))
  fail_if (leb eb ea) (protocol_error (codes "invalid revocation gap"))
  fail_if (ltb emax now_unix) (protocol_error (codes "Emax expired"))
  ok tt

module _ (Signature : Type 0) where
  pub record SignedRevocationGap : Type 0 where
    pub left : ℕ
    pub right : ℕ
    pub signature : Signature

  pub record SignedRevocationList : Type 0 where
    pub ctx : RevocationContext
    pub blacklisted_emax : List ℕ
    pub gaps : List SignedRevocationGap

  -- The loop over the handles from `left` on, and the gap after the last of them.
  unfoldable pub gaps_from : (ℕ → ℕ → Signature) → ℕ → List ℕ → List SignedRevocationGap
  gaps_from sign left [] =
      let right = revocation_domain_max_v1 in
      if ltb left right && ltb (saturating_add left 1) right
      then record { left = left; right = right; signature = sign left right } ∷ []
      else []
  gaps_from sign left (right ∷ handles) =
      let rest = gaps_from sign right handles in
      if ltb (saturating_add left 1) right
      then record { left = left; right = right; signature = sign left right } ∷ rest
      else rest

  unfoldable pub sign_blacklist :
      RevocationContext → (ℕ → ℕ → Signature) → List ℕ → SignedRevocationList
  sign_blacklist ctx sign blacklisted =
      let handles = dedup (sort_unstable blacklisted) in
      record { ctx = ctx; blacklisted_emax = handles; gaps = gaps_from sign 0 handles }

  unfoldable pub is_blacklisted : SignedRevocationList → ℕ → Bool
  is_blacklisted list emax = binary_search list.blacklisted_emax emax

  unfoldable pub inside : ℕ → SignedRevocationGap → Bool
  inside emax gap = ltb gap.left emax && ltb emax gap.right

  abbrev pub ok_or : Option SignedRevocationGap → ActError → Result ActError SignedRevocationGap
  ok_or none e = err e
  ok_or (some g) e = ok g

  unfoldable pub find_gap : SignedRevocationList → ℕ → Result ActError SignedRevocationGap
  find_gap list emax =
      if is_blacklisted list emax
      then err (verification_failed (codes "Emax is blacklisted"))
      else ok_or (find (inside emax) list.gaps)
          (verification_failed (codes "no signed revocation gap contains Emax"))

  unfoldable pub contains_current_gap_for_debug_only : SignedRevocationList → ℕ → ℕ → Bool
  contains_current_gap_for_debug_only list left right =
      any (λ gap. gap.left == left && gap.right == right) list.gaps
