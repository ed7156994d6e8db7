-- ===== src/Revocation/Refused.antt =====
-- src/revocation.rs: a handle above the domain leaves the holders of the last gap below it without
-- a proof.
use ebutv.Prelude.{
  ℕ, ◌<◌, ◌≡◌, ◌⊎◌, inl, inr, refl, sym, ◌∙◌, arith, true, false, ◌||◌, Option, none, some, List,
  [], ◌∷◌, ltb, ◌==◌, All, Bool-cases,
}
use ebutv.Prelude.Outcome.{failed}
use ebutv.Prelude.Results.{ok, err}
use ebutv.Prelude.Text.{codes}
use ebutv.Server.Store.{ActError, protocol_error}
use ebutv.Bls.{Bls}
use ebutv.Dalek.{Dalek}
use ebutv.V3.Gap.{Pairing}
use ebutv.V3.Prover.{MultiRange}
use ebutv.Revocation.{
  RevocationContext, revocation_domain_max_v1, saturating_add, sort_unstable, dedup, contains, find,
  inside, SignedRevocationGap, SignedRevocationList, gaps_from, sign_blacklist, is_blacklisted,
  ok_or, find_gap, validate_gap_interval,
}
use ebutv.Revocation.Gaps.{Ascending, contains-dedup-sort_unstable, dedup-sort_unstable-Ascending}
use ebutv.Revocation.Find.{or_true, All-imp, find-All, find_gap-sign_blacklist}
use ebutv.Revocation.Prove.{RevocationDraws, witness_inputs}

refused :
    (emax ea eb now_unix : ℕ)
    → revocation_domain_max_v1 < eb
    → validate_gap_interval emax ea eb now_unix
      ≡ err (protocol_error (codes "revocation proof v1 supports Emax/gap endpoints <= u32::MAX"))
unfolding validate_gap_interval
refused emax ea eb now_unix h =
    let domain : ltb revocation_domain_max_v1 emax
          || (ltb revocation_domain_max_v1 ea || ltb revocation_domain_max_v1 eb)
        ≡ true =
      ground arith in
    rw domain refl

-- With a handle above the domain on an ascending list, or its start above the domain, every gap ends
-- at a handle.
gaps_from-right :
    {Signature : Type 0} (sign : ℕ → ℕ → Signature) (handle left : ℕ) (xs : List ℕ)
    → revocation_domain_max_v1 < handle
    → Ascending left xs
    → (contains handle xs ≡ true) ⊎ (revocation_domain_max_v1 < left)
    → All (λ g. contains g.right xs ≡ true) (gaps_from Signature sign left xs)
unfolding gaps_from contains Ascending
gaps_from-right {Signature = Signature} sign handle left [] above s (inl c) = absurd (cc c)
gaps_from-right {Signature = Signature} sign handle left [] above s (inr beyond) =
    let past : ltb left revocation_domain_max_v1 ≡ false = ground arith in rw past tt
gaps_from-right {Signature = Signature} sign handle left (x ∷ xs) above s reach =
    let later =
      All-imp _ _ (λ g c. or_true (g.right == x) (contains g.right xs) c)
        (gaps_from Signature sign x xs)
        (gaps_from-right sign handle x xs above s.1 (onward reach)) in
    elim (Bool-cases (ltb (saturating_add left 1) x)) [
      | inl t ↦ rw t (ground arith, later)
      | inr f ↦ rw f later
    ]
  where
    onward :
        (contains handle (x ∷ xs) ≡ true) ⊎ (revocation_domain_max_v1 < left)
        → (contains handle xs ≡ true) ⊎ (revocation_domain_max_v1 < x)
    onward (inr beyond) = inr (omega (arith, s.0))
    onward (inl c) = elim (Bool-cases (handle == x)) [
      | inl t ↦ inr (ground arith)
      | inr f ↦ inl (rw f at c)
    ]

module _ {Signature : Type 0} (list : SignedRevocationList Signature) (emax : ℕ)
    (g : SignedRevocationGap Signature) where
  was_ok :
      (o : Option (SignedRevocationGap Signature)) (e : ActError)
      → ok_or Signature o e ≡ ok g
      → o ≡ some g
  was_ok none e h = absurd (cc h)
  was_ok (some x) e h = cc h

  find-find_gap :
      find_gap Signature list emax ≡ ok g → find (inside Signature emax) list.gaps ≡ some g
  unfolding find_gap
  find-find_gap h = elim (Bool-cases (is_blacklisted Signature list emax)) [
    | inl t ↦ absurd (cc (rw t at h))
    | inr f ↦ was_ok _ _ (rw f at h)
  ]

-- No handle of a list is in the domain from a number on.
unfoldable pub Uppermost : ℕ → List ℕ → Type 0
Uppermost emax handles =
    (b : ℕ) → contains b handles ≡ true → (b < emax) ⊎ (revocation_domain_max_v1 < b)

Uppermost-contains :
    (emax : ℕ) (handles : List ℕ)
    → emax < revocation_domain_max_v1
    → Uppermost emax handles
    → contains emax handles ≡ false
unfolding Uppermost
Uppermost-contains emax handles upper top = elim (Bool-cases (contains emax handles)) [
  | inr f ↦ f
  | inl t ↦ elim (top emax t) [ inl low ↦ absurd (omega arith) | inr high ↦ absurd (omega arith) ]
]

-- The gap that such a number is in ends above the domain, if a handle is above the domain.
found_right :
    {Signature : Type 0} (sign : ℕ → ℕ → Signature) (ctx : RevocationContext) (blacklisted : List ℕ)
    (handle emax : ℕ) (g : SignedRevocationGap Signature)
    → contains handle blacklisted ≡ true
    → revocation_domain_max_v1 < handle
    → Uppermost emax blacklisted
    → emax < g.right
    → find_gap Signature (sign_blacklist Signature ctx sign blacklisted) emax ≡ ok g
    → revocation_domain_max_v1 < g.right
unfolding sign_blacklist Uppermost
found_right {Signature = Signature} sign ctx blacklisted handle emax g listed above top upper h =
    let handles = dedup (sort_unstable blacklisted) in
    let ends =
      gaps_from-right sign handle 0 handles above (dedup-sort_unstable-Ascending blacklisted)
        (inl (contains-dedup-sort_unstable handle blacklisted ∙ listed)) in
    let found = find-find_gap (sign_blacklist Signature ctx sign blacklisted) emax g h in
    let (member, _) = find-All sign _ _ _ g ends found in
    elim (top g.right (sym (contains-dedup-sort_unstable g.right blacklisted) ∙ member)) [
      | inl low ↦ absurd (omega arith)
      | inr high ↦ high
    ]

module _ (bls : Bls) (dalek : Dalek) (pair : Pairing bls) (ranges : MultiRange dalek) where
  open bls use {Point, Scalar}

  -- With a handle above 2 ^ 32 - 1 on the blacklist, the holder of an expiry strictly between 0 and
  -- 2 ^ 32 - 1 is refused if no blacklisted handle is between that expiry and 2 ^ 32 - 1, both
  -- included.
  pub witness_inputs_out_of_domain :
      (sign : ℕ → ℕ → Point × Point) (ctx : RevocationContext)
      (d : RevocationDraws bls dalek pair ranges) (blacklisted : List ℕ) (handle emax : ℕ)
      (r1 : dalek.Scalar) (r2 : Scalar)
      → contains handle blacklisted ≡ true
      → revocation_domain_max_v1 < handle
      → Uppermost emax blacklisted
      → 0 < emax
      → emax < revocation_domain_max_v1
      → witness_inputs bls dalek pair ranges d
          (sign_blacklist (Point × Point) ctx sign blacklisted)
          emax
          r1
          r2
        ≡ failed
            (protocol_error (codes "revocation proof v1 supports Emax/gap endpoints <= u32::MAX"))
  unfolding witness_inputs
  witness_inputs_out_of_domain sign ctx d blacklisted handle emax r1 r2 listed above top lower
        upper =
      let list = sign_blacklist (Point × Point) ctx sign blacklisted in
      let (g, found, _, right, _, _, _) =
        find_gap-sign_blacklist sign ctx blacklisted emax lower upper
          (Uppermost-contains emax blacklisted upper top) in
      let outside = found_right sign ctx blacklisted handle emax g listed above top right found in
      rw (found, refused emax g.left g.right list.ctx.now_unix outside) refl
