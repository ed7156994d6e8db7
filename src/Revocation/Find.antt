-- ===== src/Revocation/Find.antt =====
-- src/revocation.rs: what `find_gap` answers on a signed list.
use ebutv.Prelude.{
  ℕ, ◌+◌, ◌^◌, ◌<◌, ◌≤◌, ◌≡◌, ◌⊎◌, inl, inr, refl, sym, ◌∙◌, arith, Bool, true, false, ◌&&◌, ◌||◌,
  some, List, [], ◌∷◌, leb, ltb, All, Bool-cases, ◌==◌,
}
use mathlib.Core.Option.{some-injective}
use ebutv.Prelude.Results.{ok, err}
use ebutv.Prelude.Text.{codes}
use ebutv.Server.Store.{verification_failed}
use ebutv.Revocation.{
  RevocationContext, revocation_domain_max_v1, sort_unstable, dedup, contains, saturating_add, find,
  inside, SignedRevocationGap, gaps_from, sign_blacklist, is_blacklisted, find_gap,
}
use ebutv.Revocation.Gaps.{
  Ascending, contains-Ascending, contains-dedup-sort_unstable, dedup-sort_unstable-Ascending,
}
use ebutv.Revocation.Search.{binary_search_lem}

pub or_true : (b c : Bool) → c ≡ true → b || c ≡ true
or_true b c h = ground arith

-- The end of the domain, or a handle of the list.
unfoldable pub IsEnd : ℕ → List ℕ → Type 0
IsEnd right handles = (right ≡ revocation_domain_max_v1) ⊎ (contains right handles ≡ true)

-- No handle of a list lies strictly inside.
unfoldable pub Clear : ℕ → ℕ → List ℕ → Type 0
Clear left right handles = (b : ℕ) → contains b handles ≡ true → (b ≤ left) ⊎ (right ≤ b)

pub nonempty : (left e x : ℕ) → left < e → e < x → ltb (saturating_add left 1) x ≡ true
unfolding saturating_add
nonempty left e x lower upper = elim (Bool-cases (leb (2 ^ 64) (left + 1))) [
  | inl t ↦ rw t (ground arith)
  | inr f ↦ rw f (ground arith)
]

pub within : (left e x : ℕ) → left < e → e < x → ltb left e && ltb e x ≡ true
within left e x lower upper = ground arith

beyond : (left e x : ℕ) → ltb e x ≡ false → ltb left e && ltb e x ≡ false
beyond left e x h = ground arith

pub All-imp :
    {A : Type 0} (P Q : A → Type 0) → ((a : A) → P a → Q a) → (xs : List A) → All P xs → All Q xs
All-imp P Q f [] h = tt
All-imp P Q f (a ∷ xs) h = (f a h.0, All-imp P Q f xs h.1)

module _ {Signature : Type 0} (sign : ℕ → ℕ → Signature) where
  -- A gap of a list: signed, starting at `left` or later, and clear of the handles.
  IsGap : ℕ → List ℕ → SignedRevocationGap Signature → Type 0
  IsGap left handles g =
      (left ≤ g.left)
      × Clear g.left g.right handles
      × (g.signature ≡ sign g.left g.right)
      × IsEnd g.right handles

  later :
      (left x : ℕ) (xs : List ℕ) (gs : List (SignedRevocationGap Signature))
      → left ≤ x
      → All (IsGap x xs) gs
      → All (IsGap left (x ∷ xs)) gs
  unfolding IsGap Clear IsEnd contains
  later left x xs [] h a = tt
  later left x xs (g ∷ gs) h a = (
    (
      omega (arith, a.0.0),
      (λ b c. elim (Bool-cases (b == x)) [
        | inl t ↦ inl (ground (arith, a.0.0))
        | inr f ↦ a.0.1 b (rw f at c)
      ]),
      a.0.2,
      elim a.0.3 [
        | inl top ↦ inl top
        | inr c ↦ inr (or_true (g.right == x) (contains g.right xs) c)
      ],
    ),
    later left x xs gs h a.1,
  )

  gaps_from-All :
      (left : ℕ) (xs : List ℕ)
      → Ascending left xs
      → All (IsGap left xs) (gaps_from Signature sign left xs)
  unfolding gaps_from IsGap Clear IsEnd contains Ascending
  gaps_from-All left [] s =
      elim (Bool-cases (
        ltb left revocation_domain_max_v1
        && ltb (saturating_add left 1) revocation_domain_max_v1)) [
          | inl t ↦ rw t ((omega arith, (λ b c. ground arith), refl, inl refl), tt)
          | inr f ↦ rw f tt
        ]
  gaps_from-All left (x ∷ xs) s =
      let rest = later left x xs _ s.0 (gaps_from-All x xs s.1) in
      elim (Bool-cases (ltb (saturating_add left 1) x)) [
        | inl t ↦ rw t (
          (
            omega arith,
            (λ b c. inr (contains-Ascending x b (x ∷ xs) (omega arith, s.1) c)),
            refl,
            inr (ground arith),
          ),
          rest,
        )
        | inr f ↦ rw f rest
      ]

  -- What a search finds in the gaps from `left` on, for a number above it that is no handle.
  Found : ℕ → List (SignedRevocationGap Signature) → Type 0
  Found e gs = (g : SignedRevocationGap Signature) × (find (inside Signature e) gs ≡ some g)

  find-gaps_from :
      (e left : ℕ) (xs : List ℕ)
      → left < e
      → e < revocation_domain_max_v1
      → contains e xs ≡ false
      → Found e (gaps_from Signature sign left xs)
  unfolding gaps_from Found find inside contains
  find-gaps_from e left [] lower upper absent =
      let below : ltb left revocation_domain_max_v1 ≡ true = ground arith in
      (
        record {
          left = left;
          right = revocation_domain_max_v1;
          signature = sign left revocation_domain_max_v1;
        },
        rw (below, nonempty left e revocation_domain_max_v1 lower upper)
            (rw (within left e revocation_domain_max_v1 lower upper) refl),
      )
  find-gaps_from e left (x ∷ xs) lower upper absent = elim (Bool-cases (ltb e x)) [
    | inl t ↦
        let here : e < x = ground arith in
        (
          record { left = left; right = x; signature = sign left x },
          rw (nonempty left e x lower here) (rw (within left e x lower here) refl),
        )
    | inr f ↦
        let found : Found e (gaps_from Signature sign x xs) =
          find-gaps_from e x xs (ground arith) upper (ground arith) in
        (
          found.0,
          elim (Bool-cases (ltb (saturating_add left 1) x)) [
            | inl pushed ↦ rw pushed (rw (beyond left e x f) found.1)
            | inr skipped ↦ rw skipped found.1
          ],
        )
  ]

  pub find-All :
      (P : SignedRevocationGap Signature → Type 0) (test : SignedRevocationGap Signature → Bool)
      (gs : List (SignedRevocationGap Signature)) (g : SignedRevocationGap Signature)
      → All P gs
      → find test gs ≡ some g
      → P g × (test g ≡ true)
  unfolding find
  find-All P test [] g a h = absurd cc
  find-All P test (x ∷ gs) g a h = elim (Bool-cases (test x)) [
    | inl t ↦ let e : x ≡ g = some-injective x g (rw t at h) in (rw e at a.0, rw e at t)
    | inr f ↦ find-All P test gs g a.1 (rw f at h)
  ]

  -- No gap that is signed has a blacklisted handle strictly inside it, each gap carries the signature
  -- on its two ends, and its right end is blacklisted or the end of the domain.
  pub sign_blacklist-Clear :
      (ctx : RevocationContext) (blacklisted : List ℕ)
      → All
          (λ g.
            Clear g.left g.right blacklisted
            × (g.signature ≡ sign g.left g.right)
            × IsEnd g.right blacklisted)
          (sign_blacklist Signature ctx sign blacklisted).gaps
  unfolding sign_blacklist Clear IsGap IsEnd
  sign_blacklist-Clear ctx blacklisted =
      let handles = dedup (sort_unstable blacklisted) in
      All-imp _ _
        (λ g h. (
          (λ b c. h.1 b (contains-dedup-sort_unstable b blacklisted ∙ c)),
          h.2,
          elim h.3 [
            | inl top ↦ inl top
            | inr c ↦ inr (sym (contains-dedup-sort_unstable g.right blacklisted) ∙ c)
          ],
        ))
        (gaps_from Signature sign 0 handles)
        (gaps_from-All 0 handles (dedup-sort_unstable-Ascending blacklisted))

  -- For a number strictly between 0 and 2 ^ 32 - 1 that is not blacklisted, the search finds a gap
  -- that holds the number strictly inside, has no blacklisted handle strictly inside, carries the
  -- signature on its ends, and ends at a blacklisted handle or at the end of the domain.
  pub find_gap-sign_blacklist :
      (ctx : RevocationContext) (blacklisted : List ℕ) (emax : ℕ)
      → 0 < emax
      → emax < revocation_domain_max_v1
      → contains emax blacklisted ≡ false
      → (g : SignedRevocationGap Signature) × (find_gap Signature
            (sign_blacklist Signature ctx sign blacklisted)
            emax
          ≡ ok g)
        × (g.left < emax)
        × (emax < g.right)
        × Clear g.left g.right blacklisted
        × (g.signature ≡ sign g.left g.right)
        × IsEnd g.right blacklisted
  unfolding find_gap is_blacklisted sign_blacklist inside Found
  find_gap-sign_blacklist ctx blacklisted emax lower upper absent =
      let handles = dedup (sort_unstable blacklisted) in
      let order = dedup-sort_unstable-Ascending blacklisted in
      let same : contains emax handles ≡ false =
        contains-dedup-sort_unstable emax blacklisted ∙ absent in
      let found : Found emax (gaps_from Signature sign 0 handles) =
        find-gaps_from emax 0 handles lower upper same in
      let facts = find-All _ _ _ found.0 (sign_blacklist-Clear ctx blacklisted) found.1 in
      (
        found.0,
        rw (binary_search_lem handles emax order, same, found.1) refl,
        ground (arith, facts.1),
        ground (arith, facts.1),
        facts.0.0,
        facts.0.1,
        facts.0.2,
      )

  -- A blacklisted number is refused.
  pub find_gap_blacklisted :
      (ctx : RevocationContext) (blacklisted : List ℕ) (emax : ℕ)
      → contains emax blacklisted ≡ true
      → find_gap Signature (sign_blacklist Signature ctx sign blacklisted) emax
        ≡ err (verification_failed (codes "Emax is blacklisted"))
  unfolding find_gap is_blacklisted sign_blacklist
  find_gap_blacklisted ctx blacklisted emax present =
      let order = dedup-sort_unstable-Ascending blacklisted in
      rw
        (
          binary_search_lem (dedup (sort_unstable blacklisted)) emax order,
          contains-dedup-sort_unstable emax blacklisted,
          present,
        )
        refl
