-- ===== src/Samples/Database.antt =====
-- A store for the server's samples that is two lists: the members of the sets, with what their keys
-- have to live, and the values.
use ebutv.Prelude.{
  ℕ, ◌+◌, ◌-◌, ◌<◌, ◌≡◌, ◌≢◌, refl, sym, ap, ◌∙◌, arith, inl, inr, Bool, true, false, ◌&&◌, ◌||◌,
  Option, none, some, List, [], ◌∷◌, if◌then◌else◌, ltb, Bool-cases, bytes_eq, bytes_eq_refl,
}
use ebutv.Prelude.Lists.{bytes_eq→eq}
use ebutv.Prelude.Results.{Result, ok}
use ebutv.Server.Store.{Bytes, ActError, Redis, Step}

abbrev pub Pairs : Type 0
Pairs = List (Bytes × Bytes)

-- A key, a member of its set, and the seconds that the key has to live.
abbrev pub Entries : Type 0
Entries = List (Bytes × Bytes × Option ℕ)

abbrev pub Lists : Type 0
Lists = Entries × Pairs

abbrev pub longer : ℕ → Option ℕ → Bool
longer n none = true
longer n (some life) = ltb n life

abbrev pub has : Bytes → Bytes → ℕ → Entries → Bool
has k m n [] = false
has k m n ((k', m', life) ∷ entries) =
    (bytes_eq k k' && (bytes_eq m m' && longer n life)) || has k m n entries

-- A key that is dead stays dead.
abbrev pub renew : Bytes → ℕ → Bytes → Option ℕ → Option ℕ
renew k ttl k' life = if bytes_eq k k' && longer 0 life then some ttl else life

abbrev pub renew_all : Bytes → ℕ → Entries → Entries
renew_all k ttl [] = []
renew_all k ttl ((k', m', life) ∷ entries) = (k', m', renew k ttl k' life) ∷ renew_all k ttl entries

abbrev pub remove : Bytes → Entries → Entries
remove k [] = []
remove k ((k', m', life) ∷ entries) =
    let rest = remove k entries in if bytes_eq k k' then rest else (k', m', life) ∷ rest

abbrev pub older : ℕ → Option ℕ → Option ℕ
older t none = none
older t (some life) = some (life - t)

abbrev pub older_all : ℕ → Entries → Entries
older_all t [] = []
older_all t ((k', m', life) ∷ entries) = (k', m', older t life) ∷ older_all t entries

abbrev pub look_up : Bytes → Pairs → Option Bytes
look_up k [] = none
look_up k ((k', v) ∷ pairs) = if bytes_eq k k' then some v else look_up k pairs

abbrev pub is_there : Option Bytes → Bool
is_there none = false
is_there (some v) = true

abbrev pub add_entry : Bytes → Bytes → Step Lists ℕ
add_entry k m (sets, values) =
    if has k m 0 sets then (ok 0, (sets, values)) else (ok 1, ((k, m, none) ∷ sets, values))

pub ok_injective : {A : Type 0} {a b : A} → ◌≡◌ {A = Result ActError A} (ok a) (ok b) → a ≡ b
ok_injective h = cc

pub add_new : (k m : Bytes) (s s' : Lists) → add_entry k m s ≡ (ok 1, s') → has k m 0 s.0 ≡ false
add_new k m (sets, values) s' h = elim (Bool-cases (has k m 0 sets)) [
  | inr e ↦ e
  | inl e ↦ let bad : ok 0 ≡ ok 1 = ap (λ x. x.0) (rw e at h) in absurd (cc bad)
]

pub add_member :
    (k m : Bytes) (n : ℕ) (s s' : Lists) → add_entry k m s ≡ (ok n, s') → has k m 0 s'.0 ≡ true
add_member k m n (sets, values) s' h = elim (Bool-cases (has k m 0 sets)) [
  | inl e ↦ let same = ap (λ x. has k m 0 x.1.0) (rw e at h) in cc
  | inr e ↦
      let same = ap (λ x. has k m 0 x.1.0) (rw e at h) in
      sym (rw (bytes_eq_refl k, bytes_eq_refl m) at same)
]

pub add_keeps :
    (k m k' m' : Bytes) (n : ℕ) (s : Lists)
    → has k' m' n s.0 ≡ true
    → has k' m' n (add_entry k m s).1.0 ≡ true
add_keeps k m k' m' n (sets, values) h = elim (Bool-cases (has k m 0 sets)) [
  | inl e ↦ rw e h
  | inr e ↦ rw (e, h) (ground (arith))
]

or_map :
    (a b c d : Bool) → (a ≡ true → c ≡ true) → (b ≡ true → d ≡ true) → a || b ≡ true → c || d ≡ true
or_map true b c d f g h = rw (f refl) refl
or_map false true c d f g h = rw (g refl) (ground arith)
or_map false false c d f g h = absurd (cc h)

and_map :
    (k m a b : Bool)
    → (k ≡ true → a ≡ true → b ≡ true)
    → k && (m && a) ≡ true
    → k && (m && b) ≡ true
and_map true true a b f h = f refl h
and_map true false a b f h = h
and_map false m a b f h = h

longer-renew :
    (k k' : Bytes) (ttl n : ℕ) (life : Option ℕ)
    → n < ttl
    → longer n life ≡ true
    → longer n (renew k ttl k' life) ≡ true
longer-renew k k' ttl n life less h = elim (Bool-cases (bytes_eq k k' && longer 0 life)) [
  | inl e ↦ rw e (ground arith)
  | inr e ↦ rw e h
]

pub renew_keeps :
    (k k' m' : Bytes) (ttl n : ℕ) (entries : Entries)
    → n < ttl
    → has k' m' n entries ≡ true
    → has k' m' n (renew_all k ttl entries) ≡ true
renew_keeps k k' m' ttl n [] less = λ h. h
renew_keeps k k' m' ttl n ((k2, m2, life) ∷ entries) less =
    or_map _ _ _ _
      (and_map (bytes_eq k' k2) (bytes_eq m' m2) _ _ (λ e. longer-renew k k2 ttl n life less))
      (renew_keeps k k' m' ttl n entries less)

pub renew_lasts :
    (k m : Bytes) (ttl n : ℕ) (entries : Entries)
    → n < ttl
    → has k m 0 entries ≡ true
    → has k m n (renew_all k ttl entries) ≡ true
renew_lasts k m ttl n [] less = λ h. h
renew_lasts k m ttl n ((k2, m2, life) ∷ entries) less =
    or_map _ _ _ _
      (and_map (bytes_eq k k2) (bytes_eq m m2) _ _ (λ same alive. rw (same, alive) (ground arith)))
      (renew_lasts k m ttl n entries less)

pub remove_keeps :
    (k k' m' : Bytes) (n : ℕ) (entries : Entries)
    → k ≢ k'
    → has k' m' n entries ≡ true
    → has k' m' n (remove k entries) ≡ true
remove_keeps k k' m' n [] other h = h
remove_keeps k k' m' n ((k2, m2, life) ∷ entries) other h =
    let rest = remove_keeps k k' m' n entries other in
    elim (Bool-cases (bytes_eq k k2)) [
      | inr e ↦ rw e (or_map _ _ _ _ (λ x. x) rest h)
      | inl e ↦ rw e (elim (Bool-cases (bytes_eq k' k2)) [
        | inr f ↦ rest (rw f at h)
        | inl f ↦ absurd (other (bytes_eq→eq k k2 e ∙ sym (bytes_eq→eq k' k2 f)))
      ])
    ]

longer-older :
    (t n : ℕ) (life : Option ℕ) → longer (t + n) life ≡ true → longer n (older t life) ≡ true
longer-older t n none h = h
longer-older t n (some life) h = ground arith

pub older_lasts :
    (k m : Bytes) (t n : ℕ) (entries : Entries)
    → has k m (t + n) entries ≡ true
    → has k m n (older_all t entries) ≡ true
older_lasts k m t n [] = λ h. h
older_lasts k m t n ((k2, m2, life) ∷ entries) =
    or_map _ _ _ _ (and_map (bytes_eq k k2) (bytes_eq m m2) _ _ (λ e. longer-older t n life))
      (older_lasts k m t n entries)

abbrev pub lists : Redis
lists = record {
  Store = Lists;
  sadd = add_entry;
  expire = λ k ttl s. (ok tt, (renew_all k ttl s.0, s.1));
  set_ex = λ k v ttl s. (ok tt, (remove k s.0, (k, v) ∷ s.1));
  fetch = λ k s. (ok (look_up k s.1), s);
  exists = λ k s. (ok (is_there (look_up k s.1)), s);
  pass = λ t s. (older_all t s.0, s.1);
  lasts = λ k m n s. has k m n s.0;
  value = λ k s. look_up k s.1;
  sadd_new = add_new;
  sadd_member = add_member;
  sadd_keeps = add_keeps;
  expire_lasts = λ k m ttl n s s' less h there.
      rw (ap (λ x. x.1.0) h) at (renew_lasts k m ttl n s.0 less there);
  expire_keeps = λ k k' m' ttl n s less h. renew_keeps k k' m' ttl n s.0 less h;
  set_ex_keeps = λ k v k' m' ttl n s other h. remove_keeps k k' m' n s.0 other h;
  pass_lasts = λ k m t n s h. older_lasts k m t n s.0 h;
  fetch_state = λ k s. refl;
  fetch_value = λ k s v h. sym (ok_injective h);
  exists_state = λ k s. refl;
  set_ex_value = λ k v ttl s s' h.
      sym (ap (λ x. look_up k x.1.1) h)
      ∙ ap (λ b. if b then some v else look_up k s.1) (bytes_eq_refl k);
}
