-- ===== src/Server/Store.antt =====
-- src/server.rs: what the server does with Redis, as a monad of fallible steps on the server's state.
-- Redis is not part of the repository: its commands are an interface, with what its documentation
-- says of them as laws. A command may fail (a lost connection); it may then have run or not.
use Prim.Native.Nat.{ℕ, ◌+◌, ◌<◌}
use mathlib.Core.Path.{◌≡◌, refl, ap}
use mathlib.Core.Logic.{◌≢◌}
use mathlib.Core.Bool.{Bool, true, false}
use mathlib.Core.Option.{Option, some}
use mathlib.Core.List.{List}
use ebutv.Prelude.Results.{Result, ok, err}

abbrev pub Bytes : Type 0
Bytes = List ℕ

-- src/error.rs
pub data ActError : Type 0 where
  invalid_scalar : ActError
  invalid_subgroup : ActError
  verification_failed : Bytes → ActError
  serialization_error : Bytes → ActError
  io_error : Bytes → ActError
  protocol_error : Bytes → ActError
  database_error : Bytes → ActError

-- A step: a result or an error, and the state after it.
abbrev pub Step : Type 0 → Type 0 → Type 0
Step S A = S → Result ActError A × S

abbrev pub then : {S A B : Type 0} → Result ActError A × S → (A → Step S B) → Result ActError B × S
then (ok a, s) f = f a s
then (err e, s) f = (err e, s)

infixl 5 ◌>>=◌ ◌>>◌
unfoldable pub ◌>>=◌ : {S A B : Type 0} → Step S A → (A → Step S B) → Step S B
(m >>= f) s = then (m s) f

abbrev pub ◌>>◌ : {S B : Type 0} → Step S (Unit {0}) → Step S B → Step S B
m >> k = m >>= λ _. k

abbrev pub return : {S A : Type 0} → A → Step S A
return a s = (ok a, s)

abbrev pub fail : {S A : Type 0} → ActError → Step S A
fail e s = (err e, s)

abbrev pub lift : {S A : Type 0} → Result ActError A → Step S A
lift r s = (r, s)

-- `if test { return Err(e); }`
abbrev pub fail_when : {S : Type 0} → Bool → ActError → Step S (Unit {0})
fail_when true e s = (err e, s)
fail_when false e s = (ok tt, s)

-- The commands, on a store that holds sets and strings under keys, where a key may have a time to
-- live. `lasts` and `value` read it. No time passes in a command: `pass` is the time between two.
-- The store is not written to by another program and evicts nothing.
pub record Redis : Type 1 where
  pub Store : Type 0
  pub sadd : Bytes → Bytes → Step Store ℕ
  pub expire : Bytes → ℕ → Step Store (Unit {0})
  pub set_ex : Bytes → Bytes → ℕ → Step Store (Unit {0})
  pub fetch : Bytes → Step Store (Option Bytes)
  -- The script of `verify_and_consume`: EXISTS, then SETEX.
  pub exists : Bytes → Step Store Bool
  pub pass : ℕ → Store → Store
  -- `lasts k m n s`: `m` is in the set under `k`, and `k` has more than `n` seconds to live.
  pub lasts : Bytes → Bytes → ℕ → Store → Bool
  pub value : Bytes → Store → Option Bytes
  -- SADD answers 1 for a new member and 0 for an old one, and the member is in the set then.
  pub sadd_new : (k m : Bytes) (s s' : Store) → sadd k m s ≡ (ok 1, s') → lasts k m 0 s ≡ false
  pub sadd_member :
      (k m : Bytes) (n : ℕ) (s s' : Store) → sadd k m s ≡ (ok n, s') → lasts k m 0 s' ≡ true
  -- SADD takes no member away and leaves the time to live of the keys there are.
  pub sadd_keeps :
      (k m k' m' : Bytes) (n : ℕ) (s : Store)
      → lasts k' m' n s ≡ true
      → lasts k' m' n (sadd k m s).1 ≡ true
  -- EXPIRE sets the time to live of its key, and of no other.
  pub expire_lasts :
      (k m : Bytes) (ttl n : ℕ) (s s' : Store)
      → n < ttl
      → expire k ttl s ≡ (ok tt, s')
      → lasts k m 0 s ≡ true
      → lasts k m n s' ≡ true
  pub expire_keeps :
      (k k' m' : Bytes) (ttl n : ℕ) (s : Store)
      → n < ttl
      → lasts k' m' n s ≡ true
      → lasts k' m' n (expire k ttl s).1 ≡ true
  -- SETEX replaces what is under its key, whatever its type, and leaves the other keys.
  pub set_ex_keeps :
      (k v k' m' : Bytes) (ttl n : ℕ) (s : Store)
      → k ≢ k'
      → lasts k' m' n s ≡ true
      → lasts k' m' n (set_ex k v ttl s).1 ≡ true
  -- A key lives as long as its time to live says.
  pub pass_lasts :
      (k m : Bytes) (t n : ℕ) (s : Store)
      → lasts k m (t + n) s ≡ true
      → lasts k m n (pass t s) ≡ true
  -- GET and EXISTS change nothing; GET answers what is stored.
  pub fetch_state : (k : Bytes) (s : Store) → (fetch k s).1 ≡ s
  pub fetch_value :
      (k : Bytes) (s : Store) (v : Option Bytes) → (fetch k s).0 ≡ ok v → v ≡ value k s
  pub exists_state : (k : Bytes) (s : Store) → (exists k s).1 ≡ s
  -- What SET with an expiry stores is read back.
  pub set_ex_value :
      (k v : Bytes) (ttl : ℕ) (s s' : Store) → set_ex k v ttl s ≡ (ok tt, s') → value k s' ≡ some v

-- A step that keeps a predicate of the state, whatever it answers.
pub record Keeps {S A : Type 0} (P : S → Type 0) (m : Step S A) : Type 0 where
  pub kept : (s : S) → P s → P (m s).1

then-keeps :
    {S A B : Type 0} (P : S → Type 0) (x : Result ActError A × S) (f : A → Step S B)
    → P x.1
    → ((a : A) → Keeps P (f a))
    → P (then x f).1
then-keeps P (ok a, s) f h k = (k a).kept s h
then-keeps P (err e, s) f h k = h

pub >>=-Keeps :
    {S A B : Type 0} (P : S → Type 0) (m : Step S A) (f : A → Step S B)
    → Keeps P m
    → ((a : A) → Keeps P (f a))
    → Keeps P (m >>= f)
unfolding ◌>>=◌
>>=-Keeps P m f h k = record { kept = λ s p. then-keeps P (m s) f (h.kept s p) k }

then-ok :
    {S A B : Type 0} (x : Result ActError A × S) (f : A → Step S B) (b : B) (s' : S)
    → then x f ≡ (ok b, s')
    → (a : A) × (s : S) × (x ≡ (ok a, s)) × (f a s ≡ (ok b, s'))
then-ok (ok a, s) f b s' h = (a, s, refl, h)
then-ok (err e, s) f b s' h = absurd (cc (ap (λ x. x.0) h))

-- A chain that succeeds has a first step that succeeds.
pub >>=-eq-ok :
    {S A B : Type 0} (m : Step S A) (f : A → Step S B) (b : B) (s s' : S)
    → (m >>= f) s ≡ (ok b, s')
    → (a : A) × (t : S) × (m s ≡ (ok a, t)) × (f a t ≡ (ok b, s'))
unfolding ◌>>=◌
>>=-eq-ok m f b s s' h = then-ok (m s) f b s' h

pub fail_when-ok :
    {S : Type 0} (b : Bool) (e : ActError) (s s' : S) (t : Unit {0})
    → fail_when b e s ≡ (ok t, s')
    → (b ≡ false) × (s ≡ s')
fail_when-ok true e s s' t h = absurd (cc (ap (λ x. x.0) h))
fail_when-ok false e s s' t h = (refl, ap (λ x. x.1) h)

pub fail_when-Keeps :
    {S : Type 0} (P : S → Type 0) (b : Bool) (e : ActError) → Keeps P (fail_when b e)
fail_when-Keeps P true e = record { kept = λ s h. h }
fail_when-Keeps P false e = record { kept = λ s h. h }

pub return-Keeps : {S A : Type 0} (P : S → Type 0) (a : A) → Keeps P (return {S = S} a)
return-Keeps P a = record { kept = λ s h. h }

pub lift-Keeps : {S A : Type 0} (P : S → Type 0) (r : Result ActError A) → Keeps P (lift {S = S} r)
lift-Keeps P r = record { kept = λ s h. h }
