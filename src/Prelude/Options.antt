-- ===== src/Prelude/Options.antt =====
-- Code that may panic or run out of fuel, as a chain of options.
use mathlib.Core.Path.{◌≡◌}
use mathlib.Core.Bool.{Bool, true, false}
use mathlib.Core.Option.{Option, none, some}
use ebutv.Prelude.Results.{Result, ok, err}

infixl 5 ◌>>=◌ ◌>>◌
abbrev pub ◌>>=◌ : {A B : Type 0} → Option A → (A → Option B) → Option B
none >>= f = none
some a >>= f = f a

abbrev pub ◌>>◌ : {B : Type 0} → Option (Unit {0}) → Option B → Option B
m >> k = m >>= λ _. k

-- `assert!(test)`
abbrev pub assert : Bool → Option (Unit {0})
assert true = some tt
assert false = none

-- `result.expect(..)`
abbrev pub expect : {E A : Type 0} → Result E A → Option A
expect (ok a) = some a
expect (err e) = none

-- What holds of a result holds of the value that it is known to be.
pub some_transport : {A : Type 0} (P : A → Type 0) (a b : A) → some a ≡ some b → P a → P b
some_transport P a b h p = let e : a ≡ b = cc in rw e at p
