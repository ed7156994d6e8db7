-- ===== src/Prelude/Outcome.antt =====
-- Fallible code that may also panic: a value, an error, or `panic`.
use mathlib.Core.Bool.{Bool, true, false}
use mathlib.Core.Option.{Option, none, some}
use ebutv.Prelude.Results.{Result, ok, err}
use ebutv.Server.Store.{ActError}

pub data Outcome (A : Type 0) : Type 0 where
  done : A → Outcome A
  failed : ActError → Outcome A
  panic : Outcome A

infixl 5 ◌>>=◌ ◌>>◌
abbrev pub ◌>>=◌ : {A B : Type 0} → Outcome A → (A → Outcome B) → Outcome B
done a >>= f = f a
failed e >>= f = failed e
panic >>= f = panic

abbrev pub ◌>>◌ : {B : Type 0} → Outcome (Unit {0}) → Outcome B → Outcome B
m >> k = m >>= λ _. k

-- `.expect(..)`, `.unwrap()`
abbrev pub run : {A : Type 0} → Option A → Outcome A
run none = panic
run (some a) = done a

-- `?`
abbrev pub try : {A : Type 0} → Result ActError A → Outcome A
try (ok a) = done a
try (err e) = failed e

-- `if test { return Err(e); }`
abbrev pub fail_if : Bool → ActError → Outcome (Unit {0})
fail_if true e = failed e
fail_if false e = done tt
