-- ===== src/Prelude/Loops.antt =====
-- `for i in 0..n`, and its invariant rule.
use Prim.Native.Nat.{ℕ, zero, suc, ◌<◌}
use native.Mathlib.Omega.{arith}

-- The rounds 0, 1, …, n - 1 in turn: the last round is the outermost call.
unfoldable pub for_below {ℓ} : {S : Type ℓ} → ℕ → (ℕ → S → S) → S → S
for_below zero body s = s
for_below (suc n) body s = body n (for_below n body s)

pub for_below-inv {ℓ κ} :
    {S : Type ℓ} (P : ℕ → S → Type κ) (n : ℕ) (body : ℕ → S → S) (s : S)
    → P 0 s
    → ((i : ℕ) (t : S) → i < n → P i t → P (suc i) (body i t))
    → P n (for_below n body s)
unfolding for_below
for_below-inv P zero body s start keep = start
for_below-inv P (suc n) body s start keep =
    keep n (for_below n body s) (omega arith)
      (for_below-inv P n body s start (λ i t h. keep i t (omega arith)))
