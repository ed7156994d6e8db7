-- ===== src/FileBinding/File/Checks.antt =====
-- src/file_binding.rs: the order of the tests of verify_private_file_proof.
use ebutv.Prelude.{
  ℕ, ◌≤◌, ◌<◌, ◌≡◌, refl, inl, inr, Bool, true, false, ◌&&◌, ◌||◌, not, Option, some, List, arith,
  ltb, if◌then◌else◌, length, is_empty, Bool-cases,
}
use ebutv.Prelude.Options.{◌>>=◌}
use ebutv.FileBinding.Private.Batch.{occupied}

-- The verifier's ladder of checks.
pub passes :
    (same_id same_root version bad_size many empty : Bool) (sampled : Option (List ℕ))
    (expected : List ℕ) (check : List ℕ → Bool) (proof : Bool)
    → same_id ≡ true
    → same_root ≡ true
    → version ≡ true
    → bad_size ≡ false
    → many ≡ false
    → empty ≡ false
    → sampled ≡ some expected
    → check expected ≡ true
    → proof ≡ true
    → (if not same_id || not same_root
        then some false
        else (if not version
            then some false
            else (if bad_size
                then some false
                else (if many
                    then some false
                    else (if empty
                        then some false
                        else (sampled >>= λ e. some (if not (check e) then false else proof)))))))
      ≡ some true
passes _ _ _ _ _ _ _ expected check _ h1 h2 h3 h4 h5 h6 h7 h8 h9 =
    rw (h1, h2, h3, h4, h5, h6, h7, h8, h9) refl

pub ltb_no : (a b : ℕ) → b ≤ a → ltb a b ≡ false
ltb_no a b h = ground arith

pub nonempty : {A : Type 0} (n : ℕ) (xs : List A) → 0 < length xs → (ltb 0 n && is_empty xs) ≡ false
nonempty n xs h = elim (Bool-cases (ltb 0 n)) [
  | inl e ↦ rw (e, occupied xs h) refl
  | inr e ↦ rw e refl
]
