-- ===== src/Samples/Minting.antt =====
-- The theorem on minting, applied in a field of two elements.
use ebutv.Prelude.{◌≡◌, refl, Bool, true, false, not, some, [], ◌&&◌}
use ebutv.Prelude.Results.{ok}
use ebutv.Curve.Sample.{parity}
use ebutv.Mint.{Setting, MasterMintRequest, begin_with_x, issue, finalize}
use ebutv.Mint.Signature.{message, begin-issue-finalize}

inverse_law : (d p : Bool) → not d ≡ false → (d && (d && p)) ≡ p
inverse_law true p h = refl
inverse_law false p h = absurd cc

abbrev setting : Setting
setting = record {
  g1 = parity;
  inverse = λ d. d;
  is_zero = not;
  inverse_lem = inverse_law;
  from_number = λ n. true;
  multi_exp = λ ps as'. false;
  write_scalar = λ s. [];
  write_g1 = λ p. [];
  hash_to_scalar = λ bytes. true;
  base = true;
  h = λ i. true;
}

minting_example :
    (request : MasterMintRequest setting) × (a : Bool) × (begin_with_x setting true false true true
        true
      ≡ some request)
    × (issue setting true true request 5 9 false true ≡ some (ok (a, true, true)))
    × (a ≡ message setting true false 5 9)
unfolding finalize
minting_example =
    begin-issue-finalize setting true false true true true true true false 5 9 refl refl
