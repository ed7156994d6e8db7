-- ===== src/Samples/Bridge.antt =====
-- The theorem on the two commitments to one secret, applied to residues on both curves.
use ebutv.Prelude.{
  ℕ, ◌*◌, ◌%◌, ◌<◌, ◌≡◌, refl, sym, ap, ◌∙◌, arith, some, List, replicate, All-replicate,
}
use native.Mathlib.Nat.{mod-eq_of_lt, add-mod, add-mod_right}
use ebutv.Prelude.Outcome.{done}
use ebutv.Prelude.Results.{ok}
use ebutv.Prelude.Text.{to_le_bytes, from_le_bytes}
use ebutv.Limbs.Value.{from_le_bytes-to_le_bytes}
use ebutv.Dalek.{Dalek, order_25519}
use ebutv.SameX.{SameXStatement, SameXProof, SameXDraws, validate_statement, prove, verify}
use ebutv.SameX.Complete.{same_x_verify-same_x_prove}
use ebutv.Samples.Residues.Modulo
use ebutv.Samples.Residues.{residue, plus, times}
use ebutv.Samples.Groups.{bls_residues}

pub above_one : 1 < order_25519
above_one = omega arith

abbrev pub Residue : Type 0
Residue = Modulo.Residue order_25519 above_one

abbrev pub number : ℕ → Residue
number = Modulo.residue order_25519 above_one

pub number-bytes : (s : Residue) → number (from_le_bytes (to_le_bytes 32 s.0)) ≡ s
number-bytes s =
    Modulo.residue_ext order_25519 above_one (number (from_le_bytes (to_le_bytes 32 s.0))) s (
      ap (λ t. t % order_25519) (from_le_bytes-to_le_bytes 32 s.0 (omega (arith, s.1)))
      ∙ mod-eq_of_lt s.1)

pub number_mul :
    (a b : ℕ) → number (a * b) ≡ Modulo.times order_25519 above_one (number a) (number b)
number_mul a b = Modulo.residue_ext order_25519 above_one _ _ (
    sym (
      Modulo.product-mod_left order_25519 a (b % order_25519)
      ∙ Modulo.product-mod_right order_25519 a b))

abbrev pub dalek_residues : Dalek
dalek_residues = record {
  ristretto = record {
    curve = Modulo.curve order_25519 above_one;
    basepoint = number 1;
    compress = λ p. to_le_bytes 32 p.0;
    decompress = λ bytes. some (number (from_le_bytes bytes));
    from_uniform_bytes = λ bytes. number (from_le_bytes bytes);
    from_bytes_mod_order_wide = λ bytes. number (from_le_bytes bytes);
  };
  blinding_base = number 2;
  embed = number;
  from_bytes_mod_order = λ bytes. number (from_le_bytes bytes);
  to_bytes = λ s. to_le_bytes 32 s.0;
  embed_add = λ a b. Modulo.residue_ext order_25519 above_one _ _ (add-mod a b order_25519);
  embed_mul = number_mul;
  embed_one = refl;
  embed_order = λ a. Modulo.residue_ext order_25519 above_one _ _ (add-mod_right a order_25519);
  from_bytes_mod_order_lem = λ bytes. refl;
  from_bytes_mod_order_wide_lem = λ bytes len. refl;
  from_bytes_mod_order-to_bytes = number-bytes;
  decompress-compress = λ p. ap some (number-bytes p);
  Draws = Unit {0};
  RangeProof = Unit {0};
  range_proof_to_bytes = λ proof. to_le_bytes 1 0;
  range_proof_from_bytes = λ bytes. ok tt;
  prove_single = λ draws capacity transcript m r bits. ok tt;
  verify_single = λ proof capacity transcript bytes bits. ok tt;
  range_proof_from_bytes-to_bytes = λ proof. refl;
  verify_single-prove_single =
      λ draws capacity transcript m r bits kind room fits. (tt, refl, refl);
}

abbrev secret : List ℕ
secret = replicate 31 9

abbrev draws : SameXDraws bls_residues dalek_residues
draws = record { u_bytes = replicate 48 7; alpha_bls = residue 3; alpha_rist = number 4 }

abbrev statement : SameXStatement bls_residues dalek_residues
statement = record {
  bls_x_base = residue 2;
  bls_blind_base = residue 3;
  bls_x_commitment =
      plus (times (residue (from_le_bytes secret)) (residue 2)) (times (residue 5) (residue 3));
  ristretto_x_base = number 2;
  ristretto_blind_base = number 3;
  ristretto_x_commitment =
      Modulo.plus order_25519 above_one
        (Modulo.times order_25519 above_one (number (from_le_bytes secret)) (number 2))
        (Modulo.times order_25519 above_one (number 6) (number 3));
}

valid : validate_statement bls_residues dalek_residues statement ≡ done tt
unfolding validate_statement from_le_bytes
valid = refl

same_x_example :
    (proof : SameXProof bls_residues dalek_residues) × (prove bls_residues dalek_residues draws
        (replicate 5 1)
        secret
        (residue 5)
        (number 6)
        statement
      ≡ done proof)
    × (verify bls_residues dalek_residues proof (replicate 5 1) statement ≡ done tt)
same_x_example =
    same_x_verify-same_x_prove bls_residues dalek_residues draws (replicate 5 1) secret (residue 5)
      (number 6) statement refl (All-replicate (λ b. b < 256) 48 7 (omega arith)) refl
      (All-replicate (λ b. b < 256) 31 9 (omega arith)) valid refl refl
