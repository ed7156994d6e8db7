-- ===== src/Samples/Groups.antt =====
-- The interfaces of the curve libraries, on the residues and on a group of one element.
use ebutv.Prelude.{
  ℕ, ◌-◌, ◌%◌, ◌<◌, ◌≡◌, refl, sym, ap, ◌∙◌, arith, true, false, ◌&&◌, not, Option, none, some,
  List, ◌==◌, ltb, if◌then◌else◌, length, replicate, length-replicate, All-replicate,
}
use ebutv.Prelude.Results.{ok}
use ebutv.Prelude.Text.{to_le_bytes, from_le_bytes}
use native.Mathlib.Nat.{mod-eq_of_lt, add-mod, add-mod_right}
use ebutv.Limbs.Value.{length-to_le_bytes, from_le_bytes-to_le_bytes, to_le_bytes-All}
use ebutv.Curve.{Curve}
use ebutv.Msm.{fold_products}
use ebutv.Bls.{Bls, order}
use ebutv.Dalek.{Dalek}
use ebutv.V3.Gap.{Pairing}
use ebutv.V3.Prover.{MultiRange}
use ebutv.Samples.Residues.{
  Residue, residue, residue_ext, residues, plus, times, minus, same, same_iff, one-times,
  times_assoc, product-mod_left, product-mod_right,
}

abbrev pub from_bytes : List ℕ → Option Residue
from_bytes bytes =
    if ltb (from_le_bytes bytes) order && length bytes == 32
    then some (residue (from_le_bytes bytes))
    else none

pub from_bytes_law :
    (bytes : List ℕ)
    → length bytes ≡ 32
    → from_le_bytes bytes < order
    → from_bytes bytes ≡ some (residue (from_le_bytes bytes))
from_bytes_law bytes len small =
    let e : ltb (from_le_bytes bytes) order && length bytes == 32 ≡ true = ground arith in rw e refl

value_law : (s : Residue) → from_le_bytes (to_le_bytes 32 s.0) ≡ s.0
value_law s = from_le_bytes-to_le_bytes 32 s.0 (omega (arith, s.1))

pub number_law : (s : Residue) → residue (from_le_bytes (to_le_bytes 32 s.0)) ≡ s
number_law s =
    residue_ext (residue (from_le_bytes (to_le_bytes 32 s.0))) s
      (ap (λ t. t % order) (value_law s) ∙ mod-eq_of_lt s.1)

pub from_bytes-to_bytes : (s : Residue) → from_bytes (to_le_bytes 32 s.0) ≡ some s
from_bytes-to_bytes s =
    from_bytes_law (to_le_bytes 32 s.0) (length-to_le_bytes 32 s.0)
      (omega (arith, s.1, value_law s))
    ∙ ap some (number_law s)

pub inverse_law : (d p : Residue) → not (d.0 == 1) ≡ false → times d (times d p) ≡ p
inverse_law d p h =
    let e : d ≡ residue 1 = residue_ext d (residue 1) (let v : d.0 ≡ 1 = ground arith in v) in
    ap (λ t. times t (times t p)) e ∙ one-times (times (residue 1) p) ∙ one-times p

abbrev pub bls_residues : Bls
bls_residues = record {
  g1 = residues;
  G2 = Residue;
  generator = residue 1;
  generator_g2 = residue 1;
  g2_multiple = λ s. s;
  hash_to_curve = λ tag message. residue 1;
  to_compressed = λ p. to_le_bytes 48 p.0;
  to_compressed_g2 = λ q. to_le_bytes 96 q.0;
  inverse = λ s. s;
  is_zero = λ s. not (s.0 == 1);
  from_number = residue;
  to_bytes_le = λ s. to_le_bytes 32 s.0;
  from_bytes_le = from_bytes;
  multi_exp = λ bases scalars. fold_products residues bases scalars (residue 0);
  pairing_is_one = λ p g q h. same (plus (times g p) (times h q)) (residue 0);
  sha256 = λ bytes. replicate 32 1;
  sha512 = λ bytes. replicate 64 1;
  inverse_lem = inverse_law;
  from_number_zero = refl;
  from_number_one = refl;
  from_number_add = λ a b. residue_ext _ _ (add-mod a b order);
  from_number_mul = λ a b.
      residue_ext _ _ (sym (product-mod_left order a (b % order) ∙ product-mod_right order a b));
  from_number_order = λ a. residue_ext _ _ (add-mod_right a order);
  length-to_bytes_le = λ s. length-to_le_bytes 32 s.0;
  to_bytes_le-All = λ s. to_le_bytes-All 32 s.0;
  from_number-to_bytes_le = number_law;
  from_bytes_le-to_bytes_le = from_bytes-to_bytes;
  from_bytes_le_lem = from_bytes_law;
  multi_exp_lem = λ bases scalars len. refl;
  pairing_lem = λ sk p q. (
    (λ h. ap (plus (times sk p)) (sym (one-times q)) ∙ (same_iff _ _).0 h),
    (λ e. (same_iff _ _).1 (ap (plus (times sk p)) (one-times q) ∙ e)),
  );
  length-sha256 = λ bytes. length-replicate {A = ℕ} 32 1;
  sha256-All = λ bytes. All-replicate (λ b. b < 256) 32 1 (omega arith);
  length-sha512 = λ bytes. length-replicate {A = ℕ} 64 1;
  sha512-All = λ bytes. All-replicate (λ b. b < 256) 64 1 (omega arith);
}

abbrev pub one_point : Curve
one_point = record {
  Point = Unit {0};
  Scalar = Unit {0};
  identity = tt;
  ◌⊕◌ = λ p q. tt;
  ◌⊖◌ = λ p q. tt;
  neg = λ p. tt;
  ◌⊛◌ = λ a p. tt;
  scalar_zero = tt;
  scalar_one = tt;
  ◌⊞◌ = λ a b. tt;
  ◌⊟◌ = λ a b. tt;
  ◌⊠◌ = λ a b. tt;
  negate = λ a. tt;
  point_eq = λ p q. true;
  point_eq_iff = λ p q. ((λ h. refl), (λ h. refl));
  ⊕_assoc = λ p q r. refl;
  ⊕_comm = λ p q. refl;
  identity-⊕ = λ p. refl;
  ⊕-neg = λ p. refl;
  ⊖_lem = λ p q. refl;
  ⊞-⊛ = λ a b p. refl;
  ⊟-⊛ = λ a b p. refl;
  negate-⊛ = λ a p. refl;
  ⊠-⊛ = λ a b p. refl;
  zero-⊛ = λ p. refl;
  one-⊛ = λ p. refl;
  ⊛-⊕ = λ a p q. refl;
  ⊠_comm = λ a b. refl;
}

abbrev pub dalek_one_point : Dalek
dalek_one_point = record {
  ristretto = record {
    curve = one_point;
    basepoint = tt;
    compress = λ p. to_le_bytes 32 0;
    decompress = λ bytes. some tt;
    from_uniform_bytes = λ bytes. tt;
    from_bytes_mod_order_wide = λ bytes. tt;
  };
  blinding_base = tt;
  embed = λ n. tt;
  from_bytes_mod_order = λ bytes. tt;
  to_bytes = λ s. to_le_bytes 32 0;
  embed_add = λ a b. refl;
  embed_mul = λ a b. refl;
  embed_one = refl;
  embed_order = λ a. refl;
  from_bytes_mod_order_lem = λ bytes. refl;
  from_bytes_mod_order_wide_lem = λ bytes len. refl;
  from_bytes_mod_order-to_bytes = λ s. refl;
  decompress-compress = λ p. refl;
  Draws = Unit {0};
  RangeProof = Unit {0};
  range_proof_to_bytes = λ proof. to_le_bytes 1 0;
  range_proof_from_bytes = λ bytes. ok tt;
  prove_single = λ draws capacity transcript m r bits. ok tt;
  verify_single = λ proof capacity transcript bytes bits. ok tt;
  range_proof_from_bytes-to_bytes = λ proof. refl;
  verify_single-prove_single =
      λ draws capacity transcript m r bits kind room fits. (tt, refl, refl);
}

abbrev pub pairing_residues : Pairing bls_residues
pairing_residues = record {
  Gt = Residue;
  gt_eq = same;
  gt_bytes = λ t. to_le_bytes 576 t.0;
  g2_add = plus;
  g2_scale = times;
  neg_g2 = minus (residue 1);
  pairing = λ p q. times q p;
  multi_pairing = λ p g q h. plus (times g p) (times h q);
  gt_eq_iff = same_iff;
  g2_add_lem = λ a b. refl;
  g2_scale_lem = λ a b. refl;
  pairing_multiple = λ p a. sym (one-times (times a p));
  multi_pairing_lem = λ p q a.
      ap (plus (times a p)) (
        times_assoc (residue (order - 1)) (residue 1) q
        ∙ ap (times (residue (order - 1))) (one-times q))
      ∙ sym (one-times _);
}

abbrev pub ranges_one_point : MultiRange dalek_one_point
ranges_one_point = record {
  prove_multiple = λ draws capacity p q label values blindings bits. some tt;
  verify_multiple = λ proof capacity p q label commitments bits. true;
  verify_multiple-prove_multiple =
      λ draws capacity p q label m1 m2 r1 r2 bits kind room fits1 fits2. (tt, refl, refl);
}
