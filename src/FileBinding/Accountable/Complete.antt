-- ===== src/FileBinding/Accountable/Complete.antt =====
-- src/file_binding.rs: AccountableBatchProof, on blocks that open under their witnesses.
use ebutv.Prelude.{
  ℕ, suc, ◌+◌, ◌<◌, ◌≡◌, refl, sym, ap, ◌∙◌, ◌≢◌, Bool, true, false, ◌||◌, not, List, [], ◌∷◌,
  if◌then◌else◌, length, is_empty,
}
use mathlib.Core.Path.{ap₂}
use ebutv.Curve.{Ristretto}
use ebutv.Curve.Laws.{point_eq_ne, point_eq_self, response_lem, schnorr_lem, schnorr_pair_lem}
use ebutv.FileBinding.Private.{private_plaintext_h}
use ebutv.FileBinding.Private.Batch.{occupied}
use ebutv.Option1.Batch.{blinding_loop}
use ebutv.Option1.Batch.Complete.{PointsOpen, row_loop_lem, nothing}
use ebutv.FileBinding.Accountable.{
  AccountableFileWitnessBlock, AccountableBlockProof, some_block_is_bad, coefficient_row,
  coefficient_rows, derive_accountable_batch_coefficients, accountable_loop,
  aggregate_accountable_statement, accountable_witness_loop, accountable_prove, accountable_verify,
}

all_pass :
    (b1 b2 b3 b4 b5 b6 : Bool)
    → b1 ≡ false
    → b2 ≡ false
    → b3 ≡ false
    → b4 ≡ false
    → b5 ≡ true
    → b6 ≡ true
    → (if b1 || b2
        then false
        else (if b3 then false else (if b4 then false else (if not b5 then false else b6))))
      ≡ true
all_pass b1 b2 b3 b4 b5 b6 h1 h2 h3 h4 h5 h6 = rw (h1, h2, h3, h4, h5, h6) refl

module _ (sha512 : List ℕ → List ℕ) (r : Ristretto) (key : r.Point) where
  open r use {
    Point, Scalar, identity, ◌⊕◌, ◌⊛◌, ◌⊞◌, ◌⊠◌, scalar_zero, basepoint, curve, identity-⊕, zero-⊛,
  }

  -- What a block says of its witness.
  pub record PackedOpens (b : AccountableBlockProof Point) (w : AccountableFileWitnessBlock Scalar)
      : Type 0 where
    pub randomness : b.block.c1 ≡ w.encryption_randomness ⊛ basepoint
    pub points :
        PointsOpen sha512 r basepoint key
          (private_plaintext_h sha512 r)
          w.encryption_randomness
          b.block.c2_points
          b.block.plaintext_commitments
          w.commitment_blindings

  abbrev pub AllPackedOpen :
      List (AccountableBlockProof Point) → List (AccountableFileWitnessBlock Scalar) → Type 0
  AllPackedOpen [] [] = Unit
  AllPackedOpen [] (w ∷ ws) = ⊥
  AllPackedOpen (b ∷ bs) [] = ⊥
  AllPackedOpen (b ∷ bs) (w ∷ ws) = PackedOpens b w × AllPackedOpen bs ws

  abbrev Summed : Point × Point → Scalar × Scalar → Type 0
  Summed (c1_bar, d_bar) (r_bar, ms) =
      (c1_bar ≡ r_bar ⊛ basepoint) × (d_bar ≡ r_bar ⊛ key ⊕ ms ⊛ private_plaintext_h sha512 r)

  length-coefficient_row :
      (digest : List ℕ) (bi index j : ℕ) (points : List Point)
      → length (coefficient_row sha512 r digest bi index j points) ≡ length points
  unfolding coefficient_row
  length-coefficient_row digest bi index j [] = refl
  length-coefficient_row digest bi index j (p ∷ points) =
      ap suc (length-coefficient_row digest bi index (j + 1) points)

  accountable_loop_lem :
      (digest : List ℕ) (bi : ℕ) (blocks : List (AccountableBlockProof Point))
      (ws : List (AccountableFileWitnessBlock Scalar)) (c1 d : Point) (a m : Scalar)
      → AllPackedOpen blocks ws
      → Summed (c1, d) (a, m)
      → Summed
          (accountable_loop sha512 r blocks (coefficient_rows sha512 r digest bi blocks) c1 d)
          (accountable_witness_loop sha512 r
            (coefficient_rows sha512 r digest bi blocks)
            blocks
            ws
            a
            m)
  unfolding accountable_loop accountable_witness_loop coefficient_rows
  accountable_loop_lem digest bi [] [] c1 d a m o e = e
  accountable_loop_lem digest bi [] (w ∷ ws) c1 d a m o e = absurd o
  accountable_loop_lem digest bi (b ∷ bs) [] c1 d a m o e = absurd o
  accountable_loop_lem digest bi (b ∷ bs) (w ∷ ws) c1 d a m o (f, g) =
      let base_h = private_plaintext_h sha512 r in
      let row = coefficient_row sha512 r digest bi b.index 0 b.block.c2_points in
      let x = w.encryption_randomness in
      let start : d ≡ (a ⊞ scalar_zero ⊠ x) ⊛ key ⊕ m ⊛ base_h =
        g ∙ ap (λ t. t ⊕ m ⊛ base_h) (nothing sha512 r basepoint key base_h a x) in
      let (same, difference) =
        row_loop_lem sha512 r basepoint key base_h a x row b.block.c2_points
          b.block.plaintext_commitments w.commitment_blindings scalar_zero m d
          (length-coefficient_row digest bi b.index 0 b.block.c2_points) o.0.points start in
      accountable_loop_lem digest (bi + 1) bs ws _ _ _ _ o.1 (
        ap₂ (λ t u. t ⊕ u) f (ap₂ (λ t u. t ⊛ u) same o.0.randomness)
            ∙ sym (response_lem curve a _ x basepoint),
        difference
            ∙ ap
                (λ t.
                  (a ⊞ t ⊠ x)
                  ⊛ key
                  ⊕ (blinding_loop sha512 r row w.commitment_blindings scalar_zero m).1
                  ⊛ base_h)
                same,
      )

  -- Packed blocks that open, in their shape, are accepted, for every draw of the prover, if there is
  -- one at least and neither the file key nor the commitment base is the identity.
  pub accountable_verify-accountable_prove :
      (alpha_r alpha_s : Scalar) (context : List ℕ) (blocks : List (AccountableBlockProof Point))
      (ws : List (AccountableFileWitnessBlock Scalar))
      → key ≢ identity
      → private_plaintext_h sha512 r ≢ identity
      → 0 < length blocks
      → some_block_is_bad blocks ≡ false
      → AllPackedOpen blocks ws
      → accountable_verify sha512 r
          (accountable_prove sha512 r alpha_r alpha_s context key blocks ws)
          context
          key
          blocks
        ≡ true
  unfolding accountable_verify accountable_prove aggregate_accountable_statement
      derive_accountable_batch_coefficients
  accountable_verify-accountable_prove ar as' context blocks ws n1 n2 pos shape o =
      let base_h = private_plaintext_h sha512 r in
      let (e, f) = accountable_loop_lem _ 0 blocks ws identity identity scalar_zero scalar_zero o (
        sym (zero-⊛ basepoint),
        sym (ap₂ (λ t u. t ⊕ u) (zero-⊛ key) (zero-⊛ base_h) ∙ identity-⊕ identity),
      ) in
      all_pass (is_empty blocks) _ _ _ _ _ (occupied blocks pos) (point_eq_ne curve key identity n1)
        (point_eq_ne curve base_h identity n2) shape
        (point_eq_self curve _ _ (schnorr_lem curve ar _ _ basepoint _ e))
        (point_eq_self curve _ _ (schnorr_pair_lem curve ar as' _ _ _ key base_h _ f))
