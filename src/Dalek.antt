-- ===== src/Dalek.antt =====
-- What the program uses of curve25519_dalek_ng, merlin and bulletproofs (libraries outside the
-- repository): the Ristretto group, Pedersen commitments, and range proofs over a transcript. The
-- laws are those of the documentation: scalars are the numbers modulo the group order, an encoded
-- point or scalar decodes to itself, and a range proof can be made for a value in range and is
-- accepted over the same transcript.
use ebutv.Prelude.{ℕ, ◌+◌, ◌*◌, ◌^◌, ◌<◌, ◌≤◌, ◌≡◌, ◌⊎◌, some, List, length}
use ebutv.Prelude.Results.{Result, ok}
use ebutv.Prelude.Text.{from_le_bytes}
use ebutv.Curve.{Ristretto}

-- The order of the group.
abbrev pub order_25519 : ℕ
order_25519 = 0x1000000000000000000000000000000014def9dea2f79cd65812631a5cf5d3ed

-- What was appended to a transcript: labels with messages, after the label of its creation.
abbrev pub Transcript : Type 0
Transcript = List ℕ × List (List ℕ × List ℕ)

pub record Dalek : Type 1 where
  pub ristretto : Ristretto
  pub open ristretto use *
  pub blinding_base : Point
  pub embed : ℕ → Scalar
  pub from_bytes_mod_order : List ℕ → Scalar
  pub to_bytes : Scalar → List ℕ
  pub embed_add : (a b : ℕ) → embed (a + b) ≡ embed a ⊞ embed b
  pub embed_mul : (a b : ℕ) → embed (a * b) ≡ embed a ⊠ embed b
  pub embed_one : embed 1 ≡ scalar_one
  pub embed_order : (a : ℕ) → embed (a + order_25519) ≡ embed a
  pub from_bytes_mod_order_lem :
      (bytes : List ℕ) → from_bytes_mod_order bytes ≡ embed (from_le_bytes bytes)
  pub from_bytes_mod_order_wide_lem :
      (bytes : List ℕ)
      → length bytes ≡ 64
      → from_bytes_mod_order_wide bytes ≡ embed (from_le_bytes bytes)
  pub from_bytes_mod_order-to_bytes : (s : Scalar) → from_bytes_mod_order (to_bytes s) ≡ s
  pub decompress-compress : (p : Point) → decompress (compress p) ≡ some p
  -- What a range prover draws, and its proofs. An error is its printed form.
  pub Draws : Type 0
  pub RangeProof : Type 0
  pub range_proof_to_bytes : RangeProof → List ℕ
  pub range_proof_from_bytes : List ℕ → Result (List ℕ) RangeProof
  pub prove_single : Draws → ℕ → Transcript → ℕ → Scalar → ℕ → Result (List ℕ) RangeProof
  pub verify_single : RangeProof → ℕ → Transcript → List ℕ → ℕ → Result (List ℕ) (Unit {0})
  pub range_proof_from_bytes-to_bytes :
      (proof : RangeProof) → range_proof_from_bytes (range_proof_to_bytes proof) ≡ ok proof
  pub verify_single-prove_single :
      (draws : Draws) (capacity : ℕ) (transcript : Transcript) (m : ℕ) (r : Scalar) (bits : ℕ)
      → (bits ≡ 32) ⊎ (bits ≡ 64)
      → bits ≤ capacity
      → m < 2 ^ bits
      → (proof : RangeProof) × (prove_single draws capacity transcript m r bits ≡ ok proof)
        × (verify_single proof capacity transcript
              (compress (embed m ⊛ basepoint ⊕ r ⊛ blinding_base))
              bits
            ≡ ok tt)
