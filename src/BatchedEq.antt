-- ===== src/BatchedEq.antt =====
-- src/batched_eq.rs: one number in a BLS commitment and in a Ristretto commitment, with a range
-- proof on the second. What the prover draws is a record of arguments.
pub mod Response
pub mod Complete
use ebutv.Prelude.{
  ℕ, zero, suc, ◌+◌, ◌≡◌, Bool, true, false, not, ◌||◌, ◌&&◌, Option, none, some, List, [], ◌∷◌,
  ◌++◌, map, leb, ◌==◌, if◌then◌else◌, take, get_or, length, replicate, bytes_eq,
}
use ebutv.Prelude.Results.{Result, ok, err}
use ebutv.Prelude.Outcome.{Outcome, done, failed, panic, ◌>>=◌, ◌>>◌, run, try, fail_if}
use ebutv.Prelude.Options.{assert}
use ebutv.Prelude.Text.{codes, to_le_bytes}
use ebutv.Server.Store.{ActError, verification_failed, protocol_error}
use ebutv.Limbs.{U256, u256_from_le_bytes, u256_to_le_bytes, u256_lt, u256_mul_u64, u256_add}
use ebutv.Bls.{Bls}
use ebutv.Dalek.{Dalek, Transcript}
use ebutv.Hash.{scalar_from_le_bytes_mod_order}

abbrev pub q_25519_limbs : U256
q_25519_limbs = record {
  l0 = 0x5812631a5cf5d3ed;
  l1 = 0x14def9dea2f79cd6;
  l2 = 0;
  l3 = 0x1000000000000000;
}

pub record BatchedEqualityProof : Type 0 where
  pub c_bytes : List ℕ
  pub c_25519_bytes : List ℕ
  pub z_e_bytes : List ℕ
  pub z_r_bls_bytes : List ℕ
  pub z_r_25519_bytes : List ℕ
  pub range_proof_bytes : List ℕ
  pub range_bits : ℕ

unfoldable pub to_bytes : BatchedEqualityProof → List ℕ
to_bytes proof =
    proof.c_bytes
    ++ (proof.c_25519_bytes
        ++ (proof.z_e_bytes
            ++ (proof.z_r_bls_bytes
                ++ (proof.z_r_25519_bytes
                    ++ (proof.range_bits
                        ∷ (to_le_bytes 4 (length proof.range_proof_bytes)
                            ++ proof.range_proof_bytes))))))

-- `dalek_bp_gens`: the capacity of the generators.
unfoldable pub dalek_bp_gens : ℕ → ℕ
dalek_bp_gens bits = if bits == 32 then 32 else (if bits == 64 then 64 else 64)

unfoldable pub best_range_bits_u64 : ℕ → ℕ
best_range_bits_u64 v = if leb v 0xffffffff then 32 else 64

unfoldable pub c128_to_bytes32 : List ℕ → List ℕ
c128_to_bytes32 c128 = c128 ++ replicate 16 0

unfoldable pub concat : List (List ℕ) → List ℕ
concat [] = []
concat (xs ∷ xss) = xs ++ concat xss

unfoldable pub range_transcript : List ℕ → List (List ℕ) → Transcript
range_transcript context comm_bytes =
    (codes "ACT:BEQ:Range", (codes "ctx", context) ∷ map (λ cb. (codes "comm", cb)) comm_bytes)

module _ (bls : Bls) (dalek : Dalek) where
  open bls use {
    Point, Scalar, ◌⊕◌, ◌⊖◌, ◌⊛◌, ◌⊞◌, ◌⊠◌, from_number, to_bytes_le, from_bytes_le, to_compressed,
    sha256,
  }

  unfoldable pub compute_beq_challenge :
      List ℕ → List (List ℕ) → List ℕ → List ℕ → List ℕ → List ℕ → List ℕ → ℕ → List ℕ
  compute_beq_challenge context comm_bytes c_bls c_25519 r_bls r_25519 range_proof range_bits =
      take 16 (
        sha256 (
          codes "ACT:BEQ:Challenge"
          ++ (context
              ++ (concat comm_bytes
                  ++ (c_bls
                      ++ (c_25519 ++ (r_bls ++ (r_25519 ++ (range_proof ++ range_bits ∷ [])))))))))

  -- `pc_gens.commit`
  abbrev pub pedersen : dalek.Scalar → dalek.Scalar → dalek.Point
  pedersen v r = dalek.◌⊕◌ (dalek.◌⊛◌ v dalek.basepoint) (dalek.◌⊛◌ r dalek.blinding_base)

  -- What the prover draws; `u_m` is 30 bytes.
  pub record BeqDraws : Type 0 where
    pub r_25519 : dalek.Scalar
    pub range : dalek.Draws
    pub u_m : List ℕ
    pub u_r_bls : Scalar
    pub u_r_25519 : dalek.Scalar

  -- `.map_err(..)?`, with the printed error in the message.
  abbrev pub range_error :
      {A : Type 0} → (List ℕ → ActError) → List ℕ → Result (List ℕ) A → Outcome A
  range_error kind message (ok a) = done a
  range_error kind message (err text) = failed (kind (message ++ text))

  -- Step 7: `z_e = u_m + c·m` over the integers.
  unfoldable pub integer_response : List ℕ → List ℕ → ℕ → Outcome (List ℕ)
  integer_response u_m_32 c_32 m = do
    cm_limbs ← run (u256_mul_u64 (u256_from_le_bytes c_32) m)
    z_e_limbs ← run (u256_add (u256_from_le_bytes u_m_32) cm_limbs)
    let z_e_bytes = u256_to_le_bytes z_e_limbs
    run (assert (get_or z_e_bytes 31 0 == 0))
    done z_e_bytes

  -- Steps 2 to 9, once the range proof is made.
  unfoldable pub prove_equality :
      BeqDraws
      → ℕ
      → Scalar
      → Point
      → Point
      → List ℕ
      → List (List ℕ)
      → List ℕ
      → List ℕ
      → ℕ
      → Outcome (BatchedEqualityProof × Point)
  prove_equality draws m r_bls h4 h0 context comm_bytes c_25519_bytes range_proof_bytes bits = do
    let u_m_32 = draws.u_m ++ (0 ∷ 0 ∷ [])
    u_m_bls ← run (scalar_from_le_bytes_mod_order bls u_m_32)
    let u_m_25519 = dalek.from_bytes_mod_order u_m_32
    let r_bls_point = u_m_bls ⊛ h4 ⊕ draws.u_r_bls ⊛ h0
    let r_25519_point = pedersen u_m_25519 draws.u_r_25519
    let c_bls = from_number m ⊛ h4 ⊕ r_bls ⊛ h0
    let c128 =
        compute_beq_challenge context comm_bytes (to_compressed c_bls) c_25519_bytes
          (to_compressed r_bls_point) (dalek.compress r_25519_point) range_proof_bytes bits
    let c_32 = c128_to_bytes32 c128
    c_fr ← run (scalar_from_le_bytes_mod_order bls c_32)
    let c_dalek = dalek.from_bytes_mod_order c_32
    z_e_bytes ← integer_response u_m_32 c_32 m
    let z_r_bls = draws.u_r_bls ⊞ c_fr ⊠ r_bls
    let z_r_25519 = dalek.◌⊞◌ draws.u_r_25519 (dalek.◌⊠◌ c_dalek draws.r_25519)
    done (
      record {
        c_bytes = c128;
        c_25519_bytes = c_25519_bytes;
        z_e_bytes = z_e_bytes;
        z_r_bls_bytes = to_bytes_le z_r_bls;
        z_r_25519_bytes = dalek.to_bytes z_r_25519;
        range_proof_bytes = range_proof_bytes;
        range_bits = bits;
      },
      c_bls,
    )

  unfoldable pub prove_batched_equality :
      BeqDraws
      → ℕ
      → Scalar
      → Point
      → Point
      → List ℕ
      → List Point
      → Outcome (BatchedEqualityProof × Point)
  prove_batched_equality draws m r_bls h4 h0 context commitments = do
    let bits = best_range_bits_u64 m
    let comm_bytes = map to_compressed commitments
    let c_25519_bytes = dalek.compress (pedersen (dalek.embed m) draws.r_25519)
    range_proof ← range_error protocol_error (codes "Dalek range prove failed: ") (
        dalek.prove_single draws.range (dalek_bp_gens bits) (range_transcript context comm_bytes) m
          draws.r_25519 bits)
    prove_equality draws m r_bls h4 h0 context comm_bytes c_25519_bytes
        (dalek.range_proof_to_bytes range_proof) bits

  -- Step 7 of the verifier.
  unfoldable pub verify_range : BatchedEqualityProof → List ℕ → List (List ℕ) → Outcome (Unit {0})
  verify_range proof context comm_bytes = do
    range_proof ←
        range_error verification_failed (codes "Invalid Dalek range proof bytes: ")
          (dalek.range_proof_from_bytes proof.range_proof_bytes)
    range_error verification_failed (codes "BatchedEqualityProof: Dalek range proof failed: ") (
        dalek.verify_single range_proof (dalek_bp_gens proof.range_bits)
          (range_transcript context comm_bytes) proof.c_25519_bytes proof.range_bits)

  -- `.ok_or_else(..)?`
  abbrev pub or_fail : {A : Type 0} → ActError → Option A → Outcome A
  or_fail e (some a) = done a
  or_fail e none = failed e

  unfoldable pub verify_batched_equality :
      BatchedEqualityProof → Point → Point → Point → List ℕ → List Point → Outcome (Unit {0})
  verify_batched_equality proof c_bls h4 h0 context commitments = do
    fail_if (not (u256_lt (u256_from_le_bytes proof.z_e_bytes) q_25519_limbs))
        (verification_failed (codes "BatchedEqualityProof: z_e >= q_25519 (modular wrap attack)"))
    fail_if (not (proof.range_bits == 32) && not (proof.range_bits == 64))
        (verification_failed (codes "BatchedEqualityProof: unsupported range size"))
    z_m_bls ← run (scalar_from_le_bytes_mod_order bls proof.z_e_bytes)
    let z_m_25519 = dalek.from_bytes_mod_order proof.z_e_bytes
    z_r_bls ←
        or_fail
          (verification_failed
            (codes "BatchedEqualityProof: z_r_bls is not a canonical BLS12-381 scalar"))
          (from_bytes_le proof.z_r_bls_bytes)
    let z_r_25519 = dalek.from_bytes_mod_order proof.z_r_25519_bytes
    let c_32 = c128_to_bytes32 proof.c_bytes
    c_fr ← run (scalar_from_le_bytes_mod_order bls c_32)
    let c_dalek = dalek.from_bytes_mod_order c_32
    c_25519_point ←
        or_fail (verification_failed (codes "BatchedEqualityProof: invalid C_25519 point"))
          (dalek.decompress proof.c_25519_bytes)
    let comm_bytes = map to_compressed commitments
    let r_bls_point = z_m_bls ⊛ h4 ⊕ z_r_bls ⊛ h0 ⊖ c_fr ⊛ c_bls
    let r_25519_point = dalek.◌⊖◌ (pedersen z_m_25519 z_r_25519) (dalek.◌⊛◌ c_dalek c_25519_point)
    let expected_c128 =
        compute_beq_challenge context comm_bytes (to_compressed c_bls) proof.c_25519_bytes
          (to_compressed r_bls_point) (dalek.compress r_25519_point) proof.range_proof_bytes
          proof.range_bits
    fail_if (not (bytes_eq expected_c128 proof.c_bytes)) (
        verification_failed
          (codes "BatchedEqualityProof: challenge mismatch (Schnorr check failed)"))
    verify_range proof context comm_bytes
