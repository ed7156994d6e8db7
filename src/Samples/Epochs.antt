-- ===== src/Samples/Epochs.antt =====
-- The theorems on an honest refresh, on batched equality and on the reductions, applied to the
-- residues.
use ebutv.Prelude.{
  ℕ, ◌^◌, ◌<◌, ◌≡◌, ◌≢◌, refl, arith, some, List, [], ◌∷◌, replicate, All, All-replicate,
  All-append, ◌++◌,
}
use ebutv.Prelude.Text.{from_le_bytes}
use ebutv.Prelude.Outcome.{done}
use ebutv.Msm.{mul, new}
use ebutv.Hash.{hash_to_g1, scalar_from_hash, scalar_from_le_bytes_mod_order}
use ebutv.Hash.Reduction.{scalar_from_hash_lem, scalar_from_le_bytes_mod_order_lem}
use ebutv.Setup.{generate, h}
use ebutv.Setup.Laws.{table_mul_lem}
use ebutv.Bbs.{BbsSignature, IsToken, IsMaster, master_message}
use ebutv.BatchedEq.{
  BatchedEqualityProof, prove_batched_equality, verify_batched_equality, integer_response,
}
use ebutv.BatchedEq.Response.{Responds, integer_response_lem}
use ebutv.BatchedEq.Complete.{verify_batched_equality-prove_batched_equality}
use ebutv.Refresh.{RefreshDraws, RefreshClient, RefreshProof, RefreshResponse, epoch_base, finalize}
use ebutv.Refresh.Prove.{prove}
use ebutv.Refresh.Verify.{verify_refresh}
use ebutv.Refresh.Honest.{t_bbs}
use ebutv.Refresh.Complete.{q}
use ebutv.Refresh.Accepted.{verify_refresh-prove}
use ebutv.Samples.Residues.{residue, residues, times, plus, one-times}
use ebutv.Samples.Groups.{bls_residues, dalek_one_point}
use ebutv.Samples.Spending.{masks, nonzero, sevens}

abbrev refresh_draws : RefreshDraws bls_residues dalek_one_point
refresh_draws = record {
  k_daily = residue 2;
  r_daily = residue 3;
  r_delta = residue 5;
  r_x = residue 6;
  r1 = residue 1;
  rho_e = residue 1;
  rho_r1 = residue 1;
  rho_s = residue 1;
  rho_k = residue 1;
  rho_c = residue 1;
  rho_e_msg = residue 1;
  rho_u = residue 1;
  rho_v = residue 1;
  rho_w = residue 1;
  rho_rx = residue 1;
  expiry = masks;
}

abbrev master : BbsSignature bls_residues
master = record {
  a = master_message bls_residues (residue 8) (residue 3) 7 100;
  e = residue 1;
  s = residue 8;
}

master_valid : IsMaster bls_residues (residue 0) (residue 3) master 7 100
master_valid = one-times master.a

nullifier_base : times (residue 3) (epoch_base bls_residues dalek_one_point 4) ≢ residue 0
unfolding epoch_base hash_to_g1
nullifier_base = nonzero (times (residue 3) (epoch_base bls_residues dalek_one_point 4)) refl

master_a : times (residue 1) master.a ≢ residue 0
unfolding master_message h hash_to_g1
master_a = nonzero (times (residue 1) master.a) refl

blinded :
    t_bbs bls_residues dalek_one_point (
      q bls_residues dalek_one_point refresh_draws master
        (residue 3)
        7
        100
        4
        50
        (residue 11)
        (residue 0)
        (residue 0))
    ≢ residue 0
unfolding master_message h hash_to_g1
blinded = nonzero _ refl

verify_refresh-prove_example :
    (client : RefreshClient bls_residues dalek_one_point) × (proof : RefreshProof bls_residues
      dalek_one_point)
    × (response : RefreshResponse bls_residues dalek_one_point) × (prove bls_residues
          dalek_one_point refresh_draws master
          (residue 3)
          7
          100
          4
          50
          (residue 0)
          (residue 11)
        ≡ done (client, proof))
    × (proof.n_t ≡ times (residue 3) (epoch_base bls_residues dalek_one_point 4))
    × (verify_refresh bls_residues dalek_one_point
          (residue 1)
          (residue 13)
          proof
          4
          50
          (residue 0)
          (generate bls_residues (residue 0) (residue 0))
          (residue 11)
        ≡ done response)
    × IsToken bls_residues (residue 0) (residue 3) (
      (finalize bls_residues dalek_one_point client response).0,
      (finalize bls_residues dalek_one_point client response).1,
      7,
      4,
      100,
    )
verify_refresh-prove_example =
    verify_refresh-prove bls_residues dalek_one_point refresh_draws master (residue 3) 7 100 4 50
      (residue 11) (residue 0) (residue 0) (residue 1) (residue 13) (omega arith) (omega arith) refl
      sevens master_valid nullifier_base master_a blinded refl

verify_batched_equality_example :
    (proof : BatchedEqualityProof) × (prove_batched_equality bls_residues dalek_one_point masks
        5000000000
        (residue 9)
        (residue 2)
        (residue 3)
        (1 ∷ 2 ∷ [])
        (residue 4 ∷ [])
      ≡ done (proof, plus (times (residue 5000000000) (residue 2)) (times (residue 9) (residue 3))))
    × (verify_batched_equality bls_residues dalek_one_point proof
          (plus (times (residue 5000000000) (residue 2)) (times (residue 9) (residue 3)))
          (residue 2)
          (residue 3)
          (1 ∷ 2 ∷ [])
          (residue 4 ∷ [])
        ≡ done tt)
verify_batched_equality_example =
    verify_batched_equality-prove_batched_equality bls_residues dalek_one_point masks 5000000000
      (residue 9) (residue 2) (residue 3) (1 ∷ 2 ∷ []) (residue 4 ∷ []) refl sevens (omega arith)

scalar_from_hash_example :
    scalar_from_hash bls_residues (1 ∷ 2 ∷ [])
    ≡ some (residue (from_le_bytes (bls_residues.sha512 (1 ∷ 2 ∷ []))))
scalar_from_hash_example = scalar_from_hash_lem bls_residues (1 ∷ 2 ∷ [])

scalar_from_le_bytes_example :
    scalar_from_le_bytes_mod_order bls_residues (replicate 32 255)
    ≡ some (residue (from_le_bytes (replicate 32 255)))
scalar_from_le_bytes_example =
    scalar_from_le_bytes_mod_order_lem bls_residues (replicate 32 255) refl
      (All-replicate (λ b. b < 256) 32 255 (omega arith))

table_mul_example :
    mul residues (new residues (residue 5)) (bls_residues.to_bytes_le (residue 300))
    ≡ times (residue 300) (residue 5)
table_mul_example = table_mul_lem bls_residues (residue 5) (residue 300)

abbrev mask : List ℕ
mask = replicate 30 7 ++ (0 ∷ 0 ∷ [])

abbrev challenge : List ℕ
challenge = replicate 16 5 ++ replicate 16 0

mask_bytes : All (λ b. b < 256) mask
mask_bytes =
    All-append {A = ℕ} (λ b. b < 256) (replicate 30 7) (0 ∷ 0 ∷ []) sevens
      (omega arith, (omega arith, tt))

challenge_bytes : All (λ b. b < 256) challenge
challenge_bytes =
    All-append {A = ℕ} (λ b. b < 256) (replicate 16 5) (replicate 16 0)
      (All-replicate (λ b. b < 256) 16 5 (omega arith))
      (All-replicate (λ b. b < 256) 16 0 (omega arith))

mask_small : from_le_bytes mask < 2 ^ 240
unfolding from_le_bytes
mask_small = omega arith

challenge_small : from_le_bytes challenge < 2 ^ 128
unfolding from_le_bytes
challenge_small = omega arith

integer_response_example :
    (bytes : List ℕ) × (integer_response bls_residues dalek_one_point mask challenge 5000000000
      ≡ done bytes)
    × Responds bls_residues dalek_one_point
        (from_le_bytes mask)
        (from_le_bytes challenge)
        5000000000
        bytes
integer_response_example =
    integer_response_lem bls_residues dalek_one_point mask challenge 5000000000 refl mask_bytes
      mask_small refl challenge_bytes challenge_small (omega arith)
