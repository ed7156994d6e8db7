-- ===== src/FileBinding/Decryption/RoundTrip.antt =====
-- src/file_binding.rs: decrypting what create_private_file_commitment_auto made.
use ebutv.Prelude.{
  ℕ, zero, suc, ◌+◌, ◌-◌, ◌≤◌, ◌≡◌, refl, sym, ap, ◌∙◌, inl, inr, some, List, [], ◌∷◌, ◌++◌, map,
  arith, min, length, take, drop, All, length-append, length-take, length-map, Bool-cases,
  Option-cases, ==_refl,
}
use ebutv.Prelude.Results.{ok, Result-cases}
use ebutv.Prelude.Options.{some_transport}
use ebutv.Prelude.BitArray.{IsByte}
use ebutv.Curve.{Ristretto}
use ebutv.Curve.Laws.{⊛_swap, ⊖_unique}
use ebutv.FileBinding.PointCodec.{encode_chunk_to_point, decode_point_to_chunk}
use ebutv.FileBinding.PointCodec.RoundTrip.{decode_point_to_chunk-encode_chunk_to_point}
use ebutv.FileBinding.Private.{
  FileCommitment, PrivateCiphertextBlock, PrivateFileWitnessBlock, elgamal_decrypt_block,
}
use ebutv.FileBinding.File.{
  chunks, total_length, all_fit, Committed, encrypt_private_block, prepare_blocks,
  create_private_file_commitment, create_private_file_commitment_auto,
}
use ebutv.FileBinding.File.Completeness.{prepare_blocks-AllHonest}
use ebutv.FileBinding.Decryption.{
  decrypt_loop, decrypt_file_from_ciphertexts, decrypt_private_file_from_ciphertexts,
}

-- Taking and dropping.
take-drop : (n : ℕ) (xs : List ℕ) → take n xs ++ drop n xs ≡ xs
take-drop zero xs = refl
take-drop (suc n) [] = refl
take-drop (suc n) (x ∷ xs) = ap (λ (t : List ℕ). x ∷ t) (take-drop n xs)

length-drop : (n : ℕ) (xs : List ℕ) → length (drop n xs) ≡ length xs - n
length-drop zero xs = omega arith
length-drop (suc n) [] = omega arith
length-drop (suc n) (x ∷ xs) = omega (arith, length-drop n xs)

All-take : (P : ℕ → Type 0) (n : ℕ) (xs : List ℕ) → All P xs → All P (take n xs)
All-take P zero xs h = tt
All-take P (suc n) [] h = tt
All-take P (suc n) (x ∷ xs) h = (h.0, All-take P n xs h.1)

All-drop : (P : ℕ → Type 0) (n : ℕ) (xs : List ℕ) → All P xs → All P (drop n xs)
All-drop P zero xs h = h
All-drop P (suc n) [] h = tt
All-drop P (suc n) (x ∷ xs) h = All-drop P n xs h.1

append_assoc : (xs ys zs : List ℕ) → (xs ++ ys) ++ zs ≡ xs ++ (ys ++ zs)
append_assoc [] ys zs = refl
append_assoc (x ∷ xs) ys zs = ap (λ (t : List ℕ). x ∷ t) (append_assoc xs ys zs)

append_nil : (xs : List ℕ) → xs ++ [] ≡ xs
append_nil [] = refl
append_nil (x ∷ xs) = ap (λ (t : List ℕ). x ∷ t) (append_nil xs)

total_length-chunks :
    (fuel : ℕ) (xs : List ℕ) → length xs ≤ fuel → total_length (chunks fuel 17 xs) ≡ length xs
unfolding chunks total_length
total_length-chunks zero [] h = refl
total_length-chunks zero (x ∷ xs) h = absurd (omega arith)
total_length-chunks (suc fuel) [] h = refl
total_length-chunks (suc fuel) (x ∷ xs) h =
    let rest =
      total_length-chunks fuel (drop 17 (x ∷ xs)) (omega (arith, length-drop 17 (x ∷ xs))) in
    omega (arith, rest, length-drop 17 (x ∷ xs), length-take 17 (x ∷ xs))

module _ (sha512 : List ℕ → List ℕ) (r : Ristretto) (x : r.Scalar) where
  open r use {Point, Scalar, ◌⊕◌, ◌⊖◌, ◌⊛◌, basepoint, curve}

  pk : Point
  pk = x ⊛ basepoint

  elgamal_decrypt_block_lem :
      (m : Point) (rnd : Scalar)
      → elgamal_decrypt_block sha512 r x (rnd ⊛ basepoint) (m ⊕ rnd ⊛ (x ⊛ basepoint)) ≡ m
  unfolding elgamal_decrypt_block
  elgamal_decrypt_block_lem m rnd =
      ⊖_unique curve _ _ m (ap (λ t. m ⊕ t) (⊛_swap curve rnd x basepoint))

  encrypt_private_block_lem :
      (rnd s : Scalar) (bytes : List ℕ)
      (t : PrivateCiphertextBlock Point × List ℕ × PrivateFileWitnessBlock Scalar)
      → All IsByte bytes
      → encrypt_private_block sha512 r rnd s (x ⊛ basepoint) bytes ≡ some t
      → decode_point_to_chunk sha512 r
          (elgamal_decrypt_block sha512 r x t.0.ciphertext.c1 t.0.ciphertext.c2)
          (length bytes)
        ≡ ok bytes
  unfolding encrypt_private_block
  encrypt_private_block_lem rnd s bytes t all h =
      elim (Result-cases (encode_chunk_to_point sha512 r bytes)) [
        | inl (e, fails) ↦ absurd (cc (rw fails at h))
        | inr (m, encodes) ↦
            some_transport
              (λ t.
                decode_point_to_chunk sha512 r
                  (elgamal_decrypt_block sha512 r x t.0.ciphertext.c1 t.0.ciphertext.c2)
                  (length bytes)
                ≡ ok bytes)
              _ t (rw encodes at h)
              (rw (elgamal_decrypt_block_lem m rnd)
                (decode_point_to_chunk-encode_chunk_to_point sha512 r bytes m all encodes))
      ]

  -- The loop over what is left of the file, when `out` is what is decrypted.
  decrypt_loop_lem :
      (draws : ℕ → Scalar × Scalar) (fuel i : ℕ) (data_left out : List ℕ) (c : FileCommitment)
      (t : List (PrivateCiphertextBlock Point)
        × List (List ℕ)
        × List (PrivateFileWitnessBlock Scalar))
      → All IsByte data_left
      → length data_left ≤ fuel
      → c.block_size ≡ 17
      → c.file_size ≡ length out + length data_left
      → prepare_blocks sha512 r draws (x ⊛ basepoint) i (chunks fuel 17 data_left) ≡ some t
      → decrypt_loop sha512 r (map (λ b. b.ciphertext) t.0) c x out ≡ ok (out ++ data_left)
  unfolding prepare_blocks chunks decrypt_loop
  decrypt_loop_lem draws zero i [] out c t all enough size total h =
      some_transport
        (λ t. decrypt_loop sha512 r (map (λ b. b.ciphertext) t.0) c x out ≡ ok (out ++ [])) _ t h
        (ap (λ (l : List ℕ). ok l) (sym (append_nil out)))
  decrypt_loop_lem draws (suc fuel) i [] out c t all enough size total h =
      some_transport
        (λ t. decrypt_loop sha512 r (map (λ b. b.ciphertext) t.0) c x out ≡ ok (out ++ [])) _ t h
        (ap (λ (l : List ℕ). ok l) (sym (append_nil out)))
  decrypt_loop_lem draws zero i (y ∷ ys) out c t all enough size total h = absurd (omega arith)
  decrypt_loop_lem draws (suc fuel) i (y ∷ ys) out c t all enough size total h =
      let whole = y ∷ ys in
      let left = drop 17 whole in
      let chunk = take 17 whole in
      elim (Option-cases
        (encrypt_private_block sha512 r (draws i).0 (draws i).1 (x ⊛ basepoint) chunk)) [
          | inl fails ↦ absurd (cc (rw fails at h))
          | inr (one, e) ↦
              elim (Option-cases
                (prepare_blocks sha512 r draws (x ⊛ basepoint) (i + 1) (chunks fuel 17 left))) [
                  | inl fails ↦ absurd (cc (rw (e, fails) at h))
                  | inr (rest, f) ↦
                      let decoded =
                        encrypt_private_block_lem _ _ chunk one (All-take IsByte 17 whole all) e in
                      let taken = length-take 17 whole in
                      let dropped = length-drop 17 whole in
                      let len : min (c.file_size - length out) c.block_size ≡ length chunk =
                        omega arith in
                      let again =
                        decrypt_loop_lem draws fuel (i + 1) left (out ++ chunk) c rest
                          (All-drop IsByte 17 whole all) (omega arith) size
                          (omega (arith, length-append out chunk)) f in
                      some_transport
                        (λ t.
                          decrypt_loop sha512 r (map (λ b. b.ciphertext) t.0) c x out
                          ≡ ok (out ++ whole))
                        _ t (rw (e, f) at h)
                        (rw (len, decoded)
                          (again
                            ∙ ap (λ (l : List ℕ). ok l)
                                (append_assoc out chunk left
                                  ∙ ap (λ l. out ++ l) (take-drop 17 whole))))
                ]
        ]

  -- Whatever the draws: if a commitment to a file of bytes is made for the key's owner, what is
  -- decrypted from its blocks is the file.
  pub decrypt_private_file_from_ciphertexts_lem :
      (draws : ℕ → Scalar × Scalar) (nonce file_id file_data : List ℕ) (t : Committed sha512 r)
      → All IsByte file_data
      → create_private_file_commitment_auto sha512 r draws nonce file_id file_data (x ⊛ basepoint)
        ≡ some t
      → decrypt_private_file_from_ciphertexts sha512 r t.1 t.0 x ≡ ok file_data
  unfolding create_private_file_commitment_auto create_private_file_commitment
      decrypt_private_file_from_ciphertexts decrypt_file_from_ciphertexts
  decrypt_private_file_from_ciphertexts_lem draws nonce file_id file_data t all h =
      let blocks = chunks (length file_data) 17 file_data in
      let whole = total_length-chunks (length file_data) file_data (omega arith) in
      elim (Bool-cases (all_fit sha512 r blocks)) [
        | inr no_fit ↦ absurd (cc (rw no_fit at h))
        | inl fit ↦ elim (Option-cases (prepare_blocks sha512 r draws (x ⊛ basepoint) 0 blocks)) [
          | inl fails ↦ absurd (cc (rw (fit, fails) at h))
          | inr (p, prepared) ↦
              let (_, count) =
                prepare_blocks-AllHonest sha512 r (x ⊛ basepoint) draws 0 blocks p prepared in
              some_transport
                (λ t. decrypt_private_file_from_ciphertexts sha512 r t.1 t.0 x ≡ ok file_data) _ t
                (rw (fit, prepared) at h)
                (rw (length-map p.0 (λ b. b.ciphertext), count, ==_refl (length blocks))
                  (decrypt_loop_lem draws (length file_data) 0 file_data [] _ p all (omega arith)
                    refl (omega (arith, whole)) prepared))
        ]
      ]
