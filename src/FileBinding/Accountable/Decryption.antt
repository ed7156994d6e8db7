-- ===== src/FileBinding/Accountable/Decryption.antt =====
-- src/file_binding.rs: decrypting a file of the accountable binding.
use ebutv.Prelude.{ℕ, ◌-◌, not, List, [], ◌∷◌, ◌++◌, min, ltb, ◌==◌, if◌then◌else◌, length, take}
use ebutv.Prelude.Results.{Result, ok, ◌>>=◌, ◌>>◌, fail_if}
use ebutv.Curve.{Ristretto}
use ebutv.FileBinding.PointCodec.{PointEncodingError, invalid_decoded_length, decode_point_to_chunk}
use ebutv.FileBinding.Private.{FileCommitment}
use ebutv.FileBinding.Accountable.{AccountableCiphertextBlock, accountable_file_encoding_v2}

module _ (sha512 : List ℕ → List ℕ) (r : Ristretto) where
  open r use {Point, Scalar, ◌⊖◌, ◌⊛◌}

  -- The loop over one block's points; a full output ends it.
  unfoldable pub decrypt_packed :
      ℕ → Point → List Point → List ℕ → List ℕ → Result PointEncodingError (List ℕ)
  decrypt_packed file_size shared (c2 ∷ c2_points) (len ∷ lengths) out =
      if not (ltb (length out) file_size)
      then ok out
      else (decode_point_to_chunk sha512 r (c2 ⊖ shared) (min (file_size - length out) len)
          >>= λ chunk. decrypt_packed file_size shared c2_points lengths (out ++ chunk))
  decrypt_packed file_size shared c2_points lengths out = ok out

  unfoldable pub decrypt_packed_blocks :
      ℕ
      → Scalar
      → List (AccountableCiphertextBlock Point)
      → List ℕ
      → Result PointEncodingError (List ℕ)
  decrypt_packed_blocks file_size x [] out = ok out
  decrypt_packed_blocks file_size x (block ∷ blocks) out = do
    done ← decrypt_packed file_size (x ⊛ block.c1) block.c2_points block.point_lengths out
    decrypt_packed_blocks file_size x blocks done

  unfoldable pub decrypt_accountable_file_from_ciphertexts :
      List (AccountableCiphertextBlock Point)
      → FileCommitment
      → Scalar
      → Result PointEncodingError (List ℕ)
  decrypt_accountable_file_from_ciphertexts public_blocks commitment x = do
    fail_if (not (commitment.encoding_version == accountable_file_encoding_v2))
        (invalid_decoded_length commitment.encoding_version accountable_file_encoding_v2)
    fail_if (not (length public_blocks == commitment.num_blocks))
        (invalid_decoded_length (length public_blocks) commitment.num_blocks)
    out ← decrypt_packed_blocks commitment.file_size x public_blocks []
    ok (take commitment.file_size out)
