-- ===== src/FileBinding/Decryption.antt =====
-- src/file_binding.rs: decrypting a committed file.
pub mod RoundTrip
use ebutv.Prelude.{ℕ, ◌+◌, ◌-◌, not, List, [], ◌∷◌, ◌++◌, map, min, ◌==◌, if◌then◌else◌, length}
use ebutv.Prelude.Results.{Result, ok, err, ◌>>=◌, ◌>>◌, fail_if}
use ebutv.Curve.{Ristretto}
use ebutv.FileBinding.PointCodec.{PointEncodingError, invalid_decoded_length, decode_point_to_chunk}
use ebutv.FileBinding.Private.{
  FileCommitment, CiphertextBlock, PrivateCiphertextBlock, reversible_point_encoding_v1,
  elgamal_decrypt_block,
}

module _ (sha512 : List ℕ → List ℕ) (r : Ristretto) where
  open r use {Point, Scalar}

  -- The loop over the ciphertexts, with what is decrypted so far.
  unfoldable pub decrypt_loop :
      List (CiphertextBlock Point)
      → FileCommitment
      → Scalar
      → List ℕ
      → Result PointEncodingError (List ℕ)
  decrypt_loop [] commitment x out = ok out
  decrypt_loop (cipher ∷ ciphers) commitment x out =
      let m = elgamal_decrypt_block sha512 r x cipher.c1 cipher.c2 in
      let remaining = commitment.file_size - length out in
      decode_point_to_chunk sha512 r m (min remaining commitment.block_size) >>= λ chunk.
      decrypt_loop ciphers commitment x (out ++ chunk)

  unfoldable pub decrypt_file_from_ciphertexts :
      List (CiphertextBlock Point) → FileCommitment → Scalar → Result PointEncodingError (List ℕ)
  decrypt_file_from_ciphertexts ciphers commitment x = do
    fail_if (not (length ciphers == commitment.num_blocks))
        (invalid_decoded_length (length ciphers) commitment.num_blocks)
    fail_if (not (commitment.encoding_version == reversible_point_encoding_v1))
        (invalid_decoded_length commitment.encoding_version reversible_point_encoding_v1)
    decrypt_loop ciphers commitment x []

  unfoldable pub decrypt_private_file_from_ciphertexts :
      List (PrivateCiphertextBlock Point)
      → FileCommitment
      → Scalar
      → Result PointEncodingError (List ℕ)
  decrypt_private_file_from_ciphertexts blocks commitment x =
      decrypt_file_from_ciphertexts (map (λ b. b.ciphertext) blocks) commitment x
