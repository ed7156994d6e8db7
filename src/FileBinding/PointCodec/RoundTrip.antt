-- ===== src/FileBinding/PointCodec/RoundTrip.antt =====
-- Encoding a chunk to a point and decoding it again.
use ebutv.Prelude.{
  ℕ, zero, suc, ◌+◌, ◌-◌, ◌≤◌, ◌<◌, ◌≡◌, refl, sym, ◌∙◌, inl, inr, Bool, false, ◌&&◌, Option, none,
  some, List, ◌++◌, arith, ltb, leb, ◌==◌, if◌then◌else◌, length, replicate, bytes_eq, bytes_eq→eq,
  length-append, length-replicate, take-append, All, Bool-cases, All-replicate, All-append, ltb→le,
}
use ebutv.Prelude.Loops.{for_below-inv}
use ebutv.Prelude.BitArray.{
  IsByte, get_bit, put_bit, length-put_bit, put_bit-IsByte, get_bit-put_bit, bits_ext,
}
use ebutv.Prelude.BitCopy.{
  HasBits, zeros-HasBits, put_bit-HasBits, write_bits_lem, join_bits_lem, joined,
}
use ebutv.Prelude.Results.{Result, ok}
use ebutv.Curve.{Ristretto}
use ebutv.FileBinding.PointCodec.{
  PointEncodingError, set_bit_le, get_bit_le, pack_payload_bits, unpack_payload_bits, fill_suffix,
  suffix_candidate, search_encoding, encode_chunk_to_point, decode_point_to_chunk,
}
use native.Mathlib.Nat.{add-zero}

-- A 32-byte string whose bit 0 is clear and whose bits 1 to 136 are those of the payload.
pub record Carries (payload encoded : List ℕ) : Type 0 where
  pub size : length encoded ≡ 32
  pub bytes : All IsByte encoded
  pub low : get_bit encoded 0 ≡ false
  pub bits : (i : ℕ) → i < 136 → get_bit encoded (i + 1) ≡ get_bit payload i

pub pack_payload_bits-Carries :
    (payload : List ℕ) → Carries payload (pack_payload_bits payload (replicate 32 0))
unfolding pack_payload_bits set_bit_le get_bit_le
pack_payload_bits-Carries payload =
    let start =
      put_bit-HasBits 32 0 false (λ j. false) (replicate 32 0) (omega arith) (zeros-HasBits 32) in
    let h =
      write_bits_lem 32 0 1 (get_bit payload) (λ j. if 0 == j then false else false)
        (put_bit (replicate 32 0) 0 false) 136 (omega arith) start in
    from_bits (simp add-zero at h)
  where
    from_bits :
        {c : List ℕ}
        → HasBits 32
            (λ j.
              if leb 1 j && ltb j (1 + 136)
              then get_bit payload (j - 1)
              else (if 0 == j then false else false))
            c
        → Carries payload c
    from_bits (len, bytes, same) = record {
      size = len;
      bytes = bytes;
      low = same 0;
      bits = λ i lt. let e : i + 1 - 1 ≡ i = omega arith in same (i + 1) ∙ ground arith;
    }

-- A write behind the payload.
put_bit-Carries :
    (payload c : List ℕ) (i : ℕ) (v : Bool)
    → 137 ≤ i
    → i < 256
    → Carries payload c
    → Carries payload (put_bit c i v)
put_bit-Carries payload c i v lo hi h = record {
  size = length-put_bit c i v ∙ h.size;
  bytes = put_bit-IsByte c i v h.bytes;
  low = get_bit-put_bit c i 0 v h.bytes (omega (arith, h.size)) ∙ ground (arith, h.low);
  bits = λ j lt.
      get_bit-put_bit c i (j + 1) v h.bytes (omega (arith, h.size)) ∙ ground (arith, h.bits j lt);
}

fill_suffix-Carries :
    (payload suffix c : List ℕ) → Carries payload c → Carries payload (fill_suffix suffix c).0
unfolding fill_suffix set_bit_le
fill_suffix-Carries payload suffix c h =
    for_below-inv (λ i (t : List ℕ × ℕ). Carries payload t.0) 118 _ (c, 0) h
      λ i t lt k. put_bit-Carries payload t.0 _ _ (omega arith) (omega arith) k

unpack_payload_bits_lem :
    (encoded : List ℕ)
    → HasBits 17 (joined 136 1 0 (get_bit encoded) (λ j. false)) (unpack_payload_bits encoded)
unfolding unpack_payload_bits set_bit_le get_bit_le
unpack_payload_bits_lem encoded = simp add-zero at (
    join_bits_lem 17 1 0 (get_bit encoded) (λ j. false) (replicate 17 0) 136 (omega arith)
      (zeros-HasBits 17))

-- Unpacking returns the payload that an encoding carries.
pub unpack_payload_bits-Carries :
    {payload encoded : List ℕ}
    → All IsByte payload
    → length payload ≡ 17
    → Carries payload encoded
    → unpack_payload_bits encoded ≡ payload
unpack_payload_bits-Carries {payload} {encoded} bytes len h =
    let (len', bytes', same) = unpack_payload_bits_lem encoded in
    bits_ext (unpack_payload_bits encoded) payload bytes' bytes (len' ∙ sym len)
      λ i lt. same i ∙ window i (omega arith)
  where
    window : (i : ℕ) → i < 136 → joined 136 1 0 (get_bit encoded) (λ j. false) i ≡ get_bit payload i
    window i lt = let e : i - 0 + 1 ≡ i + 1 = omega arith in rw e (ground (arith, h.bits i lt))

module _ (sha512 : List ℕ → List ℕ) (r : Ristretto) where
  open r use {Point, compress, decompress}

  pub suffix_candidate-Carries :
      (payload : List ℕ) (counter : ℕ) → Carries payload (suffix_candidate sha512 r payload counter)
  unfolding suffix_candidate set_bit_le
  suffix_candidate-Carries payload counter =
      put_bit-Carries payload _ 255 false (omega arith) (omega arith)
        (fill_suffix-Carries payload _ _ (pack_payload_bits-Carries payload))

  -- A point that the search returns has a canonical encoding that carries the payload.
  search_encoding-Carries :
      (attempts counter : ℕ) (payload : List ℕ) (point : Point)
      → search_encoding sha512 r attempts counter payload ≡ ok point
      → Carries payload (compress point)
  unfolding search_encoding
  search_encoding-Carries zero counter payload point h = cc
  search_encoding-Carries (suc n) counter payload point h =
      found (decompress candidate) (search_encoding-Carries n (counter + 1) payload point) h
    where
      candidate : List ℕ
      candidate = suffix_candidate sha512 r payload counter

      next : Result PointEncodingError Point
      next = search_encoding sha512 r n (counter + 1) payload

      taken : (q : Point) → compress q ≡ candidate → q ≡ point → Carries payload (compress point)
      taken q e p = rw (← p, e) (suffix_candidate-Carries payload counter)

      found :
          (o : Option Point)
          → (next ≡ ok point → Carries payload (compress point))
          → elim o [ none ↦ next | some q ↦ if bytes_eq (compress q) candidate then ok q else next ]
            ≡ ok point
          → Carries payload (compress point)
      found none ih e = ih e
      found (some q) ih e = elim (Bool-cases (bytes_eq (compress q) candidate)) [
        | inl t ↦
            let e' : ok q ≡ ok point = rw t at e in
            taken q (bytes_eq→eq (compress q) candidate t) (cc)
        | inr f ↦ ih (rw f at e)
      ]

  -- Decoding the point that a chunk of bytes was encoded to returns the chunk, whatever the hash
  -- and the curve codec are.
  pub decode_point_to_chunk-encode_chunk_to_point :
      (chunk : List ℕ) (point : Point)
      → All IsByte chunk
      → encode_chunk_to_point sha512 r chunk ≡ ok point
      → decode_point_to_chunk sha512 r point (length chunk) ≡ ok chunk
  unfolding encode_chunk_to_point decode_point_to_chunk
  decode_point_to_chunk-encode_chunk_to_point chunk point bytes h =
      elim (Bool-cases (ltb 17 (length chunk))) [
        | inl big ↦ absurd (cc (rw big at h))
        | inr fits ↦
            let searched = rw fits at h in
            let le : length chunk ≤ 17 = ltb→le 17 (length chunk) fits in
            let padding : List ℕ = replicate (17 - length chunk) 0 in
            let carried = search_encoding-Carries _ 0 (chunk ++ padding) point searched in
            let unpacked =
              unpack_payload_bits-Carries
                (All-append IsByte chunk padding bytes (All-replicate IsByte _ 0 (omega arith)))
                (omega (
                  arith,
                  length-append chunk padding,
                  length-replicate {0} {A = ℕ} (17 - length chunk) 0,
                ))
                carried in
            rw (fits, unpacked, take-append chunk padding) refl
      ]
