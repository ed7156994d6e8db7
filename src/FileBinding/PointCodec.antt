-- ===== src/FileBinding/PointCodec.antt =====
-- src/file_binding.rs: the reversible point encoding. Payload bits are packed into bits 1 to 136 of
-- a compressed point; the other bits are searched for.
pub mod RoundTrip
use ebutv.Prelude.{
  ℕ, zero, suc, ◌+◌, ◌-◌, ◌*◌, ◌/◌, ◌%◌, ◌≤◌, ◌<◌, ◌≡◌, refl, Bool, true, false, Option, none, some,
  List, [], ◌∷◌, ◌++◌, arith, ltb, ◌==◌, if◌then◌else◌, length, take, replicate, bytes_eq,
}
use ebutv.Prelude.Loops.{for_below}
use ebutv.Prelude.BitArray.{get_bit, put_bit}
use ebutv.Prelude.Results.{Result, ok, err}
use ebutv.Prelude.Text.{codes, to_le_bytes}
use ebutv.Curve.{Ristretto}

abbrev pub reversible_point_payload_size : ℕ
reversible_point_payload_size = 17

-- Not an `abbrev`: the search loop stays folded over it.
unfoldable pub reversible_point_max_encoding_attempts : ℕ
reversible_point_max_encoding_attempts = 1_000_000

pub data PointEncodingError : Type 0 where
  chunk_too_large : ℕ → ℕ → PointEncodingError
  no_valid_encoding : PointEncodingError
  invalid_decoded_length : ℕ → ℕ → PointEncodingError

unfoldable pub set_bit_le : List ℕ → ℕ → Bool → List ℕ
set_bit_le bytes bit_index value = put_bit bytes bit_index value

unfoldable pub get_bit_le : List ℕ → ℕ → Bool
get_bit_le bytes bit_index = get_bit bytes bit_index

unfoldable pub pack_payload_bits : List ℕ → List ℕ → List ℕ
pack_payload_bits payload candidate =
    for_below (reversible_point_payload_size * 8)
      (λ i c. set_bit_le c (i + 1) (get_bit_le payload i)) (set_bit_le candidate 0 false)

unfoldable pub unpack_payload_bits : List ℕ → List ℕ
unpack_payload_bits encoded =
    for_below (reversible_point_payload_size * 8)
      (λ i payload. if get_bit_le encoded (i + 1) then set_bit_le payload i true else payload)
      (replicate reversible_point_payload_size 0)

-- The loop over the bits behind the payload, with `suffix_bit`, which returns to 0 at the end of
-- the suffix.
unfoldable pub fill_suffix : List ℕ → List ℕ → List ℕ × ℕ
fill_suffix suffix candidate =
    for_below (255 - (1 + reversible_point_payload_size * 8))
      (λ i (c, suffix_bit). (
        set_bit_le c (1 + reversible_point_payload_size * 8 + i) (get_bit_le suffix suffix_bit),
        if suffix_bit + 1 == length suffix * 8 then 0 else suffix_bit + 1,
      ))
      (candidate, 0)

module _ (sha512 : List ℕ → List ℕ) (r : Ristretto) where
  open r use {Point, compress, decompress}

  -- The candidate of one attempt: the payload, the suffix of (payload, counter), a clear top bit.
  unfoldable pub suffix_candidate : List ℕ → ℕ → List ℕ
  suffix_candidate payload counter =
      let suffix =
        sha512
          (codes "EBUT:REVERSIBLE-POINT-BITPACK-SUFFIX:V3" ++ payload ++ to_le_bytes 8 counter) in
      let candidate = pack_payload_bits payload (replicate 32 0) in
      set_bit_le (fill_suffix suffix candidate).0 255 false

  -- `for counter in 0..MAX`, with the attempts that are left: the candidate must decode to a point
  -- whose canonical encoding it is.
  unfoldable pub search_encoding : ℕ → ℕ → List ℕ → Result PointEncodingError Point
  search_encoding zero counter payload = err no_valid_encoding
  search_encoding (suc attempts) counter payload =
      let candidate = suffix_candidate payload counter in
      let next = search_encoding attempts (counter + 1) payload in
      elim (decompress candidate) [
        | none ↦ next
        | some point ↦ if bytes_eq (compress point) candidate then ok point else next
      ]

  unfoldable pub encode_chunk_to_point : List ℕ → Result PointEncodingError Point
  encode_chunk_to_point chunk =
      if ltb reversible_point_payload_size (length chunk)
      then err (chunk_too_large (length chunk) reversible_point_payload_size)
      else search_encoding reversible_point_max_encoding_attempts 0
          (chunk ++ replicate (reversible_point_payload_size - length chunk) 0)

  unfoldable pub decode_point_to_chunk : Point → ℕ → Result PointEncodingError (List ℕ)
  decode_point_to_chunk point chunk_len =
      if ltb reversible_point_payload_size chunk_len
      then err (invalid_decoded_length chunk_len reversible_point_payload_size)
      else ok (take chunk_len (unpack_payload_bits (compress point)))
