-- ===== src/Option1/Selectors.antt =====
-- src/ristretto_elligator_codec.rs: the chunk codec around the external library (an argument), the
-- packing of selectors, and the shift of a payload into the 32 bytes that the library wants.
use ebutv.Prelude.{
  ℕ, zero, suc, ◌+◌, ◌*◌, ◌/◌, ◌%◌, ◌^◌, Bool, true, not, List, [], ◌∷◌, ltb, ◌==◌, if◌then◌else◌,
  length, replicate,
}
use ebutv.Prelude.Loops.{for_below}
use ebutv.Prelude.BitArray.{get_bit, put_bit}
use ebutv.Prelude.Results.{Result, ok, ◌>>=◌, ◌>>◌, fail_if}

abbrev pub elligator_payload_bytes : ℕ
elligator_payload_bytes = 31

abbrev pub elligator_selector_bits : ℕ
elligator_selector_bits = 3

abbrev pub elligator_selector_values : ℕ
elligator_selector_values = 8

pub data ElligatorCodecError : Type 0 where
  chunk_too_large : ℕ → ℕ → ElligatorCodecError
  invalid_selector : ℕ → ElligatorCodecError
  invalid_point_encoding : ElligatorCodecError
  external_codec_unavailable : ElligatorCodecError
  external_codec_rejected : ElligatorCodecError

pub record EncodedRistrettoChunk (Point : Type 0) : Type 0 where
  pub point : Point
  pub selector : ℕ
  pub len : ℕ

-- `mod external`: the code behind the foreign-function interface.
pub record External (Point : Type 0) : Type 0 where
  pub encode : List ℕ → Result ElligatorCodecError (EncodedRistrettoChunk Point)
  pub decode : Point → ℕ → ℕ → Result ElligatorCodecError (List ℕ)

module _ {Point : Type 0} (external : External Point) where
  unfoldable pub encode_chunk : List ℕ → Result ElligatorCodecError (EncodedRistrettoChunk Point)
  encode_chunk chunk = do
    fail_if (ltb elligator_payload_bytes (length chunk))
        (chunk_too_large (length chunk) elligator_payload_bytes)
    external.encode chunk

  unfoldable pub decode_chunk : Point → ℕ → ℕ → Result ElligatorCodecError (List ℕ)
  decode_chunk point selector len = do
    fail_if (not (ltb selector elligator_selector_values)) (invalid_selector selector)
    fail_if (ltb elligator_payload_bytes len) (chunk_too_large len elligator_payload_bytes)
    external.decode point selector len

-- `(value >> bit) & 1`
abbrev pub bit_of : ℕ → ℕ → Bool
bit_of value bit = (value / 2 ^ bit) % 2 == 1

-- The three bits of a selector, from bit number `start` of the stream on.
unfoldable pub put_selector : ℕ → ℕ → List ℕ → List ℕ
put_selector selector start out =
    for_below elligator_selector_bits
      (λ bit o. if bit_of selector bit then put_bit o (start + bit) true else o) out

-- The loop over `selectors.iter().enumerate()`, from number `i` on.
unfoldable pub pack_loop : ℕ → List ℕ → List ℕ → Result ElligatorCodecError (List ℕ)
pack_loop i [] out = ok out
pack_loop i (selector ∷ selectors) out = do
  fail_if (not (ltb selector elligator_selector_values)) (invalid_selector selector)
  pack_loop (i + 1) selectors (put_selector selector (i * elligator_selector_bits) out)

unfoldable pub pack_selectors : List ℕ → Result ElligatorCodecError (List ℕ)
pack_selectors selectors =
    pack_loop 0 selectors (replicate ((length selectors * elligator_selector_bits + 7) / 8) 0)

-- The three bits read from bit number `start` on: `sel |= 1u8 << bit`.
unfoldable pub get_selector : List ℕ → ℕ → ℕ
get_selector bytes start =
    for_below elligator_selector_bits
      (λ bit sel. if get_bit bytes (start + bit) then sel + 2 ^ bit else sel) 0

-- `for i in i..i + count`
unfoldable pub unpack_loop : ℕ → ℕ → List ℕ → Result ElligatorCodecError (List ℕ)
unpack_loop zero i bytes = ok []
unpack_loop (suc count) i bytes = do
  let selector = get_selector bytes (i * elligator_selector_bits)
  fail_if (not (ltb selector elligator_selector_values)) (invalid_selector selector)
  rest ← unpack_loop count (i + 1) bytes
  ok (selector ∷ rest)

unfoldable pub unpack_selectors : List ℕ → ℕ → Result ElligatorCodecError (List ℕ)
unpack_selectors bytes count = do
  fail_if (ltb (length bytes) ((count * elligator_selector_bits + 7) / 8)) external_codec_rejected
  unpack_loop count 0 bytes

-- The payload bits at bits 1 to 8 n of the library's input.
unfoldable pub payload_to_ser : List ℕ → List ℕ
payload_to_ser chunk =
    for_below (length chunk * 8)
      (λ i ser. if get_bit chunk i then put_bit ser (i + 1) true else ser) (replicate 32 0)

unfoldable pub ser_to_payload : List ℕ → ℕ → List ℕ
ser_to_payload ser len =
    for_below (len * 8) (λ i out. if get_bit ser (i + 1) then put_bit out i true else out)
      (replicate len 0)
