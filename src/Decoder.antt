-- ===== src/Decoder.antt =====
-- src/internal/local_routines.rs: the message in the bits that a decoder found, behind the test of
-- its CRC; and the flags that src/decoder.rs reads beside it. A bit is 0 or 1.
pub mod Bytes
pub mod Spelling
pub mod RoundTrip
use js8rs.Prelude.{
  ℕ, zero, suc, ◌+◌, ◌-◌, ◌*◌, ◌/◌, ◌%◌, ◌^◌, Bool, true, false, not, ◌&&◌, Option, none, some,
  List, [], ◌∷◌, length, get_or, get_elem?, set, replicate, leb, ◌==◌, if◌then◌else◌, bit_and,
  bit_or, u8, u16, ◌<<<◌, ◌>>>◌,
}
use js8rs.Encoder.{alphabet64}
use js8rs.Encoder.Crc12.{crc12}

-- `bytes[byte] |= 1u8 << (7 - (i % 8))`
unfoldable pub set_bit : List ℕ → ℕ → List ℕ
set_bit bytes i = set bytes (i / 8) (bit_or (get_or bytes (i / 8) 0) (u8 (1 <<< (7 - i % 8))))

-- The loop over the bits from the place `i` on, which leaves at a set bit behind the bytes.
unfoldable pub or_bits : ℕ → List ℕ → List ℕ → List ℕ
unfolding set_bit
or_bits i [] bytes = bytes
or_bits i (b ∷ bits) bytes =
    let more = or_bits (i + 1) bits (if b == 0 then bytes else set_bit bytes i) in
    if not (b == 0) && leb (length bytes) (i / 8) then bytes else more

unfoldable pub check_crc12 : List ℕ → Bool
unfolding or_bits
check_crc12 decoded_bits =
    let bytes = or_bits 0 decoded_bits (replicate 11 0) in
    let received = bit_or (u16 (bit_and (get_or bytes 9 0) 0x1f <<< 7)) (get_or bytes 10 0 >>> 1) in
    let cleared = set (set bytes 9 (bit_and (get_or bytes 9 0) 0xe0)) 10 0 in
    received == crc12 cleared

unfoldable pub word_of_bits : ℕ → ℕ → ℕ → ℕ → ℕ → ℕ → ℕ
word_of_bits b0 b1 b2 b3 b4 b5 =
    bit_or
      (bit_or
        (bit_or (bit_or (bit_or (u8 (u8 b0 <<< 5)) (u8 (u8 b1 <<< 4))) (u8 (u8 b2 <<< 3)))
          (u8 (u8 b3 <<< 2)))
        (u8 (u8 b4 <<< 1)))
      (u8 b5)

-- The characters of so many words; `none` is a panic on an index out of range.
unfoldable pub extract_words : ℕ → List ℕ → Option (List ℕ)
unfolding word_of_bits
extract_words zero bits = some []
extract_words (suc words) (b0 ∷ b1 ∷ b2 ∷ b3 ∷ b4 ∷ b5 ∷ bits) =
    let rest = extract_words words bits in
    elim (get_elem? alphabet64 (word_of_bits b0 b1 b2 b3 b4 b5)) [
      | none ↦ none
      | some c ↦ elim rest [ none ↦ none | some cs ↦ some (c ∷ cs) ]
    ]
extract_words (suc words) bits = none

unfoldable pub extract_message_174 : List ℕ → Option (List ℕ)
unfolding check_crc12 extract_words
extract_message_174 decoded_bits =
    if not (check_crc12 decoded_bits) then some [] else extract_words 12 decoded_bits

-- `((bp.dec[72] << 2) | (bp.dec[73] << 1) | bp.dec[74]) as u8`
unfoldable pub decoded_flags : List ℕ → ℕ
decoded_flags dec =
    u8 (bit_or (bit_or (get_or dec 72 0 <<< 2) (get_or dec 73 0 <<< 1)) (get_or dec 74 0))
