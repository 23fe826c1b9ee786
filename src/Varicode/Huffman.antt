-- ===== src/Varicode/Huffman.antt =====
-- src/varicode/mod.rs: the Huffman code, `huff_decode` and `pack_huff_message`. A code is the text
-- of its bits, as in the source.
pub mod Laws
pub mod RoundTrip
use js8rs.Prelude.{
  ℕ, zero, suc, ◌+◌, ◌-◌, ◌*◌, ◌/◌, ◌%◌, ◌^◌, Bool, true, false, not, ◌&&◌, Option, none, some,
  List, [], ◌∷◌, ◌++◌, length, drop, map, ltb, leb, ◌==◌, if◌then◌else◌, bit_or, u8, u64, ◌<<<◌,
  ◌>>>◌, codes, to_ascii_uppercase,
}
use js8rs.Varicode.Pack72.{pack72bits}
use js8rs.Varicode.Jsc.{Frame, frame_bits, u128, prefix_bits}

abbrev pub Table : Type 0
Table = List (ℕ × List ℕ)

unfoldable pub hufftable : Table
hufftable =
    (b' ', codes "01")
    ∷ (b'E', codes "100")
    ∷ (b'T', codes "1101")
    ∷ (b'A', codes "0011")
    ∷ (b'O', codes "11111")
    ∷ (b'I', codes "11100")
    ∷ (b'N', codes "10111")
    ∷ (b'S', codes "10100")
    ∷ (b'H', codes "00011")
    ∷ (b'R', codes "00000")
    ∷ (b'D', codes "111011")
    ∷ (b'L', codes "110011")
    ∷ (b'C', codes "110001")
    ∷ (b'U', codes "101101")
    ∷ (b'M', codes "101011")
    ∷ (b'W', codes "001011")
    ∷ (b'F', codes "001001")
    ∷ (b'G', codes "000101")
    ∷ (b'Y', codes "000011")
    ∷ (b'P', codes "1111011")
    ∷ (b'B', codes "1111001")
    ∷ (b'.', codes "1110100")
    ∷ (b'V', codes "1100101")
    ∷ (b'K', codes "1100100")
    ∷ (b'-', codes "1100001")
    ∷ (b'+', codes "1100000")
    ∷ (b'?', codes "1011001")
    ∷ (b'!', codes "1011000")
    ∷ (b'"', codes "1010101")
    ∷ (b'X', codes "1010100")
    ∷ (b'0', codes "0010101")
    ∷ (b'J', codes "0010100")
    ∷ (b'1', codes "0010001")
    ∷ (b'Q', codes "0010000")
    ∷ (b'2', codes "0001001")
    ∷ (b'Z', codes "0001000")
    ∷ (b'3', codes "0000101")
    ∷ (b'5', codes "0000100")
    ∷ (b'4', codes "11110101")
    ∷ (b'9', codes "11110100")
    ∷ (b'8', codes "11110001")
    ∷ (b'6', codes "11110000")
    ∷ (b'7', codes "11101011")
    ∷ (b'/', codes "11101010")
    ∷ []

-- `HUFFTABLE.get`
unfoldable pub get_code : Table → ℕ → Option (List ℕ)
get_code [] ch = none
get_code ((key, code) ∷ table) ch = if key == ch then some code else get_code table ch

abbrev pub is_one : ℕ → Bool
is_one byte = byte == b'1'

-- The test of one entry: the code has the next bits.
unfoldable pub code_matches : List ℕ → List Bool → Bool
code_matches [] bits = true
code_matches (byte ∷ code) [] = false
code_matches (byte ∷ code) (bit ∷ bits) =
    (if bit then is_one byte else not (is_one byte)) && code_matches code bits

-- The entries in the order of the map's iterator.
unfoldable pub find_code : Table → List Bool → Option (ℕ × ℕ)
find_code [] bits = none
find_code ((key, code) ∷ table) bits =
    if code_matches code bits then some (key, length code) else find_code table bits

unfoldable pub decode_loop : Table → ℕ → List Bool → List ℕ
decode_loop entries zero bits = []
decode_loop entries (suc rounds) [] = []
decode_loop entries (suc rounds) (bit ∷ bits) = elim (find_code entries (bit ∷ bits)) [
  | none ↦ []
  | some found ↦ found.0 ∷ decode_loop entries rounds (drop found.1 (bit ∷ bits))
]

-- A code takes a bit at least, so the bits bound the rounds. The order of the map's entries is the
-- one of the `phf` crate: a parameter.
unfoldable pub huff_decode : Table → List Bool → List ℕ
unfolding decode_loop
huff_decode entries bitvec = decode_loop entries (length bitvec) bitvec

unfoldable pub add_huff_code : Frame → List ℕ → Frame
add_huff_code frame code = record {
  bits = prefix_bits frame.bits (map is_one code);
  bit_len = frame.bit_len + length code;
  consumed = frame.consumed + 1;
}

-- The loop over the characters; `none` where one has no code.
unfoldable pub huff_loop : List ℕ → Frame → Option Frame
huff_loop [] frame = some frame
huff_loop (ch ∷ input) frame =
    if ltb ch 128
    then elim (get_code hufftable (to_ascii_uppercase ch)) [
      | none ↦ none
      | some code ↦
          let more = huff_loop input (add_huff_code frame code) in
          if leb frame_bits (frame.bit_len + length code) then some frame else more
    ]
    else none

unfoldable pub pad_frame : Frame → ℕ
pad_frame frame =
    let pad = frame_bits - frame.bit_len in
    if pad == 0
    then frame.bits
    else if ltb 1 pad
    then bit_or (u128 (frame.bits <<< pad)) (2 ^ (pad - 1) - 1)
    else u128 (frame.bits <<< pad)

-- The frame, and the number of characters that goes to `n_out`.
unfoldable pub pack_huff_message : List ℕ → List Bool → List ℕ × ℕ
pack_huff_message input prefix =
    elim (huff_loop input
      (record { bits = prefix_bits 0 prefix; bit_len = length prefix; consumed = 0 })) [
        | none ↦ ([], 0)
        | some frame ↦
            let bits = pad_frame frame in (pack72bits (u64 (bits >>> 8)) (u8 bits), frame.consumed)
      ]
