-- ===== src/Varicode/Compound.antt =====
-- src/varicode/mod.rs: the 72-bit frame of a compound callsign, `[3][50][11],[5][3]`.
pub mod RoundTrip
use js8rs.Prelude.{
  ℕ, ◌+◌, ◌-◌, ◌*◌, ◌/◌, ◌%◌, ◌^◌, Bool, true, false, ◌||◌, Option, none, some, List, [], ◌∷◌,
  length, ltb, ◌==◌, if◌then◌else◌, bit_and, bit_or, u8, u16, u64, ◌<<<◌, ◌>>>◌, low_mask,
}
use js8rs.Command.Kind.{contains_byte}
use js8rs.Varicode.Pack72.{pack72bits, unpack72bits}
use js8rs.Varicode.Alnum50.{pack_alpha_numeric50, unpack_alpha_numeric50}

abbrev pub frame_compound : ℕ
frame_compound = 1

abbrev pub frame_directed : ℕ
frame_directed = 3

abbrev pub frame_data : ℕ
frame_data = 4

-- The word and the byte of a frame.
unfoldable pub compound_value : ℕ → ℕ → ℕ → ℕ
compound_value packed_flag packed_callsign num =
    let mask11 = low_mask 11 <<< 5 in
    let packed_11 = bit_and num mask11 >>> 5 in
    bit_or (bit_or (u64 (packed_flag <<< 61)) (u64 (bit_and packed_callsign (low_mask 50) <<< 11)))
      packed_11

unfoldable pub compound_rem : ℕ → ℕ → ℕ
compound_rem num bits3 =
    let packed_5 = bit_and (u8 num) (low_mask 5) in
    bit_or (u8 (packed_5 <<< 3)) (bit_and bits3 (low_mask 3))

-- The empty text says that the frame cannot be packed.
unfoldable pub pack_compound_frame : List ℕ → ℕ → ℕ → ℕ → List ℕ
pack_compound_frame callsign ty num bits3 =
    if ty == frame_data || ty == frame_directed
    then []
    else if pack_alpha_numeric50 callsign == 0
    then []
    else pack72bits (compound_value ty (pack_alpha_numeric50 callsign) num) (compound_rem num bits3)

-- What a frame holds: the parts that are returned, and the three values that are written out.
pub record CompoundFrame : Type 0 where
  pub parts : List (List ℕ)
  pub ty : ℕ
  pub num : ℕ
  pub bits3 : ℕ

unfoldable pub compound_fields : ℕ × ℕ → Option CompoundFrame
compound_fields (bits, packed_8) =
    let packed_5 = packed_8 >>> 3 in
    let packed_3 = bit_and packed_8 (low_mask 3) in
    let packed_flag = u8 (bits >>> 61) in
    let packed_callsign = bit_and (bits >>> 11) (low_mask 50) in
    let packed_11 = u16 (bit_and bits 0x07ff) in
    if packed_flag == frame_data || packed_flag == frame_directed
    then none
    else some (record {
      parts = unpack_alpha_numeric50 packed_callsign ∷ [] ∷ [];
      ty = packed_flag;
      num = bit_or (u16 (packed_11 <<< 5)) packed_5;
      bits3 = packed_3;
    })

-- Whether a text cannot be a frame.
unfoldable pub not_a_frame : List ℕ → Bool
not_a_frame text = ltb (length text) 12 || contains_byte b' ' text

-- `none` is the empty vector, and then nothing is written out.
unfoldable pub unpack_compound_frame : List ℕ → Option CompoundFrame
unpack_compound_frame text =
    if not_a_frame text
    then none
    else elim (unpack72bits text) [ none ↦ none | some words ↦ compound_fields words ]
