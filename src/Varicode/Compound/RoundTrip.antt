-- ===== src/Varicode/Compound/RoundTrip.antt =====
-- Compound frames are read back as they were packed.
use js8rs.Prelude.{
  ℕ, ◌+◌, ◌*◌, ◌/◌, ◌%◌, ◌^◌, ◌<◌, ◌≡◌, ◌≢◌, refl, ◌∙◌, ◌⊎◌, ◌↔◌, some, List, [], ◌∷◌, length,
  bit_and, u8, u16, ◌<<<◌, ◌>>>◌, low_mask, bit_and_mask, bit_and_step, bit_or_fields, arith,
}
use js8rs.Varicode.Pack72.{pack72bits}
use js8rs.Varicode.Pack72.RoundTrip.{unpack72bits-pack72bits, pack72bits_shape}
use js8rs.Varicode.Alnum50.{alnum_word, strip_spaces, pack_alpha_numeric50, unpack_alpha_numeric50}
use js8rs.Varicode.Alnum50.RoundTrip.{AtFirstOnly, unpack-pack_word}
use js8rs.Varicode.Compound.{
  compound_value, compound_rem, pack_compound_frame, compound_fields, not_a_frame,
  unpack_compound_frame, frame_data, frame_directed,
}

high_eleven : (n : ℕ) → n < 2 ^ 16 → bit_and n (low_mask 11 <<< 5) >>> 5 ≡ n / 32
high_eleven n h = omega (
  arith,
  bit_and_step n 0xffe0,
  bit_and_step (n / 2) 0x7ff0,
  bit_and_step (n / 2 / 2) 0x3ff8,
  bit_and_step (n / 2 / 2 / 2) 0x1ffc,
  bit_and_step (n / 2 / 2 / 2 / 2) 0xffe,
  bit_and_mask 11 (n / 2 / 2 / 2 / 2 / 2),
)

pub compound_value-sum :
    (ty call num : ℕ)
    → ty < 8
    → call < 2 ^ 50
    → num < 2 ^ 16
    → compound_value ty call num ≡ ty * 2 ^ 61 + call * 2 ^ 11 + num / 32
unfolding compound_value
compound_value-sum ty call num ht hc hn = ground (
  arith,
  bit_and_mask 50 call,
  high_eleven num hn,
  bit_or_fields 61 ty (call * 2 ^ 11),
  bit_or_fields 11 (ty * 2 ^ 50 + call) (num / 32),
)

compound_rem-sum : (num bits3 : ℕ) → bits3 < 8 → compound_rem num bits3 ≡ num % 32 * 8 + bits3
unfolding compound_rem
compound_rem-sum num bits3 h =
    ground (arith, bit_and_mask 5 (u8 num), bit_and_mask 3 bits3, bit_or_fields 3 (num % 32) bits3)

-- The frame types that travel as compound frames.
abbrev pub IsCompoundType : ℕ → Type 0
IsCompoundType ty = (ty < 8) × (ty ≢ frame_data) × (ty ≢ frame_directed)

compound_fields-sum :
    (ty call num bits3 : ℕ)
    → IsCompoundType ty
    → call < 2 ^ 50
    → num < 2 ^ 16
    → bits3 < 8
    → compound_fields (ty * 2 ^ 61 + call * 2 ^ 11 + num / 32, num % 32 * 8 + bits3)
      ≡ some (record {
        parts = unpack_alpha_numeric50 call ∷ [] ∷ [];
        ty = ty;
        num = num;
        bits3 = bits3;
      })
unfolding compound_fields
compound_fields-sum ty call num bits3 (h8, h4, h3) hc hn hb =
    let v = ty * 2 ^ 61 + call * 2 ^ 11 + num / 32 in
    let flag : u8 (v >>> 61) ≡ ty = omega arith in
    let callsign : bit_and (v >>> 11) (low_mask 50) ≡ call =
      omega (arith, bit_and_mask 50 (v / 2 ^ 11)) in
    let eleven : u16 (bit_and v 0x07ff) ≡ num / 32 = omega (arith, bit_and_mask 11 v) in
    let three : bit_and (num % 32 * 8 + bits3) (low_mask 3) ≡ bits3 =
      omega (arith, bit_and_mask 3 (num % 32 * 8 + bits3)) in
    let five : (num % 32 * 8 + bits3) >>> 3 ≡ num % 32 = omega arith in
    rw (flag, callsign, eleven, three, five) (ground (arith, bit_or_fields 5 (num / 32) (num % 32)))

compound_fields-value :
    (ty call num bits3 : ℕ)
    → IsCompoundType ty
    → call < 2 ^ 50
    → num < 2 ^ 16
    → bits3 < 8
    → compound_fields (compound_value ty call num, compound_rem num bits3)
      ≡ some (record {
        parts = unpack_alpha_numeric50 call ∷ [] ∷ [];
        ty = ty;
        num = num;
        bits3 = bits3;
      })
compound_fields-value ty call num bits3 ht hc hn hb =
    rw (compound_value-sum ty call num ht.0 hc hn, compound_rem-sum num bits3 hb)
      (compound_fields-sum ty call num bits3 ht hc hn hb)

pub packed_frame :
    (callsign : List ℕ) (ty num bits3 : ℕ)
    → IsCompoundType ty
    → pack_alpha_numeric50 callsign ≢ 0
    → pack_compound_frame callsign ty num bits3
      ≡ pack72bits (compound_value ty (pack_alpha_numeric50 callsign) num) (compound_rem num bits3)
unfolding pack_compound_frame
packed_frame callsign ty num bits3 ht ne = ground arith

-- A packed word and byte are a frame, and its fields are those of the word and the byte.
pub unpack_packed :
    (v r : ℕ)
    → v < 2 ^ 64
    → r < 256
    → unpack_compound_frame (pack72bits v r) ≡ compound_fields (v, r)
unfolding unpack_compound_frame not_a_frame
unpack_packed v r hv hr =
    let (n, spaces) = pack72bits_shape v r hr in rw (n, spaces, unpack72bits-pack72bits v r hv hr)

pub compound_rem-lt : (num bits3 : ℕ) → compound_rem num bits3 < 256
unfolding compound_rem
compound_rem-lt num bits3 =
    ground
      (arith, bit_and_mask 5 (u8 num), bit_and_mask 3 bits3, bit_or_fields 3 (num % 32) (bits3 % 8))

nil-length : (xs : List ℕ) → length xs ≡ 12 → xs ≢ []
nil-length [] h = absurd (omega arith)
nil-length (x ∷ xs) h = λ e. cc

-- A compound callsign frame of a type below 8 that is neither data nor directed, with a 16-bit
-- number and three more bits, whose callsign packs to another number than 0 and has no @ but in the
-- first place, is read back with that type, number and bits, and with the callsign as the 50-bit
-- field lays it out.
pub unpack-pack_compound_frame :
    (callsign : List ℕ) (ty num bits3 : ℕ)
    → AtFirstOnly callsign
    → pack_alpha_numeric50 callsign ≢ 0
    → IsCompoundType ty
    → num < 2 ^ 16
    → bits3 < 8
    → unpack_compound_frame (pack_compound_frame callsign ty num bits3)
      ≡ some (record {
        parts = strip_spaces (alnum_word callsign) ∷ [] ∷ [];
        ty = ty;
        num = num;
        bits3 = bits3;
      })
unpack-pack_compound_frame callsign ty num bits3 h ne ht hn hb =
    let (back, fits) = unpack-pack_word callsign h in
    let packs = packed_frame callsign ty num bits3 ht ne in
    let call = pack_alpha_numeric50 callsign in
    rw packs (
      unpack_packed (compound_value ty call num) (compound_rem num bits3)
        (omega (arith, compound_value-sum ty call num ht.0 fits hn, ht.0))
        (omega (arith, compound_rem-sum num bits3 hb))
      ∙ compound_fields-value ty call num bits3 ht fits hn hb
      ∙ rw back refl)

-- Exactly the data and directed types, and a callsign that packs to 0, have no compound frame.
pub pack_compound_frame-eq-nil_iff :
    (callsign : List ℕ) (ty num bits3 : ℕ)
    → (pack_compound_frame callsign ty num bits3 ≡ [])
      ↔ ((ty ≡ frame_data) ⊎ (ty ≡ frame_directed) ⊎ (pack_alpha_numeric50 callsign ≡ 0))
unfolding pack_compound_frame
pack_compound_frame-eq-nil_iff callsign ty num bits3 =
    let v = compound_value ty (pack_alpha_numeric50 callsign) num in
    let r = compound_rem num bits3 in
    let shape = pack72bits_shape v r (compound_rem-lt num bits3) in
    ground (arith, nil-length (pack72bits v r))
