-- ===== src/DecodedText/Composition.antt =====
-- Packing a message and classifying its frame, one behind the other.
use js8rs.Prelude.{
  ℕ, ◌^◌, ◌<◌, ◌≡◌, ◌≢◌, refl, ap, ◌∙◌, true, false, some, List, [], ◌∷◌, ◌++◌, if◌then◌else◌,
  arith, map, inl, inr, ◌⊎◌, codes, to_ascii_uppercase,
}
use js8rs.Prelude.Int.{pos}
use js8rs.Protocol.{Submode, FrameFlags, flags_contains, flags_data, flags_none, frame_heartbeat}
use js8rs.Command.Kind.{is_empty}
use js8rs.Varicode.Pack72.{pack72bits}
use js8rs.Varicode.Pack72.RoundTrip.{unpack72bits-pack72bits, pack72bits_shape}
use js8rs.Varicode.Pack72.Trim.{trim-pack72bits, bits72_first}
use js8rs.Varicode.Compound.{not_a_frame, compound_value, compound_rem}
use js8rs.Varicode.Compound.RoundTrip.{packed_frame, compound_value-sum, compound_rem-lt}
use js8rs.Varicode.Alnum50.{alnum_word, strip_spaces, pack_alpha_numeric50}
use js8rs.Varicode.Alnum50.RoundTrip.{AtFirstOnly, unpack-pack_word}
use js8rs.Varicode.Jsc.{Dictionary}
use js8rs.Varicode.Huffman.{Table}
use js8rs.Varicode.DataFrames.{unpack_data_message}
use js8rs.Varicode.Messages.{cq_string}
use js8rs.Varicode.Messages.Heartbeat.{
  HeartbeatParts, heartbeat_parts, pack_heartbeat_message, heartbeat_extra, heartbeat_cq,
  is_alt_type,
}
use js8rs.Varicode.Messages.Heartbeat.RoundTrip.{
  heard, packed_heartbeat, heartbeat_extra_lem, heartbeat_parts_lem, unpack-pack_heartbeat_message,
}
use js8rs.DecodedText.{
  ParsedFrame, unpacks, or_else, result, with_heartbeat, heartbeat_text, unparsed, attempts,
  parse_frame, type_or_unknown, try_unpack_fast_data, try_unpack_data, try_unpack_heartbeat,
  try_unpack_compound, try_unpack_directed, build_compound, join, nonempty,
}

not_a_frame-pack72bits : (v r : ℕ) → r < 256 → not_a_frame (pack72bits v r) ≡ false
unfolding not_a_frame
not_a_frame-pack72bits v r h = let (n, spaces) = pack72bits_shape v r h in rw (n, spaces) refl

module _ (dictionary : Dictionary) (entries : Table) where
  unpack_data-cleared :
      (v r : ℕ)
      → v < 2 ^ 63
      → r < 256
      → unpack_data_message dictionary entries (pack72bits v r) ≡ some []
  unfolding unpack_data_message
  unpack_data-cleared v r hv hr =
      let (rest, first) = bits72_first v r hv in
      rw (not_a_frame-pack72bits v r hr, unpack72bits-pack72bits v r (omega arith) hr, first) refl

  -- A packed word without its highest bit, and without the flag of data, is tried as a heartbeat
  -- first.
  pub parse_frame-packed :
      (v r : ℕ) (flags : FrameFlags) (submode : Submode)
      → v < 2 ^ 63
      → r < 256
      → flags_contains flags flags_data ≡ false
      → let frame = pack72bits v r in
        let this = unparsed frame flags submode in
        parse_frame dictionary entries frame flags submode
        ≡ result this (
            or_else
              (try_unpack_heartbeat this frame)
              (or_else (try_unpack_compound this frame) (try_unpack_directed this frame)))
  unfolding parse_frame attempts try_unpack_fast_data try_unpack_data unparsed is_empty
  parse_frame-packed v r flags submode hv hr plain =
      rw
        (
          trim-pack72bits v r hr,
          not_a_frame-pack72bits v r hr,
          plain,
          unpack_data-cleared v r hv hr,
        )
        refl

-- A word below its three bits of type.
compound_value-lt :
    (callsign : List ℕ) (num : ℕ)
    → AtFirstOnly callsign
    → num < 2 ^ 16
    → compound_value 0 (pack_alpha_numeric50 callsign) num < 2 ^ 61
compound_value-lt callsign num h fits =
    let (back, small) = unpack-pack_word callsign h in
    omega (arith, compound_value-sum 0 (pack_alpha_numeric50 callsign) num (omega arith) small fits)

build_compound_single :
    (call : List ℕ) (more : List (List ℕ)) → build_compound (call ∷ [] ∷ more) ≡ call
unfolding build_compound nonempty join is_empty
build_compound_single [] more = refl
build_compound_single (c ∷ call) more = refl

-- The text of a heartbeat or a CQ call.
abbrev pub spoken : HeartbeatParts → List ℕ
spoken parts = if is_alt_type parts.ty then codes "@ALLCALL " ++ parts.ty else codes "@HB HEARTBEAT"

-- What is shown for a heartbeat or a CQ call of `callsign`.
abbrev pub shown : List ℕ → HeartbeatParts → List ℕ → Submode → ParsedFrame
shown frame parts callsign submode =
    let call = strip_spaces (alnum_word callsign) in
    let grid = map to_ascii_uppercase parts.grid in
    record {
      frame_type = frame_heartbeat;
      encoded = frame;
      is_alt = is_alt_type parts.ty;
      is_heartbeat = true;
      compound = call;
      directed = [];
      extra = grid;
      message = call ++ codes ": " ++ spoken parts ++ codes " " ++ grid ++ codes " ";
      flags = flags_none;
      submode = submode;
    }

with_heartbeat-heard :
    (frame : List ℕ) (parts : HeartbeatParts) (callsign : List ℕ) (submode : Submode)
    → ((is_alt_type parts.ty ≡ false) ⊎ (cq_string (pos (heartbeat_cq parts)) ≡ parts.ty))
    → with_heartbeat (unparsed frame flags_none submode) (some (heard parts callsign))
      ≡ unpacks (shown frame parts callsign submode)
unfolding with_heartbeat unparsed heartbeat_text type_or_unknown
with_heartbeat-heard frame parts callsign submode (inl e) = rw (build_compound_single, e) refl
with_heartbeat-heard frame parts callsign submode (inr e) = rw (build_compound_single, e) refl

-- A heartbeat or CQ text whose parts are found, packed for a callsign that packs to another number
-- than 0 and has no @ but in the first place, is classified without flags as a heartbeat frame of
-- that callsign, as the 50-bit field lays it out, with the locator in capitals and a message that
-- says which call it was.
pub parse_frame-pack_heartbeat_message :
    (dictionary : Dictionary) (entries : Table) (text callsign : List ℕ) (parts : HeartbeatParts)
    (submode : Submode)
    → heartbeat_parts text ≡ some parts
    → is_empty callsign ≡ false
    → AtFirstOnly callsign
    → pack_alpha_numeric50 callsign ≢ 0
    → let frame = (pack_heartbeat_message text callsign).0 in
      parse_frame dictionary entries frame flags_none submode
      ≡ some (shown frame parts callsign submode)
unfolding try_unpack_heartbeat flags_contains unparsed
parse_frame-pack_heartbeat_message dictionary entries text callsign parts submode e some_call ats
      packs =
    let (listed, locator) = heartbeat_parts_lem text parts e in
    let (fits, grid, alt) = heartbeat_extra_lem parts locator in
    let (read, calls) = unpack-pack_heartbeat_message text callsign parts e some_call ats packs in
    let extra = heartbeat_extra parts in
    let word = compound_value 0 (pack_alpha_numeric50 callsign) extra in
    let byte = compound_rem extra (heartbeat_cq parts) in
    let packed : (pack_heartbeat_message text callsign).0 ≡ pack72bits word byte =
      packed_heartbeat text callsign parts e some_call
      ∙ packed_frame callsign 0 extra (heartbeat_cq parts) (omega arith, omega arith, omega arith)
          packs in
    let small = compound_value-lt callsign extra ats fits in
    let tried =
      parse_frame-packed dictionary entries word byte flags_none submode (omega arith)
        (compound_rem-lt extra (heartbeat_cq parts)) refl in
    let read' = rw packed at read in
    let frame = pack72bits word byte in
    let this = unparsed frame flags_none submode in
    let others = or_else (try_unpack_compound this frame) (try_unpack_directed this frame) in
    rw packed (
      rw (tried, try_unpack_heartbeat, read')
        (ap (λ a. result this (or_else a others))
          (with_heartbeat-heard frame parts callsign submode calls)))
