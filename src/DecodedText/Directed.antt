-- ===== src/DecodedText/Directed.antt =====
-- A directed message that is packed is classified as one.
use js8rs.Prelude.{
  ℕ, ◌^◌, ◌<◌, ◌≡◌, ◌≢◌, refl, ◌∙◌, false, none, some, List, [], arith, trim, u8, subst, ◌>>>◌,
}
use js8rs.Protocol.{Submode, FrameFlags, flags_contains, flags_data, flags_none}
use js8rs.Protocol
use js8rs.Command.Kind.{is_empty, packed_code}
use js8rs.Varicode.Pack72.{pack72bits}
use js8rs.Varicode.Compound.{compound_fields, unpack_compound_frame}
use js8rs.Varicode.Compound.RoundTrip.{unpack_packed}
use js8rs.Varicode.Callsign.{pack_callsign}
use js8rs.Varicode.Fields.{pack_num}
use js8rs.Varicode.Jsc.{Dictionary}
use js8rs.Varicode.Huffman.{Table}
use js8rs.Varicode.Messages.{
  unpack_heartbeat_message, unpack_compound_message, unpack_directed_message, DirectedMessage,
}
use js8rs.Varicode.Messages.Directed.{
  DirectedPlan, directed_plan, directed_word, directed_byte, pack_directed_message, wrap_u8,
}
use js8rs.Varicode.Messages.Directed.RoundTrip.{
  said, packed_directed, directed_fits, unpack-pack_directed_message,
}
use js8rs.DecodedText.{
  ParsedFrame, fails, data_flagged, with_heartbeat, with_compound, with_directed, directed_text,
  unparsed, parse_frame, type_or_unknown, try_unpack_heartbeat, try_unpack_compound,
  try_unpack_directed,
}
use js8rs.DecodedText.Composition.{parse_frame-packed}

no_compound :
    (v r : ℕ)
    → v < 2 ^ 64
    → r < 256
    → u8 (v >>> 61) ≡ 3
    → unpack_compound_frame (pack72bits v r) ≡ none
no_compound v r hv hr flag = unpack_packed v r hv hr ∙ unfold compound_fields in rw flag refl

module _ (frame : List ℕ) (none_found : unpack_compound_frame frame ≡ none)
    (this : ParsedFrame) where
  no_heartbeat : data_flagged this ≡ false → try_unpack_heartbeat this frame ≡ fails
  unfolding try_unpack_heartbeat unpack_heartbeat_message with_heartbeat
  no_heartbeat plain = rw (plain, unpack_heartbeat_message, none_found) refl

  no_compound_message : try_unpack_compound this frame ≡ fails
  unfolding try_unpack_compound unpack_compound_message with_compound
  no_compound_message = rw (unpack_compound_message, none_found) refl

-- What is shown for the parts of a directed message.
abbrev pub shown_directed : List ℕ → DirectedMessage → Submode → ParsedFrame
shown_directed frame m submode = record {
  frame_type = Protocol.frame_directed;
  encoded = frame;
  is_alt = false;
  is_heartbeat = false;
  compound = [];
  directed = m.parts;
  extra = [];
  message = directed_text m.parts;
  flags = flags_none;
  submode = submode;
}

-- A text in which a recipient and a command are found and whose two callsigns pack to numbers other
-- than 0 is packed into a frame that is classified without flags as a directed frame: its parts are
-- what the two packed callsigns unpack to, the token of the packed command, and the packed number.
pub parse_frame-pack_directed_message :
    (dictionary : Dictionary) (entries : Table) (text mycall : List ℕ) (plan : DirectedPlan)
    (submode : Submode)
    → directed_plan text mycall ≡ some plan
    → (pack_callsign plan.from).0 ≢ 0
    → (pack_callsign plan.to).0 ≢ 0
    → let frame = (pack_directed_message text mycall).0 in
      parse_frame dictionary entries frame flags_none submode
      ≡ some (
          shown_directed frame
            (said
              (pack_callsign plan.from)
              (pack_callsign plan.to)
              (wrap_u8 (packed_code plan.kind))
              (pack_num (trim plan.num)).0)
            submode)
unfolding try_unpack_directed with_directed flags_contains unparsed is_empty type_or_unknown
parse_frame-pack_directed_message dictionary entries text mycall plan submode e hf ht =
    let from = pack_callsign plan.from in
    let to = pack_callsign plan.to in
    let word = directed_word from.0 to.0 (wrap_u8 (packed_code plan.kind)) in
    let byte = directed_byte from.1 to.1 (pack_num (trim plan.num)).0 in
    let packs = packed_directed text mycall plan e hf ht in
    let (hv, hr, flag) = directed_fits plan in
    let frame = pack72bits word byte in
    let m = said from to (wrap_u8 (packed_code plan.kind)) (pack_num (trim plan.num)).0 in
    let read =
      subst (λ f. unpack_directed_message f ≡ some m) packs
        (unpack-pack_directed_message text mycall plan e hf ht) in
    let this = unparsed frame flags_none submode in
    let bare = no_compound word byte (omega (arith, hv)) hr flag in
    let tried = parse_frame-packed dictionary entries word byte flags_none submode hv hr refl in
    rw packs (
      rw (tried, no_heartbeat frame bare this refl, no_compound_message frame bare this)
        (rw read refl))
