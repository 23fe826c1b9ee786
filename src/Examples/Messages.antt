-- ===== src/Examples/Messages.antt =====
-- A CQ call, a directed report, and the command in a text.
use js8rs.Prelude.{
  ℕ, ◌≡◌, ◌≢◌, refl, ◌⊎◌, false, none, some, List, [], codes, arith, trim, to_ascii_uppercase,
  str_eq, as_bytes, is_whitespace, trim_start, is_ascii_digit, utf8_char, is_ascii, trim_end,
  cons_trimmed, is_ascii_uppercase, is_ascii_alphabetic, is_ascii_alphanumeric, is_ascii_lowercase,
}
use js8rs.Prelude.Int.{pos}
use js8rs.Protocol.{normal, flags_none}
use js8rs.Command.Kind.{is_empty, packed_code, snr, from_wire, has_snr, eq_ignore_ascii_case}
use js8rs.Command.Table.{
  commands, find_command, command_prefix, candidates_by, command_candidates, first_standing, stands,
  starts_ignoring_case, ends_itself,
}
use js8rs.Command.Table.Longest.{IsLongest, find_command-IsLongest}
use js8rs.Command.Calls.{
  is_valid_call, is_compound_call, is_valid_base, is_base_call, digit_in_place,
  has_letter_digit_pair, without_portable,
}
use js8rs.Varicode.Alnum50.{
  pack_alpha_numeric50, alnum_word, keep_indexed, alnum_idx, pack_word, is_slash, lay_out,
  make_room, needs_space, insert_space,
}
use js8rs.Varicode.Alnum50.RoundTrip.{AtFirstOnly}
use js8rs.Varicode.Callsign.{
  pack_callsign, find_basecall, basecalls, starts_with, basecall, pack_plain, is_portable, lay_call,
  with_q, without_a, pack_call, is_call, call_number,
}
use js8rs.Varicode.Fields.{pack_num}
use js8rs.Varicode.Grid.{is_grid, grid_pairs, grid_letter}
use js8rs.Varicode.Jsc.{Dictionary}
use js8rs.Varicode.Huffman.{hufftable}
use js8rs.Varicode.Messages.{cq_string, unpack_heartbeat_message}
use js8rs.Varicode.Messages.Heartbeat.{
  HeartbeatParts, heartbeat_parts, pack_heartbeat_message, heartbeat_cq, is_alt_type, skip_group,
  find_type, heartbeat_grid, skip_space, at_word_end,
}
use js8rs.Varicode.Messages.Heartbeat.RoundTrip.{heard, unpack-pack_heartbeat_message}
use js8rs.Varicode.Messages.Directed.{
  DirectedPlan, directed_plan, pack_directed_message, wrap_u8, call_end, call_length, parse_cmd,
  snr_end, digit_count, wire_kind, from_or_placeholder, to_or_placeholder,
}
use js8rs.Varicode.Messages.Directed.RoundTrip.{said}
use js8rs.DecodedText.{parse_frame}
use js8rs.DecodedText.Shapes.{IsConsistent, parse_frame-IsConsistent}
use js8rs.DecodedText.Composition.{shown, parse_frame-pack_heartbeat_message}
use js8rs.DecodedText.Directed.{shown_directed, parse_frame-pack_directed_message}

-- No word is known.
abbrev no_words : Dictionary
no_words = record { count = 0; entry = λ i. none; lookup = λ text. none }

abbrev caller : List ℕ
caller = codes "KN4CRD"

caller-AtFirstOnly : AtFirstOnly caller
unfolding keep_indexed
caller-AtFirstOnly = ground arith

caller-packs : pack_alpha_numeric50 caller ≢ 0
unfolding pack_alpha_numeric50 pack_word alnum_word keep_indexed alnum_idx is_slash lay_out
    make_room needs_space insert_space
caller-packs e = absurd (omega (arith, e))

caller-is_empty : is_empty caller ≡ false
unfolding is_empty
caller-is_empty = refl

abbrev call_text : List ℕ
call_text = codes "CQ DX EM73"

abbrev call_parts : HeartbeatParts
call_parts = record { ty = codes "CQ DX"; grid = codes "EM73"; rest = [] }

call_text-parts : heartbeat_parts call_text ≡ some call_parts
unfolding heartbeat_parts skip_group find_type heartbeat_grid skip_space at_word_end starts_with
    str_eq trim_start is_whitespace is_grid grid_pairs grid_letter as_bytes utf8_char
    to_ascii_uppercase is_ascii_digit is_ascii_alphanumeric is_ascii_alphabetic is_ascii_uppercase
    is_ascii_lowercase
call_text-parts = refl

unpack-pack_heartbeat_message_example :
    (unpack_heartbeat_message (pack_heartbeat_message call_text caller).0
      ≡ some (heard call_parts caller))
    × ((is_alt_type call_parts.ty ≡ false)
        ⊎ (cq_string (pos (heartbeat_cq call_parts)) ≡ call_parts.ty))
unpack-pack_heartbeat_message_example =
    unpack-pack_heartbeat_message call_text caller call_parts call_text-parts caller-is_empty
      caller-AtFirstOnly caller-packs

parse_frame-pack_heartbeat_message_example :
    parse_frame no_words hufftable (pack_heartbeat_message call_text caller).0 flags_none normal
    ≡ some (shown (pack_heartbeat_message call_text caller).0 call_parts caller normal)
parse_frame-pack_heartbeat_message_example =
    parse_frame-pack_heartbeat_message no_words hufftable call_text caller call_parts normal
      call_text-parts caller-is_empty caller-AtFirstOnly caller-packs

call_parses :
    parse_frame no_words hufftable (pack_heartbeat_message call_text caller).0 flags_none normal
    ≡ some (shown (pack_heartbeat_message call_text caller).0 call_parts caller normal)
call_parses =
    parse_frame-pack_heartbeat_message no_words hufftable call_text caller call_parts normal
      call_text-parts caller-is_empty caller-AtFirstOnly caller-packs

parse_frame-IsConsistent_example :
    IsConsistent
      (pack_heartbeat_message call_text caller).0
      flags_none
      normal
      (shown (pack_heartbeat_message call_text caller).0 call_parts caller normal)
parse_frame-IsConsistent_example =
    parse_frame-IsConsistent no_words hufftable (pack_heartbeat_message call_text caller).0
      flags_none normal (shown (pack_heartbeat_message call_text caller).0 call_parts caller normal)
      call_parses

abbrev report_text : List ℕ
report_text = codes "K1ABC SNR -05"

abbrev report_plan : DirectedPlan
report_plan = record {
  from = caller;
  to = codes "K1ABC";
  kind = snr;
  num = codes " -05";
  rest = [];
}

report_text-plan : directed_plan report_text caller ≡ some report_plan
unfolding directed_plan call_end call_length parse_cmd snr_end digit_count wire_kind
    from_or_placeholder to_or_placeholder skip_space command_prefix find_command candidates_by
    command_candidates first_standing stands starts_ignoring_case ends_itself is_valid_call
    is_compound_call is_valid_base is_base_call digit_in_place has_letter_digit_pair
    without_portable find_basecall basecalls str_eq from_wire has_snr is_ascii eq_ignore_ascii_case
    to_ascii_uppercase is_ascii_digit is_ascii_alphanumeric is_ascii_alphabetic is_ascii_uppercase
    is_ascii_lowercase is_whitespace commands
report_text-plan = refl

packs_from : (pack_callsign caller).0 ≢ 0
unfolding pack_callsign basecall is_portable pack_plain lay_call with_q without_a pack_call is_call
    call_number starts_with as_bytes utf8_char trim trim_start trim_end cons_trimmed is_whitespace
    is_ascii to_ascii_uppercase is_ascii_digit is_ascii_alphanumeric is_ascii_alphabetic
    is_ascii_uppercase is_ascii_lowercase alnum_idx
packs_from e = absurd (omega (arith, e))

packs_to : (pack_callsign (codes "K1ABC")).0 ≢ 0
unfolding pack_callsign basecall is_portable pack_plain lay_call with_q without_a pack_call is_call
    call_number starts_with as_bytes utf8_char trim trim_start trim_end cons_trimmed is_whitespace
    is_ascii to_ascii_uppercase is_ascii_digit is_ascii_alphanumeric is_ascii_alphabetic
    is_ascii_uppercase is_ascii_lowercase alnum_idx
packs_to e = absurd (omega (arith, e))

parse_frame-pack_directed_message_example :
    parse_frame no_words hufftable (pack_directed_message report_text caller).0 flags_none normal
    ≡ some (
        shown_directed
          (pack_directed_message report_text caller).0
          (said
            (pack_callsign caller)
            (pack_callsign (codes "K1ABC"))
            (wrap_u8 (packed_code snr))
            (pack_num (trim (codes " -05"))).0)
          normal)
parse_frame-pack_directed_message_example =
    parse_frame-pack_directed_message no_words hufftable report_text caller report_plan normal
      report_text-plan packs_from packs_to

find_command-IsLongest_example :
    IsLongest (codes "QUERY MSGS? K1ABC") commands (find_command (codes "QUERY MSGS? K1ABC"))
find_command-IsLongest_example = find_command-IsLongest (codes "QUERY MSGS? K1ABC")
