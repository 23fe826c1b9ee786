-- ===== src/Examples/Callsigns.antt =====
-- Concrete callsigns.
use js8rs.Prelude.{
  ◌≡◌, ◌<◌, refl, true, codes, ltb→lt, trim, trim_start, trim_end, as_bytes, is_ascii,
  is_ascii_digit, is_ascii_uppercase, is_ascii_alphanumeric, is_ascii_alphabetic,
  is_ascii_lowercase, to_ascii_uppercase,
}
use js8rs.Varicode.Alnum50.{alnum_idx, alnum_byte}
use js8rs.Varicode.Callsign.{
  basecall, is_portable, starts_with, without_a, with_q, lay_call, is_call, call_number, pack_call,
  pack_plain, pack_callsign, show_call, spaces_before, spaces_behind, call_word, unpack_callsign,
}
use js8rs.Varicode.Callsign.RoundTrip.{Reads, unpack_callsign-pack_callsign}

portable_call-positive : 0 < (pack_callsign (codes "k1abc/p")).0
unfolding pack_callsign trim trim_start trim_end as_bytes basecall is_portable pack_plain without_a
    with_q lay_call pack_call is_call call_number starts_with alnum_idx is_ascii is_ascii_digit
    is_ascii_uppercase is_ascii_alphanumeric is_ascii_alphabetic is_ascii_lowercase
    to_ascii_uppercase
portable_call-positive = ltb→lt 0 _ refl

unpack_callsign-pack_callsign_example :
    Reads (as_bytes (trim (codes "k1abc/p"))) (pack_callsign (codes "k1abc/p"))
unpack_callsign-pack_callsign_example =
    unpack_callsign-pack_callsign (codes "k1abc/p") portable_call-positive

guinea : unpack_callsign (pack_plain (codes "3xa1bc")) true ≡ codes "3XA1BC/P"
unfolding pack_plain without_a with_q lay_call pack_call is_call call_number starts_with alnum_idx
    alnum_byte is_ascii is_ascii_digit is_ascii_uppercase is_ascii_alphanumeric is_ascii_alphabetic
    is_ascii_lowercase to_ascii_uppercase unpack_callsign show_call call_word spaces_before
    spaces_behind
guinea = refl
