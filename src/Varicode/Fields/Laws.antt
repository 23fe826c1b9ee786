-- ===== src/Varicode/Fields/Laws.antt =====
-- Reports and commands come back from their packed fields.
use js8rs.Prelude.{
  ℕ, max, ◌+◌, ◌*◌, ◌/◌, ◌%◌, ◌<◌, ◌≡◌, refl, Bool, true, ◌&&◌, ◌||◌, Option, none, some, List, [],
  ◌∷◌, leb, ◌==◌, if◌then◌else◌, bit_and, bit_and_mask, all_below, all_below_sound, arith,
}
use js8rs.Prelude.Int.{ℤ, pos, sub_ℕ}
use js8rs.Command.Kind.{from_wire_code, has_snr}
use js8rs.Varicode.Fields.{
  parse_i32, num_field, pack_num, format_snr, pack_cmd, unpack_cmd, sends_snr, is_heartbeat_snr,
}

report_back : ℕ → Bool
report_back n =
    ((pack_num (format_snr (sub_ℕ n 31))).0 == max n 1) && (pack_num (format_snr (sub_ℕ n 31))).1

report_table : all_below 63 report_back ≡ true
unfolding all_below report_back pack_num num_field parse_i32 format_snr
report_table = refl

-- A report field below 63, printed as a signed report, is packed into the same field again; the one
-- value below the range of reports, 0, becomes the lowest report.
pub pack_num-format_snr : (n : ℕ) → n < 63 → pack_num (format_snr (sub_ℕ n 31)) ≡ (max n 1, true)
unfolding report_back
pack_num-format_snr n h = let e = all_below_sound 63 report_back n report_table h in ground arith

num_field-lt : (v : Option ℤ) → (num_field v).0 < 63
unfolding num_field
num_field-lt none = omega arith
num_field-lt (some v) = ground arith

-- Whatever the text, the field of a report is below 63.
pub pack_num-lt : (text : List ℕ) → (pack_num text).0 < 63
unfolding pack_num
pack_num-lt [] = omega arith
pack_num-lt (c ∷ s) = num_field-lt (parse_i32 (c ∷ s))

snr_codes : (cmd : ℕ) → sends_snr (from_wire_code (pos cmd)) ≡ (cmd == 25 || cmd == 29)
unfolding from_wire_code has_snr
snr_codes cmd = ground arith

heartbeat_code : (cmd : ℕ) → is_heartbeat_snr (from_wire_code (pos cmd)) ≡ (cmd == 29)
unfolding from_wire_code
heartbeat_code cmd = ground arith

abbrev has_bits : ℕ → Bool
has_bits v = (bit_and v 128 == v / 128 * 128) && (bit_and v 64 == v / 64 % 2 * 64)

high_bits : all_below 256 has_bits ≡ true
unfolding all_below
high_bits = refl

unpack_cmd-byte :
    (v : ℕ)
    → v < 256
    → unpack_cmd v
      ≡ (if leb 128 v then (if v / 64 % 2 == 1 then 29 else 25, v % 64) else (v % 128, 0))
unfolding unpack_cmd
unpack_cmd-byte v h =
    let e = all_below_sound 256 has_bits v high_bits h in
    ground (arith, bit_and_mask 6 v, bit_and_mask 7 v)

pack_cmd-byte :
    (cmd num : ℕ)
    → (pack_cmd cmd num).0 ≡ (
        if cmd == 25 || cmd == 29
        then (if cmd == 29 then 192 + num % 64 else 128 + num % 64)
        else cmd % 128)
unfolding pack_cmd
pack_cmd-byte cmd num =
    rw (snr_codes cmd, heartbeat_code cmd) (ground (arith, bit_and_mask 6 num, bit_and_mask 7 cmd))

-- A report command comes back with the low six bits of its number, any other command as its own low
-- seven bits with no number.
pub unpack_cmd-pack_cmd :
    (cmd num : ℕ)
    → unpack_cmd ((pack_cmd cmd num).0)
      ≡ (if cmd == 25 || cmd == 29 then (cmd, num % 64) else (cmd % 128, 0))
unpack_cmd-pack_cmd cmd num =
    let e = pack_cmd-byte cmd num in ground (arith, unpack_cmd-byte ((pack_cmd cmd num).0))
