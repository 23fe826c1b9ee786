-- ===== src/Varicode/Messages/Directed.antt =====
-- src/varicode/mod.rs: `pack_directed_message`. A position in the text is the rest of the text from
-- there on, and a slice is what was taken from its front.
pub mod RoundTrip
use js8rs.Prelude.{
  ℕ, zero, suc, ◌+◌, ◌-◌, ◌*◌, ◌/◌, ◌%◌, ◌^◌, Bool, true, false, not, ◌&&◌, ◌||◌, Option, none,
  some, List, [], ◌∷◌, ◌++◌, length, take, drop, ltb, leb, ◌==◌, if◌then◌else◌, codes, str_eq, trim,
  as_bytes, is_ascii_uppercase, is_ascii_digit, bit_or, u8, u32, u64, ◌<<<◌,
}
use js8rs.Prelude.Int.{ℤ, pos, negsuc, leb_ℤ}
use js8rs.Command.Kind.{CommandKind, free_text, from_wire, packed_code, has_snr, is_empty}
use js8rs.Command.Table.{command_prefix}
use js8rs.Command.Calls.{is_valid_call, is_compound_call}
use js8rs.Varicode.Pack72.{pack72bits}
use js8rs.Varicode.Fields.{pack_num, parse_i32}
use js8rs.Varicode.Callsign.{pack_callsign, find_basecall, basecalls}
use js8rs.Varicode.Compound.{frame_directed}
use js8rs.Varicode.Messages.Heartbeat.{skip_space}
use mathlib.Core.Option

-- What a scan took, and the rest behind it.
pub record Taken : Type 0 where
  pub taken : List ℕ
  pub rest : List ℕ

-- The first characters, up to a count.
abbrev pub take_off : ℕ → List ℕ → Taken
take_off n text = record { taken = take n text; rest = drop n text }

unfoldable pub call_length : List ℕ → ℕ
call_length [] = 0
call_length (c ∷ s) =
    let rest = call_length s in
    if is_ascii_uppercase c || is_ascii_digit c || c == b'/' then suc rest else 0

-- `call_end`, from the front of the text.
unfoldable pub call_end : List ℕ → Option Taken
unfolding call_length
call_end [] = none
call_end (c ∷ s) =
    let text = c ∷ s in
    if c == b'@'
    then if call_length s == 0 then none else some (take_off (1 + call_length s) text)
    else if call_length text == 0
    then none
    else some (take_off (call_length text) text)

pub record ParsedCmd : Type 0 where
  pub kind : CommandKind
  pub cmd : List ℕ
  pub rest : List ℕ

unfoldable pub parse_cmd : List ℕ → Option ParsedCmd
unfolding skip_space
parse_cmd text =
    let skipped = length text - length (skip_space text) in
    elim (command_prefix (skip_space text)) [
      | some (kind, len) ↦ some (record {
        kind = kind;
        cmd = take (skipped + len) text;
        rest = drop (skipped + len) text;
      })
      | none ↦ elim text [
        | [] ↦ none
        | c ∷ s ↦
            if c == b' '
            then some (record { kind = free_text; cmd = codes " "; rest = s })
            else none
      ]
    ]

-- At most two digits.
unfoldable pub digit_count : List ℕ → ℕ
digit_count [] = 0
digit_count (a ∷ []) = if is_ascii_digit a then 1 else 0
digit_count (a ∷ b ∷ s) = if is_ascii_digit a then (if is_ascii_digit b then 2 else 1) else 0

abbrev sign_length : List ℕ → ℕ
sign_length [] = 0
sign_length (c ∷ s) = if c == b'+' || c == b'-' then 1 else 0

abbrev out_of_range : Option ℤ → Bool
out_of_range none = false
out_of_range (some v) = not (leb_ℤ (negsuc 30) v && leb_ℤ v (pos 31))

-- The length of the number at the front, with the white space before it.
unfoldable pub snr_end : List ℕ → ℕ
unfolding skip_space digit_count parse_i32
snr_end text =
    let from = skip_space text in
    let skipped = length text - length from in
    let sign = sign_length from in
    let digits = digit_count (drop sign from) in
    if digits == 0
    then 0
    else if out_of_range (parse_i32 (take (sign + digits) from))
    then skipped + sign + digits - 1
    else skipped + sign + digits

-- What is to be sent.
pub record DirectedPlan : Type 0 where
  pub from : List ℕ
  pub to : List ℕ
  pub kind : CommandKind
  pub num : List ℕ
  pub rest : List ℕ

-- The command of a wire token, or of the token without the space around it.
unfoldable pub wire_kind : List ℕ → Option CommandKind
unfolding from_wire
wire_kind cmd = elim (from_wire cmd) [ some kind ↦ some kind | none ↦ from_wire (trim cmd) ]

-- The placeholder stands for a call that does not fit its field.
unfoldable pub from_or_placeholder : List ℕ → List ℕ
unfolding is_compound_call
from_or_placeholder mycall = if is_compound_call mycall then codes "<....>" else mycall

abbrev is_listed : Option ℕ → Bool
is_listed none = false
is_listed (some n) = true

unfoldable pub to_or_placeholder : List ℕ → List ℕ
unfolding is_compound_call find_basecall basecalls
to_or_placeholder raw_to =
    if not (is_listed (find_basecall basecalls raw_to)) && is_compound_call raw_to
    then codes "<....>"
    else raw_to

unfoldable pub directed_plan : List ℕ → List ℕ → Option DirectedPlan
unfolding call_end parse_cmd snr_end wire_kind from_or_placeholder to_or_placeholder is_valid_call
directed_plan text mycall = elim (call_end text) [
  | none ↦ none
  | some to ↦ elim (parse_cmd to.rest) [
    | none ↦ none
    | some command ↦
        let n = if has_snr command.kind then snr_end command.rest else 0 in
        if str_eq to.taken mycall || not (is_valid_call to.taken)
        then none
        else elim (wire_kind command.cmd) [
          | none ↦ none
          | some kind ↦ some (record {
            from = from_or_placeholder mycall;
            to = to_or_placeholder to.taken;
            kind = kind;
            num = take n command.rest;
            rest = drop n command.rest;
          })
        ]
  ]
]

-- `as u8` of an `i32`.
unfoldable pub wrap_u8 : ℤ → ℕ
wrap_u8 (pos n) = n % 2 ^ 8
wrap_u8 (negsuc n) = 2 ^ 8 - 1 - n % 2 ^ 8

-- The word, `[3][28][28][5]`, and the byte, `[2][6]`.
unfoldable pub directed_word : ℕ → ℕ → ℕ → ℕ
directed_word packed_from packed_to packed_cmd =
    bit_or
      (bit_or (bit_or (u64 (frame_directed <<< 61)) (u64 (packed_from <<< 33)))
        (u64 (packed_to <<< 5)))
      (packed_cmd % 32)

abbrev bit_of : Bool → ℕ
bit_of true = 1
bit_of false = 0

unfoldable pub directed_byte : Bool → Bool → ℕ → ℕ
directed_byte portable_from portable_to inum =
    u8 (u8 (bit_of portable_from <<< 7) + u8 (bit_of portable_to <<< 6) + inum)

-- The frame, and the number of bytes that goes to `n_out`.
unfoldable pub pack_directed_message : List ℕ → List ℕ → List ℕ × ℕ
unfolding directed_plan directed_word directed_byte wrap_u8 pack_callsign pack_num
pack_directed_message text mycall = elim (directed_plan text mycall) [
  | none ↦ ([], 0)
  | some plan ↦
      let (packed_from, portable_from) = pack_callsign plan.from in
      let (packed_to, portable_to) = pack_callsign plan.to in
      let (inum, _) = pack_num (trim plan.num) in
      if packed_from == 0 || packed_to == 0 then ([], 0) else (
        pack72bits (directed_word packed_from packed_to (wrap_u8 (packed_code plan.kind)))
            (directed_byte portable_from portable_to inum),
        length (as_bytes text) - length (as_bytes plan.rest),
      )
]
