-- ===== src/Varicode/Messages.antt =====
-- src/varicode/mod.rs: reading heartbeat, compound and directed messages out of frames. `none` is
-- the empty vector, and then nothing is written out; behind `not_a_frame` the text has the twelve
-- characters that `unpack72bits` wants.
pub mod Heartbeat
pub mod Directed
use js8rs.Prelude.{
  ℕ, ◌+◌, ◌-◌, ◌/◌, ◌%◌, Bool, true, false, ◌&&◌, ◌||◌, not, Option, none, some, List, [], ◌∷◌,
  ◌++◌, ltb, leb, ◌==◌, if◌then◌else◌, codes, bit_and, u8, u16, ◌>>>◌, ◌<<<◌, low_mask,
}
use js8rs.Prelude.Int.{ℤ, pos, negsuc, sub_ℕ}
use js8rs.Command.Kind.{CommandKind, from_wire_code, wire_token}
use js8rs.Varicode.Pack72.{unpack72bits}
use js8rs.Varicode.Compound.{
  CompoundFrame, unpack_compound_frame, not_a_frame, frame_compound, frame_directed,
}
use js8rs.Varicode.Fields.{two_digits, format_snr, sends_snr, unpack_cmd}
use js8rs.Varicode.Grid.{unpack_grid, nbasegrid, nusergrid, nmaxgrid}
use js8rs.Varicode.Callsign.{unpack_callsign}

-- The calls of `CQS`.
unfoldable pub cqs : ℕ → Option (List ℕ)
cqs number =
    if number == 0
    then some (codes "CQ CQ CQ")
    else if number == 1
    then some (codes "CQ DX")
    else if number == 2
    then some (codes "CQ QRP")
    else if number == 3
    then some (codes "CQ CONTEST")
    else if number == 4
    then some (codes "CQ FIELD")
    else if number == 5
    then some (codes "CQ FD")
    else if number == 6
    then some (codes "CQ CQ")
    else if number == 7
    then some (codes "CQ")
    else none

abbrev or_empty : Option (List ℕ) → List ℕ
or_empty none = []
or_empty (some s) = s

unfoldable pub cq_string : ℤ → List ℕ
unfolding cqs
cq_string (pos n) = or_empty (cqs n)
cq_string (negsuc n) = []

pub record HeartbeatMessage : Type 0 where
  pub parts : List (List ℕ)
  pub ty : ℕ
  pub is_alt : Bool
  pub bits3 : ℕ

unfoldable pub heartbeat_message : CompoundFrame → Option HeartbeatMessage
heartbeat_message frame =
    if not (frame.ty == 0)
    then none
    else some (record {
      parts = frame.parts ++ unpack_grid (bit_and frame.num (low_mask 15)) ∷ [];
      ty = frame.ty;
      is_alt = not (bit_and frame.num (1 <<< 15) == 0);
      bits3 = frame.bits3;
    })

unfoldable pub unpack_heartbeat_message : List ℕ → Option HeartbeatMessage
unfolding heartbeat_message
unpack_heartbeat_message text = elim (unpack_compound_frame text) [
  | none ↦ none
  | some frame ↦ heartbeat_message frame
]

pub record CompoundMessage : Type 0 where
  pub parts : List (List ℕ)
  pub ty : ℕ
  pub bits3 : ℕ

-- The token of a command that was read, or nothing.
unfoldable pub token_of : Option CommandKind → List ℕ
token_of none = []
token_of (some kind) = or_empty (wire_token kind)

-- The command, and its number when it reports one.
unfoldable pub command_parts : ℕ × ℕ → List (List ℕ)
unfolding token_of
command_parts (cmd, num) =
    let kind = from_wire_code (pos cmd) in
    token_of kind ∷ (if sends_snr kind then format_snr (sub_ℕ num 31) ∷ [] else [])

unfoldable pub extra_parts : ℕ → List (List ℕ)
unfolding command_parts
extra_parts extra =
    if leb extra nbasegrid
    then (b' ' ∷ unpack_grid extra) ∷ []
    else if leb nusergrid extra && ltb extra nmaxgrid
    then command_parts (unpack_cmd (u8 (extra - nusergrid)))
    else []

unfoldable pub compound_message : CompoundFrame → Option CompoundMessage
unfolding extra_parts
compound_message frame =
    if not (frame.ty == 1) && not (frame.ty == 2)
    then none
    else some (record {
      parts = frame.parts ++ extra_parts frame.num;
      ty = frame.ty;
      bits3 = frame.bits3;
    })

unfoldable pub unpack_compound_message : List ℕ → Option CompoundMessage
unfolding compound_message
unpack_compound_message text = elim (unpack_compound_frame text) [
  | none ↦ none
  | some frame ↦ compound_message frame
]

-- `i32::to_string`, of a number between -100 and 100.
unfoldable pub small_to_string : ℤ → List ℕ
unfolding two_digits
small_to_string (pos n) = if ltb n 10 then (b'0' + n) ∷ [] else two_digits n
small_to_string (negsuc n) =
    b'-' ∷ (if ltb (n + 1) 10 then (b'0' + (n + 1)) ∷ [] else two_digits (n + 1))

-- The fourth part of a directed message.
unfoldable pub number_part : Option CommandKind → ℕ → List (List ℕ)
unfolding small_to_string
number_part kind extra =
    let v = sub_ℕ extra 31 in
    if extra == 0 then [] else (if sends_snr kind then format_snr v else small_to_string v) ∷ []

pub record DirectedMessage : Type 0 where
  pub parts : List (List ℕ)
  pub ty : ℕ

unfoldable pub directed_message : ℕ × ℕ → Option DirectedMessage
unfolding token_of number_part
directed_message (bits, extra) =
    let packed_flag = u8 (bits >>> 61) in
    let packed_from = bit_and (bits >>> 33) 0x0fffffff in
    let packed_to = bit_and (bits >>> 5) 0x0fffffff in
    let packed_cmd = u8 (bit_and bits 0x1f) in
    let portable_from = bit_and (extra >>> 7) 1 == 1 in
    let portable_to = bit_and (extra >>> 6) 1 == 1 in
    let kind = from_wire_code (pos (packed_cmd % 32)) in
    if not (packed_flag == frame_directed)
    then none
    else some (record {
      parts =
          unpack_callsign packed_from portable_from
          ∷ unpack_callsign packed_to portable_to
          ∷ token_of kind
          ∷ number_part kind (extra % 64);
      ty = packed_flag;
    })

unfoldable pub unpack_directed_message : List ℕ → Option DirectedMessage
unfolding directed_message
unpack_directed_message text =
    if not_a_frame text
    then none
    else elim (unpack72bits text) [ none ↦ none | some words ↦ directed_message words ]
