-- ===== src/Command/Table.antt =====
-- src/command.rs: the table of commands, and the command at a place in a text. A place is the rest
-- of the text from there on. The source first narrows the table down by the first characters.
pub mod Reach
pub mod Longest
use js8rs.Prelude.{
  ℕ, suc, ◌+◌, ◌-◌, Bool, true, false, not, ◌&&◌, ◌||◌, Option, none, some, List, [], ◌∷◌, length,
  drop, take, map, get_or, get_elem?, ltb, ◌==◌, if◌then◌else◌, codes, str_eq, to_ascii_uppercase,
}
use js8rs.Command.Kind.{
  CommandKind, relay, cq, heartbeat, query, query_msg, ack, again_query, cmd, dit_dit, fb, grid,
  grid_query, hearing, hearing_query, heartbeat_snr, how_copy_query, info, info_query, msg, msg_to,
  nack, no, qsl, qsl_query, query_call, query_msgs, rr, seventy_three, sk, snr, snr_query, status,
  status_query, yes,
}

pub data ArgKind : Type 0 where
  no_arg call_arg query_call_arg message_id_arg grid_arg : ArgKind

pub record CommandDef : Type 0 where
  pub text : List ℕ
  pub kind : CommandKind
  pub arg : ArgKind
  pub bare : Bool

abbrev pub command_def : List ℕ → CommandKind → ArgKind → Bool → CommandDef
command_def text kind arg bare = record { text = text; kind = kind; arg = arg; bare = bare }

unfoldable pub commands : List CommandDef
commands =
    command_def (codes "AGN?") again_query no_arg false
    ∷ command_def (codes "QSL?") qsl_query no_arg false
    ∷ command_def (codes "HW CPY?") how_copy_query no_arg false
    ∷ command_def (codes "SNR?") snr_query no_arg false
    ∷ command_def (codes "INFO?") info_query no_arg false
    ∷ command_def (codes "GRID?") grid_query no_arg false
    ∷ command_def (codes "STATUS?") status_query no_arg false
    ∷ command_def (codes "QUERY MSGS?") query_msgs no_arg false
    ∷ command_def (codes "HEARING?") hearing_query no_arg false
    ∷ command_def (codes "MSG TO:") msg_to call_arg false
    ∷ command_def (codes "HEARTBEAT SNR") heartbeat_snr no_arg false
    ∷ command_def (codes "QUERY MSGS") query_msgs no_arg false
    ∷ command_def (codes "QUERY CALL") query_call query_call_arg false
    ∷ command_def (codes "QUERY MSG") query_msg message_id_arg false
    ∷ command_def (codes "QUERY") query no_arg false
    ∷ command_def (codes "DIT DIT") dit_dit no_arg false
    ∷ command_def (codes "STATUS") status no_arg false
    ∷ command_def (codes "HEARING") hearing no_arg false
    ∷ command_def (codes "CMD") cmd no_arg false
    ∷ command_def (codes "MSG") msg no_arg false
    ∷ command_def (codes "NACK") nack no_arg false
    ∷ command_def (codes "ACK") ack no_arg false
    ∷ command_def (codes "SNR") snr no_arg false
    ∷ command_def (codes "QSL") qsl no_arg false
    ∷ command_def (codes "INFO") info no_arg false
    ∷ command_def (codes "GRID") grid grid_arg false
    ∷ command_def (codes "73") seventy_three no_arg false
    ∷ command_def (codes "YES") yes no_arg false
    ∷ command_def (codes "NO") no no_arg false
    ∷ command_def (codes "RR") rr no_arg false
    ∷ command_def (codes "SK") sk no_arg false
    ∷ command_def (codes "FB") fb no_arg false
    ∷ command_def (codes "CQ CQ CQ") cq grid_arg true
    ∷ command_def (codes "CQ CONTEST") cq grid_arg true
    ∷ command_def (codes "CQ FIELD") cq grid_arg true
    ∷ command_def (codes "CQ DX") cq grid_arg true
    ∷ command_def (codes "CQ QRP") cq grid_arg true
    ∷ command_def (codes "CQ FD") cq grid_arg true
    ∷ command_def (codes "CQ CQ") cq grid_arg true
    ∷ command_def (codes "CQ") cq grid_arg true
    ∷ command_def (codes "HB") heartbeat grid_arg true
    ∷ command_def (codes "HEARTBEAT") heartbeat grid_arg true
    ∷ []

-- The upper case of a byte, with 0 behind the end.
abbrev pub upper_at : List ℕ → ℕ → ℕ
upper_at bytes i = to_ascii_uppercase (get_or bytes i 0)

-- The indices of the commands that may start with these bytes; the fifth byte decides the rest.
unfoldable pub candidates_by : ℕ → ℕ → ℕ → List ℕ
candidates_by first second fifth =
    if first == b'A' && second == b'C'
    then 21 ∷ []
    else if first == b'A' && second == b'G'
    then 0 ∷ []
    else if first == b'C' && second == b'M'
    then 18 ∷ []
    else if first == b'C' && second == b'Q'
    then 33 ∷ 32 ∷ 34 ∷ 36 ∷ 38 ∷ 35 ∷ 37 ∷ 39 ∷ []
    else if first == b'D'
    then 15 ∷ []
    else if first == b'F'
    then 31 ∷ []
    else if first == b'G'
    then 5 ∷ 25 ∷ []
    else if first == b'H' && second == b'B'
    then 40 ∷ []
    else if first == b'H' && second == b'E'
    then if fifth == b'I' then 8 ∷ 17 ∷ [] else if fifth == b'T' then 10 ∷ 41 ∷ [] else []
    else if first == b'H' && second == b'W'
    then 2 ∷ []
    else if first == b'I'
    then 4 ∷ 24 ∷ []
    else if first == b'M'
    then 9 ∷ 19 ∷ []
    else if first == b'N' && second == b'A'
    then 20 ∷ []
    else if first == b'N' && second == b'O'
    then 28 ∷ []
    else if first == b'Q' && second == b'U'
    then 7 ∷ 12 ∷ 11 ∷ 13 ∷ 14 ∷ []
    else if first == b'Q' && second == b'S'
    then 1 ∷ 23 ∷ []
    else if first == b'R'
    then 29 ∷ []
    else if first == b'S' && second == b'K'
    then 30 ∷ []
    else if first == b'S' && second == b'N'
    then 3 ∷ 22 ∷ []
    else if first == b'S' && second == b'T'
    then 6 ∷ 16 ∷ []
    else if first == b'Y'
    then 27 ∷ []
    else if first == b'7'
    then 26 ∷ []
    else []

unfoldable pub command_candidates : List ℕ → List ℕ
unfolding candidates_by
command_candidates bytes = candidates_by (upper_at bytes 0) (upper_at bytes 1) (upper_at bytes 4)

-- Whether the bytes start with a name in upper case, in whatever case.
unfoldable pub starts_ignoring_case : List ℕ → List ℕ → Bool
starts_ignoring_case [] bytes = true
starts_ignoring_case (c ∷ name) [] = false
starts_ignoring_case (c ∷ name) (b ∷ bytes) =
    to_ascii_uppercase b == c && starts_ignoring_case name bytes

-- Whether the last byte is a question mark or a colon.
unfoldable pub ends_itself : List ℕ → Bool
ends_itself [] = false
ends_itself (c ∷ []) = c == b'?' || c == b':'
ends_itself (c ∷ d ∷ name) = ends_itself (d ∷ name)

abbrev pub space_or_end : List ℕ → Bool
space_or_end [] = true
space_or_end (b ∷ bytes) = b == b' '

-- Whether a command stands here.
unfoldable pub stands : CommandDef → List ℕ → Bool
unfolding starts_ignoring_case ends_itself
stands def bytes =
    starts_ignoring_case def.text bytes
    && (ends_itself def.text || space_or_end (drop (length def.text) bytes))

-- The first of the indexed commands that stands here; every index is one of the table.
unfoldable pub first_standing : List ℕ → List ℕ → Option CommandDef
unfolding stands
first_standing [] bytes = none
first_standing (index ∷ indices) bytes =
    let later = first_standing indices bytes in
    elim (get_elem? commands index) [
      | none ↦ later
      | some def ↦ if stands def bytes then some def else later
    ]

-- The command that `match_command` finds in the table.
unfoldable pub find_command : List ℕ → Option CommandDef
unfolding first_standing command_candidates
find_command [] = none
find_command (b ∷ bytes) = first_standing (command_candidates (b ∷ bytes)) (b ∷ bytes)

-- The kind, and the number of bytes.
abbrev prefix_of : CommandDef → Option (CommandKind × ℕ)
prefix_of def = elim def.kind [
  | cq ↦ none
  | heartbeat ↦ none
  | query_msg ↦ some (query, 5)
  | kind ↦ some (kind, length def.text)
]

unfoldable pub command_prefix : List ℕ → Option (CommandKind × ℕ)
unfolding find_command
command_prefix [] = none
command_prefix (b ∷ bytes) =
    if b == b'>' then some (relay, 1) else elim (find_command (b ∷ bytes)) [
      | some def ↦ prefix_of def
      | none ↦ if b == b'?' then some (snr_query, 1) else none
    ]
