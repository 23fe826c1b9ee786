-- ===== src/Varicode/Messages/Heartbeat.antt =====
-- src/varicode/mod.rs: `pack_heartbeat_message` with `heartbeat_parts`. A position in the text is
-- the rest of the text from there on.
pub mod RoundTrip
use js8rs.Prelude.{
  ℕ, zero, suc, ◌+◌, ◌-◌, ◌/◌, ◌%◌, Bool, true, false, ◌&&◌, ◌||◌, not, Option, none, some, List,
  [], ◌∷◌, ◌++◌, ltb, leb, ◌==◌, if◌then◌else◌, codes, str_eq, bit_or, u8, u16, ◌<<<◌, length, drop,
  take, trim_start, is_whitespace, as_bytes, is_ascii_alphanumeric,
}
use js8rs.Varicode.Compound.{pack_compound_frame}
use js8rs.Varicode.Callsign.{starts_with}
use js8rs.Varicode.Grid.{is_grid, pack_grid, nmaxgrid}
use js8rs.Varicode.Messages.{cqs}
use js8rs.Command.Kind.{is_empty}
use mathlib.Core.Option.{get_or}

-- The rest behind one white space, when there is one.
unfoldable pub skip_space : List ℕ → List ℕ
skip_space [] = []
skip_space (c ∷ s) = if is_whitespace c then s else c ∷ s

abbrev pub has_space : List ℕ → Bool
has_space [] = false
has_space (c ∷ s) = is_whitespace c

-- Whether no letter, digit or underscore follows.
unfoldable pub at_word_end : List ℕ → Bool
at_word_end [] = true
at_word_end (c ∷ s) = not (is_ascii_alphanumeric c) && not (c == b'_')

-- Behind a group call at the front; `none` when no white space follows the call.
unfoldable pub skip_group : List (List ℕ) → List ℕ → Option (List ℕ)
skip_group [] text = some text
skip_group (prefix ∷ prefixes) text =
    let behind = drop (length prefix) text in
    let others = skip_group prefixes text in
    if starts_with prefix text
    then if has_space behind then some (trim_start behind) else none
    else others

abbrev pub heartbeat_types : List (List ℕ)
heartbeat_types =
    codes "CQ CQ CQ"
    ∷ codes "CQ CONTEST"
    ∷ codes "CQ FIELD"
    ∷ codes "CQ QRP"
    ∷ codes "CQ DX"
    ∷ codes "CQ FD"
    ∷ codes "CQ CQ"
    ∷ codes "CQ"
    ∷ codes "HEARTBEAT"
    ∷ codes "HB"
    ∷ []

unfoldable pub find_type : List (List ℕ) → List ℕ → Option (List ℕ)
unfolding at_word_end
find_type [] text = none
find_type (ty ∷ types) text =
    let later = find_type types text in
    if starts_with ty text && at_word_end (drop (length ty) text) then some ty else later

-- The type, the locator or nothing, and the rest of the text.
pub record HeartbeatParts : Type 0 where
  pub ty : List ℕ
  pub grid : List ℕ
  pub rest : List ℕ

-- The locator behind the type.
unfoldable pub heartbeat_grid : List ℕ → List ℕ → HeartbeatParts
unfolding skip_space at_word_end
heartbeat_grid ty behind =
    let from = skip_space behind in
    if has_space behind && (is_grid (take 4 from) && at_word_end (drop 4 from))
    then record { ty = ty; grid = take 4 from; rest = drop 4 from }
    else record { ty = ty; grid = []; rest = behind }

unfoldable pub heartbeat_parts : List ℕ → Option HeartbeatParts
unfolding skip_group find_type heartbeat_grid
heartbeat_parts text = elim (skip_group (codes "@ALLCALL" ∷ codes "@HB" ∷ []) (trim_start text)) [
  | none ↦ none
  | some from ↦ elim (find_type heartbeat_types from) [
    | none ↦ none
    | some ty ↦
        let behind = drop (length ty) from in
        if str_eq ty (codes "HEARTBEAT") && starts_with (codes "SNR") (trim_start behind)
        then none
        else some (heartbeat_grid ty behind)
  ]
]

-- The least key below a bound that stands for a call in `CQS`.
unfoldable pub least_key : ℕ → List ℕ → Option ℕ
unfolding cqs
least_key zero v = none
least_key (suc key) v = elim (least_key key v) [
  | some best ↦ some best
  | none ↦ elim (cqs key) [
    | none ↦ none
    | some candidate ↦ if str_eq candidate v then some key else none
  ]
]

unfoldable pub cqs_key_by_value : List ℕ → ℕ → ℕ
unfolding least_key
cqs_key_by_value v default_key = get_or (least_key 8 v) default_key

abbrev pub is_alt_type : List ℕ → Bool
is_alt_type ty = starts_with (codes "CQ") ty

-- The two fields of the frame.
unfoldable pub heartbeat_extra : HeartbeatParts → ℕ
heartbeat_extra parts =
    let packed = if is_empty parts.grid then nmaxgrid else pack_grid parts.grid in
    if is_alt_type parts.ty then bit_or packed (1 <<< 15) else packed

unfoldable pub heartbeat_cq : HeartbeatParts → ℕ
unfolding cqs_key_by_value
heartbeat_cq parts = if is_alt_type parts.ty then u8 (cqs_key_by_value parts.ty 0) else 0

-- The frame, and the number of bytes that goes to `n_out`.
unfoldable pub pack_heartbeat_message : List ℕ → List ℕ → List ℕ × ℕ
unfolding heartbeat_parts heartbeat_extra heartbeat_cq
pack_heartbeat_message text callsign = elim (heartbeat_parts text) [
  | none ↦ ([], 0)
  | some parts ↦
      if is_empty callsign
      then ([], 0)
      else let frame =
          pack_compound_frame callsign 0 (heartbeat_extra parts) (heartbeat_cq parts) in
        if is_empty frame
        then ([], 0)
        else (frame, length (as_bytes text) - length (as_bytes parts.rest))
]
