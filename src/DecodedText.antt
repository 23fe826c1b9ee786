-- ===== src/DecodedText.antt =====
-- src/internal/decoded_text.rs: what a packed frame says. The table of words and the order of the
-- Huffman entries are parameters, as in Varicode/DataFrames.
pub mod Shapes
pub mod Composition
pub mod Directed
use js8rs.Prelude.{
  ℕ, ◌+◌, ◌-◌, Bool, true, false, ◌&&◌, ◌||◌, not, Option, none, some, List, [], ◌∷◌, ◌++◌, length,
  take, drop, get_or, ltb, leb, ◌==◌, if◌then◌else◌, codes, trim, ok, err,
}
use js8rs.Prelude.Int.{pos}
use js8rs.Protocol.{
  Submode, FrameFlags, flags_contains, flags_data, FrameType, frame_unknown, frame_data, frame_code,
  frame_compound, frame_compound_directed, frame_type_try_from,
}
use js8rs.Command.Kind.{is_empty}
use js8rs.Varicode.Compound.{not_a_frame}
use js8rs.Varicode.Jsc.{Dictionary, split_spaces}
use js8rs.Varicode.Huffman.{Table}
use js8rs.Varicode.DataFrames.{unpack_fast_data_message, unpack_data_message}
use js8rs.Varicode.Messages.{
  cq_string, HeartbeatMessage, unpack_heartbeat_message, CompoundMessage, unpack_compound_message,
  DirectedMessage, unpack_directed_message,
}

-- `DecodedFrame` with all of its fields.
pub record ParsedFrame : Type 0 where
  pub frame_type : FrameType
  pub encoded : List ℕ
  pub is_alt : Bool
  pub is_heartbeat : Bool
  pub compound : List ℕ
  pub directed : List (List ℕ)
  pub extra : List ℕ
  pub message : List ℕ
  pub flags : FrameFlags
  pub submode : Submode

-- A frame of which nothing is known yet.
unfoldable pub unparsed : List ℕ → FrameFlags → Submode → ParsedFrame
unparsed encoded flags submode = record {
  frame_type = frame_unknown;
  encoded = encoded;
  is_alt = false;
  is_heartbeat = false;
  compound = [];
  directed = [];
  extra = [];
  message = encoded;
  flags = flags;
  submode = submode;
}

-- What an attempt gives: a panic, `false`, or `true` with the frame as changed.
pub data Attempt : Type 0 where
  panics fails : Attempt
  unpacks : ParsedFrame → Attempt

-- `[&str]::join`
unfoldable pub join : List ℕ → List (List ℕ) → List ℕ
join sep [] = []
join sep (p ∷ []) = p
join sep (p ∷ q ∷ ps) = p ++ sep ++ join sep (q ∷ ps)

unfoldable pub nonempty : List (List ℕ) → List (List ℕ)
nonempty [] = []
nonempty (p ∷ ps) = let rest = nonempty ps in if is_empty p then rest else p ∷ rest

unfoldable pub build_compound : List (List ℕ) → List ℕ
build_compound parts = join (codes "/") (nonempty (take 2 parts))

-- `ftype.try_into().unwrap_or(FrameUnknown)`
unfoldable pub type_or_unknown : ℕ → FrameType
unfolding frame_type_try_from
type_or_unknown ftype = elim (frame_type_try_from ftype) [ ok t ↦ t | err e ↦ frame_unknown ]

abbrev data_flagged : ParsedFrame → Bool
data_flagged this = flags_contains this.flags flags_data

abbrev with_data : ParsedFrame → Option (List ℕ) → Attempt
with_data this none = panics
with_data this (some text) =
    if is_empty text
    then fails
    else unpacks (record this { message = text; frame_type = frame_data })

unfoldable pub heartbeat_text : HeartbeatMessage → List ℕ → List ℕ → List ℕ
heartbeat_text m compound extra =
    compound
    ++ codes ": "
    ++ (if m.is_alt then codes "@ALLCALL " ++ cq_string (pos m.bits3) else codes "@HB HEARTBEAT")
    ++ codes " "
    ++ extra
    ++ codes " "

unfoldable pub with_heartbeat : ParsedFrame → Option HeartbeatMessage → Attempt
with_heartbeat this none = fails
with_heartbeat this (some m) =
    let extra = get_or m.parts 2 [] in
    let compound = build_compound m.parts in
    if ltb (length m.parts) 2
    then fails
    else unpacks (record this {
      frame_type = type_or_unknown m.ty;
      is_heartbeat = true;
      is_alt = m.is_alt;
      extra = extra;
      compound = compound;
      message = heartbeat_text m compound extra;
    })

unfoldable pub with_compound : ParsedFrame → Option CompoundMessage → Attempt
with_compound this none = fails
with_compound this (some m) =
    let extra = join (codes " ") (drop 2 m.parts) in
    let compound = build_compound m.parts in
    let named = record this {
      frame_type = type_or_unknown m.ty;
      extra = extra;
      compound = compound;
    } in
    if ltb (length m.parts) 2 || data_flagged this
    then fails
    else if m.ty == frame_code frame_compound
    then unpacks (record named { message = compound ++ codes ": " })
    else if m.ty == frame_code frame_compound_directed
    then unpacks (record named {
      message = compound ++ extra ++ codes " ";
      directed = codes "<....>" ∷ compound ∷ drop 2 m.parts;
    })
    else unpacks named

unfoldable pub directed_text : List (List ℕ) → List ℕ
directed_text parts =
    if length parts == 3 || length parts == 4
    then get_or parts 0 []
      ++ codes ": "
      ++ get_or parts 1 []
      ++ join (codes " ") (drop 2 parts)
      ++ codes " "
    else join [] parts

unfoldable pub with_directed : ParsedFrame → Option DirectedMessage → Attempt
with_directed this none = fails
with_directed this (some m) =
    if is_empty m.parts
    then fails
    else unpacks (record this {
      message = directed_text m.parts;
      directed = m.parts;
      frame_type = type_or_unknown m.ty;
    })

-- The next attempt is made when one gives `false`.
abbrev pub or_else : Attempt → Attempt → Attempt
or_else panics next = panics
or_else fails next = next
or_else (unpacks f) next = unpacks f

-- `none` is a panic.
abbrev pub result : ParsedFrame → Attempt → Option ParsedFrame
result this panics = none
result this fails = some this
result this (unpacks f) = some f

module _ (dictionary : Dictionary) (entries : Table) where
  unfoldable pub try_unpack_fast_data : ParsedFrame → List ℕ → Attempt
  try_unpack_fast_data this m =
      if not (data_flagged this)
      then fails
      else with_data this (unpack_fast_data_message dictionary m)

  unfoldable pub try_unpack_data : ParsedFrame → List ℕ → Attempt
  try_unpack_data this m =
      if data_flagged this then fails else with_data this (unpack_data_message dictionary entries m)

unfoldable pub try_unpack_heartbeat : ParsedFrame → List ℕ → Attempt
unfolding with_heartbeat
try_unpack_heartbeat this m =
    if data_flagged this then fails else with_heartbeat this (unpack_heartbeat_message m)

unfoldable pub try_unpack_compound : ParsedFrame → List ℕ → Attempt
unfolding with_compound
try_unpack_compound this m = with_compound this (unpack_compound_message m)

unfoldable pub try_unpack_directed : ParsedFrame → List ℕ → Attempt
unfolding with_directed
try_unpack_directed this m =
    if data_flagged this then fails else with_directed this (unpack_directed_message m)

module _ (dictionary : Dictionary) (entries : Table) where
  unfoldable pub attempts : ParsedFrame → List ℕ → Attempt
  attempts this m = or_else (try_unpack_fast_data dictionary entries this m) (
      or_else (try_unpack_data dictionary entries this m) (
        or_else (try_unpack_heartbeat this m)
          (or_else (try_unpack_compound this m) (try_unpack_directed this m))))

  -- `DecodedFrame::new`, and `parse_frame` of src/codec.rs.
  unfoldable pub parse_frame : List ℕ → FrameFlags → Submode → Option ParsedFrame
  unfolding unparsed attempts
  parse_frame encoded flags submode =
      let this = unparsed encoded flags submode in
      let m = trim encoded in if not_a_frame m then some this else result this (attempts this m)

-- `message_words`: the message, and its words.
unfoldable pub message_words : ParsedFrame → List (List ℕ)
unfolding nonempty
message_words f = f.message ∷ nonempty (split_spaces f.message)
