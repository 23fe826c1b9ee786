-- ===== src/Rx/Reassembly.antt =====
-- src/rx/reassembly.rs: the assembler of buffered directed commands, with the parts of a decoded
-- frame (src/codec.rs, src/rx/mod.rs) that it reads. A text is the list of its UTF-8 bytes, since
-- the code cuts checksums off by byte positions. The two CRCs of the crate `crc` are parameters.
pub mod Buffers
pub mod Checksums
pub mod Runs
pub mod Streams
use js8rs.Prelude.{
  ℕ, ◌+◌, ◌-◌, ◌%◌, Bool, true, false, ◌&&◌, ◌||◌, not, Option, none, some, List, [], ◌∷◌, ◌++◌,
  length, take, drop, get_or, ltb, leb, ◌==◌, if◌then◌else◌, codes, str_eq, bit_or,
}
use js8rs.Prelude.Int.{ℤ}
use js8rs.Protocol.{Submode, discriminant, FrameFlags, flags_contains, flags_bitor, flags_last}
use js8rs.Command.Kind.{
  from_wire, checksum_bits, is_buffered_token, eq_ignore_ascii_case, trim_start_spaces, is_empty,
}
use js8rs.Varicode.Checksum.{checksum16_valid, checksum32_valid}
use Buffers.{BufferMap, get, insert, remove}
use mathlib.Core.List.{reverse}

pub record DecodedFrame : Type 0 where
  pub compound : List ℕ
  pub directed : List (List ℕ)
  pub message : List ℕ
  pub flags : FrameFlags
  pub submode : Submode

-- `frequency_offset` is `frequency_hz.max(0.0) as u32`.
pub record Decoded : Type 0 where
  pub frame : DecodedFrame
  pub utc : ℕ
  pub snr : ℤ
  pub frequency_offset : ℕ

unfoldable pub is_compound : DecodedFrame → Bool
is_compound f = not (is_empty f.compound)

unfoldable pub is_directed : DecodedFrame → Bool
is_directed f = ltb 2 (length f.directed)

pub record BufferKey : Type 0 where
  pub submode : Submode
  pub frequency_offset : ℕ

unfoldable pub key_eq : BufferKey → BufferKey → Bool
unfolding discriminant
key_eq a b =
    discriminant a.submode == discriminant b.submode && a.frequency_offset == b.frequency_offset

pub record BufferedChecksum : Type 0 where
  pub size_bits : ℕ
  pub value : List ℕ
  pub valid : Bool

pub record BufferedCommandResult : Type 0 where
  pub key : BufferKey
  pub from : List ℕ
  pub to : List ℕ
  pub command : List ℕ
  pub payload : List ℕ
  pub checksum : Option BufferedChecksum
  pub utc : ℕ
  pub snr : ℤ
  pub flags : FrameFlags
  pub was_buffered : Bool

pub data ReassemblyEvent : Type 0 where
  buffered_started buffered_appended : BufferKey → ReassemblyEvent
  completed : BufferedCommandResult → ReassemblyEvent
  dropped_invalid_checksum : BufferKey → ReassemblyEvent

pub record BufferState : Type 0 where
  pub from : List ℕ
  pub to : List ℕ
  pub command : List ℕ
  pub utc : ℕ
  pub snr : ℤ
  pub flags : FrameFlags
  pub fragments : List (List ℕ)

-- `trim_end_matches(' ')`
unfoldable pub rstrip_spaces : List ℕ → List ℕ
rstrip_spaces input = reverse (trim_start_spaces (reverse input))

unfoldable pub concat : List (List ℕ) → List ℕ
concat [] = []
concat (s ∷ ss) = s ++ concat ss

unfoldable pub join_spaces : List (List ℕ) → List ℕ
join_spaces [] = []
join_spaces (s ∷ []) = s
join_spaces (s ∷ t ∷ ss) = s ++ (b' ' ∷ join_spaces (t ∷ ss))

-- No code point has its first byte in this range, so a text cannot be cut in front of such a byte.
unfoldable pub is_continuation : ℕ → Bool
is_continuation byte = leb 0x80 byte && ltb byte 0xc0

-- The checksum of `n` characters behind a space at the end of a payload, or why there is none.
-- `none` is a panic: the cut would fall inside a character.
unfoldable pub split_checksum :
    ℕ → ℕ → (List ℕ → List ℕ → Bool) → List ℕ → Option (List ℕ × Option BufferedChecksum)
split_checksum size_bits n valid message =
    let len = length message in
    let checksum = drop (len - n) message in
    let kept = take (len - (n + 1)) message in
    if ltb len (n + 1)
    then some (message, some (record { size_bits = size_bits; value = []; valid = false }))
    else if is_continuation (get_or message (len - n) 0)
    then none
    else if not (get_or message (len - (n + 1)) 0 == b' ')
    then some (message, some (record { size_bits = size_bits; value = checksum; valid = false }))
    else some (
      kept,
      some (record { size_bits = size_bits; value = checksum; valid = valid checksum kept }),
    )

unfoldable pub checksum_size : List ℕ → ℕ
checksum_size command = elim (from_wire command) [ none ↦ 0 | some kind ↦ checksum_bits kind ]

-- Whether a command carries no checksum whatever its kind says.
unfoldable pub unchecked : List ℕ → List ℕ → Bool
unchecked to command =
    not (is_buffered_token command)
    || (eq_ignore_ascii_case to (codes "@APRSIS")
        && (str_eq command (codes " MSG") || str_eq command (codes " MSG TO:")))

abbrev pub Assembler : Type 0
Assembler = BufferMap BufferKey BufferState

unfoldable pub assembler_new : Assembler
assembler_new = []

unfoldable pub assembler_clear : Assembler → Assembler
assembler_clear buffers = []

-- The new state and the event; `none` is a panic.
abbrev pub Step : Type 0
Step = Option (Assembler × Option ReassemblyEvent)

unfoldable pub key_of : Decoded → BufferKey
key_of decoded = record {
  submode = decoded.frame.submode;
  frequency_offset = decoded.frequency_offset;
}

unfoldable pub placeholder : List ℕ
placeholder = codes "<....>"

unfoldable pub start_state : Decoded → List ℕ → List ℕ → List ℕ → BufferState
start_state decoded from to command = record {
  from = from;
  to = to;
  command = command;
  utc = decoded.utc;
  snr = decoded.snr;
  flags = decoded.frame.flags;
  fragments = [];
}

unfoldable pub unbuffered_result :
    BufferKey → Decoded → List ℕ → List ℕ → List ℕ → List (List ℕ) → BufferedCommandResult
unbuffered_result key decoded from to command rest = record {
  key = key;
  from = from;
  to = to;
  command = command;
  payload = join_spaces rest;
  checksum = none;
  utc = decoded.utc;
  snr = decoded.snr;
  flags = decoded.frame.flags;
  was_buffered = false;
}

-- Whether a directed frame opens a buffer.
unfoldable pub opens_buffer : Bool → List ℕ → List ℕ → List ℕ → Bool
opens_buffer is_last from to command =
    is_buffered_token command && (not is_last || str_eq from placeholder || str_eq to placeholder)

-- By the parts of the directed frame.
unfoldable pub handle_parts : BufferKey → Decoded → Bool → Assembler → List (List ℕ) → Step
handle_parts key decoded is_last buffers (from ∷ to ∷ command ∷ rest) =
    if opens_buffer is_last from to command
    then some (
      insert key_eq key (start_state decoded from to command) buffers,
      some (buffered_started key),
    )
    else some (buffers, some (completed (unbuffered_result key decoded from to command rest)))
handle_parts key decoded is_last buffers parts = some (buffers, none)

unfoldable pub handle_directed : BufferKey → Decoded → Bool → Assembler → Step
unfolding handle_parts
handle_directed key decoded is_last buffers =
    handle_parts key decoded is_last buffers decoded.frame.directed

unfoldable pub is_last_frame : Decoded → Bool
is_last_frame decoded = flags_contains decoded.frame.flags flags_last

unfoldable pub append_fragment : Decoded → BufferState → BufferState
append_fragment decoded state = record state {
  fragments = state.fragments ++ (decoded.frame.message ∷ []);
}

module _ (crc16 crc32 : List ℕ → ℕ) where
  unfoldable pub finalize_buffered_payload :
      List ℕ → List ℕ → List ℕ → Option (List ℕ × Option BufferedChecksum)
  finalize_buffered_payload to command payload =
      if unchecked to command
      then some (payload, none)
      else if checksum_size command == 0
      then some (payload, none)
      else (let message = trim_start_spaces payload in
          if checksum_size command == 16
          then split_checksum 16 3 (checksum16_valid crc16) message
          else if checksum_size command == 32
          then split_checksum 32 6 (checksum32_valid crc32) message
          else some (message, none))

  unfoldable pub result_event :
      BufferKey → BufferState → List ℕ × Option BufferedChecksum → ReassemblyEvent
  result_event key state (payload, checksum) =
      let done = completed (record {
        key = key;
        from = state.from;
        to = state.to;
        command = state.command;
        payload = payload;
        checksum = checksum;
        utc = state.utc;
        snr = state.snr;
        flags = flags_bitor state.flags flags_last;
        was_buffered = true;
      }) in
      elim checksum [
        | none ↦ done
        | some c ↦ if c.valid then done else dropped_invalid_checksum key
      ]

  unfoldable pub finish_state : BufferKey → BufferState → Option ReassemblyEvent
  finish_state key state =
      elim (finalize_buffered_payload state.to state.command
        (rstrip_spaces (concat state.fragments))) [
          | none ↦ none
          | some r ↦ some (result_event key state r)
        ]

  unfoldable pub handle_fragment : BufferKey → Decoded → Assembler → Option BufferState → Step
  handle_fragment key decoded buffers none = some (buffers, none)
  handle_fragment key decoded buffers (some state) =
      let state' = append_fragment decoded state in
      if is_last_frame decoded
      then elim (finish_state key state') [
        | none ↦ none
        | some event ↦ some (remove key_eq key buffers, some event)
      ]
      else some (insert key_eq key state' buffers, some (buffered_appended key))

  unfoldable pub push_decoded : Decoded → Assembler → Step
  push_decoded decoded buffers =
      let key = key_of decoded in
      if is_directed decoded.frame
      then handle_directed key decoded (is_last_frame decoded) buffers
      else if is_compound decoded.frame
      then some (buffers, none)
      else handle_fragment key decoded buffers (get key_eq key buffers)
