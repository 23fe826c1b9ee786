-- ===== src/Protocol.antt =====
-- src/protocol.rs: submodes, frame types, flag sets and packed times.
pub mod Laws
use js8rs.Prelude.{
  ℕ, ◌+◌, ◌*◌, ◌/◌, ◌%◌, Bool, not, Option, none, some, bit_and, bit_or, u8, ◌==◌, if◌then◌else◌,
  Result, ok, err,
}
use js8rs.Prelude.Int.{ℤ, pos, ◌==ℤ◌}

pub data Submode : Type 0 where
  normal fast turbo slow ultra : Submode

-- `self as i32`
unfoldable pub discriminant : Submode → ℕ
discriminant normal = 0
discriminant fast = 1
discriminant turbo = 2
discriminant slow = 4
discriminant ultra = 8

pub record SubmodeParseError : Type 0 where
  pub value : ℤ

unfoldable pub submode_try_from : ℤ → Result SubmodeParseError Submode
submode_try_from value =
    if value ==ℤ pos 0
    then ok normal
    else if value ==ℤ pos 1
    then ok fast
    else if value ==ℤ pos 2
    then ok turbo
    else if value ==ℤ pos 4
    then ok slow
    else if value ==ℤ pos 8
    then ok ultra
    else err (record { value = value })

pub data FrameType : Type 0 where
  frame_unknown frame_heartbeat frame_compound frame_compound_directed : FrameType
  frame_directed frame_data frame_data_compressed : FrameType

-- `self as u8`
unfoldable pub frame_code : FrameType → ℕ
frame_code frame_unknown = 255
frame_code frame_heartbeat = 0
frame_code frame_compound = 1
frame_code frame_compound_directed = 2
frame_code frame_directed = 3
frame_code frame_data = 4
frame_code frame_data_compressed = 6

pub record FrameTypeParseError : Type 0 where
  pub value : ℕ

unfoldable pub frame_type_try_from : ℕ → Result FrameTypeParseError FrameType
frame_type_try_from value =
    if value == 255
    then ok frame_unknown
    else if value == 0
    then ok frame_heartbeat
    else if value == 1
    then ok frame_compound
    else if value == 2
    then ok frame_compound_directed
    else if value == 3
    then ok frame_directed
    else if value == 4
    then ok frame_data
    else if value == 6
    then ok frame_data_compressed
    else err (record { value = value })

-- The newtype `FrameFlags(u8)`, and below `DecodeModes(u8)`.
pub record FrameFlags : Type 0 where
  pub bits : ℕ

abbrev pub flags_none : FrameFlags
flags_none = record { bits = 0 }

abbrev pub flags_first : FrameFlags
flags_first = record { bits = 1 }

abbrev pub flags_last : FrameFlags
flags_last = record { bits = 2 }

abbrev pub flags_data : FrameFlags
flags_data = record { bits = 4 }

abbrev pub flags_all : FrameFlags
flags_all = record { bits = bit_or (bit_or 1 2) 4 }

-- `!ALL` on a byte is `255 - ALL`.
unfoldable pub flags_from_bits : ℕ → Option FrameFlags
flags_from_bits b = if bit_and b 248 == 0 then some (record { bits = b }) else none

unfoldable pub flags_from_bits_truncate : ℕ → FrameFlags
flags_from_bits_truncate b = record { bits = bit_and b flags_all.bits }

unfoldable pub flags_contains : FrameFlags → FrameFlags → Bool
flags_contains f g = bit_and f.bits g.bits == g.bits

unfoldable pub flags_intersects : FrameFlags → FrameFlags → Bool
flags_intersects f g = not (bit_and f.bits g.bits == 0)

unfoldable pub flags_is_empty : FrameFlags → Bool
flags_is_empty f = f.bits == 0

unfoldable pub flags_bitor : FrameFlags → FrameFlags → FrameFlags
flags_bitor f g = record { bits = bit_or f.bits g.bits }

unfoldable pub flags_bitand : FrameFlags → FrameFlags → FrameFlags
flags_bitand f g = record { bits = bit_and f.bits g.bits }

pub record DecodeModes : Type 0 where
  pub bits : ℕ

abbrev pub modes_none : DecodeModes
modes_none = record { bits = 0 }

abbrev pub modes_all : DecodeModes
modes_all = record { bits = bit_or (bit_or (bit_or (bit_or 1 2) 4) 8) 16 }

unfoldable pub modes_from : Submode → DecodeModes
modes_from normal = record { bits = 1 }
modes_from fast = record { bits = 2 }
modes_from turbo = record { bits = 4 }
modes_from slow = record { bits = 8 }
modes_from ultra = record { bits = 16 }

unfoldable pub modes_contains : DecodeModes → DecodeModes → Bool
modes_contains s t = bit_and s.bits t.bits == t.bits

unfoldable pub modes_from_bits_truncate : ℕ → DecodeModes
modes_from_bits_truncate b = record { bits = bit_and b modes_all.bits }

unfoldable pub modes_bitor : DecodeModes → DecodeModes → DecodeModes
modes_bitor s t = record { bits = bit_or s.bits t.bits }

-- `code_time` packs u8 fields into `HHMMSS`; `decode_time` of src/internal/commons.rs reads it.
unfoldable pub code_time : ℕ → ℕ → ℕ → ℕ
code_time hour minute second = hour * 10000 + minute * 100 + second

pub record HourMinuteSecond : Type 0 where
  pub hour : ℕ
  pub minute : ℕ
  pub second : ℕ

unfoldable pub decode_time : ℕ → HourMinuteSecond
decode_time nutc = record {
  hour = u8 (nutc / 10000);
  minute = u8 (nutc % 10000 / 100);
  second = u8 (nutc % 100);
}
