-- ===== src/Varicode/Fields.antt =====
-- src/varicode/mod.rs: reports and commands as small numbers.
pub mod Laws
use js8rs.Prelude.{
  ℕ, ◌+◌, ◌-◌, ◌*◌, ◌/◌, ◌%◌, ◌^◌, Bool, true, false, ◌&&◌, not, Option, none, some, List, [], ◌∷◌,
  ◌++◌, ltb, leb, ◌==◌, if◌then◌else◌, bit_and, bit_or, u8, ◌<<<◌, low_mask,
}
use js8rs.Prelude.Int.{ℤ, pos, negsuc, pos_part, neg_part, ltb_ℤ, ◌+ℤ◌}
use js8rs.Command.Kind.{CommandKind, from_wire_code, has_snr, heartbeat_snr, snr, kind_code}

abbrev pub i32_max : ℕ
i32_max = 2 ^ 31 - 1

-- Decimal digits onto a value; `none` at any other byte.
unfoldable pub digits_value : ℕ → List ℕ → Option ℕ
digits_value acc [] = some acc
digits_value acc (c ∷ s) =
    let rest = digits_value (acc * 10 + (c - b'0')) s in
    if leb b'0' c && leb c b'9' then rest else none

-- At least one digit, and a value that fits.
unfoldable pub bounded_digits : ℕ → List ℕ → Option ℕ
bounded_digits limit [] = none
bounded_digits limit (c ∷ s) = elim (digits_value 0 (c ∷ s)) [
  | none ↦ none
  | some n ↦ if leb n limit then some n else none
]

unfoldable pub negated : ℕ → ℤ
negated n = if n == 0 then pos 0 else negsuc (n - 1)

-- `str::parse::<i32>`
unfoldable pub parse_i32 : List ℕ → Option ℤ
unfolding bounded_digits digits_value negated
parse_i32 [] = none
parse_i32 (c ∷ s) =
    if c == b'-'
    then elim (bounded_digits (i32_max + 1) s) [ none ↦ none | some n ↦ some (negated n) ]
    else if c == b'+'
    then elim (bounded_digits i32_max s) [ none ↦ none | some n ↦ some (pos n) ]
    else elim (bounded_digits i32_max (c ∷ s)) [ none ↦ none | some n ↦ some (pos n) ]

unfoldable pub clamp : ℤ → ℤ → ℤ → ℤ
clamp lo hi v = if ltb_ℤ v lo then lo else if ltb_ℤ hi v then hi else v

-- The field, and the flag that `ok_out` receives: a text that is no number counts as 0.
unfoldable pub num_field : Option ℤ → ℕ × Bool
unfolding clamp ◌+ℤ◌
num_field none = (u8 (pos_part (clamp (negsuc 29) (pos 31) (pos 0) +ℤ pos 31)), false)
num_field (some v) = (u8 (pos_part (clamp (negsuc 29) (pos 31) v +ℤ pos 31)), true)

unfoldable pub pack_num : List ℕ → ℕ × Bool
pack_num [] = (0, false)
pack_num (c ∷ s) = num_field (parse_i32 (c ∷ s))

-- Two decimal digits, as `{:02}` prints a number below 100.
unfoldable pub two_digits : ℕ → List ℕ
two_digits n = (b'0' + n / 10) ∷ (b'0' + n % 10) ∷ []

unfoldable pub format_snr : ℤ → List ℕ
unfolding two_digits
format_snr (pos n) = if leb n 60 then b'+' ∷ two_digits n else []
format_snr (negsuc n) = if leb (n + 1) 60 then b'-' ∷ two_digits (n + 1) else []

abbrev pub sends_snr : Option CommandKind → Bool
sends_snr none = false
sends_snr (some kind) = has_snr kind

abbrev pub is_heartbeat_snr : Option CommandKind → Bool
is_heartbeat_snr (some heartbeat_snr) = true
is_heartbeat_snr kind = false

-- The field, and the flag that `packed_num_out` receives.
unfoldable pub pack_cmd : ℕ → ℕ → ℕ × Bool
pack_cmd cmd num =
    let kind = from_wire_code (pos cmd) in
    if sends_snr kind
    then (
      u8 (
          u8 (bit_or (1 <<< 1) (if is_heartbeat_snr kind then 1 else 0) <<< 6)
          + bit_and num (low_mask 6)),
      true,
    )
    else (bit_and cmd (low_mask 7), false)

-- The command, and the number that `num_out` receives.
unfoldable pub unpack_cmd : ℕ → ℕ × ℕ
unfolding kind_code
unpack_cmd value =
    if not (bit_and value 128 == 0)
    then (
      if not (bit_and value 64 == 0) then kind_code heartbeat_snr else kind_code snr,
      bit_and value (low_mask 6),
    )
    else (bit_and value (low_mask 7), 0)
