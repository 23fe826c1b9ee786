-- ===== src/Command/Calls.antt =====
-- src/command.rs: which texts are callsigns. Texts are bytes; the calls are ASCII.
use js8rs.Prelude.{
  ℕ, zero, suc, ◌+◌, ◌-◌, Bool, true, false, not, ◌&&◌, ◌||◌, List, [], ◌∷◌, length, drop, take,
  get_or, ltb, leb, ◌==◌, if◌then◌else◌, codes, is_ascii, is_ascii_digit, is_ascii_alphabetic,
  is_ascii_alphanumeric, min,
}
use js8rs.Command.Kind.{eq_ignore_ascii_case, contains_byte, is_empty}
use js8rs.Varicode.Callsign.{basecall_names}

abbrev pub all : (ℕ → Bool) → List ℕ → Bool
all p [] = true
all p (b ∷ bytes) = p b && all p bytes

-- A digit in the given place, letters and digits before it, and at most three letters behind it.
unfoldable pub digit_in_place : List ℕ → ℕ → Bool
digit_in_place bytes digit =
    ltb digit (length bytes)
    && (is_ascii_digit (get_or bytes digit 0)
        && (all is_ascii_alphanumeric (take digit bytes)
            && (all is_ascii_alphabetic (drop (digit + 1) bytes)
                && leb (length bytes - digit - 1) 3)))

unfoldable pub is_base_call : List ℕ → Bool
unfolding digit_in_place
is_base_call bytes =
    leb 2 (length bytes)
    && (leb (length bytes) 6 && (digit_in_place bytes 1 || digit_in_place bytes 2))

unfoldable pub has_letter_digit_pair : List ℕ → Bool
has_letter_digit_pair [] = false
has_letter_digit_pair (a ∷ []) = false
has_letter_digit_pair (a ∷ b ∷ bytes) =
    (is_ascii_digit a && is_ascii_alphabetic b)
    || (is_ascii_alphabetic a && is_ascii_digit b)
    || has_letter_digit_pair (b ∷ bytes)

-- Without a portable mark, `/P` or `/p`.
unfoldable pub without_portable : List ℕ → List ℕ
without_portable call =
    let n = length call in
    let last = get_or call (n - 1) 0 in
    if leb 2 n && (get_or call (n - 2) 0 == b'/' && (last == b'P' || last == b'p'))
    then take (n - 2) call
    else call

unfoldable pub is_valid_base : List ℕ → Bool
unfolding without_portable is_base_call has_letter_digit_pair
is_valid_base call =
    let base = without_portable call in
    is_base_call base && (ltb 2 (length base) && has_letter_digit_pair base)

unfoldable pub slash_count : List ℕ → ℕ
slash_count [] = 0
slash_count (b ∷ bytes) = let rest = slash_count bytes in if b == b'/' then suc rest else rest

-- The bytes in front of the first slash.
unfoldable pub before_slash : List ℕ → List ℕ
before_slash [] = []
before_slash (b ∷ bytes) = let rest = before_slash bytes in if b == b'/' then [] else b ∷ rest

unfoldable pub is_known : List (List ℕ) → List ℕ → Bool
unfolding eq_ignore_ascii_case
is_known [] prefix = false
is_known (known ∷ names) prefix = eq_ignore_ascii_case prefix known || is_known names prefix

abbrev starts_at : List ℕ → Bool
starts_at [] = false
starts_at (b ∷ bytes) = b == b'@'

unfoldable pub is_valid_compound : List ℕ → Bool
unfolding slash_count before_slash is_known has_letter_digit_pair basecall_names contains_byte
is_valid_compound call =
    if ltb 9 (length call - slash_count call)
    then false
    else if contains_byte b'/' call
    then not (is_known basecall_names (before_slash call))
    else starts_at call || (ltb 2 (length call) && has_letter_digit_pair call)

-- `valid` behind the first part.
abbrev is_part : List ℕ → Bool
is_part bytes = all (λ b. is_ascii_alphanumeric b || b == b'/') bytes

-- `valid` of the first part, which may start with @.
abbrev is_first_part : List ℕ → Bool
is_first_part [] = true
is_first_part (b ∷ bytes) = (is_ascii_alphanumeric b || b == b'/' || b == b'@') && is_part bytes

-- Whether a test holds from the first number up to the second.
unfoldable pub any_upto : ℕ → (ℕ → Bool) → Bool
any_upto zero test = test 0
any_upto (suc n) test = let below = any_upto n test in below || test (suc n)

-- Behind an optional slash.
abbrev either_way : List ℕ → (List ℕ → Bool) → Bool
either_way bytes test = test bytes || (get_or bytes 0 0 == b'/' && test (drop 1 bytes))

abbrev is_tail : List ℕ → Bool
is_tail bytes = leb (length bytes) 3 && is_part bytes

-- The second part of at most three bytes, and the tail.
unfoldable pub matches_behind : List ℕ → Bool
unfolding any_upto
matches_behind bytes =
    any_upto (min 3 (length bytes))
      (λ b. is_part (take b bytes) && either_way (drop b bytes) is_tail)

unfoldable pub matches_extended : List ℕ → Bool
unfolding any_upto matches_behind
matches_extended bytes =
    not (is_empty bytes)
    && (is_ascii_alphanumeric (get_or bytes (length bytes - 1) 0)
        && any_upto (min 3 (length bytes) - 1) (λ a.
          is_first_part (take (suc a) bytes) && either_way (drop (suc a) bytes) matches_behind))

unfoldable pub is_compound_shape : List ℕ → Bool
unfolding matches_extended
is_compound_shape call = matches_extended call || (starts_at call && matches_extended (drop 1 call))

unfoldable pub is_valid_call : List ℕ → Bool
unfolding eq_ignore_ascii_case is_valid_base is_valid_compound is_compound_shape
is_valid_call call =
    if not (is_ascii call)
    then false
    else if eq_ignore_ascii_case call (codes "<....>")
    then true
    else is_valid_base call || (is_valid_compound call && is_compound_shape call)

unfoldable pub is_compound_call : List ℕ → Bool
unfolding is_valid_base is_valid_compound is_compound_shape
is_compound_call call =
    if not (is_ascii call) || (not (starts_at call) && is_valid_base call)
    then false
    else is_valid_compound call && is_compound_shape call
