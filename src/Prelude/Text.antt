-- ===== src/Prelude/Text.antt =====
-- Text: a `&str` is the list of its Unicode scalar values, `as_bytes` is its UTF-8 form.
use Prim.Native.Nat.{ℕ, ◌+◌, ◌-◌, ◌/◌, ◌%◌, ◌<◌}
use Prim.Native.Char.{code}
use Prim.Native.String.{String}
use mathlib.Core.Bool.{Bool, true, false, ◌&&◌, ◌||◌}
use mathlib.Core.List.{List, [], ◌∷◌, ◌++◌}
use mathlib.Core.Path.{◌≡◌, refl}
use mathlib.Core.Logic.{◌↔◌}
use native.Mathlib.Omega.{arith}
use js8rs.Prelude.Tests.{ltb, leb, ◌==◌, if◌then◌else◌}

-- A string literal of the source.
abbrev pub codes : String → List ℕ
codes String.[] = []
codes (String.◌∷◌ c s) = code c ∷ codes s

unfoldable pub str_eq : List ℕ → List ℕ → Bool
str_eq [] [] = true
str_eq [] (y ∷ ys) = false
str_eq (x ∷ xs) [] = false
str_eq (x ∷ xs) (y ∷ ys) = x == y && str_eq xs ys

-- `str::is_ascii`
unfoldable pub is_ascii : List ℕ → Bool
is_ascii [] = true
is_ascii (c ∷ s) = ltb c 128 && is_ascii s

pub str_eq_iff : (s t : List ℕ) → (str_eq s t ≡ true) ↔ (s ≡ t)
unfolding str_eq
str_eq_iff [] [] = (λ _. refl, λ _. refl)
str_eq_iff [] (y ∷ ys) = ground arith
str_eq_iff (x ∷ xs) [] = ground arith
str_eq_iff (x ∷ xs) (y ∷ ys) = ground (arith, str_eq_iff xs ys)

-- `char::is_whitespace`, the Unicode property `White_Space`.
unfoldable pub is_whitespace : ℕ → Bool
is_whitespace c =
    (leb 9 c && leb c 13)
    || c == 32
    || c == 0x85
    || c == 0xa0
    || c == 0x1680
    || (leb 0x2000 c && leb c 0x200a)
    || c == 0x2028
    || c == 0x2029
    || c == 0x202f
    || c == 0x205f
    || c == 0x3000

unfoldable pub trim_start : List ℕ → List ℕ
unfolding is_whitespace
trim_start [] = []
trim_start (c ∷ s) = if is_whitespace c then trim_start s else c ∷ s

-- A character in front of a trimmed rest.
unfoldable pub cons_trimmed : ℕ → List ℕ → List ℕ
unfolding is_whitespace
cons_trimmed c [] = if is_whitespace c then [] else c ∷ []
cons_trimmed c (d ∷ s) = c ∷ d ∷ s

unfoldable pub trim_end : List ℕ → List ℕ
unfolding cons_trimmed
trim_end [] = []
trim_end (c ∷ s) = cons_trimmed c (trim_end s)

-- `str::trim`
unfoldable pub trim : List ℕ → List ℕ
trim s = trim_end (trim_start s)

unfoldable pub utf8_char : ℕ → List ℕ
utf8_char c =
    if ltb c 0x80
    then c ∷ []
    else if ltb c 0x800
    then (0xc0 + c / 64) ∷ (0x80 + c % 64) ∷ []
    else if ltb c 0x10000
    then (0xe0 + c / 4096) ∷ (0x80 + c / 64 % 64) ∷ (0x80 + c % 64) ∷ []
    else (0xf0 + c / 262144) ∷ (0x80 + c / 4096 % 64) ∷ (0x80 + c / 64 % 64) ∷ (0x80 + c % 64) ∷ []

-- `str::as_bytes`
unfoldable pub as_bytes : List ℕ → List ℕ
unfolding utf8_char
as_bytes [] = []
as_bytes (c ∷ s) = utf8_char c ++ as_bytes s

-- Bounds of the ASCII classes.
unfoldable pub is_ascii_digit : ℕ → Bool
is_ascii_digit c = leb b'0' c && leb c b'9'

unfoldable pub is_ascii_uppercase : ℕ → Bool
is_ascii_uppercase c = leb b'A' c && leb c b'Z'

unfoldable pub is_ascii_lowercase : ℕ → Bool
is_ascii_lowercase c = leb b'a' c && leb c b'z'

unfoldable pub is_ascii_alphabetic : ℕ → Bool
unfolding is_ascii_uppercase is_ascii_lowercase
is_ascii_alphabetic c = is_ascii_uppercase c || is_ascii_lowercase c

unfoldable pub is_ascii_alphanumeric : ℕ → Bool
unfolding is_ascii_alphabetic is_ascii_digit
is_ascii_alphanumeric c = is_ascii_alphabetic c || is_ascii_digit c

unfoldable pub to_ascii_uppercase : ℕ → ℕ
unfolding is_ascii_lowercase
to_ascii_uppercase c = if is_ascii_lowercase c then c - 32 else c

-- Trimming leaves a character that is no white space where it is.
pub trim_start-cons : (c : ℕ) (s : List ℕ) → is_whitespace c ≡ false → trim_start (c ∷ s) ≡ c ∷ s
trim_start-cons c s h = unfold trim_start in rw h

pub trim_end-cons :
    (c : ℕ) (s : List ℕ) → is_whitespace c ≡ false → trim_end (c ∷ s) ≡ c ∷ trim_end s
trim_end-cons c s h = unfold trim_end in go (trim_end s)
  where
    go : (t : List ℕ) → cons_trimmed c t ≡ c ∷ t
    go [] = unfold cons_trimmed in rw h
    go (d ∷ t) = unfold cons_trimmed in refl

pub as_bytes-cons : (c : ℕ) (s : List ℕ) → c < 128 → as_bytes (c ∷ s) ≡ c ∷ as_bytes s
unfolding as_bytes
as_bytes-cons c s h = ground arith

-- Characters that are ASCII and no white space stand in front of the bytes of a trimmed text.
abbrev pub IsPlain : ℕ → Type 0
IsPlain c = (c < 128) × (is_whitespace c ≡ false)

pub as_bytes-trim_end-cons :
    (c : ℕ) (s : List ℕ) → IsPlain c → as_bytes (trim_end (c ∷ s)) ≡ c ∷ as_bytes (trim_end s)
as_bytes-trim_end-cons c s (small, solid) = rw (trim_end-cons c s solid) (as_bytes-cons c _ small)

pub as_bytes-trim-cons :
    (c : ℕ) (s : List ℕ) → IsPlain c → as_bytes (trim (c ∷ s)) ≡ c ∷ as_bytes (trim_end s)
as_bytes-trim-cons c s h =
    unfold trim in rw (trim_start-cons c s h.1) (as_bytes-trim_end-cons c s h)
