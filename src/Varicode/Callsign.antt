-- ===== src/Varicode/Callsign.antt =====
-- src/varicode/mod.rs: `pack_callsign` and `unpack_callsign`, a callsign in 28 bits.
pub mod Places
pub mod Special
pub mod RoundTrip
pub mod Bounds
use js8rs.Prelude.{
  ℕ, zero, suc, ◌+◌, ◌-◌, ◌*◌, ◌/◌, ◌%◌, ◌^◌, Bool, true, false, not, ◌&&◌, ◌||◌, Option, none,
  some, List, [], ◌∷◌, ◌++◌, length, map, take, drop, get_or, get_elem?, replicate, ltb, leb, ◌==◌,
  if◌then◌else◌, codes, str_eq, trim, as_bytes, is_ascii, is_ascii_digit, is_ascii_uppercase,
  is_ascii_alphanumeric, to_ascii_uppercase,
}
use js8rs.Varicode.Alnum50.{alnum_idx, alnum_byte}

abbrev pub nbasecall : ℕ
nbasecall = 37 * 36 * 10 * 27 * 27 * 27

unfoldable pub basecalls : List (List ℕ × ℕ)
basecalls =
    (codes "<....>", nbasecall + 1)
    ∷ (codes "@ALLCALL", nbasecall + 2)
    ∷ (codes "@JS8NET", nbasecall + 3)
    ∷ (codes "@DX/NA", nbasecall + 4)
    ∷ (codes "@DX/SA", nbasecall + 5)
    ∷ (codes "@DX/EU", nbasecall + 6)
    ∷ (codes "@DX/AS", nbasecall + 7)
    ∷ (codes "@DX/AF", nbasecall + 8)
    ∷ (codes "@DX/OC", nbasecall + 9)
    ∷ (codes "@DX/AN", nbasecall + 10)
    ∷ (codes "@REGION/1", nbasecall + 11)
    ∷ (codes "@REGION/2", nbasecall + 12)
    ∷ (codes "@REGION/3", nbasecall + 13)
    ∷ (codes "@GROUP/0", nbasecall + 14)
    ∷ (codes "@GROUP/1", nbasecall + 15)
    ∷ (codes "@GROUP/2", nbasecall + 16)
    ∷ (codes "@GROUP/3", nbasecall + 17)
    ∷ (codes "@GROUP/4", nbasecall + 18)
    ∷ (codes "@GROUP/5", nbasecall + 19)
    ∷ (codes "@GROUP/6", nbasecall + 20)
    ∷ (codes "@GROUP/7", nbasecall + 21)
    ∷ (codes "@GROUP/8", nbasecall + 22)
    ∷ (codes "@GROUP/9", nbasecall + 23)
    ∷ (codes "@COMMAND", nbasecall + 24)
    ∷ (codes "@CONTROL", nbasecall + 25)
    ∷ (codes "@NET", nbasecall + 26)
    ∷ (codes "@NTS", nbasecall + 27)
    ∷ (codes "@RESERVE/0", nbasecall + 28)
    ∷ (codes "@RESERVE/1", nbasecall + 29)
    ∷ (codes "@RESERVE/2", nbasecall + 30)
    ∷ (codes "@RESERVE/3", nbasecall + 31)
    ∷ (codes "@RESERVE/4", nbasecall + 32)
    ∷ (codes "@APRSIS", nbasecall + 33)
    ∷ (codes "@RAGCHEW", nbasecall + 34)
    ∷ (codes "@JS8", nbasecall + 35)
    ∷ (codes "@EMCOMM", nbasecall + 36)
    ∷ (codes "@ARES", nbasecall + 37)
    ∷ (codes "@MARS", nbasecall + 38)
    ∷ (codes "@AMRRON", nbasecall + 39)
    ∷ (codes "@RACES", nbasecall + 40)
    ∷ (codes "@RAYNET", nbasecall + 41)
    ∷ (codes "@RADAR", nbasecall + 42)
    ∷ (codes "@SKYWARN", nbasecall + 43)
    ∷ (codes "@CQ", nbasecall + 44)
    ∷ (codes "@HB", nbasecall + 45)
    ∷ (codes "@QSO", nbasecall + 46)
    ∷ (codes "@QSOPARTY", nbasecall + 47)
    ∷ (codes "@CONTEST", nbasecall + 48)
    ∷ (codes "@FIELDDAY", nbasecall + 49)
    ∷ (codes "@SOTA", nbasecall + 50)
    ∷ (codes "@IOTA", nbasecall + 51)
    ∷ (codes "@POTA", nbasecall + 52)
    ∷ (codes "@QRP", nbasecall + 53)
    ∷ (codes "@QRO", nbasecall + 54)
    ∷ []

unfoldable pub basecall_names : List (List ℕ)
basecall_names =
    codes "<....>"
    ∷ codes "@ALLCALL"
    ∷ codes "@JS8NET"
    ∷ codes "@DX/NA"
    ∷ codes "@DX/SA"
    ∷ codes "@DX/EU"
    ∷ codes "@DX/AS"
    ∷ codes "@DX/AF"
    ∷ codes "@DX/OC"
    ∷ codes "@DX/AN"
    ∷ codes "@REGION/1"
    ∷ codes "@REGION/2"
    ∷ codes "@REGION/3"
    ∷ codes "@GROUP/0"
    ∷ codes "@GROUP/1"
    ∷ codes "@GROUP/2"
    ∷ codes "@GROUP/3"
    ∷ codes "@GROUP/4"
    ∷ codes "@GROUP/5"
    ∷ codes "@GROUP/6"
    ∷ codes "@GROUP/7"
    ∷ codes "@GROUP/8"
    ∷ codes "@GROUP/9"
    ∷ codes "@COMMAND"
    ∷ codes "@CONTROL"
    ∷ codes "@NET"
    ∷ codes "@NTS"
    ∷ codes "@RESERVE/0"
    ∷ codes "@RESERVE/1"
    ∷ codes "@RESERVE/2"
    ∷ codes "@RESERVE/3"
    ∷ codes "@RESERVE/4"
    ∷ codes "@APRSIS"
    ∷ codes "@RAGCHEW"
    ∷ codes "@JS8"
    ∷ codes "@EMCOMM"
    ∷ codes "@ARES"
    ∷ codes "@MARS"
    ∷ codes "@AMRRON"
    ∷ codes "@RACES"
    ∷ codes "@RAYNET"
    ∷ codes "@RADAR"
    ∷ codes "@SKYWARN"
    ∷ codes "@CQ"
    ∷ codes "@HB"
    ∷ codes "@QSO"
    ∷ codes "@QSOPARTY"
    ∷ codes "@CONTEST"
    ∷ codes "@FIELDDAY"
    ∷ codes "@SOTA"
    ∷ codes "@IOTA"
    ∷ codes "@POTA"
    ∷ codes "@QRP"
    ∷ codes "@QRO"
    ∷ []

-- `BASECALLS.get`
unfoldable pub find_basecall : List (List ℕ × ℕ) → List ℕ → Option ℕ
find_basecall [] name = none
find_basecall ((key, value) ∷ table) name =
    if str_eq key name then some value else find_basecall table name

-- The number of a special call, if these bytes are one.
unfoldable pub basecall : List ℕ → Option ℕ
basecall [] = none
basecall (first ∷ rest) =
    let bytes = first ∷ rest in
    if (first == b'@' || first == b'<') && (leb (length bytes) 10 && is_ascii bytes)
    then find_basecall basecalls (map to_ascii_uppercase bytes)
    else none

unfoldable pub is_portable : List ℕ → Bool
is_portable bytes =
    let n = length bytes in
    let last = get_or bytes (n - 1) 0 in
    leb 2 n && (get_or bytes (n - 2) 0 == b'/' && (last == b'P' || last == b'p'))

unfoldable pub starts_with : List ℕ → List ℕ → Bool
starts_with [] bytes = true
starts_with (x ∷ xs) [] = false
starts_with (x ∷ xs) (y ∷ ys) = (x == y) && starts_with xs ys

-- `3DA0xx` becomes `3D0xx`.
unfoldable pub without_a : List ℕ → List ℕ
without_a call = if starts_with (codes "3DA0") call then codes "3D0" ++ drop 4 call else call

-- `3Xy` becomes `Qy`.
unfoldable pub with_q : List ℕ → List ℕ
with_q call =
    if leb 3 (length call)
      && (starts_with (codes "3X") call && is_ascii_uppercase (get_or call 2 0))
    then b'Q' ∷ drop 2 call
    else call

-- The six characters, the digit in the third place.
unfoldable pub lay_call : List ℕ → Option (List ℕ)
lay_call call =
    let n = length call in
    if not (leb 2 n && leb n 6)
    then none
    else if leb 3 n && is_ascii_digit (get_or call 2 0)
    then some (call ++ replicate (6 - n) b' ')
    else if leb n 5 && is_ascii_digit (get_or call 1 0)
    then some (b' ' ∷ (call ++ replicate (5 - n) b' '))
    else none

abbrev pub is_suffix : ℕ → Bool
is_suffix b = b == b' ' || is_ascii_uppercase b

unfoldable pub is_call : ℕ → ℕ → ℕ → ℕ → ℕ → ℕ → Bool
is_call c0 c1 c2 c3 c4 c5 =
    (c0 == b' ' || is_ascii_alphanumeric c0)
    && (is_ascii_alphanumeric c1
        && (is_ascii_digit c2 && (is_suffix c3 && (is_suffix c4 && is_suffix c5))))

unfoldable pub call_number : ℕ → ℕ → ℕ → ℕ → ℕ → ℕ → ℕ
call_number c0 c1 c2 c3 c4 c5 =
    let packed = alnum_idx c0 in
    let packed = packed * 36 + alnum_idx c1 in
    let packed = packed * 10 + alnum_idx c2 in
    let packed = packed * 27 + alnum_idx c3 - 10 in
    let packed = packed * 27 + alnum_idx c4 - 10 in packed * 27 + alnum_idx c5 - 10

unfoldable pub pack_call : List ℕ → ℕ
unfolding is_call call_number
pack_call (c0 ∷ c1 ∷ c2 ∷ c3 ∷ c4 ∷ c5 ∷ []) =
    if is_call c0 c1 c2 c3 c4 c5 then call_number c0 c1 c2 c3 c4 c5 else 0
pack_call word = 0

-- The number of a callsign without a portable mark.
unfoldable pub pack_plain : List ℕ → ℕ
unfolding pack_call
pack_plain bytes =
    if ltb 7 (length bytes) || not (is_ascii bytes)
    then 0
    else elim (lay_call (with_q (without_a (map to_ascii_uppercase bytes)))) [
      | none ↦ 0
      | some word ↦ pack_call word
    ]

-- The number, and whether `portable_out` is set.
unfoldable pub pack_callsign : List ℕ → ℕ × Bool
unfolding pack_plain
pack_callsign value =
    let bytes = as_bytes (trim value) in
    elim (basecall bytes) [
      | some packed ↦ (packed, false)
      | none ↦
          if is_portable bytes
          then (pack_plain (take (length bytes - 2) bytes), true)
          else (pack_plain bytes, false)
    ]

unfoldable pub spaces_before : List ℕ → List ℕ
spaces_before [] = []
spaces_before (b ∷ bytes) = let rest = spaces_before bytes in if b == b' ' then rest else b ∷ bytes

unfoldable pub spaces_behind : List ℕ → List ℕ
spaces_behind [] = []
spaces_behind (b ∷ bytes) = elim (spaces_behind bytes) [
  | [] ↦ if b == b' ' then [] else b ∷ []
  | r ∷ rest ↦ b ∷ r ∷ rest
]

-- The text of six characters.
unfoldable pub show_call : List ℕ → Bool → List ℕ
unfolding spaces_before spaces_behind
show_call word portable =
    let call =
      if starts_with (codes "3D0") word
      then codes "3DA0" ++ drop 3 word
      else if (get_or word 0 0 == b'Q') && is_ascii_uppercase (get_or word 1 0)
      then codes "3X" ++ drop 1 word
      else word in
    let shown = spaces_behind (spaces_before call) in
    if portable then shown ++ codes "/P" else shown

unfoldable pub call_word : ℕ → List ℕ
call_word v =
    let v1 = v / 27 in
    let v2 = v1 / 27 in
    let v3 = v2 / 27 in
    let v4 = v3 / 10 in
    alnum_byte (v4 / 36)
    ∷ alnum_byte (v4 % 36)
    ∷ alnum_byte (v3 % 10)
    ∷ alnum_byte (v2 % 27 + 10)
    ∷ alnum_byte (v1 % 27 + 10)
    ∷ alnum_byte (v % 27 + 10)
    ∷ []

unfoldable pub unpack_callsign : ℕ → Bool → List ℕ
unfolding show_call call_word
unpack_callsign value portable =
    let plain = show_call (call_word value) portable in
    if ltb nbasecall value
    then elim (get_elem? basecall_names (value - (nbasecall + 1))) [
      | none ↦ plain
      | some name ↦ name
    ]
    else plain
