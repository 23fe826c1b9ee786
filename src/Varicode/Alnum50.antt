-- ===== src/Varicode/Alnum50.antt =====
-- src/varicode/mod.rs: `pack_alpha_numeric50` and `unpack_alpha_numeric50`, a callsign of up to
-- eleven characters, with a slash allowed in the fourth and eighth place, in 50 bits.
pub mod Words
pub mod Layout
pub mod RoundTrip
use js8rs.Prelude.{
  ℕ, zero, suc, ◌+◌, ◌-◌, ◌*◌, ◌/◌, ◌%◌, ◌^◌, min, Bool, true, false, ◌&&◌, ◌||◌, not, List, [],
  ◌∷◌, ◌++◌, take, drop, length, replicate, get_or, ltb, leb, ◌==◌, if◌then◌else◌,
}

-- `u32::MAX` marks a byte that has no index.
abbrev pub no_index : ℕ
no_index = 2 ^ 32 - 1

unfoldable pub alnum_idx : ℕ → ℕ
alnum_idx byte =
    if leb b'0' byte && leb byte b'9'
    then byte - b'0'
    else if leb b'A' byte && leb byte b'Z'
    then byte - b'A' + 10
    else if byte == b' '
    then 36
    else if byte == b'/'
    then 37
    else if byte == b'@'
    then 38
    else no_index

unfoldable pub alnum_byte : ℕ → ℕ
alnum_byte idx =
    if leb idx 9
    then b'0' + idx
    else if leb idx 35
    then b'A' + (idx - 10)
    else if idx == 36
    then b' '
    else if idx == 37
    then b'/'
    else if idx == 38
    then b'@'
    else 0

-- The bytes that have an index, up to `room` of them.
unfoldable pub keep_indexed : ℕ → List ℕ → List ℕ
keep_indexed zero bytes = []
keep_indexed (suc room) [] = []
keep_indexed (suc room) (byte ∷ bytes) = elim (alnum_idx byte == no_index) [
  | true ↦ keep_indexed (suc room) bytes
  | false ↦ byte ∷ keep_indexed room bytes
]

-- `word.copy_within(i..10, i + 1); word[i] = b' '` on eleven bytes.
unfoldable pub insert_space : ℕ → List ℕ → List ℕ
insert_space i word = take i word ++ (b' ' ∷ take (10 - i) (drop i word))

-- Whether the byte at `i` has to make room for a separator.
unfoldable pub needs_space : ℕ → ℕ → List ℕ → Bool
needs_space i len word = ltb i len && not (get_or word i 0 == b'/')

-- The separator of one place, with the length it leads to.
unfoldable pub make_room : ℕ → ℕ → List ℕ → ℕ × List ℕ
make_room i len word =
    if needs_space i len word then (min (len + 1) 11, insert_space i word) else (len, word)

-- The length behind the second separator is not read again.
unfoldable pub lay_out : ℕ → List ℕ → List ℕ
lay_out len word = let (len', word') = make_room 3 len word in (make_room 7 len' word').1

-- The eleven bytes that are packed.
unfoldable pub alnum_word : List ℕ → List ℕ
alnum_word bytes =
    let kept = keep_indexed 11 bytes in
    lay_out (length kept) (kept ++ replicate (11 - length kept) b' ')

-- `u64::from(word[i] == b'/')`
unfoldable pub is_slash : ℕ → ℕ
is_slash byte = if byte == b'/' then 1 else 0

unfoldable pub pack_word : List ℕ → ℕ
pack_word word =
    let idx = λ (i : ℕ). alnum_idx (get_or word i 0) in
    38 * 38 * 38 * 2 * 38 * 38 * 38 * 2 * 38 * 38 * idx 0
    + 38 * 38 * 38 * 2 * 38 * 38 * 38 * 2 * 38 * idx 1
    + 38 * 38 * 38 * 2 * 38 * 38 * 38 * 2 * idx 2
    + 38 * 38 * 38 * 2 * 38 * 38 * 38 * is_slash (get_or word 3 0)
    + 38 * 38 * 38 * 2 * 38 * 38 * idx 4
    + 38 * 38 * 38 * 2 * 38 * idx 5
    + 38 * 38 * 38 * 2 * idx 6
    + 38 * 38 * 38 * is_slash (get_or word 7 0)
    + 38 * 38 * idx 8
    + 38 * idx 9
    + idx 10

unfoldable pub pack_alpha_numeric50 : List ℕ → ℕ
pack_alpha_numeric50 value = pack_word (alnum_word value)

unfoldable pub separator : ℕ → ℕ
separator packed = if packed % 2 == 0 then b' ' else b'/'

-- The eleven bytes, the last character in the lowest digit.
unfoldable pub unpack_word : ℕ → List ℕ
unpack_word packed =
    let p9 = packed / 38 in
    let p8 = p9 / 38 in
    let p7 = p8 / 38 in
    let p6 = p7 / 2 in
    let p5 = p6 / 38 in
    let p4 = p5 / 38 in
    let p3 = p4 / 38 in
    let p2 = p3 / 2 in
    let p1 = p2 / 38 in
    let p0 = p1 / 38 in
    alnum_byte (p0 % 39)
    ∷ alnum_byte (p1 % 38)
    ∷ alnum_byte (p2 % 38)
    ∷ separator p3
    ∷ alnum_byte (p4 % 38)
    ∷ alnum_byte (p5 % 38)
    ∷ alnum_byte (p6 % 38)
    ∷ separator p7
    ∷ alnum_byte (p8 % 38)
    ∷ alnum_byte (p9 % 38)
    ∷ alnum_byte (packed % 38)
    ∷ []

unfoldable pub strip_spaces : List ℕ → List ℕ
strip_spaces [] = []
strip_spaces (byte ∷ bytes) =
    let rest = strip_spaces bytes in if byte == b' ' then rest else byte ∷ rest

unfoldable pub unpack_alpha_numeric50 : ℕ → List ℕ
unpack_alpha_numeric50 packed = strip_spaces (unpack_word packed)
