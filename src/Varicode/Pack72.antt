-- ===== src/Varicode/Pack72.antt =====
-- src/varicode/mod.rs: `pack72bits` and `unpack72bits`, a 64-bit word and a byte in 12 characters.
pub mod RoundTrip
pub mod Trim
use js8rs.Prelude.{
  ℕ, zero, suc, ◌+◌, ◌-◌, ◌*◌, ◌/◌, ◌%◌, ◌^◌, Bool, true, false, ◌&&◌, Option, none, some, List, [],
  ◌∷◌, ◌++◌, take, length, ltb, get_or, bit_and, bit_or, u8, u64, ◌<<<◌, ◌>>>◌, is_ascii,
  if◌then◌else◌, map,
}
use js8rs.Varicode.Alphabet.{alphabet72, alphabet72_at, alphabet72_index, find_char}
use mathlib.Core.Option
use mathlib.Core.Option.{get_or as or_else}

-- `for i in 0..10`: the low six bits of the rest, in front of what was packed before.
unfoldable pub pack_loop : ℕ → ℕ → List ℕ → List ℕ
pack_loop zero value packed = packed
pack_loop (suc rounds) value packed =
    pack_loop rounds (value >>> 6) (alphabet72_at (bit_and (u8 value) 0x3f) ∷ packed)

unfoldable pub pack72bits : ℕ → ℕ → List ℕ
unfolding pack_loop
pack72bits value rem =
    let rem_high = bit_or (u8 (bit_and (u8 value) 0x0f <<< 2)) (rem >>> 6) in
    let rem_low = bit_and rem 0x3f in
    pack_loop 10 (value >>> 4) (alphabet72_at rem_high ∷ alphabet72_at rem_low ∷ [])

-- The twelve six-bit words of a text; `none` is a panic on a shorter text.
unfoldable pub encoded_words : List ℕ → Option (List ℕ)
encoded_words text =
    if ltb (length text) 12
    then none
    else if is_ascii text
    then some (map alphabet72_index (take 12 text))
    else some (map (λ ch. u8 (or_else (find_char alphabet72 ch) 0)) (take 12 text))

-- `value |= u64::from(v) << (58 - 6 * i)`
unfoldable pub or_words : ℕ → ℕ → List ℕ → ℕ
or_words value i [] = value
or_words value i (v ∷ vs) = or_words (bit_or value (u64 (v <<< (58 - 6 * i)))) (i + 1) vs

unfoldable pub unpack_words : List ℕ → ℕ × ℕ
unpack_words encoded =
    let rem_high = get_or encoded 10 0 in
    let value = bit_or (or_words 0 0 (take 10 encoded)) (rem_high >>> 2) in
    let rem = bit_or (u8 (bit_and rem_high 3 <<< 6)) (get_or encoded 11 0) in (value, rem)

-- The word and the byte that `unpack72bits` returns and writes to `rem_out`.
unfoldable pub unpack72bits : List ℕ → Option (ℕ × ℕ)
unpack72bits text = Option.map unpack_words (encoded_words text)
