-- ===== src/Encoder.antt =====
-- src/encoder.rs with the Costas arrays of src/internal/costas.rs: a packed frame as 79 tones.
pub mod Crc12
pub mod Injective
pub mod Layout
pub mod Parity
pub mod Payload
pub mod Places
pub mod Tones
use js8rs.Prelude.{
  ℕ, zero, suc, ◌+◌, ◌-◌, ◌*◌, ◌/◌, ◌%◌, ◌^◌, Bool, List, [], ◌∷◌, ◌++◌, length, take, set,
  replicate, get_or, codes, ◌==◌, if◌then◌else◌, bit_and, bit_or, u8, ◌<<<◌, ◌>>>◌, Result, ok, err,
  not,
}
use js8rs.Protocol.{Submode}
use js8rs.Submodes.{CostasType, original, modified, submode_data}
use js8rs.Varicode.Alphabet.{index_loop}
use Crc12.{crc12}
use Parity.{parity_matrix}

-- src/codec.rs
pub data EncodeError : Type 0 where
  invalid_character : ℕ → EncodeError
  invalid_message_length : ℕ → EncodeError

abbrev pub invalid_word : ℕ
invalid_word = 0xff

abbrev pub alphabet64 : List ℕ
alphabet64 = codes "0123456789ABCDEFGHIJKLMNOPQRSTUVWXYZabcdefghijklmnopqrstuvwxyz-+"

-- `words[ALPHABET[i]] = i`, over words that are all invalid.
unfoldable pub alphabet_words : List ℕ
alphabet_words = index_loop (replicate 256 invalid_word) 0 alphabet64

unfoldable pub alphabet_word : ℕ → Result EncodeError ℕ
alphabet_word value =
    let w = get_or alphabet_words value invalid_word in
    if w == invalid_word then err (invalid_character value) else ok w

-- `?`
abbrev pub and_then {ℓ κ μ} :
    {E : Type ℓ} {A : Type κ} {B : Type μ} → Result E A → (A → Result E B) → Result E B
and_then (ok a) next = next a
and_then (err e) next = err e

-- Four characters in three bytes.
unfoldable pub group_bytes : ℕ → ℕ → ℕ → ℕ → List ℕ → List ℕ
group_bytes w0 w1 w2 w3 rest =
    let words = bit_or (bit_or (bit_or (w0 <<< 18) (w1 <<< 12)) (w2 <<< 6)) w3 in
    u8 (words >>> 16) ∷ u8 (words >>> 8) ∷ u8 words ∷ rest

-- The loop over the groups of four characters.
unfoldable pub message_bytes : List ℕ → Result EncodeError (List ℕ)
message_bytes (c0 ∷ c1 ∷ c2 ∷ c3 ∷ cs) =
    let rest = message_bytes cs in
    and_then (alphabet_word c0) (λ w0. and_then (alphabet_word c1) (λ w1.
      and_then (alphabet_word c2) (λ w2.
        and_then (alphabet_word c3)
          (λ w3. and_then rest (λ bytes. ok (group_bytes w0 w1 w2 w3 bytes))))))
message_bytes cs = ok []

-- The eleven bytes: those of the message, then three bits of type and twelve of CRC.
unfoldable pub frame_bytes : ℕ → List ℕ → List ℕ
frame_bytes typ packed =
    let byte9 = u8 (bit_and typ 0b111 <<< 5) in
    let c = crc12 (packed ++ (byte9 ∷ 0 ∷ [])) in
    packed ++ (bit_or byte9 (bit_and (u8 (c >>> 7)) 0x1f) ∷ u8 (u8 (bit_and c 0x7f) <<< 1) ∷ [])

unfoldable pub be_value : ℕ → List ℕ → ℕ
be_value value [] = value
be_value value (byte ∷ bytes) = be_value (value * 2 ^ 8 + byte) bytes

-- `u128::from_be_bytes` of the eleven bytes and five zeros.
unfoldable pub message_bits : List ℕ → ℕ
message_bits bytes = be_value 0 (bytes ++ replicate 5 0)

-- `count_ones` of the lowest bits.
unfoldable pub count_ones : ℕ → ℕ → ℕ
count_ones zero n = 0
count_ones (suc width) n = n % 2 + count_ones width (n / 2)

unfoldable pub parity_bit : ℕ → ℕ → ℕ
parity_bit bits row = bit_and (u8 (count_ones 128 (bit_and (get_or parity_matrix row 0) bits))) 1

unfoldable pub parity_tone : ℕ → ℕ → ℕ
parity_tone bits symbol =
    let row = symbol * 3 in
    bit_or (bit_or (u8 (parity_bit bits row <<< 2)) (u8 (parity_bit bits (row + 1) <<< 1)))
      (parity_bit bits (row + 2))

unfoldable pub data_tone : ℕ → ℕ → ℕ
data_tone bits symbol = u8 (bit_and (bits >>> (125 - symbol * 3)) 0b111)

abbrev pub costas_len : ℕ
costas_len = 7

abbrev pub costas_count : ℕ
costas_count = 3

pub record CostasArray : Type 0 where
  pub first : List ℕ
  pub second : List ℕ
  pub third : List ℕ

unfoldable pub for_type : CostasType → CostasArray
for_type original = record {
  first = 4 ∷ 2 ∷ 5 ∷ 6 ∷ 1 ∷ 3 ∷ 0 ∷ [];
  second = 4 ∷ 2 ∷ 5 ∷ 6 ∷ 1 ∷ 3 ∷ 0 ∷ [];
  third = 4 ∷ 2 ∷ 5 ∷ 6 ∷ 1 ∷ 3 ∷ 0 ∷ [];
}
for_type modified = record {
  first = 0 ∷ 6 ∷ 2 ∷ 3 ∷ 5 ∷ 4 ∷ 1 ∷ [];
  second = 1 ∷ 5 ∷ 0 ∷ 2 ∷ 3 ∷ 6 ∷ 4 ∷ [];
  third = 2 ∷ 5 ∷ 0 ∷ 6 ∷ 4 ∷ 1 ∷ 3 ∷ [];
}

-- `copy_from_slice` from `base` on.
unfoldable pub copy_at : List ℕ → ℕ → List ℕ → List ℕ
copy_at tones base [] = tones
copy_at tones base (tone ∷ pattern) = copy_at (set tones base tone) (base + 1) pattern

-- The loop over the patterns, the `k`-th next.
unfoldable pub patterns_loop : List (List ℕ) → ℕ → List ℕ → List ℕ
patterns_loop [] k tones = tones
patterns_loop (pattern ∷ patterns) k tones =
    patterns_loop patterns (k + 1) (copy_at tones (k * 36) (take costas_len pattern))

-- The loop over the symbols: a parity tone and a data tone in each round.
unfoldable pub symbols_loop : ℕ → ℕ → ℕ → List ℕ → List ℕ
symbols_loop bits zero symbol tones = tones
symbols_loop bits (suc rounds) symbol tones =
    let with_parity = set tones (7 + symbol) (parity_tone bits symbol) in
    symbols_loop bits rounds (symbol + 1) (set with_parity (43 + symbol) (data_tone bits symbol))

-- The writes to the tones, which are all 0 before.
unfoldable pub lay_tones : CostasArray → ℕ → List ℕ
unfolding copy_at patterns_loop symbols_loop
lay_tones costas bits =
    let patterns = take costas_count (costas.first ∷ costas.second ∷ costas.third ∷ []) in
    symbols_loop bits 29 0 (patterns_loop patterns 0 (replicate 79 0))

unfoldable pub encode_with_costas : ℕ → CostasArray → List ℕ → Result EncodeError (List ℕ)
encode_with_costas typ costas message =
    if not (length message == 12)
    then err (invalid_message_length (length message))
    else and_then (message_bytes message)
        (λ packed. ok (lay_tones costas (message_bits (frame_bytes typ packed))))

unfoldable pub encode : ℕ → Submode → List ℕ → Result EncodeError (List ℕ)
encode typ submode message = encode_with_costas typ (for_type (submode_data submode).costas) message
