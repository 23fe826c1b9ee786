-- ===== src/Examples/Encoding.antt =====
-- The reference tones of the encoder's test.
use js8rs.Prelude.{
  ℕ, ◌+◌, ◌*◌, ◌%◌, ◌^◌, ◌<◌, ◌≡◌, refl, true, some, List, [], ◌∷◌, ◌++◌, length, take, drop, All,
  codes, ◌==◌, if◌then◌else◌, ok, arith,
}
use js8rs.Protocol.{fast}
use js8rs.Submodes.{submode_data, data_new}
use js8rs.Varicode.Alphabet.{index_loop}
use js8rs.Decoder.{extract_message_174, decoded_flags}
use js8rs.Decoder.Spelling.{tone_bits}
use js8rs.Decoder.RoundTrip.{extract_message_174-encode}
use js8rs.Encoder.{
  invalid_character, invalid_message_length, alphabet_words, alphabet_word, message_bytes,
  group_bytes, frame_bytes, be_value, message_bits, count_ones, parity_bit, parity_tone, data_tone,
  for_type, lay_tones, copy_at, patterns_loop, symbols_loop, encode_with_costas, encode,
}
use js8rs.Encoder.Crc12.{
  crc12, augmented_crc12, augmented_loop, crc12_table, table_from, crc_modulo_word_update,
  divide_loop, divide_bit, reflect_optionally, reflect_loop,
}
use js8rs.Encoder.Parity.{parity_matrix, parity_data, digit_loop, mask_loop, hex_nibble}
use js8rs.Encoder.Tones.{error_of, first_invalid, error-encode}
use js8rs.Encoder.Places.{tones_from}
use js8rs.Encoder.Layout.{is_costas, parities, encode-layout}
use js8rs.Encoder.Payload.{octal, sextets, encode-payload}
use js8rs.Encoder.Injective.{encode-inj}
use mathlib.Core.Option

abbrev hello_world : List ℕ
hello_world = codes "HELLO-WORLD+"

abbrev reference_tones : List ℕ
reference_tones =
    0 ∷ 6 ∷ 2 ∷ 3 ∷ 5 ∷ 4 ∷ 1 ∷ 1 ∷ 0 ∷ 2 ∷ 1 ∷ 4 ∷ 2 ∷ 2 ∷ 0 ∷ 0 ∷ 5 ∷ 5 ∷ 5 ∷ 2 ∷ 0 ∷ 7 ∷ 5 ∷ 0
    ∷ 3 ∷ 1 ∷ 0 ∷ 4 ∷ 3 ∷ 1 ∷ 3 ∷ 3 ∷ 1 ∷ 5 ∷ 5 ∷ 0 ∷ 1 ∷ 5 ∷ 0 ∷ 2 ∷ 3 ∷ 6 ∷ 4 ∷ 2 ∷ 1 ∷ 1 ∷ 6 ∷ 2
    ∷ 5 ∷ 2 ∷ 5 ∷ 3 ∷ 0 ∷ 7 ∷ 6 ∷ 4 ∷ 0 ∷ 3 ∷ 0 ∷ 3 ∷ 3 ∷ 2 ∷ 5 ∷ 1 ∷ 5 ∷ 7 ∷ 7 ∷ 3 ∷ 3 ∷ 4 ∷ 4 ∷ 2
    ∷ 2 ∷ 5 ∷ 0 ∷ 6 ∷ 4 ∷ 1 ∷ 3 ∷ []

hello_world-tones : encode 3 fast hello_world ≡ ok reference_tones
unfolding encode encode_with_costas message_bytes group_bytes frame_bytes be_value message_bits
    count_ones parity_bit parity_tone data_tone for_type lay_tones copy_at patterns_loop
    symbols_loop alphabet_words alphabet_word submode_data data_new index_loop crc12 augmented_crc12
    augmented_loop crc12_table table_from crc_modulo_word_update divide_loop divide_bit
    reflect_optionally reflect_loop parity_matrix parity_data digit_loop mask_loop hex_nibble
hello_world-tones = refl

hello_world-bytes : All (λ c. c < 256) hello_world
hello_world-bytes = ground arith

error-encode_example : error_of (encode 3 fast (codes "HELLO WORLD+")) ≡ (
    if length (codes "HELLO WORLD+") == 12
    then Option.map invalid_character (first_invalid (codes "HELLO WORLD+"))
    else some (invalid_message_length (length (codes "HELLO WORLD+"))))
error-encode_example = error-encode 3 fast (codes "HELLO WORLD+") spaced-bytes
  where
    spaced-bytes : All (λ c. c < 256) (codes "HELLO WORLD+")
    spaced-bytes = ground arith

encode-layout_example :
    let c = for_type (submode_data fast).costas in
    (length reference_tones ≡ 79)
    × All (λ tone. tone < 8) reference_tones
    × (take 7 reference_tones ≡ c.first)
    × (take 7 (drop 36 reference_tones) ≡ c.second)
    × (drop 72 reference_tones ≡ c.third)
    × (is_costas c.first ≡ true)
    × (is_costas c.second ≡ true)
    × (is_costas c.third ≡ true)
    × (take 29 (drop 7 reference_tones)
        ≡ tones_from (parities (octal 0 (take 29 (drop 43 reference_tones)) * 2 ^ 41)) 29 0)
encode-layout_example =
    encode-layout 3 fast hello_world reference_tones hello_world-bytes hello_world-tones

encode-payload_example :
    (packed : List ℕ) × (message_bytes hello_world ≡ ok packed)
    × (octal 0 (take 29 (drop 43 reference_tones))
        ≡ (sextets 0 hello_world * 8 + 3 % 8) * 2 ^ 12 + crc12 (packed ++ (3 % 8 * 32 ∷ 0 ∷ [])))
encode-payload_example =
    encode-payload 3 fast hello_world reference_tones hello_world-bytes hello_world-tones

extract_message_174-encode_example :
    (extract_message_174 (tone_bits (take 29 (drop 43 reference_tones))) ≡ some hello_world)
    × (decoded_flags (tone_bits (take 29 (drop 43 reference_tones))) ≡ 3 % 8)
extract_message_174-encode_example =
    extract_message_174-encode 3 fast hello_world reference_tones hello_world-bytes
      hello_world-tones

encode-inj_example : (hello_world ≡ hello_world) × (3 % 8 ≡ 3 % 8)
encode-inj_example =
    encode-inj 3 3 fast fast hello_world hello_world reference_tones hello_world-bytes
      hello_world-bytes hello_world-tones hello_world-tones
