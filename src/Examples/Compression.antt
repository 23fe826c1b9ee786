-- ===== src/Examples/Compression.antt =====
-- Concrete runs of the compression of text.
use js8rs.Prelude.{
  ℕ, zero, suc, ◌+◌, ◌<◌, ◌≤◌, ◌≡◌, refl, Bool, true, false, ◌&&◌, Option, none, some, List, [],
  ◌∷◌, length, take, map, All, ◌==◌, if◌then◌else◌, codes, is_ascii, arith, ◌⊎◌, to_ascii_uppercase,
}
use js8rs.Command.Kind.{contains_byte, is_empty}
use js8rs.Varicode.Alphabet.{alphabet72_at, alphabet72_index}
use js8rs.Varicode.Compound.{not_a_frame}
use js8rs.Varicode.Pack72.{
  pack72bits, unpack72bits, pack_loop, encoded_words, or_words, unpack_words,
}
use js8rs.Varicode.Bits.{bits72, test_bits, last_index_of_zero, bits_to_int, int_loop}
use js8rs.Varicode.Jsc.{
  words_loop, word_loop, finish_frame, prefix_bits, add_code, codeword, code_loop, decompress,
  parse_loop, expand_loop, base,
}
use js8rs.Varicode.DataFrames.{pack_compressed_message}
use mathlib.Core.Option
use js8rs.Varicode.Jsc.{Entry, Dictionary, latin1_bytes, split_spaces, compress_frame}
use js8rs.Varicode.Jsc.Frames.{IsTable}
use js8rs.Varicode.Jsc.Compression.{CoversWords}
use js8rs.Varicode.Jsc.Parsing.{Token, tokens_bits, tokens_text}
use js8rs.Varicode.Jsc.Termination.{compress_frame-total}
use js8rs.Varicode.Huffman.{hufftable, get_code, huff_decode, pack_huff_message}
use js8rs.Varicode.Huffman.Laws.{IsHufftable}
use js8rs.Varicode.Huffman.RoundTrip.{huff_bits, huff_decode-huff_bits}
use js8rs.Varicode.DataFrames.{
  pack_fast_data_message, unpack_fast_data_message, pack_data_message, unpack_data_message,
}
use js8rs.Varicode.DataFrames.RoundTrip.{unpack_fast-pack_fast}
use js8rs.Varicode.DataFrames.Legacy.{unpack_data-pack_data}

unfoldable starts : List ℕ → List ℕ → Bool
starts [] text = true
starts (x ∷ xs) [] = false
starts (x ∷ xs) (y ∷ ys) = (x == y) && starts xs ys

-- The first word that starts the text.
unfoldable first_word : List (List ℕ) → ℕ → List ℕ → Option ℕ
first_word [] i text = none
first_word (w ∷ ws) i text = if starts w text then some i else first_word ws (i + 1) text

abbrev five_words : List (List ℕ)
five_words = codes "CQ" ∷ codes " " ∷ codes "DE" ∷ codes "Q" ∷ codes "E" ∷ []

unfoldable word_entry : List (List ℕ) → ℕ → Option Entry
word_entry [] i = none
word_entry (w ∷ ws) zero = some (record { text = w; size = length w })
word_entry (w ∷ ws) (suc i) = word_entry ws i

unfoldable small : Dictionary
unfolding first_word word_entry
small = record { count = 5; entry = word_entry five_words; lookup = first_word five_words 0 }

word_entry-lt :
    (ws : List (List ℕ)) (i : ℕ) (entry : Entry) → word_entry ws i ≡ some entry → i < length ws
unfolding word_entry
word_entry-lt [] i entry h = ground arith
word_entry-lt (w ∷ ws) zero entry h = omega arith
word_entry-lt (w ∷ ws) (suc i) entry h = omega (arith, word_entry-lt ws i entry h)

small-IsTable : IsTable small
unfolding small
small-IsTable = (omega arith, word_entry-lt five_words)

small-CoversWords : CoversWords small (split_spaces (codes "CQ DE"))
unfolding small first_word word_entry starts split_spaces latin1_bytes
small-CoversWords = (
  ((1, (_, refl, refl, omega arith, refl)), tt),
  (
    ((0, (_, refl, refl, omega arith, refl)), ((3, (_, refl, refl, omega arith, refl)), tt)),
    (((2, (_, refl, refl, omega arith, refl)), ((4, (_, refl, refl, omega arith, refl)), tt)), tt),
  ),
)

compress_frame-total_example : (r : ℕ × ℕ × ℕ) × (compress_frame small (codes "CQ DE") [] ≡ some r)
compress_frame-total_example =
    compress_frame-total small (codes "CQ DE") [] small-IsTable (omega arith)

unpack_fast-pack_fast_example :
    (frame : List ℕ) × ((consumed : ℕ) × (pack_fast_data_message small (codes "CQ DE")
        ≡ some (frame, consumed))
      × (unpack_fast_data_message small frame ≡ some (take consumed (latin1_bytes (codes "CQ DE"))))
      × (consumed ≤ length (codes "CQ DE"))
      × ((consumed ≡ length (codes "CQ DE"))
          ⊎ ((ts : List Token) × (tokens_text small ts
                ≡ take consumed (latin1_bytes (codes "CQ DE")))
              × (47 ≤ length (tokens_bits ts)))))
unpack_fast-pack_fast_example =
    unpack_fast-pack_fast small (codes "CQ DE") small-IsTable small-CoversWords

hufftable-entries : All (λ e. get_code hufftable e.0 ≡ some e.1) hufftable
unfolding hufftable get_code
hufftable-entries = (
  refl,
  (
    refl,
    (
      refl,
      (
        refl,
        (
          refl,
          (
            refl,
            (
              refl,
              (
                refl,
                (
                  refl,
                  (
                    refl,
                    (
                      refl,
                      (
                        refl,
                        (
                          refl,
                          (
                            refl,
                            (
                              refl,
                              (
                                refl,
                                (
                                  refl,
                                  (
                                    refl,
                                    (
                                      refl,
                                      (
                                        refl,
                                        (
                                          refl,
                                          (
                                            refl,
                                            (
                                              refl,
                                              (
                                                refl,
                                                (
                                                  refl,
                                                  (
                                                    refl,
                                                    (
                                                      refl,
                                                      (
                                                        refl,
                                                        (
                                                          refl,
                                                          (
                                                            refl,
                                                            (
                                                            refl,
                                                            (
                                                            refl,
                                                            (
                                                            refl,
                                                            (
                                                            refl,
                                                            (
                                                            refl,
                                                            (
                                                            refl,
                                                            (
                                                            refl,
                                                            (
                                                            refl,
                                                            (
                                                            refl,
                                                            (
                                                            refl,
                                                            (refl, (refl, (refl, (refl, tt)))),
                                                            ),
                                                            ),
                                                            ),
                                                            ),
                                                            ),
                                                            ),
                                                            ),
                                                            ),
                                                            ),
                                                            ),
                                                          ),
                                                        ),
                                                      ),
                                                    ),
                                                  ),
                                                ),
                                              ),
                                            ),
                                          ),
                                        ),
                                      ),
                                    ),
                                  ),
                                ),
                              ),
                            ),
                          ),
                        ),
                      ),
                    ),
                  ),
                ),
              ),
            ),
          ),
        ),
      ),
    ),
  ),
)

hufftable-IsHufftable : IsHufftable hufftable
hufftable-IsHufftable = (hufftable-entries, λ ch. refl)

cq_codes :
    (get_code hufftable b'C' ≡ some (codes "110001"))
    × (get_code hufftable b'Q' ≡ some (codes "0010000"))
unfolding hufftable get_code
cq_codes = (refl, refl)

capitals : map to_ascii_uppercase (codes "CQ DE") ≡ latin1_bytes (codes "CQ DE")
unfolding latin1_bytes to_ascii_uppercase
capitals = refl

huff_decode-huff_bits_example : huff_decode hufftable (huff_bits (codes "CQ")) ≡ codes "CQ"
huff_decode-huff_bits_example =
    huff_decode-huff_bits hufftable (codes "CQ") hufftable-IsHufftable
      ((codes "110001", cq_codes.0), ((codes "0010000", cq_codes.1), tt))

unpack_data-pack_data_example :
    (packed : List ℕ × ℕ) × (pack_data_message small (codes "CQ DE") ≡ some packed)
    × (unpack_data_message small hufftable packed.0
        ≡ some (take packed.1 (latin1_bytes (codes "CQ DE"))))
    × (packed.1 ≤ length (latin1_bytes (codes "CQ DE")))
    × ((pack_huff_message (codes "CQ DE") (true ∷ false ∷ [])).1 ≤ packed.1)
unpack_data-pack_data_example =
    unpack_data-pack_data small hufftable (codes "CQ DE") small-IsTable hufftable-IsHufftable
      small-CoversWords capitals

-- A word that starts with a character that the table does not have is left out, but what comes
-- behind it is coded and counted: one character is reported as consumed, and it is not the first.
skipped_word :
    Option.map {B = Option (List ℕ) × ℕ}
      (λ r. (unpack_fast_data_message small r.0, r.1))
      (pack_fast_data_message small (codes "Z Q"))
    ≡ some (some (codes "Q"), 1)
unfolding small first_word word_entry starts pack_fast_data_message pack_compressed_message
    unpack_fast_data_message not_a_frame contains_byte compress_frame words_loop word_loop
    split_spaces latin1_bytes finish_frame prefix_bits add_code codeword code_loop pack72bits
    unpack72bits pack_loop encoded_words or_words unpack_words is_ascii bits72 test_bits
    last_index_of_zero alphabet72_at alphabet72_index decompress parse_loop expand_loop base
    bits_to_int int_loop is_empty
skipped_word = refl
