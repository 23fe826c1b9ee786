-- ===== src/Varicode/DataFrames.antt =====
-- src/varicode/mod.rs: data frames, which carry text that is compressed by the table of words or
-- by the Huffman code. A table of words is a parameter, and so is the order of the Huffman entries.
pub mod RoundTrip
pub mod Legacy
use js8rs.Prelude.{
  ℕ, zero, suc, ◌+◌, ◌-◌, Bool, true, false, ◌&&◌, ◌||◌, not, Option, none, some, List, [], ◌∷◌,
  length, take, ltb, if◌then◌else◌,
}
use js8rs.Varicode.Compound.{not_a_frame}
use js8rs.Varicode.Pack72.{pack72bits, unpack72bits}
use js8rs.Varicode.Bits.{bits72, last_index_of_zero}
use js8rs.Varicode.Jsc.{Dictionary, compress_frame, decompress}
use js8rs.Varicode.Huffman.{Table, huff_decode, pack_huff_message}
use mathlib.Core.Option

module _ (dictionary : Dictionary) where
  -- The frame, and the number of characters that goes to `n_out`.
  unfoldable pub pack_compressed_message : List ℕ → List Bool → Option (List ℕ × ℕ)
  pack_compressed_message input prefix =
      Option.map (λ r. (pack72bits r.0 r.1, r.2)) (compress_frame dictionary input prefix)

  unfoldable pub pack_fast_data_message : List ℕ → Option (List ℕ × ℕ)
  unfolding pack_compressed_message
  pack_fast_data_message input = pack_compressed_message input []

  unfoldable pub pack_data_message : List ℕ → Option (List ℕ × ℕ)
  unfolding pack_compressed_message
  pack_data_message input = elim (pack_compressed_message input (true ∷ true ∷ [])) [
    | none ↦ none
    | some compressed ↦
        let huff = pack_huff_message input (true ∷ false ∷ []) in
        some (if ltb compressed.1 huff.1 then huff else compressed)
  ]

  -- `none` is the panic of `unpack72bits`.
  unfoldable pub unpack_fast_data_message : List ℕ → Option (List ℕ)
  unpack_fast_data_message text = if not_a_frame text then some [] else elim (unpack72bits text) [
    | none ↦ none
    | some words ↦
        let bits = bits72 words.0 words.1 in
        some (elim (last_index_of_zero bits) [
          | none ↦ []
          | some n ↦ decompress dictionary (take n bits)
        ])
  ]

  -- The bits behind the flag of data.
  unfoldable pub unpack_data_bits : Table → List Bool → List ℕ
  unpack_data_bits entries [] = []
  unpack_data_bits entries (compressed ∷ bits) = elim (last_index_of_zero (compressed ∷ bits)) [
    | none ↦ []
    | some n ↦
        if ltb n 2
        then []
        else let text = take (n - 1) bits in
          if compressed then decompress dictionary text else huff_decode entries text
  ]

  unfoldable pub unpack_data_message : Table → List ℕ → Option (List ℕ)
  unfolding unpack_data_bits
  unpack_data_message entries text =
      if not_a_frame text then some [] else elim (unpack72bits text) [
        | none ↦ none
        | some words ↦ some (elim (bits72 words.0 words.1) [
          | [] ↦ []
          | is_data ∷ bits ↦ if is_data then unpack_data_bits entries bits else []
        ])
      ]
