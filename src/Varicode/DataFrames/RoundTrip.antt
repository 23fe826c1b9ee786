-- ===== src/Varicode/DataFrames/RoundTrip.antt =====
-- Data frames unpacked again.
use js8rs.Prelude.{
  ℕ, ◌^◌, ◌<◌, ◌≤◌, ◌≡◌, ap, ◌∙◌, true, false, none, some, List, [], ◌∷◌, length, take,
  take-append_self, replicate, ltb, inl, inr, arith, ◌⊎◌,
}
use js8rs.Varicode.Compound.{not_a_frame}
use js8rs.Varicode.Pack72.{pack72bits}
use js8rs.Varicode.Pack72.RoundTrip.{unpack72bits-pack72bits, pack72bits_shape}
use js8rs.Varicode.Bits.{bits72, last_index_of_zero}
use js8rs.Varicode.Bits.Laws.{last_index_of_zero-padded}
use js8rs.Varicode.Jsc.{Dictionary, latin1_bytes, split_spaces, decompress}
use js8rs.Varicode.Jsc.Parsing.{Token, tokens_bits, tokens_text, InRange, decompress-tokens_bits}
use js8rs.Varicode.Jsc.Frames.{IsTable, Present}
use js8rs.Varicode.Jsc.Compression.{CoversWords}
use js8rs.Varicode.Jsc.Packing.{compress_frame-Packs}
use js8rs.Varicode.DataFrames.{
  pack_compressed_message, pack_fast_data_message, unpack_fast_data_message,
}

module _ (dictionary : Dictionary) where
  Present-InRange :
      (ts : List Token) → IsTable dictionary → Present dictionary ts → InRange dictionary ts
  Present-InRange [] table h = tt
  Present-InRange ((index, separate) ∷ ts) table ((entry, e), h) =
      (table.1 index entry e, Present-InRange ts table h)

  pub decompress-tokens :
      (ts : List Token)
      → IsTable dictionary
      → Present dictionary ts
      → decompress dictionary (tokens_bits ts) ≡ tokens_text dictionary ts
  decompress-tokens ts table h =
      decompress-tokens_bits dictionary ts table.0 (Present-InRange ts table h)

  -- The text of a frame of twelve characters goes by its 72 bits.
  unpack_fast-bits :
      (value rem : ℕ)
      → value < 2 ^ 64
      → rem < 256
      → unpack_fast_data_message dictionary (pack72bits value rem)
        ≡ some (elim (last_index_of_zero (bits72 value rem)) [
          | none ↦ []
          | some n ↦ decompress dictionary (take n (bits72 value rem))
        ])
  unfolding unpack_fast_data_message not_a_frame
  unpack_fast-bits value rem hv hr =
      let (size, no_space) = pack72bits_shape value rem hr in
      let whole : ltb (length (pack72bits value rem)) 12 ≡ false = ground arith in
      rw (whole, no_space, unpack72bits-pack72bits value rem hv hr)

  -- With a table of at most 2 ^ 18 entries, none beyond its count, in which the lookup from every
  -- place of every word of a text, and of a space, finds an entry of which the text is the next
  -- characters and the size their number, the text is packed into a frame that unpacks to its first
  -- characters, in Latin-1, as many as are reported as consumed; and either that is the whole text,
  -- or codewords that stand for these characters take 47 bits at least.
  pub unpack_fast-pack_fast :
      (text : List ℕ)
      → IsTable dictionary
      → CoversWords dictionary (split_spaces text)
      → (frame : List ℕ) × ((consumed : ℕ) × (pack_fast_data_message dictionary text
            ≡ some (frame, consumed))
          × (unpack_fast_data_message dictionary frame ≡ some (take consumed (latin1_bytes text)))
          × (consumed ≤ length text)
          × ((consumed ≡ length text)
              ⊎ ((ts : List Token) × (tokens_text dictionary ts ≡ take consumed (latin1_bytes text))
                  × (47 ≤ length (tokens_bits ts)))))
  unfolding pack_fast_data_message pack_compressed_message
  unpack_fast-pack_fast text table covers =
      let ((value, rem, consumed), e, (hv, hr, within, (ts, (n, there, bits, done, full)))) =
        compress_frame-Packs dictionary text [] table (omega arith) covers in
      let found : last_index_of_zero (bits72 value rem) ≡ some (length (tokens_bits ts)) =
        ap last_index_of_zero bits ∙ last_index_of_zero-padded (tokens_bits ts) n in
      (
        pack72bits value rem,
        (
          consumed,
          rw e,
          unpack_fast-bits value rem hv hr
              ∙ rw (found, bits, take-append_self (tokens_bits ts) (false ∷ replicate n true))
                  (ap some (decompress-tokens ts table there ∙ done)),
          within,
          elim full [
            | inl whole ↦ inl whole
            | inr no_room ↦ inr (ts, done, omega (arith, no_room))
          ],
        ),
      )
