-- ===== src/Varicode/DataFrames/Legacy.antt =====
-- Data frames of 70 bits: the flag of data, the flag of compression, then words or Huffman codes.
use js8rs.Prelude.{
  ℕ, suc, ◌-◌, ◌*◌, ◌%◌, ◌^◌, ◌<◌, ◌≤◌, ◌≡◌, refl, sym, ap, ◌∙◌, subst, Bool, true, false, Option,
  none, some, List, [], ◌∷◌, ◌++◌, length, length-append, length-map, take, take-append_self, map,
  replicate, if◌then◌else◌, ltb, ◌==◌, u8, u64, ◌<<<◌, ◌>>>◌, bit_or, bit_or_fields,
  to_ascii_uppercase, inl, inr, Bool-cases, arith, ◌⊎◌,
}
use js8rs.Varicode.Compound.{not_a_frame}
use js8rs.Varicode.Pack72.{pack72bits}
use js8rs.Varicode.Pack72.RoundTrip.{unpack72bits-pack72bits, pack72bits_shape}
use js8rs.Varicode.Bits.{bits72, last_index_of_zero}
use js8rs.Varicode.Bits.Laws.{last_index_of_zero-padded, bits_of, bits_before}
use js8rs.Varicode.Jsc.{
  Dictionary, Frame, frame_bits, u128, prefix_bits, finish_frame, latin1_bytes, split_spaces,
  decompress, parse_loop, expand_loop,
}
use js8rs.Varicode.Jsc.Parsing.{tokens_bits}
use js8rs.Varicode.Jsc.Frames.{IsTable, finish_frame-bits72}
use js8rs.Varicode.Jsc.Compression.{CoversWords}
use js8rs.Varicode.Jsc.Packing.{compress_frame-Packs}
use js8rs.Varicode.Huffman.{Table, huff_decode, decode_loop, pad_frame, pack_huff_message}
use js8rs.Varicode.Huffman.Laws.{IsHufftable}
use js8rs.Varicode.Huffman.RoundTrip.{
  huff_bits, HuffCoded, HuffReached, huff_decode-huff_bits, huff_loop-HuffReached,
}
use js8rs.Varicode.DataFrames.{
  pack_compressed_message, pack_data_message, unpack_data_bits, unpack_data_message,
}
use js8rs.Varicode.DataFrames.RoundTrip.{decompress-tokens}

-- Both ways to pad a frame agree, where there is room for a bit.
pad_frame-finish_frame :
    (frame : Frame)
    → frame.bit_len < frame_bits
    → (u64 (pad_frame frame >>> 8), u8 (pad_frame frame), frame.consumed) ≡ finish_frame frame
unfolding pad_frame finish_frame
pad_frame-finish_frame frame short =
    let pad = frame_bits - frame.bit_len in
    let some_pad : (pad == 0) ≡ false = ground arith in
    elim (Bool-cases (ltb 1 pad)) [
      | inl wide ↦ rw (some_pad, wide)
      | inr narrow ↦
          let one : pad ≡ 1 = ground arith in
          let same : bit_or (u128 (frame.bits <<< 1)) (2 ^ (1 - 1) - 1) ≡ u128 (frame.bits <<< 1) =
            ap (λ t. bit_or t 0) {x = u128 (frame.bits <<< 1)} {y = u128 (frame.bits <<< 1) * 2 ^ 0}
              (omega arith)
            ∙ bit_or_fields 0 (u128 (frame.bits <<< 1)) 0 (omega arith)
            ∙ omega arith in
          rw one (rw same)
    ]

huff_start : HuffCoded (true ∷ false ∷ []) [] (record {
  bits = prefix_bits 0 (true ∷ false ∷ []);
  bit_len = length (true ∷ false ∷ []);
  consumed = 0;
})
unfolding prefix_bits huff_bits bits_of bits_before
huff_start = (omega arith, omega arith, refl, tt, refl)

module _ (dictionary : Dictionary) (entries : Table) where
  unpack_data-bits :
      (value rem : ℕ) (bits : List Bool)
      → value < 2 ^ 64
      → rem < 256
      → bits72 value rem ≡ true ∷ bits
      → unpack_data_message dictionary entries (pack72bits value rem)
        ≡ some (unpack_data_bits dictionary entries bits)
  unfolding unpack_data_message not_a_frame
  unpack_data-bits value rem bits hv hr e =
      let (size, no_space) = pack72bits_shape value rem hr in
      let whole : ltb (length (pack72bits value rem)) 12 ≡ false = ground arith in
      rw (whole, no_space, unpack72bits-pack72bits value rem hv hr, e)

  unpack_data_bits-long :
      (compressed bit : Bool) (bits rest : List Bool)
      → last_index_of_zero (compressed ∷ ((bit ∷ bits) ++ rest)) ≡ some (suc (suc (length bits)))
      → unpack_data_bits dictionary entries (compressed ∷ ((bit ∷ bits) ++ rest)) ≡ (
          if compressed
          then decompress dictionary (bit ∷ bits)
          else huff_decode entries (bit ∷ bits))
  unfolding unpack_data_bits
  unpack_data_bits-long compressed bit bits rest found =
      let long : ltb (suc (suc (length bits))) 2 ≡ false = ground arith in
      let shift : suc (suc (length bits)) - 1 ≡ suc (length bits) = omega arith in
      let text : take (suc (suc (length bits)) - 1) ((bit ∷ bits) ++ rest) ≡ bit ∷ bits =
        ap (λ n. take n ((bit ∷ bits) ++ rest)) shift ∙ take-append_self (bit ∷ bits) rest in
      rw (unpack_data_bits, found, long, text)

  unpack_data_bits-padded :
      (compressed : Bool) (bits : List Bool) (n : ℕ)
      → unpack_data_bits dictionary entries (compressed ∷ (bits ++ (false ∷ replicate n true)))
        ≡ (if compressed then decompress dictionary bits else huff_decode entries bits)
  unpack_data_bits-padded true [] n =
      unfold unpack_data_bits decompress parse_loop expand_loop in
      rw (unpack_data_bits, last_index_of_zero-padded (true ∷ []) n)
  unpack_data_bits-padded false [] n =
      unfold unpack_data_bits huff_decode decode_loop in
      rw (unpack_data_bits, last_index_of_zero-padded (false ∷ []) n)
  unpack_data_bits-padded compressed (bit ∷ bits) n =
      unpack_data_bits-long compressed bit bits (false ∷ replicate n true)
        (last_index_of_zero-padded (compressed ∷ bit ∷ bits) n)

  -- The result of either way to pack: a frame of this word and byte that unpacks to the first characters.
  abbrev Unpacks : List ℕ → List ℕ × ℕ → Type 0
  Unpacks text packed =
      (unpack_data_message dictionary entries packed.0 ≡ some (take packed.1 text))
      × (packed.1 ≤ length text)

  compressed-Unpacks :
      (text : List ℕ)
      → IsTable dictionary
      → CoversWords dictionary (split_spaces text)
      → (packed : List ℕ × ℕ) × (pack_compressed_message dictionary text (true ∷ true ∷ [])
          ≡ some packed)
        × Unpacks (latin1_bytes text) packed
  unfolding pack_compressed_message latin1_bytes
  compressed-Unpacks text table covers =
      let ((value, rem, consumed), e, (hv, hr, within, (ts, (n, there, bits, done, full)))) =
        compress_frame-Packs dictionary text (true ∷ true ∷ []) table (omega arith) covers in
      (
        (pack72bits value rem, consumed),
        rw e,
        (
          unpack_data-bits value rem _ hv hr bits
              ∙ ap some (
                  unpack_data_bits-padded true (tokens_bits ts) n
                  ∙ decompress-tokens dictionary ts table there
                  ∙ done),
          omega (arith, length-map text (λ c. c % 2 ^ 8)),
        ),
      )

  abbrev huff_packed : Option Frame → List ℕ × ℕ
  huff_packed result = elim result [
    | none ↦ ([], 0)
    | some frame ↦ (pack72bits (u64 (pad_frame frame >>> 8)) (u8 (pad_frame frame)), frame.consumed)
  ]

  huff_packed-Unpacks :
      (text : List ℕ) (result : Option Frame)
      → IsHufftable entries
      → HuffReached (true ∷ false ∷ []) [] text result
      → (huff_packed result ≡ ([], 0)) ⊎ Unpacks (map to_ascii_uppercase text) (huff_packed result)
  unfolding pad_frame
  huff_packed-Unpacks text none table h = inl refl
  huff_packed-Unpacks text (some frame) table
        (ahead, (behind, e, (fit, short, chars, coded, bits), tight)) =
      let (hv, hr, count, all) = finish_frame-bits72 frame fit short in
      let same = pad_frame-finish_frame frame short in
      let value = u64 (pad_frame frame >>> 8) in
      let rem = u8 (pad_frame frame) in
      let all' : bits72 value rem
          ≡ (true ∷ false ∷ huff_bits ahead) ++ (false ∷ replicate (71 - frame.bit_len) true) =
        ap (λ r. bits72 r.0 r.1) same
        ∙ all
        ∙ ap (λ t. t ++ (false ∷ replicate (71 - frame.bit_len) true)) bits in
      inr (
        rw chars (
            unpack_data-bits value rem _ (omega arith) (omega arith) all'
            ∙ ap some (
                unpack_data_bits-padded false (huff_bits ahead) (71 - frame.bit_len)
                ∙ huff_decode-huff_bits entries ahead table coded
                ∙ sym (take-append_self ahead behind)
                ∙ ap (λ t. take (length ahead) t) e)),
        omega (arith, chars, ap length e, length-append ahead behind),
      )

  huff-Unpacks :
      (text : List ℕ)
      → IsHufftable entries
      → (pack_huff_message text (true ∷ false ∷ []) ≡ ([], 0))
        ⊎ Unpacks (map to_ascii_uppercase text) (pack_huff_message text (true ∷ false ∷ []))
  unfolding pack_huff_message
  huff-Unpacks text table =
      huff_packed-Unpacks text _ table
        (huff_loop-HuffReached (true ∷ false ∷ []) text [] _ (huff_start))

  chosen :
      (text : List ℕ) (huff compressed : List ℕ × ℕ)
      → (huff ≡ ([], 0)) ⊎ Unpacks text huff
      → ltb compressed.1 huff.1 ≡ true
      → Unpacks text huff
  chosen text huff compressed (inl e) more = let nothing = ap (λ r. r.1) e in absurd (ground arith)
  chosen text huff compressed (inr h) more = h

  choose :
      (text : List ℕ) (huff compressed : List ℕ × ℕ)
      → (huff ≡ ([], 0)) ⊎ Unpacks text huff
      → Unpacks text compressed
      → let packed = if ltb compressed.1 huff.1 then huff else compressed in
        Unpacks text packed × (huff.1 ≤ packed.1) × (compressed.1 ≤ packed.1)
  choose text huff compressed h k = elim (Bool-cases (ltb compressed.1 huff.1)) [
    | inl more ↦ rw more (chosen text huff compressed h more, omega arith, ground arith)
    | inr less ↦ rw less (k, ground arith, omega arith)
  ]

  -- With a table of at most 2 ^ 18 entries, none beyond its count, in which the lookup from every
  -- place of every word of a text, and of a space, finds an entry of which the text is the next
  -- characters and the size their number, and with the Huffman entries in any order, a text of
  -- characters below 256 with no lower case of ASCII is packed into a frame of the older kind that
  -- unpacks to its first characters, as many as are reported as consumed, which are not fewer than
  -- the Huffman code alone would take.
  pub unpack_data-pack_data :
      (text : List ℕ)
      → IsTable dictionary
      → IsHufftable entries
      → CoversWords dictionary (split_spaces text)
      → map to_ascii_uppercase text ≡ latin1_bytes text
      → (packed : List ℕ × ℕ) × (pack_data_message dictionary text ≡ some packed)
        × (unpack_data_message dictionary entries packed.0
            ≡ some (take packed.1 (latin1_bytes text)))
        × (packed.1 ≤ length (latin1_bytes text))
        × ((pack_huff_message text (true ∷ false ∷ [])).1 ≤ packed.1)
  unfolding pack_data_message
  unpack_data-pack_data text table order covers capital =
      let (compressed, e, k) = compressed-Unpacks text table covers in
      let huff = pack_huff_message text (true ∷ false ∷ []) in
      let h : (huff ≡ ([], 0)) ⊎ Unpacks (latin1_bytes text) huff =
        subst (λ t. (huff ≡ ([], 0)) ⊎ Unpacks t huff) capital (huff-Unpacks text order) in
      let ((back, within), most, least) = choose (latin1_bytes text) huff compressed h k in
      (
        (if ltb compressed.1 huff.1 then huff else compressed),
        rw (pack_data_message, e),
        back,
        within,
        most,
      )
