-- ===== src/Varicode/Jsc.antt =====
-- src/varicode/jsc.rs: dense coding of text by a table of words. A text is the list of its code
-- points; the tables are those of src/varicode/jsc_tables.rs, here by what their readers return.
pub mod Tables
pub mod Lookup
pub mod Codewords
pub mod Parsing
pub mod Frames
pub mod Compression
pub mod Packing
pub mod Termination
use js8rs.Prelude.{
  ℕ, zero, suc, ◌+◌, ◌-◌, ◌*◌, ◌/◌, ◌%◌, ◌^◌, Bool, true, false, not, ◌&&◌, Option, none, some,
  List, [], ◌∷◌, ◌++◌, length, drop, map, ltb, leb, ◌==◌, if◌then◌else◌, bit_or, u8, u32, u64,
  ◌<<<◌, ◌>>>◌,
}
use js8rs.Command.Kind.{is_empty}
use js8rs.Varicode.Bits.{bit_value, bits_to_int}

-- A word of the map: its text without the zeros at its end, and its size field.
pub record Entry : Type 0 where
  pub text : List ℕ
  pub size : ℕ

-- `map_table()` by its count and `get`, and `lookup_bytes`.
pub record Dictionary : Type 0 where
  pub count : ℕ
  pub entry : ℕ → Option Entry
  pub lookup : List ℕ → Option ℕ

abbrev pub frame_bits : ℕ
frame_bits = 72

-- `u128`
abbrev pub u128 : ℕ → ℕ
u128 n = n % 2 ^ 128

-- `while x > 0`. Each round makes `x` smaller, so `x` itself bounds the rounds.
unfoldable pub code_loop : ℕ → ℕ → ℕ → ℕ → ℕ × ℕ
code_loop zero x word len = (word, len)
code_loop (suc rounds) x word len =
    let more =
      code_loop rounds ((x - 1) / 9) (bit_or word (u64 (((x - 1) % 9 + 7) <<< len))) (len + 4) in
    if ltb 0 x then more else (word, len)

unfoldable pub codeword : ℕ → Bool → ℕ × ℕ
unfolding code_loop
codeword index separate = code_loop (index / 7) (index / 7) ((index % 7) * 2 + bit_value separate) 5

-- The frame so far: its bits, how many, and the characters that they stand for.
pub record Frame : Type 0 where
  pub bits : ℕ
  pub bit_len : ℕ
  pub consumed : ℕ

-- How a loop over characters ends.
pub data Progress : Type 0 where
  full next : Frame → Progress
  out_of_rounds : Progress

unfoldable pub add_code : Frame → ℕ × ℕ → ℕ → Frame
add_code frame (code, code_len) size = record {
  bits = bit_or (u128 (frame.bits <<< code_len)) code;
  bit_len = frame.bit_len + code_len;
  consumed = frame.consumed + size;
}

-- `text.split(' ')`, the current word in front.
unfoldable pub split_spaces : List ℕ → List (List ℕ)
split_spaces [] = [] ∷ []
split_spaces (c ∷ cs) =
    let parts = split_spaces cs in
    if c == b' ' then [] ∷ parts else elim parts [ [] ↦ (c ∷ []) ∷ [] | p ∷ ps ↦ (c ∷ p) ∷ ps ]

-- `ch as u32 as u8`
unfoldable pub latin1_bytes : List ℕ → List ℕ
latin1_bytes s = map u8 s

unfoldable pub finish_frame : Frame → ℕ × ℕ × ℕ
finish_frame frame =
    let pad = frame_bits - frame.bit_len in
    let bits =
      if pad == 0 then frame.bits else bit_or (u128 (frame.bits <<< pad)) (2 ^ (pad - 1) - 1) in
    (u64 (bits >>> 8), u8 bits, frame.consumed)

-- The bits of the prefix.
unfoldable pub prefix_bits : ℕ → List Bool → ℕ
prefix_bits bits [] = bits
prefix_bits bits (bit ∷ prefix) = prefix_bits (bit_or (u128 (bits <<< 1)) (bit_value bit)) prefix

abbrev pub finished : Progress → Option (ℕ × ℕ × ℕ)
finished (full frame) = some (finish_frame frame)
finished (next frame) = some (finish_frame frame)
finished out_of_rounds = none

module _ (dictionary : Dictionary) where
  -- The loop over one word, by what is left of it.
  unfoldable pub word_loop : ℕ → Bool → Bool → List ℕ → Frame → Progress
  word_loop zero is_space is_last_word word frame = out_of_rounds
  word_loop (suc rounds) is_space is_last_word [] frame = next frame
  word_loop (suc rounds) is_space is_last_word (c ∷ cs) frame =
      let word = c ∷ cs in
      elim (dictionary.lookup word) [
        | none ↦ next frame
        | some index ↦ elim (dictionary.entry index) [
          | none ↦ next frame
          | some entry ↦
              let size = entry.size in
              let separate = (size == length word) && (not is_space && not is_last_word) in
              let code = codeword index separate in
              let more =
                word_loop rounds is_space is_last_word (drop size word)
                  (add_code frame code (size + bit_value separate)) in
              if ltb (length word) size
              then next frame
              else if leb frame_bits (frame.bit_len + code.1)
              then full frame
              else more
        ]
      ]

  -- The loop over the words. Each code takes a bit at least, so a frame bounds the rounds.
  unfoldable pub words_loop : List (List ℕ) → Frame → Progress
  words_loop [] frame = next frame
  words_loop (raw ∷ rest) frame =
      let is_last_word = is_empty rest in
      let is_space = is_empty raw && not is_last_word in
      let word = if is_space then b' ' ∷ [] else latin1_bytes raw in
      elim (word_loop (suc frame_bits) is_space is_last_word word frame) [
        | full frame' ↦ full frame'
        | next frame' ↦ words_loop rest frame'
        | out_of_rounds ↦ out_of_rounds
      ]

  -- From the bits of the prefix, which are 72 at most, since more make the subtraction in
  -- `finish_frame` panic; `none` would say that the bound on the rounds is too small.
  unfoldable pub compress_frame : List ℕ → List Bool → Option (ℕ × ℕ × ℕ)
  compress_frame text prefix = finished (
      words_loop (split_spaces text)
        (record { bits = prefix_bits 0 prefix; bit_len = length prefix; consumed = 0 }))

-- The half bytes of a bit string, and the places of those that a set bit follows.
unfoldable pub parse_loop : ℕ → List Bool → List ℕ × List ℕ
parse_loop n (b0 ∷ b1 ∷ b2 ∷ b3 ∷ []) = (bits_to_int (b0 ∷ b1 ∷ b2 ∷ b3 ∷ []) ∷ [], [])
parse_loop n (b0 ∷ b1 ∷ b2 ∷ b3 ∷ b4 ∷ rest) =
    let byte = bits_to_int (b0 ∷ b1 ∷ b2 ∷ b3 ∷ []) in
    let behind = parse_loop (n + 1) rest in
    let digits = parse_loop (n + 1) (b4 ∷ rest) in
    if ltb byte 7
    then (byte ∷ behind.0, if b4 then n ∷ behind.1 else behind.1)
    else (byte ∷ digits.0, digits.1)
parse_loop n rest = ([], [])

-- `base[k]`, the first index with `k` digits in front.
unfoldable pub base : ℕ → ℕ
base zero = 0
base (suc k) = let first = base k in if leb 7 k then 0 else first + 7 * 9 ^ k

module _ (dictionary : Dictionary) where
  -- The outer loop, with the `k` digits of the current word that were read as `j`.
  unfoldable pub expand_loop : ℕ → ℕ → ℕ → List ℕ → List ℕ → List ℕ
  expand_loop pos k j separators [] = []
  expand_loop pos k j separators (byte ∷ bytes) =
      let digit = expand_loop (pos + 1) (k + 1) (u64 (j * 9 + (byte - 7))) separators bytes in
      let word = expand_loop (pos + 1) 0 0 separators bytes in
      let index = u64 (j * 7 + byte + base k) in
      let out : List ℕ = elim (dictionary.entry (u32 index)) [
        | none ↦ []
        | some entry ↦ entry.text ++ elim separators [
          | [] ↦ word
          | sep_at ∷ rest ↦
              let after = expand_loop (pos + 1) 0 0 rest bytes in
              if sep_at == pos then b' ' ∷ after else word
        ]
      ] in
      if leb 7 byte
      then digit
      else if leb dictionary.count j
      then []
      else if leb dictionary.count index
      then []
      else out

  unfoldable pub decompress : List Bool → List ℕ
  decompress bitvec =
      let (bytes, separators) = parse_loop 0 bitvec in expand_loop 0 0 0 separators bytes
