-- ===== src/Varicode/Pack72/RoundTrip.antt =====
-- `unpack72bits` after `pack72bits`.
use js8rs.Prelude.{
  ℕ, zero, suc, ◌+◌, ◌*◌, ◌/◌, ◌%◌, ◌^◌, ◌<◌, ◌≡◌, refl, ap, arith, true, false, some, List, [],
  ◌∷◌, length, bit_and, bit_or, bit_or_fields, bit_and_mask, u8, u64, ◌<<<◌, ◌>>>◌, is_ascii, map,
  All, not, ◌==◌, all_below, all_below_sound,
}
use native.Mathlib.Numerals.{towards_suc}
use native.Mathlib.Nat.{one-le-pow, mod-eq_of_lt}
use js8rs.Command.Kind.{contains_byte}
use js8rs.Varicode.Alphabet.{alphabet72_at, alphabet72_index, alphabet72_index-alphabet72_at}
use js8rs.Varicode.Pack72.{
  pack_loop, pack72bits, encoded_words, or_words, unpack_words, unpack72bits,
}

-- The six-bit digits of a value, the lowest last.
words_loop : ℕ → ℕ → List ℕ → List ℕ
words_loop zero v ws = ws
words_loop (suc n) v ws = words_loop n (v / 64) (v % 64 ∷ ws)

words72 : ℕ → ℕ → List ℕ
unfolding words_loop
words72 v r = words_loop 10 (v / 16) ((v % 16 * 4 + r / 64) ∷ r % 64 ∷ [])

low_six : (x : ℕ) → bit_and (u8 x) 0x3f ≡ x % 64
low_six x = omega (arith, bit_and_mask 6 (u8 x))

high_word :
    (v r : ℕ) → r < 256 → bit_or (u8 (bit_and (u8 v) 0x0f <<< 2)) (r >>> 6) ≡ v % 16 * 4 + r / 64
high_word v r h = ground (arith, bit_and_mask 4 (u8 v), bit_or_fields 2 (v % 16) (r / 64))

pack_loop-words_loop :
    (n v : ℕ) (ws : List ℕ)
    → pack_loop n v (map alphabet72_at ws) ≡ map alphabet72_at (words_loop n v ws)
unfolding pack_loop words_loop
pack_loop-words_loop zero v ws = refl
pack_loop-words_loop (suc n) v ws = rw (low_six v) (pack_loop-words_loop n (v / 64) (v % 64 ∷ ws))

pack72bits-words72 : (v r : ℕ) → r < 256 → pack72bits v r ≡ map alphabet72_at (words72 v r)
pack72bits-words72 v r h =
    unfold pack72bits words72 in
    rw (bit_and_mask 6 r, high_word v r h)
      (pack_loop-words_loop 10 (v / 16) ((v % 16 * 4 + r / 64) ∷ r % 64 ∷ []))

-- The characters of six-bit words are ASCII, and the index reads the words back.
map-index :
    (ws : List ℕ)
    → All (λ w. w < 64) ws
    → (is_ascii (map alphabet72_at ws) ≡ true) × (map alphabet72_index (map alphabet72_at ws) ≡ ws)
unfolding is_ascii
map-index [] h = (refl, refl)
map-index (w ∷ ws) (hw, h) = ground (arith, alphabet72_index-alphabet72_at w hw, map-index ws h)

words_loop-fits :
    (n v : ℕ) (ws : List ℕ)
    → All (λ w. w < 64) ws
    → All (λ w. w < 64) (words_loop n v ws) × (length (words_loop n v ws) ≡ n + length ws)
unfolding words_loop
words_loop-fits zero v ws h = (h, omega arith)
words_loop-fits (suc n) v ws h =
    let (a, b) = words_loop-fits n (v / 64) (v % 64 ∷ ws) (omega arith, h) in (a, omega arith)

-- The twelve characters, read back as words.
encoded_words-words72 :
    (v r : ℕ) → r < 256 → encoded_words (map alphabet72_at (words72 v r)) ≡ some (words72 v r)
unfolding encoded_words words72 words_loop
encoded_words-words72 v r h =
    let fits = words_loop-fits 10 (v / 16) ((v % 16 * 4 + r / 64) ∷ r % 64 ∷ []) (omega arith) in
    let (ascii, index) = map-index (words72 v r) fits.0 in rw (ascii, index)

-- One more six-bit word below the words read so far.
horner :
    (k q w : ℕ)
    → w < 64
    → w * 2 ^ k < 2 ^ 64
    → bit_or (q * 2 ^ (k + 6)) (u64 (w <<< k)) ≡ (q * 64 + w) * 2 ^ k
horner k q w hw fits =
    let wide : 2 ^ (k + 6) ≡ 64 * 2 ^ k = simp towards_suc (omega arith) in
    let small : w * 2 ^ k < 64 * 2 ^ k = grind (arith, one-le-pow k 2) in
    rw (mod-eq_of_lt fits) (
      omega (
        arith,
        wide,
        bit_or_fields (k + 6) q (w * 2 ^ k) (omega arith),
        ap (λ (t : ℕ). q * t) wide,
      ))

module _ (w0 w1 w2 w3 w4 w5 w6 w7 w8 w9 : ℕ) where
  -- Ten words are read as the digits of a number in base 64, above the low four bits.
  or_words_ten :
      All (λ w. w < 64) (w0 ∷ w1 ∷ w2 ∷ w3 ∷ w4 ∷ w5 ∷ w6 ∷ w7 ∷ w8 ∷ w9 ∷ [])
      → or_words 0 0 (w0 ∷ w1 ∷ w2 ∷ w3 ∷ w4 ∷ w5 ∷ w6 ∷ w7 ∷ w8 ∷ w9 ∷ [])
        ≡ ((((((((((0 * 64 + w0) * 64 + w1) * 64 + w2) * 64 + w3) * 64 + w4) * 64 + w5) * 64 + w6)
                      * 64
                    + w7)
                  * 64
                + w8)
              * 64
            + w9)
          * 16
  unfolding or_words
  or_words_ten h =
      rw
        (
          horner 58 0 w0 (omega arith) (omega arith),
          horner 52 (0 * 64 + w0) w1 (omega arith) (omega arith),
          horner 46 ((0 * 64 + w0) * 64 + w1) w2 (omega arith) (omega arith),
          horner 40 (((0 * 64 + w0) * 64 + w1) * 64 + w2) w3 (omega arith) (omega arith),
          horner 34 ((((0 * 64 + w0) * 64 + w1) * 64 + w2) * 64 + w3) w4 (omega arith)
              (omega arith),
          horner 28 (((((0 * 64 + w0) * 64 + w1) * 64 + w2) * 64 + w3) * 64 + w4) w5 (omega arith)
              (omega arith),
          horner 22 ((((((0 * 64 + w0) * 64 + w1) * 64 + w2) * 64 + w3) * 64 + w4) * 64 + w5) w6
              (omega arith) (omega arith),
          horner 16
              (((((((0 * 64 + w0) * 64 + w1) * 64 + w2) * 64 + w3) * 64 + w4) * 64 + w5) * 64 + w6)
              w7 (omega arith) (omega arith),
          horner 10
              ((((((((0 * 64 + w0) * 64 + w1) * 64 + w2) * 64 + w3) * 64 + w4) * 64 + w5) * 64 + w6)
                  * 64
                + w7)
              w8 (omega arith) (omega arith),
          horner 4
              (((((((((0 * 64 + w0) * 64 + w1) * 64 + w2) * 64 + w3) * 64 + w4) * 64 + w5) * 64
                        + w6)
                      * 64
                    + w7)
                  * 64
                + w8)
              w9 (omega arith) (omega arith),
        )
        refl

low_byte : (n r : ℕ) → r < 256 → bit_or (u8 (bit_and (n * 4 + r / 64) 3 <<< 6)) (r % 64) ≡ r
low_byte n r h = ground (arith, bit_and_mask 2 (n * 4 + r / 64), bit_or_fields 6 (r / 64) (r % 64))

value_of_top :
    (v r top : ℕ) → r < 256 → top ≡ v / 16 → bit_or (top * 16) ((v % 16 * 4 + r / 64) >>> 2) ≡ v
value_of_top v r top h e =
    rw e (omega (arith, bit_or_fields 4 (v / 16) ((v % 16 * 4 + r / 64) / 4) (omega arith)))

pair_eq : {a b c d : ℕ} → a ≡ c → b ≡ d → ◌≡◌ {A = ℕ × ℕ} (a, b) (c, d)
pair_eq p q = cc

-- The words of a value and a remainder, put together again.
unpack_words-words72 : (v r : ℕ) → v < 2 ^ 64 → r < 256 → unpack_words (words72 v r) ≡ (v, r)
unfolding unpack_words words72 words_loop
unpack_words-words72 v r hv hr =
    let v0 = v / 16 in
    let v1 = v0 / 64 in
    let v2 = v1 / 64 in
    let v3 = v2 / 64 in
    let v4 = v3 / 64 in
    let v5 = v4 / 64 in
    let v6 = v5 / 64 in
    let v7 = v6 / 64 in
    let v8 = v7 / 64 in
    let v9 = v8 / 64 in
    let whole : (((((((((0 * 64 + v9 % 64) * 64 + v8 % 64) * 64 + v7 % 64) * 64 + v6 % 64) * 64
                              + v5 % 64)
                            * 64
                          + v4 % 64)
                        * 64
                      + v3 % 64)
                    * 64
                  + v2 % 64)
                * 64
              + v1 % 64)
            * 64
          + v0 % 64
        ≡ v / 16 =
      omega arith in
    rw
      (or_words_ten (v9 % 64) (v8 % 64) (v7 % 64) (v6 % 64) (v5 % 64) (v4 % 64) (v3 % 64) (v2 % 64)
        (v1 % 64) (v0 % 64) (omega arith))
      (pair_eq (value_of_top v r _ hr whole) (low_byte (v % 16) r hr))

-- A word of 64 bits and a byte survive the packing into twelve characters.
pub unpack72bits-pack72bits :
    (v r : ℕ) → v < 2 ^ 64 → r < 256 → unpack72bits (pack72bits v r) ≡ some (v, r)
unfolding unpack72bits
unpack72bits-pack72bits v r hv hr =
    rw (pack72bits-words72 v r hr, encoded_words-words72 v r hr)
      (ap some (unpack_words-words72 v r hv hr))

no_space : (w : ℕ) → w < 64 → (alphabet72_at w == b' ') ≡ false
unfolding all_below alphabet72_at
no_space w h =
    let e = all_below_sound 64 (λ w. not (alphabet72_at w == b' ')) w refl h in ground arith

map-no_space :
    (ws : List ℕ) → All (λ w. w < 64) ws → contains_byte b' ' (map alphabet72_at ws) ≡ false
unfolding contains_byte
map-no_space [] h = refl
map-no_space (w ∷ ws) (hw, h) = rw (no_space w hw, map-no_space ws h)

-- A packed text is spelled by six-bit words.
pub pack72bits-words :
    (v r : ℕ)
    → r < 256
    → (ws : List ℕ) × (pack72bits v r ≡ map alphabet72_at ws) × All (λ w. w < 64) ws
pack72bits-words v r h =
    let fits = words_loop-fits 10 (v / 16) ((v % 16 * 4 + r / 64) ∷ r % 64 ∷ []) (omega arith) in
    (words72 v r, pack72bits-words72 v r h, unfold words72 in fits.0)

-- A packed text has twelve characters, and no space.
pub pack72bits_shape :
    (v r : ℕ)
    → r < 256
    → (length (pack72bits v r) ≡ 12) × (contains_byte b' ' (pack72bits v r) ≡ false)
pack72bits_shape v r h =
    let fits = words_loop-fits 10 (v / 16) ((v % 16 * 4 + r / 64) ∷ r % 64 ∷ []) (omega arith) in
    rw (pack72bits-words72 v r h)
      (unfold words72 words_loop in refl, map-no_space (words72 v r) (unfold words72 in fits.0))
