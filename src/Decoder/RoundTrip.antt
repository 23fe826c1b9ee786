-- ===== src/Decoder/RoundTrip.antt =====
-- The message that was encoded, in the bits of the data tones.
use js8rs.Prelude.{
  ℕ, zero, suc, ◌+◌, ◌-◌, ◌*◌, ◌%◌, ◌<◌, ◌≡◌, refl, sym, ap, ◌∙◌, Bool, true, false, none, some,
  List, [], ◌∷◌, ◌++◌, length, length-map, length-take, length-drop, map, take, drop, get_or,
  get_elem?, All, All-take, All-drop, ◌==◌, all_below, all_below_sound, bit_or, u8, ◌<<<◌, ok,
  arith,
}
use js8rs.Protocol.{Submode}
use js8rs.Varicode.Alphabet.{find_char, index_loop}
use js8rs.Varicode.Bits.{bit_value}
use js8rs.Varicode.Bits.Laws.{bits_of, bits_before, bits_of-fields, length-bits_of}
use js8rs.Encoder.{
  message_bytes, alphabet_word, alphabet_words, alphabet64, invalid_word, group_bytes, be_value,
  encode,
}
use js8rs.Encoder.Crc12.{crc12, crc12-lt}
use js8rs.Encoder.Payload.{octal, sextets, encode-payload, and_then-eq-ok, be_value-message_bytes}
use js8rs.Encoder.Tones.{place, place-alphabet_word, encode-length, ok-and_then}
use js8rs.Encoder.Layout.{encode-layout}
use js8rs.Decoder.{check_crc12, word_of_bits, extract_words, extract_message_174, decoded_flags}
use js8rs.Decoder.Bytes.{chunks, bits_nat, map-append, check_crc12-frame}
use js8rs.Decoder.Spelling.{octal-bits, be_value-bits, sextets-bits, tone_bits, tone_bits-chunks}
use mathlib.Core.List.{append_assoc}

-- A character of the alphabet stands at its place.
abbrev AtPlace : ℕ → Type 0
AtPlace c = get_elem? alphabet64 (place c) ≡ some c

unfoldable placed : ℕ → Bool
placed c = elim (find_char alphabet64 c) [
  | none ↦ get_or alphabet_words c invalid_word == invalid_word
  | some i ↦ elim (get_elem? alphabet64 i) [ none ↦ false | some d ↦ d == c ]
]

placed_table : all_below 256 placed ≡ true
unfolding all_below placed find_char alphabet_words index_loop
placed_table = refl

alphabet_word-AtPlace : (c w : ℕ) → c < 256 → alphabet_word c ≡ ok w → AtPlace c
unfolding alphabet_word placed place
alphabet_word-AtPlace c w h e =
    let t = all_below_sound 256 placed c placed_table h in ground (arith, e)

place-small : (c w : ℕ) → c < 256 → alphabet_word c ≡ ok w → place c < 64
place-small c w h e = let (same, small) = place-alphabet_word c w h e in omega (arith, same, small)

-- What a message that can be packed gives.
message_bytes-parts :
    (n : ℕ) (cs packed : List ℕ)
    → length cs ≡ 4 * n
    → All (λ c. c < 256) cs
    → message_bytes cs ≡ ok packed
    → All (λ b. b < 256) packed
      × (length packed ≡ 3 * n)
      × All (λ p. p < 64) (map place cs)
      × All AtPlace cs
unfolding message_bytes group_bytes
message_bytes-parts n [] packed hl ha e =
    let p : packed ≡ [] = ground (arith, e) in rw p (tt, omega arith, tt, tt)
message_bytes-parts n (c0 ∷ c1 ∷ c2 ∷ c3 ∷ cs) packed hl (h0, (h1, (h2, (h3, ha)))) e =
    let (w0, p0, e0) = and_then-eq-ok (alphabet_word c0) _ packed e in
    let (w1, p1, e1) = and_then-eq-ok (alphabet_word c1) _ packed e0 in
    let (w2, p2, e2) = and_then-eq-ok (alphabet_word c2) _ packed e1 in
    let (w3, p3, e3) = and_then-eq-ok (alphabet_word c3) _ packed e2 in
    let (rest, r, q) = ok-and_then (message_bytes cs) _ packed e3 in
    let (small, size, low, there) = message_bytes-parts (n - 1) cs rest (omega arith) ha r in
    rw q (
      (omega arith, (omega arith, (omega arith, small))),
      omega (arith, size),
      (
        place-small c0 w0 h0 p0,
        (place-small c1 w1 h1 p1, (place-small c2 w2 h2 p2, (place-small c3 w3 h3 p3, low))),
      ),
      (
        alphabet_word-AtPlace c0 w0 h0 p0,
        (
          alphabet_word-AtPlace c1 w1 h1 p1,
          (alphabet_word-AtPlace c2 w2 h2 p2, (alphabet_word-AtPlace c3 w3 h3 p3, there)),
        ),
      ),
    )
message_bytes-parts n (c0 ∷ []) packed hl ha e = absurd (omega arith)
message_bytes-parts n (c0 ∷ c1 ∷ []) packed hl ha e = absurd (omega arith)
message_bytes-parts n (c0 ∷ c1 ∷ c2 ∷ []) packed hl ha e = absurd (omega arith)

extract_words-step :
    (n b0 b1 b2 b3 b4 b5 p c : ℕ) (rest cs : List ℕ)
    → word_of_bits b0 b1 b2 b3 b4 b5 ≡ p
    → get_elem? alphabet64 p ≡ some c
    → extract_words n rest ≡ some cs
    → extract_words (suc n) (b0 ∷ b1 ∷ b2 ∷ b3 ∷ b4 ∷ b5 ∷ rest) ≡ some (c ∷ cs)
unfolding extract_words
extract_words-step n b0 b1 b2 b3 b4 b5 p c rest cs e f g = rw (extract_words, e, f, g)

unfoldable word_of : List ℕ → ℕ
word_of (b0 ∷ b1 ∷ b2 ∷ b3 ∷ b4 ∷ b5 ∷ []) = word_of_bits b0 b1 b2 b3 b4 b5
word_of bits = 64

word_table : all_below 64 (λ p. word_of (bits_nat 6 p) == p) ≡ true
unfolding all_below word_of word_of_bits bits_of bits_before
word_table = refl

word_of-bits_nat : (p : ℕ) → p < 64 → word_of (bits_nat 6 p) ≡ p
word_of-bits_nat p h =
    let e = all_below_sound 64 (λ p. word_of (bits_nat 6 p) == p) p word_table h in ground arith

extract_words-chunks :
    (cs rest : List ℕ)
    → All (λ p. p < 64) (map place cs)
    → All AtPlace cs
    → extract_words (length cs) (map bit_value (chunks 6 (map place cs)) ++ rest) ≡ some cs
unfolding chunks bits_of bits_before word_of
extract_words-chunks [] rest h k = unfold extract_words in refl
extract_words-chunks (c ∷ cs) rest (h, hs) (k, ks) =
    extract_words-step (length cs) _ _ _ _ _ _ (place c) c _ cs (word_of-bits_nat (place c) h) k
      (extract_words-chunks cs rest hs ks)

get_or-behind :
    (front rest : List ℕ) (k i : ℕ)
    → k ≡ length front + i
    → get_or (front ++ rest) k 0 ≡ get_or rest i 0
get_or-behind [] rest k i e = ap (λ t. get_or rest t 0) (omega (arith, e))
get_or-behind (f ∷ front) rest zero i e = absurd (omega (arith, e))
get_or-behind (f ∷ front) rest (suc k) i e = get_or-behind front rest k i (omega (arith, e))

abbrev flags_of : List ℕ → ℕ
flags_of bits =
    u8 (bit_or (bit_or (get_or bits 0 0 <<< 2) (get_or bits 1 0 <<< 1)) (get_or bits 2 0))

flags_table : all_below 8 (λ t. flags_of (bits_nat 3 t) == t) ≡ true
unfolding all_below bits_of bits_before
flags_table = refl

flags_of-bits : (ty : ℕ) (rest : List ℕ) → ty < 8 → flags_of (bits_nat 3 ty ++ rest) ≡ ty
unfolding bits_of bits_before
flags_of-bits ty rest h =
    let e = all_below_sound 8 (λ t. flags_of (bits_nat 3 t) == t) ty flags_table h in ground arith

decoded_flags-behind :
    (front rest : List ℕ) → length front ≡ 72 → decoded_flags (front ++ rest) ≡ flags_of rest
unfolding decoded_flags
decoded_flags-behind front rest n = rw (
  get_or-behind front rest 72 0 (omega (arith, n)),
  get_or-behind front rest 73 1 (omega (arith, n)),
  get_or-behind front rest 74 2 (omega (arith, n)),
)

decoded_flags-fields :
    (s ty c : ℕ)
    → ty < 8
    → decoded_flags (map bit_value (bits_of 72 s ++ (bits_of 3 ty ++ bits_of 12 c))) ≡ ty
decoded_flags-fields s ty c h =
    ap decoded_flags (map-append (bits_of 72 s) (bits_of 3 ty ++ bits_of 12 c))
    ∙ decoded_flags-behind (bits_nat 72 s) _
        (length-map (bits_of 72 s) bit_value ∙ length-bits_of 72 s)
    ∙ ap flags_of (map-append (bits_of 3 ty) (bits_of 12 c))
    ∙ flags_of-bits ty (bits_nat 12 c) h

-- The bits of the data tones are those of the packed message, the type and the CRC; and the first
-- of them are those of the places of the characters.
data_bits :
    (typ : ℕ) (submode : Submode) (message tones : List ℕ)
    → All (λ c. c < 256) message
    → encode typ submode message ≡ ok tones
    → (packed : List ℕ) × (message_bytes message ≡ ok packed)
      × (chunks 3 (take 29 (drop 43 tones))
          ≡ bits_of 72 (sextets 0 message)
            ++ (bits_of 3 (typ % 8) ++ bits_of 12 (crc12 (packed ++ (typ % 8 * 32 ∷ 0 ∷ [])))))
data_bits typ submode message tones h e =
    let (packed, p, spelt) = encode-payload typ submode message tones h e in
    let ty = typ % 8 in
    let c = crc12 (packed ++ (ty * 32 ∷ 0 ∷ [])) in
    let fits = crc12-lt (packed ++ (ty * 32 ∷ 0 ∷ [])) in
    let (size, small, _, _, _, _, _, _, _) = encode-layout typ submode message tones h e in
    let ds = take 29 (drop 43 tones) in
    let count : length ds ≡ 29 =
      omega (arith, length-take 29 (drop 43 tones), length-drop 43 tones, size) in
    let digits = All-take (λ t. t < 8) 29 (drop 43 tones) (All-drop (λ t. t < 8) 43 tones small) in
    (
      packed,
      p,
      sym (octal-bits ds digits)
          ∙ ap (λ n. bits_of (3 * n) (octal 0 ds)) count
          ∙ ap (λ v. bits_of 87 v) spelt
          ∙ bits_of-fields 75 12 (sextets 0 message * 8 + ty) c fits
          ∙ ap (λ t. t ++ bits_of 12 c) (bits_of-fields 72 3 (sextets 0 message) ty (omega arith))
          ∙ append_assoc (bits_of 72 (sextets 0 message)) (bits_of 3 ty) (bits_of 12 c),
    )

-- When a message of bytes is encoded, the 87 bits of its 29 data tones, the highest of each tone
-- first, pass the test of the CRC and are read as that message, with the low three bits of its type
-- as the flags.
pub extract_message_174-encode :
    (typ : ℕ) (submode : Submode) (message tones : List ℕ)
    → All (λ c. c < 256) message
    → encode typ submode message ≡ ok tones
    → let dec = tone_bits (take 29 (drop 43 tones)) in
      (extract_message_174 dec ≡ some message) × (decoded_flags dec ≡ typ % 8)
unfolding extract_message_174 decoded_flags
extract_message_174-encode typ submode message tones h e =
    let (packed, p, bits) = data_bits typ submode message tones h e in
    let ty = typ % 8 in
    let c = crc12 (packed ++ (ty * 32 ∷ 0 ∷ [])) in
    let n = encode-length typ submode message tones e in
    let (small, size, low, there) = message_bytes-parts 3 message packed n h p in
    let places : bits_of 72 (sextets 0 message) ≡ chunks 6 (map place message) =
      ap (λ k. bits_of (6 * k) (sextets 0 message)) (sym (length-map message place ∙ n))
      ∙ sextets-bits message low in
    let bytes : bits_of 72 (sextets 0 message) ≡ chunks 8 packed =
      ap (λ v. bits_of 72 v) (sym (be_value-message_bytes 3 0 message packed n h p))
      ∙ ap (λ k. bits_of (8 * k) (be_value 0 packed)) (sym size)
      ∙ be_value-bits packed small in
    let tail = bits_of 3 ty ++ bits_of 12 c in
    let whole = tone_bits-chunks (take 29 (drop 43 tones)) ∙ ap (map bit_value) bits in
    let words =
      whole
      ∙ ap (λ t. map bit_value (t ++ tail)) places
      ∙ map-append (chunks 6 (map place message)) tail in
    let dec = tone_bits (take 29 (drop 43 tones)) in
    let checked : check_crc12 dec ≡ true =
      ap check_crc12 (whole ∙ ap (λ t. map bit_value (t ++ tail)) bytes)
      ∙ check_crc12-frame packed ty small size (omega arith) in
    let read : extract_words 12 dec ≡ some message =
      ap (extract_words 12) words
      ∙ ap
          (λ k.
            extract_words k (map bit_value (chunks 6 (map place message)) ++ map bit_value tail))
          (sym n)
      ∙ extract_words-chunks message (map bit_value tail) low there in
    (
      rw (checked, read),
      ap decoded_flags whole ∙ decoded_flags-fields (sextets 0 message) ty c (omega arith),
    )
