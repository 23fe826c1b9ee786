-- ===== src/Encoder/Layout.antt =====
-- The tones of a frame: Costas arrays, and parities of the data tones.
use js8rs.Prelude.{
  ℕ, zero, suc, ◌+◌, ◌-◌, ◌*◌, ◌%◌, ◌^◌, ◌<◌, ◌≡◌, refl, ◌∙◌, Bool, true, not, ◌&&◌, ltb, ◌==◌,
  List, [], ◌∷◌, ◌++◌, length, take, drop, get_or, All, All-append, bit_and, bit_or, bit_and_mask,
  bit_or_fields, u8, ◌<<<◌, ◌>>>◌, ok, arith,
}
use js8rs.Protocol.{Submode}
use js8rs.Submodes.{CostasType, original, modified, submode_data}
use js8rs.Encoder.{
  parity_bit, parity_tone, data_tone, for_type, lay_tones, message_bits, frame_bytes, count_ones,
  encode,
}
use js8rs.Encoder.Places.{tones_from, lay_tones_lem, data_tones-at}
use js8rs.Encoder.Payload.{octal, octal-frame}
use js8rs.Encoder.Parity.{parity_matrix}
use js8rs.Encoder.Tones.{encode-packed, encode-length}
use js8rs.Command.Kind.{contains_byte}

data_tone-lt : (bits symbol : ℕ) → data_tone bits symbol < 8
unfolding data_tone
data_tone-lt bits symbol = omega (arith, bit_and_mask 3 (bits >>> (125 - symbol * 3)))

parity_bit-lt : (bits row : ℕ) → parity_bit bits row < 2
unfolding parity_bit
parity_bit-lt bits row =
    omega (arith, bit_and_mask 1 (u8 (count_ones 128 (bit_and (get_or parity_matrix row 0) bits))))

three_bits :
    (p q r : ℕ)
    → p < 2
    → q < 2
    → r < 2
    → bit_or (bit_or (u8 (p <<< 2)) (u8 (q <<< 1))) r ≡ p * 4 + q * 2 + r
three_bits p q r hp hq hr = ground (arith, bit_or_fields 2 p (q * 2), bit_or_fields 1 (p * 2 + q) r)

parity_tone-lt : (bits symbol : ℕ) → parity_tone bits symbol < 8
unfolding parity_tone
parity_tone-lt bits symbol =
    let row = symbol * 3 in
    let p = parity_bit-lt bits row in
    let q = parity_bit-lt bits (row + 1) in
    let r = parity_bit-lt bits (row + 2) in omega (arith, three_bits _ _ _ p q r)

tones_from-lt :
    (tone : ℕ → ℕ)
    → ((s : ℕ) → tone s < 8)
    → (n s : ℕ) (rest : List ℕ) → All (λ t. t < 8) rest
    → All (λ t. t < 8) (tones_from tone n s ++ rest)
unfolding tones_from
tones_from-lt tone h zero s rest ha = ha
tones_from-lt tone h (suc n) s rest ha = (h s, tones_from-lt tone h n (s + 1) rest ha)

for_type-lt :
    (t : CostasType)
    → All (λ tone. tone < 8) (for_type t).first
      × All (λ tone. tone < 8) (for_type t).second
      × All (λ tone. tone < 8) (for_type t).third
unfolding for_type
for_type-lt original = ground arith
for_type-lt modified = ground arith

lay_tones-lt : (t : CostasType) (bits : ℕ) → All (λ tone. tone < 8) (lay_tones (for_type t) bits)
lay_tones-lt t bits =
    let (first, second, third) = for_type-lt t in
    let c = for_type t in
    rw (lay_tones_lem t bits) (
      All-append (λ tone. tone < 8) c.first _ first
        (tones_from-lt (parity_tone bits) (parity_tone-lt bits) 29 0 _ (
          All-append (λ tone. tone < 8) c.second _ second
            (tones_from-lt (data_tone bits) (data_tone-lt bits) 29 0 _ third))))

-- The steps of a pattern over a distance, each above 0.
abbrev pub steps : ℕ → List ℕ → List ℕ
steps distance [] = []
steps distance (tone ∷ tones) = elim (drop distance (tone ∷ tones)) [
  | [] ↦ []
  | later ∷ _ ↦ (later + 7 - tone) ∷ steps distance tones
]

abbrev pub all_different : List ℕ → Bool
all_different [] = true
all_different (x ∷ xs) = not (contains_byte x xs) && all_different xs

abbrev pub all_below_7 : List ℕ → Bool
all_below_7 [] = true
all_below_7 (x ∷ xs) = ltb x 7 && all_below_7 xs

-- A Costas array of order 7: the tones are a permutation of 0 to 6, and over each distance no step
-- comes twice.
abbrev pub is_costas : List ℕ → Bool
is_costas tones =
    length tones == 7
    && all_different tones
    && all_below_7 tones
    && all_different (steps 1 tones)
    && all_different (steps 2 tones)
    && all_different (steps 3 tones)
    && all_different (steps 4 tones)
    && all_different (steps 5 tones)
    && all_different (steps 6 tones)

-- Whether a row of the parity matrix meets an odd number of ones in a word.
abbrev pub parity : ℕ → ℕ → ℕ
parity word row = count_ones 128 (bit_and (get_or parity_matrix row 0) word) % 2

-- Three parities as a tone.
abbrev pub parities : ℕ → ℕ → ℕ
parities word symbol =
    parity word (symbol * 3) * 4 + parity word (symbol * 3 + 1) * 2 + parity word (symbol * 3 + 2)

parity_bit_lem : (bits row : ℕ) → parity_bit bits row ≡ parity bits row
unfolding parity_bit
parity_bit_lem bits row =
    let ones = count_ones 128 (bit_and (get_or parity_matrix row 0) bits) in
    omega (arith, bit_and_mask 1 (u8 ones))

parity_tone_lem : (bits symbol : ℕ) → parity_tone bits symbol ≡ parities bits symbol
unfolding parity_tone
parity_tone_lem bits symbol =
    let row = symbol * 3 in
    three_bits _ _ _ (parity_bit-lt bits row) (parity_bit-lt bits (row + 1))
      (parity_bit-lt bits (row + 2))
    ∙ rw (parity_bit_lem bits row, parity_bit_lem bits (row + 1), parity_bit_lem bits (row + 2))
        refl

parity_tones_lem :
    (bits n s : ℕ) → tones_from (parity_tone bits) n s ≡ tones_from (parities bits) n s
unfolding tones_from
parity_tones_lem bits zero s = refl
parity_tones_lem bits (suc n) s = rw (parity_tone_lem bits s, parity_tones_lem bits n (s + 1)) refl

for_type-IsCostas :
    (t : CostasType)
    → (is_costas (for_type t).first ≡ true)
      × (is_costas (for_type t).second ≡ true)
      × (is_costas (for_type t).third ≡ true)
unfolding for_type contains_byte
for_type-IsCostas original = (refl, refl, refl)
for_type-IsCostas modified = (refl, refl, refl)

lay_tones-layout :
    (t : CostasType) (bits : ℕ)
    → let c = for_type t in
      let tones = lay_tones c bits in
      (length tones ≡ 79)
      × (take 7 tones ≡ c.first)
      × (take 29 (drop 7 tones) ≡ tones_from (parity_tone bits) 29 0)
      × (take 7 (drop 36 tones) ≡ c.second)
      × (drop 72 tones ≡ c.third)
unfolding for_type tones_from
lay_tones-layout original bits = rw (lay_tones_lem original bits) (refl, refl, refl, refl, refl)
lay_tones-layout modified bits = rw (lay_tones_lem modified bits) (refl, refl, refl, refl, refl)

-- When a message of bytes is encoded, the tones are 79 and below 8, the submode's patterns stand
-- from the tones 0, 36 and 72 on and are Costas arrays, and the tones 7 to 35 are the parities, by
-- the rows of the matrix, of the word that the data tones spell from 43 on as octal digits.
pub encode-layout :
    (typ : ℕ) (submode : Submode) (message tones : List ℕ)
    → All (λ c. c < 256) message
    → encode typ submode message ≡ ok tones
    → let c = for_type (submode_data submode).costas in
      (length tones ≡ 79)
      × All (λ tone. tone < 8) tones
      × (take 7 tones ≡ c.first)
      × (take 7 (drop 36 tones) ≡ c.second)
      × (drop 72 tones ≡ c.third)
      × (is_costas c.first ≡ true)
      × (is_costas c.second ≡ true)
      × (is_costas c.third ≡ true)
      × (take 29 (drop 7 tones)
          ≡ tones_from (parities (octal 0 (take 29 (drop 43 tones)) * 2 ^ 41)) 29 0)
encode-layout typ submode message tones h e =
    let (packed, p, t) = encode-packed typ submode message tones e in
    let n = encode-length typ submode message tones e in
    let bits = message_bits (frame_bytes typ packed) in
    let costas = (submode_data submode).costas in
    let (len, a, par, b, c) = lay_tones-layout costas bits in
    let word = octal-frame typ message packed n h p in
    rw t (
      len,
      lay_tones-lt costas bits,
      a,
      b,
      c,
      (for_type-IsCostas costas).0,
      (for_type-IsCostas costas).1,
      (for_type-IsCostas costas).2,
      par ∙ parity_tones_lem bits 29 0 ∙ rw (data_tones-at costas bits, word) refl,
    )
