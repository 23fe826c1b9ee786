-- ===== src/Encoder/Payload.antt =====
-- What the data tones spell: the message, its type and the CRC.
use js8rs.Prelude.{
  ℕ, zero, suc, ◌+◌, ◌-◌, ◌*◌, ◌/◌, ◌%◌, ◌^◌, ◌≤◌, ◌<◌, ◌≡◌, refl, sym, ap, ◌∙◌, List, [], ◌∷◌,
  ◌++◌, length, take, drop, replicate, All, bit_and, bit_or, bit_and_mask, bit_or_fields, u8, ◌<<<◌,
  ◌>>>◌, Result, ok, err, arith,
}
use js8rs.Protocol.{Submode}
use js8rs.Submodes.{submode_data}
use js8rs.Encoder.{
  alphabet_word, and_then, message_bytes, group_bytes, be_value, data_tone, message_bits,
  frame_bytes, encode,
}
use js8rs.Encoder.Places.{tones_from, data_tones-at}
use js8rs.Encoder.Crc12.{crc12, crc12-lt}
use js8rs.Encoder.Tones.{
  encode-packed, encode-length, place, place-alphabet_word, place-lt, ok-and_then,
}
use mathlib.Core.Path.{subst}
use native.Mathlib.Nat.{div-div-eq-div-mul, pow-suc, mul-le-mul_right}

-- The number that octal digits spell behind `value`.
unfoldable pub octal : ℕ → List ℕ → ℕ
octal value [] = value
octal value (tone ∷ tones) = octal (value * 8 + tone) tones

-- The number that the places of characters spell in base 64 behind `value`.
unfoldable pub sextets : ℕ → List ℕ → ℕ
sextets value [] = value
sextets value (c ∷ cs) = sextets (value * 64 + place c) cs

three_more : (e f : ℕ) → f ≡ suc (suc (suc e)) → 2 ^ f ≡ 2 ^ e * 8
three_more e f h =
    ap (λ t. 2 ^ t) h ∙ omega (arith, pow-suc 2 e, pow-suc 2 (suc e), pow-suc 2 (suc (suc e)))

pub octal-data_tones :
    (bits n s : ℕ)
    → s + n ≤ 29
    → octal (bits / 2 ^ (128 - 3 * s)) (tones_from (data_tone bits) n s)
      ≡ bits / 2 ^ (128 - 3 * (s + n))
unfolding octal tones_from data_tone
octal-data_tones bits zero s h = ap (λ t. bits / 2 ^ (128 - 3 * t)) (omega arith)
octal-data_tones bits (suc n) s h =
    let e = 125 - s * 3 in
    let split : 2 ^ (128 - 3 * s) ≡ 2 ^ e * 8 = three_more e (128 - 3 * s) (omega arith) in
    let high : bits / 2 ^ (128 - 3 * s) ≡ bits / 2 ^ e / 8 =
      ap (λ t. bits / t) split ∙ sym (div-div-eq-div-mul bits (2 ^ e) 8) in
    let digit : bits / 2 ^ (128 - 3 * s) * 8 + u8 (bit_and (bits / 2 ^ e) 7) ≡ bits / 2 ^ e =
      omega (arith, high, bit_and_mask 3 (bits / 2 ^ e)) in
    let start : bits / 2 ^ e ≡ bits / 2 ^ (128 - 3 * (s + 1)) =
      ap (λ t. bits / 2 ^ t) (omega arith) in
    ap (λ t. octal t (tones_from (data_tone bits) n (s + 1))) (digit ∙ start)
    ∙ octal-data_tones bits n (s + 1) (omega arith)
    ∙ ap (λ t. bits / 2 ^ (128 - 3 * t)) (omega arith)

be_value-append : (v : ℕ) (xs ys : List ℕ) → be_value v (xs ++ ys) ≡ be_value (be_value v xs) ys
unfolding be_value
be_value-append v [] ys = refl
be_value-append v (x ∷ xs) ys = be_value-append (v * 256 + x) xs ys

four_words :
    (w0 w1 w2 w3 : ℕ)
    → w1 < 64
    → w2 < 64
    → w3 < 64
    → bit_or (bit_or (bit_or (w0 <<< 18) (w1 <<< 12)) (w2 <<< 6)) w3
      ≡ ((w0 * 64 + w1) * 64 + w2) * 64 + w3
four_words w0 w1 w2 w3 h1 h2 h3 = ground (
  arith,
  bit_or_fields 18 w0 (w1 * 2 ^ 12),
  bit_or_fields 12 (w0 * 64 + w1) (w2 * 2 ^ 6),
  bit_or_fields 6 ((w0 * 64 + w1) * 64 + w2) w3,
)

-- A group of characters is one number of 24 bits.
be_value-group_bytes :
    (v w0 w1 w2 w3 : ℕ) (rest : List ℕ)
    → w0 < 64
    → w1 < 64
    → w2 < 64
    → w3 < 64
    → be_value v (group_bytes w0 w1 w2 w3 rest)
      ≡ be_value ((((v * 64 + w0) * 64 + w1) * 64 + w2) * 64 + w3) rest
unfolding be_value group_bytes
be_value-group_bytes v w0 w1 w2 w3 rest h0 h1 h2 h3 =
    let words = four_words w0 w1 w2 w3 h1 h2 h3 in ap (λ t. be_value t rest) (omega (arith, words))

pub frame_bits :
    (typ : ℕ) (packed : List ℕ)
    → message_bits (frame_bytes typ packed)
      ≡ ((be_value 0 packed * 8 + typ % 8) * 2 ^ 12 + crc12 (packed ++ (typ % 8 * 32 ∷ 0 ∷ [])))
        * 2 ^ 41
unfolding message_bits frame_bytes be_value
frame_bits typ packed =
    let ty = bit_and_mask 3 typ in
    let byte9 : u8 (bit_and typ 7 <<< 5) ≡ typ % 8 * 32 = omega (arith, ty) in
    let c = crc12 (packed ++ (typ % 8 * 32 ∷ 0 ∷ [])) in
    let fits = crc12-lt (packed ++ (typ % 8 * 32 ∷ 0 ∷ [])) in
    let low = bit_and_mask 7 c in
    let high = bit_and_mask 5 (u8 (c / 128)) in
    let joined = bit_or_fields 5 (typ % 8) (c / 128) (omega arith) in
    let last =
      bit_or (typ % 8 * 32) (bit_and (u8 (c >>> 7)) 0x1f) ∷ u8 (u8 (bit_and c 0x7f) <<< 1) ∷ [] in
    let mid : bit_and (u8 (c >>> 7)) 0x1f ≡ c / 128 = omega (arith, high, fits) in
    rw byte9 (
      be_value-append 0 (packed ++ last) (replicate 5 0)
      ∙ ap (λ t. be_value t (replicate 5 0)) (be_value-append 0 packed last)
      ∙ rw mid (omega (arith, joined, low, fits)))

pub and_then-eq-ok {ℓ κ μ} :
    {E : Type ℓ} {A : Type κ} {B : Type μ} (m : Result E A) (next : A → Result E B) (b : B)
    → and_then m next ≡ ok b
    → (a : A) × (m ≡ ok a) × (next a ≡ ok b)
and_then-eq-ok (ok a) next b e = (a, refl, e)
and_then-eq-ok (err x) next b e = cc

-- The first nine bytes spell the places of the characters.
pub be_value-message_bytes :
    (n v : ℕ) (cs packed : List ℕ)
    → length cs ≡ 4 * n
    → All (λ c. c < 256) cs
    → message_bytes cs ≡ ok packed
    → be_value v packed ≡ sextets v cs
unfolding message_bytes sextets be_value
be_value-message_bytes n v [] packed hl ha e = let p : packed ≡ [] = ground (arith, e) in rw p refl
be_value-message_bytes n v (c0 ∷ c1 ∷ c2 ∷ c3 ∷ cs) packed hl (h0, (h1, (h2, (h3, ha)))) e =
    let (w0, p0, e0) = and_then-eq-ok (alphabet_word c0) _ packed e in
    let (w1, p1, e1) = and_then-eq-ok (alphabet_word c1) _ packed e0 in
    let (w2, p2, e2) = and_then-eq-ok (alphabet_word c2) _ packed e1 in
    let (w3, p3, e3) = and_then-eq-ok (alphabet_word c3) _ packed e2 in
    let (rest, r, q) = ok-and_then (message_bytes cs) _ packed e3 in
    let (q0, b0) = place-alphabet_word c0 w0 h0 p0 in
    let (q1, b1) = place-alphabet_word c1 w1 h1 p1 in
    let (q2, b2) = place-alphabet_word c2 w2 h2 p2 in
    let (q3, b3) = place-alphabet_word c3 w3 h3 p3 in
    rw (q, q0, q1, q2, q3)
      (be_value-group_bytes v w0 w1 w2 w3 rest b0 b1 b2 b3
        ∙ be_value-message_bytes (n - 1) _ cs rest (omega arith) ha r)
be_value-message_bytes n v (c0 ∷ []) packed hl ha e = absurd (omega arith)
be_value-message_bytes n v (c0 ∷ c1 ∷ []) packed hl ha e = absurd (omega arith)
be_value-message_bytes n v (c0 ∷ c1 ∷ c2 ∷ []) packed hl ha e = absurd (omega arith)

higher : (a n : ℕ) → a * 64 ^ suc n ≡ a * 64 * 64 ^ n
higher a n = ap (λ (t : ℕ). a * t) (pow-suc 64 n) ∙ omega arith

sextets-lt : (v : ℕ) (cs : List ℕ) → All (λ c. c < 256) cs → sextets v cs < (v + 1) * 64 ^ length cs
unfolding sextets
sextets-lt v [] ha = omega arith
sextets-lt v (c ∷ cs) (h, ha) =
    let ih = sextets-lt (v * 64 + place c) cs ha in
    let step =
      mul-le-mul_right {m = v * 64 + place c + 1} {n = (v + 1) * 64} (64 ^ length cs)
        (omega (arith, place-lt c h)) in
    omega (arith, ih, step, higher (v + 1) (length cs))

frame_bits-lt :
    (typ : ℕ) (message packed : List ℕ)
    → length message ≡ 12
    → All (λ c. c < 256) message
    → message_bytes message ≡ ok packed
    → message_bits (frame_bytes typ packed) < 2 ^ 128
frame_bits-lt typ message packed n h p =
    let words = be_value-message_bytes 3 0 message packed n h p in
    let fits : sextets 0 message < 2 ^ 72 =
      subst (λ k. sextets 0 message < 1 * 64 ^ k) n (sextets-lt 0 message h) in
    let c = crc12-lt (packed ++ (typ % 8 * 32 ∷ 0 ∷ [])) in
    let whole = frame_bits typ packed in omega (arith, whole, words, fits, c)

-- The data tones of a frame spell its bits above the lowest 41, which are 0.
pub octal-frame :
    (typ : ℕ) (message packed : List ℕ)
    → length message ≡ 12
    → All (λ c. c < 256) message
    → message_bytes message ≡ ok packed
    → let bits = message_bits (frame_bytes typ packed) in
      octal 0 (tones_from (data_tone bits) 29 0) * 2 ^ 41 ≡ bits
octal-frame typ message packed n h p =
    let bits = message_bits (frame_bytes typ packed) in
    let start : 0 ≡ bits / 2 ^ 128 = omega (arith, frame_bits-lt typ message packed n h p) in
    let spelled =
      ap (λ v. octal v (tones_from (data_tone bits) 29 0)) start
      ∙ octal-data_tones bits 29 0 (omega arith) in
    let whole = frame_bits typ packed in omega (arith, spelled, whole)

-- When a message of bytes is encoded, the 29 data tones spell, as octal digits, the places of the
-- characters in the alphabet, the three bits of the type, and the CRC of the packed message with
-- that type.
pub encode-payload :
    (typ : ℕ) (submode : Submode) (message tones : List ℕ)
    → All (λ c. c < 256) message
    → encode typ submode message ≡ ok tones
    → (packed : List ℕ) × (message_bytes message ≡ ok packed)
      × (octal 0 (take 29 (drop 43 tones))
          ≡ (sextets 0 message * 8 + typ % 8) * 2 ^ 12 + crc12 (packed ++ (typ % 8 * 32 ∷ 0 ∷ [])))
encode-payload typ submode message tones h e =
    let (packed, p, t) = encode-packed typ submode message tones e in
    let costas = (submode_data submode).costas in
    let bits = message_bits (frame_bytes typ packed) in
    let n = encode-length typ submode message tones e in
    let words = be_value-message_bytes 3 0 message packed n h p in
    let whole = frame_bits typ packed in
    let spelled = octal-frame typ message packed n h p in
    (packed, p, rw (t, data_tones-at costas bits) (omega (arith, spelled, whole, words)))
