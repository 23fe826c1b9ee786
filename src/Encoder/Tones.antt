-- ===== src/Encoder/Tones.antt =====
-- When the encoder fails, and what it packs when it does not.
use js8rs.Prelude.{
  ℕ, ◌-◌, ◌*◌, ◌<◌, ◌≡◌, refl, ◌∙◌, Bool, true, ◌&&◌, Option, none, some, List, [], ◌∷◌, length,
  get_or, All, ltb, ◌==◌, if◌then◌else◌, all_below, all_below_sound, Result, ok, err, inl, inr,
  Bool-cases, arith,
}
use js8rs.Protocol.{Submode}
use js8rs.Submodes.{submode_data}
use js8rs.Varicode.Alphabet.{find_char, index_loop}
use js8rs.Encoder.{
  EncodeError, invalid_character, invalid_message_length, invalid_word, alphabet64, alphabet_words,
  alphabet_word, and_then, message_bytes, for_type, lay_tones, message_bits, frame_bytes,
  group_bytes, encode_with_costas, encode,
}
use mathlib.Core.Option

abbrev pub error_of {ℓ κ} : {E : Type ℓ} {A : Type κ} → Result E A → Option E
error_of (ok a) = none
error_of (err e) = some e

-- The first byte that is no character of the alphabet.
unfoldable pub first_invalid : List ℕ → Option ℕ
first_invalid [] = none
first_invalid (c ∷ cs) =
    let rest = first_invalid cs in elim (find_char alphabet64 c) [ none ↦ some c | some i ↦ rest ]

-- The index holds the place in the alphabet.
indexed : ℕ → Bool
indexed c = elim (find_char alphabet64 c) [
  | none ↦ get_or alphabet_words c invalid_word == invalid_word
  | some i ↦ get_or alphabet_words c invalid_word == i && ltb i 64
]

index_table : all_below 256 indexed ≡ true
unfolding all_below indexed find_char alphabet_words index_loop
index_table = refl

error-alphabet_word :
    (c : ℕ)
    → c < 256
    → error_of (alphabet_word c)
      ≡ elim (find_char alphabet64 c) [ none ↦ some (invalid_character c) | some i ↦ none ]
unfolding alphabet_word indexed
error-alphabet_word c h = let e = all_below_sound 256 indexed c index_table h in ground arith

-- The place of a character in the alphabet.
unfoldable pub place : ℕ → ℕ
place c = elim (find_char alphabet64 c) [ none ↦ 0 | some i ↦ i ]

pub place-alphabet_word : (c w : ℕ) → c < 256 → alphabet_word c ≡ ok w → (place c ≡ w) × (w < 64)
unfolding alphabet_word indexed place
place-alphabet_word c w h e = let t = all_below_sound 256 indexed c index_table h in ground arith

pub place-lt : (c : ℕ) → c < 256 → place c < 64
unfolding indexed place
place-lt c h = let t = all_below_sound 256 indexed c index_table h in ground arith

error-and_then {ℓ κ μ} :
    {E : Type ℓ} {A : Type κ} {B : Type μ} (m : Result E A) (next : A → Result E B) (e : Option E)
    → ((a : A) → error_of (next a) ≡ e)
    → error_of (and_then m next) ≡ elim (error_of m) [ none ↦ e | some x ↦ some x ]
error-and_then (ok a) next e h = h a
error-and_then (err x) next e h = refl

-- The error of a character, else that of the rest.
unfoldable first_of : ℕ → Option EncodeError → Option EncodeError
first_of c e = elim (find_char alphabet64 c) [ none ↦ some (invalid_character c) | some i ↦ e ]

error-character {κ} :
    {B : Type κ} (c : ℕ) (next : ℕ → Result EncodeError B) (e : Option EncodeError)
    → c < 256
    → ((w : ℕ) → error_of (next w) ≡ e)
    → error_of (and_then (alphabet_word c) next) ≡ first_of c e
unfolding first_of
error-character c next e h he =
    error-and_then (alphabet_word c) next e he ∙ rw (error-alphabet_word c h) (ground arith)

map-first_invalid :
    (c : ℕ) (cs : List ℕ)
    → Option.map invalid_character (first_invalid (c ∷ cs))
      ≡ first_of c (Option.map invalid_character (first_invalid cs))
unfolding first_invalid first_of
map-first_invalid c cs = ground arith

error-and_then-ok {ℓ κ μ} :
    {E : Type ℓ} {A : Type κ} {B : Type μ} (m : Result E A) (f : A → B)
    → error_of (and_then m (λ a. ok (f a))) ≡ error_of m
error-and_then-ok (ok a) f = refl
error-and_then-ok (err e) f = refl

-- The bytes of the message fail by the first invalid character.
error-message_bytes :
    (n : ℕ) (cs : List ℕ)
    → length cs ≡ 4 * n
    → All (λ c. c < 256) cs
    → error_of (message_bytes cs) ≡ Option.map invalid_character (first_invalid cs)
unfolding message_bytes first_invalid
error-message_bytes n [] hl ha = refl
error-message_bytes n (c0 ∷ c1 ∷ c2 ∷ c3 ∷ cs) hl (h0, (h1, (h2, (h3, ha)))) =
    let e4 = Option.map invalid_character (first_invalid cs) in
    let e3 = first_of c3 e4 in
    let e2 = first_of c2 e3 in
    let e1 = first_of c1 e2 in
    let ih = error-message_bytes (n - 1) cs (omega arith) ha in
    error-character c0 _ e1 h0 (λ w0. error-character c1 _ e2 h1 (λ w1.
      error-character c2 _ e3 h2 (λ w2.
        error-character c3 _ e4 h3
          (λ w3. error-and_then-ok (message_bytes cs) (group_bytes w0 w1 w2 w3) ∙ ih))))
    ∙ rw
        (
          map-first_invalid c0 (c1 ∷ c2 ∷ c3 ∷ cs),
          map-first_invalid c1 (c2 ∷ c3 ∷ cs),
          map-first_invalid c2 (c3 ∷ cs),
          map-first_invalid c3 cs,
        )
        refl
error-message_bytes n (c0 ∷ []) hl ha = absurd (omega arith)
error-message_bytes n (c0 ∷ c1 ∷ []) hl ha = absurd (omega arith)
error-message_bytes n (c0 ∷ c1 ∷ c2 ∷ []) hl ha = absurd (omega arith)

-- A text of bytes fails to encode exactly when its length is not twelve, by its length, or else
-- when it has a byte outside of the alphabet, by the first such byte.
pub error-encode :
    (typ : ℕ) (submode : Submode) (message : List ℕ)
    → All (λ c. c < 256) message
    → error_of (encode typ submode message) ≡ (
        if length message == 12
        then Option.map invalid_character (first_invalid message)
        else some (invalid_message_length (length message)))
unfolding encode encode_with_costas
error-encode typ submode message h = elim (Bool-cases (length message == 12)) [
  | inl e ↦
      let costas = for_type (submode_data submode).costas in
      rw e (
        error-and_then-ok (message_bytes message)
          (λ packed. lay_tones costas (message_bits (frame_bytes typ packed)))
        ∙ error-message_bytes 3 message (ground arith) h)
  | inr e ↦ rw e
]

pub ok-and_then {ℓ κ μ} :
    {E : Type ℓ} {A : Type κ} {B : Type μ} (m : Result E A) (f : A → B) (b : B)
    → and_then m (λ a. ok (f a)) ≡ ok b
    → (a : A) × (m ≡ ok a) × (b ≡ f a)
ok-and_then (ok a) f b e = (a, refl, cc)
ok-and_then (err x) f b e = cc

-- The bytes that a successful call packs.
pub encode-packed :
    (typ : ℕ) (submode : Submode) (message tones : List ℕ)
    → encode typ submode message ≡ ok tones
    → (packed : List ℕ) × (message_bytes message ≡ ok packed)
      × (tones
          ≡ lay_tones
              (for_type (submode_data submode).costas)
              (message_bits (frame_bytes typ packed)))
unfolding encode encode_with_costas
encode-packed typ submode message tones e = elim (Bool-cases (length message == 12)) [
  | inl l ↦ ok-and_then (message_bytes message) _ tones (ground (arith, e, l))
  | inr l ↦ ground (arith, e, l)
]

pub encode-length :
    (typ : ℕ) (submode : Submode) (message tones : List ℕ)
    → encode typ submode message ≡ ok tones
    → length message ≡ 12
unfolding encode encode_with_costas
encode-length typ submode message tones e = elim (Bool-cases (length message == 12)) [
  | inl l ↦ ground arith
  | inr l ↦ ground (arith, e, l)
]
