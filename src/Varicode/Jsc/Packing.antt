-- ===== src/Varicode/Jsc/Packing.antt =====
-- The 72 bits that `compress_frame` returns, and the text that they stand for.
use js8rs.Prelude.{
  ℕ, ◌+◌, ◌-◌, ◌^◌, ◌<◌, ◌≤◌, ◌≡◌, refl, sym, ap, ◌∙◌, subst, Bool, true, false, some, List, [],
  ◌∷◌, ◌++◌, length, length-append, length-map, take, take-append_self, replicate, ◌==◌, u8, inl,
  inr, Bool-cases, arith, ◌⊎◌,
}
use js8rs.Varicode.Bits.{bits72}
use js8rs.Varicode.Bits.Laws.{bits_of, bits_before, length-bits_of}
use js8rs.Varicode.Jsc.{
  Dictionary, Frame, Progress, full, next, out_of_rounds, frame_bits, prefix_bits, latin1_bytes,
  split_spaces, finished, finish_frame, compress_frame,
}
use js8rs.Varicode.Jsc.Parsing.{Token, tokens_bits, tokens_text}
use js8rs.Varicode.Jsc.Frames.{IsTable, Present, Coded, prefix_bits-bits_of, finish_frame-bits72}
use js8rs.Varicode.Jsc.Compression.{joined, CoversWords, Reached, words_loop-Reached}
use mathlib.Core.List.{append-nil}

split_spaces-some :
    (text : List ℕ)
    → (first : List ℕ) × ((rest : List (List ℕ)) × (split_spaces text ≡ first ∷ rest))
unfolding split_spaces
split_spaces-some [] = ([], ([], refl))
split_spaces-some (c ∷ cs) =
    let (first, (rest, e)) = split_spaces-some cs in
    elim (Bool-cases (c == b' ')) [
      | inl space ↦ ([], (first ∷ rest, rw (space, e)))
      | inr other ↦ (c ∷ first, (rest, rw (other, e)))
    ]

joined-cons :
    (c : ℕ) (first : List ℕ) (rest : List (List ℕ))
    → joined ((c ∷ first) ∷ rest) ≡ u8 c ∷ joined (first ∷ rest)
unfolding joined latin1_bytes
joined-cons c first [] = refl
joined-cons c first (raw ∷ rest) = refl

joined-split_step :
    (c : ℕ) (cs first : List ℕ) (rest : List (List ℕ))
    → split_spaces cs ≡ first ∷ rest
    → joined (first ∷ rest) ≡ latin1_bytes cs
    → joined (split_spaces (c ∷ cs)) ≡ latin1_bytes (c ∷ cs)
unfolding split_spaces latin1_bytes
joined-split_step c cs first rest e ih = elim (Bool-cases (c == b' ')) [
  | inl space ↦
      let is_space : u8 c ≡ b' ' = ground arith in
      rw (space, e, is_space) (unfold joined latin1_bytes in ap (λ t. b' ' ∷ t) ih)
  | inr other ↦ rw (other, e) (joined-cons c first rest ∙ ap (λ t. u8 c ∷ t) ih)
]

joined-split_spaces : (text : List ℕ) → joined (split_spaces text) ≡ latin1_bytes text
joined-split_spaces [] = unfold split_spaces latin1_bytes joined in refl
joined-split_spaces (c ∷ cs) =
    let (first, (rest, e)) = split_spaces-some cs in
    joined-split_step c cs first rest e (ap joined (sym e) ∙ joined-split_spaces cs)

module _ (dictionary : Dictionary) where
  -- The bits of a prefix and of the codewords of the first characters of a text.
  abbrev pub Packs : List ℕ → List Bool → ℕ × ℕ × ℕ → Type 0
  Packs text prefix (value, rem, consumed) =
      (value < 2 ^ 64)
      × (rem < 256)
      × (consumed ≤ length text)
      × ((ts : List Token) × ((n : ℕ) × Present dictionary ts
            × (bits72 value rem ≡ (prefix ++ tokens_bits ts) ++ (false ∷ replicate n true))
            × (tokens_text dictionary ts ≡ take consumed (latin1_bytes text))
            × ((consumed ≡ length text)
                ⊎ (frame_bits ≤ length prefix + length (tokens_bits ts) + 25))))

  finish_frame-Packs :
      (text : List ℕ) (prefix : List Bool) (frame : Frame) (ahead behind : List ℕ)
      → ahead ++ behind ≡ latin1_bytes text
      → Coded dictionary prefix ahead frame
      → (length behind ≡ 0) ⊎ (frame_bits ≤ frame.bit_len + 25)
      → Packs text prefix (finish_frame frame)
  finish_frame-Packs text prefix frame ahead behind e (fit, short, chars, (ts, there, bits, done))
        tight =
      let (value, rem, count, all) = finish_frame-bits72 frame fit short in
      let size = length-append ahead behind in
      let whole : length (ahead ++ behind) ≡ length text =
        ap length e ∙ (unfold latin1_bytes in length-map text _) in
      let taken : (finish_frame frame).2 ≡ length ahead = count ∙ chars in
      let used : frame.bit_len ≡ length prefix + length (tokens_bits ts) = omega (
        arith,
        length-bits_of frame.bit_len frame.bits,
        ap length (bits),
        length-append prefix (tokens_bits ts),
      ) in
      (
        value,
        rem,
        omega (arith, taken, size, whole),
        (
          ts,
          (
            71 - frame.bit_len,
            there,
            all ∙ ap (λ t. t ++ (false ∷ replicate (71 - frame.bit_len) true)) bits,
            rw taken
                (done ∙ sym (take-append_self ahead behind) ∙ ap (λ t. take (length ahead) t) e),
            elim tight [
              | inl none_left ↦ inl (omega (arith, taken, size, whole))
              | inr no_room ↦ inr (omega (arith, used))
            ],
          ),
        ),
      )

  finished-Packs :
      (text : List ℕ) (prefix : List Bool) (progress : Progress)
      → Reached dictionary prefix [] (latin1_bytes text) progress
      → (r : ℕ × ℕ × ℕ) × (finished progress ≡ some r) × Packs text prefix r
  finished-Packs text prefix (full frame) (ahead, (behind, e, coded, tight)) = (
    finish_frame frame,
    refl,
    finish_frame-Packs text prefix frame ahead behind e coded (inr tight),
  )
  finished-Packs text prefix (next frame) coded = (
    finish_frame frame,
    refl,
    finish_frame-Packs text prefix frame (latin1_bytes text) [] (append-nil (latin1_bytes text))
        coded (inl refl),
  )
  finished-Packs text prefix out_of_rounds h = absurd h

  prefix-Coded :
      (prefix : List Bool)
      → length prefix < frame_bits
      → Coded dictionary prefix []
          (record { bits = prefix_bits 0 prefix; bit_len = length prefix; consumed = 0 })
  unfolding tokens_bits tokens_text bits_of bits_before
  prefix-Coded prefix short =
      let (fit, bits) = prefix_bits-bits_of prefix 0 0 (omega arith) (omega arith) in
      let whole : 0 + length prefix ≡ length prefix = omega arith in
      (
        subst (λ t. prefix_bits 0 prefix < 2 ^ t) whole fit,
        short,
        refl,
        (
          [],
          tt,
          subst (λ t. bits_of t (prefix_bits 0 prefix) ≡ prefix) whole bits
              ∙ sym (append-nil prefix),
          refl,
        ),
      )

  pub compress_frame-Packs :
      (text : List ℕ) (prefix : List Bool)
      → IsTable dictionary
      → length prefix < frame_bits
      → CoversWords dictionary (split_spaces text)
      → (r : ℕ × ℕ × ℕ) × (compress_frame dictionary text prefix ≡ some r) × Packs text prefix r
  unfolding compress_frame
  compress_frame-Packs text prefix table short covers = finished-Packs text prefix _ (
      rw (sym (joined-split_spaces text)) (
        words_loop-Reached dictionary (split_spaces text) _ prefix [] table covers
          (prefix-Coded prefix short)))
