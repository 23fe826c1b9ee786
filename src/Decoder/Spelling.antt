-- ===== src/Decoder/Spelling.antt =====
-- Numbers that are spelt in digits of some bits, and their bits.
use js8rs.Prelude.{
  ℕ, suc, ◌+◌, ◌*◌, ◌/◌, ◌%◌, ◌^◌, ◌<◌, ◌≡◌, refl, sym, ap, ◌∙◌, Bool, List, [], ◌∷◌, ◌++◌, length,
  map, All, ◌==◌, arith,
}
use js8rs.Varicode.Bits.{bit_value}
use js8rs.Varicode.Bits.Laws.{bits_of, bits_before, bits_of-fields}
use js8rs.Encoder.{be_value}
use js8rs.Encoder.Payload.{octal, sextets}
use js8rs.Encoder.Tones.{place}
use js8rs.Decoder.Bytes.{chunks}
use mathlib.Core.List.{append_assoc, append-nil}

unfoldable spell : ℕ → ℕ → List ℕ → ℕ
spell w v [] = v
spell w v (d ∷ ds) = spell w (v * 2 ^ w + d) ds

spell-bits :
    (w k v : ℕ) (ds : List ℕ)
    → All (λ d. d < 2 ^ w) ds
    → bits_of (w * length ds + k) (spell w v ds) ≡ bits_of k v ++ chunks w ds
unfolding spell chunks
spell-bits w k v [] h =
    ap (λ n. bits_of n v) {x = w * 0 + k} {y = k} (omega arith) ∙ sym (append-nil (bits_of k v))
spell-bits w k v (d ∷ ds) (hd, h) =
    ap (λ n. bits_of n (spell w (v * 2 ^ w + d) ds)) {x = w * suc (length ds) + k}
      {y = w * length ds + (w + k)} (ground arith)
    ∙ spell-bits w (w + k) (v * 2 ^ w + d) ds h
    ∙ ap (λ t. t ++ chunks w ds) (bits_of-fields k w v d hd)
    ∙ append_assoc (bits_of k v) (bits_of w d) (chunks w ds)

octal-spell : (v : ℕ) (ds : List ℕ) → octal v ds ≡ spell 3 v ds
unfolding octal spell
octal-spell v [] = refl
octal-spell v (d ∷ ds) = octal-spell (v * 8 + d) ds

be_value-spell : (v : ℕ) (ds : List ℕ) → be_value v ds ≡ spell 8 v ds
unfolding be_value spell
be_value-spell v [] = refl
be_value-spell v (d ∷ ds) = be_value-spell (v * 256 + d) ds

sextets-spell : (v : ℕ) (cs : List ℕ) → sextets v cs ≡ spell 6 v (map place cs)
unfolding sextets spell
sextets-spell v [] = refl
sextets-spell v (c ∷ cs) = sextets-spell (v * 64 + place c) cs

empty-front :
    (n x : ℕ) (bits : List Bool) → bits_of (n + 0) x ≡ bits_of 0 0 ++ bits → bits_of n x ≡ bits
unfolding bits_of bits_before
empty-front n x bits e = ap (λ k. bits_of k x) {x = n} {y = n + 0} (omega arith) ∙ e

pub octal-bits :
    (tones : List ℕ)
    → All (λ t. t < 8) tones
    → bits_of (3 * length tones) (octal 0 tones) ≡ chunks 3 tones
octal-bits tones h = rw (octal-spell 0 tones) (empty-front _ _ _ (spell-bits 3 0 0 tones h))

pub be_value-bits :
    (bytes : List ℕ)
    → All (λ b. b < 256) bytes
    → bits_of (8 * length bytes) (be_value 0 bytes) ≡ chunks 8 bytes
be_value-bits bytes h = rw (be_value-spell 0 bytes) (empty-front _ _ _ (spell-bits 8 0 0 bytes h))

pub sextets-bits :
    (cs : List ℕ)
    → All (λ p. p < 64) (map place cs)
    → bits_of (6 * length (map place cs)) (sextets 0 cs) ≡ chunks 6 (map place cs)
sextets-bits cs h = rw (sextets-spell 0 cs) (empty-front _ _ _ (spell-bits 6 0 0 (map place cs) h))

-- The three bits of each tone, the highest first.
unfoldable pub tone_bits : List ℕ → List ℕ
tone_bits [] = []
tone_bits (t ∷ tones) = (t / 4 % 2) ∷ (t / 2 % 2) ∷ (t % 2) ∷ tone_bits tones

bit_value-parity : (n : ℕ) → bit_value (n % 2 == 1) ≡ n % 2
bit_value-parity n = ground arith

pub tone_bits-chunks : (tones : List ℕ) → tone_bits tones ≡ map bit_value (chunks 3 tones)
unfolding tone_bits chunks bits_of bits_before
tone_bits-chunks [] = refl
tone_bits-chunks (t ∷ tones) =
    let high : bit_value (t / 2 / 2 % 2 == 1) ≡ t / 4 % 2 =
      bit_value-parity (t / 2 / 2) ∙ omega arith in
    rw (high, bit_value-parity (t / 2), bit_value-parity t, tone_bits-chunks tones)
