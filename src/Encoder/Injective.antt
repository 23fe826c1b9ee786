-- ===== src/Encoder/Injective.antt =====
-- Different messages are sent as different tones.
use js8rs.Prelude.{
  ℕ, ◌+◌, ◌*◌, ◌%◌, ◌<◌, ◌≡◌, refl, ap, sym, ◌∙◌, Bool, true, none, some, List, [], ◌∷◌, ◌++◌,
  length, get_or, All, ◌==◌, all_below, all_below_sound, ok, arith,
}
use js8rs.Protocol.{Submode}
use js8rs.Varicode.Alphabet.{find_char}
use js8rs.Encoder.{alphabet64, encode}
use js8rs.Encoder.Crc12.{crc12-lt}
use js8rs.Encoder.Tones.{first_invalid, place, place-lt, encode-length, error-encode, error_of}
use js8rs.Encoder.Payload.{sextets, encode-payload}

placed : ℕ → Bool
placed c = elim (find_char alphabet64 c) [ none ↦ true | some i ↦ get_or alphabet64 i 0 == c ]

placed_table : all_below 256 placed ≡ true
unfolding all_below placed find_char
placed_table = refl

-- A valid character is the one at its place, and what follows it is valid too.
first_invalid-cons :
    (c : ℕ) (cs : List ℕ)
    → c < 256
    → first_invalid (c ∷ cs) ≡ none
    → (get_or alphabet64 (place c) 0 ≡ c) × (first_invalid cs ≡ none)
unfolding first_invalid place placed
first_invalid-cons c cs h e = let t = all_below_sound 256 placed c placed_table h in ground arith

sextets-inj :
    (v w : ℕ) (cs ds : List ℕ)
    → length cs ≡ length ds
    → All (λ c. c < 256) cs
    → All (λ c. c < 256) ds
    → first_invalid cs ≡ none
    → first_invalid ds ≡ none
    → sextets v cs ≡ sextets w ds
    → (v ≡ w) × (cs ≡ ds)
unfolding sextets
sextets-inj v w [] [] hl hc hd ec ed e = (e, refl)
sextets-inj v w [] (d ∷ ds) hl hc hd ec ed e = absurd (omega arith)
sextets-inj v w (c ∷ cs) [] hl hc hd ec ed e = absurd (omega arith)
sextets-inj v w (c ∷ cs) (d ∷ ds) hl (hc, hcs) (hd, hds) ec ed e =
    let (atc, ecs) = first_invalid-cons c cs hc ec in
    let (atd, eds) = first_invalid-cons d ds hd ed in
    let (values, rest) =
      sextets-inj (v * 64 + place c) (w * 64 + place d) cs ds (omega arith) hcs hds ecs eds e in
    let places : place c ≡ place d = omega (arith, values, place-lt c hc, place-lt d hd) in
    let heads : c ≡ d = sym atc ∙ ap (λ i. get_or alphabet64 i 0) places ∙ atd in
    (omega (arith, values, places), rw (heads, rest) refl)

encode-first_invalid :
    (typ : ℕ) (submode : Submode) (message tones : List ℕ)
    → All (λ c. c < 256) message
    → encode typ submode message ≡ ok tones
    → first_invalid message ≡ none
encode-first_invalid typ submode message tones h e =
    let n = encode-length typ submode message tones e in
    let f = error-encode typ submode message h in let g = ap error_of e in ground (arith, n, f, g)

-- When two messages of bytes are encoded to the same tones, in whatever submodes, the messages are
-- equal and so are the low three bits of their types.
pub encode-inj :
    (typ1 typ2 : ℕ) (submode1 submode2 : Submode) (message1 message2 tones : List ℕ)
    → All (λ c. c < 256) message1
    → All (λ c. c < 256) message2
    → encode typ1 submode1 message1 ≡ ok tones
    → encode typ2 submode2 message2 ≡ ok tones
    → (message1 ≡ message2) × (typ1 % 8 ≡ typ2 % 8)
encode-inj typ1 typ2 submode1 submode2 message1 message2 tones h1 h2 e1 e2 =
    let (packed1, p1, o1) = encode-payload typ1 submode1 message1 tones h1 e1 in
    let (packed2, p2, o2) = encode-payload typ2 submode2 message2 tones h2 e2 in
    let c1 = crc12-lt (packed1 ++ (typ1 % 8 * 32 ∷ 0 ∷ [])) in
    let c2 = crc12-lt (packed2 ++ (typ2 % 8 * 32 ∷ 0 ∷ [])) in
    let same = sym o1 ∙ o2 in
    let parts : (sextets 0 message1 ≡ sextets 0 message2) × (typ1 % 8 ≡ typ2 % 8) =
      (omega (arith, same, c1, c2), omega (arith, same, c1, c2)) in
    let n1 = encode-length typ1 submode1 message1 tones e1 in
    let n2 = encode-length typ2 submode2 message2 tones e2 in
    let f1 = encode-first_invalid typ1 submode1 message1 tones h1 e1 in
    let f2 = encode-first_invalid typ2 submode2 message2 tones h2 e2 in
    ((sextets-inj 0 0 message1 message2 (n1 ∙ sym n2) h1 h2 f1 f2 parts.0).1, parts.1)
