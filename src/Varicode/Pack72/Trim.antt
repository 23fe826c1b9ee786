-- ===== src/Varicode/Pack72/Trim.antt =====
-- A packed text has nothing to trim, and its first bit is that of the word.
use js8rs.Prelude.{
  ℕ, ◌+◌, ◌*◌, ◌^◌, ◌<◌, ◌≡◌, refl, Bool, false, not, List, [], ◌∷◌, ◌++◌, map, All, arith,
  all_below, all_below_sound, trim, trim_start, trim_end, is_whitespace, trim_start-cons,
  trim_end-cons, bit_and, ◌<<<◌, bit_and_bit, subst,
}
use js8rs.Varicode.Alphabet.{alphabet72_at}
use js8rs.Varicode.Pack72.{pack72bits}
use js8rs.Varicode.Pack72.RoundTrip.{pack72bits-words}
use js8rs.Varicode.Bits.{bits72, test_bits}

abbrev Solid : List ℕ → Type 0
Solid s = All (λ c. is_whitespace c ≡ false) s

trim_end-Solid : (s : List ℕ) → Solid s → trim_end s ≡ s
trim_end-Solid [] h = unfold trim_end in refl
trim_end-Solid (c ∷ s) (hc, h) = rw (trim_end-cons c s hc, trim_end-Solid s h) refl

trim-Solid : (s : List ℕ) → Solid s → trim s ≡ s
unfolding trim
trim-Solid [] h = unfold trim_start trim_end in refl
trim-Solid (c ∷ s) h = rw (trim_start-cons c s h.0) (trim_end-Solid (c ∷ s) h)

at-solid : (w : ℕ) → w < 64 → is_whitespace (alphabet72_at w) ≡ false
unfolding all_below alphabet72_at is_whitespace
at-solid w h =
    let e = all_below_sound 64 (λ w. not (is_whitespace (alphabet72_at w))) w refl h in
    ground (arith, e)

map-Solid : (ws : List ℕ) → All (λ w. w < 64) ws → Solid (map alphabet72_at ws)
map-Solid [] h = tt
map-Solid (w ∷ ws) (hw, h) = (at-solid w hw, map-Solid ws h)

pub trim-pack72bits : (v r : ℕ) → r < 256 → trim (pack72bits v r) ≡ pack72bits v r
trim-pack72bits v r h =
    let (ws, spelled, fits) = pack72bits-words v r h in
    rw spelled (trim-Solid _ (map-Solid ws fits))

pub bits72_first : (v r : ℕ) → v < 2 ^ 63 → (rest : List Bool) × (bits72 v r ≡ false ∷ rest)
bits72_first v r h =
    let same : v + 0 * 2 ^ 63 ≡ v = omega arith in
    let clear : bit_and v (1 <<< 63) ≡ 0 =
      subst (λ t. bit_and t (1 <<< 63) ≡ 0) same (bit_and_bit 63 v 0 h) in
    (test_bits 63 v ++ test_bits 8 r, unfold bits72 test_bits in rw clear refl)
