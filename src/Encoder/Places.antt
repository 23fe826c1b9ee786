-- ===== src/Encoder/Places.antt =====
-- The places of the tones of a frame: pattern, parity, pattern, data, pattern.
use js8rs.Prelude.{ℕ, zero, suc, ◌+◌, ◌≡◌, refl, List, [], ◌∷◌, ◌++◌, take, drop}
use js8rs.Submodes.{CostasType, original, modified}
use js8rs.Encoder.{
  for_type, lay_tones, copy_at, patterns_loop, symbols_loop, parity_tone, data_tone,
}

-- The tones of symbols, from `symbol` on.
unfoldable pub tones_from : (ℕ → ℕ) → ℕ → ℕ → List ℕ
tones_from tone zero symbol = []
tones_from tone (suc rounds) symbol = tone symbol ∷ tones_from tone rounds (symbol + 1)

-- The loops fill all the places.
pub lay_tones_lem :
    (t : CostasType) (bits : ℕ)
    → let c = for_type t in
      lay_tones c bits
      ≡ c.first
        ++ (tones_from (parity_tone bits) 29 0
            ++ (c.second ++ (tones_from (data_tone bits) 29 0 ++ c.third)))
unfolding lay_tones for_type tones_from copy_at patterns_loop symbols_loop
lay_tones_lem original bits = refl
lay_tones_lem modified bits = refl

-- The data tones stand behind the second pattern.
pub data_tones-at :
    (t : CostasType) (bits : ℕ)
    → take 29 (drop 43 (lay_tones (for_type t) bits)) ≡ tones_from (data_tone bits) 29 0
unfolding for_type tones_from
data_tones-at original bits = rw (lay_tones_lem original bits) refl
data_tones-at modified bits = rw (lay_tones_lem modified bits) refl
