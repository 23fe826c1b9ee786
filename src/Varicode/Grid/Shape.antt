-- ===== src/Varicode/Grid/Shape.antt =====
-- The text of a four-character locator.
use js8rs.Prelude.{
  ℕ, ◌≤◌, ◌<◌, ◌≡◌, ◌≢◌, refl, true, List, [], ◌∷◌, ◌++◌, length, All, as_bytes, utf8_char,
  to_ascii_uppercase, is_ascii_digit, arith,
}
use js8rs.Varicode.Grid.{grid_letter, grid_pairs, is_grid}

-- A first byte that is ASCII is the first character.
first_byte :
    (c : ℕ) (s : List ℕ) (b : ℕ) (bytes : List ℕ)
    → as_bytes (c ∷ s) ≡ b ∷ bytes
    → b < 0xc0
    → (c ≡ b) × (as_bytes s ≡ bytes)
unfolding as_bytes utf8_char
first_byte c s b bytes e h = ground arith

-- Two letters and two digits.
pub record IsSquare (b0 b1 b2 b3 : ℕ) : Type 0 where
  pub east : grid_letter b'R' b0 ≡ true
  pub north : grid_letter b'R' b1 ≡ true
  pub east_digit : is_ascii_digit b2 ≡ true
  pub north_digit : is_ascii_digit b3 ≡ true

abbrev pub Square : List ℕ → Type 0
Square s =
    (b0 b1 b2 b3 : ℕ) × (rest : List ℕ) × (s ≡ b0 ∷ b1 ∷ b2 ∷ b3 ∷ rest) × IsSquare b0 b1 b2 b3

Square-bytes : (bytes : List ℕ) → 4 ≤ length bytes → grid_pairs 0 bytes ≡ true → Square bytes
unfolding grid_pairs
Square-bytes [] n h = absurd (omega arith)
Square-bytes (b0 ∷ []) n h = absurd (omega arith)
Square-bytes (b0 ∷ b1 ∷ []) n h = absurd (omega arith)
Square-bytes (b0 ∷ b1 ∷ b2 ∷ []) n h = absurd (omega arith)
Square-bytes (b0 ∷ b1 ∷ b2 ∷ b3 ∷ bytes) n h = (
  b0,
  b1,
  b2,
  b3,
  bytes,
  refl,
  record {
    east = ground arith;
    north = ground arith;
    east_digit = ground arith;
    north_digit = ground arith;
  },
)

square-small :
    (b0 b1 b2 b3 : ℕ) → IsSquare b0 b1 b2 b3 → (b0 < 0xc0) × (b1 < 0xc0) × (b2 < 0xc0) × (b3 < 0xc0)
unfolding grid_letter is_ascii_digit to_ascii_uppercase
square-small b0 b1 b2 b3 q =
    let h0 = q.east in
    let h1 = q.north in
    let h2 = q.east_digit in
    let h3 = q.north_digit in (ground arith, ground arith, ground arith, ground arith)

nil_bytes : (b : ℕ) (bytes : List ℕ) → as_bytes [] ≢ b ∷ bytes
unfolding as_bytes
nil_bytes b bytes e = cc

ascii_chars :
    (s bs rest : List ℕ)
    → length s ≤ length bs
    → as_bytes s ≡ bs ++ rest
    → All (λ b. b < 0xc0) bs
    → s ≡ bs
ascii_chars [] [] rest n e h = refl
ascii_chars [] (b ∷ bs) rest n e h = absurd (nil_bytes b (bs ++ rest) e)
ascii_chars (x ∷ s) [] rest n e h = absurd (omega arith)
ascii_chars (x ∷ s) (b ∷ bs) rest n e (hb, h) =
    let (same, behind) = first_byte x s b (bs ++ rest) e hb in
    let tail = ascii_chars s bs rest (omega arith) behind h in cc

-- A locator of at most four characters is two letters and two digits.
pub is_grid-Square :
    (s : List ℕ)
    → length s ≤ 4
    → is_grid s ≡ true
    → (b0 b1 b2 b3 : ℕ) × (s ≡ b0 ∷ b1 ∷ b2 ∷ b3 ∷ []) × IsSquare b0 b1 b2 b3
is_grid-Square s n h =
    let long : 4 ≤ length (as_bytes s) = unfold is_grid in ground arith in
    let pairs : grid_pairs 0 (as_bytes s) ≡ true = unfold is_grid in ground arith in
    let (b0, b1, b2, b3, bytes, e, q) = Square-bytes (as_bytes s) long pairs in
    (
      b0,
      b1,
      b2,
      b3,
      ascii_chars s (b0 ∷ b1 ∷ b2 ∷ b3 ∷ []) bytes n e (
          let small = square-small b0 b1 b2 b3 q in (small.0, (small.1, (small.2, (small.3, tt))))),
      q,
    )
