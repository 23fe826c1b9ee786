-- ===== src/Varicode/Grid.antt =====
-- src/varicode/mod.rs: a four-character Maidenhead locator in 15 bits, and `is_grid` of
-- src/command.rs.
pub mod RoundTrip
pub mod Shape
use js8rs.Prelude.{
  ℕ, suc, ◌+◌, ◌-◌, ◌*◌, ◌/◌, ◌%◌, ◌^◌, Bool, true, false, ◌&&◌, ◌||◌, List, [], ◌∷◌, length, ltb,
  leb, ◌==◌, if◌then◌else◌, u8, codes, trim, as_bytes, to_ascii_uppercase, is_ascii_digit,
}
use js8rs.Prelude.Int.{ℤ, pos, negsuc, sub_ℕ, leb_ℤ, ◌+ℤ◌, ◌-ℤ◌, ◌*ℤ◌}

abbrev pub nbasegrid : ℕ
nbasegrid = 180 * 180

abbrev pub nusergrid : ℕ
nusergrid = nbasegrid + 10

abbrev pub nmaxgrid : ℕ
nmaxgrid = 2 ^ 15 - 1

-- `i32::midpoint`, rounded towards zero.
unfoldable pub half : ℤ → ℤ
half (pos n) = pos (n / 2)
half (negsuc n) = sub_ℕ 0 ((n + 1) / 2)

unfoldable pub midpoint : ℤ → ℤ → ℤ
midpoint a b = half (a +ℤ b)

-- `as u16` of an `i32`.
unfoldable pub wrap_u16 : ℤ → ℕ
wrap_u16 (pos n) = n % 2 ^ 16
wrap_u16 (negsuc n) = 2 ^ 16 - 1 - n % 2 ^ 16

-- The number of the four bytes, as distances from `A` and `0`.
unfoldable pub grid_number : ℤ → ℤ → ℤ → ℤ → ℕ
grid_number a b c d =
    let ilong =
      pos 178 -ℤ pos 20 *ℤ a -ℤ pos 2 *ℤ c +ℤ (if leb_ℤ (pos 9) a then pos 1 else pos 0) in
    let lon = midpoint ilong (pos 180) in wrap_u16 (lon *ℤ pos 180 +ℤ pos 10 *ℤ b +ℤ d)

unfoldable pub pack_grid_bytes : List ℕ → ℕ
pack_grid_bytes (b0 ∷ b1 ∷ b2 ∷ b3 ∷ bytes) =
    grid_number (sub_ℕ (to_ascii_uppercase b0) b'A') (sub_ℕ (to_ascii_uppercase b1) b'A')
      (sub_ℕ b2 b'0') (sub_ℕ b3 b'0')
pack_grid_bytes bytes = 2 ^ 15 - 1

unfoldable pub pack_grid : List ℕ → ℕ
pack_grid value = pack_grid_bytes (as_bytes (trim value))

-- `lon` and `lat` are at most 179 here, so the `i16` arithmetic is that of ℕ.
unfoldable pub unpack_grid : ℕ → List ℕ
unpack_grid value =
    if ltb nbasegrid value
    then []
    else if value == nbasegrid
    then codes "RA90"
    else (let lat = value % 180 in
        let lon = 179 - value / 180 in
        u8 (b'A' + lon / 10)
        ∷ u8 (b'A' + lat / 10)
        ∷ u8 (b'0' + lon % 10)
        ∷ u8 (b'0' + lat % 10)
        ∷ [])

-- One pair of `chunks_exact(2)`: letters in even pairs, digits in odd ones.
unfoldable pub grid_letter : ℕ → ℕ → Bool
grid_letter most byte = leb b'A' (to_ascii_uppercase byte) && leb (to_ascii_uppercase byte) most

unfoldable pub grid_pairs : ℕ → List ℕ → Bool
unfolding grid_letter
grid_pairs pair (x ∷ y ∷ bytes) =
    (if pair % 2 == 0
      then (let most = if pair == 0 then b'R' else b'X' in grid_letter most x && grid_letter most y)
      else is_ascii_digit x && is_ascii_digit y)
    && grid_pairs (pair + 1) bytes
grid_pairs pair bytes = true

unfoldable pub is_grid : List ℕ → Bool
unfolding grid_pairs
is_grid grid =
    let bytes = as_bytes grid in
    let n = length bytes in (n == 4 || n == 6 || n == 8 || n == 10 || n == 12) && grid_pairs 0 bytes
