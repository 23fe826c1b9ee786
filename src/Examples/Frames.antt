-- ===== src/Examples/Frames.antt =====
-- Concrete packed frames of src/varicode/mod.rs.
use js8rs.Prelude.{
  ℕ, ◌+◌, ◌*◌, ◌%◌, ◌^◌, ◌<◌, ◌≤◌, ◌≡◌, ◌≢◌, refl, true, some, List, [], ◌∷◌, length, codes,
  to_ascii_uppercase, is_ascii_digit, arith,
}
use js8rs.Varicode.Pack72.{pack72bits, unpack72bits}
use js8rs.Varicode.Pack72.RoundTrip.{unpack72bits-pack72bits}
use js8rs.Varicode.Alnum50.{
  pack_alpha_numeric50, unpack_alpha_numeric50, strip_spaces, alnum_word, keep_indexed, alnum_idx,
  pack_word, is_slash, lay_out, make_room, needs_space, insert_space,
}
use js8rs.Varicode.Alnum50.RoundTrip.{AtFirstOnly, kept, unpack-pack_alpha_numeric50}
use js8rs.Varicode.Compound.{pack_compound_frame, unpack_compound_frame}
use js8rs.Varicode.Compound.RoundTrip.{unpack-pack_compound_frame}
use js8rs.Varicode.Grid.{pack_grid, unpack_grid, grid_letter}
use js8rs.Varicode.Grid.RoundTrip.{unpack_grid-pack_grid, pack_grid-unpack_grid}

unpack72bits-pack72bits_example :
    unpack72bits (pack72bits 0x0123456789abcdef 0x5a) ≡ some (0x0123456789abcdef, 0x5a)
unpack72bits-pack72bits_example =
    unpack72bits-pack72bits 0x0123456789abcdef 0x5a (omega arith) (omega arith)

-- A stand-in for the CRC-16 of the crate `crc`.
abbrev sum16 : List ℕ → ℕ
sum16 [] = 0
sum16 (c ∷ s) = (31 * sum16 s + c) % 65536

-- A call with a suffix.
abbrev portable_call : List ℕ
portable_call = codes "KN4CRD/P"

portable_call-AtFirstOnly : AtFirstOnly portable_call
unfolding keep_indexed
portable_call-AtFirstOnly = ground arith

portable_call-short : length (kept portable_call) ≤ 9
unfolding keep_indexed alnum_idx
portable_call-short = omega arith

unpack-pack_alpha_numeric50_example :
    (unpack_alpha_numeric50 (pack_alpha_numeric50 portable_call)
      ≡ strip_spaces (kept portable_call))
    × (pack_alpha_numeric50 portable_call < 2 ^ 50)
unpack-pack_alpha_numeric50_example =
    unpack-pack_alpha_numeric50 portable_call portable_call-AtFirstOnly portable_call-short

portable_call-packs : pack_alpha_numeric50 portable_call ≢ 0
unfolding pack_alpha_numeric50 pack_word alnum_word keep_indexed alnum_idx is_slash lay_out
    make_room needs_space insert_space
portable_call-packs e = absurd (omega (arith, e))

unpack-pack_compound_frame_example :
    unpack_compound_frame (pack_compound_frame portable_call 2 12345 5)
    ≡ some (record {
      parts = strip_spaces (alnum_word portable_call) ∷ [] ∷ [];
      ty = 2;
      num = 12345;
      bits3 = 5;
    })
unpack-pack_compound_frame_example =
    unpack-pack_compound_frame portable_call 2 12345 5 portable_call-AtFirstOnly portable_call-packs
      (omega arith, omega arith, omega arith) (omega arith) (omega arith)

letter_e : grid_letter b'R' b'e' ≡ true
unfolding grid_letter to_ascii_uppercase
letter_e = refl

letter_m : grid_letter b'R' b'M' ≡ true
unfolding grid_letter to_ascii_uppercase
letter_m = refl

unpack_grid-pack_grid_example :
    unpack_grid (pack_grid (b'e' ∷ b'M' ∷ b'7' ∷ b'3' ∷ [])) ≡ b'E' ∷ b'M' ∷ b'7' ∷ b'3' ∷ []
unfolding is_ascii_digit to_ascii_uppercase
unpack_grid-pack_grid_example =
    unpack_grid-pack_grid b'e' b'M' b'7' b'3' [] letter_e letter_m refl refl

pack_grid-unpack_grid_example : pack_grid (unpack_grid 12345) ≡ 12345
pack_grid-unpack_grid_example = pack_grid-unpack_grid 12345 (omega arith)
