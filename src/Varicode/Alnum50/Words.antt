-- ===== src/Varicode/Alnum50/Words.antt =====
-- Eleven-byte words: packing loses nothing, and the bytes of a text are laid out as such a word.
use js8rs.Prelude.{ℕ, ◌+◌, ◌*◌, ◌/◌, ◌%◌, ◌^◌, ◌<◌, ◌≡◌, refl, ◌⊎◌, arith, List, [], ◌∷◌}
use js8rs.Varicode.Alnum50.{alnum_idx, alnum_byte, is_slash, pack_word, unpack_word, separator}

-- A byte of the first place, of an inner place, and a separator.
abbrev pub IsFirst : ℕ → Type 0
IsFirst b = alnum_idx b < 39

abbrev pub IsInner : ℕ → Type 0
IsInner b = alnum_idx b < 38

abbrev pub IsSeparator : ℕ → Type 0
IsSeparator b = (b ≡ b' ') ⊎ (b ≡ b'/')

alnum_byte-alnum_idx : (b : ℕ) → IsFirst b → alnum_byte (alnum_idx b) ≡ b
unfolding alnum_idx alnum_byte
alnum_byte-alnum_idx b h = ground arith

separator-is_slash : (b q : ℕ) → IsSeparator b → separator (q * 2 + is_slash b) ≡ b
unfolding separator is_slash
separator-is_slash b q h = ground arith

div_38 : (q d : ℕ) → d < 38 → (q * 38 + d) / 38 ≡ q
div_38 q d h = omega arith

mod_38 : (q d : ℕ) → d < 38 → (q * 38 + d) % 38 ≡ d
mod_38 q d h = omega arith

div_2 : (q d : ℕ) → d < 2 → (q * 2 + d) / 2 ≡ q
div_2 q d h = omega arith

mod_39 : (d : ℕ) → d < 39 → d % 39 ≡ d
mod_39 d h = omega arith

is_slash-lt : (b : ℕ) → is_slash b < 2
unfolding is_slash
is_slash-lt b = ground arith

-- The places of a number given by its digits.
module _ (i0 i1 i2 i3 i4 i5 i6 i7 i8 i9 i10 : ℕ) where
  unpack_word-digits :
      (i0 < 39)
        × (i1 < 38)
        × (i2 < 38)
        × (i3 < 2)
        × (i4 < 38)
        × (i5 < 38)
        × (i6 < 38)
        × (i7 < 2)
        × (i8 < 38)
        × (i9 < 38)
        × (i10 < 38)
      → unpack_word (
          (((((((((i0 * 38 + i1) * 38 + i2) * 2 + i3) * 38 + i4) * 38 + i5) * 38 + i6) * 2 + i7)
                    * 38
                  + i8)
                * 38
              + i9)
            * 38
          + i10)
        ≡ alnum_byte i0
          ∷ alnum_byte i1
          ∷ alnum_byte i2
          ∷ separator (((i0 * 38 + i1) * 38 + i2) * 2 + i3)
          ∷ alnum_byte i4
          ∷ alnum_byte i5
          ∷ alnum_byte i6
          ∷ separator
              (((((((i0 * 38 + i1) * 38 + i2) * 2 + i3) * 38 + i4) * 38 + i5) * 38 + i6) * 2 + i7)
          ∷ alnum_byte i8
          ∷ alnum_byte i9
          ∷ alnum_byte i10
          ∷ []
  unfolding unpack_word
  unpack_word-digits h =
      rw
        (
          div_38
              (((((((((i0 * 38 + i1) * 38 + i2) * 2 + i3) * 38 + i4) * 38 + i5) * 38 + i6) * 2 + i7)
                      * 38
                    + i8)
                  * 38
                + i9)
              i10 (omega arith),
          mod_38
              (((((((((i0 * 38 + i1) * 38 + i2) * 2 + i3) * 38 + i4) * 38 + i5) * 38 + i6) * 2 + i7)
                      * 38
                    + i8)
                  * 38
                + i9)
              i10 (omega arith),
          div_38
              ((((((((i0 * 38 + i1) * 38 + i2) * 2 + i3) * 38 + i4) * 38 + i5) * 38 + i6) * 2 + i7)
                  * 38
                + i8)
              i9 (omega arith),
          mod_38
              ((((((((i0 * 38 + i1) * 38 + i2) * 2 + i3) * 38 + i4) * 38 + i5) * 38 + i6) * 2 + i7)
                  * 38
                + i8)
              i9 (omega arith),
          div_38
              (((((((i0 * 38 + i1) * 38 + i2) * 2 + i3) * 38 + i4) * 38 + i5) * 38 + i6) * 2 + i7)
              i8 (omega arith),
          mod_38
              (((((((i0 * 38 + i1) * 38 + i2) * 2 + i3) * 38 + i4) * 38 + i5) * 38 + i6) * 2 + i7)
              i8 (omega arith),
          div_2 ((((((i0 * 38 + i1) * 38 + i2) * 2 + i3) * 38 + i4) * 38 + i5) * 38 + i6) i7
              (omega arith),
          div_38 (((((i0 * 38 + i1) * 38 + i2) * 2 + i3) * 38 + i4) * 38 + i5) i6 (omega arith),
          mod_38 (((((i0 * 38 + i1) * 38 + i2) * 2 + i3) * 38 + i4) * 38 + i5) i6 (omega arith),
          div_38 ((((i0 * 38 + i1) * 38 + i2) * 2 + i3) * 38 + i4) i5 (omega arith),
          mod_38 ((((i0 * 38 + i1) * 38 + i2) * 2 + i3) * 38 + i4) i5 (omega arith),
          div_38 (((i0 * 38 + i1) * 38 + i2) * 2 + i3) i4 (omega arith),
          mod_38 (((i0 * 38 + i1) * 38 + i2) * 2 + i3) i4 (omega arith),
          div_2 ((i0 * 38 + i1) * 38 + i2) i3 (omega arith),
          div_38 (i0 * 38 + i1) i2 (omega arith),
          mod_38 (i0 * 38 + i1) i2 (omega arith),
          div_38 i0 i1 (omega arith),
          mod_38 i0 i1 (omega arith),
          mod_39 i0 (omega arith),
        )
        refl

module _ (w0 w1 w2 w3 w4 w5 w6 w7 w8 w9 w10 : ℕ) where
  abbrev pub word : List ℕ
  word = w0 ∷ w1 ∷ w2 ∷ w3 ∷ w4 ∷ w5 ∷ w6 ∷ w7 ∷ w8 ∷ w9 ∷ w10 ∷ []

  pub record IsWord : Type 0 where
    pub place0 : IsFirst w0
    pub place1 : IsInner w1
    pub place2 : IsInner w2
    pub place3 : IsSeparator w3
    pub place4 : IsInner w4
    pub place5 : IsInner w5
    pub place6 : IsInner w6
    pub place7 : IsSeparator w7
    pub place8 : IsInner w8
    pub place9 : IsInner w9
    pub place10 : IsInner w10

  -- The word as a number whose digits are the places.
  pack_word-digits :
      pack_word word
      ≡ (((((((((alnum_idx w0 * 38 + alnum_idx w1) * 38 + alnum_idx w2) * 2 + is_slash w3) * 38
                                + alnum_idx w4)
                              * 38
                            + alnum_idx w5)
                          * 38
                        + alnum_idx w6)
                      * 2
                    + is_slash w7)
                  * 38
                + alnum_idx w8)
              * 38
            + alnum_idx w9)
          * 38
        + alnum_idx w10
  unfolding pack_word
  pack_word-digits = omega arith

  -- Packing eleven places into a number keeps every place.
  pub unpack_word-pack_word : IsWord → unpack_word (pack_word word) ≡ word
  unpack_word-pack_word v =
      rw
        (
          pack_word-digits,
          unpack_word-digits (alnum_idx w0) (alnum_idx w1) (alnum_idx w2) (is_slash w3)
              (alnum_idx w4) (alnum_idx w5) (alnum_idx w6) (is_slash w7) (alnum_idx w8)
              (alnum_idx w9) (alnum_idx w10)
              (
                v.place0,
                v.place1,
                v.place2,
                is_slash-lt w3,
                v.place4,
                v.place5,
                v.place6,
                is_slash-lt w7,
                v.place8,
                v.place9,
                v.place10,
              ),
          alnum_byte-alnum_idx w0 (omega (arith, v.place0)),
          alnum_byte-alnum_idx w1 (omega (arith, v.place1)),
          alnum_byte-alnum_idx w2 (omega (arith, v.place2)),
          separator-is_slash w3 _ v.place3,
          alnum_byte-alnum_idx w4 (omega (arith, v.place4)),
          alnum_byte-alnum_idx w5 (omega (arith, v.place5)),
          alnum_byte-alnum_idx w6 (omega (arith, v.place6)),
          separator-is_slash w7 _ v.place7,
          alnum_byte-alnum_idx w8 (omega (arith, v.place8)),
          alnum_byte-alnum_idx w9 (omega (arith, v.place9)),
          alnum_byte-alnum_idx w10 (omega (arith, v.place10)),
        )
        refl

  -- A packed word fits 50 bits.
  pub pack_word-lt : IsWord → pack_word word < 2 ^ 50
  pack_word-lt v = rw pack_word-digits (
      omega (
        arith,
        is_slash-lt w3,
        is_slash-lt w7,
        v.place0,
        v.place1,
        v.place2,
        v.place4,
        v.place5,
        v.place6,
        v.place8,
        v.place9,
        v.place10,
      ))
