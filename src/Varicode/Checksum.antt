-- ===== src/Varicode/Checksum.antt =====
-- src/varicode/mod.rs: `pack16bits`, `pack32bits` and the checksums that travel as text. The CRCs
-- are those of the crate `crc`, a parameter here.
use js8rs.Prelude.{
  ℕ, ◌-◌, ◌*◌, ◌/◌, ◌%◌, ◌^◌, ◌<◌, ◌≡◌, refl, ap, ◌↔◌, Bool, true, List, [], ◌∷◌, ◌++◌, length,
  replicate, ltb, if◌then◌else◌, str_eq, str_eq_iff, bit_and, u16, ◌>>>◌, arith,
}
use js8rs.Varicode.Alphabet.{nalphabet, alphabet_at, alphabet_at_inj}

unfoldable pub pack16bits : ℕ → List ℕ
pack16bits p =
    let na = nalphabet in
    let tmp0 = p / (na * na) in
    let tmp1 = (p - tmp0 * (na * na)) / na in
    let tmp2 = p % na in alphabet_at tmp0 ∷ alphabet_at tmp1 ∷ alphabet_at tmp2 ∷ []

-- `(packed & 0xFFFF_0000) >> 16` and `packed & 0x0000_FFFF`, each cast to 16 bits.
unfoldable pub pack32bits : ℕ → List ℕ
pack32bits packed =
    let a = u16 (bit_and packed 0xffff_0000 >>> 16) in
    let b = u16 (bit_and packed 0x0000_ffff) in pack16bits a ++ pack16bits b

-- Padding with spaces up to a length.
unfoldable pub pad_to : ℕ → List ℕ → List ℕ
pad_to n s = if ltb (length s) n then s ++ replicate (n - length s) b' ' else s

-- A CRC of the crate `crc`: a function of the bytes into a word of its width.
module _ (crc : List ℕ → ℕ) where
  unfoldable pub checksum16 : List ℕ → List ℕ
  checksum16 input = pad_to 3 (pack16bits (crc input))

  unfoldable pub checksum16_valid : List ℕ → List ℕ → Bool
  checksum16_valid checksum input = str_eq (pack16bits (crc input)) checksum

  unfoldable pub checksum32 : List ℕ → List ℕ
  checksum32 input = pad_to 6 (pack32bits (crc input))

  unfoldable pub checksum32_valid : List ℕ → List ℕ → Bool
  checksum32_valid checksum input = str_eq (pack32bits (crc input)) checksum

pad_to-pack16bits : (p : ℕ) → pad_to 3 (pack16bits p) ≡ pack16bits p
unfolding pad_to pack16bits
pad_to-pack16bits p = refl

-- Sixteen-bit words have distinct three-character forms.
pub pack16bits_inj : (p q : ℕ) → p < 2 ^ 16 → q < 2 ^ 16 → pack16bits p ≡ pack16bits q → p ≡ q
unfolding pack16bits
pack16bits_inj p q hp hq e = ground (
  arith,
  alphabet_at_inj (p / 1681) (q / 1681),
  alphabet_at_inj ((p - p / 1681 * 1681) / 41) ((q - q / 1681 * 1681) / 41),
  alphabet_at_inj (p % 41) (q % 41),
)

-- With a CRC of 16 bits, the checksum of one text is valid for another exactly when the two have
-- the same CRC.
pub checksum16_valid-checksum16_iff :
    (crc : List ℕ → ℕ) (s t : List ℕ)
    → crc s < 2 ^ 16
    → crc t < 2 ^ 16
    → (checksum16_valid crc (checksum16 crc s) t ≡ true) ↔ (crc t ≡ crc s)
unfolding checksum16 checksum16_valid
checksum16_valid-checksum16_iff crc s t hs ht =
    let short : pad_to 3 (pack16bits (crc s)) ≡ pack16bits (crc s) = pad_to-pack16bits (crc s) in
    rw short (
      (λ e. pack16bits_inj (crc t) (crc s) ht hs ((str_eq_iff _ _).0 e)),
      (λ e. (str_eq_iff _ _).1 (ap pack16bits e)),
    )
