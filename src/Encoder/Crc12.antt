-- ===== src/Encoder/Crc12.antt =====
-- src/internal/crc12.rs: the CRC of a frame, by a table of the remainders of single bytes.
use js8rs.Prelude.{
  ℕ, zero, suc, ◌+◌, ◌-◌, ◌^◌, ◌<◌, ◌≡◌, refl, Bool, true, false, not, List, [], ◌∷◌, get_or, ltb,
  ltb→lt, ◌==◌, if◌then◌else◌, all_below, all_below_sound, bit_and, bit_or, bit_xor, bit_and_mask,
  u16, ◌<<<◌, ◌>>>◌, arith,
}

abbrev pub crc12_trunc_poly : ℕ
crc12_trunc_poly = 0x0c06

abbrev pub crc12_xor_out : ℕ
crc12_xor_out = 42

-- `while i < len`, by the rounds that are left.
unfoldable pub reflect_loop : ℕ → ℕ → ℕ → ℕ
reflect_loop zero x r = r
reflect_loop (suc rounds) x r = reflect_loop rounds (x >>> 1) (bit_or (u16 (r <<< 1)) (bit_and x 1))

unfoldable pub reflect_optionally : ℕ → Bool → ℕ → ℕ
reflect_optionally x reflect len = if reflect then reflect_loop len x 0 else x

-- One bit of the dividend.
unfoldable pub divide_bit : ℕ → ℕ → ℕ → ℕ → ℕ
divide_bit high_bit_mask divisor remainder bits =
    let entered = if bit_and bits 1 == 0 then remainder else bit_xor remainder high_bit_mask in
    let shifted = u16 (entered <<< 1) in
    if bit_and entered high_bit_mask == 0 then shifted else bit_xor shifted divisor

unfoldable pub divide_loop : ℕ → ℕ → ℕ → ℕ → ℕ → ℕ
divide_loop zero high_bit_mask divisor remainder bits = remainder
divide_loop (suc rounds) high_bit_mask divisor remainder bits =
    divide_loop rounds high_bit_mask divisor (divide_bit high_bit_mask divisor remainder bits)
      (bits >>> 1)

unfoldable pub crc_modulo_word_update : ℕ → ℕ → ℕ → ℕ → ℕ → Bool → ℕ
crc_modulo_word_update register_length remainder new_dividend_bits truncated_divisor word_length
      reflect =
    divide_loop word_length (u16 (1 <<< (register_length - 1))) truncated_divisor remainder
      (reflect_optionally new_dividend_bits (not reflect) word_length)

-- The entries from `d` on.
unfoldable pub table_from : ℕ → ℕ → List ℕ
table_from zero d = []
table_from (suc rounds) d =
    crc_modulo_word_update 12 0 d crc12_trunc_poly 8 false ∷ table_from rounds (d + 1)

unfoldable pub crc12_table : List ℕ
crc12_table = table_from 256 0

unfoldable pub augmented_loop : ℕ → List ℕ → ℕ
augmented_loop remainder [] = remainder
augmented_loop remainder (byte ∷ bytes) =
    let index = bit_and (remainder >>> 4) 0x00ff in
    let remainder' = bit_or (u16 (remainder <<< 8)) byte in
    augmented_loop (bit_xor remainder' (get_or crc12_table index 0)) bytes

unfoldable pub augmented_crc12 : List ℕ → ℕ
augmented_crc12 bytes = bit_and (augmented_loop 0 bytes) 0x0fff

unfoldable pub crc12 : List ℕ → ℕ
crc12 bytes = bit_xor (augmented_crc12 bytes) crc12_xor_out

xor_table : all_below 4096 (λ r. ltb (bit_xor r 42) 4096) ≡ true
unfolding all_below
xor_table = refl

-- The CRC fits twelve bits.
pub crc12-lt : (bytes : List ℕ) → crc12 bytes < 2 ^ 12
unfolding crc12 augmented_crc12
crc12-lt bytes =
    let r = bit_and_mask 12 (augmented_loop 0 bytes) in
    ltb→lt _ _ (
      all_below_sound 4096 (λ r. ltb (bit_xor r 42) 4096) (augmented_crc12 bytes) xor_table
        (omega (arith, r)))
