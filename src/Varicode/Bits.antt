-- ===== src/Varicode/Bits.antt =====
-- src/varicode/mod.rs: `bits_to_int`, `bits72` and `last_index_of_zero`, on lists of bits with the
-- highest bit first.
pub mod Laws
use js8rs.Prelude.{
  ℕ, zero, suc, ◌+◌, ◌-◌, ◌*◌, ◌/◌, ◌%◌, ◌^◌, Bool, true, false, not, Option, none, some, List, [],
  ◌∷◌, ◌++◌, length, ◌==◌, if◌then◌else◌, bit_and, bit_or, u64, ◌<<<◌,
}

-- `u64::from(bit)`
abbrev pub bit_value : Bool → ℕ
bit_value true = 1
bit_value false = 0

unfoldable pub int_loop : ℕ → List Bool → ℕ
int_loop bits [] = bits
int_loop bits (bit ∷ value) = int_loop (bit_or (u64 (bits <<< 1)) (bit_value bit)) value

unfoldable pub bits_to_int : List Bool → ℕ
unfolding int_loop
bits_to_int value = int_loop 0 value

-- The tests of `n` bits of a word, from the bit `n - 1` down.
unfoldable pub test_bits : ℕ → ℕ → List Bool
test_bits zero value = []
test_bits (suc n) value = not (bit_and value (1 <<< n) == 0) ∷ test_bits n value

unfoldable pub bits72 : ℕ → ℕ → List Bool
bits72 value rem = test_bits 64 value ++ test_bits 8 rem

-- The search from the end.
unfoldable pub last_index_of_zero : List Bool → Option ℕ
last_index_of_zero [] = none
last_index_of_zero (bit ∷ bits) = elim (last_index_of_zero bits) [
  | some i ↦ some (suc i)
  | none ↦ if bit then none else some 0
]
