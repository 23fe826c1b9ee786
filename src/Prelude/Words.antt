-- ===== src/Prelude/Words.antt =====
-- Machine words as native numbers: casts, shifts, and the bit operations as arithmetic.
use Prim.Native.Nat.{
  ℕ, zero, suc, ◌+◌, ◌-◌, ◌*◌, ◌/◌, ◌%◌, ◌^◌, ◌≤◌, ◌<◌, min, max, digits, bitwise, bit_and, bit_or,
  bit_and-bitwise, bit_or-bitwise,
}
use mathlib.Core.Path.{◌≡◌, refl, ap, ◌∙◌}
use native.Mathlib.Nat.{pow-suc, one-le-pow}
use native.Mathlib.Omega.{arith}

-- `as u8`, `as u16`, `as u32`, `as u64`.
abbrev pub u8 : ℕ → ℕ
u8 n = n % 2 ^ 8

abbrev pub u16 : ℕ → ℕ
u16 n = n % 2 ^ 16

abbrev pub u32 : ℕ → ℕ
u32 n = n % 2 ^ 32

abbrev pub u64 : ℕ → ℕ
u64 n = n % 2 ^ 64

-- Shifts before the cut to a width.
infixl 75 ◌<<<◌ ◌>>>◌
abbrev pub ◌<<<◌ : ℕ → ℕ → ℕ
x <<< k = x * 2 ^ k

abbrev pub ◌>>>◌ : ℕ → ℕ → ℕ
x >>> k = x / 2 ^ k

-- `(1 << k) - 1`
abbrev pub low_mask : ℕ → ℕ
low_mask k = 2 ^ k - 1

-- The native operations run on fuel, the first number. A round more changes nothing.
module _ (last : ℕ → ℕ) (op : ℕ → ℕ → ℕ) where
  one_more : (fuel x y : ℕ) → x ≤ fuel → digits last op (suc fuel) x y ≡ digits last op fuel x y
  one_more zero zero y le = refl
  one_more zero (suc x) y le = absurd (omega arith)
  one_more (suc fuel) zero y le = refl
  one_more (suc fuel) (suc x) y le =
      ap (λ t. t * 2 + op (suc x % 2) (y % 2)) (one_more fuel (suc x / 2) (y / 2) (omega arith))

  any_more : (extra fuel x y : ℕ) → fuel ≡ extra + x → digits last op fuel x y ≡ bitwise last op x y
  any_more zero fuel x y e = ap (λ t. digits last op t x y) (omega arith)
  any_more (suc extra) fuel x y e =
      ap (λ t. digits last op t x y) {y = suc (extra + x)} (omega arith)
      ∙ one_more (extra + x) x y (omega arith)
      ∙ any_more extra (extra + x) x y refl

  lowest_digit :
      (x y : ℕ)
      → 0 < x
      → bitwise last op x y ≡ 2 * bitwise last op (x / 2) (y / 2) + op (x % 2) (y % 2)
  lowest_digit zero y pos = absurd (omega arith)
  lowest_digit (suc x) y pos =
      omega (arith, any_more (x - suc x / 2) x (suc x / 2) (y / 2) (omega arith))

pub bit_or_step : (a b : ℕ) → bit_or a b ≡ 2 * bit_or (a / 2) (b / 2) + max (a % 2) (b % 2)
bit_or_step zero b = simp bit_or-bitwise (omega arith)
bit_or_step (suc a) b = simp bit_or-bitwise (lowest_digit (λ y. y) max (suc a) b (omega arith))

pub bit_and_step : (a b : ℕ) → bit_and a b ≡ 2 * bit_and (a / 2) (b / 2) + min (a % 2) (b % 2)
bit_and_step zero b = simp bit_and-bitwise (omega arith)
bit_and_step (suc a) b = simp bit_and-bitwise (lowest_digit (λ y. 0) min (suc a) b (omega arith))

or_nothing : (fuel a : ℕ) → a ≤ fuel → digits (λ y. y) max fuel a 0 ≡ a
or_nothing zero a le = omega arith
or_nothing (suc fuel) zero le = refl
or_nothing (suc fuel) (suc a) le = omega (arith, or_nothing fuel (suc a / 2) (omega arith))

and_nothing : (fuel a : ℕ) → a ≤ fuel → digits (λ y. 0) min fuel a 0 ≡ 0
and_nothing zero a le = refl
and_nothing (suc fuel) zero le = refl
and_nothing (suc fuel) (suc a) le = omega (arith, and_nothing fuel (suc a / 2) (omega arith))

double : (k a : ℕ) → a * 2 ^ suc k ≡ 2 * (a * 2 ^ k)
double k a = omega (arith, ap (λ (t : ℕ). a * t) (pow-suc 2 k))

-- `(q << k) | r` is a sum when `r` fits `k` bits.
pub bit_or_fields : (k q r : ℕ) → r < 2 ^ k → bit_or (q * 2 ^ k) r ≡ r + q * 2 ^ k
bit_or_fields zero q r h =
    let alone : bit_or q 0 ≡ q = simp bit_or-bitwise (or_nothing q q (omega arith)) in
    ground (arith, alone)
bit_or_fields (suc k) q r h =
    let halves = bit_or_fields k q (r / 2) in
    let digit = bit_or_step (q * 2 ^ suc k) r in ground (arith, double k q, halves, digit)

-- The same with the low field first.
pub bit_or_low : (k r q : ℕ) → r < 2 ^ k → bit_or r (q * 2 ^ k) ≡ r + q * 2 ^ k
bit_or_low zero r q h =
    let none_below : r ≡ 0 = omega (arith, h) in rw none_below (simp bit_or-bitwise (omega arith))
bit_or_low (suc k) r q h =
    let digit = bit_or_step r (q * 2 ^ suc k) in
    let halves = bit_or_low k (r / 2) q in ground (arith, pow-suc 2 k, double k q, digit, halves)

mask_fields : (k r q : ℕ) → r < 2 ^ k → r ≡ bit_and (r + q * 2 ^ k) (low_mask k)
mask_fields zero r q h =
    let nothing : bit_and q 0 ≡ 0 = simp bit_and-bitwise (and_nothing q q (omega arith)) in
    ground (arith, nothing)
mask_fields (suc k) r q h =
    let halves = mask_fields k (r / 2) q in
    let digit = bit_and_step (r + q * 2 ^ suc k) (low_mask (suc k)) in
    ground (arith, double k q, pow-suc 2 k, halves, digit)

-- A mask of `k` low bits is the remainder by `2 ^ k`.
pub bit_and_mask : (k a : ℕ) → bit_and a (low_mask k) ≡ a % 2 ^ k
bit_and_mask k a =
    let parts = mask_fields k (a % 2 ^ k) (a / 2 ^ k) in ground (arith, one-le-pow k 2, parts)

-- One bit above the low ones.
pub bit_and_bit :
    (k r q : ℕ) → r < 2 ^ k → bit_and (r + q * 2 ^ k) (1 * 2 ^ k) ≡ bit_and q 1 * 2 ^ k
bit_and_bit zero r q h =
    let all_above : r + q * 2 ^ 0 ≡ q = omega (arith, h) in rw all_above (omega arith)
bit_and_bit (suc k) r q h =
    let digit = bit_and_step (r + q * 2 ^ suc k) (1 * 2 ^ suc k) in
    let halves = bit_and_bit k (r / 2) q in
    ground (arith, pow-suc 2 k, double k q, double k 1, double k (bit_and q 1), digit, halves)
