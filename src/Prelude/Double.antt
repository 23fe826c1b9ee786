-- ===== src/Prelude/Double.antt =====
-- `f64` as the source computes with it: a number is an exact fraction, and an operation rounds its
-- exact result to 53 significant bits, a tie to the even one. The numbers of the source lie so far
-- from the ends of the range that none is subnormal or infinite, and no division is by 0.
use js8rs.Prelude.{
  ℕ, zero, suc, ◌+◌, ◌-◌, ◌*◌, ◌/◌, ◌%◌, ◌^◌, ◌≤◌, ◌<◌, min, Bool, ◌&&◌, ◌||◌, ltb, ◌==◌,
  if◌then◌else◌, arith,
}
use js8rs.Prelude.Int.{ℤ, pos, negsuc, pos_part, neg_part, sub_ℕ}
use native.Mathlib.Nat.{pow-suc}

-- The quotient of a number by one that is not 0.
pub record F64 : Type 0 where
  pub num : ℤ
  pub den : ℕ

-- The place of the highest bit, with a half in each round.
unfoldable log2_loop : ℕ → ℕ → ℕ
log2_loop zero n = 0
log2_loop (suc rounds) zero = 0
log2_loop (suc rounds) (suc zero) = 0
log2_loop (suc rounds) (suc (suc n)) = suc (log2_loop rounds (suc (suc n) / 2))

unfoldable pub log2 : ℕ → ℕ
unfolding log2_loop
log2 n = log2_loop n n

-- The multiple of `unit` that is nearest to `n / den`, an even one in a tie, as its multiplier.
unfoldable pub nearest : ℕ → ℕ → ℕ
nearest n unit =
    let m = n / unit in
    let twice = 2 * (n % unit) in
    if ltb unit twice || (twice == unit && m % 2 == 1) then m + 1 else m

log2_loop_bounds :
    (rounds n : ℕ)
    → 0 < n
    → n ≤ rounds
    → (2 ^ log2_loop rounds n ≤ n) × (n < 2 ^ suc (log2_loop rounds n))
unfolding log2_loop
log2_loop_bounds zero n h le = absurd (omega arith)
log2_loop_bounds (suc rounds) zero h le = absurd (omega arith)
log2_loop_bounds (suc rounds) (suc zero) h le = omega arith
log2_loop_bounds (suc rounds) (suc (suc n)) h le =
    let half = suc (suc n) / 2 in
    let (low, high) = log2_loop_bounds rounds half (omega arith) (omega arith) in
    let k = log2_loop rounds half in omega (arith, low, high, pow-suc 2 k, pow-suc 2 (suc k))

-- The highest bit of a number that is not 0: so many rounds are enough.
log2_bounds : (n : ℕ) → 0 < n → (2 ^ log2 n ≤ n) × (n < 2 ^ suc (log2 n))
unfolding log2
log2_bounds n h = log2_loop_bounds n n h (omega arith)

-- `n / den` rounded: scaled up to at least 53 bits, and cut to as many.
unfoldable pub round : ℕ → ℕ → ℕ × ℕ
unfolding log2 nearest
round zero den = (0, 1)
round (suc n) den =
    let scale = 53 + log2 den in
    let scaled = suc n * 2 ^ scale in
    let unit = 2 ^ (log2 (scaled / den) - 52) in (nearest scaled (den * unit) * unit, 2 ^ scale)

unfoldable pub rounded : ℤ → ℕ → F64
unfolding round
rounded (pos n) den = let r = round n den in record { num = pos r.0; den = r.1 }
rounded (negsuc n) den = let r = round (suc n) den in record { num = sub_ℕ 0 r.0; den = r.1 }

-- `as f64`
unfoldable pub from_ℕ : ℕ → F64
unfolding rounded
from_ℕ n = rounded (pos n) 1

unfoldable pub add : F64 → F64 → F64
unfolding rounded
add a b =
    rounded
      (sub_ℕ (pos_part a.num * b.den + pos_part b.num * a.den)
        (neg_part a.num * b.den + neg_part b.num * a.den))
      (a.den * b.den)

unfoldable pub sub : F64 → F64 → F64
unfolding rounded
sub a b =
    rounded
      (sub_ℕ (pos_part a.num * b.den + neg_part b.num * a.den)
        (neg_part a.num * b.den + pos_part b.num * a.den))
      (a.den * b.den)

unfoldable pub mul : F64 → F64 → F64
unfolding rounded
mul a b =
    rounded
      (sub_ℕ (pos_part a.num * pos_part b.num + neg_part a.num * neg_part b.num)
        (pos_part a.num * neg_part b.num + neg_part a.num * pos_part b.num))
      (a.den * b.den)

-- By a number above 0.
unfoldable pub div : F64 → F64 → F64
unfolding rounded
div a b = rounded (sub_ℕ (pos_part a.num * b.den) (neg_part a.num * b.den)) (a.den * pos_part b.num)

unfoldable pub less : F64 → F64 → Bool
less a b =
    ltb (pos_part a.num * b.den + neg_part b.num * a.den)
      (pos_part b.num * a.den + neg_part a.num * b.den)

-- `f64::floor`
unfoldable pub floor : F64 → F64
floor a = record {
  num = sub_ℕ (pos_part a.num / a.den) ((neg_part a.num + (a.den - 1)) / a.den);
  den = 1;
}

-- `f64::max` with 0.0
unfoldable pub max_zero : F64 → F64
max_zero a = record { num = pos (pos_part a.num); den = a.den }

-- `as u64`
unfoldable pub to_u64 : F64 → ℕ
to_u64 a = min (2 ^ 64 - 1) (pos_part a.num / a.den)
