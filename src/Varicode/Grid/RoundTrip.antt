-- ===== src/Varicode/Grid/RoundTrip.antt =====
-- Locators are read back from their numbers, and numbers from their locators.
use js8rs.Prelude.{
  ℕ, ◌+◌, ◌-◌, ◌*◌, ◌/◌, ◌%◌, ◌≤◌, ◌<◌, ◌≡◌, refl, ap, sym, ◌∙◌, true, List, [], ◌∷◌, leb,
  if◌then◌else◌, IsPlain, as_bytes-trim-cons, as_bytes-trim_end-cons, is_whitespace,
  to_ascii_uppercase, is_ascii_digit, arith,
}
use native.Mathlib.Decide.{dec_le}
use js8rs.Prelude.Int.{pos-mul, pos-add, int_laws, ℤ, pos, sub_ℕ, leb_ℤ, ◌+ℤ◌, ◌-ℤ◌}
use js8rs.Varicode.Grid.{
  nbasegrid, half, midpoint, wrap_u16, grid_number, pack_grid_bytes, pack_grid, unpack_grid,
  grid_letter,
}

-- The longitude before halving, with `t` the correction for the letters from J on.
longitude :
    (a c t : ℕ)
    → a < 18
    → c < 10
    → (9 ≤ a → 1 ≤ t)
    → pos 178 -ℤ pos (20 * a) -ℤ pos (2 * c) +ℤ pos t +ℤ pos 180 ≡ pos (358 + t - 20 * a - 2 * c)
longitude a c t ha hc ht = elim (dec_le 9 a) [
  | yes h ↦ let one = ht h in omega int_laws
  | no h ↦ omega int_laws
]

correction :
    (a : ℕ) → (if leb_ℤ (pos 9) (pos a) then pos 1 else pos 0) ≡ pos (if leb 9 a then 1 else 0)
correction a = ground arith

half-pos : (n m : ℕ) (v : ℤ) → v +ℤ pos m ≡ pos n → midpoint v (pos m) ≡ pos (n / 2)
half-pos n m v h = unfold midpoint in rw h (unfold half in refl)

-- On the letters A to R and on digits the signed arithmetic is that of a mixed-radix number.
grid_number-sum :
    (a b c d : ℕ)
    → a < 18
    → b < 18
    → c < 10
    → d < 10
    → grid_number (pos a) (pos b) (pos c) (pos d) ≡ (179 - (10 * a + c)) * 180 + 10 * b + d
unfolding grid_number
grid_number-sum a b c d ha hb hc hd =
    rw
      (
        pos-mul 20 a,
        pos-mul 2 c,
        correction a,
        half-pos _ 180 _ (longitude a c (if leb 9 a then 1 else 0) ha hc (ground arith)),
        pos-mul ((358 + (if leb 9 a then 1 else 0) - 20 * a - 2 * c) / 2) 180,
        pos-mul 10 b,
        pos-add,
        pos-add,
      )
      (unfold wrap_u16 in ground arith)

-- The number of a locator by its four places.
abbrev number : ℕ → ℕ → ℕ → ℕ → ℕ
number a b c d = (179 - (10 * a + c)) * 180 + 10 * b + d

unpack_grid-number :
    (a b c d : ℕ)
    → a < 18
    → b < 18
    → c < 10
    → d < 10
    → unpack_grid (number a b c d) ≡ (b'A' + a) ∷ (b'A' + b) ∷ (b'0' + c) ∷ (b'0' + d) ∷ []
unfolding unpack_grid
unpack_grid-number a b c d ha hb hc hd = ground arith

-- A letter from A to R in either case, as its distance from A.
letter_place :
    (x : ℕ) → grid_letter b'R' x ≡ true → (a : ℕ) × (a < 18) × (to_ascii_uppercase x ≡ b'A' + a)
unfolding grid_letter
letter_place x h = (to_ascii_uppercase x - b'A', ground arith, ground arith)

digit_place : (x : ℕ) → is_ascii_digit x ≡ true → (c : ℕ) × (c < 10) × (x ≡ b'0' + c)
unfolding is_ascii_digit
digit_place x h = (x - b'0', ground arith, ground arith)

letter-IsPlain : (x : ℕ) → grid_letter b'R' x ≡ true → IsPlain x
unfolding grid_letter is_whitespace to_ascii_uppercase
letter-IsPlain x h = ground arith

digit-IsPlain : (x : ℕ) → is_ascii_digit x ≡ true → IsPlain x
unfolding is_ascii_digit is_whitespace
digit-IsPlain x h = ground arith

from_A : (a : ℕ) → sub_ℕ (b'A' + a) b'A' ≡ pos a
from_A a = ground arith

from_0 : (a : ℕ) → sub_ℕ (b'0' + a) b'0' ≡ pos a
from_0 a = ground arith

-- A locator of letters from A to R and digits, in either case and with anything behind its four
-- characters, comes back in upper case.
pub unpack_grid-pack_grid :
    (x y z w : ℕ) (rest : List ℕ)
    → grid_letter b'R' x ≡ true
    → grid_letter b'R' y ≡ true
    → is_ascii_digit z ≡ true
    → is_ascii_digit w ≡ true
    → unpack_grid (pack_grid (x ∷ y ∷ z ∷ w ∷ rest))
      ≡ to_ascii_uppercase x ∷ to_ascii_uppercase y ∷ z ∷ w ∷ []
unfolding pack_grid pack_grid_bytes
unpack_grid-pack_grid x y z w rest hx hy hz hw =
    let (a, ha, ea) = letter_place x hx in
    let (b, hb, eb) = letter_place y hy in
    let (c, hc, ec) = digit_place z hz in
    let (d, hd, ed) = digit_place w hw in
    rw
      (
        as_bytes-trim-cons x _ (letter-IsPlain x hx),
        as_bytes-trim_end-cons y _ (letter-IsPlain y hy),
        as_bytes-trim_end-cons z _ (digit-IsPlain z hz),
        as_bytes-trim_end-cons w _ (digit-IsPlain w hw),
        ea,
        eb,
        ec,
        ed,
      )
      (rw (from_A a, from_A b, from_0 c, from_0 d, grid_number-sum a b c d ha hb hc hd)
        (unpack_grid-number a b c d ha hb hc hd))

places :
    (v : ℕ)
    → v < nbasegrid
    → let lon = 179 - v / 180 in
      let lat = v % 180 in number (lon / 10) (lat / 10) (lon % 10) (lat % 10) ≡ v
places v h = omega arith

A-IsPlain : (a : ℕ) → a < 18 → (IsPlain (b'A' + a)) × (to_ascii_uppercase (b'A' + a) ≡ b'A' + a)
unfolding is_whitespace to_ascii_uppercase
A-IsPlain a h = ground arith

zero-IsPlain : (a : ℕ) → a < 10 → IsPlain (b'0' + a)
unfolding is_whitespace
zero-IsPlain a h = ground arith

pack_grid-places :
    (a b c d : ℕ)
    → a < 18
    → b < 18
    → c < 10
    → d < 10
    → pack_grid ((b'A' + a) ∷ (b'A' + b) ∷ (b'0' + c) ∷ (b'0' + d) ∷ []) ≡ number a b c d
unfolding pack_grid pack_grid_bytes
pack_grid-places a b c d ha hb hc hd =
    rw
      (
        as_bytes-trim-cons _ _ (A-IsPlain a ha).0,
        as_bytes-trim_end-cons _ _ (A-IsPlain b hb).0,
        as_bytes-trim_end-cons _ _ (zero-IsPlain c hc),
        as_bytes-trim_end-cons _ _ (zero-IsPlain d hd),
        (A-IsPlain a ha).1,
        (A-IsPlain b hb).1,
        from_A a,
        from_A b,
        from_0 c,
        from_0 d,
      )
      (grid_number-sum a b c d ha hb hc hd)

-- Every number below the count of squares is the number of the locator that it unpacks to.
pub pack_grid-unpack_grid : (v : ℕ) → v < nbasegrid → pack_grid (unpack_grid v) ≡ v
pack_grid-unpack_grid v h =
    let lon = 179 - v / 180 in
    let lat = v % 180 in
    let back =
      unpack_grid-number (lon / 10) (lat / 10) (lon % 10) (lat % 10) (omega arith) (omega arith)
        (omega arith) (omega arith) in
    let packed =
      pack_grid-places (lon / 10) (lat / 10) (lon % 10) (lat % 10) (omega arith) (omega arith)
        (omega arith) (omega arith) in
    ap pack_grid (ap unpack_grid (sym (places v h)) ∙ back) ∙ packed ∙ places v h
