-- ===== src/Varicode/Jsc/Codewords.antt =====
-- The bits of a codeword: the digits of the quotient in the bijective base 9, then the remainder
-- and the bit of the separator.
use js8rs.Prelude.{
  ℕ, zero, suc, ◌+◌, ◌-◌, ◌*◌, ◌/◌, ◌%◌, ◌^◌, ◌<◌, ◌≤◌, ◌≡◌, refl, ap, ◌∙◌, Bool, true, false, List,
  [], ◌∷◌, ◌++◌, length, length-append, All, All-append, ltb, if◌then◌else◌, bit_or, bit_or_low,
  u64, ◌<<<◌, inl, inr, Bool-cases, arith,
}
use js8rs.Varicode.Bits.{bit_value}
use js8rs.Varicode.Bits.Laws.{bits_of, bits_before, bits_of-fields}
use js8rs.Varicode.Jsc.{code_loop, codeword, base}
use mathlib.Core.List.{append_assoc, append-nil}
use native.Mathlib.Numerals.{towards_suc}
use native.Mathlib.Nat.{one-le-pow, mul-le-mul_right, pow-le-pow_right}

-- The digits of `x`, the highest first.
unfoldable pub digits_of : ℕ → ℕ → List ℕ
digits_of zero x = []
digits_of (suc rounds) x =
    let more = digits_of rounds ((x - 1) / 9) ++ (((x - 1) % 9) ∷ []) in
    if ltb 0 x then more else []

unfoldable pub digit_bits : List ℕ → List Bool
digit_bits [] = []
digit_bits (d ∷ ds) = bits_of 4 (d + 7) ++ digit_bits ds

pub digit_bits-append : (ds es : List ℕ) → digit_bits (ds ++ es) ≡ digit_bits ds ++ digit_bits es
unfolding digit_bits
digit_bits-append [] es = refl
digit_bits-append (d ∷ ds) es = rw (digit_bits-append ds es, append_assoc)

unfoldable pub code_bits : ℕ → Bool → List Bool
code_bits index separate =
    digit_bits (digits_of (index / 7) (index / 7)) ++ (bits_of 4 (index % 7) ++ (separate ∷ []))

-- Above all numbers of `t` digits.
abbrev pub ceiling : ℕ → ℕ
ceiling zero = 1
ceiling (suc t) = 9 * ceiling t + 1

four_more : (len : ℕ) → 2 ^ (len + 4) ≡ 16 * 2 ^ len
four_more len = simp towards_suc (omega arith)

code_loop-bits :
    (t rounds x word len : ℕ)
    → x ≤ rounds
    → x < ceiling t
    → len + 4 * t ≤ 64
    → word < 2 ^ len
    → let code = code_loop rounds x word len in
      (code.0 < 2 ^ code.1)
      × (code.1 ≤ len + 4 * t)
      × (len ≤ code.1)
      × (bits_of code.1 code.0 ≡ digit_bits (digits_of rounds x) ++ bits_of len word)
unfolding code_loop digits_of digit_bits
code_loop-bits t zero x word len hr ht hl hw = (hw, omega arith, omega arith, refl)
code_loop-bits zero (suc rounds) x word len hr ht hl hw =
    let e : ltb 0 x ≡ false = ground arith in rw e (hw, omega arith, omega arith, refl)
code_loop-bits (suc t) (suc rounds) x word len hr ht hl hw = elim (Bool-cases (ltb 0 x)) [
  | inr e ↦ rw e (hw, omega arith, omega arith, refl)
  | inl e ↦
      let d = (x - 1) % 9 + 7 in
      let wide = four_more len in
      let fits : d * 2 ^ len < 2 ^ 64 = omega (
        arith,
        wide,
        pow-le-pow_right {n = 2} (omega arith) {i = len + 4} {j = 64} (omega arith),
        mul-le-mul_right {m = d} {n = 15} (2 ^ len) (omega arith),
        one-le-pow len 2 (omega arith),
      ) in
      let word' = bit_or word (u64 (d <<< len)) in
      let joined : word' ≡ d * 2 ^ len + word =
        ap (λ t. bit_or word t) {x = u64 (d <<< len)} {y = d * 2 ^ len} (omega (arith, fits))
        ∙ bit_or_low len word d hw
        ∙ omega arith in
      let small : word' < 2 ^ (len + 4) =
        omega
          (arith, wide, joined, hw, mul-le-mul_right {m = d} {n = 15} (2 ^ len) (omega arith)) in
      let (fit, above, below, bits) =
        code_loop-bits t rounds ((x - 1) / 9) word' (len + 4) (ground arith) (ground arith)
          (omega arith) small in
      let fields : bits_of (len + 4) word' ≡ bits_of 4 d ++ bits_of len word =
        ap (λ t. bits_of (len + 4) t) joined ∙ bits_of-fields 4 len d word hw in
      rw e (
        fit,
        omega (arith, above),
        omega (arith, below),
        bits ∙ simp (fields, digit_bits-append, append_assoc, append-nil),
      )
]

pub bit_value-bits_of : (b : Bool) → (bit_value b < 2) × (bits_of 1 (bit_value b) ≡ b ∷ [])
unfolding bits_of bits_before
bit_value-bits_of true = (omega arith, refl)
bit_value-bits_of false = (omega arith, refl)

-- A codeword for an index below 2 ^ 18.
pub codeword-bits :
    (index : ℕ) (separate : Bool)
    → index < 2 ^ 18
    → let code = codeword index separate in
      (code.0 < 2 ^ code.1)
      × (code.1 ≤ 25)
      × (5 ≤ code.1)
      × (bits_of code.1 code.0 ≡ code_bits index separate)
unfolding codeword code_bits
codeword-bits index separate h =
    let last = bit_value separate in
    let (small, one) = bit_value-bits_of separate in
    let x = index / 7 in
    let (fit, above, below, bits) =
      code_loop-bits 5 x x (index % 7 * 2 + last) 5 (omega arith) (omega arith) (omega arith)
        (omega (arith, small)) in
    (
      fit,
      above,
      below,
      bits
          ∙ ap (λ t. digit_bits (digits_of x x) ++ t)
              (bits_of-fields 4 1 (index % 7) last (omega (arith, small))
                ∙ ap (λ t. bits_of 4 (index % 7) ++ t) one),
    )

-- The number of digits `ds` behind `j`.
unfoldable pub plain : ℕ → List ℕ → ℕ
plain j [] = j
plain j (d ∷ ds) = plain (j * 9 + d) ds

-- The least number of `k` digits in the bijective base.
abbrev pub first_of : ℕ → ℕ
first_of zero = 0
first_of (suc k) = 9 * first_of k + 1

plain-append : (j : ℕ) (ds : List ℕ) (d : ℕ) → plain j (ds ++ (d ∷ [])) ≡ plain j ds * 9 + d
unfolding plain
plain-append j [] d = refl
plain-append j (e ∷ ds) d = plain-append (j * 9 + e) ds d

pub plain-digits_of :
    (rounds x : ℕ)
    → x ≤ rounds
    → plain 0 (digits_of rounds x) + first_of (length (digits_of rounds x)) ≡ x
unfolding digits_of
plain-digits_of zero x h = unfold plain in omega arith
plain-digits_of (suc rounds) x h = elim (Bool-cases (ltb 0 x)) [
  | inl e ↦
      let ds = digits_of rounds ((x - 1) / 9) in
      let d = (x - 1) % 9 in
      let ih = plain-digits_of rounds ((x - 1) / 9) (ground arith) in
      let longer : length (ds ++ (d ∷ [])) ≡ suc (length ds) =
        omega (arith, length-append ds (d ∷ [])) in
      rw (e, plain-append 0 ds d, longer) (ground (arith, ih))
  | inr e ↦ rw e (unfold plain in ground arith)
]

pub digits_of-lt : (rounds x : ℕ) → All (λ d. d < 9) (digits_of rounds x)
unfolding digits_of
digits_of-lt zero x = tt
digits_of-lt (suc rounds) x = elim (Bool-cases (ltb 0 x)) [
  | inl e ↦ rw e (
      All-append (λ d. d < 9) (digits_of rounds ((x - 1) / 9)) _ (digits_of-lt rounds ((x - 1) / 9))
        (omega arith, tt))
  | inr e ↦ rw e tt
]

pub length-digits_of : (t rounds x : ℕ) → x < ceiling t → length (digits_of rounds x) ≤ t
unfolding digits_of
length-digits_of t zero x h = omega arith
length-digits_of zero (suc rounds) x h =
    let e : ltb 0 x ≡ false = ground arith in rw e (omega arith)
length-digits_of (suc t) (suc rounds) x h = elim (Bool-cases (ltb 0 x)) [
  | inl e ↦
      let ds = digits_of rounds ((x - 1) / 9) in
      let ih = length-digits_of t rounds ((x - 1) / 9) (ground arith) in
      rw e (omega (arith, ih, length-append ds (((x - 1) % 9) ∷ [])))
  | inr e ↦ rw e (omega arith)
]

pub base-eq : (k : ℕ) → k ≤ 7 → base k ≡ 7 * first_of k
unfolding base
base-eq zero h = refl
base-eq (suc zero) h = refl
base-eq (suc (suc zero)) h = refl
base-eq (suc (suc (suc zero))) h = refl
base-eq (suc (suc (suc (suc zero)))) h = refl
base-eq (suc (suc (suc (suc (suc zero))))) h = refl
base-eq (suc (suc (suc (suc (suc (suc zero)))))) h = refl
base-eq (suc (suc (suc (suc (suc (suc (suc zero))))))) h = refl
base-eq (suc (suc (suc (suc (suc (suc (suc (suc k)))))))) h = absurd (omega arith)
