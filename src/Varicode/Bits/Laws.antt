-- ===== src/Varicode/Bits/Laws.antt =====
-- Numbers and their bits.
use js8rs.Prelude.{
  ℕ, zero, suc, ◌+◌, ◌-◌, ◌*◌, ◌/◌, ◌%◌, ◌^◌, ◌<◌, ◌≡◌, refl, sym, ap, ◌∙◌, Bool, true, false, not,
  none, some, List, [], ◌∷◌, ◌++◌, length, replicate, ◌==◌, bit_and, bit_and_step, ◌<<<◌, arith,
  bit_and_mask,
}
use js8rs.Varicode.Bits.{test_bits, bits72, last_index_of_zero}
use native.Mathlib.Nat.{pow-suc, one-le-pow, div-div-eq-div-mul}
use mathlib.Core.List.{append_assoc, append-nil}

-- The `n` low bits of a number in front of others, the lowest last.
unfoldable pub bits_before : ℕ → ℕ → List Bool → List Bool
bits_before zero x bits = bits
bits_before (suc n) x bits = bits_before n (x / 2) ((x % 2 == 1) ∷ bits)

unfoldable pub bits_of : ℕ → ℕ → List Bool
unfolding bits_before
bits_of n x = bits_before n x []

double : (k a : ℕ) → a * 2 ^ suc k ≡ 2 * (a * 2 ^ k)
double k a = omega (arith, ap (λ (t : ℕ). a * t) (pow-suc 2 k))

-- A number of two fields has the bits of one in front of those of the other.
pub bits_before-fields :
    (b a n x y : ℕ) (bits : List Bool)
    → n ≡ b + a
    → y < 2 ^ b
    → bits_before n (x * 2 ^ b + y) bits ≡ bits_before a x (bits_before b y bits)
unfolding bits_before
bits_before-fields zero a n x y bits e h =
    ap (λ t. bits_before t (x * 1 + y) bits) {x = n} {y = a} (omega arith)
    ∙ ap (λ t. bits_before a t bits) {x = x * 1 + y} {y = x} (omega arith)
bits_before-fields (suc b) a zero x y bits e h = absurd (omega arith)
bits_before-fields (suc b) a (suc n) x y bits e h =
    let half : (x * 2 ^ suc b + y) / 2 ≡ x * 2 ^ b + y / 2 = omega (arith, double b x) in
    let low : (x * 2 ^ suc b + y) % 2 ≡ y % 2 = omega (arith, double b x) in
    rw (half, low)
      (bits_before-fields b a n x (y / 2) ((y % 2 == 1) ∷ bits) (omega arith)
        (omega (arith, pow-suc 2 b)))

pub bits_before-append :
    (n x : ℕ) (bits rest : List Bool)
    → bits_before n x bits ++ rest ≡ bits_before n x (bits ++ rest)
unfolding bits_before
bits_before-append zero x bits rest = refl
bits_before-append (suc n) x bits rest = bits_before-append n (x / 2) ((x % 2 == 1) ∷ bits) rest

pub bits_of-fields :
    (a b x y : ℕ) → y < 2 ^ b → bits_of (b + a) (x * 2 ^ b + y) ≡ bits_of a x ++ bits_of b y
unfolding bits_of
bits_of-fields a b x y h =
    bits_before-fields b a (b + a) x y [] refl h
    ∙ sym (bits_before-append a x [] (bits_before b y []))

length-bits_before : (n x : ℕ) (bits : List Bool) → length (bits_before n x bits) ≡ n + length bits
unfolding bits_before
length-bits_before zero x bits = omega arith
length-bits_before (suc n) x bits =
    omega (arith, length-bits_before n (x / 2) ((x % 2 == 1) ∷ bits))

pub length-bits_of : (n x : ℕ) → length (bits_of n x) ≡ n
unfolding bits_of
length-bits_of n x = omega (arith, length-bits_before n x [])

-- The test of a single bit.
bit_and-bit : (k x : ℕ) → bit_and x (2 ^ k) ≡ x / 2 ^ k % 2 * 2 ^ k
bit_and-bit zero x = omega (arith, bit_and_mask 1 x)
bit_and-bit (suc k) x =
    let half : 2 ^ suc k / 2 ≡ 2 ^ k = omega (arith, pow-suc 2 k) in
    let rest : bit_and (x / 2) (2 ^ suc k / 2) ≡ x / 2 / 2 ^ k % 2 * 2 ^ k =
      ap (λ t. bit_and (x / 2) t) half ∙ bit_and-bit k (x / 2) in
    let quotient : x / 2 ^ suc k ≡ x / 2 / 2 ^ k =
      ap (λ t. x / t) (omega (arith, pow-suc 2 k)) ∙ sym (div-div-eq-div-mul x 2 (2 ^ k)) in
    let even : 2 ^ suc k % 2 ≡ 0 = omega (arith, pow-suc 2 k) in
    rw quotient
      (omega (arith, bit_and_step x (2 ^ suc k), rest, even, double k (x / 2 / 2 ^ k % 2)))

product_test : (q p : ℕ) → q < 2 → 0 < p → not (q * p == 0) ≡ (q == 1)
product_test zero p h hp = ground arith
product_test (suc zero) p h hp = ground arith
product_test (suc (suc q)) p h hp = absurd (omega arith)

bit_test : (k x : ℕ) → not (bit_and x (1 <<< k) == 0) ≡ (x / 2 ^ k % 2 == 1)
bit_test k x =
    ap (λ t. not (t == 0)) {x = bit_and x (1 * 2 ^ k)} {y = x / 2 ^ k % 2 * 2 ^ k}
      (ap (λ t. bit_and x t) (omega arith) ∙ bit_and-bit k x)
    ∙ product_test (x / 2 ^ k % 2) (2 ^ k) (omega arith) (one-le-pow k 2 (omega arith))

bits_before-suc :
    (n x : ℕ) (rest : List Bool)
    → bits_before n (x / 2) ((x % 2 == 1) ∷ rest) ≡ bits_before (suc n) x rest
unfolding bits_before
bits_before-suc n x rest = refl

test_bits-half : (n x : ℕ) → test_bits (suc n) x ≡ test_bits n (x / 2) ++ ((x % 2 == 1) ∷ [])
unfolding test_bits
test_bits-half zero x = ap (λ t. t ∷ []) (bit_test 0 x ∙ ap (λ t. t % 2 == 1) (omega arith))
test_bits-half (suc n) x =
    let head : not (bit_and x (1 <<< suc n) == 0) ≡ not (bit_and (x / 2) (1 <<< n) == 0) =
      bit_test (suc n) x
      ∙ ap (λ t. t % 2 == 1)
          (ap (λ t. x / t) (omega (arith, pow-suc 2 n)) ∙ sym (div-div-eq-div-mul x 2 (2 ^ n)))
      ∙ sym (bit_test n (x / 2)) in
    rw (head, test_bits-half n x)

pub test_bits-eq : (n x : ℕ) (rest : List Bool) → test_bits n x ++ rest ≡ bits_before n x rest
test_bits-eq zero x rest = unfold test_bits bits_before in refl
test_bits-eq (suc n) x rest =
    rw test_bits-half
      (rw append_assoc (test_bits-eq n (x / 2) ((x % 2 == 1) ∷ rest) ∙ bits_before-suc n x rest))

-- The 72 bits of a word and a byte are those of the number of both.
pub bits72-bits_of : (value rem : ℕ) → rem < 256 → bits72 value rem ≡ bits_of 72 (value * 256 + rem)
unfolding bits72 bits_of
bits72-bits_of value rem h =
    test_bits-eq 64 value (test_bits 8 rem)
    ∙ ap (λ t. bits_before 64 value t) (sym (append-nil (test_bits 8 rem)) ∙ test_bits-eq 8 rem [])
    ∙ sym (bits_before-fields 8 64 72 value rem [] refl h)

pub last_index_of_zero-ones : (n : ℕ) → last_index_of_zero (replicate n true) ≡ none
unfolding last_index_of_zero
last_index_of_zero-ones zero = refl
last_index_of_zero-ones (suc n) = rw (last_index_of_zero-ones n)

-- The last zero is in front of the ones at the end.
pub last_index_of_zero-padded :
    (bits : List Bool) (n : ℕ)
    → last_index_of_zero (bits ++ (false ∷ replicate n true)) ≡ some (length bits)
unfolding last_index_of_zero
last_index_of_zero-padded [] n = rw (last_index_of_zero, last_index_of_zero-ones n)
last_index_of_zero-padded (bit ∷ bits) n = rw (last_index_of_zero, last_index_of_zero-padded bits n)

replicate-suc :
    (n : ℕ) (rest : List Bool)
    → replicate n true ++ (true ∷ rest) ≡ true ∷ (replicate n true ++ rest)
replicate-suc zero rest = refl
replicate-suc (suc n) rest = rw (replicate-suc n rest)

bits_before-padding :
    (n : ℕ) (rest : List Bool)
    → bits_before (suc n) (2 ^ n - 1) rest ≡ false ∷ (replicate n true ++ rest)
bits_before-padding zero rest = unfold bits_before in refl
bits_before-padding (suc n) rest =
    let half : (2 ^ suc n - 1) / 2 ≡ 2 ^ n - 1 = omega (arith, pow-suc 2 n, one-le-pow n 2) in
    let low : (2 ^ suc n - 1) % 2 ≡ 1 = omega (arith, pow-suc 2 n, one-le-pow n 2) in
    sym (bits_before-suc (suc n) (2 ^ suc n - 1) rest)
    ∙ rw (half, low)
        (bits_before-padding n (true ∷ rest) ∙ ap (λ t. false ∷ t) (replicate-suc n rest))

-- All ones below a bit.
pub bits_of-padding : (n : ℕ) → bits_of (suc n) (2 ^ n - 1) ≡ false ∷ replicate n true
unfolding bits_of
bits_of-padding n = bits_before-padding n [] ∙ ap (λ t. false ∷ t) (append-nil (replicate n true))
