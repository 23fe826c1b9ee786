-- ===== src/Varicode/Callsign/Places.antt =====
-- The six characters of a callsign and their number.
use js8rs.Prelude.{
  ℕ, zero, suc, ◌+◌, ◌-◌, ◌*◌, ◌/◌, ◌%◌, ◌<◌, ◌≤◌, ◌≡◌, refl, ap, ◌∙◌, Bool, true, false, ◌&&◌,
  ◌||◌, List, [], ◌∷◌, map, replicate, All, ◌==◌, is_ascii_digit, is_ascii_uppercase,
  is_ascii_lowercase, is_ascii_alphabetic, is_ascii_alphanumeric, to_ascii_uppercase, arith, inl,
  inr, Bool-cases,
}
use js8rs.Varicode.Alnum50.{alnum_idx, alnum_byte}
use js8rs.Varicode.Callsign.{nbasecall, is_suffix, is_call, call_number, pack_call, call_word}

-- No small letter.
abbrev pub IsUpper : ℕ → Type 0
IsUpper c = is_ascii_lowercase c ≡ false

to_ascii_uppercase-IsUpper : (c : ℕ) → IsUpper (to_ascii_uppercase c)
unfolding to_ascii_uppercase is_ascii_lowercase
to_ascii_uppercase-IsUpper c = ground arith

first_place :
    (c : ℕ)
    → (c == b' ' || is_ascii_alphanumeric c) ≡ true
    → IsUpper c
    → (alnum_idx c < 37) × (alnum_byte (alnum_idx c) ≡ c)
unfolding is_ascii_alphanumeric is_ascii_alphabetic is_ascii_lowercase is_ascii_uppercase
    is_ascii_digit alnum_idx alnum_byte
first_place c h k = (ground arith, ground arith)

second_place :
    (c : ℕ)
    → is_ascii_alphanumeric c ≡ true
    → IsUpper c
    → (alnum_idx c < 36) × (alnum_byte (alnum_idx c) ≡ c)
unfolding is_ascii_alphanumeric is_ascii_alphabetic is_ascii_lowercase is_ascii_uppercase
    is_ascii_digit alnum_idx alnum_byte
second_place c h k = (ground arith, ground arith)

digit_place :
    (c : ℕ) → is_ascii_digit c ≡ true → (alnum_idx c < 10) × (alnum_byte (alnum_idx c) ≡ c)
unfolding is_ascii_digit alnum_idx alnum_byte
digit_place c h = (ground arith, ground arith)

suffix_place :
    (c : ℕ)
    → is_suffix c ≡ true
    → (10 ≤ alnum_idx c) × (alnum_idx c < 37) × (alnum_byte (alnum_idx c) ≡ c)
unfolding is_ascii_uppercase alnum_idx alnum_byte
suffix_place c h = (ground arith, ground arith, ground arith)

-- The places in the number of a call.
number : ℕ → ℕ → ℕ → ℕ → ℕ → ℕ → ℕ
number a0 a1 a2 a3 a4 a5 = ((((a0 * 36 + a1) * 10 + a2) * 27 + a3) * 27 + a4) * 27 + a5

number-places :
    (a0 a1 a2 a3 a4 a5 : ℕ)
    → a0 < 37
    → a1 < 36
    → a2 < 10
    → a3 < 27
    → a4 < 27
    → a5 < 27
    → let v = number a0 a1 a2 a3 a4 a5 in
      (v < nbasecall)
      × (v % 27 ≡ a5)
      × (v / 27 % 27 ≡ a4)
      × (v / 27 / 27 % 27 ≡ a3)
      × (v / 27 / 27 / 27 % 10 ≡ a2)
      × (v / 27 / 27 / 27 / 10 % 36 ≡ a1)
      × (v / 27 / 27 / 27 / 10 / 36 ≡ a0)
unfolding number
number-places a0 a1 a2 a3 a4 a5 h0 h1 h2 h3 h4 h5 =
    let v1 : number a0 a1 a2 a3 a4 a5 / 27 ≡ (((a0 * 36 + a1) * 10 + a2) * 27 + a3) * 27 + a4 =
      omega arith in
    let v2 : number a0 a1 a2 a3 a4 a5 / 27 / 27 ≡ ((a0 * 36 + a1) * 10 + a2) * 27 + a3 =
      omega (arith, v1) in
    let v3 : number a0 a1 a2 a3 a4 a5 / 27 / 27 / 27 ≡ (a0 * 36 + a1) * 10 + a2 =
      omega (arith, v2) in
    let v4 : number a0 a1 a2 a3 a4 a5 / 27 / 27 / 27 / 10 ≡ a0 * 36 + a1 = omega (arith, v3) in
    (
      omega arith,
      omega arith,
      omega (arith, v1),
      omega (arith, v2),
      omega (arith, v3),
      omega (arith, v4),
      omega (arith, v4),
    )

-- The conjuncts of a test.
pub and_true : (a b : Bool) → (a && b) ≡ true → (a ≡ true) × (b ≡ true)
and_true true b h = (refl, h)
and_true false b h = ground arith

call_word-number :
    (a0 a1 a2 a3 a4 a5 : ℕ)
    → a0 < 37
    → a1 < 36
    → a2 < 10
    → a3 < 27
    → a4 < 27
    → a5 < 27
    → call_word (number a0 a1 a2 a3 a4 a5)
      ≡ alnum_byte a0
        ∷ alnum_byte a1
        ∷ alnum_byte a2
        ∷ alnum_byte (a3 + 10)
        ∷ alnum_byte (a4 + 10)
        ∷ alnum_byte (a5 + 10)
        ∷ []
unfolding call_word
call_word-number a0 a1 a2 a3 a4 a5 h0 h1 h2 h3 h4 h5 =
    let (small, e5, e4, e3, e2, e1, e0) = number-places a0 a1 a2 a3 a4 a5 h0 h1 h2 h3 h4 h5 in
    rw (e5, e4, e3, e2, e1, e0)

-- The number of a call is below those of the special calls, and has its characters.
call_number-call :
    (c0 c1 c2 c3 c4 c5 : ℕ)
    → is_call c0 c1 c2 c3 c4 c5 ≡ true
    → IsUpper c0
    → IsUpper c1
    → (call_number c0 c1 c2 c3 c4 c5 < nbasecall)
      × (call_word (call_number c0 c1 c2 c3 c4 c5) ≡ c0 ∷ c1 ∷ c2 ∷ c3 ∷ c4 ∷ c5 ∷ [])
unfolding is_call call_number
call_number-call c0 c1 c2 c3 c4 c5 h k0 k1 =
    let (t0, r0) =
      and_true _
        (is_ascii_alphanumeric c1
          && (is_ascii_digit c2 && (is_suffix c3 && (is_suffix c4 && is_suffix c5))))
        h in
    let (t1, r1) =
      and_true _ (is_ascii_digit c2 && (is_suffix c3 && (is_suffix c4 && is_suffix c5))) r0 in
    let (t2, r2) = and_true _ (is_suffix c3 && (is_suffix c4 && is_suffix c5)) r1 in
    let (t3, r3) = and_true _ (is_suffix c4 && is_suffix c5) r2 in
    let (t4, t5) = and_true _ (is_suffix c5) r3 in
    let (b0, p0) = first_place c0 t0 k0 in
    let (b1, p1) = second_place c1 t1 k1 in
    let (b2, p2) = digit_place c2 t2 in
    let (l3, b3, p3) = suffix_place c3 t3 in
    let (l4, b4, p4) = suffix_place c4 t4 in
    let (l5, b5, p5) = suffix_place c5 t5 in
    let a3 = alnum_idx c3 - 10 in
    let a4 = alnum_idx c4 - 10 in
    let a5 = alnum_idx c5 - 10 in
    let sum : call_number c0 c1 c2 c3 c4 c5
        ≡ number (alnum_idx c0) (alnum_idx c1) (alnum_idx c2) a3 a4 a5 =
      unfold number call_number in omega (arith, l3, l4, l5) in
    let s3 : a3 + 10 ≡ alnum_idx c3 = omega (arith, l3) in
    let s4 : a4 + 10 ≡ alnum_idx c4 = omega (arith, l4) in
    let s5 : a5 + 10 ≡ alnum_idx c5 = omega (arith, l5) in
    let places =
      number-places (alnum_idx c0) (alnum_idx c1) (alnum_idx c2) a3 a4 a5 b0 b1 b2
        (omega (arith, b3)) (omega (arith, b4)) (omega (arith, b5)) in
    (
      omega (arith, sum, places.0),
      ap call_word sum
          ∙ call_word-number (alnum_idx c0) (alnum_idx c1) (alnum_idx c2) a3 a4 a5 b0 b1 b2
              (omega (arith, b3)) (omega (arith, b4)) (omega (arith, b5))
          ∙ rw (s3, s4, s5, p0, p1, p2, p3, p4, p5),
    )

pub nothing_below : 0 < 0 → ⊥
nothing_below h = omega arith

-- What is packed to a number other than 0 has its characters in that number.
pub pack_call-word :
    (word : List ℕ)
    → All IsUpper word
    → 0 < pack_call word
    → (pack_call word < nbasecall) × (call_word (pack_call word) ≡ word)
unfolding pack_call
pack_call-word (c0 ∷ c1 ∷ c2 ∷ c3 ∷ c4 ∷ c5 ∷ []) (k0, (k1, k)) pos =
    elim (Bool-cases (is_call c0 c1 c2 c3 c4 c5)) [
      | inl e ↦ rw e (call_number-call c0 c1 c2 c3 c4 c5 e k0 k1)
      | inr e ↦ absurd (nothing_below (rw e at pos))
    ]
pack_call-word [] h pos = absurd (nothing_below pos)
pack_call-word (c0 ∷ []) h pos = absurd (nothing_below pos)
pack_call-word (c0 ∷ c1 ∷ []) h pos = absurd (nothing_below pos)
pack_call-word (c0 ∷ c1 ∷ c2 ∷ []) h pos = absurd (nothing_below pos)
pack_call-word (c0 ∷ c1 ∷ c2 ∷ c3 ∷ []) h pos = absurd (nothing_below pos)
pack_call-word (c0 ∷ c1 ∷ c2 ∷ c3 ∷ c4 ∷ []) h pos = absurd (nothing_below pos)
pack_call-word (c0 ∷ c1 ∷ c2 ∷ c3 ∷ c4 ∷ c5 ∷ c6 ∷ cs) h pos = absurd (nothing_below pos)

pub map-IsUpper : (bytes : List ℕ) → All IsUpper (map to_ascii_uppercase bytes)
map-IsUpper [] = tt
map-IsUpper (b ∷ bytes) = (to_ascii_uppercase-IsUpper b, map-IsUpper bytes)

pub replicate-IsUpper : (n : ℕ) → All IsUpper (replicate n b' ')
unfolding is_ascii_lowercase
replicate-IsUpper zero = tt
replicate-IsUpper (suc n) = (refl, replicate-IsUpper n)
