-- ===== src/Varicode/Alnum50/Layout.antt =====
-- How eleven bytes are laid out with separators, on every list of eleven bytes.
use js8rs.Prelude.{
  ℕ, ◌-◌, ◌≤◌, ◌<◌, ◌≡◌, refl, ◌∙◌, inl, inr, arith, false, Bool-cases, List, [], ◌∷◌, take, drop,
  length, length-take, length-drop, length-append, get_or, All,
}
use js8rs.Varicode.Alnum50.{alnum_idx, insert_space, needs_space, make_room, lay_out, strip_spaces}
use js8rs.Varicode.Alnum50.Words.{IsFirst, IsInner, IsSeparator, IsWord, word}

-- Any list of eleven bytes is one of eleven named places.
pub explicit {ℓ} :
    (P : List ℕ → Type ℓ)
    → ((w0 w1 w2 w3 w4 w5 w6 w7 w8 w9 w10 : ℕ)
        → P (w0 ∷ w1 ∷ w2 ∷ w3 ∷ w4 ∷ w5 ∷ w6 ∷ w7 ∷ w8 ∷ w9 ∷ w10 ∷ []))
    → (xs : List ℕ) → length xs ≡ 11
    → P xs
explicit P f (a0 ∷ a1 ∷ a2 ∷ a3 ∷ a4 ∷ a5 ∷ a6 ∷ a7 ∷ a8 ∷ a9 ∷ a10 ∷ []) e =
    f a0 a1 a2 a3 a4 a5 a6 a7 a8 a9 a10
explicit P f xs e = absurd (omega arith)

abbrev pub IsWordList : List ℕ → Type 0
IsWordList (a0 ∷ a1 ∷ a2 ∷ a3 ∷ a4 ∷ a5 ∷ a6 ∷ a7 ∷ a8 ∷ a9 ∷ a10 ∷ []) =
    IsWord a0 a1 a2 a3 a4 a5 a6 a7 a8 a9 a10
IsWordList xs = ⊥

abbrev pub IsRaw : List ℕ → Type 0
IsRaw [] = ⊥
IsRaw (b ∷ bs) = IsFirst b × All IsInner bs

-- From the length on there are only spaces.
abbrev pub SpacesFrom : ℕ → List ℕ → Type 0
SpacesFrom len xs = (i : ℕ) → len ≤ i → i < 11 → get_or xs i 0 ≡ b' '

-- What the first separator leaves to the second.
abbrev AfterFirst : ℕ × List ℕ → Type 0
AfterFirst (len, xs) =
    (length xs ≡ 11) × IsRaw xs × IsSeparator (get_or xs 3 0) × (len ≤ 7 → get_or xs 7 0 ≡ b' ')

abbrev pub AfterSecond : List ℕ → Type 0
AfterSecond xs =
    (length xs ≡ 11) × IsRaw xs × IsSeparator (get_or xs 3 0) × IsSeparator (get_or xs 7 0)

pub space-IsInner : IsInner b' '
unfolding alnum_idx
space-IsInner = omega arith

no_space-IsSeparator :
    (i len : ℕ) (xs : List ℕ)
    → (len ≤ i → get_or xs i 0 ≡ b' ')
    → needs_space i len xs ≡ false
    → IsSeparator (get_or xs i 0)
unfolding needs_space
no_space-IsSeparator i len xs spaces e = ground arith

module _ (w0 w1 w2 w3 w4 w5 w6 w7 w8 w9 w10 : ℕ) where
  make_room_first :
      (len : ℕ)
      → IsRaw (word w0 w1 w2 w3 w4 w5 w6 w7 w8 w9 w10)
      → SpacesFrom len (word w0 w1 w2 w3 w4 w5 w6 w7 w8 w9 w10)
      → AfterFirst (make_room 3 len (word w0 w1 w2 w3 w4 w5 w6 w7 w8 w9 w10))
  unfolding make_room insert_space
  make_room_first len raw spaces =
      elim (Bool-cases (needs_space 3 len (word w0 w1 w2 w3 w4 w5 w6 w7 w8 w9 w10))) [
        | inl e ↦ rw e (
          refl,
          (omega (arith, space-IsInner)),
          inl refl,
          λ h. spaces 6 (omega arith) (omega arith),
        )
        | inr e ↦ rw e (
          refl,
          raw,
          no_space-IsSeparator 3 len (word w0 w1 w2 w3 w4 w5 w6 w7 w8 w9 w10)
              (λ h. spaces 3 h (omega arith)) e,
          λ h. spaces 7 h (omega arith),
        )
      ]

  make_room_second :
      (len : ℕ)
      → AfterFirst (len, word w0 w1 w2 w3 w4 w5 w6 w7 w8 w9 w10)
      → AfterSecond ((make_room 7 len (word w0 w1 w2 w3 w4 w5 w6 w7 w8 w9 w10)).1)
  unfolding make_room insert_space
  make_room_second len (n, raw, sep, spaces) =
      elim (Bool-cases (needs_space 7 len (word w0 w1 w2 w3 w4 w5 w6 w7 w8 w9 w10))) [
        | inl e ↦ rw e (refl, (omega (arith, space-IsInner)), sep, inl refl)
        | inr e ↦ rw e (
          refl,
          raw,
          sep,
          no_space-IsSeparator 7 len (word w0 w1 w2 w3 w4 w5 w6 w7 w8 w9 w10) spaces e,
        )
      ]

  -- The trailing spaces of a short text make room for the separators.
  strip_first :
      (len : ℕ)
      → w9 ≡ b' '
      → w10 ≡ b' '
      → (strip_spaces ((make_room 3 len (word w0 w1 w2 w3 w4 w5 w6 w7 w8 w9 w10)).1)
          ≡ strip_spaces (word w0 w1 w2 w3 w4 w5 w6 w7 w8 w9 w10))
        × (get_or ((make_room 3 len (word w0 w1 w2 w3 w4 w5 w6 w7 w8 w9 w10)).1) 10 0 ≡ b' ')
  unfolding make_room insert_space strip_spaces
  strip_first len e9 e10 =
      elim (Bool-cases (needs_space 3 len (word w0 w1 w2 w3 w4 w5 w6 w7 w8 w9 w10))) [
        | inl e ↦ rw (e, e9, e10) (refl, refl)
        | inr e ↦ rw e (refl, e10)
      ]

  strip_second :
      (len : ℕ)
      → w10 ≡ b' '
      → strip_spaces ((make_room 7 len (word w0 w1 w2 w3 w4 w5 w6 w7 w8 w9 w10)).1)
        ≡ strip_spaces (word w0 w1 w2 w3 w4 w5 w6 w7 w8 w9 w10)
  unfolding make_room insert_space strip_spaces
  strip_second len e10 =
      elim (Bool-cases (needs_space 7 len (word w0 w1 w2 w3 w4 w5 w6 w7 w8 w9 w10))) [
        | inl e ↦ rw (e, e10)
        | inr e ↦ rw e
      ]

  pub AfterSecond-IsWordList :
      AfterSecond (word w0 w1 w2 w3 w4 w5 w6 w7 w8 w9 w10)
      → IsWordList (word w0 w1 w2 w3 w4 w5 w6 w7 w8 w9 w10)
  AfterSecond-IsWordList (n, raw, s3, s7) = grind arith

pub lay_out-AfterSecond :
    (len : ℕ) (xs : List ℕ)
    → length xs ≡ 11
    → IsRaw xs
    → SpacesFrom len xs
    → AfterSecond (lay_out len xs)
unfolding lay_out
lay_out-AfterSecond len xs n raw spaces =
    let p = make_room 3 len xs in
    second p.0 p.1 (
      explicit (λ ys. IsRaw ys → SpacesFrom len ys → AfterFirst (make_room 3 len ys))
        (λ w0 w1 w2 w3 w4 w5 w6 w7 w8 w9 w10. make_room_first w0 w1 w2 w3 w4 w5 w6 w7 w8 w9 w10 len)
        xs n raw spaces)
  where
    second : (l : ℕ) (ys : List ℕ) → AfterFirst (l, ys) → AfterSecond ((make_room 7 l ys).1)
    second l ys a =
        explicit (λ zs. AfterFirst (l, zs) → AfterSecond ((make_room 7 l zs).1))
          (λ w0 w1 w2 w3 w4 w5 w6 w7 w8 w9 w10.
            make_room_second w0 w1 w2 w3 w4 w5 w6 w7 w8 w9 w10 l)
          ys a.0 a

make_room-length :
    (i len : ℕ) (xs : List ℕ) → i ≤ 10 → length xs ≡ 11 → length ((make_room i len xs).1) ≡ 11
unfolding make_room insert_space
make_room-length i len xs hi n = elim (Bool-cases (needs_space i len xs)) [
  | inl e ↦ rw e (
      omega (
        arith,
        length-append (take i xs) (b' ' ∷ take (10 - i) (drop i xs)),
        length-take i xs,
        length-take (10 - i) (drop i xs),
        length-drop i xs,
      ))
  | inr e ↦ rw e n
]

pub strip-lay_out :
    (len : ℕ) (xs : List ℕ)
    → length xs ≡ 11
    → get_or xs 9 0 ≡ b' '
    → get_or xs 10 0 ≡ b' '
    → strip_spaces (lay_out len xs) ≡ strip_spaces xs
unfolding lay_out
strip-lay_out len xs n e9 e10 =
    let (same, last) =
      explicit
        (λ ys.
          get_or ys 9 0 ≡ b' '
          → get_or ys 10 0 ≡ b' '
          → (strip_spaces ((make_room 3 len ys).1) ≡ strip_spaces ys)
            × (get_or ((make_room 3 len ys).1) 10 0 ≡ b' '))
        (λ w0 w1 w2 w3 w4 w5 w6 w7 w8 w9 w10. strip_first w0 w1 w2 w3 w4 w5 w6 w7 w8 w9 w10 len) xs
        n e9 e10 in
    explicit
      (λ zs.
        get_or zs 10 0 ≡ b' '
        → strip_spaces ((make_room 7 (make_room 3 len xs).0 zs).1) ≡ strip_spaces zs)
      (λ w0 w1 w2 w3 w4 w5 w6 w7 w8 w9 w10.
        strip_second w0 w1 w2 w3 w4 w5 w6 w7 w8 w9 w10 (make_room 3 len xs).0)
      ((make_room 3 len xs).1) (make_room-length 3 len xs (omega arith) n) last
    ∙ same
