-- ===== src/Varicode/Alnum50/RoundTrip.antt =====
-- `unpack_alpha_numeric50` after `pack_alpha_numeric50`.
use js8rs.Prelude.{
  ℕ, zero, suc, ◌+◌, ◌-◌, ◌^◌, ◌≤◌, ◌<◌, ◌≡◌, ◌≢◌, refl, ap, ◌∙◌, arith, List, [], ◌∷◌, ◌++◌, drop,
  length, length-append, length-replicate, replicate, get_or, All,
}
use js8rs.Varicode.Alnum50.{
  alnum_idx, keep_indexed, alnum_word, pack_word, pack_alpha_numeric50, unpack_word,
  unpack_alpha_numeric50, strip_spaces,
}
use js8rs.Varicode.Alnum50.Layout.{
  explicit, IsWordList, IsRaw, AfterSecond, space-IsInner, lay_out-AfterSecond, strip-lay_out,
  AfterSecond-IsWordList,
}
use js8rs.Varicode.Alnum50.Words.{IsFirst, IsInner, unpack_word-pack_word, pack_word-lt}

-- What is kept of a text: at most `room` bytes, each with an index.
keep_indexed-fits :
    (room : ℕ) (bytes : List ℕ)
    → All IsFirst (keep_indexed room bytes) × (length (keep_indexed room bytes) ≤ room)
unfolding keep_indexed alnum_idx
keep_indexed-fits zero bytes = (tt, omega arith)
keep_indexed-fits (suc room) [] = (tt, omega arith)
keep_indexed-fits (suc room) (b ∷ bytes) =
    ground (arith, keep_indexed-fits (suc room) bytes, keep_indexed-fits room bytes)

get_or-padded :
    (ys : List ℕ) (n i b : ℕ)
    → length ys ≤ i
    → i < length ys + n
    → get_or (ys ++ replicate n b) i 0 ≡ b
get_or-padded [] zero i b h lt = absurd (omega arith)
get_or-padded [] (suc n) zero b h lt = refl
get_or-padded [] (suc n) (suc i) b h lt = get_or-padded [] n i b (omega arith) (omega arith)
get_or-padded (y ∷ ys) n zero b h lt = absurd (omega arith)
get_or-padded (y ∷ ys) n (suc i) b h lt = get_or-padded ys n i b (omega arith) (omega arith)

All-replicate : (n : ℕ) → All IsInner (replicate n b' ')
All-replicate zero = tt
All-replicate (suc n) = (space-IsInner, All-replicate n)

-- A byte with an index that is no `@`.
IsInner-of_first : (b : ℕ) → IsFirst b → b ≢ b'@' → IsInner b
unfolding alnum_idx
IsInner-of_first b h ne = ground arith

All-IsInner :
    (xs : List ℕ) (n : ℕ)
    → All IsFirst xs
    → All (λ b. b ≢ b'@') xs
    → All IsInner (xs ++ replicate n b' ')
All-IsInner [] n f ne = All-replicate n
All-IsInner (x ∷ xs) n (fx, f) (nx, ne) = (IsInner-of_first x fx nx, All-IsInner xs n f ne)

padded-IsRaw :
    (xs : List ℕ) (n : ℕ)
    → All IsFirst xs
    → All (λ b. b ≢ b'@') (drop 1 xs)
    → length xs + n ≡ 11
    → IsRaw (xs ++ replicate n b' ')
padded-IsRaw [] zero f ne e = absurd (omega arith)
padded-IsRaw [] (suc n) f ne e = (omega (arith, space-IsInner), All-replicate n)
padded-IsRaw (x ∷ xs) n (fx, f) ne e = (fx, All-IsInner xs n f ne)

length-padded : (xs : List ℕ) → length xs ≤ 11 → length (xs ++ replicate (11 - length xs) b' ') ≡ 11
length-padded xs h = omega (
  arith,
  length-append xs (replicate (11 - length xs) b' '),
  length-replicate {A = ℕ} (11 - length xs) b' ',
)

strip-padded : (xs : List ℕ) (n : ℕ) → strip_spaces (xs ++ replicate n b' ') ≡ strip_spaces xs
unfolding strip_spaces
strip-padded [] zero = refl
strip-padded [] (suc n) = strip-padded [] n
strip-padded (x ∷ xs) n = rw (strip-padded xs n)

-- The bytes of a text that `pack_alpha_numeric50` packs, with no `@` but in the first place.
abbrev pub kept : List ℕ → List ℕ
kept value = keep_indexed 11 value

abbrev pub AtFirstOnly : List ℕ → Type 0
AtFirstOnly value = All (λ b. b ≢ b'@') (drop 1 (kept value))

alnum_word-AfterSecond : (value : List ℕ) → AtFirstOnly value → AfterSecond (alnum_word value)
unfolding alnum_word
alnum_word-AfterSecond value h =
    let xs = kept value in
    let (f, le) = keep_indexed-fits 11 value in
    let n : ℕ = 11 - length xs in
    let fits = length-padded xs (keep_indexed-fits 11 value).1 in
    lay_out-AfterSecond (length xs) _ fits (padded-IsRaw xs n f h (omega arith))
      (λ i lo hi. get_or-padded xs n i b' ' lo (omega arith))

word-IsWordList : (xs : List ℕ) → AfterSecond xs → IsWordList xs
word-IsWordList xs a =
    explicit (λ ys. AfterSecond ys → IsWordList ys) AfterSecond-IsWordList xs a.0 a

-- Packing a text and unpacking it gives the laid out text without its spaces, and what was packed
-- fits the 50 bits of its field.
pub unpack-pack_word :
    (value : List ℕ)
    → AtFirstOnly value
    → (unpack_alpha_numeric50 (pack_alpha_numeric50 value) ≡ strip_spaces (alnum_word value))
      × (pack_alpha_numeric50 value < 2 ^ 50)
unfolding pack_alpha_numeric50 unpack_alpha_numeric50
unpack-pack_word value h =
    let a = alnum_word-AfterSecond value h in
    explicit
      (λ ys.
        IsWordList ys
        → (strip_spaces (unpack_word (pack_word ys)) ≡ strip_spaces ys) × (pack_word ys < 2 ^ 50))
      (λ w0 w1 w2 w3 w4 w5 w6 w7 w8 w9 w10 v. (
        ap strip_spaces (unpack_word-pack_word w0 w1 w2 w3 w4 w5 w6 w7 w8 w9 w10 v),
        pack_word-lt w0 w1 w2 w3 w4 w5 w6 w7 w8 w9 w10 v,
      ))
      (alnum_word value) a.0 (word-IsWordList _ a)

-- A text of at most nine packable bytes, with no @ but in the first place, comes back from its
-- 50-bit form as those bytes without spaces, and the form fits its field.
pub unpack-pack_alpha_numeric50 :
    (value : List ℕ)
    → AtFirstOnly value
    → length (kept value) ≤ 9
    → (unpack_alpha_numeric50 (pack_alpha_numeric50 value) ≡ strip_spaces (kept value))
      × (pack_alpha_numeric50 value < 2 ^ 50)
unpack-pack_alpha_numeric50 value h short =
    let xs = kept value in
    let n : ℕ = 11 - length xs in
    let fits = length-padded xs (keep_indexed-fits 11 value).1 in
    let (back, bound) = unpack-pack_word value h in
    (
      back
          ∙ unfold alnum_word in
            strip-lay_out (length xs) (xs ++ replicate n b' ') fits
              (get_or-padded xs n 9 b' ' (omega arith) (omega arith))
              (get_or-padded xs n 10 b' ' (omega arith) (omega arith))
            ∙ strip-padded xs n,
      bound,
    )
