-- ===== src/Varicode/Alphabet.antt =====
-- src/varicode/mod.rs: the alphabets of the packed forms and the reverse index of the larger one.
use js8rs.Prelude.{
  ℕ, ◌+◌, ◌<◌, ◌≡◌, refl, Bool, true, ◌&&◌, Option, none, some, List, [], ◌∷◌, codes, set,
  replicate, get_or, ltb, ◌==◌, if◌then◌else◌, all_below, all_below_sound, arith,
}

abbrev pub nalphabet : ℕ
nalphabet = 41

abbrev pub alphabet : List ℕ
alphabet = codes "0123456789ABCDEFGHIJKLMNOPQRSTUVWXYZ+-./?"

abbrev pub alphabet72 : List ℕ
alphabet72 = codes "0123456789ABCDEFGHIJKLMNOPQRSTUVWXYZabcdefghijklmnopqrstuvwxyz-+/?."

-- `index[bytes[i]] = i`, a later byte over an earlier one.
unfoldable pub index_loop : List ℕ → ℕ → List ℕ → List ℕ
index_loop index i [] = index
index_loop index i (b ∷ bytes) = index_loop (set index b i) (i + 1) bytes

unfoldable pub build_alphabet72_index : List ℕ
unfolding index_loop
build_alphabet72_index = index_loop (replicate 256 0) 0 alphabet72

-- Indexing: a byte is always in the range of the table, an index below 68 in that of the alphabet.
unfoldable pub alphabet72_index : ℕ → ℕ
unfolding build_alphabet72_index
alphabet72_index b = get_or build_alphabet72_index b 0

unfoldable pub alphabet72_at : ℕ → ℕ
alphabet72_at i = get_or alphabet72 i 0

unfoldable pub alphabet_at : ℕ → ℕ
alphabet_at i = get_or alphabet i 0

-- `str::find` of one character, as the position in an ASCII text.
unfoldable pub find_char : List ℕ → ℕ → Option ℕ
find_char [] c = none
find_char (x ∷ xs) c =
    let rest = find_char xs c in
    if x == c then some 0 else elim rest [ none ↦ none | some i ↦ some (i + 1) ]

index_table :
    all_below 64 (λ w. alphabet72_index (alphabet72_at w) == w && ltb (alphabet72_at w) 128) ≡ true
unfolding all_below alphabet72_index alphabet72_at
index_table = refl

-- The index undoes the alphabet on six-bit words, whose characters are ASCII.
pub alphabet72_index-alphabet72_at :
    (w : ℕ) → w < 64 → (alphabet72_index (alphabet72_at w) ≡ w) × (alphabet72_at w < 128)
alphabet72_index-alphabet72_at w h =
    let both =
      all_below_sound 64 (λ w. alphabet72_index (alphabet72_at w) == w && ltb (alphabet72_at w) 128)
        w index_table h in
    ground arith

cell : ℕ → ℕ → Bool
cell i j = if alphabet_at i == alphabet_at j then i == j else true

alphabet_table : all_below 41 (λ i. all_below 41 (cell i)) ≡ true
unfolding all_below cell alphabet_at
alphabet_table = refl

-- The characters of the smaller alphabet are distinct.
pub alphabet_at_inj : (i j : ℕ) → i < 41 → j < 41 → alphabet_at i ≡ alphabet_at j → i ≡ j
unfolding cell
alphabet_at_inj i j hi hj e =
    let row = all_below_sound 41 (λ i. all_below 41 (cell i)) i alphabet_table hi in
    let entry = all_below_sound 41 (cell i) j row hj in ground arith
