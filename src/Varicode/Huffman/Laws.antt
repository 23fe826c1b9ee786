-- ===== src/Varicode/Huffman/Laws.antt =====
-- The Huffman code is prefix free, so that the order of its entries does not matter, and what is
-- coded is decoded.
use js8rs.Prelude.{
  ℕ, ◌<◌, ◌≤◌, ◌≡◌, refl, sym, ap, ◌∙◌, Bool, true, false, not, ◌&&◌, ◌||◌, Option, none, some,
  List, [], ◌∷◌, ◌++◌, length, map, All, ltb, leb, ◌==◌, if◌then◌else◌, inl, inr, Bool-cases, arith,
}
use js8rs.Varicode.Huffman.{Table, hufftable, get_code, is_one, code_matches, find_code}

-- Whether one of two codes starts the other.
unfoldable compatible : List ℕ → List ℕ → Bool
compatible [] ys = true
compatible (x ∷ xs) [] = true
compatible (x ∷ xs) (y ∷ ys) = (if is_one y then is_one x else not (is_one x)) && compatible xs ys

unfoldable all_entries : Table → (ℕ → List ℕ → Bool) → Bool
all_entries [] test = true
all_entries ((key, code) ∷ table) test = test key code && all_entries table test

and_parts : (a b : Bool) → (a && b) ≡ true → (a ≡ true) × (b ≡ true)
and_parts true b h = (refl, h)
and_parts false b h = ground arith

code_or_empty : Option (List ℕ) → List ℕ
code_or_empty none = []
code_or_empty (some code) = code

all_entries-get_code :
    (table : Table) (test : ℕ → List ℕ → Bool) (ch : ℕ) (code : List ℕ)
    → all_entries table test ≡ true
    → get_code table ch ≡ some code
    → test ch code ≡ true
unfolding all_entries get_code code_or_empty
all_entries-get_code [] test ch code h e = ground arith
all_entries-get_code ((key, word) ∷ table) test ch code h e =
    let (here, later) = and_parts (test key word) (all_entries table test) h in
    elim (Bool-cases (key == ch)) [
      | inl hit ↦
          let same : key ≡ ch = ground arith in
          let found : word ≡ code = ap (λ o. code_or_empty o) (rw hit at e) in
          ap (λ k. test k code) (sym same) ∙ ap (λ t. test key t) (sym found) ∙ here
      | inr miss ↦ all_entries-get_code table test ch code later (rw miss at e)
    ]

code_table : all_entries hufftable (λ ch code. ltb 0 (length code) && leb (length code) 8) ≡ true
unfolding all_entries hufftable
code_table = refl

prefix_table :
    all_entries hufftable
      (λ ch code. all_entries hufftable (λ key word. not (compatible word code) || (key == ch)))
    ≡ true
unfolding all_entries hufftable compatible
prefix_table = refl

code_matches_self :
    (code : List ℕ) (rest : List Bool) → code_matches code (map is_one code ++ rest) ≡ true
unfolding code_matches
code_matches_self [] rest = refl
code_matches_self (byte ∷ code) rest = elim (Bool-cases (is_one byte)) [
  | inl e ↦ rw (e, code_matches_self code rest)
  | inr e ↦ rw (e, code_matches_self code rest)
]

code_matches-compatible :
    (word code : List ℕ) (rest : List Bool)
    → code_matches word (map is_one code ++ rest) ≡ true
    → compatible word code ≡ true
unfolding code_matches compatible
code_matches-compatible [] code rest h = refl
code_matches-compatible (x ∷ xs) [] rest h = refl
code_matches-compatible (x ∷ xs) (y ∷ ys) rest h =
    let (here, later) =
      and_parts (if is_one y then is_one x else not (is_one x))
        (code_matches xs (map is_one ys ++ rest)) h in
    rw (here, code_matches-compatible xs ys rest later)

-- The entries of the map in some order.
abbrev pub IsHufftable : Table → Type 0
IsHufftable entries =
    All (λ e. get_code hufftable e.0 ≡ some e.1) entries
    × ((ch : ℕ) → get_code entries ch ≡ get_code hufftable ch)

same_key : (key ch : ℕ) (c : Bool) → c ≡ true → (not c || (key == ch)) ≡ true → key ≡ ch
same_key key ch c h e = ground arith

-- At most one code starts the bits.
pub find_code-get_code :
    (entries : Table) (ch : ℕ) (code : List ℕ) (rest : List Bool)
    → All (λ e. get_code hufftable e.0 ≡ some e.1) entries
    → get_code hufftable ch ≡ some code
    → get_code entries ch ≡ some code
    → find_code entries (map is_one code ++ rest) ≡ some (ch, length code)
unfolding find_code get_code code_or_empty
find_code-get_code [] ch code rest h there e = ground arith
find_code-get_code ((key, word) ∷ entries) ch code rest (this, h) there e =
    elim (Bool-cases (code_matches word (map is_one code ++ rest))) [
      | inl hit ↦
          let close = code_matches-compatible word code rest hit in
          let inner = all_entries-get_code hufftable _ ch code prefix_table there in
          let apart =
            all_entries-get_code hufftable
              (λ key' word'. not (compatible word' code) || (key' == ch)) key word inner this in
          let same : key ≡ ch = same_key key ch (compatible word code) close apart in
          let found : word ≡ code =
            ap code_or_empty (sym this ∙ ap (get_code hufftable) same ∙ there) in
          rw hit (ap some (ap (λ k. (k, length word)) same ∙ ap (λ t. (ch, length t)) found))
      | inr miss ↦ elim (Bool-cases (key == ch)) [
        | inl own ↦
            let found : word ≡ code = ap code_or_empty (rw own at e) in
            let fits : code_matches word (map is_one code ++ rest) ≡ true =
              ap (λ t. code_matches t (map is_one code ++ rest)) found
              ∙ code_matches_self code rest in
            ground arith
        | inr other ↦ rw miss (find_code-get_code entries ch code rest h there (rw other at e))
      ]
    ]

size_bounds : (n : ℕ) → (ltb 0 n && leb n 8) ≡ true → (0 < n) × (n ≤ 8)
size_bounds n h = ground arith

pub code_size :
    (ch : ℕ) (code : List ℕ)
    → get_code hufftable ch ≡ some code
    → (0 < length code) × (length code ≤ 8)
code_size ch code e = size_bounds (length code) (
    all_entries-get_code hufftable (λ ch code. ltb 0 (length code) && leb (length code) 8) ch code
      code_table e)
