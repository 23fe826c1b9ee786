-- ===== src/Varicode/Jsc/Parsing.antt =====
-- What `decompress` makes of codewords.
use js8rs.Prelude.{
  ℕ, suc, ◌+◌, ◌-◌, ◌*◌, ◌/◌, ◌%◌, ◌^◌, ◌<◌, ◌≤◌, ◌≡◌, refl, ap, ◌∙◌, Bool, true, false, none, some,
  List, [], ◌∷◌, ◌++◌, length, length-append, map, All, ltb, leb, ◌==◌, if◌then◌else◌, all_below,
  all_below_sound, arith,
}
use js8rs.Varicode.Bits.{int_loop, bits_to_int}
use js8rs.Varicode.Bits.Laws.{bits_of, bits_before}
use js8rs.Varicode.Jsc.{Dictionary, parse_loop, base, expand_loop, decompress}
use js8rs.Varicode.Jsc.Codewords.{
  digits_of, digit_bits, code_bits, plain, plain-digits_of, digits_of-lt, length-digits_of, base-eq,
}
use mathlib.Core.List.{append_assoc}

-- A table index, and whether a space follows its word.
abbrev pub Token : Type 0
Token = ℕ × Bool

unfoldable pub tokens_bits : List Token → List Bool
tokens_bits [] = []
tokens_bits ((index, separate) ∷ ts) = code_bits index separate ++ tokens_bits ts

-- The text of the words, up to one that the table does not have.
unfoldable pub tokens_text : Dictionary → List Token → List ℕ
tokens_text dictionary [] = []
tokens_text dictionary ((index, separate) ∷ ts) =
    let rest = tokens_text dictionary ts in
    elim (dictionary.entry index) [
      | none ↦ []
      | some entry ↦ entry.text ++ (if separate then b' ' ∷ rest else rest)
    ]

abbrev digits : ℕ → List ℕ
digits index = digits_of (index / 7) (index / 7)

nibbles : List Token → List ℕ
nibbles [] = []
nibbles ((index, separate) ∷ ts) = map (λ d. d + 7) (digits index) ++ ((index % 7) ∷ nibbles ts)

separators_at : ℕ → List Token → List ℕ
separators_at n [] = []
separators_at n ((index, separate) ∷ ts) =
    let place = n + length (digits index) in
    let rest = separators_at (place + 1) ts in if separate then place ∷ rest else rest

nibble_table : all_below 16 (λ v. bits_to_int (bits_of 4 v) == v) ≡ true
unfolding all_below bits_to_int int_loop bits_of bits_before
nibble_table = refl

bits_to_int-bits_of : (v : ℕ) → v < 16 → bits_to_int (bits_of 4 v) ≡ v
bits_to_int-bits_of v h =
    let e = all_below_sound 16 (λ v. bits_to_int (bits_of 4 v) == v) v nibble_table h in
    ground arith

parse_digit :
    (n byte : ℕ) (b0 b1 b2 b3 : Bool) (rest : List Bool)
    → bits_to_int (b0 ∷ b1 ∷ b2 ∷ b3 ∷ []) ≡ byte
    → ltb byte 7 ≡ false
    → 0 < length rest
    → parse_loop n (b0 ∷ b1 ∷ b2 ∷ b3 ∷ rest)
      ≡ (byte ∷ (parse_loop (n + 1) rest).0, (parse_loop (n + 1) rest).1)
unfolding parse_loop
parse_digit n byte b0 b1 b2 b3 [] v e h = absurd (omega arith)
parse_digit n byte b0 b1 b2 b3 (b4 ∷ rest) v e h = rw (v, e)

parse_last :
    (n byte : ℕ) (b0 b1 b2 b3 b4 : Bool) (rest : List Bool)
    → bits_to_int (b0 ∷ b1 ∷ b2 ∷ b3 ∷ []) ≡ byte
    → ltb byte 7 ≡ true
    → parse_loop n (b0 ∷ b1 ∷ b2 ∷ b3 ∷ b4 ∷ rest) ≡ (
      byte ∷ (parse_loop (n + 1) rest).0,
      if b4 then n ∷ (parse_loop (n + 1) rest).1 else (parse_loop (n + 1) rest).1,
    )
unfolding parse_loop
parse_last n byte b0 b1 b2 b3 b4 rest v e = rw (v, e)

parse_loop-digit :
    (n d : ℕ) (rest : List Bool)
    → d < 9
    → 0 < length rest
    → parse_loop n (bits_of 4 (d + 7) ++ rest)
      ≡ ((d + 7) ∷ (parse_loop (n + 1) rest).0, (parse_loop (n + 1) rest).1)
unfolding bits_of bits_before
parse_loop-digit n d rest h pos =
    parse_digit n (d + 7) _ _ _ _ rest (bits_to_int-bits_of (d + 7) (omega arith)) (ground arith)
      pos

parse_loop-last :
    (n r : ℕ) (s : Bool) (rest : List Bool)
    → r < 7
    → parse_loop n (bits_of 4 r ++ (s ∷ rest)) ≡ (
      r ∷ (parse_loop (n + 1) rest).0,
      if s then n ∷ (parse_loop (n + 1) rest).1 else (parse_loop (n + 1) rest).1,
    )
unfolding bits_of bits_before
parse_loop-last n r s rest h =
    parse_last n r _ _ _ _ s rest (bits_to_int-bits_of r (omega arith)) (ground arith)

-- The half bytes of one codeword.
parse_loop-digits :
    (ds : List ℕ) (n r : ℕ) (s : Bool) (rest : List Bool)
    → All (λ d. d < 9) ds
    → r < 7
    → let more = parse_loop (n + length ds + 1) rest in
      parse_loop n (digit_bits ds ++ (bits_of 4 r ++ (s ∷ rest)))
      ≡ (map (λ d. d + 7) ds ++ (r ∷ more.0), if s then (n + length ds) ∷ more.1 else more.1)
unfolding digit_bits
parse_loop-digits [] n r s rest h hr =
    let none_yet : n + 0 ≡ n = omega arith in rw none_yet (parse_loop-last n r s rest hr)
parse_loop-digits (d ∷ ds) n r s rest (hd, h) hr =
    let tail = bits_of 4 r ++ (s ∷ rest) in
    let longer : 0 < length (digit_bits ds ++ tail) =
      omega (arith, length-append (digit_bits ds) tail, length-append (bits_of 4 r) (s ∷ rest)) in
    let shift : n + suc (length ds) ≡ n + 1 + length ds = omega arith in
    rw (
      append_assoc,
      parse_loop-digit n d (digit_bits ds ++ tail) hd longer,
      parse_loop-digits ds (n + 1) r s rest h hr,
      shift,
    )

parse_loop-tokens :
    (ts : List Token) (n : ℕ) → parse_loop n (tokens_bits ts) ≡ (nibbles ts, separators_at n ts)
unfolding tokens_bits nibbles separators_at code_bits
parse_loop-tokens [] n = unfold parse_loop in refl
parse_loop-tokens ((index, separate) ∷ ts) n =
    let ds = digits index in
    rw (append_assoc, append_assoc)
      (parse_loop-digits ds n (index % 7) separate (tokens_bits ts)
          (digits_of-lt (index / 7) (index / 7)) (omega arith)
        ∙ rw (parse_loop-tokens ts (n + length ds + 1)))

plain-le : (j : ℕ) (ds : List ℕ) → j ≤ plain j ds
unfolding plain
plain-le j [] = omega arith
plain-le j (d ∷ ds) = omega (arith, plain-le (j * 9 + d) ds)

-- What stands behind a word: a space where a separator is due.
abbrev after : ℕ → List ℕ → List ℕ → (List ℕ → List ℕ) → List ℕ
after pos separators word behind = elim separators [
  | [] ↦ word
  | sep_at ∷ rest ↦ if sep_at == pos then b' ' ∷ behind rest else word
]

module _ (dictionary : Dictionary) where
  expand_digit :
      (pos k j : ℕ) (separators : List ℕ) (d : ℕ) (bytes : List ℕ)
      → j * 9 + d < 2 ^ 64
      → expand_loop dictionary pos k j separators ((d + 7) ∷ bytes)
        ≡ expand_loop dictionary (pos + 1) (k + 1) (j * 9 + d) separators bytes
  unfolding expand_loop
  expand_digit pos k j separators d bytes h =
      let e : leb 7 (d + 7) ≡ true = ground arith in
      let small : (j * 9 + (d + 7 - 7)) % 2 ^ 64 ≡ j * 9 + d = omega (arith, h) in rw (e, small)

  expand_digits :
      (ds : List ℕ) (pos k j : ℕ) (separators bytes : List ℕ)
      → plain j ds < 2 ^ 64
      → expand_loop dictionary pos k j separators (map (λ d. d + 7) ds ++ bytes)
        ≡ expand_loop dictionary (pos + length ds) (k + length ds) (plain j ds) separators bytes
  unfolding plain
  expand_digits [] pos k j separators bytes h =
      let e : pos + 0 ≡ pos = omega arith in let f : k + 0 ≡ k = omega arith in rw (e, f)
  expand_digits (d ∷ ds) pos k j separators bytes h =
      let e : pos + suc (length ds) ≡ pos + 1 + length ds = omega arith in
      let f : k + suc (length ds) ≡ k + 1 + length ds = omega arith in
      rw (e, f)
        (expand_digit pos k j separators d (map (λ d. d + 7) ds ++ bytes)
            (omega (arith, plain-le (j * 9 + d) ds))
          ∙ expand_digits ds (pos + 1) (k + 1) (j * 9 + d) separators bytes h)

  expand_last :
      (pos k j : ℕ) (separators : List ℕ) (r : ℕ) (bytes : List ℕ) (index : ℕ)
      → r < 7
      → j * 7 + r + base k ≡ index
      → index < dictionary.count
      → dictionary.count ≤ 2 ^ 18
      → expand_loop dictionary pos k j separators (r ∷ bytes) ≡ elim (dictionary.entry index) [
        | none ↦ []
        | some entry ↦
            entry.text
            ++ after pos separators
                (expand_loop dictionary (pos + 1) 0 0 separators bytes)
                (λ rest. expand_loop dictionary (pos + 1) 0 0 rest bytes)
      ]
  unfolding expand_loop
  expand_last pos k j separators r bytes index hr e hi hc =
      let here : leb 7 r ≡ false = ground arith in
      let first : leb dictionary.count j ≡ false = ground arith in
      let whole : (j * 7 + r + base k) % 2 ^ 64 ≡ index = omega (arith, e) in
      let second : leb dictionary.count index ≡ false = ground arith in
      let third : index % 2 ^ 32 ≡ index = omega arith in rw (here, first, whole, second, third)

  -- The places of separators are told apart from that of an earlier word.
  after-later :
      (ts : List Token) (pos m : ℕ) (word : List ℕ) (behind : List ℕ → List ℕ)
      → pos < m
      → after pos (separators_at m ts) word behind ≡ word
  unfolding separators_at
  after-later [] pos m word behind h = refl
  after-later ((index, true) ∷ ts) pos m word behind h =
      let e : (m + length (digits index) == pos) ≡ false = ground arith in rw e
  after-later ((index, false) ∷ ts) pos m word behind h =
      after-later ts pos (m + length (digits index) + 1) word behind (omega arith)

  abbrev pub InRange : List Token → Type 0
  InRange ts = All (λ t. t.0 < dictionary.count) ts

  expand_rest :
      (separate : Bool) (ts : List Token) (place : ℕ) (text : List ℕ)
      → expand_loop dictionary (place + 1) 0 0 (separators_at (place + 1) ts) (nibbles ts) ≡ text
      → let later = separators_at (place + 1) ts in
        let separators = if separate then place ∷ later else later in
        after place separators
          (expand_loop dictionary (place + 1) 0 0 separators (nibbles ts))
          (λ rest. expand_loop dictionary (place + 1) 0 0 rest (nibbles ts))
        ≡ (if separate then b' ' ∷ text else text)
  expand_rest true ts place text e =
      let here : (place == place) ≡ true = ground arith in rw (here, e)
  expand_rest false ts place text e =
      after-later ts place (place + 1) _
        (λ rest. expand_loop dictionary (place + 1) 0 0 rest (nibbles ts)) (omega arith)
      ∙ e

  expand_tokens :
      (ts : List Token) (pos : ℕ)
      → dictionary.count ≤ 2 ^ 18
      → InRange ts
      → expand_loop dictionary pos 0 0 (separators_at pos ts) (nibbles ts)
        ≡ tokens_text dictionary ts
  unfolding nibbles tokens_text separators_at
  expand_tokens [] pos hc h = unfold expand_loop in refl
  expand_tokens ((index, separate) ∷ ts) pos hc (hi, h) =
      let x = index / 7 in
      let ds = digits index in
      let whole = plain-digits_of x x (omega arith) in
      let short = length-digits_of 5 x x (omega arith) in
      let at_word : plain 0 ds * 7 + index % 7 + base (length ds) ≡ index =
        omega (arith, whole, base-eq (length ds) (omega arith)) in
      let rest = expand_tokens ts (pos + length ds + 1) hc h in
      let separators = separators_at pos ((index, separate) ∷ ts) in
      let nothing : 0 + length ds ≡ length ds = omega arith in
      expand_digits ds pos 0 0 separators ((index % 7) ∷ nibbles ts) (omega (arith, whole))
      ∙ ap
          (λ k.
            expand_loop dictionary (pos + length ds) k (plain 0 ds) separators
              ((index % 7) ∷ nibbles ts))
          nothing
      ∙ expand_last (pos + length ds) (length ds) (plain 0 ds) separators (index % 7) (nibbles ts)
          index (omega arith) at_word hi hc
      ∙ ap (λ t. elim (dictionary.entry index) [ none ↦ [] | some entry ↦ entry.text ++ t ])
          (expand_rest separate ts (pos + length ds) _ rest)

  -- The indices and separators of codewords come back as the text of their words.
  pub decompress-tokens_bits :
      (ts : List Token)
      → dictionary.count ≤ 2 ^ 18
      → InRange ts
      → decompress dictionary (tokens_bits ts) ≡ tokens_text dictionary ts
  unfolding decompress
  decompress-tokens_bits ts hc h = rw (parse_loop-tokens ts 0) (expand_tokens ts 0 hc h)
