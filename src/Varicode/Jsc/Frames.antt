-- ===== src/Varicode/Jsc/Frames.antt =====
-- Frames as the bits of a prefix and of the codewords of a text.
use js8rs.Prelude.{
  ℕ, zero, suc, ◌+◌, ◌-◌, ◌*◌, ◌^◌, ◌<◌, ◌≤◌, ◌≡◌, refl, sym, ap, ◌∙◌, subst, Bool, true, false,
  some, List, [], ◌∷◌, ◌++◌, length, length-append, All, All-append, ◌==◌, if◌then◌else◌, bit_or,
  bit_or_fields, ◌<<<◌, ◌>>>◌, u8, u64, replicate, arith,
}
use js8rs.Varicode.Bits.{bit_value, bits72}
use js8rs.Varicode.Bits.Laws.{bits_of, bits_of-fields, bits72-bits_of, bits_of-padding}
use js8rs.Varicode.Jsc.{
  Entry, Dictionary, Frame, u128, frame_bits, codeword, prefix_bits, add_code, finish_frame,
}
use js8rs.Varicode.Jsc.Codewords.{code_bits, codeword-bits, bit_value-bits_of}
use js8rs.Varicode.Jsc.Parsing.{Token, tokens_bits, tokens_text}
use mathlib.Core.List.{append_assoc, append-nil}
use native.Mathlib.Nat.{pow-suc, one-le-pow, mul-le-mul_right, pow-le-pow_right}

-- A table of 2 ^ 18 entries at most, none beyond its count.
abbrev pub IsTable : Dictionary → Type 0
IsTable dictionary =
    (dictionary.count ≤ 2 ^ 18)
    × ((index : ℕ) (entry : Entry) → dictionary.entry index ≡ some entry → index < dictionary.count)

pow_split : (a b : ℕ) → 2 ^ (a + b) ≡ 2 ^ a * 2 ^ b
pow_split a zero = ap (λ (t : ℕ). 2 ^ t) {x = a + 0} {y = a} (omega arith) ∙ omega arith
pow_split a (suc b) =
    ap (λ (t : ℕ). 2 ^ t) {x = a + suc b} {y = suc (a + b)} (omega arith)
    ∙ omega (arith, pow-suc 2 (a + b), pow_split a b, ap (λ (t : ℕ). 2 ^ a * t) (pow-suc 2 b))

-- A code behind `n` bits.
pub append_code :
    (bits n code size : ℕ)
    → bits < 2 ^ n
    → code < 2 ^ size
    → n + size ≤ 72
    → (bit_or (u128 (bits <<< size)) code < 2 ^ (n + size))
      × (bits_of (n + size) (bit_or (u128 (bits <<< size)) code)
          ≡ bits_of n bits ++ bits_of size code)
append_code bits n code size hb hc h =
    let room : bits * 2 ^ size + code < 2 ^ (n + size) = omega (
      arith,
      pow_split n size,
      mul-le-mul_right {m = suc bits} {n = 2 ^ n} (2 ^ size) (omega arith),
    ) in
    let narrow : 2 ^ (n + size) ≤ 2 ^ 128 =
      pow-le-pow_right {n = 2} (omega arith) {i = n + size} {j = 128} (omega arith) in
    let joined : bit_or (u128 (bits <<< size)) code ≡ bits * 2 ^ size + code =
      ap (λ t. bit_or t code) {x = u128 (bits <<< size)} {y = bits * 2 ^ size}
        (omega (arith, room, narrow))
      ∙ bit_or_fields size bits code hc
      ∙ omega arith in
    rw joined (
      room,
      ap (λ t. bits_of t (bits * 2 ^ size + code)) {x = n + size} {y = size + n} (omega arith)
          ∙ bits_of-fields n size bits code hc,
    )

tokens_bits-append :
    (ts us : List Token) → tokens_bits (ts ++ us) ≡ tokens_bits ts ++ tokens_bits us
unfolding tokens_bits
tokens_bits-append [] us = refl
tokens_bits-append ((index, separate) ∷ ts) us = rw (tokens_bits-append ts us, append_assoc)

-- The space behind a word whose separator is coded with it.
abbrev pub space_if : Bool → List ℕ
space_if separate = if separate then b' ' ∷ [] else []

module _ (dictionary : Dictionary) where
  -- The table has an entry for every token.
  abbrev pub Present : List Token → Type 0
  Present ts = All (λ t. (entry : Entry) × (dictionary.entry t.0 ≡ some entry)) ts

  tokens_text-found :
      (index : ℕ) (separate : Bool) (ts : List Token) (entry : Entry)
      → dictionary.entry index ≡ some entry
      → tokens_text dictionary ((index, separate) ∷ ts)
        ≡ entry.text ++ (space_if separate ++ tokens_text dictionary ts)
  unfolding tokens_text
  tokens_text-found index true ts entry e = rw (tokens_text, e)
  tokens_text-found index false ts entry e = rw (tokens_text, e)

  tokens_text-snoc :
      (ts : List Token) (index : ℕ) (separate : Bool) (entry : Entry)
      → Present ts
      → dictionary.entry index ≡ some entry
      → tokens_text dictionary (ts ++ ((index, separate) ∷ []))
        ≡ tokens_text dictionary ts ++ (entry.text ++ space_if separate)
  tokens_text-snoc [] index separate entry h e =
      rw (tokens_text-found index separate [] entry e) (unfold tokens_text in rw append-nil)
  tokens_text-snoc ((i, s) ∷ ts) index separate entry ((word, found), h) e = rw (
    tokens_text-found i s (ts ++ ((index, separate) ∷ [])) word found,
    tokens_text-found i s ts word found,
    tokens_text-snoc ts index separate entry h e,
    append_assoc,
    append_assoc,
  )

  -- A frame of the prefix and of the tokens of a text.
  abbrev pub Coded : List Bool → List ℕ → Frame → Type 0
  Coded prefix done frame =
      (frame.bits < 2 ^ frame.bit_len)
      × (frame.bit_len < frame_bits)
      × (frame.consumed ≡ length done)
      × ((ts : List Token) × Present ts
          × (bits_of frame.bit_len frame.bits ≡ prefix ++ tokens_bits ts)
          × (tokens_text dictionary ts ≡ done))

  pub add_code-Coded :
      (prefix : List Bool) (done : List ℕ) (frame : Frame) (index : ℕ) (separate : Bool)
      (entry : Entry) (size : ℕ)
      → IsTable dictionary
      → dictionary.entry index ≡ some entry
      → size ≡ length (entry.text ++ space_if separate)
      → frame.bit_len + (codeword index separate).1 < frame_bits
      → Coded prefix done frame
      → Coded prefix
          (done ++ (entry.text ++ space_if separate))
          (add_code frame (codeword index separate) size)
  unfolding add_code
  add_code-Coded prefix done frame index separate entry size (count, inside) e hs room
        (fit, short, chars, (ts, there, bits, text)) =
      let (small, upper, lower, code) =
        codeword-bits index separate (omega (arith, inside index entry e)) in
      let (fit', bits') =
        append_code frame.bits frame.bit_len _ (codeword index separate).1 fit small
          (omega arith) in
      let last : tokens_bits ((index, separate) ∷ []) ≡ code_bits index separate =
        unfold tokens_bits in append-nil _ in
      (
        fit',
        room,
        omega (arith, chars, length-append done (entry.text ++ space_if separate)),
        (
          ts ++ ((index, separate) ∷ []),
          All-append _ ts _ there ((entry, e), tt),
          bits' ∙ rw (bits, code, tokens_bits-append, last, append_assoc),
          tokens_text-snoc ts index separate entry there e ∙ rw text,
        ),
      )

-- The word and the byte hold the frame, a zero and ones.
pub finish_frame-bits72 :
    (frame : Frame)
    → frame.bits < 2 ^ frame.bit_len
    → frame.bit_len < frame_bits
    → let (value, rem, consumed) = finish_frame frame in
      (value < 2 ^ 64)
      × (rem < 256)
      × (consumed ≡ frame.consumed)
      × (bits72 value rem
          ≡ bits_of frame.bit_len frame.bits ++ (false ∷ replicate (71 - frame.bit_len) true))
unfolding finish_frame
finish_frame-bits72 frame fit short =
    let n = frame.bit_len in
    let pad = frame_bits - n in
    let some_pad : (pad == 0) ≡ false = ground arith in
    let ones = 2 ^ (pad - 1) - 1 in
    let wider = pow-le-pow_right {n = 2} (omega arith) {i = pad - 1} {j = pad} (omega arith) in
    let (whole, fields) =
      append_code frame.bits n ones pad fit
        (omega (arith, wider, one-le-pow (pad - 1) 2 (omega arith))) (omega arith) in
    let bits = bit_or (u128 (frame.bits <<< pad)) ones in
    let all : n + pad ≡ 72 = omega arith in
    let small : bits < 2 ^ 72 = subst (λ t. bits < 2 ^ t) all whole in
    let split : u64 (bits >>> 8) * 256 + u8 bits ≡ bits = omega (arith, small) in
    let padding : bits_of pad ones ≡ false ∷ replicate (71 - n) true =
      ap (λ t. bits_of t ones) {x = pad} {y = suc (71 - n)} (omega arith)
      ∙ ap (λ t. bits_of (suc (71 - n)) (2 ^ t - 1)) {x = pad - 1} {y = 71 - n} (omega arith)
      ∙ bits_of-padding (71 - n) in
    rw some_pad (
      omega arith,
      omega arith,
      refl,
      bits72-bits_of (u64 (bits >>> 8)) (u8 bits) (omega arith)
          ∙ ap (λ t. bits_of 72 t) split
          ∙ ap (λ t. bits_of t bits) (sym all)
          ∙ fields
          ∙ ap (λ t. bits_of n frame.bits ++ t) padding,
    )

-- Single bits behind `n` others.
pub prefix_bits-bits_of :
    (more : List Bool) (bits n : ℕ)
    → bits < 2 ^ n
    → n + length more ≤ 72
    → (prefix_bits bits more < 2 ^ (n + length more))
      × (bits_of (n + length more) (prefix_bits bits more) ≡ bits_of n bits ++ more)
unfolding prefix_bits
prefix_bits-bits_of [] bits n fit h =
    let none_more : n + 0 ≡ n = omega arith in rw (none_more, append-nil) (fit, refl)
prefix_bits-bits_of (bit ∷ more) bits n fit h =
    let (small, one) = bit_value-bits_of bit in
    let (fit', bits') = append_code bits n (bit_value bit) 1 fit small (omega arith) in
    let (fit'', bits'') = prefix_bits-bits_of more _ (n + 1) fit' (omega arith) in
    let shift : n + suc (length more) ≡ n + 1 + length more = omega arith in
    rw shift (
      fit'',
      bits''
          ∙ ap (λ t. t ++ more) (bits' ∙ ap (λ t. bits_of n bits ++ t) one)
          ∙ append_assoc (bits_of n bits) (bit ∷ []) more,
    )
