-- ===== src/Varicode/Huffman/RoundTrip.antt =====
-- The characters in a frame of Huffman codes, and what `huff_decode` makes of them.
use js8rs.Prelude.{
  ℕ, zero, suc, ◌+◌, ◌^◌, ◌<◌, ◌≤◌, ◌≡◌, refl, sym, ap, ◌∙◌, subst, Bool, true, false, Option, none,
  some, List, [], ◌∷◌, ◌++◌, length, length-append, length-map, drop, map, All, All-append, ltb,
  leb, if◌then◌else◌, inl, inr, Bool-cases, Option-cases, arith, ◌⊎◌, to_ascii_uppercase,
}
use js8rs.Varicode.Bits.Laws.{bits_of}
use js8rs.Varicode.Jsc.{Frame, frame_bits, prefix_bits}
use js8rs.Varicode.Jsc.Frames.{prefix_bits-bits_of}
use js8rs.Varicode.Huffman.{
  Table, hufftable, get_code, is_one, find_code, decode_loop, huff_decode, add_huff_code, huff_loop,
}
use js8rs.Varicode.Huffman.Laws.{IsHufftable, find_code-get_code, code_size}
use mathlib.Core.List.{append_assoc, append-nil}

abbrev pub HasCode : ℕ → Type 0
HasCode ch = (code : List ℕ) × (get_code hufftable ch ≡ some code)

unfoldable pub code_of : ℕ → List Bool
code_of ch = elim (get_code hufftable ch) [ none ↦ [] | some code ↦ map is_one code ]

unfoldable pub huff_bits : List ℕ → List Bool
huff_bits [] = []
huff_bits (ch ∷ text) = code_of ch ++ huff_bits text

code_of-get_code :
    (ch : ℕ) (code : List ℕ) → get_code hufftable ch ≡ some code → code_of ch ≡ map is_one code
unfolding code_of
code_of-get_code ch code e = rw (code_of, e)

huff_bits-append : (xs ys : List ℕ) → huff_bits (xs ++ ys) ≡ huff_bits xs ++ huff_bits ys
unfolding huff_bits
huff_bits-append [] ys = refl
huff_bits-append (x ∷ xs) ys = rw (huff_bits-append xs ys, append_assoc)

drop-append : (xs ys : List Bool) → drop (length xs) (xs ++ ys) ≡ ys
drop-append [] ys = refl
drop-append (x ∷ xs) ys = drop-append xs ys

decode_loop-found :
    (entries : Table) (rounds : ℕ) (bits : List Bool) (ch size : ℕ)
    → 0 < length bits
    → find_code entries bits ≡ some (ch, size)
    → decode_loop entries (suc rounds) bits ≡ ch ∷ decode_loop entries rounds (drop size bits)
decode_loop-found entries rounds [] ch size h e = absurd (omega arith)
decode_loop-found entries rounds (bit ∷ bits) ch size h e =
    unfold decode_loop in rw (decode_loop, e)

bits_of_first :
    (ch : ℕ) (code text : List ℕ)
    → get_code hufftable ch ≡ some code
    → huff_bits (ch ∷ text) ≡ map is_one code ++ huff_bits text
unfolding huff_bits
bits_of_first ch code text e = ap (λ t. t ++ huff_bits text) (code_of-get_code ch code e)

decode_loop-first :
    (entries : Table) (ch : ℕ) (code text : List ℕ) (rounds : ℕ)
    → IsHufftable entries
    → get_code hufftable ch ≡ some code
    → huff_bits (ch ∷ text) ≡ map is_one code ++ huff_bits text
    → length (huff_bits (ch ∷ text)) ≤ rounds
    → ((rounds' : ℕ)
        → length (huff_bits text) ≤ rounds'
        → decode_loop entries rounds' (huff_bits text) ≡ text)
    → decode_loop entries rounds (huff_bits (ch ∷ text)) ≡ ch ∷ text
decode_loop-first entries ch code text zero table e bits enough more = absurd (
    omega (
      arith,
      code_size ch code e,
      length-map code is_one,
      length-append (map is_one code) (huff_bits text),
      ap length bits,
    ))
decode_loop-first entries ch code text (suc rounds) table e bits enough more =
    let size = length-map code is_one in
    let whole = length-append (map is_one code) (huff_bits text) in
    let some_bits = code_size ch code e in
    let behind : drop (length code) (map is_one code ++ huff_bits text) ≡ huff_bits text =
      ap (λ n. drop n (map is_one code ++ huff_bits text)) (sym size)
      ∙ drop-append (map is_one code) (huff_bits text) in
    rw bits (
      decode_loop-found entries rounds (map is_one code ++ huff_bits text) ch (length code)
        (omega (arith, size, whole, some_bits))
        (find_code-get_code entries ch code (huff_bits text) table.0 e (table.1 ch ∙ e))
      ∙ ap (λ t. ch ∷ t)
          (rw behind (more rounds (omega (arith, size, whole, some_bits, ap length bits)))))

decode_loop-huff_bits :
    (entries : Table) (text : List ℕ) (rounds : ℕ)
    → IsHufftable entries
    → All HasCode text
    → length (huff_bits text) ≤ rounds
    → decode_loop entries rounds (huff_bits text) ≡ text
decode_loop-huff_bits entries [] zero table h enough = unfold decode_loop in refl
decode_loop-huff_bits entries [] (suc rounds) table h enough = unfold decode_loop huff_bits in refl
decode_loop-huff_bits entries (ch ∷ text) rounds table ((code, e), h) enough =
    decode_loop-first entries ch code text rounds table e (bits_of_first ch code text e) enough
      (λ rounds'. decode_loop-huff_bits entries text rounds' table h)

-- With the Huffman entries in any order, the codes of characters that have one, put one behind the
-- other, are decoded to those characters.
pub huff_decode-huff_bits :
    (entries : Table) (text : List ℕ)
    → IsHufftable entries
    → All HasCode text
    → huff_decode entries (huff_bits text) ≡ text
unfolding huff_decode
huff_decode-huff_bits entries text table h =
    decode_loop-huff_bits entries text (length (huff_bits text)) table h (omega arith)

-- A frame of the prefix and of the codes of a text.
abbrev pub HuffCoded : List Bool → List ℕ → Frame → Type 0
HuffCoded prefix done frame =
    (frame.bits < 2 ^ frame.bit_len)
    × (frame.bit_len < frame_bits)
    × (frame.consumed ≡ length done)
    × All HasCode done
    × (bits_of frame.bit_len frame.bits ≡ prefix ++ huff_bits done)

add_huff_code-HuffCoded :
    (prefix : List Bool) (done : List ℕ) (frame : Frame) (ch : ℕ) (code : List ℕ)
    → get_code hufftable ch ≡ some code
    → frame.bit_len + length code < frame_bits
    → HuffCoded prefix done frame
    → HuffCoded prefix (done ++ (ch ∷ [])) (add_huff_code frame code)
unfolding add_huff_code
add_huff_code-HuffCoded prefix done frame ch code e room (fit, short, chars, coded, bits) =
    let size = length-map code is_one in
    let (fit', bits') =
      prefix_bits-bits_of (map is_one code) frame.bits frame.bit_len fit (omega (arith, size)) in
    let last : huff_bits (ch ∷ []) ≡ map is_one code =
      bits_of_first ch code [] e ∙ (unfold huff_bits in append-nil (map is_one code)) in
    (
      subst (λ n. prefix_bits frame.bits (map is_one code) < 2 ^ (frame.bit_len + n)) size fit',
      room,
      omega (arith, chars, length-append done (ch ∷ [])),
      All-append HasCode done _ coded ((code, e), tt),
      subst
          (λ n.
            bits_of (frame.bit_len + n) (prefix_bits frame.bits (map is_one code))
            ≡ prefix ++ huff_bits (done ++ (ch ∷ [])))
          size (bits' ∙ rw (bits, huff_bits-append, last, append_assoc)),
    )

-- The loop refuses a character, or codes characters up to where the frame had no room, or all.
abbrev pub HuffReached : List Bool → List ℕ → List ℕ → Option Frame → Type 0
HuffReached prefix done input none = Unit {0}
HuffReached prefix done input (some frame) =
    (ahead : List ℕ) × ((behind : List ℕ) × (ahead ++ behind ≡ map to_ascii_uppercase input)
      × HuffCoded prefix (done ++ ahead) frame
      × ((length behind ≡ 0) ⊎ (frame_bits ≤ frame.bit_len + 8)))

huff_loop-step :
    (input : List ℕ) (ch : ℕ) (frame : Frame) (code : List ℕ)
    → ltb ch 128 ≡ true
    → get_code hufftable (to_ascii_uppercase ch) ≡ some code
    → huff_loop (ch ∷ input) frame ≡ (
        if leb frame_bits (frame.bit_len + length code)
        then some frame
        else huff_loop input (add_huff_code frame code))
unfolding huff_loop
huff_loop-step input ch frame code ascii e = rw (huff_loop, ascii, e)

huff_loop-refused :
    (input : List ℕ) (ch : ℕ) (frame : Frame)
    → (ltb ch 128 ≡ false) ⊎ (get_code hufftable (to_ascii_uppercase ch) ≡ none)
    → huff_loop (ch ∷ input) frame ≡ none
unfolding huff_loop
huff_loop-refused input ch frame (inl e) = rw (huff_loop, e)
huff_loop-refused input ch frame (inr e) = elim (Bool-cases (ltb ch 128)) [
  | inl ascii ↦ rw (huff_loop, ascii, e)
  | inr other ↦ rw (huff_loop, other)
]

HuffReached-later :
    (prefix : List Bool) (done : List ℕ) (ch : ℕ) (input : List ℕ) (result : Option Frame)
    → HuffReached prefix (done ++ (to_ascii_uppercase ch ∷ [])) input result
    → HuffReached prefix done (ch ∷ input) result
HuffReached-later prefix done ch input none h = tt
HuffReached-later prefix done ch input (some frame) (ahead, (behind, e, coded, tight)) =
    let first = to_ascii_uppercase ch in
    (
      first ∷ ahead,
      (
        behind,
        ap (λ t. first ∷ t) e,
        subst (λ t. HuffCoded prefix t frame) (append_assoc done (first ∷ []) ahead) coded,
        tight,
      ),
    )

no_room : (n size : ℕ) → leb frame_bits (n + size) ≡ true → size ≤ 8 → frame_bits ≤ n + 8
no_room n size h k = ground arith

has_room : (n size : ℕ) → leb frame_bits (n + size) ≡ false → n + size < frame_bits
has_room n size h = ground arith

pub huff_loop-HuffReached :
    (prefix : List Bool) (input done : List ℕ) (frame : Frame)
    → HuffCoded prefix done frame
    → HuffReached prefix done input (huff_loop input frame)
huff_loop-HuffReached prefix [] done frame coded =
    unfold huff_loop in
    ([], ([], refl, subst (λ t. HuffCoded prefix t frame) (sym (append-nil done)) coded, inl refl))
huff_loop-HuffReached prefix (ch ∷ input) done frame coded =
    let first = to_ascii_uppercase ch in
    let more = λ (code : List ℕ).
      huff_loop-HuffReached prefix input (done ++ (first ∷ [])) (add_huff_code frame code) in
    elim (Bool-cases (ltb ch 128)) [
      | inr other ↦
          subst (HuffReached prefix done (ch ∷ input))
            (sym (huff_loop-refused input ch frame (inl other))) tt
      | inl ascii ↦ elim (Option-cases (get_code hufftable first)) [
        | inl e ↦
            subst (HuffReached prefix done (ch ∷ input))
              (sym (huff_loop-refused input ch frame (inr e))) tt
        | inr (code, e) ↦
            subst (HuffReached prefix done (ch ∷ input))
              (sym (huff_loop-step input ch frame code ascii e))
              (elim (Bool-cases (leb frame_bits (frame.bit_len + length code))) [
                | inl full ↦ rw full (
                  [],
                  (
                    map to_ascii_uppercase (ch ∷ input),
                    refl,
                    subst (λ t. HuffCoded prefix t frame) (sym (append-nil done)) coded,
                    inr (no_room frame.bit_len (length code) full (code_size first code e).1),
                  ),
                )
                | inr room ↦ rw room (
                    HuffReached-later prefix done ch input
                      (huff_loop input (add_huff_code frame code))
                      (more code (
                        add_huff_code-HuffCoded prefix done frame first code e
                          (has_room frame.bit_len (length code) room) coded)))
              ])
      ]
    ]
