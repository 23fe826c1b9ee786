-- ===== src/Varicode/Jsc/Termination.antt =====
-- `compress_frame` ends on every text, whatever the table finds.
use js8rs.Prelude.{
  ℕ, zero, suc, ◌+◌, ◌<◌, ◌≤◌, ◌≡◌, refl, sym, subst, Bool, true, none, some, List, [], ◌∷◌, length,
  drop, ltb, leb, ◌==◌, ◌&&◌, not, if◌then◌else◌, inl, inr, Bool-cases, Option-cases, arith,
}
use js8rs.Command.Kind.{is_empty}
use js8rs.Varicode.Bits.{bit_value}
use js8rs.Varicode.Jsc.{
  Entry, Dictionary, Frame, Progress, full, next, out_of_rounds, frame_bits, latin1_bytes,
  split_spaces, codeword, add_code, word_loop, words_loop, finished, finish_frame, compress_frame,
}
use js8rs.Varicode.Jsc.Frames.{IsTable}
use js8rs.Varicode.Jsc.Compression.{code_more, word_loop-found}

-- A loop that its bound on the rounds did not stop, with a frame of 72 bits at most.
abbrev Ends : Progress → Type 0
Ends progress = elim progress [
  | full frame ↦ frame.bit_len ≤ frame_bits
  | next frame ↦ frame.bit_len ≤ frame_bits
  | out_of_rounds ↦ ⊥
]

then-Ends :
    (progress : Progress) (more : Frame → Progress)
    → Ends progress
    → ((frame : Frame) → frame.bit_len ≤ frame_bits → Ends (more frame))
    → Ends (elim progress [ full f ↦ full f | next f ↦ more f | out_of_rounds ↦ out_of_rounds ])
then-Ends (full frame) more h k = h
then-Ends (next frame) more h k = k frame h
then-Ends out_of_rounds more h k = h

finished-some :
    (progress : Progress) → Ends progress → (r : ℕ × ℕ × ℕ) × (finished progress ≡ some r)
finished-some (full frame) h = (finish_frame frame, refl)
finished-some (next frame) h = (finish_frame frame, refl)
finished-some out_of_rounds h = absurd h

module _ (dictionary : Dictionary) where
  word_loop-no_word :
      (rounds : ℕ) (is_space is_last_word : Bool) (c : ℕ) (cs : List ℕ) (frame : Frame)
      → dictionary.lookup (c ∷ cs) ≡ none
      → word_loop dictionary (suc rounds) is_space is_last_word (c ∷ cs) frame ≡ next frame
  unfolding word_loop
  word_loop-no_word rounds is_space is_last_word c cs frame e = rw (word_loop, e)

  word_loop-no_entry :
      (rounds : ℕ) (is_space is_last_word : Bool) (c : ℕ) (cs : List ℕ) (frame : Frame) (index : ℕ)
      → dictionary.lookup (c ∷ cs) ≡ some index
      → dictionary.entry index ≡ none
      → word_loop dictionary (suc rounds) is_space is_last_word (c ∷ cs) frame ≡ next frame
  unfolding word_loop
  word_loop-no_entry rounds is_space is_last_word c cs frame index found e =
      rw (word_loop, found, e)

  word_loop-too_long :
      (rounds : ℕ) (is_space is_last_word : Bool) (c : ℕ) (cs : List ℕ) (frame : Frame) (index : ℕ)
      (entry : Entry)
      → dictionary.lookup (c ∷ cs) ≡ some index
      → dictionary.entry index ≡ some entry
      → ltb (suc (length cs)) entry.size ≡ true
      → word_loop dictionary (suc rounds) is_space is_last_word (c ∷ cs) frame ≡ next frame
  unfolding word_loop
  word_loop-too_long rounds is_space is_last_word c cs frame index entry found e long =
      rw (word_loop, found, e, long)

  fitting_round :
      (rounds : ℕ) (is_space is_last_word : Bool) (c : ℕ) (cs : List ℕ) (frame : Frame) (index : ℕ)
      (entry : Entry)
      → IsTable dictionary
      → frame.bit_len ≤ frame_bits
      → frame_bits < suc rounds + frame.bit_len
      → dictionary.lookup (c ∷ cs) ≡ some index
      → dictionary.entry index ≡ some entry
      → entry.size ≤ suc (length cs)
      → ((word : List ℕ) (frame' : Frame)
          → frame'.bit_len ≤ frame_bits
          → frame_bits < rounds + frame'.bit_len
          → Ends (word_loop dictionary rounds is_space is_last_word word frame'))
      → Ends (word_loop dictionary (suc rounds) is_space is_last_word (c ∷ cs) frame)
  unfolding add_code
  fitting_round rounds is_space is_last_word c cs frame index entry table short enough found e fits
        more =
      let separate = (entry.size == suc (length cs)) && (not is_space && not is_last_word) in
      let code = codeword index separate in
      let size = entry.size + bit_value separate in
      let enough' =
        code_more dictionary frame index separate size rounds
          (omega (arith, table.0, table.1 index entry e)) enough in
      subst Ends
        (sym (
          word_loop-found dictionary rounds is_space is_last_word c cs frame index entry found e
            fits))
        (elim (Bool-cases (leb frame_bits (frame.bit_len + code.1))) [
          | inl no_room ↦ rw no_room short
          | inr room ↦
              rw room
                (more (drop entry.size (c ∷ cs)) (add_code frame code size) (ground arith) enough')
        ])

  word_loop-Ends :
      (rounds : ℕ) (is_space is_last_word : Bool) (word : List ℕ) (frame : Frame)
      → IsTable dictionary
      → frame.bit_len ≤ frame_bits
      → frame_bits < rounds + frame.bit_len
      → Ends (word_loop dictionary rounds is_space is_last_word word frame)
  word_loop-Ends zero is_space is_last_word word frame table short enough = absurd (omega arith)
  word_loop-Ends (suc rounds) is_space is_last_word [] frame table short enough =
      unfold word_loop in short
  word_loop-Ends (suc rounds) is_space is_last_word (c ∷ cs) frame table short enough =
      let more = λ (word : List ℕ) (frame' : Frame).
        word_loop-Ends rounds is_space is_last_word word frame' table in
      elim (Option-cases (dictionary.lookup (c ∷ cs))) [
        | inl e ↦
            subst Ends (sym (word_loop-no_word rounds is_space is_last_word c cs frame e)) short
        | inr (index, found) ↦ elim (Option-cases (dictionary.entry index)) [
          | inl e ↦
              subst Ends
                (sym (word_loop-no_entry rounds is_space is_last_word c cs frame index found e))
                short
          | inr (entry, e) ↦ elim (Bool-cases (ltb (suc (length cs)) entry.size)) [
            | inl long ↦
                subst Ends
                  (sym (
                    word_loop-too_long rounds is_space is_last_word c cs frame index entry found e
                      long))
                  short
            | inr fits ↦
                fitting_round rounds is_space is_last_word c cs frame index entry table short enough
                  found e (ground arith) more
          ]
        ]
      ]

  words_loop-Ends :
      (words : List (List ℕ)) (frame : Frame)
      → IsTable dictionary
      → frame.bit_len ≤ frame_bits
      → Ends (words_loop dictionary words frame)
  unfolding words_loop
  words_loop-Ends [] frame table short = short
  words_loop-Ends (raw ∷ rest) frame table short =
      let is_space = is_empty raw && not (is_empty rest) in
      let word = if is_space then b' ' ∷ [] else latin1_bytes raw in
      then-Ends _ (words_loop dictionary rest)
        (word_loop-Ends (suc frame_bits) is_space (is_empty rest) word frame table short
          (omega arith))
        (λ frame'. words_loop-Ends rest frame' table)

  -- With a table of at most 2 ^ 18 entries, none beyond its count, whatever the lookup finds,
  -- compressing a text behind a prefix of at most 72 bits ends with a frame.
  pub compress_frame-total :
      (text : List ℕ) (prefix : List Bool)
      → IsTable dictionary
      → length prefix ≤ frame_bits
      → (r : ℕ × ℕ × ℕ) × (compress_frame dictionary text prefix ≡ some r)
  unfolding compress_frame
  compress_frame-total text prefix table short =
      finished-some _ (words_loop-Ends (split_spaces text) _ table short)
