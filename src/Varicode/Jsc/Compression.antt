-- ===== src/Varicode/Jsc/Compression.antt =====
-- The loops of `compress_frame`: the text that the frame stands for, and the bound on the rounds.
use js8rs.Prelude.{
  ℕ, zero, suc, ◌+◌, ◌%◌, ◌^◌, ◌<◌, ◌≤◌, ◌≡◌, refl, sym, ap, ◌∙◌, subst, Bool, true, false, not,
  ◌&&◌, some, List, [], ◌∷◌, ◌++◌, length, length-append, length-take, take, drop, map, All, ltb,
  leb, ◌==◌, if◌then◌else◌, inl, inr, Bool-cases, arith,
}
use js8rs.Command.Kind.{is_empty}
use js8rs.Varicode.Bits.{bit_value}
use js8rs.Varicode.Jsc.{
  Entry, Dictionary, Frame, Progress, full, next, out_of_rounds, frame_bits, codeword, add_code,
  word_loop, words_loop, latin1_bytes,
}
use js8rs.Varicode.Jsc.Codewords.{codeword-bits}
use mathlib.Core.List.{append_assoc, append-nil}
use js8rs.Varicode.Jsc.Frames.{IsTable, space_if, Coded, add_code-Coded}

-- A word, and the space that is coded with its end; nothing where nothing is left.
abbrev spaced : Bool → List ℕ → List ℕ
spaced coded [] = []
spaced coded (c ∷ cs) = (c ∷ cs) ++ space_if coded

spaced-rest :
    (size : ℕ) (coded : Bool) (cs : List ℕ)
    → size ≤ length cs
    → (take size cs ++ space_if ((size == length cs) && coded)) ++ spaced coded (drop size cs)
      ≡ cs ++ space_if coded
spaced-rest zero coded [] h = append-nil (space_if coded)
spaced-rest zero coded (c ∷ cs) h = let e : (0 == suc (length cs)) ≡ false = ground arith in rw e
spaced-rest (suc size) coded [] h = absurd (omega arith)
spaced-rest (suc size) coded (c ∷ cs) h =
    let e : (suc size == suc (length cs)) ≡ (size == length cs) = ground arith in
    rw e (ap (λ t. c ∷ t) (spaced-rest size coded cs (omega arith)))

spaced-step :
    (size : ℕ) (coded : Bool) (c : ℕ) (cs : List ℕ)
    → size ≤ suc (length cs)
    → (take size (c ∷ cs) ++ space_if ((size == suc (length cs)) && coded))
        ++ spaced coded (drop size (c ∷ cs))
      ≡ spaced coded (c ∷ cs)
spaced-step zero coded c cs h = let e : (0 == suc (length cs)) ≡ false = ground arith in rw e
spaced-step (suc size) coded c cs h =
    let e : (suc size == suc (length cs)) ≡ (size == length cs) = ground arith in
    rw e (ap (λ t. c ∷ t) (spaced-rest size coded cs (omega arith)))

length-space_if : (separate : Bool) → length (space_if separate) ≡ bit_value separate
length-space_if true = refl
length-space_if false = refl

-- `words` with a space between two, in Latin-1.
unfoldable pub joined : List (List ℕ) → List ℕ
joined [] = []
joined (raw ∷ []) = latin1_bytes raw
joined (raw ∷ next_raw ∷ rest) = latin1_bytes raw ++ (b' ' ∷ joined (next_raw ∷ rest))

module _ (dictionary : Dictionary) where
  -- The table has a word that starts this text, with its size.
  abbrev Covered : List ℕ → Type 0
  Covered word =
      (index : ℕ) × ((entry : Entry) × (dictionary.lookup word ≡ some index)
        × (dictionary.entry index ≡ some entry)
        × (entry.size ≤ length word)
        × (entry.text ≡ take entry.size word))

  -- The same from every place of a word.
  abbrev pub Covers : List ℕ → Type 0
  Covers [] = Unit {0}
  Covers (c ∷ cs) = Covered (c ∷ cs) × Covers cs

  Covers-drop : (n : ℕ) (word : List ℕ) → Covers word → Covers (drop n word)
  Covers-drop zero word h = h
  Covers-drop (suc n) [] h = tt
  Covers-drop (suc n) (c ∷ cs) (here, h) = Covers-drop n cs h

  -- A loop that coded the text up to where the frame had no room for a codeword, or all of it.
  abbrev pub Reached : List Bool → List ℕ → List ℕ → Progress → Type 0
  Reached prefix done todo (full frame) =
      (ahead : List ℕ) × ((behind : List ℕ) × (ahead ++ behind ≡ todo)
        × Coded dictionary prefix (done ++ ahead) frame
        × (frame_bits ≤ frame.bit_len + 25))
  Reached prefix done todo (next frame) = Coded dictionary prefix (done ++ todo) frame
  Reached prefix done todo out_of_rounds = ⊥

  Reached-later :
      (prefix : List Bool) (done part todo : List ℕ) (progress : Progress)
      → Reached prefix (done ++ part) todo progress
      → Reached prefix done (part ++ todo) progress
  Reached-later prefix done part todo (full frame) (ahead, (behind, e, coded, tight)) = (
    part ++ ahead,
    (
      behind,
      rw (append_assoc, e),
      subst (λ t. Coded dictionary prefix t frame) (append_assoc done part ahead) coded,
      tight,
    ),
  )
  Reached-later prefix done part todo (next frame) coded =
      subst (λ t. Coded dictionary prefix t frame) (append_assoc done part todo) coded
  Reached-later prefix done part todo out_of_rounds h = h

  -- A round that finds a word that fits.
  pub word_loop-found :
      (rounds : ℕ) (is_space is_last_word : Bool) (c : ℕ) (cs : List ℕ) (frame : Frame) (index : ℕ)
      (entry : Entry)
      → dictionary.lookup (c ∷ cs) ≡ some index
      → dictionary.entry index ≡ some entry
      → entry.size ≤ suc (length cs)
      → let separate = (entry.size == suc (length cs)) && (not is_space && not is_last_word) in
        let code = codeword index separate in
        let more = add_code frame code (entry.size + bit_value separate) in
        word_loop dictionary (suc rounds) is_space is_last_word (c ∷ cs) frame ≡ (
          if leb frame_bits (frame.bit_len + code.1)
          then full frame
          else word_loop dictionary rounds is_space is_last_word (drop entry.size (c ∷ cs)) more)
  unfolding word_loop
  word_loop-found rounds is_space is_last_word c cs frame index entry found e fits =
      let inside : ltb (suc (length cs)) entry.size ≡ false = ground arith in
      rw (word_loop, found, e, inside)

  pub code_more :
      (frame : Frame) (index : ℕ) (separate : Bool) (size rounds : ℕ)
      → index < 2 ^ 18
      → frame_bits < suc rounds + frame.bit_len
      → frame_bits < rounds + (add_code frame (codeword index separate) size).bit_len
  unfolding add_code
  code_more frame index separate size rounds h enough =
      let (small, upper, lower, code) = codeword-bits index separate h in omega (arith, lower)

  -- Each code takes five bits at least, so that the rounds are enough; the frame always says where
  -- the loop stopped.
  word_loop-Reached :
      (rounds : ℕ) (is_space is_last_word : Bool) (word : List ℕ) (frame : Frame)
      (prefix : List Bool) (done : List ℕ)
      → IsTable dictionary
      → frame_bits < rounds + frame.bit_len
      → Covers word
      → Coded dictionary prefix done frame
      → Reached prefix done
          (spaced (not is_space && not is_last_word) word)
          (word_loop dictionary rounds is_space is_last_word word frame)
  word_loop-Reached zero is_space is_last_word word frame prefix done table enough covers coded =
      absurd (omega (arith, coded.1))
  word_loop-Reached (suc rounds) is_space is_last_word [] frame prefix done table enough covers
        coded =
      unfold word_loop in subst (λ t. Coded dictionary prefix t frame) (sym (append-nil done)) coded
  word_loop-Reached (suc rounds) is_space is_last_word (c ∷ cs) frame prefix done table enough
        ((index, (entry, found, e, fits, text)), covers) coded =
      let size = entry.size in
      let ending = not is_space && not is_last_word in
      let separate = (size == suc (length cs)) && ending in
      let code = codeword index separate in
      let part = entry.text ++ space_if separate in
      let frame' = add_code frame code (size + bit_value separate) in
      let rest = drop size (c ∷ cs) in
      let taken : size + bit_value separate ≡ length part = omega (
        arith,
        length-append entry.text (space_if separate),
        length-space_if separate,
        ap length text,
        length-take size (c ∷ cs),
      ) in
      let whole : part ++ spaced ending rest ≡ spaced ending (c ∷ cs) =
        ap (λ t. (t ++ space_if separate) ++ spaced ending rest) text
        ∙ spaced-step size ending c cs fits in
      let tight : leb frame_bits (frame.bit_len + code.1) ≡ true → frame_bits ≤ frame.bit_len + 25 =
        let (small, upper, lower, bits) =
          codeword-bits index separate (omega (arith, table.0, table.1 index entry e)) in
        λ no_room. ground arith in
      let more : frame.bit_len + code.1 < frame_bits
          → Reached prefix done (spaced ending (c ∷ cs))
              (word_loop dictionary rounds is_space is_last_word rest frame') =
        λ room.
          subst
            (λ t.
              Reached prefix done t (word_loop dictionary rounds is_space is_last_word rest frame'))
            whole
            (Reached-later prefix done part (spaced ending rest) _ (
              word_loop-Reached rounds is_space is_last_word rest frame' prefix (done ++ part) table
                (code_more frame index separate (size + bit_value separate) rounds
                  (omega (arith, table.0, table.1 index entry e)) enough)
                (Covers-drop size (c ∷ cs) ((index, (entry, found, e, fits, text)), covers))
                (add_code-Coded dictionary prefix done frame index separate entry _ table e taken
                  room coded))) in
      subst (λ t. Reached prefix done (spaced ending (c ∷ cs)) t)
        (sym (word_loop-found rounds is_space is_last_word c cs frame index entry found e fits))
        (elim (Bool-cases (leb frame_bits (frame.bit_len + code.1))) [
          | inl no_room ↦ rw no_room (
            [],
            (
              spaced ending (c ∷ cs),
              refl,
              subst (λ t. Coded dictionary prefix t frame) (sym (append-nil done)) coded,
              tight no_room,
            ),
          )
          | inr room ↦ rw room (more (ground arith))
        ])

  Reached-then :
      (prefix : List Bool) (done part todo : List ℕ) (progress : Progress) (more : Frame → Progress)
      → Reached prefix done part progress
      → ((frame : Frame)
          → Coded dictionary prefix (done ++ part) frame
          → Reached prefix (done ++ part) todo (more frame))
      → Reached prefix done
          (part ++ todo)
          (elim progress [ full f ↦ full f | next f ↦ more f | out_of_rounds ↦ out_of_rounds ])
  Reached-then prefix done part todo (full frame) more (ahead, (behind, e, coded, tight)) h = (
    ahead,
    (behind ++ todo, sym (append_assoc ahead behind todo) ∙ ap (λ t. t ++ todo) e, coded, tight),
  )
  Reached-then prefix done part todo (next frame) more coded h =
      Reached-later prefix done part todo (more frame) (h frame coded)
  Reached-then prefix done part todo out_of_rounds more h k = h

  -- The table has the words of a text.
  abbrev pub CoversWords : List (List ℕ) → Type 0
  CoversWords words = Covers (b' ' ∷ []) × All (λ raw. Covers (latin1_bytes raw)) words

  pub words_loop-Reached :
      (words : List (List ℕ)) (frame : Frame) (prefix : List Bool) (done : List ℕ)
      → IsTable dictionary
      → CoversWords words
      → Coded dictionary prefix done frame
      → Reached prefix done (joined words) (words_loop dictionary words frame)
  unfolding words_loop joined latin1_bytes is_empty
  words_loop-Reached [] frame prefix done table covers coded =
      subst (λ t. Coded dictionary prefix t frame) (sym (append-nil done)) coded
  words_loop-Reached ([] ∷ []) frame prefix done table (space, covers) coded =
      Reached-then prefix done [] [] _ (words_loop dictionary [])
        (word_loop-Reached (suc frame_bits) false true [] frame prefix done table (omega arith) tt
          coded)
        (λ frame'. words_loop-Reached [] frame' prefix (done ++ []) table (space, tt))
  words_loop-Reached ((c ∷ cs) ∷ []) frame prefix done table (space, (here, covers)) coded =
      let word = map (λ x. x % 2 ^ 8) (c ∷ cs) in
      subst (λ t. Reached prefix done t (words_loop dictionary ((c ∷ cs) ∷ []) frame))
        (append-nil (word ++ []) ∙ append-nil word)
        (Reached-then prefix done (word ++ []) [] _ (words_loop dictionary [])
          (word_loop-Reached (suc frame_bits) false true word frame prefix done table (omega arith)
            here coded)
          (λ frame'. words_loop-Reached [] frame' prefix (done ++ (word ++ [])) table (space, tt)))
  words_loop-Reached ([] ∷ raw ∷ rest) frame prefix done table (space, (here, covers)) coded =
      Reached-then prefix done (b' ' ∷ []) (joined (raw ∷ rest)) _
        (words_loop dictionary (raw ∷ rest))
        (word_loop-Reached (suc frame_bits) true false (b' ' ∷ []) frame prefix done table
          (omega arith) space coded)
        (λ frame'.
          words_loop-Reached (raw ∷ rest) frame' prefix (done ++ (b' ' ∷ [])) table (space, covers))
  words_loop-Reached ((c ∷ cs) ∷ raw ∷ rest) frame prefix done table (space, (here, covers)) coded =
      let word = map (λ x. x % 2 ^ 8) (c ∷ cs) in
      subst (λ t. Reached prefix done t (words_loop dictionary ((c ∷ cs) ∷ raw ∷ rest) frame))
        (append_assoc word (b' ' ∷ []) (joined (raw ∷ rest)))
        (Reached-then prefix done (word ++ (b' ' ∷ [])) (joined (raw ∷ rest)) _
          (words_loop dictionary (raw ∷ rest))
          (word_loop-Reached (suc frame_bits) false false word frame prefix done table (omega arith)
            here coded)
          (λ frame'.
            words_loop-Reached (raw ∷ rest) frame' prefix (done ++ (word ++ (b' ' ∷ []))) table
              (space, covers)))
