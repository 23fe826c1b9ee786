-- ===== src/Rx/Reassembly/Checksums.antt =====
-- The checksums at the end of buffered payloads.
use js8rs.Prelude.{
  ℕ, zero, suc, ◌+◌, ◌-◌, ◌/◌, ◌^◌, ◌<◌, ◌≡◌, ◌≢◌, refl, sym, ap, ◌∙◌, ◌↔◌, Bool, true, false, ◌&&◌,
  not, none, some, Option-cases, List, [], ◌∷◌, ◌++◌, length, length-append, take, drop, get_or,
  ltb, ◌==◌, inl, inr, str_eq_iff, all_below, all_below_sound, arith,
}
use js8rs.Command.Kind.{trim_start_spaces}
use js8rs.Varicode.Alphabet.{alphabet_at}
use js8rs.Varicode.Checksum.{pack16bits, checksum16, checksum16_valid, pad_to}
use js8rs.Rx.Reassembly.{
  BufferKey, BufferState, BufferedChecksum, BufferedCommandResult, completed, rstrip_spaces, concat,
  is_continuation, split_checksum, checksum_size, unchecked, finalize_buffered_payload,
  result_event, finish_state,
}

take-length : (a b : List ℕ) → take (length a) (a ++ b) ≡ a
take-length [] b = refl
take-length (x ∷ a) b = rw (take-length a b)

drop-length : (a b : List ℕ) → drop (length a) (a ++ b) ≡ b
drop-length [] b = refl
drop-length (x ∷ a) b = drop-length a b

get_or-length : (a : List ℕ) (x : ℕ) (b : List ℕ) → get_or (a ++ (x ∷ b)) (length a) 0 ≡ x
get_or-length [] x b = refl
get_or-length (y ∷ a) x b = get_or-length a x b

drop-suc-length : (a : List ℕ) (x : ℕ) (b : List ℕ) → drop (suc (length a)) (a ++ (x ∷ b)) ≡ b
drop-suc-length [] x b = refl
drop-suc-length (y ∷ a) x b = drop-suc-length a x b

get_or-suc-length :
    (a : List ℕ) (x : ℕ) (b : List ℕ) → get_or (a ++ (x ∷ b)) (suc (length a)) 0 ≡ get_or b 0 0
get_or-suc-length [] x [] = refl
get_or-suc-length [] x (y ∷ b) = refl
get_or-suc-length (y ∷ a) x b = get_or-suc-length a x b

cut-at : (i : ℕ) (s : List ℕ) → i < length s → take i s ++ (get_or s i 0 ∷ drop (suc i) s) ≡ s
cut-at i [] h = elim h [ ]
cut-at zero (x ∷ s) h = refl
cut-at (suc i) (x ∷ s) h = rw (cut-at i s (omega arith))

split_checksum-append :
    (size n : ℕ) (valid : List ℕ → List ℕ → Bool) (m c : List ℕ)
    → length c ≡ suc n
    → is_continuation (get_or c 0 0) ≡ false
    → split_checksum size (suc n) valid (m ++ (b' ' ∷ c))
      ≡ some (m, some (record { size_bits = size; value = c; valid = valid c m }))
unfolding split_checksum
split_checksum-append size n valid m c hc hk =
    let len = length-append m (b' ' ∷ c) in
    let s = m ++ (b' ' ∷ c) in
    let a : length s - suc n ≡ suc (length m) = omega arith in
    let b : length s - (suc n + 1) ≡ length m = omega arith in
    let l : ltb (length s) (suc n + 1) ≡ false = ground arith in
    rw (l, a, b)
      (rw (get_or-suc-length m b' ' c, hk)
        (rw (get_or-length m b' ' c, take-length m (b' ' ∷ c), drop-suc-length m b' ' c) refl))

split_checksum-valid :
    (size n : ℕ) (valid : List ℕ → List ℕ → Bool) (s p : List ℕ) (k : BufferedChecksum)
    → split_checksum size n valid s ≡ some (p, some k)
    → k.valid ≡ true
    → (s ≡ p ++ (b' ' ∷ k.value)) × (valid k.value p ≡ true)
unfolding split_checksum
split_checksum-valid size n valid s p k e v =
    let cut = cut-at (length s - (n + 1)) s in
    let tail : ltb (length s) (n + 1) ≡ false
        → drop (suc (length s - (n + 1))) s ≡ drop (length s - n) s =
      λ l. ap (λ i. drop i s) {x = suc (length s - (n + 1))} (ground arith) in
    ground (arith, cut, tail)

alphabet_table : all_below 41 (λ i. ltb (alphabet_at i) 128 && not (alphabet_at i == b' ')) ≡ true
unfolding all_below alphabet_at
alphabet_table = refl

alphabet_at-plain : (i : ℕ) → i < 41 → (alphabet_at i < 128) × ((alphabet_at i == b' ') ≡ false)
alphabet_at-plain i h =
    let t =
      all_below_sound 41 (λ i. ltb (alphabet_at i) 128 && not (alphabet_at i == b' ')) i
        alphabet_table h in
    ground arith

-- The three characters of a checksum: none is a space, and the first begins a character.
checksum16-shape :
    (crc : List ℕ → ℕ) (m : List ℕ)
    → crc m < 2 ^ 16
    → (checksum16 crc m ≡ pack16bits (crc m))
      × (length (checksum16 crc m) ≡ 3)
      × (is_continuation (get_or (checksum16 crc m) 0 0) ≡ false)
unfolding checksum16 pack16bits pad_to is_continuation
checksum16-shape crc m h = (refl, refl, ground (arith, alphabet_at-plain (crc m / 1681)))

trim-head : (x : ℕ) (s : List ℕ) → (x == b' ') ≡ false → trim_start_spaces (x ∷ s) ≡ x ∷ s
unfolding trim_start_spaces
trim-head x s h = rw h

-- A checksum that is asked for is never left out.
split_checksum-some :
    (size n : ℕ) (valid : List ℕ → List ℕ → Bool) (s p : List ℕ)
    → split_checksum size n valid s ≢ some (p, none)
unfolding split_checksum
split_checksum-some size n valid s p e = ground arith

module _ (crc16 crc32 : List ℕ → ℕ) where
  finalize-16 :
      (to command s : List ℕ)
      → unchecked to command ≡ false
      → checksum_size command ≡ 16
      → finalize_buffered_payload crc16 crc32 to command s
        ≡ split_checksum 16 3 (checksum16_valid crc16) (trim_start_spaces s)
  unfolding finalize_buffered_payload
  finalize-16 to command s hu hs = rw (hu, hs)

  valid_self :
      (m : List ℕ) → crc16 m < 2 ^ 16 → checksum16_valid crc16 (checksum16 crc16 m) m ≡ true
  unfolding checksum16_valid
  valid_self m h = (str_eq_iff _ _).1 (sym (checksum16-shape crc16 m h).0)

  -- With a CRC of 16 bits, for a checked command with a 16-bit checksum, a payload that starts with
  -- another character than a space, followed by a space and its checksum, gives that payload back
  -- with a valid checksum.
  pub finalize_buffered_payload-checksum16 :
      (to command : List ℕ) (x : ℕ) (m : List ℕ)
      → unchecked to command ≡ false
      → checksum_size command ≡ 16
      → (x == b' ') ≡ false
      → crc16 (x ∷ m) < 2 ^ 16
      → finalize_buffered_payload crc16 crc32 to command
          ((x ∷ m) ++ (b' ' ∷ checksum16 crc16 (x ∷ m)))
        ≡ some (
          x ∷ m,
          some (record { size_bits = 16; value = checksum16 crc16 (x ∷ m); valid = true }),
        )
  finalize_buffered_payload-checksum16 to command x m hu hs hx hc =
      let shape = checksum16-shape crc16 (x ∷ m) hc in
      rw (finalize-16 to command _ hu hs, trim-head x (m ++ (b' ' ∷ checksum16 crc16 (x ∷ m))) hx)
        (split_checksum-append 16 2 _ (x ∷ m) _ shape.1 shape.2
          ∙ ap
              (λ v. some (
                x ∷ m,
                some (record { size_bits = 16; value = checksum16 crc16 (x ∷ m); valid = v }),
              ))
              (valid_self (x ∷ m) hc))

  finish-16 :
      (key : BufferKey) (state : BufferState)
      → unchecked state.to state.command ≡ false
      → checksum_size state.command ≡ 16
      → finish_state crc16 crc32 key state
        ≡ elim (split_checksum 16 3
            (checksum16_valid crc16)
            (trim_start_spaces (rstrip_spaces (concat state.fragments)))) [
              | none ↦ none
              | some q ↦ some (result_event crc16 crc32 key state q)
            ]
  unfolding finish_state
  finish-16 key state hu hs = rw (
    finish_state,
    finalize-16 state.to state.command (rstrip_spaces (concat state.fragments)) hu hs,
  )

  completed-payload :
      (key : BufferKey) (state : BufferState) (p : List ℕ) (k : BufferedChecksum)
      (r : BufferedCommandResult)
      → result_event crc16 crc32 key state (p, some k) ≡ completed r
      → (r.payload ≡ p) × (k.valid ≡ true)
  unfolding result_event
  completed-payload key state p k r e = ground arith

  -- With a CRC of 16 bits, what is reported as completed for a checked command with a 16-bit
  -- checksum was received, but for spaces around it, as its payload, a space and the checksum of
  -- that payload.
  pub finish_state-completed :
      (key : BufferKey) (state : BufferState) (r : BufferedCommandResult)
      → unchecked state.to state.command ≡ false
      → checksum_size state.command ≡ 16
      → crc16 r.payload < 2 ^ 16
      → finish_state crc16 crc32 key state ≡ some (completed r)
      → trim_start_spaces (rstrip_spaces (concat state.fragments))
        ≡ r.payload ++ (b' ' ∷ checksum16 crc16 r.payload)
  unfolding checksum16_valid
  finish_state-completed key state r hu hs hc e =
      let s = trim_start_spaces (rstrip_spaces (concat state.fragments)) in
      let f = finish-16 key state hu hs in
      elim (Option-cases (split_checksum 16 3 (checksum16_valid crc16) s)) [
        | inl n ↦ ground arith
        | inr ((p, none), q) ↦ absurd (split_checksum-some 16 3 _ s p q)
        | inr ((p, some k), q) ↦
            let done = completed-payload key state p k r (ground arith) in
            let v = split_checksum-valid 16 3 _ s p k q done.1 in
            let c = (str_eq_iff (pack16bits (crc16 p)) k.value).0 v.1 in
            let h = checksum16-shape crc16 r.payload hc in
            let t = h.0 ∙ ap (λ m. pack16bits (crc16 m)) done.0 ∙ c in
            rw t (v.0 ∙ ap (λ m. m ++ (b' ' ∷ k.value)) (sym done.0))
      ]

  -- For a checked command with a 16-bit checksum, finishing a buffer panics exactly when the text
  -- between the outer spaces has at least four bytes and its last three begin inside a character.
  pub finish_state-none_iff :
      (key : BufferKey) (state : BufferState)
      → unchecked state.to state.command ≡ false
      → checksum_size state.command ≡ 16
      → (finish_state crc16 crc32 key state ≡ none) ↔ (
          (3 < length (trim_start_spaces (rstrip_spaces (concat state.fragments))))
          × (is_continuation (
                get_or
                  (trim_start_spaces (rstrip_spaces (concat state.fragments)))
                  (length (trim_start_spaces (rstrip_spaces (concat state.fragments))) - 3)
                  0)
              ≡ true))
  unfolding split_checksum
  finish_state-none_iff key state hu hs = let f = finish-16 key state hu hs in ground arith
