-- ===== src/Rx/Reassembly/Streams.antt =====
-- The assembler is a family of independent streams, one for each key.
use js8rs.Prelude.{
  ℕ, true, Bool-cases, Option, none, some, Option-cases, List, ◌∷◌, if◌then◌else◌, ◌≡◌, refl, ◌↔◌,
  inl, inr, arith,
}
use js8rs.Protocol.{Submode, normal, fast, turbo, slow, ultra, discriminant}
use js8rs.Rx.Reassembly.{
  Decoded, BufferKey, BufferState, ReassemblyEvent, buffered_started, buffered_appended, completed,
  key_eq, key_of, start_state, unbuffered_result, opens_buffer, is_last_frame, append_fragment,
  finish_state, is_directed, is_compound, handle_parts, handle_directed, handle_fragment,
  push_decoded, Assembler, Step,
}
use js8rs.Rx.Reassembly.Buffers.{get, get-insert, get-remove}

discriminant_inj : (m n : Submode) → discriminant m ≡ discriminant n → m ≡ n
unfolding discriminant
discriminant_inj normal normal e = refl
discriminant_inj fast normal e = absurd (omega arith)
discriminant_inj turbo normal e = absurd (omega arith)
discriminant_inj slow normal e = absurd (omega arith)
discriminant_inj ultra normal e = absurd (omega arith)
discriminant_inj m n e = ground arith

pub key_eq_iff : (a b : BufferKey) → (key_eq a b ≡ true) ↔ (a ≡ b)
unfolding key_eq
key_eq_iff a b = ground (arith, discriminant_inj a.submode b.submode)

module _ (crc16 crc32 : List ℕ → ℕ) where
  abbrev pub StreamStep : Type 0
  StreamStep = Option (Option BufferState × Option ReassemblyEvent)

  unfoldable pub stream_fragment : Decoded → Option BufferState → StreamStep
  stream_fragment decoded none = some (none, none)
  stream_fragment decoded (some state) =
      let key = key_of decoded in
      let state' = append_fragment decoded state in
      if is_last_frame decoded
      then elim (finish_state crc16 crc32 key state') [
        | none ↦ none
        | some event ↦ some (none, some event)
      ]
      else some (some state', some (buffered_appended key))

  unfoldable pub stream_parts : Decoded → Option BufferState → List (List ℕ) → StreamStep
  stream_parts decoded state (from ∷ to ∷ command ∷ rest) =
      if opens_buffer (is_last_frame decoded) from to command
      then some
          (some (start_state decoded from to command), some (buffered_started (key_of decoded)))
      else some (
        state,
        some (completed (unbuffered_result (key_of decoded) decoded from to command rest)),
      )
  stream_parts decoded state parts = some (state, none)

  -- What one frame does to the stream of its key: the buffer it leaves, if any, and its event.
  unfoldable pub stream_step : Decoded → Option BufferState → StreamStep
  stream_step decoded state =
      if is_directed decoded.frame
      then stream_parts decoded state decoded.frame.directed
      else if is_compound decoded.frame
      then some (state, none)
      else stream_fragment decoded state

  -- The buffer under a key, with the event.
  abbrev pub view : BufferKey → Step → StreamStep
  view k none = none
  view k (some (buffers, event)) = some (get key_eq k buffers, event)

  key_eq_self : (k : BufferKey) → key_eq k k ≡ true
  key_eq_self k = (key_eq_iff k k).1 refl

  view-handle_parts :
      (d : Decoded) (m : Assembler) (parts : List (List ℕ))
      → view (key_of d) (handle_parts (key_of d) d (is_last_frame d) m parts)
        ≡ stream_parts d (get key_eq (key_of d) m) parts
  unfolding handle_parts stream_parts
  view-handle_parts d m (from ∷ to ∷ command ∷ rest) =
      elim (Bool-cases (opens_buffer (is_last_frame d) from to command)) [
        | inl e ↦ rw e (rw (get-insert key_eq key_eq_iff, key_eq_self (key_of d)))
        | inr e ↦ rw e
      ]
  view-handle_parts d m parts = refl

  view-handle_fragment :
      (d : Decoded) (m : Assembler) (state : Option BufferState)
      → get key_eq (key_of d) m ≡ state
      → view (key_of d) (handle_fragment crc16 crc32 (key_of d) d m state) ≡ stream_fragment d state
  unfolding handle_fragment stream_fragment
  view-handle_fragment d m none e = rw e
  view-handle_fragment d m (some state) e = elim (Bool-cases (is_last_frame d)) [
    | inl l ↦ elim (Option-cases (finish_state crc16 crc32 (key_of d) (append_fragment d state))) [
      | inl f ↦ rw (l, f)
      | inr (ev, f) ↦ rw (l, f) (rw (get-remove key_eq key_eq_iff, key_eq_self (key_of d)))
    ]
    | inr l ↦ rw l (rw (get-insert key_eq key_eq_iff, key_eq_self (key_of d)))
  ]

  -- To the buffer of its own key, and in its event, a frame does what a single stream's step does,
  -- panics included.
  pub view-push_decoded :
      (d : Decoded) (m : Assembler)
      → view (key_of d) (push_decoded crc16 crc32 d m) ≡ stream_step d (get key_eq (key_of d) m)
  unfolding push_decoded stream_step handle_directed
  view-push_decoded d m = elim (Bool-cases (is_directed d.frame)) [
    | inl e ↦ rw e (view-handle_parts d m d.frame.directed)
    | inr e ↦ elim (Bool-cases (is_compound d.frame)) [
      | inl c ↦ rw (e, c)
      | inr c ↦ rw (e, c) (view-handle_fragment d m _ refl)
    ]
  ]
