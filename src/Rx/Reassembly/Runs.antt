-- ===== src/Rx/Reassembly/Runs.antt =====
-- Runs of the assembler over interleaved streams.
use js8rs.Prelude.{
  ℕ, true, false, Bool-cases, Option, none, some, Option-cases, List, [], ◌∷◌, if◌then◌else◌, ◌≡◌,
  sym, ap, ◌∙◌, inl, inr, arith,
}
use js8rs.Rx.Reassembly.{
  Decoded, BufferKey, BufferState, ReassemblyEvent, key_eq, key_of, start_state, is_last_frame,
  append_fragment, handle_parts, handle_directed, handle_fragment, push_decoded, Assembler,
}
use js8rs.Rx.Reassembly.Buffers.{get, get-insert, get-remove}
use js8rs.Rx.Reassembly.Streams.{key_eq_iff, stream_step, view, view-push_decoded}

-- The frames of one stream.
unfoldable pub own : BufferKey → List Decoded → List Decoded
own k [] = []
own k (d ∷ ds) = let rest = own k ds in if key_eq (key_of d) k then d ∷ rest else rest

-- The events of one stream.
unfoldable pub events_of :
    BufferKey → List (BufferKey × Option ReassemblyEvent) → List (Option ReassemblyEvent)
events_of k [] = []
events_of k ((j, e) ∷ es) = let rest = events_of k es in if key_eq j k then e ∷ rest else rest

module _ (crc16 crc32 : List ℕ → ℕ) where
  -- The frames in their order, each with its key and event; `none` is a panic of one of them.
  unfoldable pub run_frames :
      List Decoded → Assembler → Option (Assembler × List (BufferKey × Option ReassemblyEvent))
  run_frames [] m = some (m, [])
  run_frames (d ∷ ds) m = elim (push_decoded crc16 crc32 d m) [
    | none ↦ none
    | some r ↦ elim (run_frames ds r.0) [ none ↦ none | some q ↦ some (q.0, (key_of d, r.1) ∷ q.1) ]
  ]

  unfoldable pub run_stream :
      List Decoded
      → Option BufferState
      → Option (Option BufferState × List (Option ReassemblyEvent))
  run_stream [] s = some (s, [])
  run_stream (d ∷ ds) s = elim (stream_step crc16 crc32 d s) [
    | none ↦ none
    | some r ↦ elim (run_stream ds r.0) [ none ↦ none | some q ↦ some (q.0, r.1 ∷ q.1) ]
  ]

  other-handle_parts :
      (d : Decoded) (k : BufferKey) (m : Assembler) (parts : List (List ℕ))
      (p : Assembler × Option ReassemblyEvent)
      → key_eq (key_of d) k ≡ false
      → handle_parts (key_of d) d (is_last_frame d) m parts ≡ some p
      → get key_eq k p.0 ≡ get key_eq k m
  unfolding handle_parts
  other-handle_parts d k m (from ∷ to ∷ command ∷ rest) p n e =
      ground (arith, get-insert key_eq key_eq_iff (key_of d) k (start_state d from to command) m)
  other-handle_parts d k m parts p n e = ground arith

  other-handle_fragment :
      (d : Decoded) (k : BufferKey) (m : Assembler) (state : Option BufferState)
      (p : Assembler × Option ReassemblyEvent)
      → key_eq (key_of d) k ≡ false
      → handle_fragment crc16 crc32 (key_of d) d m state ≡ some p
      → get key_eq k p.0 ≡ get key_eq k m
  unfolding handle_fragment
  other-handle_fragment d k m none p n e = ground arith
  other-handle_fragment d k m (some state) p n e = ground (
    arith,
    get-insert key_eq key_eq_iff (key_of d) k (append_fragment d state) m,
    get-remove key_eq key_eq_iff (key_of d) k m,
  )

  -- A frame that does not panic leaves the buffers of all other keys as they are.
  pub get-push_decoded-other :
      (d : Decoded) (k : BufferKey) (m : Assembler) (p : Assembler × Option ReassemblyEvent)
      → key_eq (key_of d) k ≡ false
      → push_decoded crc16 crc32 d m ≡ some p
      → get key_eq k p.0 ≡ get key_eq k m
  unfolding push_decoded handle_directed
  get-push_decoded-other d k m p n e = ground (
    arith,
    other-handle_parts d k m d.frame.directed p n,
    other-handle_fragment d k m (get key_eq (key_of d) m) p n,
  )

  stream_step-own :
      (k : BufferKey) (d : Decoded) (m : Assembler) (r : Assembler × Option ReassemblyEvent)
      → key_eq (key_of d) k ≡ true
      → push_decoded crc16 crc32 d m ≡ some r
      → stream_step crc16 crc32 d (get key_eq k m) ≡ some (get key_eq k r.0, r.1)
  stream_step-own k d m r o p =
      rw (sym ((key_eq_iff (key_of d) k).0 o))
        (sym (view-push_decoded crc16 crc32 d m) ∙ ap (view crc16 crc32 (key_of d)) p)

  run_frames-cons :
      (d : Decoded) (ds : List Decoded) (m : Assembler) (r : Assembler × Option ReassemblyEvent)
      (t q : Assembler × List (BufferKey × Option ReassemblyEvent))
      → push_decoded crc16 crc32 d m ≡ some r
      → run_frames ds r.0 ≡ some t
      → run_frames (d ∷ ds) m ≡ some q
      → q ≡ (t.0, (key_of d, r.1) ∷ t.1)
  unfolding run_frames
  run_frames-cons d ds m r t q p u e = ground arith

  run_stream-cons :
      (d : Decoded) (s : Option BufferState) (r : Assembler × Option ReassemblyEvent)
      (ds : List Decoded) (s' : Option BufferState)
      (q : Option BufferState × List (Option ReassemblyEvent))
      → stream_step crc16 crc32 d s ≡ some (s', r.1)
      → run_stream ds s' ≡ some q
      → run_stream (d ∷ ds) s ≡ some (q.0, r.1 ∷ q.1)
  unfolding run_stream
  run_stream-cons d s r ds s' q p e = rw (run_stream, p) (rw e)

  -- A run over interleaved streams that does not panic leaves each stream's buffer, and raises each
  -- stream's events, as a run over the frames of that stream alone does.
  pub run_stream-own :
      (k : BufferKey) (ds : List Decoded) (m : Assembler)
      (q : Assembler × List (BufferKey × Option ReassemblyEvent))
      → run_frames ds m ≡ some q
      → run_stream (own k ds) (get key_eq k m) ≡ some (get key_eq k q.0, events_of k q.1)
  unfolding run_frames run_stream own events_of
  run_stream-own k [] m q e = ground arith
  run_stream-own k (d ∷ ds) m q e = elim (Option-cases (push_decoded crc16 crc32 d m)) [
    | inl p ↦ ground arith
    | inr (r, p) ↦ elim (Option-cases (run_frames ds r.0)) [
      | inl u ↦ ground arith
      | inr (t, u) ↦ elim (Bool-cases (key_eq (key_of d) k)) [
        | inl o ↦
            rw (run_frames-cons d ds m r t q p u e, o)
              (run_stream-cons d _ r (own k ds) _ _ (stream_step-own k d m r o p)
                (run_stream-own k ds r.0 t u))
        | inr o ↦
            rw (run_frames-cons d ds m r t q p u e, o, sym (get-push_decoded-other d k m r o p))
              (run_stream-own k ds r.0 t u)
      ]
    ]
  ]
