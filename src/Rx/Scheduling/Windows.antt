-- ===== src/Rx/Scheduling/Windows.antt =====
-- What the scheduler promises: whole windows, no window twice, and independent submodes.
use js8rs.Prelude.{
  ℕ, ◌+◌, ◌-◌, ◌*◌, ◌%◌, ◌≤◌, ◌<◌, leb, if◌then◌else◌, ◌≡◌, refl, arith, List, [], ◌∷◌, Option,
  none, some, inl, inr, Bool-cases, ◌⊎◌, leb→le, ◌==◌,
}
use js8rs.Protocol.{Submode, normal, fast, turbo, slow, ultra, discriminant}
use js8rs.Submodes.{
  samples_per_period, samples_needed, compute_cycle_for_decode, js8_rx_sample_size,
}
use js8rs.Rx.Scheduling.{
  DecodeCursor, DecodeWindow, cursor_new, must_reset, reset_if, emit_if_ready, next_decode_window,
  DecodeScheduler, next_window, cursor_of, set_cursor,
}

-- The cursor that waits for the slot at `start`.
abbrev pub at : Submode → ℕ → DecodeCursor
at m start = record { current_start = some start; next_start = some (start + samples_per_period m) }

-- What one call does once it is settled which slot it waits for.
abbrev pub outcome : Submode → ℕ → ℕ → DecodeCursor × Option DecodeWindow
outcome m k start =
    if leb (start + samples_needed m) k
    then (
      at m (start + samples_per_period m),
      some (record { cycle = compute_cycle_for_decode m k; start = start; size = k - start }),
    )
    else (at m start, none)

period_pos : (m : Submode) → 0 < samples_per_period m
unfolding samples_per_period
period_pos normal = omega arith
period_pos m = omega arith

emit_if_ready-at : (m : Submode) (k start : ℕ) → emit_if_ready m k (at m start) ≡ outcome m k start
unfolding emit_if_ready
emit_if_ready-at m k start = ground arith

-- The slot that a call waits for: that of `k` after a reset, else the cursor's.
abbrev pub slot_for : Submode → ℕ → ℕ → ℕ → ℕ
slot_for m k k0 start =
    if must_reset m k k0 (at m start)
    then compute_cycle_for_decode m k * samples_per_period m
    else start

-- A call with a new cursor waits for the slot of the position: it emits that slot's window when the
-- capture is complete, and else leaves the cursor at that slot.
pub next_decode_window-new :
    (m : Submode) (k k0 : ℕ)
    → next_decode_window m k k0 cursor_new
      ≡ outcome m k (compute_cycle_for_decode m k * samples_per_period m)
unfolding next_decode_window cursor_new reset_if must_reset
next_decode_window-new m k k0 = ground (
  arith,
  period_pos m,
  emit_if_ready-at m k (compute_cycle_for_decode m k * samples_per_period m),
)

-- A call with a waiting cursor settles on the slot of the position after a reset and else on the
-- cursor's slot, emits that slot's window when the capture is complete, with every sample up to the
-- position, and else leaves the cursor at that slot.
pub next_decode_window-at :
    (m : Submode) (k k0 start : ℕ)
    → next_decode_window m k k0 (at m start) ≡ outcome m k (slot_for m k k0 start)
unfolding next_decode_window reset_if
next_decode_window-at m k k0 start = elim (Bool-cases (must_reset m k k0 (at m start))) [
  | inl e ↦ rw e (
      ground (
        arith,
        period_pos m,
        emit_if_ready-at m k (compute_cycle_for_decode m k * samples_per_period m),
      ))
  | inr e ↦ rw e (ground (arith, period_pos m, emit_if_ready-at m k start))
]

abbrev pub prepend {ℓ} : {A : Type ℓ} → Option A → List A → List A
prepend none ws = ws
prepend (some w) ws = w ∷ ws

-- The windows of a run over successive write positions.
unfoldable pub run_windows : Submode → ℕ → DecodeCursor → List ℕ → List DecodeWindow
run_windows m k0 c [] = []
run_windows m k0 c (k ∷ ks) =
    let (c', window) = next_decode_window m k k0 c in prepend window (run_windows m k c' ks)

-- Write positions that do not go back and stay inside the ring.
abbrev pub Ascending : ℕ → List ℕ → Type 0
Ascending k0 [] = Unit {0}
Ascending k0 (k ∷ ks) = (k0 ≤ k) × (k < js8_rx_sample_size) × Ascending k ks

-- Windows at slot boundaries, each a slot or more behind the one before, from `least` on.
abbrev pub Spaced : Submode → ℕ → List DecodeWindow → Type 0
Spaced m least [] = Unit {0}
Spaced m least (w ∷ ws) =
    (w.start % samples_per_period m ≡ 0)
    × (least ≤ w.start)
    × (samples_needed m ≤ w.size)
    × Spaced m (w.start + samples_per_period m) ws

-- The cursor waits for a slot that was not handed out, `least` being the next such slot.
record Ahead (m : Submode) (k0 least start : ℕ) : Type 0 where
  slot : start % samples_per_period m ≡ 0
  ready : (least ≡ 0) ⊎ (least + samples_needed m ≤ k0 + samples_per_period m)
  whole : least % samples_per_period m ≡ 0
  unseen : least ≤ start
  near : (start ≡ least) ⊎ (start ≤ k0)

slot_for-Ahead :
    (m : Submode) (k0 k least start : ℕ)
    → Ahead m k0 least start
    → k0 ≤ k
    → k < js8_rx_sample_size
    → Ahead m k least (slot_for m k k0 start)
unfolding must_reset samples_per_period samples_needed compute_cycle_for_decode
slot_for-Ahead normal k0 k least start a le lt = ground arith
slot_for-Ahead m k0 k least start a le lt = ground arith

after_window :
    {m : Submode} {k least start : ℕ}
    → Ahead m k least start
    → start + samples_needed m ≤ k
    → Ahead m k (start + samples_per_period m) (start + samples_per_period m)
unfolding samples_per_period samples_needed
after_window {m = normal} a h = omega arith
after_window {m = m} a h = omega arith

outcome-Spaced :
    (m : Submode) (k least start : ℕ) (ks : List ℕ)
    → Ahead m k least start
    → ((e s : ℕ) → Ahead m k e s → Spaced m e (run_windows m k (at m s) ks))
    → Spaced m least (prepend (outcome m k start).1 (run_windows m k (outcome m k start).0 ks))
outcome-Spaced m k least start ks a ih = elim (Bool-cases (leb (start + samples_needed m) k)) [
  | inl e ↦
      rw e (a.slot, a.unseen, omega (arith, leb→le _ _ e), ih _ _ (after_window a (leb→le _ _ e)))
  | inr e ↦ rw e (ih least start a)
]

run_windows-Spaced :
    (m : Submode) (k0 least start : ℕ) (ks : List ℕ)
    → Ahead m k0 least start
    → Ascending k0 ks
    → Spaced m least (run_windows m k0 (at m start) ks)
unfolding run_windows
run_windows-Spaced m k0 least start [] a asc = tt
run_windows-Spaced m k0 least start (k ∷ ks) a (le, lt, asc) =
    rw (next_decode_window-at m k k0 start) (
      outcome-Spaced m k least (slot_for m k k0 start) ks
        (slot_for-Ahead m k0 k least start a le lt) (λ e s b. run_windows-Spaced m k e s ks b asc))

first-Ahead :
    (m : Submode) (k : ℕ)
    → k < js8_rx_sample_size
    → Ahead m k 0 (compute_cycle_for_decode m k * samples_per_period m)
unfolding compute_cycle_for_decode samples_per_period samples_needed
first-Ahead normal k h = ground arith
first-Ahead m k h = ground arith

-- Over a pass of the ring that starts with a new cursor, the windows start at slot boundaries, no
-- slot is handed out twice or out of order, and each window holds a whole capture.
pub run_windows-new :
    (m : Submode) (k0 : ℕ) (ks : List ℕ)
    → Ascending k0 ks
    → Spaced m 0 (run_windows m k0 cursor_new ks)
unfolding run_windows
run_windows-new m k0 [] asc = tt
run_windows-new m k0 (k ∷ ks) (le, lt, asc) =
    rw (next_decode_window-new m k k0) (
      outcome-Spaced m k 0 _ ks (first-Ahead m k lt) (λ e s b. run_windows-Spaced m k e s ks b asc))

cursor_of-set_cursor :
    (s : DecodeScheduler) (m n : Submode) (c : DecodeCursor)
    → cursor_of (set_cursor s m c) n
      ≡ (if discriminant m == discriminant n then c else cursor_of s n)
unfolding cursor_of set_cursor discriminant
cursor_of-set_cursor s normal normal c = refl
cursor_of-set_cursor s fast normal c = refl
cursor_of-set_cursor s turbo normal c = refl
cursor_of-set_cursor s slow normal c = refl
cursor_of-set_cursor s ultra normal c = refl
cursor_of-set_cursor s m n c = refl

-- A call for one submode does what it does for that submode's cursor alone, and leaves every other
-- submode's cursor as it was.
pub next_window_lem :
    (s : DecodeScheduler) (m n : Submode) (k k0 : ℕ)
    → ((next_window s m k k0).1 ≡ (next_decode_window m k k0 (cursor_of s m)).1)
      × (cursor_of (next_window s m k k0).0 n ≡ (
          if discriminant m == discriminant n
          then (next_decode_window m k k0 (cursor_of s m)).0
          else cursor_of s n))
unfolding next_window
next_window_lem s m n k k0 = (refl, cursor_of-set_cursor s m n _)
