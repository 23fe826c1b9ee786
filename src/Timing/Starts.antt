-- ===== src/Timing/Starts.antt =====
-- When a transmission may start: the boundary of late starts, and the next start that is offered.
use js8rs.Prelude.{
  ℕ, suc, ◌^◌, ◌+◌, ◌-◌, ◌*◌, ◌%◌, ◌≤◌, ◌<◌, ◌≡◌, refl, ap, arith, Bool, true, false, ◌||◌, leb,
  Bool-cases, inl, inr, if◌then◌else◌,
}
use js8rs.Prelude.Double.{F64, from_ℕ, add, div, less, rounded, round}
use js8rs.Protocol.{Submode, normal, fast, turbo, slow, ultra}
use js8rs.Timing.{
  period_seconds, tx_delay_ms, TxTimingConfig, TransmitSlot, compute_slot, tx_duration, params,
  late_threshold, next_viable_start_ms, should_start_tx_now,
}

-- A transmission with something to send, with the transmitter off, starts now.
abbrev pub starts : Bool → TransmitSlot → Bool
starts experimental slot = should_start_tx_now experimental slot false 1

-- The beginning of a slot is early enough, or the delay is as long as the slot.
abbrev pub opens_at_start : Submode → TxTimingConfig → Bool
opens_at_start m config =
    less (from_ℕ 0) (late_threshold m config) || leb (period_seconds m * 1000) (tx_delay_ms config)

-- The moment is so far from the end of the range that the next two slots end below it.
abbrev pub Fits : ℕ → Type 0
Fits now = now + 60000 < 2 ^ 64

period_bounds : (m : Submode) → (0 < period_seconds m) × (period_seconds m ≤ 30)
unfolding period_seconds
period_bounds normal = omega arith
period_bounds m = omega arith

-- Where the slot of a moment ends.
slot_end_bounds :
    (m : Submode) (now : ℕ) (config : TxTimingConfig)
    → Fits now
    → let slot = compute_slot m now config in
      (now < slot.slot_end_ms)
      × (slot.slot_end_ms ≤ now + 30000)
      × (slot.slot_end_ms % (period_seconds m * 1000) ≡ 0)
unfolding compute_slot period_seconds
slot_end_bounds normal now config fits = omega (arith, fits)
slot_end_bounds fast now config fits = omega (arith, fits)
slot_end_bounds turbo now config fits = omega (arith, fits)
slot_end_bounds slow now config fits = omega (arith, fits)
slot_end_bounds ultra now config fits = omega (arith, fits)

-- The fraction of a slot that starts.
start_fraction : Submode → F64
start_fraction m = div (div (from_ℕ 0) (from_ℕ 1000)) (from_ℕ (period_seconds m))

start_fraction_lem : (m : Submode) → start_fraction m ≡ from_ℕ 0
unfolding start_fraction div from_ℕ rounded round period_seconds
start_fraction_lem normal = refl
start_fraction_lem m = refl

sends_at_start : (m : Submode) → less (div (from_ℕ 0) (from_ℕ 1000)) (tx_duration m) ≡ true
unfolding less div add from_ℕ rounded round tx_duration
sends_at_start normal = refl
sends_at_start m = refl

-- Whether a transmission may start at the beginning of a slot.
starts-slot_start :
    (m : Submode) (now : ℕ) (config : TxTimingConfig) (x : Bool)
    → now % (period_seconds m * 1000) ≡ 0
    → now + period_seconds m * 1000 < 2 ^ 64
    → starts x (compute_slot m now config) ≡ (x || opens_at_start m config)
unfolding should_start_tx_now params compute_slot start_fraction
starts-slot_start m now config true begins fits = refl
starts-slot_start m now config false begins fits =
    let period = period_seconds m * 1000 in
    let delay = tx_delay_ms config in
    let window : leb ((now - 0 + period) % 2 ^ 64 - delay) now ≡ leb period delay =
      ground (arith, fits) in
    rw (begins, window)
      (rw (ap (λ f. less f (late_threshold m config)) (start_fraction_lem m))
        (ground (arith, sends_at_start m)))

next_viable_start_ms_lem :
    (m : Submode) (now : ℕ) (config : TxTimingConfig) (x : Bool)
    → next_viable_start_ms x (compute_slot m now config) ≡ (
        if starts x (compute_slot m now config)
        then now
        else (compute_slot m now config).slot_end_ms)
unfolding next_viable_start_ms should_start_tx_now compute_slot
next_viable_start_ms_lem m now config x = ground arith

-- At the start that is offered, when the next slots end before the clock does, a message may start
-- exactly when it may start now, or the feature experimental-time is on, or the beginning of a slot
-- is early enough or its delay is as long as the slot.
pub starts-next_viable :
    (m : Submode) (now : ℕ) (config : TxTimingConfig) (x : Bool)
    → Fits now
    → starts x (compute_slot m (next_viable_start_ms x (compute_slot m now config)) config)
      ≡ (starts x (compute_slot m now config) || x || opens_at_start m config)
starts-next_viable m now config x fits =
    let (behind, near, begins) = slot_end_bounds m now config fits in
    let end = (compute_slot m now config).slot_end_ms in
    let later =
      starts-slot_start m end config x begins (omega (arith, period_bounds m, near, fits)) in
    let here = starts x (compute_slot m now config) in
    elim (Bool-cases here) [
      | inl e ↦ rw (next_viable_start_ms_lem m now config x, e) e
      | inr e ↦ rw (next_viable_start_ms_lem m now config x, e) later
    ]

-- In a submode and configuration in which the beginning of a slot is early enough, or the delay is
-- as long as the slot, and when the next slots end before the clock does, the start that is offered
-- is not in the past and not behind the end of the slot, and at that time a message that is not
-- empty may start when the transmitter is off.
pub next_viable_start-starts :
    (m : Submode) (now : ℕ) (config : TxTimingConfig) (x : Bool) (msg_len : ℕ)
    → Fits now
    → opens_at_start m config ≡ true
    → let next = next_viable_start_ms x (compute_slot m now config) in
      (now ≤ next)
      × (next ≤ (compute_slot m now config).slot_end_ms)
      × (should_start_tx_now x (compute_slot m next config) false (suc msg_len) ≡ true)
next_viable_start-starts m now config x msg_len fits opens =
    let slot_ends = slot_end_bounds m now config fits in
    let next = next_viable_start_ms_lem m now config x in
    let starting = starts-next_viable m now config x fits in
    unfold should_start_tx_now in ground (arith, slot_ends, next, starting, opens)
