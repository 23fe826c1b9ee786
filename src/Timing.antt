-- ===== src/Timing.antt =====
-- src/timing.rs: where a moment lies in its transmit slot, and whether a transmission may start.
-- Seconds are doubles, which round as the source's do. A duration is a number of nanoseconds. The
-- feature `experimental-time` is an argument. An addition that the source does not saturate wraps,
-- as it does in a build without overflow checks.
pub mod Starts
use js8rs.Prelude.{
  ℕ, ◌+◌, ◌-◌, ◌*◌, ◌/◌, ◌%◌, ◌^◌, min, Bool, true, false, not, ◌&&◌, ◌||◌, ltb, leb, ◌==◌,
  if◌then◌else◌,
}
use js8rs.Prelude.Double.{F64, from_ℕ, add, sub, mul, div, less, floor, max_zero, to_u64}
use js8rs.Protocol.{Submode, normal, fast, turbo, slow, ultra}
use js8rs.Submodes.{submode_data, js8_rx_sample_rate}

unfoldable pub period_seconds : Submode → ℕ
unfolding submode_data
period_seconds m = (submode_data m).period_s

-- `u64::saturating_add`
abbrev pub saturating_add : ℕ → ℕ → ℕ
saturating_add a b = min (2 ^ 64 - 1) (a + b)

unfoldable pub data_duration : Submode → F64
unfolding submode_data
data_duration m = div (from_ℕ (submode_data m).samples_for_symbols) (from_ℕ js8_rx_sample_rate)

unfoldable pub tx_duration : Submode → F64
unfolding submode_data data_duration
tx_duration m = add (data_duration m) (div (from_ℕ (submode_data m).start_delay_ms) (from_ℕ 1000))

unfoldable pub compute_ratio : Submode → F64
unfolding data_duration period_seconds
compute_ratio m =
    let period = from_ℕ (period_seconds m) in div (sub period (data_duration m)) period

unfoldable pub late_threshold_multiplier : Submode → F64
late_threshold_multiplier normal = from_ℕ 1
late_threshold_multiplier fast = div (from_ℕ 3) (from_ℕ 4)
late_threshold_multiplier turbo = div (from_ℕ 1) (from_ℕ 2)
late_threshold_multiplier slow = from_ℕ 1
late_threshold_multiplier ultra = div (from_ℕ 1) (from_ℕ 2)

abbrev pub nanoseconds : ℕ
nanoseconds = 1000000000

-- `Duration::as_secs_f64`: the whole seconds, and the rest.
unfoldable pub as_secs_f64 : ℕ → F64
as_secs_f64 duration =
    add (from_ℕ (duration / nanoseconds))
      (div (from_ℕ (duration % nanoseconds)) (from_ℕ nanoseconds))

-- Nanoseconds.
pub record TxTimingConfig : Type 0 where
  pub tx_delay : ℕ
  pub tr_period : ℕ

unfoldable pub for_submode : ℕ → Submode → TxTimingConfig
for_submode tx_delay m = record { tx_delay = tx_delay; tr_period = period_seconds m * nanoseconds }

pub record TransmitSlot : Type 0 where
  pub submode : Submode
  pub now_unix_ms : ℕ
  pub period_seconds : ℕ
  pub period_ms : ℕ
  pub slot_start_ms : ℕ
  pub slot_end_ms : ℕ
  pub ms_into_slot : ℕ
  pub seconds_into_slot : F64
  pub fraction_into_slot : F64
  pub tx_duration_seconds : F64
  pub tx_window_end_ms : ℕ
  pub tx_delay_seconds : F64
  pub tx_delay_window_start_ms : ℕ
  pub late_threshold_fraction : F64
  pub latest_start_ms_exclusive : ℕ

unfoldable pub tr_period_of : Submode → TxTimingConfig → F64
unfolding as_secs_f64
tr_period_of m config =
    let configured = as_secs_f64 config.tr_period in
    if less (from_ℕ 0) configured then configured else from_ℕ (period_seconds m)

unfoldable pub late_threshold : Submode → TxTimingConfig → F64
unfolding tr_period_of
late_threshold m config =
    let share = div (as_secs_f64 config.tx_delay) (tr_period_of m config) in
    mul (sub (compute_ratio m) share) (late_threshold_multiplier m)

unfoldable pub tx_delay_ms : TxTimingConfig → ℕ
unfolding as_secs_f64
tx_delay_ms config = to_u64 (mul (as_secs_f64 config.tx_delay) (from_ℕ 1000))

unfoldable pub compute_slot : Submode → ℕ → TxTimingConfig → TransmitSlot
unfolding tx_delay_ms
compute_slot m now_unix_ms config =
    let period_ms = period_seconds m * 1000 in
    let ms_into_slot = now_unix_ms % period_ms in
    let slot_start_ms = now_unix_ms - ms_into_slot in
    let slot_end_ms = (slot_start_ms + period_ms) % 2 ^ 64 in
    let seconds_into_slot = div (from_ℕ ms_into_slot) (from_ℕ 1000) in
    let threshold = late_threshold m config in
    let boundary = floor (mul threshold (from_ℕ period_ms)) in
    record {
      submode = m;
      now_unix_ms = now_unix_ms;
      period_seconds = period_seconds m;
      period_ms = period_ms;
      slot_start_ms = slot_start_ms;
      slot_end_ms = slot_end_ms;
      ms_into_slot = ms_into_slot;
      seconds_into_slot = seconds_into_slot;
      fraction_into_slot = div seconds_into_slot (from_ℕ (period_seconds m));
      tx_duration_seconds = tx_duration m;
      tx_window_end_ms = saturating_add slot_start_ms (to_u64 (mul (tx_duration m) (from_ℕ 1000)));
      tx_delay_seconds = as_secs_f64 config.tx_delay;
      tx_delay_window_start_ms = slot_end_ms - tx_delay_ms config;
      late_threshold_fraction = threshold;
      latest_start_ms_exclusive = saturating_add slot_start_ms (to_u64 (max_zero boundary));
    }

pub record TimingParams : Type 0 where
  pub in_tx_delay_window : Bool
  pub in_tx_payload_window : Bool
  pub time_is_in_send_region : Bool
  pub allowed_to_start_now : Bool
  pub too_late_to_start : Bool

unfoldable pub params : Bool → TransmitSlot → TimingParams
params experimental_time slot =
    let in_tx_delay_window =
      not experimental_time && leb slot.tx_delay_window_start_ms slot.now_unix_ms in
    let in_tx_payload_window =
      experimental_time || less slot.seconds_into_slot slot.tx_duration_seconds in
    let allowed_to_start_now =
      experimental_time
      || less slot.fraction_into_slot slot.late_threshold_fraction
      || in_tx_delay_window in
    record {
      in_tx_delay_window = in_tx_delay_window;
      in_tx_payload_window = in_tx_payload_window;
      time_is_in_send_region = in_tx_payload_window || in_tx_delay_window;
      allowed_to_start_now = allowed_to_start_now;
      too_late_to_start = not allowed_to_start_now;
    }

unfoldable pub slot_index : TransmitSlot → ℕ
slot_index slot = slot.now_unix_ms / slot.period_ms

unfoldable pub next_viable_start_ms : Bool → TransmitSlot → ℕ
next_viable_start_ms experimental_time slot =
    let a = params experimental_time slot in
    if a.allowed_to_start_now && a.time_is_in_send_region
    then slot.now_unix_ms
    else slot.slot_end_ms

unfoldable pub should_start_tx_now : Bool → TransmitSlot → Bool → ℕ → Bool
should_start_tx_now experimental_time slot ptt_active msg_len =
    if ptt_active
    then false
    else if msg_len == 0
    then false
    else let a = params experimental_time slot in a.time_is_in_send_region && a.allowed_to_start_now
