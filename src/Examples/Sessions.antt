-- ===== src/Examples/Sessions.antt =====
-- A pass of the decoder that finds a frame twice, and moments of a transmit slot.
use js8rs.Prelude.{
  ℕ, ◌+◌, ◌≤◌, ◌≡◌, refl, ◌↔◌, arith, true, false, ◌||◌, none, some, List, [], ◌∷◌, length, codes,
  str_eq,
}
use js8rs.Prelude.Int.{ℤ, pos}
use js8rs.Protocol.{Submode, normal, ultra, flags_none, discriminant, modes_contains, modes_from}
use js8rs.Submodes.{samples_per_period}
use js8rs.Rx.Session.{
  Decoded, Event, decoded, decode_finished, modes, starts, Decoder, decoder_new, config_default,
  Pass, DecodeParams, stream_params, decode_stream, event_loop, on_event, remember, mode_loop,
  mode_step, entry_of, repeats, encoded_bytes, start_of, mode_position, window_from_kin,
  clamp_offset,
}
use js8rs.Rx.Session.Repeats.{reported, found, Distinct, Covers}
use js8rs.Rx.Session.Passes.{
  AllAdvance, decode_stream-Distinct, decode_stream-Covers, stream_starts-AllAdvance,
}
use js8rs.Prelude.Double.{from_ℕ, add, sub, mul, div, less, floor, max_zero, to_u64, rounded, round}
use js8rs.Timing.{
  TxTimingConfig, compute_slot, next_viable_start_ms, should_start_tx_now, late_threshold,
  compute_ratio, data_duration, tr_period_of, period_seconds, params, late_threshold_multiplier,
  tx_duration, as_secs_f64, tx_delay_ms,
}
use js8rs.Timing.Starts.{
  Fits, opens_at_start, starts as starts_now, starts-next_viable, next_viable_start-starts,
}

-- Here a time offset is a number of samples.
abbrev offset : ℕ → Submode → ℤ
offset time m = pos time

abbrev heard_at : ℕ → Decoded ℕ
heard_at time = record {
  encoded = codes "ABCDEFGHIJKL";
  flags = flags_none;
  submode = normal;
  time_offset_seconds = time;
  sample_position = none;
}

abbrev heard_events : List (Event ℕ (Unit {0}))
heard_events =
    decoded (heard_at 100)
    ∷ decoded (heard_at 400)
    ∷ decoded (heard_at 120000)
    ∷ decode_finished 3
    ∷ []

abbrev find_all : ℕ → List ℤ → DecodeParams → ℕ × List (Event ℕ (Unit {0}))
find_all core samples params = (core + 1, heard_events)

abbrev listening : Decoder ℕ
listening = decoder_new 0

abbrev silence : List ℤ
silence = pos 0 ∷ pos 0 ∷ []

abbrev first_pass : Pass ℕ ℕ (Unit {0})
first_pass = decode_stream find_all offset listening silence 400000 config_default

decode_stream-Distinct_example : Distinct (reported first_pass.emitted)
decode_stream-Distinct_example =
    decode_stream-Distinct find_all offset listening silence 400000 config_default

decode_stream-Covers_example :
    Covers [] (found offset (starts 400000 2) heard_events) (reported first_pass.emitted)
unfolding decoder_new
decode_stream-Covers_example =
    decode_stream-Covers find_all offset listening silence 400000 config_default

stream_starts-AllAdvance_example :
    ((stream_params listening silence 400000 config_default).stream_starts ≡ some (starts 400000 2))
    ↔ AllAdvance config_default 400000 2 modes listening.ends
stream_starts-AllAdvance_example = stream_starts-AllAdvance listening silence 400000 config_default

-- The second frame repeats the first, the third is more than half a slot later.
reported_twice : length (reported first_pass.emitted) ≡ 2
unfolding decode_stream reported event_loop on_event remember mode_loop mode_step modes_contains
    modes_from decoder_new entry_of repeats encoded_bytes start_of mode_position starts
    window_from_kin clamp_offset samples_per_period str_eq discriminant
reported_twice = refl

-- One second of delay in slots of fifteen seconds.
abbrev one_second : TxTimingConfig
one_second = record { tx_delay = 1000000000; tr_period = 15000000000 }

opens : opens_at_start normal one_second ≡ true
unfolding late_threshold compute_ratio data_duration tr_period_of period_seconds
    late_threshold_multiplier as_secs_f64 tx_delay_ms from_ℕ add sub mul div less to_u64 rounded
    round
opens = refl

soon : Fits 6000
soon = omega arith

next_viable_start-starts_example :
    let next = next_viable_start_ms false (compute_slot normal 6000 one_second) in
    (6000 ≤ next)
    × (next ≤ (compute_slot normal 6000 one_second).slot_end_ms)
    × (should_start_tx_now false (compute_slot normal next one_second) false 3 ≡ true)
next_viable_start-starts_example =
    next_viable_start-starts normal 6000 one_second false 2 soon opens

starts-next_viable_example :
    starts_now false (
      compute_slot normal
        (next_viable_start_ms false (compute_slot normal 6000 one_second))
        one_second)
    ≡ (starts_now false (compute_slot normal 6000 one_second)
        || false
        || opens_at_start normal one_second)
starts-next_viable_example = starts-next_viable normal 6000 one_second false soon

-- With three seconds of delay the beginning of a slot is too late, although it is offered.
abbrev three_seconds : TxTimingConfig
three_seconds = record { tx_delay = 3000000000; tr_period = 15000000000 }

offered_too_late :
    (next_viable_start_ms false (compute_slot normal 6000 three_seconds) ≡ 15000)
    × (starts_now false (compute_slot normal 15000 three_seconds) ≡ false)
unfolding next_viable_start_ms should_start_tx_now params compute_slot late_threshold compute_ratio
    data_duration tr_period_of period_seconds late_threshold_multiplier tx_duration as_secs_f64
    tx_delay_ms from_ℕ add sub mul div less floor max_zero to_u64 rounded round
offered_too_late = (refl, refl)

-- Without a delay the millisecond 2359 is early enough, and the bound of the latest start excludes
-- it: the product that gives the bound is rounded to below 2360, and then down.
abbrev no_delay : TxTimingConfig
no_delay = record { tx_delay = 0; tr_period = 15000000000 }

bound_too_low :
    ((params false (compute_slot normal 2359 no_delay)).allowed_to_start_now ≡ true)
    × ((compute_slot normal 2359 no_delay).latest_start_ms_exclusive ≡ 2359)
unfolding params compute_slot late_threshold compute_ratio data_duration tr_period_of period_seconds
    late_threshold_multiplier tx_duration as_secs_f64 tx_delay_ms from_ℕ add sub mul div less floor
    max_zero to_u64 rounded round
bound_too_low = (refl, refl)

-- In the shortest slots a delay of 344 milliseconds leaves the millisecond 564 just early enough.
abbrev long_delay : TxTimingConfig
long_delay = record { tx_delay = 344000000; tr_period = 4000000000 }

just_in_time : (params false (compute_slot ultra 564 long_delay)).allowed_to_start_now ≡ true
unfolding params compute_slot late_threshold compute_ratio data_duration tr_period_of period_seconds
    late_threshold_multiplier tx_duration as_secs_f64 tx_delay_ms from_ℕ add sub mul div less floor
    max_zero to_u64 rounded round
just_in_time = refl

-- A delay of 1001 milliseconds is cut to 1000 by its way through seconds.
cut_delay : tx_delay_ms (record { tx_delay = 1001000000; tr_period = 15000000000 }) ≡ 1000
unfolding tx_delay_ms as_secs_f64 from_ℕ add mul div to_u64 rounded round
cut_delay = refl
