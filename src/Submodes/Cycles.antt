-- ===== src/Submodes/Cycles.antt =====
-- The lengths and the receive cycles of the submodes.
use js8rs.Prelude.{ℕ, ◌+◌, ◌-◌, ◌*◌, ◌%◌, ◌≤◌, ◌<◌, ◌≡◌, arith, leb, if◌then◌else◌, ap, ◌∙◌}
use js8rs.Protocol.{Submode, normal}
use js8rs.Submodes.{
  js8_rx_sample_size, samples_per_period, compute_cycle_for_decode, compute_alt_cycle_for_decode,
}

-- A position in the ring lies in the slot of its cycle.
pub compute_cycle_for_decode_bounds :
    (m : Submode) (k : ℕ)
    → k < js8_rx_sample_size
    → (compute_cycle_for_decode m k * samples_per_period m ≤ k)
      × (k < compute_cycle_for_decode m k * samples_per_period m + samples_per_period m)
unfolding compute_cycle_for_decode samples_per_period
compute_cycle_for_decode_bounds normal k h = omega arith
compute_cycle_for_decode_bounds m k h = omega arith

-- Going round the ring any number of times does not change the cycle.
pub compute_cycle_for_decode-ring :
    (m : Submode) (k : ℕ)
    → compute_cycle_for_decode m (k % js8_rx_sample_size) ≡ compute_cycle_for_decode m k
unfolding compute_cycle_for_decode samples_per_period
compute_cycle_for_decode-ring normal k = omega arith
compute_cycle_for_decode-ring m k = omega arith

-- The alternate cycle is that of any position which the offset takes to the given one, whole rounds
-- of the ring apart, also where the given one lies before the offset.
pub compute_alt_cycle_for_decode_lem :
    (m : Submode) (k offset p rounds : ℕ)
    → p + offset ≡ k + rounds * js8_rx_sample_size
    → compute_alt_cycle_for_decode m k offset ≡ compute_cycle_for_decode m p
unfolding compute_alt_cycle_for_decode
compute_alt_cycle_for_decode_lem m k offset p rounds h =
    ap (compute_cycle_for_decode m) same ∙ compute_cycle_for_decode-ring m p
  where
    same :
        (if leb offset k
            then k - offset
            else js8_rx_sample_size - (offset - k) % js8_rx_sample_size)
          % js8_rx_sample_size
        ≡ p % js8_rx_sample_size
    same = ground arith
