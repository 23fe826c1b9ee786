-- ===== src/Submodes.antt =====
-- src/submode.rs and the constants of src/internal/commons.rs: the parameters of each submode.
-- A floating-point parameter is kept as an exact count of thousandths.
pub mod Cycles
use js8rs.Prelude.{ℕ, ◌+◌, ◌-◌, ◌*◌, ◌/◌, ◌%◌, ◌≤◌, List, ◌∷◌, [], leb, if◌then◌else◌, codes}
use js8rs.Prelude.Int.{ℤ, negsuc}
use js8rs.Protocol.{Submode, normal, fast, turbo, slow, ultra}

pub data CostasType : Type 0 where
  original modified : CostasType

abbrev pub js8_ntmax : ℕ
js8_ntmax = 60

abbrev pub js8_rx_sample_rate : ℕ
js8_rx_sample_rate = 12000

abbrev pub js8_rx_sample_size : ℕ
js8_rx_sample_size = js8_ntmax * js8_rx_sample_rate

abbrev pub js8_num_symbols : ℕ
js8_num_symbols = 79

pub record SubmodeData : Type 0 where
  pub name : List ℕ
  pub samples_for_one_symbol : ℕ
  pub start_delay_ms : ℕ
  pub period_s : ℕ
  pub costas : CostasType
  -- A threshold in decibels, as the source's `i32`.
  pub rx_snr_threshold : ℤ
  pub rx_threshold : ℕ
  pub samples_for_symbols : ℕ
  pub bandwidth : ℕ
  pub samples_per_period : ℕ
  -- Thousandths of a hertz.
  pub tone_spacing : ℕ
  pub samples_needed : ℕ
  -- Milliseconds.
  pub data_duration : ℕ
  pub tx_duration : ℕ

unfoldable pub data_new : List ℕ → ℕ → ℕ → ℕ → CostasType → ℤ → ℕ → SubmodeData
data_new name symbol delay period costas snr threshold =
    let samples_for_symbols = js8_num_symbols * symbol in
    let data_duration = samples_for_symbols * 1000 / js8_rx_sample_rate in
    record {
      name = name;
      samples_for_one_symbol = symbol;
      start_delay_ms = delay;
      period_s = period;
      costas = costas;
      rx_snr_threshold = snr;
      rx_threshold = threshold;
      samples_for_symbols = samples_for_symbols;
      bandwidth = 8 * js8_rx_sample_rate / symbol;
      samples_per_period = js8_rx_sample_rate * period;
      tone_spacing = js8_rx_sample_rate * 1000 / symbol;
      samples_needed =
          samples_for_symbols + js8_rx_sample_rate / 2 + delay * js8_rx_sample_rate / 1000;
      data_duration = data_duration;
      tx_duration = data_duration + delay;
    }

-- `negsuc n` is -(n + 1).
unfoldable pub submode_data : Submode → SubmodeData
unfolding data_new
submode_data normal = data_new (codes "NORMAL") 1920 500 15 original (negsuc 23) 10
submode_data fast = data_new (codes "FAST") 1200 200 10 modified (negsuc 21) 16
submode_data turbo = data_new (codes "TURBO") 600 100 6 modified (negsuc 19) 32
submode_data slow = data_new (codes "SLOW") 3840 500 30 modified (negsuc 27) 10
submode_data ultra = data_new (codes "ULTRA") 384 100 4 modified (negsuc 17) 50

unfoldable pub samples_per_period : Submode → ℕ
unfolding submode_data
samples_per_period m = (submode_data m).samples_per_period

unfoldable pub samples_needed : Submode → ℕ
unfolding submode_data
samples_needed m = (submode_data m).samples_needed

unfoldable pub compute_cycle_for_decode : Submode → ℕ → ℕ
compute_cycle_for_decode m k =
    k / samples_per_period m % (js8_rx_sample_size / samples_per_period m)

unfoldable pub compute_alt_cycle_for_decode : Submode → ℕ → ℕ → ℕ
compute_alt_cycle_for_decode m k offset_frames =
    let alt_k =
      if leb offset_frames k
      then k - offset_frames
      else js8_rx_sample_size - (offset_frames - k) % js8_rx_sample_size in
    compute_cycle_for_decode m (alt_k % js8_rx_sample_size)
