-- ===== src/Rx/Session.antt =====
-- src/rx/mod.rs and src/rx/time.rs, with the feature `experimental-time`: a decoder that is called
-- on one stream of samples, and its memory of the frames that it reported. The search for frames
-- in the samples (`decode_pass` of src/decoder.rs) is a parameter; so is the rounding of a floating
-- offset, `((time_offset_seconds + start_delay_ms / 1000) * 12000).round()`, with 0 for a NaN and a
-- number beyond every slot for an infinite one. Positions are far below 2 ^ 64.
pub mod Memory
pub mod Repeats
pub mod Passes
use js8rs.Prelude.{
  ℕ, ◌+◌, ◌-◌, ◌*◌, ◌/◌, ◌%◌, min, max, Bool, true, false, not, ◌&&◌, Option, none, some, List, [],
  ◌∷◌, ◌++◌, map, length, take, replicate, get_or, ltb, leb, ◌==◌, if◌then◌else◌, str_eq,
}
use js8rs.Prelude.Int.{ℤ, pos_part}
use js8rs.Protocol.{
  Submode, normal, fast, turbo, slow, ultra, discriminant, FrameFlags, DecodeModes, modes_contains,
  modes_from, modes_all,
}
use js8rs.Submodes.{samples_per_period, js8_rx_sample_rate}
use js8rs.Rx.Scheduling.{abs_diff}
use Memory.{any, retain}

-- The fields of a decoded frame that the session reads or writes; `encoded` is text in UTF-8.
pub record Decoded {ℓ} (Time : Type ℓ) : Type ℓ where
  pub encoded : List ℕ
  pub flags : FrameFlags
  pub submode : Submode
  pub time_offset_seconds : Time
  pub sample_position : Option ℕ

-- `Sync` stands for what a synchronization event holds.
pub data Event {ℓ} (Time : Type ℓ) (Sync : Type ℓ) : Type ℓ where
  decode_started : DecodeModes → Event Time Sync
  sync_start : ℕ → ℕ → Event Time Sync
  sync_state : Sync → Event Time Sync
  decoded : Decoded Time → Event Time Sync
  decode_finished : ℕ → Event Time Sync

-- An entry of `seen`.
pub record SeenEntry : Type 0 where
  pub encoded : List ℕ
  pub flags : ℕ
  pub submode : Submode
  pub start : ℕ

abbrev pub modes : List Submode
modes = normal ∷ fast ∷ turbo ∷ slow ∷ ultra ∷ []

-- The index of a submode in `modes`.
unfoldable pub mode_position : Submode → ℕ
mode_position normal = 0
mode_position fast = 1
mode_position turbo = 2
mode_position slow = 3
mode_position ultra = 4

unfoldable pub window_from_kin : ℕ → ℕ → ℕ × ℕ
window_from_kin kin_end nmax =
    let span = if ltb kin_end nmax then kin_end else nmax in (kin_end - span, span)

pub record DecodeConfig : Type 0 where
  pub utc : ℕ
  pub nominal_frequency_hz : ℕ
  pub min_frequency_hz : ℕ
  pub max_frequency_hz : ℕ
  pub emit_sync : Bool
  pub modes : DecodeModes

-- `DecodeConfig::default`
abbrev pub config_default : DecodeConfig
config_default = record {
  utc = 0;
  nominal_frequency_hz = 0;
  min_frequency_hz = 0;
  max_frequency_hz = 5000;
  emit_sync = false;
  modes = modes_all;
}

-- The fields `kpos_a` and `ksz_a`, and so on, are one window for each submode.
pub record DecodeParams : Type 0 where
  pub nutc : ℕ
  pub nfqso : ℕ
  pub nfa : ℕ
  pub nfb : ℕ
  pub sync_stats : Bool
  pub window : Submode → ℕ × ℕ
  pub nsubmodes : ℕ
  pub stream_starts : Option (List ℕ)

-- `set_window`, on the ring of `capacity` samples.
unfoldable pub ring_window : Submode → ℕ → ℕ → ℕ × ℕ
ring_window m valid_samples capacity =
    let (position, size) = window_from_kin valid_samples (min (samples_per_period m) capacity) in
    (position % max capacity 1, size)

unfoldable pub legacy : DecodeConfig → ℕ → ℕ → DecodeParams
legacy config valid_samples capacity = record {
  nutc = config.utc;
  nfqso = config.nominal_frequency_hz;
  nfa = config.min_frequency_hz;
  nfb = config.max_frequency_hz;
  sync_stats = config.emit_sync;
  window = λ m.
      if modes_contains config.modes (modes_from m)
      then ring_window m valid_samples capacity
      else (0, 0);
  nsubmodes = config.modes.bits;
  stream_starts = none;
}

unfoldable pub starts : ℕ → ℕ → List ℕ
starts end capacity = map (λ m. (window_from_kin end (min (samples_per_period m) capacity)).0) modes

-- At most twelve bytes of the text, filled up with zeros.
unfoldable pub encoded_bytes : List ℕ → List ℕ
encoded_bytes bytes = take 12 bytes ++ replicate (12 - min (length bytes) 12) 0

unfoldable pub entry_of {ℓ} : {Time : Type ℓ} → Decoded Time → ℕ → SeenEntry
entry_of frame start = record {
  encoded = encoded_bytes frame.encoded;
  flags = frame.flags.bits;
  submode = frame.submode;
  start = start;
}

-- Whether `new` repeats `entry`: the same frame less than half a slot apart.
unfoldable pub repeats : SeenEntry → SeenEntry → Bool
unfolding discriminant
repeats new entry =
    str_eq entry.encoded new.encoded
    && entry.flags == new.flags
    && discriminant entry.submode == discriminant new.submode
    && ltb (abs_diff entry.start new.start) (samples_per_period new.submode / 2)

unfoldable pub remember : List SeenEntry → SeenEntry → List SeenEntry × Bool
remember seen new =
    let kept = retain (λ entry. leb (new.start - 30 * js8_rx_sample_rate) entry.start) seen in
    if any (repeats new) kept then (kept, false) else (kept ++ new ∷ [], true)

-- One round of the loop over the modes: the mode's end, the memory, and whether to reuse spectra.
unfoldable pub mode_step :
    DecodeModes → ℕ → ℕ → Submode → ℕ → List SeenEntry → Bool → ℕ × List SeenEntry × Bool
mode_step requested end capacity m last seen reuse =
    if modes_contains requested (modes_from m)
    then (
      end,
      if ltb end last
          then retain (λ entry. not (discriminant entry.submode == discriminant m)) seen
          else seen,
      reuse && (ltb last end && leb (samples_per_period m) (min end capacity)),
    )
    else (last, seen, reuse)

unfoldable pub mode_loop :
    DecodeModes
    → ℕ
    → ℕ
    → List Submode
    → List ℕ
    → List SeenEntry
    → Bool
    → List ℕ × List SeenEntry × Bool
mode_loop requested end capacity (m ∷ ms) (last ∷ ends) seen reuse =
    let (last', seen', reuse') = mode_step requested end capacity m last seen reuse in
    let (ends', seen'', reuse'') = mode_loop requested end capacity ms ends seen' reuse' in
    (last' ∷ ends', seen'', reuse'')
mode_loop requested end capacity ms ends seen reuse = (ends, seen, reuse)

-- `f32::clamp` on the rounded offset.
unfoldable pub clamp_offset : Submode → ℤ → ℕ
clamp_offset m offset = min (pos_part offset) (samples_per_period m)

module _ {ℓ} {Time : Type ℓ} (rounded_offset : Time → Submode → ℤ) where
  unfoldable pub start_of : List ℕ → Decoded Time → ℕ
  start_of window_starts frame =
      get_or window_starts (mode_position frame.submode) 0
      + clamp_offset frame.submode (rounded_offset frame.time_offset_seconds frame.submode)

module _ {ℓ} {Time Sync : Type ℓ} where
  abbrev pub report : Decoded Time → ℕ → Bool → ℕ → List (Event Time Sync) × ℕ
  report frame start false count = ([], count)
  report frame start true count =
      (decoded (record frame { sample_position = some start }) ∷ [], count + 1)

module _ {ℓ} {Time Sync : Type ℓ} (rounded_offset : Time → Submode → ℤ) where
  -- The closure that is handed to the search: what it emits, the memory, and the count.
  unfoldable pub on_event :
      List ℕ → Event Time Sync → List SeenEntry → ℕ → List (Event Time Sync) × List SeenEntry × ℕ
  on_event window_starts (decoded frame) seen count =
      let start = start_of rounded_offset window_starts frame in
      let (seen', fresh) = remember seen (entry_of frame start) in
      let (out, count') = report frame start fresh count in (out, seen', count')
  on_event window_starts (decode_finished n) seen count = (decode_finished count ∷ [], seen, count)
  on_event window_starts other seen count = (other ∷ [], seen, count)

  -- The closure on the events of a pass, in their order.
  unfoldable pub event_loop :
      List ℕ
      → List (Event Time Sync)
      → List SeenEntry
      → ℕ
      → List (Event Time Sync) × List SeenEntry × ℕ
  event_loop window_starts [] seen count = ([], seen, count)
  event_loop window_starts (e ∷ es) seen count =
      let (out, seen', count') = on_event window_starts e seen count in
      let (outs, seen'', count'') = event_loop window_starts es seen' count' in
      (out ++ outs, seen'', count'')

pub record Decoder {ℓ} (Core : Type ℓ) : Type ℓ where
  pub core : Core
  pub ends : List ℕ
  pub seen : List SeenEntry

-- `Decoder::with_modes`, of a core.
unfoldable pub decoder_new {ℓ} : {Core : Type ℓ} → Core → Decoder Core
decoder_new core = record { core = core; ends = replicate 5 0; seen = [] }

pub record Pass {ℓ} (Core Time Sync : Type ℓ) : Type ℓ where
  pub decoder : Decoder Core
  pub count : ℕ
  pub emitted : List (Event Time Sync)

abbrev pub Search {ℓ} : Type ℓ → Type ℓ → Type ℓ → Type ℓ
Search Core Time Sync = Core → List ℤ → DecodeParams → Core × List (Event Time Sync)

-- The parameters that the search is called with.
unfoldable pub stream_params {ℓ} :
    {Core : Type ℓ} → Decoder Core → List ℤ → ℕ → DecodeConfig → DecodeParams
stream_params d samples end config =
    let capacity = length samples in
    let (_, _, reuse) = mode_loop config.modes end capacity modes d.ends d.seen true in
    let params = legacy config end capacity in
    if reuse then record params { stream_starts = some (starts end capacity) } else params

module _ {ℓ} {Core Time Sync : Type ℓ} (decode_pass : Search Core Time Sync)
    (rounded_offset : Time → Submode → ℤ) where
  unfoldable pub decode_stream : Decoder Core → List ℤ → ℕ → DecodeConfig → Pass Core Time Sync
  decode_stream d samples end config =
      let capacity = length samples in
      let (ends, seen, _) = mode_loop config.modes end capacity modes d.ends d.seen true in
      let (core, events) = decode_pass d.core samples (stream_params d samples end config) in
      let (emitted, seen', count) = event_loop rounded_offset (starts end capacity) events seen 0 in
      record {
        decoder = record { core = core; ends = ends; seen = seen' };
        count = count;
        emitted = emitted;
      }
