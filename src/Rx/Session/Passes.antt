-- ===== src/Rx/Session/Passes.antt =====
-- What one call of the decoder promises of its whole pass.
use js8rs.Prelude.{
  ℕ, ◌+◌, ◌-◌, ◌≤◌, ◌<◌, min, Bool, true, not, some, List, [], ◌∷◌, length, get_or, ◌==◌,
  if◌then◌else◌, ◌≡◌, arith, ◌↔◌, length-append,
}
use js8rs.Prelude.Int.{ℤ}
use js8rs.Protocol.{Submode, normal, discriminant, DecodeModes, modes_contains, modes_from}
use js8rs.Submodes.{samples_per_period}
use js8rs.Rx.Session.{
  Decoded, Event, decoded, SeenEntry, modes, mode_position, window_from_kin, starts, mode_step,
  mode_loop, clamp_offset, start_of, on_event, event_loop, Decoder, Pass, Search, decode_stream,
  DecodeConfig, stream_params, legacy,
}
use js8rs.Rx.Session.Memory.{Within, Within-retain}
use js8rs.Rx.Session.Repeats.{
  reported, found, Distinct, Covers, Distinct-outputs, Covered-outputs, reported-append,
}

period-le : (m : Submode) → samples_per_period m ≤ 360000
unfolding samples_per_period
period-le normal = omega arith
period-le m = omega arith

-- The latest position from which every mode's window starts.
abbrev floor : ℕ → ℕ → ℕ
floor end capacity = end - min capacity 360000

window_start : (end capacity : ℕ) (m : Submode) → ℕ
window_start end capacity m = end - min end (min (samples_per_period m) capacity)

starts-at :
    (end capacity : ℕ) (m : Submode)
    → get_or (starts end capacity) (mode_position m) 0 ≡ window_start end capacity m
unfolding starts mode_position window_from_kin window_start
starts-at end capacity normal = ground arith
starts-at end capacity m = ground arith

module _ {ℓ} {Time : Type ℓ} (rounded : Time → Submode → ℤ) (end capacity : ℕ) where
  floor-start_of :
      (frame : Decoded Time) → floor end capacity ≤ start_of rounded (starts end capacity) frame
  unfolding start_of window_start
  floor-start_of frame =
      let at = starts-at end capacity frame.submode in
      let bound = period-le frame.submode in omega arith

  start_of-floor :
      (frame : Decoded Time)
      → start_of rounded (starts end capacity) frame ≤ floor end capacity + 360000
  unfolding start_of window_start clamp_offset
  start_of-floor frame =
      let at = starts-at end capacity frame.submode in
      let bound = period-le frame.submode in omega arith

Within-mode_step :
    (requested : DecodeModes) (end capacity : ℕ) (m : Submode) (last : ℕ) (seen : List SeenEntry)
    (reuse : Bool)
    → Within (mode_step requested end capacity m last seen reuse).1 seen
unfolding mode_step
Within-mode_step requested end capacity m last seen reuse p e =
    let thinned =
      Within-retain (λ entry. not (discriminant entry.submode == discriminant m)) seen p in
    ground (arith, thinned)

Within-mode_loop :
    (requested : DecodeModes) (end capacity : ℕ) (ms : List Submode) (ends : List ℕ)
    (seen : List SeenEntry) (reuse : Bool)
    → Within (mode_loop requested end capacity ms ends seen reuse).1 seen
unfolding mode_loop
Within-mode_loop requested end capacity [] ends seen reuse p e = e
Within-mode_loop requested end capacity (m ∷ ms) [] seen reuse p e = e
Within-mode_loop requested end capacity (m ∷ ms) (last ∷ ends) seen reuse p e =
    Within-mode_step requested end capacity m last seen reuse p
      (Within-mode_loop requested end capacity ms ends _ _ p e)

module _ {ℓ} {Time Sync : Type ℓ} (rounded : Time → Submode → ℤ) (window_starts : List ℕ) where
  length-on_event :
      (e : Event Time Sync) (seen : List SeenEntry) (count : ℕ)
      → (on_event rounded window_starts e seen count).2
        ≡ count + length (reported (on_event rounded window_starts e seen count).0)
  unfolding on_event reported
  length-on_event (decoded frame) seen count = ground arith
  length-on_event e seen count = ground arith

  length-event_loop :
      (es : List (Event Time Sync)) (seen : List SeenEntry) (count : ℕ)
      → (event_loop rounded window_starts es seen count).2
        ≡ count + length (reported (event_loop rounded window_starts es seen count).0)
  unfolding event_loop
  length-event_loop [] seen count = unfold reported in omega arith
  length-event_loop (e ∷ es) seen count =
      let one = on_event rounded window_starts e seen count in
      let here = length-on_event e seen count in
      let behind = length-event_loop es one.1 one.2 in
      let rest = event_loop rounded window_starts es one.1 one.2 in
      rw (reported-append one.0 rest.0, length-append (reported one.0) (reported rest.0))
        (omega (arith, here, behind))

module _ {ℓ} {Core Time Sync : Type ℓ} (decode_pass : Search Core Time Sync)
    (rounded : Time → Submode → ℤ) (d : Decoder Core) (samples : List ℤ) (end : ℕ)
    (config : DecodeConfig) where
  -- The pass of the decoder.
  abbrev pass : Pass Core Time Sync
  pass = decode_stream decode_pass rounded d samples end config

  abbrev events : List (Event Time Sync)
  events = (decode_pass d.core samples (stream_params d samples end config)).1

  -- Whatever the search finds and whatever was reported before, no frame that one pass reports
  -- repeats an earlier one of the pass: equal text, flags and submode come with starts at least
  -- half a slot apart.
  pub decode_stream-Distinct : Distinct (reported pass.emitted)
  unfolding decode_stream
  decode_stream-Distinct =
      Distinct-outputs rounded (starts end (length samples)) (floor end (length samples))
        (floor-start_of rounded end (length samples)) (start_of-floor rounded end (length samples))
        events _ 0

  -- Every frame that the search finds in a pass repeats a frame that was remembered before the
  -- pass, or one that the pass reports, maybe itself: none that is no repeat is lost.
  pub decode_stream-Covers :
      Covers d.seen (found rounded (starts end (length samples)) events) (reported pass.emitted)
  unfolding decode_stream
  decode_stream-Covers =
      Covered-outputs rounded (starts end (length samples)) events d.seen _ 0
        (Within-mode_loop config.modes end (length samples) modes d.ends d.seen true)

  pub decode_stream-count : pass.count ≡ length (reported pass.emitted)
  unfolding decode_stream
  decode_stream-count =
      let (_, seen, _) = mode_loop config.modes end (length samples) modes d.ends d.seen true in
      let counted = length-event_loop rounded (starts end (length samples)) events seen 0 in
      omega (arith, counted)

-- A submode's window is complete and ends behind the one before.
abbrev pub Advances : DecodeConfig → ℕ → ℕ → Submode → ℕ → Type 0
Advances config end capacity m last =
    if modes_contains config.modes (modes_from m)
    then (last < end) × (samples_per_period m ≤ min end capacity)
    else Unit {0}

abbrev pub AllAdvance : DecodeConfig → ℕ → ℕ → List Submode → List ℕ → Type 0
AllAdvance config end capacity (m ∷ ms) (last ∷ ends) =
    Advances config end capacity m last × AllAdvance config end capacity ms ends
AllAdvance config end capacity ms ends = Unit {0}

mode_loop-AllAdvance :
    (config : DecodeConfig) (end capacity : ℕ) (ms : List Submode) (ends : List ℕ)
    (seen : List SeenEntry) (reuse : Bool)
    → ((mode_loop config.modes end capacity ms ends seen reuse).2 ≡ true)
      ↔ ((reuse ≡ true) × AllAdvance config end capacity ms ends)
unfolding mode_loop mode_step
mode_loop-AllAdvance config end capacity [] ends seen reuse = ground arith
mode_loop-AllAdvance config end capacity (m ∷ ms) [] seen reuse = ground arith
mode_loop-AllAdvance config end capacity (m ∷ ms) (last ∷ ends) seen reuse =
    let step = mode_step config.modes end capacity m last seen reuse in
    let behind = mode_loop-AllAdvance config end capacity ms ends step.1 step.2 in
    ground (arith, behind)

-- Spectra are reused, with the starts of the windows, exactly when the window of every requested
-- submode is complete in the ring and ends behind the one before.
pub stream_starts-AllAdvance {ℓ} :
    {Core : Type ℓ} (d : Decoder Core) (samples : List ℤ) (end : ℕ) (config : DecodeConfig)
    → ((stream_params d samples end config).stream_starts ≡ some (starts end (length samples)))
      ↔ AllAdvance config end (length samples) modes d.ends
unfolding stream_params legacy
stream_starts-AllAdvance d samples end config =
    let looped = mode_loop-AllAdvance config end (length samples) modes d.ends d.seen true in
    ground (arith, looped)
