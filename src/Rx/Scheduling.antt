-- ===== src/Rx/Scheduling.antt =====
-- src/rx/scheduling.rs, as built without `experimental-time`: the cursor of each submode and the
-- windows that it hands to the decoder. Positions are ring positions, far below 2 ^ 64, so the
-- saturating addition of the source never saturates; subtraction on ℕ stops at 0 as it does there.
pub mod Windows
use js8rs.Prelude.{
  ℕ, ◌+◌, ◌-◌, ◌*◌, ◌/◌, ◌%◌, max, Bool, true, false, ◌||◌, ◌&&◌, Option, none, some, ltb, leb,
  ◌==◌, if◌then◌else◌,
}
use js8rs.Protocol.{Submode, normal, fast, turbo, slow, ultra}
use js8rs.Submodes.{samples_per_period, samples_needed, compute_cycle_for_decode}
use mathlib.Core.Option
use mathlib.Core.Option.{get_or}

pub record DecodeCursor : Type 0 where
  pub current_start : Option ℕ
  pub next_start : Option ℕ

unfoldable pub cursor_new : DecodeCursor
cursor_new = record { current_start = none; next_start = none }

pub record DecodeWindow : Type 0 where
  pub cycle : ℕ
  pub start : ℕ
  pub size : ℕ

abbrev pub is_none {ℓ} : {A : Type ℓ} → Option A → Bool
is_none none = true
is_none (some a) = false

-- `usize::abs_diff`
abbrev pub abs_diff : ℕ → ℕ → ℕ
abs_diff a b = (a - b) + (b - a)

-- Whether the cursor starts again at the cycle of `k`.
unfoldable pub must_reset : Submode → ℕ → ℕ → DecodeCursor → Bool
must_reset m k k0 cursor =
    let cycle_frames = samples_per_period m in
    let current_start = get_or cursor.current_start 0 in
    let dead_air = ltb k current_start && ltb k (current_start - cycle_frames + samples_needed m) in
    dead_air
    || ltb k k0
    || ltb cycle_frames (abs_diff k k0)
    || is_none cursor.current_start
    || is_none cursor.next_start

unfoldable pub reset_if : Bool → Submode → ℕ → DecodeCursor → DecodeCursor
reset_if false m k cursor = cursor
reset_if true m k cursor =
    let start = compute_cycle_for_decode m k * samples_per_period m in
    record { current_start = some start; next_start = some (start + samples_per_period m) }

-- The part of `next_decode_window` behind the reset.
unfoldable pub emit_if_ready : Submode → ℕ → DecodeCursor → DecodeCursor × Option DecodeWindow
emit_if_ready m k cursor =
    let frames_needed = samples_needed m in
    let cycle_frames = samples_per_period m in
    let current_start = get_or cursor.current_start 0 in
    let next_start = get_or cursor.next_start (current_start + cycle_frames) in
    if leb (current_start + frames_needed) k
    then (
      record { current_start = some next_start; next_start = some (next_start + cycle_frames) },
      some (record {
        cycle = compute_cycle_for_decode m k;
        start = current_start;
        size = max frames_needed (k - current_start);
      }),
    )
    else (cursor, none)

-- `k` is the write position, `k0` the one of the call before.
unfoldable pub next_decode_window :
    Submode → ℕ → ℕ → DecodeCursor → DecodeCursor × Option DecodeWindow
next_decode_window m k k0 cursor =
    if samples_per_period m == 0
    then (cursor, none)
    else emit_if_ready m k (reset_if (must_reset m k k0 cursor) m k cursor)

pub record DecodeScheduler : Type 0 where
  pub normal : DecodeCursor
  pub fast : DecodeCursor
  pub turbo : DecodeCursor
  pub slow : DecodeCursor
  pub ultra : DecodeCursor

unfoldable pub scheduler_new : DecodeScheduler
scheduler_new = record {
  normal = cursor_new;
  fast = cursor_new;
  turbo = cursor_new;
  slow = cursor_new;
  ultra = cursor_new;
}

-- `cursor_mut` as a read and a write of the submode's field.
unfoldable pub cursor_of : DecodeScheduler → Submode → DecodeCursor
cursor_of s Submode.normal = s.normal
cursor_of s Submode.fast = s.fast
cursor_of s Submode.turbo = s.turbo
cursor_of s Submode.slow = s.slow
cursor_of s Submode.ultra = s.ultra

unfoldable pub set_cursor : DecodeScheduler → Submode → DecodeCursor → DecodeScheduler
set_cursor s Submode.normal c = record s { normal = c }
set_cursor s Submode.fast c = record s { fast = c }
set_cursor s Submode.turbo c = record s { turbo = c }
set_cursor s Submode.slow c = record s { slow = c }
set_cursor s Submode.ultra c = record s { ultra = c }

unfoldable pub next_window :
    DecodeScheduler → Submode → ℕ → ℕ → DecodeScheduler × Option DecodeWindow
next_window s m k k0 =
    let (cursor, window) = next_decode_window m k k0 (cursor_of s m) in
    (set_cursor s m cursor, window)
