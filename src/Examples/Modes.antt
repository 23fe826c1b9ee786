-- ===== src/Examples/Modes.antt =====
-- Concrete submodes, cycles, windows and commands.
use js8rs.Prelude.{ℕ, ◌≡◌, ◌≢◌, refl, some, List, [], ◌∷◌, arith}
use js8rs.Protocol.{turbo}
use js8rs.Rx.Scheduling.{cursor_new}
use js8rs.Rx.Scheduling.Windows.{run_windows, Spaced, run_windows-new}
use js8rs.Command.Kind.{query_msg, msg, snr, from_wire, from_token, wire_code, checksum_bits}
use js8rs.Command.Kind.Laws.{on_wire, token_or_empty, from_wire-wire_token}

-- Three write positions, the last one a slot after the first.
abbrev positions : List ℕ
positions = 60000 ∷ 71000 ∷ 143500 ∷ []

run_windows-new_example : Spaced turbo 0 (run_windows turbo 50000 cursor_new positions)
run_windows-new_example =
    run_windows-new turbo 50000 positions
      (omega arith, omega arith, (omega arith, omega arith, (omega arith, omega arith, tt)))

from_wire-wire_token_example :
    (from_wire (token_or_empty query_msg) ≡ some (on_wire query_msg))
    × (from_token (token_or_empty query_msg) ≡ some (on_wire query_msg))
from_wire-wire_token_example = from_wire-wire_token query_msg

snr_code : wire_code snr ≡ some 25
unfolding wire_code
snr_code = refl

msg_bits : checksum_bits msg ≢ 0
unfolding checksum_bits
msg_bits e = absurd (omega arith)
