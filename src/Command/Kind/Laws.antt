-- ===== src/Command/Kind/Laws.antt =====
-- The wire forms of commands are read back as the commands that were sent.
use js8rs.Prelude.{ℕ, ◌<◌, ◌≡◌, refl, true, ◌↔◌, none, some, List, [], ◌≢◌, str_eq, is_ascii, arith}
use js8rs.Prelude.Int.{pos}
use js8rs.Command.Kind.{
  CommandKind, snr_query, query, query_msg, from_wire, from_wire_code, from_token, wire_code,
  wire_token, checksum_bits, is_buffered_token,
}

-- A single stored-message query travels as a general query.
unfoldable pub on_wire : CommandKind → CommandKind
on_wire query_msg = query
on_wire kind = kind

-- The code that a command is sent with fits five bits and is read back as the command, a single
-- stored-message query as a general query.
pub from_wire_code-wire_code :
    (k : CommandKind) (c : ℕ)
    → wire_code k ≡ some c
    → (c < 32) × (from_wire_code (pos c) ≡ some (on_wire k))
unfolding wire_code from_wire_code on_wire
from_wire_code-wire_code snr_query c h = ground arith
from_wire_code-wire_code k c h = ground arith

abbrev pub token_or_empty : CommandKind → List ℕ
token_or_empty k = elim (wire_token k) [ none ↦ [] | some t ↦ t ]

-- The token that decoding prints for a command reads back as the command that was on the wire, both
-- as an exact wire token and as a token of message text.
pub from_wire-wire_token :
    (k : CommandKind)
    → (from_wire (token_or_empty k) ≡ some (on_wire k))
      × (from_token (token_or_empty k) ≡ some (on_wire k))
unfolding from_wire from_token wire_token on_wire str_eq is_ascii
from_wire-wire_token snr_query = (refl, refl)
from_wire-wire_token k = (refl, refl)

-- A command whose payload carries a checksum on the wire is one whose payload is buffered.
pub checksum_bits-is_buffered_token :
    (k : CommandKind) → checksum_bits k ≢ 0 → is_buffered_token (token_or_empty k) ≡ true
unfolding checksum_bits is_buffered_token wire_token str_eq
checksum_bits-is_buffered_token snr_query h = ground arith
checksum_bits-is_buffered_token k h = ground arith

-- A wire code stands for a command exactly when the command is sent with that code and is no
-- stored-message query, which shares its code with the general query.
pub from_wire_code_iff :
    (c : ℕ) (k : CommandKind)
    → (from_wire_code (pos c) ≡ some k) ↔ ((wire_code k ≡ some c) × (on_wire k ≡ k))
unfolding from_wire_code wire_code on_wire
from_wire_code_iff c snr_query = ground arith
from_wire_code_iff c k = ground arith
