-- ===== src/Command/Kind.antt =====
-- src/command.rs, `CommandKind`: the commands, their wire codes and their tokens.
pub mod Laws
use js8rs.Prelude.{
  ℕ, ◌-◌, ◌≡◌, refl, Bool, true, false, ◌&&◌, ◌||◌, not, Option, none, some, List, [], ◌∷◌, codes,
  str_eq, ltb, leb, ◌==◌, if◌then◌else◌, map, is_ascii, to_ascii_uppercase,
}
use mathlib.Core.List.{reverse}
use js8rs.Prelude.Int.{ℤ, pos, negsuc, ◌==ℤ◌}

pub data CommandKind : Type 0 where
  snr_query dit_dit nack hearing_query grid_query relay status_query status : CommandKind
  hearing msg msg_to query query_msgs query_call ack grid info_query info fb : CommandKind
  how_copy_query sk rr qsl_query qsl cmd snr no yes seventy_three heartbeat_snr : CommandKind
  again_query free_text heartbeat cq query_msg : CommandKind

-- `self as u8`
unfoldable pub kind_code : CommandKind → ℕ
kind_code snr_query = 0
kind_code dit_dit = 1
kind_code nack = 2
kind_code hearing_query = 3
kind_code grid_query = 4
kind_code relay = 5
kind_code status_query = 6
kind_code status = 7
kind_code hearing = 8
kind_code msg = 9
kind_code msg_to = 10
kind_code query = 11
kind_code query_msgs = 12
kind_code query_call = 13
kind_code ack = 14
kind_code grid = 15
kind_code info_query = 16
kind_code info = 17
kind_code fb = 18
kind_code how_copy_query = 19
kind_code sk = 20
kind_code rr = 21
kind_code qsl_query = 22
kind_code qsl = 23
kind_code cmd = 24
kind_code snr = 25
kind_code no = 26
kind_code yes = 27
kind_code seventy_three = 28
kind_code heartbeat_snr = 29
kind_code again_query = 30
kind_code free_text = 31
kind_code heartbeat = 32
kind_code cq = 33
kind_code query_msg = 34

-- The arms of a `match` on string literals, in order.
abbrev pub Tokens : Type 0
Tokens = List (List ℕ × CommandKind)

unfoldable pub find_token : (List ℕ → List ℕ → Bool) → List ℕ → Tokens → Option CommandKind
find_token eq token [] = none
find_token eq token ((name, kind) ∷ rest) =
    if eq token name then some kind else find_token eq token rest

abbrev pub wire_tokens : Tokens
wire_tokens =
    (codes " HEARTBEAT", heartbeat)
    ∷ (codes " HB", heartbeat)
    ∷ (codes " CQ", cq)
    ∷ (codes " SNR?", snr_query)
    ∷ (codes "?", snr_query)
    ∷ (codes " DIT DIT", dit_dit)
    ∷ (codes " NACK", nack)
    ∷ (codes " HEARING?", hearing_query)
    ∷ (codes " GRID?", grid_query)
    ∷ (codes ">", relay)
    ∷ (codes " STATUS?", status_query)
    ∷ (codes " STATUS", status)
    ∷ (codes " HEARING", hearing)
    ∷ (codes " MSG", msg)
    ∷ (codes " MSG TO:", msg_to)
    ∷ (codes " QUERY", query)
    ∷ (codes " QUERY MSGS", query_msgs)
    ∷ (codes " QUERY MSGS?", query_msgs)
    ∷ (codes " QUERY CALL", query_call)
    ∷ (codes " ACK", ack)
    ∷ (codes " GRID", grid)
    ∷ (codes " INFO?", info_query)
    ∷ (codes " INFO", info)
    ∷ (codes " FB", fb)
    ∷ (codes " HW CPY?", how_copy_query)
    ∷ (codes " SK", sk)
    ∷ (codes " RR", rr)
    ∷ (codes " QSL?", qsl_query)
    ∷ (codes " QSL", qsl)
    ∷ (codes " CMD", cmd)
    ∷ (codes " SNR", snr)
    ∷ (codes " NO", no)
    ∷ (codes " YES", yes)
    ∷ (codes " 73", seventy_three)
    ∷ (codes " HEARTBEAT SNR", heartbeat_snr)
    ∷ (codes " AGN?", again_query)
    ∷ (codes " ", free_text)
    ∷ (codes "  ", free_text)
    ∷ []

unfoldable pub from_wire : List ℕ → Option CommandKind
unfolding find_token
from_wire token = find_token str_eq token wire_tokens

unfoldable pub from_wire_code : ℤ → Option CommandKind
from_wire_code code =
    if code ==ℤ negsuc 0
    then some cq
    else if code ==ℤ pos 0
    then some snr_query
    else if code ==ℤ pos 1
    then some dit_dit
    else if code ==ℤ pos 2
    then some nack
    else if code ==ℤ pos 3
    then some hearing_query
    else if code ==ℤ pos 4
    then some grid_query
    else if code ==ℤ pos 5
    then some relay
    else if code ==ℤ pos 6
    then some status_query
    else if code ==ℤ pos 7
    then some status
    else if code ==ℤ pos 8
    then some hearing
    else if code ==ℤ pos 9
    then some msg
    else if code ==ℤ pos 10
    then some msg_to
    else if code ==ℤ pos 11
    then some query
    else if code ==ℤ pos 12
    then some query_msgs
    else if code ==ℤ pos 13
    then some query_call
    else if code ==ℤ pos 14
    then some ack
    else if code ==ℤ pos 15
    then some grid
    else if code ==ℤ pos 16
    then some info_query
    else if code ==ℤ pos 17
    then some info
    else if code ==ℤ pos 18
    then some fb
    else if code ==ℤ pos 19
    then some how_copy_query
    else if code ==ℤ pos 20
    then some sk
    else if code ==ℤ pos 21
    then some rr
    else if code ==ℤ pos 22
    then some qsl_query
    else if code ==ℤ pos 23
    then some qsl
    else if code ==ℤ pos 24
    then some cmd
    else if code ==ℤ pos 25
    then some snr
    else if code ==ℤ pos 26
    then some no
    else if code ==ℤ pos 27
    then some yes
    else if code ==ℤ pos 28
    then some seventy_three
    else if code ==ℤ pos 29
    then some heartbeat_snr
    else if code ==ℤ pos 30
    then some again_query
    else if code ==ℤ pos 31
    then some free_text
    else none

unfoldable pub eq_ignore_ascii_case : List ℕ → List ℕ → Bool
unfolding to_ascii_uppercase
eq_ignore_ascii_case s t = str_eq (map to_ascii_uppercase s) (map to_ascii_uppercase t)

unfoldable pub trim_start_spaces : List ℕ → List ℕ
trim_start_spaces [] = []
trim_start_spaces (c ∷ s) = if c == b' ' then trim_start_spaces s else c ∷ s

-- `trim_matches(' ')`
unfoldable pub trim_spaces : List ℕ → List ℕ
unfolding trim_start_spaces
trim_spaces s = reverse (trim_start_spaces (reverse (trim_start_spaces s)))

unfoldable pub all_spaces : List ℕ → Bool
all_spaces [] = true
all_spaces (c ∷ s) = c == b' ' && all_spaces s

unfoldable pub is_empty {ℓ} : {A : Type ℓ} → List A → Bool
is_empty [] = true
is_empty (c ∷ s) = false

abbrev pub message_tokens : Tokens
message_tokens =
    (codes "HEARTBEAT SNR", heartbeat_snr)
    ∷ (codes "QUERY MSGS?", query_msgs)
    ∷ (codes "QUERY MSGS", query_msgs)
    ∷ (codes "QUERY CALL", query_call)
    ∷ (codes "QUERY MSG", query_msg)
    ∷ (codes "CQ CONTEST", cq)
    ∷ (codes "CQ CQ CQ", cq)
    ∷ (codes "HW CPY?", how_copy_query)
    ∷ (codes "MSG TO:", msg_to)
    ∷ (codes "HEARING?", hearing_query)
    ∷ (codes "HEARING", hearing)
    ∷ (codes "CQ FIELD", cq)
    ∷ (codes "STATUS?", status_query)
    ∷ (codes "STATUS", status)
    ∷ (codes "DIT DIT", dit_dit)
    ∷ (codes "HEARTBEAT", heartbeat)
    ∷ (codes "CQ QRP", cq)
    ∷ (codes "CQ CQ", cq)
    ∷ (codes "CQ DX", cq)
    ∷ (codes "CQ FD", cq)
    ∷ (codes "SNR?", snr_query)
    ∷ (codes "INFO?", info_query)
    ∷ (codes "GRID?", grid_query)
    ∷ (codes "QUERY", query)
    ∷ (codes "AGN?", again_query)
    ∷ (codes "QSL?", qsl_query)
    ∷ (codes "NACK", nack)
    ∷ (codes "INFO", info)
    ∷ (codes "GRID", grid)
    ∷ (codes "MSG", msg)
    ∷ (codes "ACK", ack)
    ∷ (codes "CMD", cmd)
    ∷ (codes "SNR", snr)
    ∷ (codes "QSL", qsl)
    ∷ (codes "YES", yes)
    ∷ (codes "NO", no)
    ∷ (codes "RR", rr)
    ∷ (codes "SK", sk)
    ∷ (codes "FB", fb)
    ∷ (codes "73", seventy_three)
    ∷ (codes "HB", heartbeat)
    ∷ (codes "CQ", cq)
    ∷ (codes ">", relay)
    ∷ (codes "?", snr_query)
    ∷ []

unfoldable pub from_token : List ℕ → Option CommandKind
unfolding find_token eq_ignore_ascii_case trim_spaces all_spaces is_empty
from_token token =
    if not (is_ascii token)
    then none
    else if not (is_empty token) && all_spaces token
    then some free_text
    else find_token eq_ignore_ascii_case (trim_spaces token) message_tokens

unfoldable pub wire_code : CommandKind → Option ℕ
unfolding kind_code
wire_code heartbeat = none
wire_code cq = none
wire_code query_msg = some (kind_code query)
wire_code kind = some (kind_code kind)

unfoldable pub packed_code : CommandKind → ℤ
unfolding wire_code
packed_code kind = elim (wire_code kind) [ some code ↦ pos code | none ↦ negsuc 0 ]

unfoldable pub wire_token : CommandKind → Option (List ℕ)
wire_token snr_query = some (codes " SNR?")
wire_token dit_dit = some (codes " DIT DIT")
wire_token nack = some (codes " NACK")
wire_token hearing_query = some (codes " HEARING?")
wire_token grid_query = some (codes " GRID?")
wire_token relay = some (codes ">")
wire_token status_query = some (codes " STATUS?")
wire_token status = some (codes " STATUS")
wire_token hearing = some (codes " HEARING")
wire_token msg = some (codes " MSG")
wire_token msg_to = some (codes " MSG TO:")
wire_token query = some (codes " QUERY")
wire_token query_msgs = some (codes " QUERY MSGS")
wire_token query_call = some (codes " QUERY CALL")
wire_token ack = some (codes " ACK")
wire_token grid = some (codes " GRID")
wire_token info_query = some (codes " INFO?")
wire_token info = some (codes " INFO")
wire_token fb = some (codes " FB")
wire_token how_copy_query = some (codes " HW CPY?")
wire_token sk = some (codes " SK")
wire_token rr = some (codes " RR")
wire_token qsl_query = some (codes " QSL?")
wire_token qsl = some (codes " QSL")
wire_token cmd = some (codes " CMD")
wire_token snr = some (codes " SNR")
wire_token no = some (codes " NO")
wire_token yes = some (codes " YES")
wire_token seventy_three = some (codes " 73")
wire_token heartbeat_snr = some (codes " HEARTBEAT SNR")
wire_token again_query = some (codes " AGN?")
wire_token free_text = some (codes " ")
wire_token heartbeat = some (codes " HEARTBEAT")
wire_token cq = some (codes " CQ")
wire_token query_msg = some (codes " QUERY")

unfoldable pub one_of : Option ℕ → List ℕ → Bool
one_of none xs = false
one_of (some c) [] = false
one_of (some c) (x ∷ xs) = c == x || one_of (some c) xs

unfoldable pub is_autoreply : CommandKind → Bool
unfolding wire_code one_of
is_autoreply kind =
    one_of (wire_code kind) (0 ∷ 2 ∷ 3 ∷ 4 ∷ 6 ∷ 9 ∷ 10 ∷ 11 ∷ 12 ∷ 13 ∷ 14 ∷ 16 ∷ 30 ∷ [])

unfoldable pub checksum_bits : CommandKind → ℕ
unfolding wire_code one_of
checksum_bits kind = if one_of (wire_code kind) (5 ∷ 9 ∷ 10 ∷ 11 ∷ 12 ∷ 13 ∷ 24 ∷ []) then 16 else 0

unfoldable pub has_snr : CommandKind → Bool
has_snr snr = true
has_snr heartbeat_snr = true
has_snr kind = false

unfoldable pub contains_byte : ℕ → List ℕ → Bool
contains_byte b [] = false
contains_byte b (x ∷ xs) = x == b || contains_byte b xs

unfoldable pub is_buffered_token : List ℕ → Bool
unfolding from_wire contains_byte wire_code one_of
is_buffered_token token = elim (from_wire token) [
  | none ↦ false
  | some kind ↦
      contains_byte b' ' token || one_of (wire_code kind) (5 ∷ 9 ∷ 10 ∷ 11 ∷ 12 ∷ 13 ∷ 15 ∷ 24 ∷ [])
]
