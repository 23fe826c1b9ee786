-- ===== src/Varicode/Messages/Directed/RoundTrip.antt =====
-- Directed messages are read back as they were packed.
use js8rs.Prelude.{
  ℕ, ◌+◌, ◌*◌, ◌%◌, ◌^◌, ◌<◌, ◌≡◌, ◌≢◌, refl, Bool, false, ◌||◌, Option, none, some, List, [], ◌∷◌,
  bit_and, u8, ◌>>>◌, bit_and_mask, bit_or_fields, arith, ◌==◌, trim,
}
use js8rs.Prelude.Int.{ℤ, pos, ◌+ℤ◌}
use js8rs.Command.Kind.{from_wire_code, packed_code}
use js8rs.Varicode.Pack72.{pack72bits}
use js8rs.Varicode.Pack72.RoundTrip.{unpack72bits-pack72bits, pack72bits_shape}
use js8rs.Varicode.Callsign.{pack_callsign, unpack_callsign}
use js8rs.Varicode.Callsign.Bounds.{pack_callsign-lt}
use js8rs.Varicode.Compound.{not_a_frame, frame_directed}
use js8rs.Varicode.Fields.{pack_num, num_field, parse_i32, clamp}
use js8rs.Varicode.Messages.{
  DirectedMessage, directed_message, token_of, number_part, unpack_directed_message,
}
use js8rs.Varicode.Messages.Directed.{
  DirectedPlan, directed_plan, directed_word, directed_byte, pack_directed_message, wrap_u8, bit_of,
}

pub directed_word-sum :
    (from to cmd : ℕ)
    → from < 2 ^ 28
    → to < 2 ^ 28
    → directed_word from to cmd ≡ 3 * 2 ^ 61 + from * 2 ^ 33 + to * 2 ^ 5 + cmd % 32
unfolding directed_word
directed_word-sum from to cmd hf ht = ground (
  arith,
  bit_or_fields 61 3 (from * 2 ^ 33),
  bit_or_fields 33 (3 * 2 ^ 28 + from) (to * 2 ^ 5),
  bit_or_fields 5 (3 * 2 ^ 56 + from * 2 ^ 28 + to) (cmd % 32),
)

pub directed_byte-sum :
    (pf pt : Bool) (inum : ℕ)
    → inum < 64
    → directed_byte pf pt inum ≡ bit_of pf * 128 + bit_of pt * 64 + inum
unfolding directed_byte
directed_byte-sum pf pt inum h = ground arith

-- What a frame with these fields says.
abbrev pub said : ℕ × Bool → ℕ × Bool → ℕ → ℕ → DirectedMessage
said from to cmd inum =
    let kind = from_wire_code (pos (cmd % 32)) in
    record {
      parts =
          unpack_callsign from.0 from.1
          ∷ unpack_callsign to.0 to.1
          ∷ token_of kind
          ∷ number_part kind inum;
      ty = frame_directed;
    }

directed_message-sum :
    (from to cmd inum : ℕ) (pf pt : Bool)
    → from < 2 ^ 28
    → to < 2 ^ 28
    → inum < 64
    → directed_message (
      3 * 2 ^ 61 + from * 2 ^ 33 + to * 2 ^ 5 + cmd % 32,
      bit_of pf * 128 + bit_of pt * 64 + inum,
    )
      ≡ some (said (from, pf) (to, pt) cmd inum)
unfolding directed_message
directed_message-sum from to cmd inum pf pt hf ht hn =
    let v = 3 * 2 ^ 61 + from * 2 ^ 33 + to * 2 ^ 5 + cmd % 32 in
    let e = bit_of pf * 128 + bit_of pt * 64 + inum in
    let flag : u8 (v >>> 61) ≡ 3 = omega arith in
    let from' : bit_and (v >>> 33) 0x0fffffff ≡ from = omega (arith, bit_and_mask 28 (v >>> 33)) in
    let to' : bit_and (v >>> 5) 0x0fffffff ≡ to = omega (arith, bit_and_mask 28 (v >>> 5)) in
    let cmd' : u8 (bit_and v 0x1f) % 32 ≡ cmd % 32 = omega (arith, bit_and_mask 5 v) in
    let high : (bit_and (e >>> 7) 1 == 1) ≡ pf = ground (arith, bit_and_mask 1 (e >>> 7)) in
    let second : (bit_and (e >>> 6) 1 == 1) ≡ pt = ground (arith, bit_and_mask 1 (e >>> 6)) in
    let num : e % 64 ≡ inum = ground arith in rw (flag, from', to', cmd', high, second, num) refl

num_field-lt : (v : Option ℤ) → (num_field v).0 < 64
unfolding num_field clamp ◌+ℤ◌
num_field-lt none = omega arith
num_field-lt (some v) = ground arith

neither_zero : (a b : ℕ) → a ≢ 0 → b ≢ 0 → (a == 0 || b == 0) ≡ false
neither_zero a b ha hb = ground arith

pub pack_num-lt : (num : List ℕ) → (pack_num num).0 < 64
unfolding pack_num
pack_num-lt [] = omega arith
pack_num-lt (c ∷ s) = num_field-lt (parse_i32 (c ∷ s))

-- The two fields of a callsign.
abbrev pub sent : List ℕ → ℕ × Bool
sent call = pack_callsign call

pub packed_directed :
    (text mycall : List ℕ) (plan : DirectedPlan)
    → directed_plan text mycall ≡ some plan
    → (sent plan.from).0 ≢ 0
    → (sent plan.to).0 ≢ 0
    → (pack_directed_message text mycall).0
      ≡ pack72bits
          (directed_word (sent plan.from).0 (sent plan.to).0 (wrap_u8 (packed_code plan.kind)))
          (directed_byte (sent plan.from).1 (sent plan.to).1 (pack_num (trim plan.num)).0)
unfolding pack_directed_message
packed_directed text mycall plan e hf ht =
    let some_calls = neither_zero (sent plan.from).0 (sent plan.to).0 hf ht in
    rw (pack_directed_message, e, some_calls) refl

-- The bounds of the word and the byte, and the type in the word.
pub directed_fits :
    (plan : DirectedPlan)
    → let word =
        directed_word (sent plan.from).0 (sent plan.to).0 (wrap_u8 (packed_code plan.kind)) in
      let byte = directed_byte (sent plan.from).1 (sent plan.to).1 (pack_num (trim plan.num)).0 in
      (word < 2 ^ 63) × (byte < 256) × (u8 (word >>> 61) ≡ 3)
directed_fits plan =
    let from = sent plan.from in
    let to = sent plan.to in
    let hf = pack_callsign-lt plan.from in
    let ht = pack_callsign-lt plan.to in
    let small = pack_num-lt (trim plan.num) in
    let cmd = wrap_u8 (packed_code plan.kind) in
    let word = directed_word-sum from.0 to.0 cmd hf ht in
    let byte = directed_byte-sum from.1 to.1 (pack_num (trim plan.num)).0 small in
    (omega (arith, word, hf, ht), ground (arith, byte, small), omega (arith, word, hf, ht))

pub unpack-pack_directed_message :
    (text mycall : List ℕ) (plan : DirectedPlan)
    → directed_plan text mycall ≡ some plan
    → (pack_callsign plan.from).0 ≢ 0
    → (pack_callsign plan.to).0 ≢ 0
    → unpack_directed_message (pack_directed_message text mycall).0
      ≡ some (
          said
            (pack_callsign plan.from)
            (pack_callsign plan.to)
            (wrap_u8 (packed_code plan.kind))
            (pack_num (trim plan.num)).0)
unfolding unpack_directed_message not_a_frame
unpack-pack_directed_message text mycall plan e hf ht =
    let from = pack_callsign plan.from in
    let to = pack_callsign plan.to in
    let cmd = wrap_u8 (packed_code plan.kind) in
    let inum = (pack_num (trim plan.num)).0 in
    let small = pack_num-lt (trim plan.num) in
    let word =
      directed_word-sum from.0 to.0 cmd (pack_callsign-lt plan.from) (pack_callsign-lt plan.to) in
    let byte = directed_byte-sum from.1 to.1 inum small in
    let packs = packed_directed text mycall plan e hf ht in
    let hv : directed_word from.0 to.0 cmd < 2 ^ 64 =
      omega (arith, word, pack_callsign-lt plan.from, pack_callsign-lt plan.to) in
    let hr : directed_byte from.1 to.1 inum < 256 = ground (arith, byte, small) in
    let (n, spaces) =
      pack72bits_shape (directed_word from.0 to.0 cmd) (directed_byte from.1 to.1 inum) hr in
    let back =
      unpack72bits-pack72bits (directed_word from.0 to.0 cmd) (directed_byte from.1 to.1 inum) hv
        hr in
    let fields =
      directed_message-sum from.0 to.0 cmd inum from.1 to.1 (pack_callsign-lt plan.from)
        (pack_callsign-lt plan.to) small in
    rw packs (rw (n, spaces, back) (rw (word, byte) fields))
