-- ===== src/Examples/Receiving.antt =====
-- A concrete buffered message, received beside the frames of another stream.
use js8rs.Prelude.{
  ℕ, ◌+◌, ◌*◌, ◌%◌, ◌≡◌, refl, true, false, Option, none, some, List, [], ◌∷◌, ◌++◌, codes, str_eq,
  arith,
}
use js8rs.Prelude.Int.{negsuc}
use js8rs.Protocol.{
  normal, FrameFlags, flags_none, flags_first, flags_last, flags_bitor, flags_contains,
}
use js8rs.Command.Kind.{
  trim_start_spaces, is_buffered_token, eq_ignore_ascii_case, is_empty, from_wire, checksum_bits,
}
use js8rs.Varicode.Checksum.{checksum16, checksum16_valid, pad_to, pack16bits}
use js8rs.Varicode.Alphabet.{alphabet_at}
use js8rs.Rx.Reassembly.{
  DecodedFrame, Decoded, BufferKey, BufferState, BufferedCommandResult, ReassemblyEvent, completed,
  key_eq, key_of, rstrip_spaces, concat, is_continuation, is_directed, is_compound, handle_directed,
  handle_parts, handle_fragment, opens_buffer, is_last_frame, start_state, append_fragment,
  placeholder, split_checksum, result_event, finalize_buffered_payload, finish_state, push_decoded,
  unchecked, checksum_size, Assembler,
}
use js8rs.Rx.Reassembly.Buffers.{get, insert, remove}
use js8rs.Rx.Reassembly.Runs.{own, events_of, run_frames, run_stream, run_stream-own}
use js8rs.Rx.Reassembly.Checksums.{finalize_buffered_payload-checksum16, finish_state-completed}

-- Stand-ins for the CRCs of the crate `crc`.
abbrev sum16 : List ℕ → ℕ
sum16 [] = 0
sum16 (c ∷ s) = (31 * sum16 s + c) % 65536

abbrev sum32 : List ℕ → ℕ
sum32 [] = 0
sum32 (c ∷ s) = (31 * sum32 s + c) % 4294967296

abbrev frame_of : FrameFlags → List (List ℕ) → List ℕ → DecodedFrame
frame_of flags directed message = record {
  compound = [];
  directed = directed;
  message = message;
  flags = flags;
  submode = normal;
}

abbrev heard : ℕ → DecodedFrame → Decoded
heard frequency frame = record {
  frame = frame;
  utc = 123000;
  snr = negsuc 9;
  frequency_offset = frequency;
}

abbrev to_call : List ℕ
to_call = codes "K2XYZ"

abbrev msg_token : List ℕ
msg_token = codes " MSG"

abbrev opening : Decoded
opening = heard 1500 (frame_of flags_first (codes "K1ABC" ∷ to_call ∷ msg_token ∷ []) [])

abbrev other_text : Decoded
other_text = heard 900 (frame_of flags_none [] (codes "CQ"))

abbrev closing : Decoded
closing = heard 1500 (frame_of flags_last [] (codes "HI " ++ checksum16 sum16 (codes "HI")))

abbrev received : List Decoded
received = opening ∷ other_text ∷ closing ∷ []

abbrev stream : BufferKey
stream = key_of opening

msg-checked : unchecked to_call msg_token ≡ false
unfolding unchecked is_buffered_token str_eq eq_ignore_ascii_case
msg-checked = refl

msg-checksum_size : checksum_size msg_token ≡ 16
unfolding checksum_size from_wire str_eq checksum_bits
msg-checksum_size = refl

finalize_buffered_payload-checksum16_example :
    finalize_buffered_payload sum16 sum32 to_call msg_token
      (codes "HI" ++ (b' ' ∷ checksum16 sum16 (codes "HI")))
    ≡ some (
      codes "HI",
      some (record { size_bits = 16; value = checksum16 sum16 (codes "HI"); valid = true }),
    )
finalize_buffered_payload-checksum16_example =
    finalize_buffered_payload-checksum16 sum16 sum32 to_call msg_token b'H' (b'I' ∷ []) msg-checked
      msg-checksum_size refl (omega arith)

-- The buffer of the stream before its last frame.
abbrev waiting : BufferState
waiting = record {
  from = codes "K1ABC";
  to = to_call;
  command = msg_token;
  utc = 123000;
  snr = negsuc 9;
  flags = flags_first;
  fragments = (codes "HI " ++ checksum16 sum16 (codes "HI")) ∷ [];
}

abbrev finished : BufferedCommandResult
finished = record {
  key = stream;
  from = codes "K1ABC";
  to = to_call;
  command = msg_token;
  payload = codes "HI";
  checksum = some (record { size_bits = 16; value = checksum16 sum16 (codes "HI"); valid = true });
  utc = 123000;
  snr = negsuc 9;
  flags = flags_bitor flags_first flags_last;
  was_buffered = true;
}

waiting-finished : finish_state sum16 sum32 stream waiting ≡ some (completed finished)
unfolding finish_state finalize_buffered_payload unchecked is_buffered_token str_eq
    eq_ignore_ascii_case checksum_size checksum_bits split_checksum trim_start_spaces rstrip_spaces
    concat checksum16 checksum16_valid pad_to pack16bits alphabet_at is_continuation from_wire
    flags_bitor key_of result_event
waiting-finished = refl

finish_state-completed_example :
    trim_start_spaces (rstrip_spaces (concat waiting.fragments))
    ≡ finished.payload ++ (b' ' ∷ checksum16 sum16 finished.payload)
finish_state-completed_example =
    finish_state-completed sum16 sum32 stream waiting finished msg-checked msg-checksum_size
      (omega arith) waiting-finished

abbrev final_state : Assembler × List (BufferKey × Option ReassemblyEvent)
final_state = elim (run_frames sum16 sum32 received []) [ none ↦ ([], []) | some q ↦ q ]

received-runs : run_frames sum16 sum32 received [] ≡ some final_state
unfolding run_frames push_decoded is_directed handle_directed handle_parts opens_buffer
    is_buffered_token str_eq is_last_frame flags_contains is_compound is_empty handle_fragment get
    insert remove finish_state finalize_buffered_payload unchecked eq_ignore_ascii_case
    checksum_size checksum_bits split_checksum trim_start_spaces rstrip_spaces concat checksum16
    checksum16_valid pad_to pack16bits alphabet_at is_continuation from_wire flags_bitor key_of
    key_eq result_event start_state append_fragment placeholder
received-runs = refl

run_stream-own_example :
    run_stream sum16 sum32 (own stream received) (get key_eq stream [])
    ≡ some (get key_eq stream final_state.0, events_of stream final_state.1)
run_stream-own_example = run_stream-own sum16 sum32 stream received [] final_state received-runs

other-key : key_eq (key_of other_text) stream ≡ false
unfolding key_eq key_of
other-key = refl

-- A stream with its buffer.
abbrev held : Assembler
held = (stream, waiting) ∷ []

other-pushed : push_decoded sum16 sum32 other_text held ≡ some (held, none)
unfolding push_decoded is_directed is_compound is_empty handle_fragment get key_eq key_of
other-pushed = refl
