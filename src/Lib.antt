-- ===== src/Lib.antt =====
-- The js8rs crate: a JS8 codec and receiver. This library models the program but for its signal
-- processing, and proves it correct.
--
-- The program's parts and their modules:
-- * src/protocol.rs (Protocol): submodes, frame types, frame flags, sets of submodes, and packed
--   times with `decode_time` of src/internal/commons.rs.
-- * src/submode.rs (Submodes): the parameter table of each submode and the arithmetic of slots
--   ("cycles") on the ring of received samples. Floating-point parameters are exact thousandths.
-- * src/timing.rs (Timing): the transmit slot of a moment and the gates of a transmission, with and
--   without the feature `experimental-time`. Its theorems are for moments below the end of the
--   clock's 64 bits by two slots, where no addition overflows.
-- * src/rx/scheduling.rs (Rx/Scheduling): `next_decode_window` on a cursor and the scheduler with a
--   cursor for each submode, as built without the feature `experimental-time`.
-- * src/rx/mod.rs and src/rx/time.rs (Rx/Session): the decoder that is called on one stream of
--   samples under `experimental-time`: its windows, its memory of reported frames, its events.
-- * src/rx/reassembly.rs (Rx/Reassembly): the assembler of buffered commands. The hash map is an
--   association list; `push_decoded` is a step from a state to the new state and an event, and
--   `none` is a panic. Texts are lists of UTF-8 bytes.
-- * src/command.rs (Command): `CommandKind` with its tokens and codes (Kind), the table of commands
--   with `command_prefix` (Table), and the shapes of callsigns (Calls).
-- * src/varicode/mod.rs (Varicode): the alphabets, the checksums of text, and the packed fields:
--   72-bit frames (Pack72), callsigns in 28 bits (Callsign) and in 50 (Alnum50), locators (Grid),
--   reports and command bytes (Fields), compound callsign frames (Compound), the Huffman code
--   (Huffman), data frames of both kinds (DataFrames) on lists of bits (Bits), and heartbeat,
--   compound and directed messages (Messages).
-- * src/varicode/jsc.rs (Varicode/Jsc): `compress_frame` and `decompress` over a table of words, and
--   the lookup of a word with its binary search (Lookup); the readers of src/varicode/jsc_tables.rs
--   (Tables). Codewords, Parsing, Frames, Compression, Packing and Termination are the proofs.
-- * src/internal/decoded_text.rs (DecodedText): `DecodedFrame::new`, which tries the unpackers in
--   order and lays out the text that is shown.
-- * src/encoder.rs (Encoder): a packed frame as 79 tones, with the CRC of src/internal/crc12.rs
--   (Crc12), the parity matrix of src/internal/local_routines.rs (Parity) and the patterns of
--   src/internal/costas.rs.
-- * src/internal/local_routines.rs (Decoder): the message in the bits that a decoder found, behind the
--   test of its CRC, and the flags that src/decoder.rs reads off the same bits.
-- The scheduler chooses the windows that are decoded; the session passes on what a search finds in
-- them, once; what is decoded becomes frames whose fields the varicode modules pack and unpack, the
-- classification reads, and the encoder sends when the timing allows it; frames of directed
-- commands go to the assembler, which reads the command kinds to know what is buffered and how it
-- is checked.
--
-- Conventions: integers are native numbers with each cast and wrap-around written out, `i32` is an
-- integer, and a floating-point number of src/timing.rs is a double, an exact fraction that each
-- operation rounds to 53 bits (Prelude/Double). The 16- and 32-bit CRCs of
-- the crate `crc` are parameters: functions of bytes, with a bound on their value where a theorem
-- needs it. The tables of words are parameters too: their bytes are files under assets; so is the
-- order in which a map of the crate `phf` gives its entries, and the search for frames in samples.
-- Loops are structural recursion, over the bytes or over a number of rounds. The loop over a word in
-- `compress_frame` has 73 rounds, since each codeword takes bits of a frame of 72. The loops of
-- `codeword`, of the binary search and of the Huffman decoder are bounded by a number that each
-- round makes smaller.
--
-- Not modelled: the signal decoder (src/decoder.rs but for those flags, and most of src/internal),
-- src/detector.rs and src/modulator.rs, which are floating-point signal processing; the parser of
-- whole command messages in src/command.rs; `pack_compound_message` and how a text becomes frames in
-- src/varicode/mod.rs, with the text that `pack_directed_message` writes out besides its frame;
-- src/codec.rs but for the fields of a decoded frame; the clock and the formatting of log lines; the
-- bytes of the tables under assets, which are no code.
pub mod Encoder
pub mod Decoder
pub mod Examples
pub mod Prelude
pub mod Protocol
pub mod Submodes
pub mod Timing
pub mod DecodedText
pub mod Rx
pub mod Command
pub mod Varicode
