-- ===== src/Varicode.antt =====
-- src/varicode/mod.rs: the packed forms of messages.
pub mod Alphabet
pub mod Bits
pub mod Checksum
pub mod Pack72
pub mod Alnum50
pub mod Fields
pub mod Compound
pub mod Grid
pub mod Jsc
pub mod Huffman
pub mod DataFrames
pub mod Callsign
pub mod Messages
