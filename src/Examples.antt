-- ===== src/Examples.antt =====
-- The theorems at concrete inputs.
mod Encoding
mod Frames
mod Modes
mod Receiving
mod Compression
mod Tables
mod Callsigns
mod Sessions
mod Messages
