-- ===== src/Rx.antt =====
-- src/rx: window scheduling, message reassembly, and the decoder's session.
pub mod Scheduling
pub mod Session
pub mod Reassembly
