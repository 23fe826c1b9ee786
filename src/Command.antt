-- ===== src/Command.antt =====
-- src/command.rs: application commands.
pub mod Kind
pub mod Table
pub mod Calls
