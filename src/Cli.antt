-- ===== src/Cli.antt =====
-- internal/cli: the commands.
pub mod Faults
pub mod Up
