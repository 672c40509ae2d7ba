-- ===== src/Commands.antt =====
-- adapters/command_runner.py and adapters/factory.py: which commands may be run at all.
pub mod Runner
pub mod Factory
pub mod Allowlist
pub mod Tests
