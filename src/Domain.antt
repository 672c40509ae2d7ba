-- ===== src/Domain.antt =====
-- domain/: the intimacy levels and rules, the action catalogue and the personalities.
pub mod Intimacy
pub mod Actions
pub mod Personalities
pub mod Tests
pub mod Laws
