-- ===== src/Personality.antt =====
-- services/personality_service.py: the profile that a pet's personality, level and settings make, and
-- its synchronization with the runtime file of the voice process.
pub mod Prompt
pub mod Profile
pub mod Sync
pub mod Functions
pub mod Files
pub mod Tests
