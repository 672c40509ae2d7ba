-- ===== src/Motion.antt =====
-- services/motion_service.py: the motion scheduler, its interleavings and what they keep.
pub mod State
pub mod Service
pub mod Stop
pub mod Steps
pub mod Exclusion
pub mod Futures
pub mod EarlyStop
pub mod Tests
