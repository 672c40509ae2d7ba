-- ===== src/Device.antt =====
-- adapters/local_k1.py: the adapter of the real device.
pub mod Motors
pub mod MotorLaws
pub mod Power
pub mod PowerLaws
pub mod Readiness
pub mod Requests
pub mod Reports
pub mod Liveness
pub mod Tests
