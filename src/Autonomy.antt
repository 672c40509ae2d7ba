-- ===== src/Autonomy.antt =====
-- autonomy.py and local_speech.py: the process that now and then moves the head and says a phrase, by
-- requests to the controller on the same device.
pub mod Values
pub mod Setup
pub mod Client
pub mod Speech
pub mod Playing
pub mod Worker
pub mod Allowed
pub mod Safety
pub mod Loop
pub mod Pauses
pub mod Limits
pub mod Tests
