-- ===== src/Dialog.antt =====
-- services/dialog_service.py: the state of the dialog with its wakes and interruptions, the requests
-- for text and speech, and the file with its configuration.
pub mod State
pub mod Wake
pub mod Requests
pub mod Steps
pub mod Kept
pub mod Tracking
pub mod Overtaken
pub mod FollowUp
pub mod Tests
