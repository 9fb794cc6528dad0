-- ===== src/Jobs.antt =====
-- Jobs and their variation attempts in src/ace_service/repository.py.
pub mod Store
pub mod Transitions
pub mod Submission
pub mod Uncertain
pub mod Endings
pub mod Calls
pub mod Outcomes
mod Guards
pub mod Kept
pub mod Settled
pub mod Once
pub mod Refusal
pub mod Resubmission
pub mod Closing
pub mod Handing
pub mod Completion
mod Tests
