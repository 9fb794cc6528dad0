-- ===== src/Assets.antt =====
-- The asset transfer capabilities of src/ace_service/repository.py.
pub mod Policy
pub mod Rows
pub mod Capabilities
pub mod Calls
pub mod Completion
pub mod Keeping
pub mod Uploads
pub mod Recorded
pub mod Retry
pub mod Counting
pub mod Opens
mod Tests
