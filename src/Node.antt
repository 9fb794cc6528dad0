-- ===== src/Node.antt =====
-- The job queue of a node, src/ace_node/db.py.
pub mod Values
pub mod Privacy
pub mod Database
pub mod Calls
pub mod Settled
pub mod Results
pub mod Bound
pub mod Replay
mod Tests
