-- ===== src/VoteLog.antt =====
-- NodeVoteLogger of lib/voting/node-persistent-state.ts.
pub mod Entry
pub mod Hex
pub mod Writing
pub mod Reading
pub mod Replay
pub mod Appending
pub mod Bounds
mod Tests
