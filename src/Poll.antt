-- ===== src/Poll.antt =====
-- lib/voting/poll.ts, the class VotingPoll.
pub mod State
pub mod Ballots
pub mod Tallies
pub mod Loops
pub mod Cast
pub mod Storing
pub mod Counting
pub mod Election
pub mod History
pub mod Results
pub mod Leading
pub mod Totals
pub mod Receipts
pub mod Keeping
pub mod EciesReceipts
mod Tests
