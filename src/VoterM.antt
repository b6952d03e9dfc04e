-- ===== src/VoterM.antt =====
-- voter/voterm.c: the voter for replicas that run in parallel, one module for each stage.
pub mod State
pub mod FdServer
pub mod Input
pub mod Init
pub mod Collect
pub mod Recover
pub mod Vote
pub mod Send
pub mod Turn
pub mod Single
mod Tests
