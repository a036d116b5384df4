-- ===== src/Core.antt =====
-- include/hotstuff/consensus.h and src/consensus.cpp: `HotStuffCore`, the protocol state machine
-- without its network. `State` holds the objects and the virtual methods; `Deliver`, `Update`,
-- `Vote`, `Propose` and `Complain` hold the methods, and the other children prove.
pub mod Messages
pub mod State
pub mod Climb
pub mod Deliver
pub mod Update
pub mod Vote
pub mod Receive
pub mod Propose
pub mod Setup
pub mod Complain
pub mod Rules
pub mod Run
pub mod Quorum
pub mod Commit
pub mod Voting
pub mod Progress
pub mod Ancestry
