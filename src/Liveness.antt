-- ===== src/Liveness.antt =====
-- include/hotstuff/liveness.h: the pacemakers, which choose the parent of the next block
-- (`PMHighTail`), the time to propose it (`PMWaitQC`) and the proposer (`PaceMakerDummyFixed`,
-- `PMRoundRobinProposer`). A
-- continuation of a promise is an operation; its caller is the promise's resolution.
pub mod HighTail
pub mod WaitQc
pub mod Fixed
pub mod RoundRobin
