-- ===== src/Clusters.antt =====
-- src/hotstuff.cpp, the part of `HotStuffBase` that waits for the other clusters: `receive_mc_local`
-- counts, for the block at each height, from which clusters its confirmation has come. A height is an
-- `int` that stands for a `uint32_t`; it is kept as its 32-bit pattern. The counts do not overflow.
pub mod Row
pub mod Tracking
pub mod Heard
pub mod Finished
pub mod Received
