-- ===== src/Entity.antt =====
-- include/hotstuff/entity.h and src/entity.cpp: what the replicas talk about. The children hold the
-- replica configuration, the blocks, and the storage that finds blocks and commands by hash.
pub mod Config
pub mod Block
pub mod Storage
pub mod Quorum
