-- ===== src/Lib.antt =====
-- ava_hotstuff: the multi-cluster HotStuff of this repository, its protocol core and storage.
--
-- A replica runs `HotStuffCore` (include/hotstuff/consensus.h, src/consensus.cpp), a state machine
-- that delivers blocks, votes, forms quorum certificates and commits, and that calls virtual methods
-- of the class derived from it for everything else. Blocks, the configuration and the storage are in
-- include/hotstuff/entity.h, certificates in include/hotstuff/crypto.h and src/crypto.cpp.
--
--   Exec            methods that change a state and may throw; `Exec.Keeps`: relations between the
--                   states before and after
--   Entity.Config   `ReplicaInfo`, `ReplicaConfig` and the sizes of the quorums
--   Entity.Block    `Block`, and the heap of shared blocks
--   Entity.Storage  `EntityStorage`; `Entity.Quorum`: quorums overlap
--   Crypto          partial and quorum certificates; `Crypto.Verify`: their check
--   Core.Messages   proposals, votes, complaints, decisions
--   Core.State      the fields of `HotStuffCore`, its virtual methods and their events
--   Core.Deliver    `on_deliver_blk`
--   Core.Update     `update_hqc`, `update`, the commit; Core.Climb: the loops over parents
--   Core.Receive    `on_receive_proposal`
--   Core.Vote       `on_receive_vote`, `on_qc_finish`, `do_vote`
--   Core.Propose    `on_propose`
--   Core.Complain   local and remote complaints
--   Core.Setup      `on_init`, `add_replica`, `update_config_parameters`, `async_qc_finish`, `start_mc`
--   Core.Run        any sequence of calls
--   Core.Rules      what each method keeps, from what its single changes keep
--   Core.Voting, Core.Commit, Core.Progress  the proofs about votes, commits and growing heights
--   Core.Quorum     from votes to a certificate
--   Core.Ancestry   the parents and heights of delivered blocks, in every run from the start
--   Db              include/hotstuff/HashBucket.h, HashMap.h and in_memory_db.cpp, the key-value store;
--                   `Db.Memory.Spec`: the map that it implements
--   Clusters        `receive_mc_local` of src/hotstuff.cpp, the confirmations of the other clusters
--   Liveness        PMHighTail, PMWaitQC, PaceMakerDummyFixed and PMRoundRobinProposer of
--                   include/hotstuff/liveness.h
--   Reconfig        the reconfiguration handlers of src/hotstuff.cpp: nodes that join and leave
--   Commands        `exec_command`, the queue of commands and their answers, of src/hotstuff.cpp
--   Execution       `HotStuffBase` as the derived class: commits and confirmations lead to execution
--   Relay           the messages to the other clusters, of src/hotstuff.cpp
--   Fetching        `async_fetch_blk`, `async_deliver_blk` and the handlers of block messages, of
--                   src/hotstuff.cpp, with the promises of blocks
--   Handlers        `propose_handler`, `vote_handler`, `LComplain_handler` and `RComplain_handler` of
--                   src/hotstuff.cpp, and the promises that they wait for; `Handlers.Timers`: the
--                   timers of the remote view change and `send_RComplain_local`
--   Wire            messages, blocks and certificates as bytes
--   Tests           concrete replicas
--
-- A block is a reference into a heap, so that what one holder writes the others see. A method returns,
-- throws (with what it wrote so far), faults (undefined behaviour and failed assertions) or has used
-- its rounds. The derived class is the parameter `Hooks`: a state of its own, the virtual methods as
-- functions on that state, the signature scheme and the hash. A vote for oneself is handled at once,
-- as in `do_vote` of src/hotstuff.cpp. A promise's continuation, which the source runs inside the
-- method that resolves it, is a call of its own that comes later: the runs are those whose calls do
-- not nest. The three-step build is modelled, not HOTSTUFF_TWO_STEP. The loops over parents
-- are given a round more than the height of their first block, which suffices where parents are lower
-- than their children, as those of delivered blocks are in every run from the start of fewer than 2^32
-- calls. Numbers of 32 bits wrap where the source adds to a height.
--
-- Not modelled: the libraries salticidae and secp256k1, the network and its event loop, logging,
-- `prune`, which nothing calls, and the command line programs.
pub mod Prelude
pub mod Exec
pub mod Entity
pub mod Crypto
pub mod Core
pub mod Db
pub mod Clusters
pub mod Liveness
pub mod Reconfig
pub mod Wire
pub mod Commands
pub mod Fetching
pub mod Execution
pub mod Relay
pub mod Handlers
pub mod Tests
