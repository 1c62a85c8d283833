-- ===== src/Consensus.antt =====
-- solutions/solution20_blockchain_consensus.go: proof of work and PBFT; and the Raft node of
-- challenges/challenge32_consensus_raft.go.
pub mod ProofOfWork
pub mod Pbft
pub mod Raft
pub mod Checks
