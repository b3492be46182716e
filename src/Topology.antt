-- ===== src/Topology.antt =====
-- pkg/topology: the topology document and what is computed from it.
pub mod Defs
pub mod Files
pub mod Numa
pub mod TierGroups
