-- ===== src/Cluster.antt =====
-- Nodes as containers (pkg/cluster).
pub mod Versions
pub mod Docker
pub mod Arguments
pub mod Recreate
pub mod Update
pub mod Upgrade
mod Tests
