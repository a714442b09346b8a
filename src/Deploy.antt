-- ===== src/Deploy.antt =====
-- pkg/deploy: applying objects to a cluster, pruning what a project no longer has, removing it.
pub mod Api
pub mod Claims
pub mod Prune
pub mod Wait
pub mod Apply
pub mod Manifests
pub mod Secrets
pub mod Workloads
pub mod Export
pub mod Tests
