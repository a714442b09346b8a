-- ===== src/Compose.antt =====
-- pkg/compose: what orcinus does to the objects that the forked kompose engine converts.
pub mod Config
pub mod Objects
pub mod Decorate
pub mod Attach
pub mod Secrets
pub mod Ingress
pub mod Strategy
pub mod Autoscale
pub mod Rollouts
pub mod Vms
pub mod Sort
pub mod Pipeline
pub mod Extensions
mod Tests
