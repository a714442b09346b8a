-- ===== src/Compose/Extensions.antt =====
-- The compose extensions of pkg/compose/extensions.go.
pub mod Scalars
pub mod Resources
pub mod Placement
pub mod Paths
pub mod Binds
pub mod Update
pub mod Hints
pub mod EnvFiles
pub mod Inject
