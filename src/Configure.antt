-- ===== src/Configure.antt =====
-- The container options that perform/docker_run.go builds from a service and an operation.
pub mod Service
pub mod Data
unfoldable pub use Service.*
unfoldable pub use Data.*
