-- ===== src/Loaders.antt =====
-- The loaders of definitions (loaders/services.go and loaders/chains.go).
pub mod Outcome
pub mod Connect
pub mod Finalize
pub mod Service
pub mod Chain
pub mod Connected
pub mod Harmonized
