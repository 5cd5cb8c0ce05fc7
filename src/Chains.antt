-- ===== src/Chains.antt =====
-- Chains (chains/load.go, chains/operate.go and chains/manage.go).
pub mod Load
pub mod Operate
pub mod Ports
pub mod Manage
pub mod Booted
pub mod Misnamed
pub mod Setup
pub mod Definitions
pub mod Register
