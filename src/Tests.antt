-- ===== src/Tests.antt =====
-- Runs of the definitions on concrete inputs, and the theorems applied to them.
mod Daemon
mod Naming
mod Files
mod Containers
mod Images
mod World
mod Groups
mod Starts
mod Site
mod Chains
mod Runs
mod Disk
