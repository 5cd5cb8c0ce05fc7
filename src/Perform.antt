-- ===== src/Perform.antt =====
-- perform/docker_run.go: the operations on containers. They share the pointers `srv` and `ops` with
-- their callers, so an action works on a session, which holds the daemon's state and both structs.
pub mod Action
pub mod Calls
pub mod Data
pub mod Service
pub mod Lifecycle
pub mod Rename
pub mod Promises
pub mod Steps
pub mod Keeps
pub mod Pull
pub mod Started
pub mod Present
pub mod Cleanup
pub mod Renamed
