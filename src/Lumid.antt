-- ===== src/Lumid.antt =====
-- The init system of system/core/lumid: a module for each source file, over shared types.
pub mod Types
pub mod Machine
pub mod Child
pub mod Lifecycle
pub mod Resolve
pub mod Supervisor
pub mod Cgroup
pub mod Mount
pub mod Log
pub mod Ipc
pub mod Lumictl
pub mod Config
pub mod Load
pub mod Early
pub mod Main
pub mod Samples
