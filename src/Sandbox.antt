-- ===== src/Sandbox.antt =====
-- The security sandbox of system/core/sandbox: policies, the system call filter, the file system
-- rules, and their application to a process.
pub mod Policy
pub mod PolicyFile
pub mod Seccomp
pub mod Landlock
pub mod Apply
mod Tests
pub mod Main
pub mod Profile
