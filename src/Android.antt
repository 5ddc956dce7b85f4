-- ===== src/Android.antt =====
-- The container of the Android runtime: android-compat/container/.
pub mod Properties
pub mod Child
pub mod Cgroup
pub mod Container
pub mod Main
