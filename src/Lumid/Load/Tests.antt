-- ===== src/Lumid/Load/Tests.antt =====
-- A directory with one unit file, loaded.
