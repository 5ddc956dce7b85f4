-- ===== src/Telephony.antt =====
-- The telephony daemon of system/services/telephonyd.
pub mod Calls
pub mod Radio
