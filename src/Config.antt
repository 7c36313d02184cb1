-- ===== src/Config.antt =====
-- config.py: the settings, and the texts that the environment gives for them.
pub mod Schedule
pub mod Settings
