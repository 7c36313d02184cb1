-- ===== src/Relay.antt =====
-- relay/: the relay (relay.py, models.py) and its background schedulers.
pub mod State
pub mod Messages
pub mod Lifecycle
pub mod Watchdog
pub mod Heartbeat
pub mod Schedulers
pub mod Reports
pub mod Timers
