-- ===== src/Modem.antt =====
-- modem/: the values that ModemManager's properties decode to.
pub mod Models
pub mod Bus
pub mod Keys
pub mod Paths
pub mod Client
pub mod Watchers
pub mod Control
pub mod Reset
pub mod Timestamps
pub mod Messages
pub mod History
