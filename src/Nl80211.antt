-- ===== src/Nl80211.antt =====
-- include/nl80211 and src/nl80211: the messages to the wireless subsystem of the kernel.
pub mod Attributes
pub mod Message
pub mod Socket
pub mod Commands
mod Examples
