-- ===== src/Iface.antt =====
-- include/iface and src/iface: the interfaces of a device.
pub mod World
pub mod Virtual
pub mod Physical
pub mod Streetpass
pub mod Runs
mod Examples
