-- ===== src/Cec.antt =====
-- include/cec and src/cec: the module filter that StreetPass devices broadcast.
pub mod SendMode
pub mod Layout
pub mod Endian
pub mod Filter
pub mod Mve
pub mod RawBytes
pub mod Title
pub mod Key
pub mod FilterList
pub mod ModuleFilter
pub mod Print
pub mod Tests
pub mod Samples
mod Examples
mod Cases
mod Usage
