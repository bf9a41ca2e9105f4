-- ===== src/Util.antt =====
-- The utilities (util/): text handling and devices.
pub mod Memory
pub mod Txt
pub mod Text
pub mod Button
pub mod Led
pub mod DbgFlag
pub mod JsonMap
pub mod FileLogger
pub mod JsonString
mod Tests
