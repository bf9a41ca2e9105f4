-- ===== src/Ir.antt =====
-- The infrared library (ir/): pulse measures, the protocols' transmitters and receivers, and the
-- base classes that send and collect pulses.
pub mod Pulse
pub mod PulseDistance
pub mod Message
pub mod Nec
pub mod Samsung
pub mod Sony
pub mod Protocol
pub mod Receiver
pub mod Led
mod Tests
