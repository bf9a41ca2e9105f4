-- ===== src/Ir/Sony.antt =====
-- The Sony protocol: ir/sony_transmitter.{h,cpp} and ir/sony_receiver.{h,cpp}.
pub mod Transmitter
pub mod Receiver
pub mod Field
pub mod RoundTrip
pub mod Bounds
pub mod Delivery
use picolibs.Base.{ℕ}

-- `SONY_BASE_PULSE`, in microseconds.
abbrev pub sony_base_pulse : ℕ
sony_base_pulse = 600
