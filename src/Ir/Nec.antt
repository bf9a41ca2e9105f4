-- ===== src/Ir/Nec.antt =====
-- The NEC protocol: ir/nec_transmitter.{h,cpp} and ir/nec_receiver.{h,cpp}.
pub mod Transmitter
pub mod Receiver
pub mod RoundTrip
pub mod Bounds
pub mod Delivery
use picolibs.Base.{ℕ}

-- `NEC_BASE_PULSE`, in microseconds, and `NEC_MESSAGE_LEN`.
abbrev pub nec_base_pulse : ℕ
nec_base_pulse = 562

abbrev pub nec_message_len : ℕ
nec_message_len = 67
