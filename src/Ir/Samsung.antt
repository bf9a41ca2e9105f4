-- ===== src/Ir/Samsung.antt =====
-- The Samsung protocol: ir/samsung_transmitter.{h,cpp} and ir/samsung_receiver.{h,cpp}.
pub mod Transmitter
pub mod Receiver
pub mod RoundTrip
pub mod Bounds
pub mod Delivery
use picolibs.Base.{ℕ}

-- `SAMSUNG_BASE_PULSE`, in microseconds, and `SAMSUNG_MESSAGE_LEN`.
abbrev pub samsung_base_pulse : ℕ
samsung_base_pulse = 562

abbrev pub samsung_message_len : ℕ
samsung_message_len = 67
