-- ===== src/Ir/Tests/Protocols.antt =====
-- Messages of the three protocols, measured with an error, and what is heard of them.
use picolibs.Base.{ℕ, ◌+◌, ◌≤◌, ◌≡◌, refl, true, false, none, some, List, [], arith, replicate}
use picolibs.Ir.Pulse.{Near-refl}
use picolibs.Ir.PulseDistance.{encode_bytes, encode_bits}
use picolibs.Ir.Sony.Transmitter.{encode_field}
use picolibs.Ir.Receiver.{Receiver, Grant, run}
use picolibs.Ir.Receiver.Collect.{edges, total, IsDelivered}
use picolibs.Ir.Receiver.Delivery.{IsIdle}
use picolibs.Ir.Nec.{nec_message_len}
use picolibs.Ir.Samsung.{samsung_message_len}
use picolibs.Ir.Nec
use picolibs.Ir.Nec.Delivery.{nec_protocol, nec_receive-message_times}
use picolibs.Ir.Nec.RoundTrip.{nec_ambiguous_refused}
use picolibs.Ir.Samsung
use picolibs.Ir.Samsung.Delivery.{samsung_protocol, samsung_receive-message_times}
use picolibs.Ir.Sony
use picolibs.Ir.Sony.Delivery.{sony_protocol, sony_receive-message_times}
use picolibs.Ir.Tests.{stretch, Near-stretch}

-- A receiver that waits since time 1000, with both callbacks and a bit timeout.
abbrev waiting : ℕ → Receiver
waiting len = record {
  pulses = replicate len 0;
  n_pulse = 0;
  mx_pulse = len;
  prev_ts = 1000;
  sync = 0;
  rcb = true;
  rpt = true;
  rpt_addr = 0;
  rpt_func = 0;
  tmo = false;
  msg_timer = none;
  bit_timer = none;
  msg_timeout = 0;
  bit_timeout = 30;
  prev_count = 0;
  err = true;
  fault = false;
  log = [];
}

abbrev alarms : Grant
alarms log ms = some 7

-- The low 16 bits of the receiver's address count.
abbrev nec_train : List ℕ
nec_train = stretch 100 (Nec.Transmitter.message_times 0x1234 8)

total-nec_train : total nec_train ≡ 71330
unfolding Nec.Transmitter.message_times Nec.Transmitter.message_bytes encode_bytes encode_bits
total-nec_train = refl

nec-IsIdle : IsIdle (nec_protocol 0x11234) 1000 (waiting 67)
unfolding nec_protocol
nec-IsIdle = record { waiting = refl; stamp = refl; room = refl; capacity = refl }

nec_receive-message_times_example :
    IsDelivered
      (record { accepted = true; addr = 0x1234; func = 8 })
      (1000 + total nec_train)
      (waiting 67)
      (run (nec_protocol 0x11234) alarms (edges 1000 true nec_train) (waiting 67))
nec_receive-message_times_example =
    nec_receive-message_times 0x1234 8 0x11234 1000 nec_train alarms (waiting 67) (omega arith) refl
      (Near-stretch 281 100 (omega arith) _) (omega (arith, total-nec_train))
      (omega (arith, total-nec_train)) nec-IsIdle

-- An address whose bytes are each other's complement.
nec_ambiguous_refused_example :
    Nec.Receiver.decode (Nec.Transmitter.message_times 0xf00f 8) nec_message_len 0xf00f
    ≡ some (record { accepted = false; addr = 0x0f; func = 8 })
nec_ambiguous_refused_example =
    nec_ambiguous_refused 0xf00f 8 (Nec.Transmitter.message_times 0xf00f 8) (omega arith) refl
      (Near-refl 281 (omega arith) _)

abbrev samsung_train : List ℕ
samsung_train = stretch 100 (Samsung.Transmitter.message_times 7 0x302)

total-samsung_train : total samsung_train ≡ 67958
unfolding Samsung.Transmitter.message_times Samsung.Transmitter.message_bytes encode_bytes
    encode_bits
total-samsung_train = refl

samsung-IsIdle : IsIdle (samsung_protocol 0xffff) 1000 (waiting 67)
unfolding samsung_protocol
samsung-IsIdle = record { waiting = refl; stamp = refl; room = refl; capacity = refl }

samsung_receive-message_times_example :
    IsDelivered
      (record { accepted = true; addr = 7; func = 2 })
      (1000 + total samsung_train)
      (waiting 67)
      (run (samsung_protocol 0xffff) alarms (edges 1000 true samsung_train) (waiting 67))
samsung_receive-message_times_example =
    samsung_receive-message_times 7 0x302 0xffff 1000 samsung_train alarms (waiting 67)
      (omega arith) refl (Near-stretch 281 100 (omega arith) _) (omega (arith, total-samsung_train))
      (omega (arith, total-samsung_train)) samsung-IsIdle

abbrev sony_train : List ℕ
sony_train = stretch 100 (Sony.Transmitter.message_times 7 5 1 0x95)

total-sony_train : total sony_train ≡ 21700
unfolding Sony.Transmitter.message_times encode_field
total-sony_train = refl

five : 5 ≤ 16
five = omega arith

sony-IsIdle : IsIdle (sony_protocol 5 1 five) 1000 (waiting 25)
unfolding sony_protocol
sony-IsIdle = record { waiting = refl; stamp = refl; room = refl; capacity = refl }

sony_receive-message_times_example :
    IsDelivered
      (record { accepted = true; addr = 1; func = 0x15 })
      (1000 + total sony_train)
      (waiting 25)
      (run (sony_protocol 5 1 five) alarms (edges 1000 true sony_train) (waiting 25))
sony_receive-message_times_example =
    sony_receive-message_times 5 1 0x95 1 1000 sony_train alarms (waiting 25) five
      (Near-stretch 300 100 (omega arith) _) (omega (arith, total-sony_train))
      (omega (arith, total-sony_train)) sony-IsIdle
