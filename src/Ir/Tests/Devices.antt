-- ===== src/Ir/Tests/Devices.antt =====
-- The base receiver and the base transmitter at concrete inputs.
use picolibs.Base.{
  ℕ, ◌≡◌, refl, Bool, true, false, none, some, List, [], ◌∷◌, inl, arith, ◌==◌, ◌>>=◌, get_elem?,
  get_elem?-lt, Returns-bind,
}
use picolibs.Ir.Protocol.{Protocol}
use picolibs.Ir.Receiver.{Receiver, Grant, Event, edge, msg_alarm, bit_alarm, start_timer, run}
use picolibs.Ir.Receiver.Invariant.{IsSane, run-IsSane}
use picolibs.Ir.Led.{Led, transmit, set_next}
use picolibs.Ir.Led.Schedule.{Emits, transmit-Emits, transmit_refused}

-- A protocol of three pulses whose last one is the function.
abbrev three_pulses : Protocol
three_pulses = record {
  is_mark = λ delta. delta == 900;
  is_space = λ delta. delta == 450;
  is_repeat = λ delta. false;
  message_len = 3;
  decode = λ pulses n_pulse. do
    last ← get_elem? pulses 2
    some (record { accepted = true; addr = 1; func = last });
  message_long = omega arith;
  message_small = omega arith;
  decode_total = λ pulses e.
      Returns-bind (get_elem? pulses 2) _ (get_elem?-lt pulses 2 (omega arith)) λ last _. (_, refl);
}

abbrev idle : Receiver
idle = record {
  pulses = 0 ∷ 0 ∷ 0 ∷ [];
  n_pulse = 0;
  mx_pulse = 3;
  prev_ts = 100;
  sync = 0;
  rcb = true;
  rpt = false;
  rpt_addr = 0;
  rpt_func = 0;
  tmo = true;
  msg_timer = none;
  bit_timer = none;
  msg_timeout = 100;
  bit_timeout = 30;
  prev_count = 0;
  err = true;
  fault = false;
  log = [];
}

abbrev alarms : Grant
alarms log ms = some 7

idle-IsSane : IsSane three_pulses idle
idle-IsSane = record {
  sound = refl;
  room = refl;
  capacity = refl;
  phase = inl (refl, refl);
  idle_timer = λ _. refl;
}

-- A message that stops behind the sync sequence, its timeouts, and the next one.
abbrev happening : List Event
happening =
    start_timer
    ∷ edge 1000 true
    ∷ edge 1450 false
    ∷ bit_alarm true
    ∷ bit_alarm true
    ∷ msg_alarm false
    ∷ edge 9000 true
    ∷ edge 9900 false
    ∷ []

run-IsSane_example : IsSane three_pulses (run three_pulses alarms happening idle)
run-IsSane_example = run-IsSane three_pulses alarms happening idle idle-IsSane

abbrev led : Led
led = record {
  times = 2400 ∷ 600 ∷ 1200 ∷ 7 ∷ [];
  a_times = 4;
  n_times = 3;
  out_index = 9;
  timer = some 2;
  repeats = 1;
  repeat_interval = 45;
  minimum_repeats = 2;
  carrier = true;
  done_calls = 5;
}

abbrev three_messages : List (Bool × ℕ)
three_messages =
    (false, 600)
    ∷ (true, 1200)
    ∷ (false, 40799)
    ∷ (false, 1)
    ∷ (true, 2400)
    ∷ (false, 600)
    ∷ (true, 1200)
    ∷ (false, 40799)
    ∷ (false, 1)
    ∷ (true, 2400)
    ∷ (false, 600)
    ∷ (true, 1200)
    ∷ (false, 40800)
    ∷ []

transmit-Emits_example :
    (l1 l2 : Led) × (transmit (λ delay. some 3) led ≡ (true, l1))
    × (l1.carrier ≡ true)
    × Emits l1 three_messages l2
    × ((set_next l2).0 ≡ 0)
    × ((set_next l2).1.timer ≡ none)
    × ((set_next l2).1.carrier ≡ false)
    × ((set_next l2).1.done_calls ≡ 6)
transmit-Emits_example =
    transmit-Emits led 2400 (600 ∷ 1200 ∷ []) (7 ∷ []) (λ delay. some 3) 3 refl refl (omega arith)
      (omega arith) (omega arith, (omega arith, (omega arith, tt))) refl (omega arith)

transmit_refused_example :
    ((transmit (λ delay. none) led).0 ≡ false)
    × ((transmit (λ delay. none) led).1.carrier ≡ true)
    × ((transmit (λ delay. none) led).1.timer ≡ none)
transmit_refused_example =
    transmit_refused led 2400 (600 ∷ 1200 ∷ []) (7 ∷ []) (λ delay. none) refl refl (omega arith)
      refl
