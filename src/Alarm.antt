-- ===== src/Alarm.antt =====
-- The alarms of the SDK (pico/time.h), which the code only calls: an `alarm_id_t` is an id, or the
-- -1 that stands for no alarm.
use picolibs.Base.{ℕ, Bool, true, false, Option, none, some}

abbrev pub AlarmId : Type 0
AlarmId = Option ℕ

-- `timer != -1`
abbrev pub is_set : AlarmId → Bool
is_set none = false
is_set (some id) = true
