-- ===== src/Util/Led.antt =====
-- `LED` (util/led.{h,cpp}): the flashing of an LED. What is put on the pin is a log, newest first. A shift by 32 bits or
-- more, and a division by zero, are `none`. The kinds of pin, and the constructors but for their members, are left out.
pub mod Flash
mod Tests
use picolibs.Base.{
  ℕ, zero, suc, ◌+◌, ◌-◌, ◌/◌, ◌^◌, Bool, true, false, not, ◌&&◌, ◌||◌, Option, none, some, List,
  [], ◌∷◌, ltb, leb, ◌==◌, if◌then◌else◌, ◌>>=◌, bit_and,
}
use picolibs.Alarm.{AlarmId, is_set}

-- The members of `LED`.
pub record Led : Type 0 where
  pub flash_period : ℕ
  pub flash_pattern : ℕ
  pub flash_bits : ℕ
  pub flash_index : ℕ
  pub flasher : AlarmId
  pub shown : List Bool

-- The members that the constructors set, and the state that they put on the pin.
unfoldable pub new_led : Bool → Led
new_led state = record {
  flash_period = 0;
  flash_pattern = 1;
  flash_bits = 2;
  flash_index = 0;
  flasher = none;
  shown = state ∷ [];
}

unfoldable pub set_led : Bool → Led → Led
set_led state led = record led { shown = state ∷ led.shown }

unfoldable pub set_state : Bool → Led → Led
set_state state led = set_led state (record led { flash_period = 0 })

unfoldable pub set_flash_period : ℕ → Led → Led
set_flash_period period led = record led { flash_period = period }

-- `0xffffffff` shifted to as many bits as the pattern has
unfoldable pub flash_mask : ℕ → Option ℕ
flash_mask bits = if ltb 0 bits && leb bits 32 then some (2 ^ bits - 1) else none

unfoldable pub check_flash : Led → Option (Bool × Led)
check_flash led = do
  mask ← flash_mask led.flash_bits
  let pat = bit_and led.flash_pattern mask
  some (
      if pat == 0
      then (false, set_led false led)
      else if pat == mask
      then (false, set_led true led)
      else (true, led))

-- What `setFlash` does when it has checked the pattern. `granted` is the answer of `add_alarm_in_ms`.
unfoldable pub arm_flash : AlarmId → Bool → Led → Bool × Led
arm_flash granted flashes led =
    if flashes && not (led.flash_period == 0) && ltb led.flash_bits led.flash_period
    then (true, if is_set led.flasher then led else record led { flasher = granted })
    else (false, record led { flasher = none })

unfoldable pub set_flash : AlarmId → ℕ → Led → Option (Bool × Led)
set_flash granted period led = do
  let led1 : Led = record led { flash_period = period }
  let led2 : Led =
      if leb led1.flash_bits led1.flash_index then record led1 { flash_index = 0 } else led1
  (flashes, led3) ← check_flash led2
  some (arm_flash granted flashes led3)

unfoldable pub set_flash_pattern : AlarmId → ℕ → ℕ → Led → Option (Bool × Led)
set_flash_pattern granted pattern bits led =
    set_flash granted led.flash_period (record led { flash_pattern = pattern; flash_bits = bits })

-- The bit of the pattern at the index.
unfoldable pub show_bit : Led → Option Led
show_bit led =
    if ltb led.flash_index 32
    then some (set_led (not (bit_and led.flash_pattern (2 ^ led.flash_index) == 0)) led)
    else none

unfoldable pub next_bit : Led → Led
next_bit led = record led {
  flash_index = if leb led.flash_bits (led.flash_index + 1) then 0 else led.flash_index + 1;
}

-- The time to the next call, 0 for none.
unfoldable pub do_timer : Led → Option (ℕ × Led)
do_timer led =
    if ltb 0 led.flash_period
    then (if led.flash_bits == 0 then none else (do
      led1 ← show_bit led
      let ret = led.flash_period / led.flash_bits
      some (ret, if ret == 0 then record (next_bit led1) { flasher = none } else next_bit led1)))
    else some (0, record led { flasher = none })
