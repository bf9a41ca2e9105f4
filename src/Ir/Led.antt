-- ===== src/Ir/Led.antt =====
-- The base class of the transmitters (ir/ir_led.{h,cpp}): an alarm steps through the pulse times,
-- switches the carrier, pauses up to the repeat interval, and repeats.
pub mod Load
pub mod Schedule
use picolibs.Base.{
  ℕ, zero, suc, ◌+◌, ◌-◌, ◌*◌, ◌^◌, Bool, true, false, ◌&&◌, Option, none, some, List, [], ◌∷◌, ltb,
  ◌==◌, if◌then◌else◌, bit_and, get_elem?, replicate, ◌>>=◌, sub32, u32,
}
use picolibs.Alarm.{AlarmId, is_set}

-- The members of `IR_LED`, with the values of the virtual functions `repeatInterval` and
-- `minimum_repeats`. `carrier` is the output: on is a duty cycle of `duty_`, off one of 0.
pub record Led : Type 0 where
  pub times : List ℕ
  pub a_times : ℕ
  pub n_times : ℕ
  pub out_index : ℕ
  pub timer : AlarmId
  pub repeats : ℕ
  pub repeat_interval : ℕ
  pub minimum_repeats : ℕ
  pub carrier : Bool
  pub done_calls : ℕ

-- A pending alarm is cancelled, in the SDK.
unfoldable pub stop : Led → Led
stop l = record l { timer = none; out_index = 0; repeats = 0; carrier = false }

-- The loop that copies the times; what lies behind them stays.
unfoldable pub copy_times : List ℕ → List ℕ → List ℕ
copy_times [] array = array
copy_times (t ∷ ts) [] = []
copy_times (t ∷ ts) (x ∷ array) = t ∷ copy_times ts array

-- A new array holds no values that are read: the copy comes first.
unfoldable pub set_output_times : List ℕ → ℕ → Led → Led
unfolding stop copy_times
set_output_times times n_times l =
    let l' = stop l in
    let grown =
      (if ltb l'.a_times n_times
        then record l' { a_times = n_times + 16; times = replicate (n_times + 16) 0 }
        else l') in
    record grown { n_times = n_times; times = copy_times times grown.times }

-- The loop that takes the first `n` times from the pause, an `int32_t` as its 32-bit pattern;
-- outside the array there is nothing to take.
unfoldable pub subtract_times : ℕ → List ℕ → ℕ → ℕ
subtract_times zero ts left = left
subtract_times (suc n) [] left = left
subtract_times (suc n) (t ∷ ts) left = subtract_times n ts (sub32 left t)

-- The pause behind a message: 1 for a pattern that stands for less.
unfoldable pub pause : Led → ℕ
unfolding subtract_times
pause l =
    let all = subtract_times l.n_times l.times (u32 (l.repeat_interval * 1000)) in
    let left = if ltb 0 l.repeats then sub32 all 1 else all in
    if ltb 0 left && ltb left (2 ^ 31) then left else 1

-- What `set_next` does when there is no further time: the pause, a repetition, or the end.
unfoldable pub end_message : Led → ℕ × Led
unfolding pause
end_message l =
    let off = record l { carrier = false } in
    if off.out_index == off.n_times
    then (pause off, record off { out_index = off.out_index + 1 })
    else if ltb off.n_times off.out_index && ltb 0 off.repeats
    then (1, record off { repeats = off.repeats - 1; out_index = 0 })
    else (0, record off { timer = none; done_calls = off.done_calls + 1 })

-- A time of 0 is taken for the end. `done_calls` counts the calls of the callback, if it is set.
unfoldable pub set_next : Led → ℕ × Led
unfolding end_message
set_next l =
    if ltb l.out_index l.n_times
    then elim (get_elem? l.times l.out_index) [
      | none ↦ end_message l
      | some t ↦
          let l' = record l { carrier = bit_and l.out_index 1 == 0; out_index = l.out_index + 1 } in
          if t == 0 then end_message l' else (t, l')
    ]
    else end_message l

-- `alarm` is what `alarm_pool_add_alarm_in_us` answers to a delay.
unfoldable pub start : (ℕ → AlarmId) → Led → Bool × Led
start alarm l =
    let (delay, l') = set_next l in
    let timer = alarm delay in
    (elim timer [ none ↦ false | some id ↦ ltb 0 id ], record l' { timer = timer })

unfoldable pub transmit : (ℕ → AlarmId) → Led → Bool × Led
unfolding stop start
transmit alarm l =
    let l' = stop l in
    if ltb 0 l'.n_times
    then start alarm (record l' { out_index = 0; repeats = l'.minimum_repeats })
    else (true, l')

unfoldable pub repeat : (ℕ → AlarmId) → Led → Bool × Led
unfolding stop start
repeat alarm l =
    let l' = stop l in
    if ltb 0 l'.n_times then start alarm (record l' { out_index = 0; repeats = 0 }) else (true, l')
