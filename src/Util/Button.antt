-- ===== src/Util/Button.antt =====
-- `Button` (util/button.{h,cpp}): a push button with timers for bounces, holds and clicks, and the list of the
-- buttons. Alarms, the event queue and the application's callback show as entries of a log, newest first.
pub mod Trace
mod Tests
use picolibs.Base.{
  ℕ, zero, suc, ◌+◌, ◌≡◌, Bool, true, false, not, Option, none, some, List, [], ◌∷◌, ◌++◌, ltb,
  ◌==◌, if◌then◌else◌, ◌>>=◌, length, take, get_elem?, set,
}
use picolibs.Alarm.{AlarmId, is_set}

-- `ButtonAction`
pub data ButtonAction : Type 0 where
  no_action : ButtonAction
  button_down : ButtonAction
  button_up : ButtonAction
  button_clicked : ButtonAction
  button_double_clicked : ButtonAction
  button_held : ButtonAction

pub data Effect : Type 0 where
  notified : ButtonAction → Effect
  alarm_added : ℕ → ℕ → Effect
  alarm_refused : ℕ → Effect
  alarm_cancelled : ℕ → Effect

-- The members of `Button`.
pub record Button : Type 0 where
  pub gpio : ℕ
  pub bounce : AlarmId
  pub click : AlarmId
  pub hold : AlarmId
  pub bounce_time : ℕ
  pub click_time : ℕ
  pub hold_time : ℕ
  pub prev_state : Bool
  pub log : List Effect

-- The constructor, with the state that it reads from its pin.
unfoldable pub new_button : ℕ → ℕ → ℕ → ℕ → Bool → Button
new_button gpio hold_time click_time bounce_time state = record {
  gpio = gpio;
  bounce = none;
  click = none;
  hold = none;
  bounce_time = bounce_time;
  click_time = click_time;
  hold_time = hold_time;
  prev_state = state;
  log = [];
}

abbrev pub add_log : AlarmId → ℕ → List Effect → List Effect
add_log none ms log = alarm_refused ms ∷ log
add_log (some id) ms log = alarm_added id ms ∷ log

abbrev pub cancel_log : AlarmId → List Effect → List Effect
cancel_log none log = log
cancel_log (some id) log = alarm_cancelled id ∷ log

unfoldable pub notify : ButtonAction → Button → Button
notify action b = record b { log = notified action ∷ b.log }

unfoldable pub stop_hold_timer : Button → Button
stop_hold_timer b = record b { hold = none; log = cancel_log b.hold b.log }

unfoldable pub stop_click_timer : Button → Button
stop_click_timer b = record b { click = none; log = cancel_log b.click b.log }

-- `grant` is what `add_alarm_in_ms` answers, by all that was asked before.
module _ (grant : List Effect → ℕ → AlarmId) where
  unfoldable pub start_hold_timer : Button → Button
  start_hold_timer b =
      let b' = stop_hold_timer b in
      let id = grant b'.log b'.hold_time in
      record b' { hold = id; log = add_log id b'.hold_time b'.log }

  unfoldable pub start_click_timer : Button → Button
  start_click_timer b =
      let b' = stop_click_timer b in
      let id = grant b'.log b'.click_time in
      record b' { click = id; log = add_log id b'.click_time b'.log }

  unfoldable pub on_down : Button → Button
  on_down b = start_hold_timer (notify button_down b)

  unfoldable pub on_up : Button → Button
  on_up b =
      let b1 = notify button_up b in
      let b2 =
        (if is_set b1.hold
          then (if is_set b1.click
              then notify button_double_clicked (stop_click_timer b1)
              else start_click_timer b1)
          else b1) in
      stop_hold_timer b2

  unfoldable pub on_clicked : Button → Button
  on_clicked b = stop_click_timer (notify button_clicked b)

  unfoldable pub on_held : Button → Button
  on_held b = stop_hold_timer (stop_click_timer (notify button_held b))

  -- An edge of the pin.
  unfoldable pub do_event : Button → Button
  do_event b =
      if is_set b.bounce
      then b
      else (let id = grant b.log b.bounce_time in
          record b { bounce = id; log = add_log id b.bounce_time b.log })

  -- The callbacks of the alarms. `state` is what `isDown` reads.
  unfoldable pub bounce_cb : Bool → Button → Button
  bounce_cb true b =
      let b' = (if b.prev_state then b else on_down (record b { prev_state = true })) in
      record b' { bounce = none }
  bounce_cb false b =
      let b' = (if b.prev_state then on_up (record b { prev_state = false }) else b) in
      record b' { bounce = none }

  unfoldable pub hold_cb : Button → Button
  hold_cb b = on_held (record b { hold = none })

  unfoldable pub click_cb : Button → Button
  click_cb b = on_clicked (record b { click = none })

  -- The interrupt of a pin.
  unfoldable pub gpio_cb : ℕ → List Button → List Button
  gpio_cb gpio [] = []
  gpio_cb gpio (b ∷ bs) = (if b.gpio == gpio then do_event b else b) ∷ gpio_cb gpio bs

-- The list of buttons, named by numbers: what the constructor and the destructor do to it.
unfoldable pub register : ℕ → ℕ → List ℕ → List ℕ
register mx_button this buttons =
    if ltb (length buttons) mx_button then buttons ++ (this ∷ []) else buttons

-- The destructor's loop, with the rounds left.
unfoldable pub unregister_loop : ℕ → ℕ → ℕ → ℕ → List ℕ → Option (List ℕ)
unregister_loop zero ii jj this buttons = some buttons
unregister_loop (suc left) ii jj this buttons = do
  here ← get_elem? buttons ii
  let jj' = if here == this then jj + 1 else jj
  from ← get_elem? buttons jj'
  unregister_loop left (ii + 1) jj' this (if jj' == ii then buttons else set buttons ii from)

-- The list has one button less behind the loop.
unfoldable pub unregister : ℕ → List ℕ → Option (List ℕ)
unregister this [] = none
unregister this (b ∷ bs) = do
  buttons ← unregister_loop (length bs) 0 0 this (b ∷ bs)
  some (take (length bs) buttons)
