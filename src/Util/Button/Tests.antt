-- ===== src/Util/Button/Tests.antt =====
-- A button that is pressed for a while, and a list of three buttons.
use picolibs.Base.{ℕ, ◌≡◌, ◌⊎◌, refl, true, false, some, List, [], ◌∷◌, length}
use picolibs.Alarm.{AlarmId, is_set}
use picolibs.Util.Button.{
  Button, Effect, new_button, do_event, bounce_cb, hold_cb, unregister_loop, unregister, on_down,
  start_hold_timer, stop_hold_timer, notify,
}
use picolibs.Util.Button.Trace.{Follows, here, edge, bounced, hold_ends, button_events_lem}

-- Each alarm has the next number.
abbrev grant : List Effect → ℕ → AlarmId
grant log ms = some (length log)

abbrev fresh : Button
fresh = new_button 5 3000 250 7 false

pressed : (do_event grant fresh).bounce ≡ some 0
unfolding do_event new_button
pressed = refl

armed : (bounce_cb grant true (do_event grant fresh)).hold ≡ some 2
unfolding bounce_cb do_event new_button on_down start_hold_timer stop_hold_timer notify
armed = refl

abbrev held_button : Button
held_button = hold_cb grant (bounce_cb grant true (do_event grant fresh))

button_events_lem_example :
    Follows false held_button
    × ((is_set held_button.hold ≡ false) ⊎ (held_button.prev_state ≡ true))
button_events_lem_example =
    button_events_lem grant 5 3000 250 7 false held_button
      (hold_ends 2 armed (bounced 0 true pressed (edge here)))

-- The first button is taken out; taking the last one out leaves the first one twice, and the second one not at all. Neither list is right.
unregister_first : unregister 1 (1 ∷ 2 ∷ 3 ∷ []) ≡ some (2 ∷ 2 ∷ [])
unfolding unregister unregister_loop
unregister_first = refl

unregister_last : unregister 3 (1 ∷ 2 ∷ 3 ∷ []) ≡ some (1 ∷ 1 ∷ [])
unfolding unregister unregister_loop
unregister_last = refl
