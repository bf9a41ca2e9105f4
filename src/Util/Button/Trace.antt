-- ===== src/Util/Button/Trace.antt =====
-- What a button tells of itself: its events, as an abstract machine makes them.
use picolibs.Base.{
  ℕ, ◌≡◌, ◌⊎◌, inl, inr, Bool-cases, refl, subst, Bool, true, false, none, some, List, [], ◌∷◌,
}
use picolibs.Alarm.{AlarmId, is_set}
use picolibs.Util.Button.{
  ButtonAction, button_down, button_up, button_clicked, button_double_clicked, button_held, Effect,
  notified, alarm_added, alarm_refused, alarm_cancelled, Button, new_button, add_log, cancel_log,
  notify, stop_hold_timer, stop_click_timer, start_hold_timer, start_click_timer, on_down, on_up,
  on_clicked, on_held, do_event, bounce_cb, hold_cb, click_cb,
}

-- The events of a log, newest first.
abbrev pub actions : List Effect → List ButtonAction
actions [] = []
actions (notified action ∷ log) = action ∷ actions log
actions (alarm_added id ms ∷ log) = actions log
actions (alarm_refused ms ∷ log) = actions log
actions (alarm_cancelled id ∷ log) = actions log

-- The events that lead to a phase: whether the button is down, whether it may still be held, and whether a
-- click may still be told. A press is followed by a release; a hold is told once a press, while the button is
-- down; a release of a press that was not held makes a click possible, or, where one is, a double click.
pub data Trace (initial : Bool) : List ButtonAction → Bool → Bool → Bool → Type 0 where
  start : Trace initial [] initial false false
  down :
      {past : List ButtonAction} {click : Bool} (hold : Bool)
      → Trace initial past false false click
      → Trace initial (button_down ∷ past) true hold click
  up :
      {past : List ButtonAction} (click : Bool)
      → Trace initial past true true false
      → Trace initial (button_up ∷ past) false false click
  up_again :
      {past : List ButtonAction}
      → Trace initial past true true true
      → Trace initial (button_double_clicked ∷ button_up ∷ past) false false false
  up_after :
      {past : List ButtonAction} {click : Bool}
      → Trace initial past true false click
      → Trace initial (button_up ∷ past) false false click
  held :
      {past : List ButtonAction} {click : Bool}
      → Trace initial past true true click
      → Trace initial (button_held ∷ past) true false false
  clicked :
      {past : List ButtonAction} {is_down hold : Bool}
      → Trace initial past is_down hold true
      → Trace initial (button_clicked ∷ past) is_down hold false

-- A button's events and its phase.
abbrev pub Follows : Bool → Button → Type 0
Follows initial b = Trace initial (actions b.log) b.prev_state (is_set b.hold) (is_set b.click)

-- What happens to a button: an edge at its pin, and alarms that it has not cancelled.
pub data Reaches (grant : List Effect → ℕ → AlarmId) : Button → Button → Type 0 where
  here : {b : Button} → Reaches grant b b
  edge : {a b : Button} → Reaches grant a b → Reaches grant a (do_event grant b)
  bounced :
      {a b : Button} (id : ℕ) (state : Bool)
      → b.bounce ≡ some id
      → Reaches grant a b
      → Reaches grant a (bounce_cb grant state b)
  hold_ends :
      {a b : Button} (id : ℕ)
      → b.hold ≡ some id
      → Reaches grant a b
      → Reaches grant a (hold_cb grant b)
  click_ends :
      {a b : Button} (id : ℕ)
      → b.click ≡ some id
      → Reaches grant a b
      → Reaches grant a (click_cb grant b)

actions-add :
    (id : AlarmId) (ms : ℕ) (log : List Effect) → actions (add_log id ms log) ≡ actions log
actions-add none ms log = refl
actions-add (some id) ms log = refl

actions-cancel : (id : AlarmId) (log : List Effect) → actions (cancel_log id log) ≡ actions log
actions-cancel none log = refl
actions-cancel (some id) log = refl

-- A hold is waited for only while the button is down.
hold_down :
    {initial : Bool} {past : List ButtonAction} {is_down hold click : Bool}
    → Trace initial past is_down hold click
    → hold ≡ true
    → is_down ≡ true
hold_down start e = absurd (cc)
hold_down (down hold t) e = refl
hold_down (up click t) e = absurd (cc)
hold_down (up_again t) e = absurd (cc)
hold_down (up_after t) e = absurd (cc)
hold_down (held t) e = refl
hold_down (clicked t) e = hold_down t e

held_once :
    {initial : Bool} {past : List ButtonAction} (is_down click : Bool)
    → Trace initial past is_down true click
    → Trace initial (button_held ∷ past) is_down false false
held_once true click t = held t
held_once false click t = absurd (contrary (hold_down t refl))
  where
    contrary : false ≡ true → ⊥
    contrary e = cc

-- A button that is up waits for no hold.
up_idle :
    {initial : Bool} {past : List ButtonAction} (hold click : Bool)
    → Trace initial past false hold click
    → Trace initial past false false click
up_idle false click t = t
up_idle true click t = absurd (contrary (hold_down t refl))
  where
    contrary : false ≡ true → ⊥
    contrary e = cc

module _ (grant : List Effect → ℕ → AlarmId) (initial : Bool) where
  do_event-Follows : (b : Button) → Follows initial b → Follows initial (do_event grant b)
  unfolding do_event
  do_event-Follows b h = elim (Bool-cases (is_set b.bounce)) [
    | inl busy ↦ rw busy h
    | inr idle ↦ rw (idle, actions-add (grant b.log b.bounce_time) b.bounce_time b.log) h
  ]

  hold_cb-Follows :
      (b : Button) (id : ℕ)
      → b.hold ≡ some id
      → Follows initial b
      → Follows initial (hold_cb grant b)
  unfolding hold_cb on_held stop_hold_timer stop_click_timer notify
  hold_cb-Follows b id e h =
      let t : Trace initial (actions b.log) b.prev_state true (is_set b.click) =
        subst
          (λ (o : AlarmId). Trace initial (actions b.log) b.prev_state (is_set o) (is_set b.click))
          e h in
      rw (actions-cancel b.click (notified button_held ∷ b.log))
        (held_once b.prev_state (is_set b.click) t)

  click_cb-Follows :
      (b : Button) (id : ℕ)
      → b.click ≡ some id
      → Follows initial b
      → Follows initial (click_cb grant b)
  unfolding click_cb on_clicked stop_click_timer notify
  click_cb-Follows b id e h =
      let t : Trace initial (actions b.log) b.prev_state (is_set b.hold) true =
        subst
          (λ (o : AlarmId). Trace initial (actions b.log) b.prev_state (is_set b.hold) (is_set o)) e
          h in
      clicked t

  on_down-Follows :
      (b : Button)
      → Trace initial (actions b.log) false false (is_set b.click)
      → Follows initial (on_down grant (record b { prev_state = true }))
  unfolding on_down start_hold_timer stop_hold_timer notify
  on_down-Follows b t =
      let log = cancel_log b.hold (notified button_down ∷ b.log) in
      rw
        (
          actions-add (grant log b.hold_time) b.hold_time log,
          actions-cancel b.hold (notified button_down ∷ b.log),
        )
        (down (is_set (grant log b.hold_time)) t)

  -- The phase of a button that goes up, by the two timers that it has.
  phase_as :
      (b : Button) (hold click : Bool)
      → is_set b.hold ≡ hold
      → is_set b.click ≡ click
      → Trace initial (actions b.log) true (is_set b.hold) (is_set b.click)
      → Trace initial (actions b.log) true hold click
  phase_as b hold click e e' t =
      subst (λ (c : Bool). Trace initial (actions b.log) true hold c) e'
        (subst (λ (h : Bool). Trace initial (actions b.log) true h (is_set b.click)) e t)

  on_up-Follows :
      (b : Button)
      → Trace initial (actions b.log) true (is_set b.hold) (is_set b.click)
      → Follows initial (on_up grant (record b { prev_state = false }))
  unfolding on_up start_click_timer stop_click_timer stop_hold_timer notify
  on_up-Follows b t =
      let log = notified button_up ∷ b.log in
      elim (Bool-cases (is_set b.hold)) [
        | inr idle ↦
            rw (idle, actions-cancel b.hold log)
              (up_after (phase_as b false (is_set b.click) idle refl t))
        | inl armed ↦ elim (Bool-cases (is_set b.click)) [
          | inl waits ↦
              rw
                (
                  armed,
                  waits,
                  actions-cancel b.hold (notified button_double_clicked ∷ cancel_log b.click log),
                  actions-cancel b.click log,
                )
                (up_again (phase_as b true true armed waits t))
          | inr first ↦
              let log' = cancel_log b.click log in
              let id = grant log' b.click_time in
              rw
                (
                  armed,
                  first,
                  actions-cancel b.hold (add_log id b.click_time log'),
                  actions-add id b.click_time log',
                  actions-cancel b.click log,
                )
                (up (is_set id) (phase_as b true false armed first t))
        ]
      ]

  phase_of :
      (b : Button) (is_down : Bool)
      → b.prev_state ≡ is_down
      → Follows initial b
      → Trace initial (actions b.log) is_down (is_set b.hold) (is_set b.click)
  phase_of b is_down e h =
      subst (λ (d : Bool). Trace initial (actions b.log) d (is_set b.hold) (is_set b.click)) e h

  bounce_cb-Follows :
      (b : Button) (state : Bool) → Follows initial b → Follows initial (bounce_cb grant state b)
  unfolding bounce_cb
  bounce_cb-Follows b true h = elim (Bool-cases b.prev_state) [
    | inl same ↦ rw same (phase_of b true same h)
    | inr other ↦
        rw other
          (on_down-Follows b (up_idle (is_set b.hold) (is_set b.click) (phase_of b false other h)))
  ]
  bounce_cb-Follows b false h = elim (Bool-cases b.prev_state) [
    | inl other ↦ rw other (on_up-Follows b (phase_of b true other h))
    | inr same ↦ rw same (phase_of b false same h)
  ]

  Reaches-Follows : {a b : Button} → Reaches grant a b → Follows initial a → Follows initial b
  Reaches-Follows here h = h
  Reaches-Follows (edge {b = b} t) h = do_event-Follows b (Reaches-Follows t h)
  Reaches-Follows (bounced {b = b} id state e t) h = bounce_cb-Follows b state (Reaches-Follows t h)
  Reaches-Follows (hold_ends {b = b} id e t) h = hold_cb-Follows b id e (Reaches-Follows t h)
  Reaches-Follows (click_ends {b = b} id e t) h = click_cb-Follows b id e (Reaches-Follows t h)

waits_down :
    {initial : Bool} {past : List ButtonAction} {is_down click : Bool} (hold : Bool)
    → Trace initial past is_down hold click
    → (hold ≡ false) ⊎ (is_down ≡ true)
waits_down false t = inl refl
waits_down true t = inr (hold_down t refl)

-- Whatever edges and alarms a button gets, and whether or not the alarms that it asks for are granted, the events that
-- it tells are those of the abstract machine, its members are the machine's phase, and the hold timer is set only
-- while the button is down.
pub button_events_lem :
    (grant : List Effect → ℕ → AlarmId) (gpio hold_time click_time bounce_time : ℕ) (state : Bool)
    (b : Button)
    → Reaches grant (new_button gpio hold_time click_time bounce_time state) b
    → Follows state b × ((is_set b.hold ≡ false) ⊎ (b.prev_state ≡ true))
unfolding new_button
button_events_lem grant gpio hold_time click_time bounce_time state b t =
    let h = Reaches-Follows grant state t start in (h, waits_down (is_set b.hold) h)
