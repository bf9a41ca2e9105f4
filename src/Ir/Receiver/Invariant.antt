-- ===== src/Ir/Receiver/Invariant.antt =====
-- What holds of a receiver between two events.
use picolibs.Base.{
  ℕ, ◌+◌, ◌≤◌, ◌<◌, ◌≡◌, ◌≢◌, ◌⊎◌, inl, inr, Bool, true, false, none, some, List, [], ◌∷◌, length,
  length-set, arith, u32, sub64, if◌then◌else◌, Bool-cases,
}
use picolibs.Ir.Protocol.{Protocol}
use picolibs.Ir.Receiver.{
  Receiver, Grant, Event, edge, msg_alarm, bit_alarm, start_timer, store_pulse, reset,
  message_error, timeout, timeout_msg, timeout_bit, start_timeout, start_message_timeout,
  check_sync, message_complete, collect, store_timestamp, step, run,
}

-- The pulses that each state of the synchronisation has collected.
abbrev pub Phase : Protocol → ℕ → ℕ → Type 0
Phase p sync n =
    ((sync ≡ 0) × (n ≡ 0)) ⊎ ((sync ≡ 1) × (n ≡ 1)) ⊎ ((sync ≡ 2) × (2 ≤ n) × (n < p.message_len))

pub record IsSane (p : Protocol) (r : Receiver) : Type 0 where
  pub sound : r.fault ≡ false
  pub room : length r.pulses ≡ p.message_len
  pub capacity : r.mx_pulse ≡ p.message_len
  pub phase : Phase p r.sync r.n_pulse
  pub idle_timer : r.sync ≡ 0 → r.bit_timer ≡ none

module _ (p : Protocol) where
  store_pulse-Sane :
      (delta : ℕ) (r : Receiver)
      → r.fault ≡ false
      → r.n_pulse < length r.pulses
      → length r.pulses ≡ p.message_len
      → ((store_pulse delta r).fault ≡ false)
        × ((store_pulse delta r).n_pulse ≡ r.n_pulse + 1)
        × (length (store_pulse delta r).pulses ≡ p.message_len)
  unfolding store_pulse
  store_pulse-Sane delta r sound inside room = (
    ground arith,
    ground (arith, p.message_small),
    ground (arith, length-set r.pulses r.n_pulse delta),
  )

  reset-IsSane :
      (r : Receiver)
      → r.fault ≡ false
      → length r.pulses ≡ p.message_len
      → r.mx_pulse ≡ p.message_len
      → IsSane p (reset r)
  unfolding reset
  reset-IsSane r sound room capacity = ground arith

  message_error-IsSane :
      (r : Receiver)
      → r.fault ≡ false
      → length r.pulses ≡ p.message_len
      → r.mx_pulse ≡ p.message_len
      → IsSane p (message_error r)
  unfolding message_error
  message_error-IsSane r sound room capacity = ground arith

  timeout-IsSane : (msg keep : Bool) (r : Receiver) → IsSane p r → IsSane p (timeout msg keep r).1
  unfolding timeout
  timeout-IsSane msg keep r h = ground arith

  timeout_msg-IsSane : (keep : Bool) (r : Receiver) → IsSane p r → IsSane p (timeout_msg keep r)
  unfolding timeout_msg
  timeout_msg-IsSane keep r h = ground (arith, timeout-IsSane true keep r h)

  timeout_bit-IsSane : (keep : Bool) (r : Receiver) → IsSane p r → IsSane p (timeout_bit keep r).1
  unfolding timeout_bit
  timeout_bit-IsSane keep r h = ground (arith, timeout-IsSane false keep r h)

  start_message_timeout-IsSane :
      (grant : Grant) (r : Receiver) → IsSane p r → IsSane p (start_message_timeout grant r)
  unfolding start_message_timeout
  start_message_timeout-IsSane grant r h = ground arith

  start_timeout-IsSane :
      (grant : Grant) (r : Receiver) → r.sync ≢ 0 → IsSane p r → IsSane p (start_timeout grant r)
  unfolding start_timeout
  start_timeout-IsSane grant r ne h = ground arith

  check_sync-IsSane :
      (ts : ℕ) (falling : Bool) (r : Receiver) → IsSane p r → IsSane p (check_sync p ts falling r).1
  unfolding check_sync
  check_sync-IsSane ts falling r h =
      let delta = u32 (sub64 ts r.prev_ts) in
      ground (
        arith,
        p.message_long,
        p.message_small,
        length-set r.pulses 0 delta,
        length-set r.pulses r.n_pulse delta,
      )

  check_sync-true :
      (ts : ℕ) (falling : Bool) (r : Receiver)
      → (check_sync p ts falling r).0 ≡ true
      → (r.sync ≡ 2) × ((check_sync p ts falling r).1 ≡ r)
  unfolding check_sync
  check_sync-true ts falling r e = ground arith

  message_complete-IsSane :
      (ts : ℕ) (r : Receiver)
      → r.fault ≡ false
      → length r.pulses ≡ p.message_len
      → r.mx_pulse ≡ p.message_len
      → r.n_pulse ≡ p.message_len
      → IsSane p (message_complete p ts r)
  unfolding message_complete
  message_complete-IsSane ts r sound room capacity full =
      let (d, decoded) = p.decode_total r.pulses room in
      let here : p.decode r.pulses r.n_pulse ≡ some d = rw full decoded in ground (arith, here)

  collect-IsSane : (ts : ℕ) (r : Receiver) → r.sync ≡ 2 → IsSane p r → IsSane p (collect p ts r)
  unfolding collect store_pulse
  collect-IsSane ts r synced h =
      let delta = u32 (sub64 ts r.prev_ts) in
      let (sound, count, room) = store_pulse-Sane delta r h.sound (ground arith) h.room in
      ground (
        arith,
        sound,
        count,
        room,
        message_complete-IsSane ts (store_pulse delta r) sound room h.capacity,
      )

  -- The state after the pulse has been taken.
  abbrev taken : ℕ → Bool → Receiver → Receiver
  taken ts falling r =
      if (check_sync p ts falling r).0
      then collect p ts (check_sync p ts falling r).1
      else (check_sync p ts falling r).1

  taken-IsSane :
      (ts : ℕ) (falling : Bool) (r : Receiver) → IsSane p r → IsSane p (taken ts falling r)
  taken-IsSane ts falling r h = elim (Bool-cases (check_sync p ts falling r).0) [
    | inl e ↦
        let (synced, same) = check_sync-true ts falling r e in
        rw (e, same) (collect-IsSane ts r synced h)
    | inr e ↦ rw e (check_sync-IsSane ts falling r h)
  ]

  stamp-IsSane : (ts : ℕ) (r : Receiver) → IsSane p r → IsSane p (record r { prev_ts = ts })
  stamp-IsSane ts r h = ground arith

  store_timestamp-IsSane :
      (grant : Grant) (ts : ℕ) (falling : Bool) (r : Receiver)
      → IsSane p r
      → IsSane p (store_timestamp p grant ts falling r)
  unfolding store_timestamp
  store_timestamp-IsSane grant ts falling r h =
      let r3 = record (taken ts falling r) { prev_ts = ts } in
      let sane : IsSane p r3 = stamp-IsSane ts _ (taken-IsSane ts falling r h) in
      ground (arith, sane, start_timeout-IsSane grant r3)

pub step-IsSane :
    (p : Protocol) (grant : Grant) (e : Event) (r : Receiver)
    → IsSane p r
    → IsSane p (step p grant e r)
unfolding step
step-IsSane p grant (edge ts falling) r h = store_timestamp-IsSane p grant ts falling r h
step-IsSane p grant (msg_alarm keep) r h = timeout_msg-IsSane p keep r h
step-IsSane p grant (bit_alarm keep) r h = timeout_bit-IsSane p keep r h
step-IsSane p grant start_timer r h = start_message_timeout-IsSane p grant r h

-- A sane receiver stays sane whatever edges, alarms and timer starts reach it, in any order and
-- whatever the timeout callback and the SDK answer: it never accesses its pulse array out of bounds,
-- its pulse count fits its synchronisation state, and an idle receiver has no bit alarm.
pub run-IsSane :
    (p : Protocol) (grant : Grant) (es : List Event) (r : Receiver)
    → IsSane p r
    → IsSane p (run p grant es r)
unfolding run
run-IsSane p grant [] r h = h
run-IsSane p grant (e ∷ es) r h =
    run-IsSane p grant es (step p grant e r) (step-IsSane p grant e r h)
