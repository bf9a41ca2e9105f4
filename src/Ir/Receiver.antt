-- ===== src/Ir/Receiver.antt =====
-- The base class of the receivers (ir/ir_receiver.{h,cpp}): the edges of the input are collected
-- into pulses, and a complete message goes to a callback. Alarms, callbacks and the semaphore belong to
-- the SDK and to the application: they show as entries of a log.
pub mod Invariant
pub mod Collect
pub mod Delivery
use picolibs.Base.{
  ℕ, zero, suc, ◌+◌, ◌*◌, Bool, true, false, not, ◌&&◌, ◌||◌, Option, none, some, List, [], ◌∷◌,
  ltb, ◌==◌, if◌then◌else◌, u32, sub64, length, set,
}
use picolibs.Alarm.{AlarmId, is_set}
use picolibs.Ir.Message.{Decoded}
use picolibs.Ir.Protocol.{Protocol}

-- What the code asks of its surroundings, newest first in a log. An alarm is named by its id.
pub data Effect : Type 0 where
  alarm_added : ℕ → ℕ → Effect
  alarm_refused : ℕ → Effect
  alarm_cancelled : ℕ → Effect
  sem_released : Effect
  received : ℕ → ℕ → ℕ → Effect
  repeated : ℕ → ℕ → ℕ → Effect
  timed_out : Bool → ℕ → Effect
  failed : Effect

-- The members of `IR_Receiver`. A callback is there or not; `fault` is set by an access outside
-- the array `pulses_`.
pub record Receiver : Type 0 where
  pub pulses : List ℕ
  pub n_pulse : ℕ
  pub mx_pulse : ℕ
  pub prev_ts : ℕ
  pub sync : ℕ
  pub rcb : Bool
  pub rpt : Bool
  pub rpt_addr : ℕ
  pub rpt_func : ℕ
  pub tmo : Bool
  pub msg_timer : AlarmId
  pub bit_timer : AlarmId
  pub msg_timeout : ℕ
  pub bit_timeout : ℕ
  pub prev_count : ℕ
  pub err : Bool
  pub fault : Bool
  pub log : List Effect

-- `pulses_[n_pulse_++] = delta`
unfoldable pub store_pulse : ℕ → Receiver → Receiver
store_pulse delta r = record r {
  pulses = set r.pulses r.n_pulse delta;
  n_pulse = u32 (r.n_pulse + 1);
  fault = r.fault || not (ltb r.n_pulse (length r.pulses));
}

unfoldable pub note : Effect → Receiver → Receiver
note e r = record r { log = e ∷ r.log }

-- `if (timer != -1) alarm_pool_cancel_alarm(pool_, timer)`
abbrev pub cancel_log : AlarmId → List Effect → List Effect
cancel_log none log = log
cancel_log (some id) log = alarm_cancelled id ∷ log

unfoldable pub reset : Receiver → Receiver
reset r = record r {
  sync = 0;
  n_pulse = 0;
  bit_timer = none;
  msg_timer = none;
  log = sem_released ∷ cancel_log r.msg_timer (cancel_log r.bit_timer r.log);
}

unfoldable pub message_error : Receiver → Receiver
unfolding note reset
message_error r = reset (if r.err then note failed r else r)

-- The virtual `timeout`; `keep` is what the application's callback answers.
unfoldable pub timeout : Bool → Bool → Receiver → Bool × Receiver
unfolding note reset message_error
timeout msg keep r =
    if r.tmo
    then (let r' = note (timed_out msg r.n_pulse) r in
        if keep then (true, r') else (false, reset r'))
    else (false, message_error r)

-- The static callback of the message alarm.
unfoldable pub timeout_msg : Bool → Receiver → Receiver
unfolding timeout
timeout_msg keep r = record ((timeout true keep r).1) { msg_timer = none }

-- What `alarm_pool_add_alarm_in_ms` answers, by all that was asked before.
abbrev pub Grant : Type 0
Grant = List Effect → ℕ → AlarmId

abbrev pub add_log : AlarmId → ℕ → List Effect → List Effect
add_log none ms log = alarm_refused ms ∷ log
add_log (some id) ms log = alarm_added id ms ∷ log

module _ (grant : Grant) where
  unfoldable pub start_message_timeout : Receiver → Receiver
  start_message_timeout r =
      if ltb 0 r.msg_timeout && not (is_set r.msg_timer)
      then (let id = grant r.log r.msg_timeout in
          record r { msg_timer = id; log = add_log id r.msg_timeout r.log })
      else r

  unfoldable pub start_timeout : Receiver → Receiver
  unfolding start_message_timeout
  start_timeout r =
      let r' = start_message_timeout r in
      if ltb 0 r'.bit_timeout
      then (let id = grant r'.log r'.bit_timeout in
          record r' {
            prev_count = r'.n_pulse;
            bit_timer = id;
            log = add_log id r'.bit_timeout r'.log;
          })
      else r'

module _ (p : Protocol) where
  -- `NEC_Receiver::check_sync` and its kin, over the protocol's tests.
  unfoldable pub check_sync : ℕ → Bool → Receiver → Bool × Receiver
  unfolding store_pulse reset note
  check_sync ts falling r =
      let delta = u32 (sub64 ts r.prev_ts) in
      if r.sync == 0
      then (let r' = record r { n_pulse = 0 } in
          (
            false,
            if falling && p.is_mark delta then record (store_pulse delta r') { sync = 1 } else r',
          ))
      else if r.sync == 1
      then (
        false,
        if not falling && p.is_space delta
            then store_pulse delta (record r { sync = 2 })
            else if not falling && p.is_repeat delta && r.rpt
            then note (repeated ts r.rpt_addr r.rpt_func) (reset r)
            else reset r,
      )
      else (r.sync == 2, r)

  -- `decode_message` stores into `rpt_addr_` and `rpt_func_` whatever it returns.
  unfoldable pub message_complete : ℕ → Receiver → Receiver
  unfolding note reset message_error
  message_complete ts r = elim (p.decode r.pulses r.n_pulse) [
    | none ↦ record r { fault = true }
    | some d ↦
        let r' = record r { rpt_addr = d.addr; rpt_func = d.func } in
        if d.accepted
        then reset (if r'.rcb then note (received ts d.addr d.func) r' else r')
        else message_error r'
  ]

  -- The branch of `store_timestamp` for a pulse behind the sync sequence.
  unfoldable pub collect : ℕ → Receiver → Receiver
  collect ts r =
      let r' = (if ltb r.n_pulse r.mx_pulse then store_pulse (u32 (sub64 ts r.prev_ts)) r else r) in
      if r'.n_pulse == r'.mx_pulse then message_complete ts r' else r'

  unfoldable pub store_timestamp : Grant → ℕ → Bool → Receiver → Receiver
  store_timestamp grant ts falling r =
      let checked = check_sync ts falling r in
      let r2 = (if checked.0 then collect ts checked.1 else checked.1) in
      let r3 = record r2 { prev_ts = ts } in
      if r.sync == 0 && not (r3.sync == 0) then start_timeout grant r3 else r3

abbrev no_bit_timer : Receiver → Receiver
no_bit_timer r = record r { bit_timer = none }

-- The alarm runs again after the returned time, or ends.
abbrev run_again : Receiver → ℕ × Receiver
run_again r =
    let again = u32 (r.bit_timeout * 1000) in (again, if again == 0 then no_bit_timer r else r)

-- The static callback of the bit alarm. `check_bit_timeout` of the three protocols is the test of
-- `sync_` for 2.
unfoldable pub timeout_bit : Bool → Receiver → ℕ × Receiver
unfolding timeout
timeout_bit keep r =
    if r.sync == 0
    then (0, no_bit_timer r)
    else if r.n_pulse == r.prev_count && r.sync == 2
    then (let (more, r') = timeout false keep r in
        if more then run_again (record r' { prev_count = r'.n_pulse }) else (0, no_bit_timer r'))
    else run_again (record r { prev_count = r.n_pulse })

-- What reaches a receiver: an edge of its input, one of its two alarms, with the answer of the
-- timeout callback, or the application's start of the message timer.
pub data Event : Type 0 where
  edge : ℕ → Bool → Event
  msg_alarm bit_alarm : Bool → Event
  start_timer : Event

unfoldable pub step : Protocol → Grant → Event → Receiver → Receiver
step p grant (edge ts falling) r = store_timestamp p grant ts falling r
step p grant (msg_alarm keep) r = timeout_msg keep r
step p grant (bit_alarm keep) r = (timeout_bit keep r).1
step p grant start_timer r = start_message_timeout grant r

unfoldable pub run : Protocol → Grant → List Event → Receiver → Receiver
run p grant [] r = r
run p grant (e ∷ es) r = run p grant es (step p grant e r)
