-- ===== src/Ir/Receiver/Collect.antt =====
-- A whole message reaches the decoder: the edges of its pulses, one after the other, end in one
-- call of the protocol's decoder on exactly those pulses, and in its callback.
use picolibs.Base.{
  ℕ, ◌+◌, ◌<◌, ◌^◌, ◌≡◌, refl, ◌∙◌, Bool, true, false, not, none, some, List, [], ◌∷◌, ◌++◌,
  append-nil, length, length-append, set-append_at, arith, u32, sub64, ◌==◌, if◌then◌else◌,
}
use picolibs.Alarm.{AlarmId}
use picolibs.Ir.Protocol.{Protocol}
use picolibs.Ir.Message.{Decoded}
use picolibs.Ir.Receiver.{
  Receiver, Grant, Event, Effect, edge, received, repeated, timed_out, failed, alarm_added,
  alarm_refused, alarm_cancelled, sem_released, cancel_log, add_log, store_pulse, check_sync,
  message_complete, collect, store_timestamp,
}

-- The edges of a train of pulses that starts at a time, the first one an end of a mark.
abbrev pub edges : ℕ → Bool → List ℕ → List Event
edges ts falling [] = []
edges ts falling (q ∷ qs) = edge (ts + q) falling ∷ edges (ts + q) (not falling) qs

abbrev pub total : List ℕ → ℕ
total [] = 0
total (q ∷ qs) = q + total qs

-- The calls of the application among the effects.
abbrev pub callbacks : List Effect → List Effect
callbacks [] = []
callbacks (received ts addr func ∷ es) = received ts addr func ∷ callbacks es
callbacks (repeated ts addr func ∷ es) = repeated ts addr func ∷ callbacks es
callbacks (timed_out msg n ∷ es) = timed_out msg n ∷ callbacks es
callbacks (failed ∷ es) = failed ∷ callbacks es
callbacks (alarm_added id ms ∷ es) = callbacks es
callbacks (alarm_refused ms ∷ es) = callbacks es
callbacks (alarm_cancelled id ∷ es) = callbacks es
callbacks (sem_released ∷ es) = callbacks es

callbacks-cancel_log :
    (id : AlarmId) (es : List Effect) → callbacks (cancel_log id es) ≡ callbacks es
callbacks-cancel_log none es = refl
callbacks-cancel_log (some id) es = refl

pub callbacks-add_log :
    (id : AlarmId) (ms : ℕ) (es : List Effect) → callbacks (add_log id ms es) ≡ callbacks es
callbacks-add_log none ms es = refl
callbacks-add_log (some id) ms es = refl

-- What the application is told of a decoded message, and what the receiver keeps.
abbrev pub reports : Decoded → ℕ → Receiver → List Effect → List Effect
reports d ts r log =
    if d.accepted
    then (if r.rcb then received ts d.addr d.func ∷ log else log)
    else (if r.err then failed ∷ log else log)

pub record IsDelivered (d : Decoded) (ts : ℕ) (r r' : Receiver) : Type 0 where
  pub told : callbacks r'.log ≡ reports d ts r (callbacks r.log)
  pub idle : r'.sync ≡ 0
  pub empty : r'.n_pulse ≡ 0
  pub no_alarm : (r'.msg_timer ≡ none) × (r'.bit_timer ≡ none)
  pub last_addr : r'.rpt_addr ≡ d.addr
  pub last_func : r'.rpt_func ≡ d.func

-- A receiver behind the sync sequence that holds the pulses `got`, and has told the application
-- nothing since it was `r0`.
pub record IsCollecting (len ts : ℕ) (got junk : List ℕ) (r0 r : Receiver) : Type 0 where
  pub told : callbacks r.log ≡ callbacks r0.log
  pub same_rcb : r.rcb ≡ r0.rcb
  pub same_err : r.err ≡ r0.err
  pub synced : r.sync ≡ 2
  pub count : r.n_pulse ≡ length got
  pub held : r.pulses ≡ got ++ junk
  pub room : length got + length junk ≡ len
  pub capacity : r.mx_pulse ≡ len
  pub stamp : r.prev_ts ≡ ts

module _ (p : Protocol) (grant : Grant) where
  message_complete-IsDelivered :
      (ts : ℕ) (d : Decoded) (r : Receiver)
      → p.decode r.pulses r.n_pulse ≡ some d
      → IsDelivered d ts r (message_complete p ts r)
  unfolding message_complete
  message_complete-IsDelivered ts d r e =
      ground (arith, callbacks-cancel_log r.msg_timer (cancel_log r.bit_timer r.log))

  -- The pulse that an edge measures.
  delta_of : (ts q : ℕ) → q < 2 ^ 32 → ts + q < 2 ^ 64 → u32 (sub64 (ts + q) ts) ≡ q
  delta_of ts q hq ht = omega arith

  -- One more pulse is stored behind the others.
  store_pulse-IsCollecting :
      (len ts t q y : ℕ) (got junk : List ℕ) (r0 r : Receiver)
      → len < 65536
      → IsCollecting len ts got (y ∷ junk) r0 r
      → IsCollecting len t (got ++ (q ∷ [])) junk r0 (record (store_pulse q r) { prev_ts = t })
  unfolding store_pulse
  store_pulse-IsCollecting len ts t q y got junk r0 r small h = record {
    told = h.told;
    same_rcb = h.same_rcb;
    same_err = h.same_err;
    synced = h.synced;
    count = ground (arith, h.count, h.room, length-append got (q ∷ []));
    held = rw (h.held, h.count) (set-append_at got y junk (length got) q refl);
    room = omega (arith, h.room, length-append got (q ∷ []));
    capacity = h.capacity;
    stamp = refl;
  }

  check_sync_synced :
      (ts : ℕ) (falling : Bool) (r : Receiver) → r.sync ≡ 2 → check_sync p ts falling r ≡ (true, r)
  unfolding check_sync
  check_sync_synced ts falling r e = ground arith

  store_timestamp_synced :
      (ts : ℕ) (falling : Bool) (r : Receiver)
      → r.sync ≡ 2
      → store_timestamp p grant ts falling r ≡ record (collect p ts r) { prev_ts = ts }
  unfolding store_timestamp
  store_timestamp_synced ts falling r e =
      let idle : (r.sync == 0) ≡ false = ground arith in rw (check_sync_synced ts falling r e, idle)

  collect_more :
      (ts q : ℕ) (r : Receiver)
      → u32 (sub64 ts r.prev_ts) ≡ q
      → r.n_pulse + 1 < r.mx_pulse
      → r.mx_pulse < 65536
      → collect p ts r ≡ store_pulse q r
  unfolding collect store_pulse
  collect_more ts q r e more small = ground arith

  collect_last :
      (ts q : ℕ) (r : Receiver)
      → u32 (sub64 ts r.prev_ts) ≡ q
      → r.n_pulse + 1 ≡ r.mx_pulse
      → r.mx_pulse < 65536
      → collect p ts r ≡ message_complete p ts (store_pulse q r)
  unfolding collect store_pulse
  collect_last ts q r e more small = ground arith

  -- An edge behind the sync sequence that does not complete the message.
  pub store_timestamp-IsCollecting :
      (ts q y : ℕ) (falling : Bool) (got junk : List ℕ) (r0 r : Receiver)
      → q < 2 ^ 32
      → ts + q < 2 ^ 64
      → IsCollecting p.message_len ts got (y ∷ junk) r0 r
      → length got + 1 < p.message_len
      → IsCollecting p.message_len
          (ts + q)
          (got ++ (q ∷ []))
          junk
          r0
          (store_timestamp p grant (ts + q) falling r)
  store_timestamp-IsCollecting ts q y falling got junk r0 r hq ht h more =
      let delta : u32 (sub64 (ts + q) r.prev_ts) ≡ q = rw h.stamp (delta_of ts q hq ht) in
      rw
        (
          store_timestamp_synced (ts + q) falling r h.synced,
          collect_more (ts + q) q r delta (omega (arith, h.count, h.capacity))
              (omega (arith, h.capacity, p.message_small)),
        )
        (store_pulse-IsCollecting p.message_len ts (ts + q) q y got junk r0 r p.message_small h)

  -- The decoder is called on all the pulses.
  complete-IsDelivered :
      (ts : ℕ) (d : Decoded) (got : List ℕ) (r0 r : Receiver)
      → IsCollecting p.message_len ts got [] r0 (record r { prev_ts = ts })
      → p.decode got p.message_len ≡ some d
      → IsDelivered d ts r0 (record (message_complete p ts r) { prev_ts = ts })
  complete-IsDelivered ts d got r0 r h decoded =
      let all : r.pulses ≡ got = h.held ∙ append-nil got in
      let count : r.n_pulse ≡ p.message_len = omega (arith, h.count, h.room) in
      let done = message_complete-IsDelivered ts d r (rw (all, count) decoded) in
      ground (arith, done)

  -- The edge that completes it.
  pub store_timestamp-IsDelivered :
      (ts q y : ℕ) (falling : Bool) (got : List ℕ) (r0 r : Receiver) (d : Decoded)
      → q < 2 ^ 32
      → ts + q < 2 ^ 64
      → IsCollecting p.message_len ts got (y ∷ []) r0 r
      → p.decode (got ++ (q ∷ [])) p.message_len ≡ some d
      → IsDelivered d (ts + q) r0 (store_timestamp p grant (ts + q) falling r)
  store_timestamp-IsDelivered ts q y falling got r0 r d hq ht h decoded =
      let delta : u32 (sub64 (ts + q) r.prev_ts) ≡ q = rw h.stamp (delta_of ts q hq ht) in
      let after =
        store_pulse-IsCollecting p.message_len ts (ts + q) q y got [] r0 r p.message_small h in
      rw
        (
          store_timestamp_synced (ts + q) falling r h.synced,
          collect_last (ts + q) q r delta (omega (arith, h.count, h.capacity, h.room))
              (omega (arith, h.capacity, p.message_small)),
        )
        (complete-IsDelivered (ts + q) d (got ++ (q ∷ [])) r0 (store_pulse q r) after decoded)
