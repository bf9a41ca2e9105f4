-- ===== src/Ir/Receiver/Delivery.antt =====
-- From an idle receiver to the callback: the sync sequence, the pulses behind it, and the decoder.
use picolibs.Base.{
  ℕ, suc, ◌+◌, ◌<◌, ◌^◌, ◌≡◌, refl, ap, Bool, true, false, not, some, List, [], ◌∷◌, ◌++◌,
  append_assoc, length, get_elem?, arith, set, u32, sub64, ◌==◌,
}
use picolibs.Ir.Protocol.{Protocol}
use picolibs.Ir.Message.{Decoded}
use picolibs.Ir.Receiver.{
  Receiver, Grant, store_pulse, start_timeout, start_message_timeout, check_sync, store_timestamp,
  step, run,
}
use picolibs.Ir.Receiver.Collect.{
  edges, total, callbacks, callbacks-add_log, IsDelivered, IsCollecting,
  store_timestamp-IsCollecting, store_timestamp-IsDelivered,
}

-- Durations that fit `uint32_t`.
abbrev pub Fits : List ℕ → Type 0
Fits [] = Unit
Fits (q ∷ qs) = (q < 2 ^ 32) × Fits qs

-- A receiver that waits for a message, since the start of its first mark.
pub record IsIdle (p : Protocol) (ts : ℕ) (r : Receiver) : Type 0 where
  pub waiting : r.sync ≡ 0
  pub stamp : r.prev_ts ≡ ts
  pub room : length r.pulses ≡ p.message_len
  pub capacity : r.mx_pulse ≡ p.message_len

-- What the start of the alarms leaves alone.
record IsUntouched (r r' : Receiver) : Type 0 where
  pulses : r'.pulses ≡ r.pulses
  n_pulse : r'.n_pulse ≡ r.n_pulse
  mx_pulse : r'.mx_pulse ≡ r.mx_pulse
  prev_ts : r'.prev_ts ≡ r.prev_ts
  sync : r'.sync ≡ r.sync
  rcb : r'.rcb ≡ r.rcb
  err : r'.err ≡ r.err
  told : callbacks r'.log ≡ callbacks r.log

module _ (p : Protocol) (grant : Grant) where
  start_message_timeout-IsUntouched : (r : Receiver) → IsUntouched r (start_message_timeout grant r)
  unfolding start_message_timeout
  start_message_timeout-IsUntouched r =
      ground (arith, callbacks-add_log (grant r.log r.msg_timeout) r.msg_timeout r.log)

  start_timeout-IsUntouched : (r : Receiver) → IsUntouched r (start_timeout grant r)
  unfolding start_timeout
  start_timeout-IsUntouched r =
      let r' = start_message_timeout grant r in
      ground (
        arith,
        start_message_timeout-IsUntouched r,
        callbacks-add_log (grant r'.log r'.bit_timeout) r'.bit_timeout r'.log,
      )

  -- The edge that ends the sync mark.
  record IsMarked (ts m y0 : ℕ) (ys : List ℕ) (r r' : Receiver) : Type 0 where
    synced : r'.sync ≡ 1
    count : r'.n_pulse ≡ 1
    stamp : r'.prev_ts ≡ ts
    pulses : r'.pulses ≡ m ∷ ys
    capacity : r'.mx_pulse ≡ r.mx_pulse
    rcb : r'.rcb ≡ r.rcb
    err : r'.err ≡ r.err
    told : callbacks r'.log ≡ callbacks r.log

  -- The receiver with the first pulse.
  abbrev marked : ℕ → Receiver → Receiver
  marked m r = record (store_pulse m (record r { n_pulse = 0 })) { sync = 1 }

  check_sync_mark :
      (ts m : ℕ) (r : Receiver)
      → u32 (sub64 ts r.prev_ts) ≡ m
      → r.sync ≡ 0
      → p.is_mark m ≡ true
      → check_sync p ts true r ≡ (false, marked m r)
  unfolding check_sync
  check_sync_mark ts m r delta waiting good =
      let idle : (r.sync == 0) ≡ true = ground arith in rw (idle, delta, good)

  store_timestamp_mark :
      (ts m : ℕ) (r : Receiver)
      → u32 (sub64 ts r.prev_ts) ≡ m
      → r.sync ≡ 0
      → p.is_mark m ≡ true
      → store_timestamp p grant ts true r
        ≡ start_timeout grant (record (marked m r) { prev_ts = ts })
  unfolding store_timestamp
  store_timestamp_mark ts m r delta waiting good =
      let idle : (r.sync == 0) ≡ true = ground arith in
      rw (check_sync_mark ts m r delta waiting good, idle)

  sync_mark :
      (ts m y0 : ℕ) (ys : List ℕ) (r : Receiver)
      → m < 2 ^ 32
      → ts + m < 2 ^ 64
      → IsIdle p ts r
      → r.pulses ≡ y0 ∷ ys
      → p.is_mark m ≡ true
      → IsMarked (ts + m) m y0 ys r (store_timestamp p grant (ts + m) true r)
  unfolding store_pulse
  sync_mark ts m y0 ys r hm ht idle split good =
      let delta : u32 (sub64 (ts + m) r.prev_ts) ≡ m = omega (arith, idle.stamp) in
      rw (store_timestamp_mark (ts + m) m r delta idle.waiting good) (
        ground (
          arith,
          start_timeout-IsUntouched (record (marked m r) { prev_ts = ts + m }),
          ap (λ (xs : List ℕ). set xs 0 m) split,
        ))

  -- The edge that ends the sync space.
  check_sync_space :
      (ts s : ℕ) (r : Receiver)
      → u32 (sub64 ts r.prev_ts) ≡ s
      → r.sync ≡ 1
      → p.is_space s ≡ true
      → check_sync p ts false r ≡ (false, store_pulse s (record r { sync = 2 }))
  unfolding check_sync
  check_sync_space ts s r delta synced good =
      let waits : (r.sync == 0) ≡ false = ground arith in
      let marks : (r.sync == 1) ≡ true = ground arith in rw (waits, marks, delta, good)

  sync_space :
      (ts m s y0 y1 : ℕ) (junk : List ℕ) (r0 r : Receiver)
      → s < 2 ^ 32
      → ts + s < 2 ^ 64
      → p.message_len ≡ length junk + 2
      → r0.mx_pulse ≡ p.message_len
      → IsMarked ts m y0 (y1 ∷ junk) r0 r
      → p.is_space s ≡ true
      → IsCollecting p.message_len
          (ts + s)
          (m ∷ s ∷ [])
          junk
          r0
          (store_timestamp p grant (ts + s) false r)
  unfolding store_timestamp store_pulse
  sync_space ts m s y0 y1 junk r0 r hs ht len cap h good =
      let delta : u32 (sub64 (ts + s) r.prev_ts) ≡ s = omega (arith, h.stamp) in
      let waits : (r.sync == 0) ≡ false = ground (arith, h.synced) in
      rw (check_sync_space (ts + s) s r delta h.synced good, waits)
        (ground (arith, h, ap (λ (xs : List ℕ). set xs 1 s) h.pulses))

  -- All pulses behind the sync sequence.
  run-IsDelivered :
      (qs : List ℕ) (q ts end : ℕ) (falling : Bool) (got junk : List ℕ) (r0 r : Receiver)
      (d : Decoded)
      → q < 2 ^ 32
      → Fits qs
      → end ≡ ts + total (q ∷ qs)
      → end < 2 ^ 64
      → IsCollecting p.message_len ts got junk r0 r
      → length junk ≡ suc (length qs)
      → p.decode (got ++ (q ∷ qs)) p.message_len ≡ some d
      → IsDelivered d end r0 (run p grant (edges ts falling (q ∷ qs)) r)
  unfolding run step
  run-IsDelivered qs q ts end falling got [] r0 r d hq hqs e he h room decoded =
      absurd (omega arith)
  run-IsDelivered [] q ts end falling got (y ∷ []) r0 r d hq hqs e he h room decoded =
      let same : end ≡ ts + q = omega arith in
      rw same
        (store_timestamp-IsDelivered p grant ts q y falling got r0 r d hq (omega arith) h decoded)
  run-IsDelivered [] q ts end falling got (y ∷ z ∷ junk) r0 r d hq hqs e he h room decoded =
      absurd (omega arith)
  run-IsDelivered (q' ∷ qs) q ts end falling got (y ∷ junk) r0 r d hq hqs e he h room decoded =
      run-IsDelivered qs q' (ts + q) end (not falling) (got ++ (q ∷ [])) junk r0
        (store_timestamp p grant (ts + q) falling r) d hqs.0 hqs.1 (omega arith) he
        (store_timestamp-IsCollecting p grant ts q y falling got junk r0 r hq (omega arith) h
          (omega (arith, h.room)))
        (omega arith) (rw (append_assoc got (q ∷ []) (q' ∷ qs)) decoded)

  deliver_from :
      (ts m s q end : ℕ) (qs xs : List ℕ) (r : Receiver) (d : Decoded)
      → Fits (m ∷ s ∷ q ∷ qs)
      → end ≡ ts + total (m ∷ s ∷ q ∷ qs)
      → end < 2 ^ 64
      → length (m ∷ s ∷ q ∷ qs) ≡ p.message_len
      → IsIdle p ts r
      → r.pulses ≡ xs
      → p.is_mark m ≡ true
      → p.is_space s ≡ true
      → p.decode (m ∷ s ∷ q ∷ qs) p.message_len ≡ some d
      → IsDelivered d end r (run p grant (edges ts true (m ∷ s ∷ q ∷ qs)) r)
  unfolding run step
  deliver_from ts m s q end qs [] r d fits e he len idle split hm hs decoded =
      absurd (omega (arith, idle.room, ap length split))
  deliver_from ts m s q end qs (y0 ∷ []) r d fits e he len idle split hm hs decoded =
      absurd (omega (arith, idle.room, ap length split))
  deliver_from ts m s q end qs (y0 ∷ y1 ∷ junk) r d fits e he len idle split hm hs decoded =
      let r1 = store_timestamp p grant (ts + m) true r in
      let r2 = store_timestamp p grant (ts + m + s) false r1 in
      let all : length (y0 ∷ y1 ∷ junk) ≡ p.message_len = rw split at idle.room in
      let after_mark = sync_mark ts m y0 (y1 ∷ junk) r fits.0 (omega arith) idle split hm in
      let after_space =
        sync_space (ts + m) m s y0 y1 junk r r1 fits.1.0 (omega arith) (omega arith) idle.capacity
          after_mark hs in
      run-IsDelivered qs q (ts + m + s) end true (m ∷ s ∷ []) junk r r2 d fits.1.1.0 fits.1.1.1
        (omega arith) he after_space (omega arith) decoded

-- An idle receiver that sees the edges of a train of pulses, as many as a message has, whose first
-- two pass the tests of the sync sequence and whose durations and times fit their words, hands
-- exactly these pulses to the decoder, once. The application is told by the received callback if the decoder
-- accepts, else by the error callback, if it has set them, and nothing else; the receiver is idle again with no alarm, and
-- keeps the decoded address and function for a repeat code.
pub deliver :
    (p : Protocol) (grant : Grant) (ts m s q : ℕ) (qs : List ℕ) (r : Receiver) (d : Decoded)
    → Fits (m ∷ s ∷ q ∷ qs)
    → ts + total (m ∷ s ∷ q ∷ qs) < 2 ^ 64
    → length (m ∷ s ∷ q ∷ qs) ≡ p.message_len
    → IsIdle p ts r
    → p.is_mark m ≡ true
    → p.is_space s ≡ true
    → p.decode (m ∷ s ∷ q ∷ qs) p.message_len ≡ some d
    → IsDelivered d (ts + total (m ∷ s ∷ q ∷ qs)) r (run p grant (edges ts true (m ∷ s ∷ q ∷ qs)) r)
deliver p grant ts m s q qs r d fits he len idle hm hs decoded =
    deliver_from p grant ts m s q _ qs r.pulses r d fits refl he len idle refl hm hs decoded

pub Fits-total : (qs : List ℕ) → total qs < 2 ^ 32 → Fits qs
Fits-total [] h = tt
Fits-total (q ∷ qs) h = (omega arith, Fits-total qs (omega arith))

-- A train long enough to have a sync sequence and a pulse behind it.
pub deliver_train :
    (p : Protocol) (grant : Grant) (ts : ℕ) (qs : List ℕ) (r : Receiver) (d : Decoded)
    → total qs < 2 ^ 32
    → ts + total qs < 2 ^ 64
    → length qs ≡ p.message_len
    → IsIdle p ts r
    → ((q : ℕ) → get_elem? qs 0 ≡ some q → p.is_mark q ≡ true)
    → ((q : ℕ) → get_elem? qs 1 ≡ some q → p.is_space q ≡ true)
    → p.decode qs p.message_len ≡ some d
    → IsDelivered d (ts + total qs) r (run p grant (edges ts true qs) r)
deliver_train p grant ts [] r d h he len idle hm hs decoded = absurd (omega (arith, p.message_long))
deliver_train p grant ts (m ∷ []) r d h he len idle hm hs decoded =
    absurd (omega (arith, p.message_long))
deliver_train p grant ts (m ∷ s ∷ []) r d h he len idle hm hs decoded =
    absurd (omega (arith, p.message_long))
deliver_train p grant ts (m ∷ s ∷ q ∷ qs) r d h he len idle hm hs decoded =
    deliver p grant ts m s q qs r d (Fits-total (m ∷ s ∷ q ∷ qs) h) he len idle (hm m refl)
      (hs s refl) decoded
