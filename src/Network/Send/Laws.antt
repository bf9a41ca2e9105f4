-- ===== src/Network/Send/Laws.antt =====
-- What is acknowledged leaves the queue, and what could not be sent returns to it.
use picolibs.Base.{
  ℕ, zero, suc, ◌+◌, ◌-◌, ◌<◌, ◌≤◌, ◌^◌, ◌≡◌, inl, inr, refl, sym, ap, ◌∙◌, Bool, true, false, some,
  List, [], ◌∷◌, arith, ltb, leb, ◌==◌, ==_iff, if◌then◌else◌, length, take, drop, Bool-cases,
  length-take, length-drop, min,
}
use picolibs.Network.Http.{same_text}
use picolibs.Network.Send.{
  SendBuf, to_send, get_next, requeue, acknowledge, is_acknowledged, acknowledge_queue,
}

-- A buffer's counters are within its bytes.
pub record IsSound (sb : SendBuf) : Type 0 where
  pub bytes : length sb.buffer ≡ sb.size
  pub sent_within : sb.sent ≤ sb.size
  pub ack_within : sb.ack ≤ sb.size
  pub small : sb.size < 2 ^ 31

abbrev pub AllSound : List SendBuf → Type 0
AllSound [] = Unit
AllSound (sb ∷ queue) = IsSound sb × AllSound queue

-- The bytes of a queue that are not acknowledged.
abbrev pub pending : List SendBuf → ℕ
pending [] = 0
pending (sb ∷ queue) = (sb.size - sb.ack) + pending queue

pub same_text_refl : (xs : List ℕ) → same_text xs xs ≡ true
same_text_refl [] = refl
same_text_refl (x ∷ xs) =
    let same : (x == x) ≡ true = (==_iff x x).1 refl in rw (same, same_text_refl xs)

take-length : (xs : List ℕ) (n : ℕ) → n ≡ length xs → take n xs ≡ xs
take-length [] zero e = refl
take-length [] (suc n) e = absurd (omega arith)
take-length (x ∷ xs) zero e = absurd (omega arith)
take-length (x ∷ xs) (suc n) e = ap (◌∷◌ x) (take-length xs n (omega arith))

-- The acknowledgement of more than a buffer has left, and of what it has left at most.
acknowledge-over :
    (count : ℕ) (sb : SendBuf)
    → sb.size < sb.ack + count
    → acknowledge count sb ≡ (sb.ack + count - sb.size, record sb { ack = sb.size })
unfolding acknowledge
acknowledge-over count sb over = let h : ltb sb.size (sb.ack + count) ≡ true = ground arith in rw h

acknowledge-within :
    (count : ℕ) (sb : SendBuf)
    → sb.ack + count ≤ sb.size
    → acknowledge count sb ≡ (0, record sb { ack = sb.ack + count })
unfolding acknowledge
acknowledge-within count sb h =
    let h' : ltb sb.size (sb.ack + count) ≡ false = ground arith in rw h'

acknowledge_queue-over :
    (fuel count : ℕ) (sb : SendBuf) (queue : List SendBuf)
    → sb.size < sb.ack + count
    → acknowledge_queue (suc fuel) count (sb ∷ queue)
      ≡ acknowledge_queue fuel (sb.ack + count - sb.size) queue
unfolding acknowledge_queue is_acknowledged
acknowledge_queue-over fuel count sb queue over =
    let whole : (sb.size == sb.size) ≡ true = (==_iff sb.size sb.size).1 refl in
    let more : (sb.ack + count - sb.size == 0) ≡ false = ground (arith, over) in
    rw
      (
        acknowledge_queue,
        acknowledge-over count sb over,
        more,
        acknowledge-over count sb over,
        is_acknowledged,
        whole,
      )
      refl

pub acknowledge_queue-within :
    (fuel count : ℕ) (sb : SendBuf) (queue : List SendBuf)
    → sb.ack + count ≤ sb.size
    → acknowledge_queue (suc fuel) count (sb ∷ queue)
      ≡ some
          (if sb.ack + count == sb.size then queue else record sb { ack = sb.ack + count } ∷ queue)
unfolding acknowledge_queue is_acknowledged
acknowledge_queue-within fuel count sb queue fits =
    rw (acknowledge_queue, acknowledge-within count sb fits, acknowledge-within count sb fits) refl

-- Acknowledging bytes ends, whatever their number. It takes that number off the bytes that wait for it, as far as there
-- are any, and the counters of the buffers that stay are within their bytes.
pub acknowledge_queue_lem :
    (fuel count : ℕ) (queue : List SendBuf)
    → AllSound queue
    → length queue < fuel
    → (queue' : List SendBuf) × (acknowledge_queue fuel count queue ≡ some queue')
      × (pending queue' ≡ pending queue - count)
      × AllSound queue'
unfolding acknowledge_queue is_acknowledged
acknowledge_queue_lem zero count queue h enough = absurd (omega arith)
acknowledge_queue_lem (suc fuel) count [] h enough = ([], refl, omega arith, tt)
acknowledge_queue_lem (suc fuel) count (sb ∷ queue) (s, h) enough =
    elim (Bool-cases (ltb sb.size (sb.ack + count))) [
      | inl over ↦
          let (queue', e, less, h') =
            acknowledge_queue_lem fuel (sb.ack + count - sb.size) queue h (omega arith) in
          let past : sb.size < sb.ack + count = ground (arith, over) in
          (
            queue',
            acknowledge_queue-over fuel count sb queue past ∙ e,
            omega (arith, less, past, s.ack_within),
            h',
          )
      | inr within ↦
          let sb' : SendBuf = record sb { ack = sb.ack + count } in
          let fits : sb.ack + count ≤ sb.size = ground (arith, within) in
          let s' : IsSound sb' = record {
            bytes = s.bytes;
            sent_within = s.sent_within;
            ack_within = fits;
            small = s.small;
          } in
          let result = acknowledge_queue-within fuel count sb queue fits in
          elim (Bool-cases (sb.ack + count == sb.size)) [
            | inl done ↦
                let all : sb.ack + count ≡ sb.size = (==_iff (sb.ack + count) sb.size).0 done in
                (
                  queue,
                  result ∙ ap (λ (b : Bool). some (if b then queue else sb' ∷ queue)) done,
                  omega (arith, all),
                  h,
                )
            | inr more ↦ (
              sb' ∷ queue,
              result ∙ ap (λ (b : Bool). some (if b then queue else sb' ∷ queue)) more,
              omega (arith, fits),
              (s', h),
            )
          ]
    ]

pub to_send_sound : (sb : SendBuf) → IsSound sb → to_send sb ≡ sb.size - sb.sent
unfolding to_send
to_send_sound sb s =
    let within = s.sent_within in let small = s.small in omega (arith, within, small)

-- The number of bytes that `get_next` hands over.
pub next_count : ℕ → SendBuf → ℕ
next_count count sb = if ltb count (sb.size - sb.sent) then count else sb.size - sb.sent

pub get_next_sound :
    (count : ℕ) (sb : SendBuf)
    → IsSound sb
    → get_next count sb ≡ (
      ltb 0 (next_count count sb),
      take (next_count count sb) (drop sb.sent sb.buffer),
      record sb { sent = sb.sent + next_count count sb },
    )
unfolding get_next next_count
get_next_sound count sb s = rw (get_next, to_send_sound sb s) refl

pub next_count-within :
    (count : ℕ) (sb : SendBuf)
    → IsSound sb
    → (next_count count sb ≡ min count (sb.size - sb.sent))
      × (sb.sent + next_count count sb ≤ sb.size)
unfolding next_count
next_count-within count sb s =
    let within = s.sent_within in (ground (arith, within), ground (arith, within))

pub requeue-back :
    (n : ℕ) (sb : SendBuf) (bytes : List ℕ)
    → bytes ≡ take n (drop sb.sent sb.buffer)
    → n ≡ length bytes
    → requeue bytes n (record sb { sent = sb.sent + n }) ≡ sb
unfolding requeue
requeue-back n sb bytes e len =
    let some_sent : leb n (sb.sent + n) ≡ true = ground arith in
    let back : sb.sent + n - n ≡ sb.sent = omega arith in
    let all : take n bytes ≡ bytes = take-length bytes n len in
    rw (requeue, some_sent, back, ← e, all, same_text_refl bytes) refl

-- Of a buffer with sound counters, `get_next` hands over the bytes behind those that are sent, as many as it may and
-- as there are, and `requeue` of these bytes takes it back.
pub requeue-get_next :
    (count : ℕ) (sb : SendBuf)
    → IsSound sb
    → (bytes : List ℕ) × (sb' : SendBuf) × (get_next count sb ≡ (ltb 0 (length bytes), bytes, sb'))
      × (bytes ≡ take (length bytes) (drop sb.sent sb.buffer))
      × (length bytes ≡ min count (sb.size - sb.sent))
      × IsSound sb'
      × (sb'.sent ≡ sb.sent + length bytes)
      × (requeue bytes (length bytes) sb' ≡ sb)
unfolding next_count
requeue-get_next count sb s =
    let n = next_count count sb in
    let (least, within) = next_count-within count sb s in
    let bytes = take n (drop sb.sent sb.buffer) in
    let whole = s.bytes in
    let ack = s.ack_within in
    let small = s.small in
    let size : n ≡ length bytes = omega (
      arith,
      length-take n (drop sb.sent sb.buffer),
      length-drop sb.sent sb.buffer,
      whole,
      within,
    ) in
    (
      bytes,
      record sb { sent = sb.sent + n },
      get_next_sound count sb s
          ∙ ap (λ (k : ℕ). (ltb 0 k, bytes, record sb { sent = sb.sent + n })) size,
      ap (λ (k : ℕ). take k (drop sb.sent sb.buffer)) size,
      sym size ∙ least,
      record { bytes = whole; sent_within = within; ack_within = ack; small = small },
      ap (λ (k : ℕ). sb.sent + k) size,
      ap (λ (k : ℕ). requeue bytes k (record sb { sent = sb.sent + n })) (sym size)
          ∙ requeue-back n sb bytes refl size,
    )
