-- ===== src/Network/Send/Queue.antt =====
-- What each operation does to the bytes of a client's queue that are left to send.
use picolibs.Base.{
  ℕ, suc, ◌+◌, ◌-◌, ◌≤◌, ◌≡◌, inl, inr, refl, sym, ap, ◌∙◌, Bool, true, false, some, List, [], ◌∷◌,
  ◌++◌, append_assoc, arith, ltb, leb, ◌==◌, ==_iff, if◌then◌else◌, length, take, drop, take-drop,
  drop-drop, drop-all, Bool-cases, length-take, length-drop,
}
use picolibs.Network.Send.{
  SendBuf, to_send, requeue, acknowledge_queue, get_next_queue, requeue_queue,
}
use picolibs.Network.Send.Laws.{
  IsSound, acknowledge_queue-within, next_count, next_count-within, get_next_sound, requeue-back,
}

-- Nothing of a buffer is sent yet.
pub record IsFresh (sb : SendBuf) : Type 0 where
  pub sound : IsSound sb
  pub nothing_sent : sb.sent ≡ 0
  pub nothing_acknowledged : sb.ack ≡ 0

abbrev pub AllFresh : List SendBuf → Type 0
AllFresh [] = Unit
AllFresh (sb ∷ queue) = IsFresh sb × AllFresh queue

-- Only the buffer at the front may be sent in part, and it is acknowledged as far as it is sent, at most.
abbrev pub IsQueue : List SendBuf → Type 0
IsQueue [] = Unit
IsQueue (sb ∷ queue) = IsSound sb × (sb.ack ≤ sb.sent) × AllFresh queue

-- What is left to send.
abbrev pub unsent : List SendBuf → List ℕ
unsent [] = []
unsent (sb ∷ queue) = drop sb.sent sb.buffer ++ unsent queue

-- What is sent and not acknowledged.
abbrev pub outstanding : List SendBuf → ℕ
outstanding [] = 0
outstanding (sb ∷ queue) = sb.sent - sb.ack

pub AllFresh-IsQueue : (queue : List SendBuf) → AllFresh queue → IsQueue queue
AllFresh-IsQueue [] f = tt
AllFresh-IsQueue (sb ∷ queue) (f, g) =
    let s = f.nothing_sent in let a = f.nothing_acknowledged in (f.sound, omega (arith, s, a), g)

pub acknowledge_queue-keeps :
    (fuel count : ℕ) (queue : List SendBuf)
    → IsQueue queue
    → count ≤ outstanding queue
    → (queue' : List SendBuf) × (acknowledge_queue (suc fuel) count queue ≡ some queue')
      × IsQueue queue'
      × (unsent queue' ≡ unsent queue)
unfolding acknowledge_queue
acknowledge_queue-keeps fuel count [] q few = ([], refl, tt, refl)
acknowledge_queue-keeps fuel count (sb ∷ queue) (s, order, fresh) few =
    let sent = s.sent_within in
    let size = s.bytes in
    let sb' : SendBuf = record sb { ack = sb.ack + count } in
    let result = acknowledge_queue-within fuel count sb queue (omega (arith, sent)) in
    elim (Bool-cases (sb.ack + count == sb.size)) [
      | inl done ↦
          let all : sb.ack + count ≡ sb.size = (==_iff (sb.ack + count) sb.size).0 done in
          let empty = drop-all sb.sent sb.buffer (omega (arith, sent, size, all)) in
          (
            queue,
            result ∙ ap (λ (b : Bool). some (if b then queue else sb' ∷ queue)) done,
            AllFresh-IsQueue queue fresh,
            rw empty refl,
          )
      | inr more ↦
          let s' : IsSound sb' = record {
            bytes = s.bytes;
            sent_within = s.sent_within;
            ack_within = omega (arith, sent);
            small = s.small;
          } in
          (
            sb' ∷ queue,
            result ∙ ap (λ (b : Bool). some (if b then queue else sb' ∷ queue)) more,
            (s', omega (arith, sent), fresh),
            refl,
          )
    ]

-- What `get_next` takes is what was to be sent first.
get_next-takes :
    (count : ℕ) (sb : SendBuf) (queue : List SendBuf)
    → take (next_count count sb) (drop sb.sent sb.buffer)
        ++ (drop (sb.sent + next_count count sb) sb.buffer ++ unsent queue)
      ≡ unsent (sb ∷ queue)
get_next-takes count sb queue =
    let n = next_count count sb in
    sym
      (append_assoc (take n (drop sb.sent sb.buffer)) (drop (sb.sent + n) sb.buffer) (unsent queue))
    ∙ ap (λ (ys : List ℕ). (take n (drop sb.sent sb.buffer) ++ ys) ++ unsent queue)
        (sym (drop-drop n sb.sent sb.buffer))
    ∙ ap (λ (ys : List ℕ). ys ++ unsent queue) (take-drop n (drop sb.sent sb.buffer))

-- The buffer at the front after `get_next`.
taken : ℕ → SendBuf → SendBuf
taken count sb = record sb { sent = sb.sent + next_count count sb }

get_next-IsQueue :
    (count : ℕ) (sb : SendBuf) (queue : List SendBuf)
    → IsQueue (sb ∷ queue)
    → IsQueue (taken count sb ∷ queue)
unfolding taken
get_next-IsQueue count sb queue (s, order, fresh) =
    let (least, within) = next_count-within count sb s in
    (
      record { bytes = s.bytes; sent_within = within; ack_within = s.ack_within; small = s.small },
      omega (arith, order),
      fresh,
    )

requeue-nothing : (sb : SendBuf) → requeue [] 0 sb ≡ sb
unfolding requeue
requeue-nothing sb =
    let within : leb 0 sb.sent ≡ true = ground arith in
    let same : sb.sent - 0 ≡ sb.sent = omega arith in rw (requeue, within, same) refl

requeue_queue-nothing : (queue : List SendBuf) → requeue_queue [] 0 queue ≡ queue
unfolding requeue_queue
requeue_queue-nothing [] = refl
requeue_queue-nothing (sb ∷ queue) = ap (λ (b : SendBuf). b ∷ queue) (requeue-nothing sb)

-- What `get_next` leaves behind: the bytes that it takes were the first to send, and `requeue` takes it back.
pub record Takes (queue : List SendBuf) (bytes : List ℕ) (queue' : List SendBuf) : Type 0 where
  pub ordered : IsQueue queue'
  pub first : bytes ++ unsent queue' ≡ unsent queue
  pub back_ordered : IsQueue (requeue_queue bytes (length bytes) queue')
  pub back : unsent (requeue_queue bytes (length bytes) queue') ≡ unsent queue

Takes-nothing :
    (queue queue' : List SendBuf)
    → IsQueue queue'
    → unsent queue' ≡ unsent queue
    → Takes queue [] queue'
Takes-nothing queue queue' q e =
    let same = requeue_queue-nothing queue' in
    record { ordered = q; first = e; back_ordered = rw same q; back = rw same e }

Takes-front :
    (count : ℕ) (sb : SendBuf) (queue rest : List SendBuf)
    → IsQueue (sb ∷ rest)
    → unsent (sb ∷ rest) ≡ unsent queue
    → Takes queue (take (next_count count sb) (drop sb.sent sb.buffer)) (taken count sb ∷ rest)
unfolding taken requeue_queue
Takes-front count sb queue rest (s, order, fresh) e =
    let n = next_count count sb in
    let bytes = take n (drop sb.sent sb.buffer) in
    let (least, within) = next_count-within count sb s in
    let size = s.bytes in
    let all : n ≡ length bytes = omega (
      arith,
      length-take n (drop sb.sent sb.buffer),
      length-drop sb.sent sb.buffer,
      least,
      within,
      size,
    ) in
    let same : requeue bytes (length bytes) (record sb { sent = sb.sent + n }) ≡ sb =
      ap (λ (m : ℕ). requeue bytes m (record sb { sent = sb.sent + n })) (sym all)
      ∙ requeue-back n sb bytes refl all in
    record {
      ordered = get_next-IsQueue count sb rest (s, order, fresh);
      first = get_next-takes count sb rest ∙ e;
      back_ordered = rw same (s, order, fresh);
      back = rw same e;
    }

-- What `get_next_queue` gives, for a queue with something at its front or not.
pub get_next_queue-Takes :
    (count : ℕ) (queue : List SendBuf)
    → IsQueue queue
    → (ret : Bool) × (bytes : List ℕ) × (queue' : List SendBuf) × (get_next_queue count queue
        ≡ some (ret, bytes, queue'))
      × Takes queue bytes queue'
unfolding get_next_queue taken
get_next_queue-Takes count queue q = elim (Bool-cases (ltb 0 count)) [
  | inr none_wanted ↦
      (false, [], queue, rw (get_next_queue, none_wanted) refl, Takes-nothing queue queue q refl)
  | inl wanted ↦
      let (queue', acknowledged, q', e) =
        acknowledge_queue-keeps (length queue) 0 queue q (omega arith) in
      front queue' wanted acknowledged q' e
]
  where
    front :
        (queue' : List SendBuf)
        → ltb 0 count ≡ true
        → acknowledge_queue (suc (length queue)) 0 queue ≡ some queue'
        → IsQueue queue'
        → unsent queue' ≡ unsent queue
        → (ret : Bool) × (bytes : List ℕ) × (queue' : List SendBuf) × (get_next_queue count queue
            ≡ some (ret, bytes, queue'))
          × Takes queue bytes queue'
    front [] wanted acknowledged q' e =
        (false, [], [], rw (get_next_queue, wanted, acknowledged) refl, Takes-nothing queue [] q' e)
    front (sb ∷ rest) wanted acknowledged q' e = elim (Bool-cases (ltb 0 (to_send sb))) [
      | inr nothing ↦ (
        false,
        [],
        sb ∷ rest,
        rw (get_next_queue, wanted, acknowledged, nothing) refl,
        Takes-nothing queue (sb ∷ rest) q' e,
      )
      | inl something ↦ (
        ltb 0 (next_count count sb),
        take (next_count count sb) (drop sb.sent sb.buffer),
        taken count sb ∷ rest,
        rw (get_next_queue, wanted, acknowledged, something, get_next_sound count sb (q'.0)) refl,
        Takes-front count sb queue rest q' e,
      )
    ]
