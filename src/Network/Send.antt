-- ===== src/Network/Send.antt =====
-- `WEB::SENDBUF` and the queue of a `WEB::CLIENT` (network/web.{h,cpp}): what waits to be sent, and what has been
-- sent but not acknowledged. Who owns a buffer's memory is not modelled, and the log's messages are left out.
pub mod Laws
pub mod Queue
pub mod Stream
mod Tests
use picolibs.Base.{
  ℕ, zero, suc, ◌+◌, ◌-◌, Bool, true, false, Option, none, some, List, [], ◌∷◌, ◌++◌, ltb, leb,
  ◌==◌, if◌then◌else◌, ◌>>=◌, length, take, drop, sub32,
}
use picolibs.Network.Http.{same_text}

-- The members of `SENDBUF`.
pub record SendBuf : Type 0 where
  pub buffer : List ℕ
  pub size : ℕ
  pub sent : ℕ
  pub ack : ℕ

unfoldable pub send_buf : List ℕ → SendBuf
send_buf bytes = record { buffer = bytes; size = length bytes; sent = 0; ack = 0 }

unfoldable pub to_send : SendBuf → ℕ
to_send sb = sub32 sb.size sb.sent

-- The answer, the bytes that are handed over, and the buffer.
unfoldable pub get_next : ℕ → SendBuf → Bool × List ℕ × SendBuf
get_next count sb =
    let nn = if ltb count (to_send sb) then count else to_send sb in
    (ltb 0 nn, take nn (drop sb.sent sb.buffer), record sb { sent = sb.sent + nn })

unfoldable pub requeue : List ℕ → ℕ → SendBuf → SendBuf
requeue bytes buflen sb =
    if leb buflen sb.sent
    then (if same_text (take buflen (drop (sb.sent - buflen) sb.buffer)) (take buflen bytes)
        then record sb { sent = sb.sent - buflen }
        else sb)
    else sb

-- What is left of the count, and the buffer.
unfoldable pub acknowledge : ℕ → SendBuf → ℕ × SendBuf
acknowledge count sb =
    let na = sb.ack + count in
    if ltb sb.size na
    then (na - sb.size, record sb { ack = sb.size })
    else (0, record sb { ack = na })

unfoldable pub is_acknowledged : SendBuf → Bool
is_acknowledged sb = sb.ack == sb.size

-- `CLIENT::queue_send`
unfoldable pub queue_send : List ℕ → List SendBuf → List SendBuf
queue_send bytes queue = queue ++ (send_buf bytes ∷ [])

-- `CLIENT::acknowledge`, with fuel.
unfoldable pub acknowledge_queue : ℕ → ℕ → List SendBuf → Option (List SendBuf)
acknowledge_queue zero count queue = none
acknowledge_queue (suc fuel) count [] = some []
acknowledge_queue (suc fuel) count (sb ∷ queue) =
    let (count', sb') = acknowledge count sb in
    let queue' : List SendBuf = if is_acknowledged sb' then queue else sb' ∷ queue in
    elim (count' == 0) [ true ↦ some queue' | false ↦ acknowledge_queue fuel count' queue' ]

-- `CLIENT::get_next`
unfoldable pub get_next_queue : ℕ → List SendBuf → Option (Bool × List ℕ × List SendBuf)
get_next_queue count queue =
    if ltb 0 count
    then (do
      queue' ← acknowledge_queue (suc (length queue)) 0 queue
      elim queue' [
        | [] ↦ some (false, [], [])
        | sb ∷ rest ↦
            if ltb 0 (to_send sb)
            then (let (ret, bytes, sb') = get_next count sb in some (ret, bytes, sb' ∷ rest))
            else some (false, [], sb ∷ rest)
      ])
    else some (false, [], queue)

-- `CLIENT::requeue`
unfoldable pub requeue_queue : List ℕ → ℕ → List SendBuf → List SendBuf
requeue_queue bytes buflen [] = []
requeue_queue bytes buflen (sb ∷ queue) = requeue bytes buflen sb ∷ queue
