-- ===== src/Network/Send/Tests.antt =====
-- A queue of two buffers, the first of which is half sent.
use picolibs.Base.{◌++◌, ◌-◌, ◌≡◌, refl, true, some, List, [], ◌∷◌, arith}
use picolibs.Network.Send.{
  requeue_queue, SendBuf, get_next, acknowledge_queue, get_next_queue, queue_send, send_buf,
  acknowledge, is_acknowledged, to_send,
}
use picolibs.Network.Send.Stream.{Sends, no_bytes, queueing, writing, refusing, bytes_in_order}
use picolibs.Network.Send.Queue.{unsent}
use picolibs.Network.Send.Laws.{IsSound, AllSound, pending, acknowledge_queue_lem}

abbrev first : SendBuf
first = record { buffer = 1 ∷ 2 ∷ 3 ∷ 4 ∷ []; size = 4; sent = 2; ack = 1 }

abbrev second : SendBuf
second = record { buffer = 5 ∷ 6 ∷ []; size = 2; sent = 0; ack = 0 }

first-IsSound : IsSound first
first-IsSound = record {
  bytes = refl;
  sent_within = omega arith;
  ack_within = omega arith;
  small = omega arith;
}

second-IsSound : IsSound second
second-IsSound = record {
  bytes = refl;
  sent_within = omega arith;
  ack_within = omega arith;
  small = omega arith;
}

acknowledge_queue_lem_example :
    (queue' : List SendBuf) × (acknowledge_queue 3 4 (first ∷ second ∷ []) ≡ some queue')
    × (pending queue' ≡ pending (first ∷ second ∷ []) - 4)
    × AllSound queue'
acknowledge_queue_lem_example =
    acknowledge_queue_lem 3 4 (first ∷ second ∷ []) (first-IsSound, (second-IsSound, tt))
      (omega arith)

-- One buffer, of which two bytes are taken, and one more is refused.
abbrev three : List SendBuf
three = record { buffer = 1 ∷ 2 ∷ 3 ∷ []; size = 3; sent = 0; ack = 0 } ∷ []

abbrev half : List SendBuf
half = record { buffer = 1 ∷ 2 ∷ 3 ∷ []; size = 3; sent = 2; ack = 0 } ∷ []

abbrev whole : List SendBuf
whole = record { buffer = 1 ∷ 2 ∷ 3 ∷ []; size = 3; sent = 3; ack = 0 } ∷ []

takes_two : get_next_queue 2 three ≡ some (true, 1 ∷ 2 ∷ [], half)
unfolding get_next_queue acknowledge_queue acknowledge is_acknowledged get_next to_send
takes_two = refl

takes_one : get_next_queue 9 half ≡ some (true, 3 ∷ [], whole)
unfolding get_next_queue acknowledge_queue acknowledge is_acknowledged get_next to_send
takes_one = refl

three-Sends : Sends [] (1 ∷ 2 ∷ 3 ∷ []) three
unfolding queue_send send_buf
three-Sends = queueing (1 ∷ 2 ∷ 3 ∷ []) [] [] [] (omega arith) no_bytes

half-Sends : Sends (1 ∷ 2 ∷ []) (1 ∷ 2 ∷ 3 ∷ []) half
half-Sends = writing 2 true (1 ∷ 2 ∷ []) [] (1 ∷ 2 ∷ 3 ∷ []) three half takes_two three-Sends

bytes_in_order_example : (1 ∷ 2 ∷ []) ++ unsent (requeue_queue (3 ∷ []) 1 whole) ≡ 1 ∷ 2 ∷ 3 ∷ []
bytes_in_order_example =
    bytes_in_order (1 ∷ 2 ∷ []) (1 ∷ 2 ∷ 3 ∷ []) (requeue_queue (3 ∷ []) 1 whole)
      (refusing 9 true (3 ∷ []) (1 ∷ 2 ∷ []) (1 ∷ 2 ∷ 3 ∷ []) half whole takes_one half-Sends)
