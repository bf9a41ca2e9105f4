-- ===== src/Network/Send/Stream.antt =====
-- The bytes that leave the queue of a client: those that `write_next` hands over to lwIP, in their order.
use picolibs.Base.{
  ℕ, suc, ◌<◌, ◌≤◌, ◌^◌, ◌≡◌, refl, sym, ap, subst, ◌∙◌, Bool, some, List, [], ◌∷◌, ◌++◌,
  append_assoc, append-nil, length, drop, arith,
}
use picolibs.Network.Send.{
  SendBuf, send_buf, acknowledge_queue, get_next_queue, requeue_queue, queue_send,
}
use picolibs.Network.Send.Queue.{
  IsQueue, unsent, outstanding, Takes, acknowledge_queue-keeps, get_next_queue-Takes, IsFresh,
  AllFresh, AllFresh-IsQueue,
}

unsent-queue_send :
    (bytes : List ℕ) (queue : List SendBuf)
    → unsent (queue_send bytes queue) ≡ unsent queue ++ bytes
unfolding queue_send send_buf
unsent-queue_send bytes [] = append-nil bytes
unsent-queue_send bytes (sb ∷ queue) =
    ap (λ (ys : List ℕ). drop sb.sent sb.buffer ++ ys) (unsent-queue_send bytes queue)
    ∙ sym (append_assoc (drop sb.sent sb.buffer) (unsent queue) bytes)

send_buf-IsFresh : (bytes : List ℕ) → length bytes < 2 ^ 31 → IsFresh (send_buf bytes)
unfolding send_buf
send_buf-IsFresh bytes small = record {
  sound = record {
    bytes = refl;
    sent_within = omega arith;
    ack_within = omega arith;
    small = small;
  };
  nothing_sent = refl;
  nothing_acknowledged = refl;
}

queue_send-AllFresh :
    (bytes : List ℕ) (queue : List SendBuf)
    → length bytes < 2 ^ 31
    → AllFresh queue
    → AllFresh (queue_send bytes queue)
unfolding queue_send
queue_send-AllFresh bytes [] small f = (send_buf-IsFresh bytes small, tt)
queue_send-AllFresh bytes (sb ∷ queue) small (f, g) = (f, queue_send-AllFresh bytes queue small g)

queue_send-IsQueue :
    (bytes : List ℕ) (queue : List SendBuf)
    → length bytes < 2 ^ 31
    → IsQueue queue
    → IsQueue (queue_send bytes queue)
unfolding queue_send
queue_send-IsQueue bytes [] small q =
    AllFresh-IsQueue (queue_send bytes []) (queue_send-AllFresh bytes [] small tt)
queue_send-IsQueue bytes (sb ∷ queue) small (s, order, fresh) =
    (s, order, queue_send-AllFresh bytes queue small fresh)

-- The history of a queue: what lwIP has taken, what was queued, and the queue. Bytes are queued, handed over or refused,
-- and acknowledged, of which lwIP says no more than is sent.
pub data Sends : List ℕ → List ℕ → List SendBuf → Type 0 where
  no_bytes : Sends [] [] []
  queueing :
      (bytes written queued : List ℕ) (queue : List SendBuf)
      → length bytes < 2 ^ 31
      → Sends written queued queue
      → Sends written (queued ++ bytes) (queue_send bytes queue)
  writing :
      (count : ℕ) (ret : Bool) (bytes written queued : List ℕ) (queue queue' : List SendBuf)
      → get_next_queue count queue ≡ some (ret, bytes, queue')
      → Sends written queued queue
      → Sends (written ++ bytes) queued queue'
  refusing :
      (count : ℕ) (ret : Bool) (bytes written queued : List ℕ) (queue queue' : List SendBuf)
      → get_next_queue count queue ≡ some (ret, bytes, queue')
      → Sends written queued queue
      → Sends written queued (requeue_queue bytes (length bytes) queue')
  acknowledging :
      (fuel count : ℕ) (written queued : List ℕ) (queue queue' : List SendBuf)
      → count ≤ outstanding queue
      → acknowledge_queue (suc fuel) count queue ≡ some queue'
      → Sends written queued queue
      → Sends written queued queue'

record InOrder (written queued : List ℕ) (queue : List SendBuf) : Type 0 where
  ordered : IsQueue queue
  stream : written ++ unsent queue ≡ queued

-- The outcome that a call has is the one that is computed.
same-Takes :
    (count : ℕ) (ret : Bool) (bytes : List ℕ) (queue queue' : List SendBuf)
    → get_next_queue count queue ≡ some (ret, bytes, queue')
    → IsQueue queue
    → Takes queue bytes queue'
same-Takes count ret bytes queue queue' e q =
    let (r, b, s, e', t) = get_next_queue-Takes count queue q in
    subst (λ (o : Bool × List ℕ × List SendBuf). Takes queue (o.1) (o.2)) (only (sym e' ∙ e)) t
  where
    only : {a b : Bool × List ℕ × List SendBuf} → some a ≡ some b → a ≡ b
    only e = cc

Sends-InOrder :
    (written queued : List ℕ) (queue : List SendBuf)
    → Sends written queued queue
    → InOrder written queued queue
Sends-InOrder _ _ _ no_bytes = record { ordered = tt; stream = refl }
Sends-InOrder _ _ _ (queueing bytes written queued queue small h) =
    let i = Sends-InOrder written queued queue h in
    record {
      ordered = queue_send-IsQueue bytes queue small i.ordered;
      stream =
          ap (λ (ys : List ℕ). written ++ ys) (unsent-queue_send bytes queue)
          ∙ sym (append_assoc written (unsent queue) bytes)
          ∙ ap (λ (ys : List ℕ). ys ++ bytes) i.stream;
    }
Sends-InOrder _ _ _ (writing count ret bytes written queued queue queue' e h) =
    let i = Sends-InOrder written queued queue h in
    let t = same-Takes count ret bytes queue queue' e i.ordered in
    record {
      ordered = t.ordered;
      stream =
          append_assoc written bytes (unsent queue')
          ∙ ap (λ (ys : List ℕ). written ++ ys) t.first
          ∙ i.stream;
    }
Sends-InOrder _ _ _ (refusing count ret bytes written queued queue queue' e h) =
    let i = Sends-InOrder written queued queue h in
    let t = same-Takes count ret bytes queue queue' e i.ordered in
    record {
      ordered = t.back_ordered;
      stream = ap (λ (ys : List ℕ). written ++ ys) t.back ∙ i.stream;
    }
Sends-InOrder _ _ _ (acknowledging fuel count written queued queue queue' few e h) =
    let i = Sends-InOrder written queued queue h in
    let (s, e', q, same) = acknowledge_queue-keeps fuel count queue i.ordered few in
    let one : s ≡ queue' = only (sym e' ∙ e) in
    record {
      ordered = subst IsQueue one q;
      stream =
          ap (λ (x : List SendBuf). written ++ unsent x) (sym one)
          ∙ ap (λ (ys : List ℕ). written ++ ys) same
          ∙ i.stream;
    }
  where
    only : {a b : List SendBuf} → some a ≡ some b → a ≡ b
    only e = cc

-- Whatever is queued, written, refused and acknowledged, in any order: what lwIP has taken, followed by what is left to
-- send, is what was queued. So the bytes reach lwIP in their order, none is lost, and none is sent twice. The condition is
-- that no buffer has 2^31 bytes and that lwIP acknowledges no more than it was sent.
pub bytes_in_order :
    (written queued : List ℕ) (queue : List SendBuf)
    → Sends written queued queue
    → written ++ unsent queue ≡ queued
bytes_in_order written queued queue h = (Sends-InOrder written queued queue h).stream
