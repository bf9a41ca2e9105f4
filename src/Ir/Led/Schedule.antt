-- ===== src/Ir/Led/Schedule.antt =====
-- What a transmission puts out: each call of `set_next` switches the carrier and gives the time
-- until the next one.
use picolibs.Base.{
  ℕ, zero, suc, ◌+◌, ◌-◌, ◌*◌, ◌%◌, ◌^◌, ◌<◌, ◌≡◌, ◌≢◌, refl, ap, subst, ◌∙◌, Bool, true, false,
  not, none, some, List, [], ◌∷◌, ◌++◌, arith, ltb, lt→ltb, ◌==◌, if◌then◌else◌, bit_and, get_elem?,
  length, drop, max, sub32, u32,
}
use native.Mathlib.Numerals.{add-one}
use picolibs.Bits.{bit_and-one}
use picolibs.Alarm.{AlarmId}
use picolibs.Ir.Led.{Led, stop, subtract_times, pause, set_next, transmit}

-- Calls of `set_next` that ask to be called again, with the carrier and the time of each.
pub data Emits : Led → List (Bool × ℕ) → Led → Type 0 where
  rest : (l : Led) → Emits l [] l
  next :
      (l l1 l2 : Led) (t : ℕ) (outs : List (Bool × ℕ))
      → t ≢ 0
      → set_next l ≡ (t, l1)
      → Emits l1 outs l2
      → Emits l ((l1.carrier, t) ∷ outs) l2

pub Emits-append :
    {l m k : Led} {xs : List (Bool × ℕ)} (ys : List (Bool × ℕ))
    → Emits l xs m
    → Emits m ys k
    → Emits l (xs ++ ys) k
Emits-append ys (rest l) e = e
Emits-append ys (next l l1 l2 t outs h s d) e = next l l1 _ t (outs ++ ys) h s (Emits-append ys d e)

-- The times of a message, the carrier on and off in turn.
abbrev pub marks : Bool → List ℕ → List (Bool × ℕ)
marks on [] = []
marks on (t ∷ ts) = (on, t) ∷ marks (not on) ts

abbrev pub sum : List ℕ → ℕ
sum [] = 0
sum (t ∷ ts) = t + sum ts

-- The pause that fills an interval, but for `cut` microseconds, and is 1 at least.
abbrev pub fill : ℕ → List ℕ → ℕ → ℕ
fill interval ts cut = max 1 (interval * 1000 - sum ts - cut)

-- What follows the times of a message that is repeated `k` times: a pause, and for each repetition one
-- microsecond, the message again and its pause.
abbrev pub ending : ℕ → List ℕ → ℕ → List (Bool × ℕ)
ending interval ts zero = (false, fill interval ts 0) ∷ []
ending interval ts (suc k) =
    (false, fill interval ts 1) ∷ (false, 1) ∷ (marks true ts ++ ending interval ts k)

abbrev pub AllPositive : List ℕ → Type 0
AllPositive [] = Unit
AllPositive (t ∷ ts) = (0 < t) × AllPositive ts

abbrev pub at : Led → ℕ → Bool → Led
at l i on = record l { out_index = i; carrier = on }

drop-cons_suc :
    (xs : List ℕ) (i y : ℕ) (ys : List ℕ)
    → drop i xs ≡ y ∷ ys
    → (get_elem? xs i ≡ some y) × (drop (suc i) xs ≡ ys)
drop-cons_suc [] zero y ys e = absurd (cc)
drop-cons_suc [] (suc i) y ys e = absurd (cc)
drop-cons_suc (x ∷ xs) zero y ys e = ground arith
drop-cons_suc (x ∷ xs) (suc i) y ys e = drop-cons_suc xs i y ys e

drop-cons :
    (xs : List ℕ) (i y : ℕ) (ys : List ℕ)
    → drop i xs ≡ y ∷ ys
    → (get_elem? xs i ≡ some y) × (drop (i + 1) xs ≡ ys)
drop-cons xs i y ys e = rw (add-one i) (drop-cons_suc xs i y ys e)

set_next_time :
    (l : Led) (i t : ℕ) (on : Bool)
    → i < l.n_times
    → get_elem? l.times i ≡ some t
    → 0 < t
    → set_next (at l i on) ≡ (t, at l (i + 1) (bit_and i 1 == 0))
unfolding set_next
set_next_time l i t on h read pos =
    let more : ltb i l.n_times ≡ true = ground arith in
    let go_on : (t == 0) ≡ false = ground arith in rw (more, read, go_on)

set_next-pause :
    (l : Led) (on : Bool) → set_next (at l l.n_times on) ≡ (pause l, at l (l.n_times + 1) false)
unfolding set_next pause
set_next-pause l on = ground arith

set_next_again :
    (l : Led) (k : ℕ) (on : Bool)
    → l.repeats ≡ suc k
    → set_next (at l (l.n_times + 1) on)
      ≡ (1, record l { repeats = k; out_index = 0; carrier = false })
unfolding set_next
set_next_again l k on e = ground arith

set_next_end :
    (l : Led) (on : Bool)
    → l.repeats ≡ 0
    → set_next (at l (l.n_times + 1) on) ≡ (
      0,
      record l {
        timer = none;
        out_index = l.n_times + 1;
        carrier = false;
        done_calls = l.done_calls + 1;
      },
    )
unfolding set_next
set_next_end l on e = ground arith

Emits-marks :
    (qs junk : List ℕ) (l : Led) (i : ℕ) (on b : Bool)
    → i + length qs ≡ l.n_times
    → drop i l.times ≡ qs ++ junk
    → AllPositive qs
    → (bit_and i 1 == 0) ≡ b
    → (c : Bool) × Emits (at l i on) (marks b qs) (at l l.n_times c)
Emits-marks [] junk l i on b e held pos parity =
    let same : i ≡ l.n_times = omega arith in (on, rw same (rest _))
Emits-marks (q ∷ qs) junk l i on b e held pos parity =
    let (read, behind) = drop-cons l.times i q (qs ++ junk) held in
    let turned : (bit_and (i + 1) 1 == 0) ≡ not b =
      ground (arith, parity, bit_and-one i, bit_and-one (i + 1)) in
    let (c, later) = Emits-marks qs junk l (i + 1) b (not b) (omega arith) behind pos.1 turned in
    let first = set_next_time l i q on (omega arith) read pos.0 in
    (c, next _ (at l (i + 1) b) _ q _ (omega (arith, pos.0)) (rw parity at first) later)

subtract_times_lem :
    (qs junk : List ℕ) (n left : ℕ)
    → n ≡ length qs
    → left < 2 ^ 32
    → sum qs < 2 ^ 31
    → subtract_times n (qs ++ junk) left ≡ (left + 2 ^ 32 - sum qs) % 2 ^ 32
unfolding subtract_times
subtract_times_lem [] junk zero left e h small = omega (arith, h)
subtract_times_lem [] junk (suc n) left e h small = absurd (omega arith)
subtract_times_lem (q ∷ qs) junk zero left e h small = absurd (omega arith)
subtract_times_lem (q ∷ qs) junk (suc n) left e h small = omega (
  arith,
  h,
  small,
  subtract_times_lem qs junk n (sub32 left q) (omega (arith, e)) (omega arith)
      (omega (arith, small)),
)

pause_lem :
    (l : Led) (qs junk : List ℕ)
    → l.n_times ≡ length qs
    → l.times ≡ qs ++ junk
    → l.repeat_interval * 1000 < 2 ^ 31
    → sum qs < 2 ^ 31
    → pause l ≡ fill l.repeat_interval qs (if ltb 0 l.repeats then 1 else 0)
unfolding pause
pause_lem l qs junk e held interval small =
    let whole : subtract_times l.n_times l.times (u32 (l.repeat_interval * 1000))
        ≡ (u32 (l.repeat_interval * 1000) + 2 ^ 32 - sum qs) % 2 ^ 32 =
      rw held (subtract_times_lem qs junk _ _ e (omega arith) small) in
    rw whole (ground (arith, interval, small))

-- Where the calls of `set_next` end.
abbrev pub last : Led → Led
last l = record l { repeats = 0; out_index = l.n_times + 1; carrier = false }

-- The pause behind the last time.
set_next_filled :
    (l : Led) (qs junk : List ℕ) (on : Bool) (cut : ℕ)
    → l.n_times ≡ length qs
    → l.times ≡ qs ++ junk
    → l.repeat_interval * 1000 < 2 ^ 31
    → sum qs < 2 ^ 31
    → (if ltb 0 l.repeats then 1 else 0) ≡ cut
    → set_next (at l l.n_times on) ≡ (fill l.repeat_interval qs cut, at l (l.n_times + 1) false)
set_next_filled l qs junk on cut e held interval small same =
    set_next-pause l on
    ∙ ap (λ (v : ℕ). (v, at l (l.n_times + 1) false))
        (pause_lem l qs junk e held interval small ∙ ap (fill l.repeat_interval qs) same)

Emits-ending :
    (k : ℕ) (qs junk : List ℕ) (l : Led) (on : Bool)
    → l.n_times ≡ length qs
    → l.times ≡ qs ++ junk
    → l.repeat_interval * 1000 < 2 ^ 31
    → sum qs < 2 ^ 31
    → AllPositive qs
    → l.repeats ≡ k
    → Emits (at l l.n_times on) (ending l.repeat_interval qs k) (last l)
Emits-ending zero qs junk l on e held interval small pos none_left =
    let same : at l (l.n_times + 1) false ≡ last l = ground arith in
    next _ (at l (l.n_times + 1) false) _ _ [] (omega arith)
      (set_next_filled l qs junk on 0 e held interval small (ground arith))
      (subst (Emits (at l (l.n_times + 1) false) []) same (rest _))
Emits-ending (suc k) qs junk l on e held interval small pos left =
    let l' = record l { repeats = k } in
    let (c, again) = Emits-marks qs junk l' 0 false true (omega arith) held pos refl in
    let later = Emits-append _ again (Emits-ending k qs junk l' c e held interval small pos refl) in
    next _ (at l (l.n_times + 1) false) _ _ _ (omega arith)
      (set_next_filled l qs junk on 1 e held interval small (ground arith))
      (next _ (at l' 0 false) _ 1 _ (omega arith) (set_next_again l k false left) later)

-- A transmission of positive times, of which there is one at least, for which the SDK grants an
-- alarm, where the times add up to less than 2 ^ 31 microseconds and so does the repeat interval:
-- the carrier is on for the first time, then off and on in turn; the message is followed by a pause
-- up to the repeat interval, of one microsecond at least, and is repeated as often as the protocol
-- asks. The calls end with the carrier off, no alarm, and one more call of the done callback.
pub transmit-Emits :
    (l : Led) (q : ℕ) (qs junk : List ℕ) (alarm : ℕ → AlarmId) (id : ℕ)
    → l.n_times ≡ length (q ∷ qs)
    → l.times ≡ (q ∷ qs) ++ junk
    → l.repeat_interval * 1000 < 2 ^ 31
    → sum (q ∷ qs) < 2 ^ 31
    → AllPositive (q ∷ qs)
    → alarm q ≡ some id
    → 0 < id
    → (l1 l2 : Led) × (transmit alarm l ≡ (true, l1))
      × (l1.carrier ≡ true)
      × Emits l1 (marks false qs ++ ending l.repeat_interval (q ∷ qs) l.minimum_repeats) l2
      × ((set_next l2).0 ≡ 0)
      × ((set_next l2).1.timer ≡ none)
      × ((set_next l2).1.carrier ≡ false)
      × ((set_next l2).1.done_calls ≡ l.done_calls + 1)
unfolding transmit
transmit-Emits l q qs junk alarm id e held interval small pos granted valid =
    let l0 = record (stop l) { repeats = l.minimum_repeats; timer = some id } in
    let (c, first) =
      Emits-marks qs junk l0 1 true false (omega arith) (ap (drop 1) held) pos.1 refl in
    let whole =
      Emits-append _ first
        (Emits-ending l.minimum_repeats (q ∷ qs) junk l0 c e held interval small pos refl) in
    let ended = set_next_end (record l0 { repeats = 0 }) false refl in
    (
      at l0 1 true,
      last l0,
      rw (
        some_time,
        set_next_time (record (stop l) { repeats = l.minimum_repeats }) 0 q false (omega (arith, e))
            (rw held) pos.0,
        granted,
        lt→ltb 0 id valid,
      ),
      refl,
      whole,
      ap (λ (x : ℕ × Led). x.0) ended,
      ap (λ (x : ℕ × Led). x.1.timer) ended,
      ap (λ (x : ℕ × Led). x.1.carrier) ended,
      ap (λ (x : ℕ × Led). x.1.done_calls) ended,
    )
  where
    some_time : ltb 0 l.n_times ≡ true
    some_time = ground (arith, e)

-- If the SDK grants no alarm, a transmission of positive times reports its failure and leaves the
-- carrier on, with no alarm that would switch it off.
pub transmit_refused :
    (l : Led) (q : ℕ) (qs junk : List ℕ) (alarm : ℕ → AlarmId)
    → l.n_times ≡ length (q ∷ qs)
    → l.times ≡ (q ∷ qs) ++ junk
    → 0 < q
    → alarm q ≡ none
    → ((transmit alarm l).0 ≡ false)
      × ((transmit alarm l).1.carrier ≡ true)
      × ((transmit alarm l).1.timer ≡ none)
unfolding transmit
transmit_refused l q qs junk alarm e held pos refused =
    let some_time : ltb 0 l.n_times ≡ true = ground (arith, e) in
    let first =
      set_next_time (record (stop l) { repeats = l.minimum_repeats }) 0 q false (omega (arith, e))
        (rw held) pos in
    rw (some_time, first, refused) (refl, refl, refl)
