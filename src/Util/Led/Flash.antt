-- ===== src/Util/Led/Flash.antt =====
-- The LED shows the bits of its pattern, one after the other and again from the first.
use picolibs.Base.{
  ℕ, zero, suc, ◌+◌, ◌/◌, ◌%◌, ◌^◌, ◌≤◌, ◌<◌, ◌≡◌, refl, sym, ap, ◌∙◌, inl, inr, Bool, true, false,
  not, Option, none, some, List, [], ◌∷◌, ◌++◌, arith, ltb, leb, ◌==◌, ◌||◌, Bool-cases,
  if◌then◌else◌, ◌>>=◌, bit_and,
}
use native.Mathlib.Nat.{mod-eq_of_lt, mod_self, mod-add-mod, mod-lt, le-div_iff_mul-le}
use picolibs.Alarm.{AlarmId, is_set}
use picolibs.Util.Led.{
  Led, set_led, check_flash, flash_mask, arm_flash, set_flash, show_bit, next_bit, do_timer,
}

-- The members of a LED that shows its pattern as long as its timer runs.
pub record Flashes (led : Led) : Type 0 where
  pub some_bits : 0 < led.flash_bits
  pub few_bits : led.flash_bits ≤ 32
  pub inside : led.flash_index < led.flash_bits
  pub slow : led.flash_bits ≤ led.flash_period

-- Whether a bit of the pattern is set.
unfoldable pub is_lit : ℕ → ℕ → Bool
is_lit pattern i = not (bit_and pattern (2 ^ i) == 0)

-- What is shown by so many calls of the timer, newest first.
unfoldable pub history : ℕ → ℕ → ℕ → ℕ → List Bool
history pattern bits start zero = []
history pattern bits start (suc n) =
    is_lit pattern ((start + n) % bits) ∷ history pattern bits start n

-- The calls of the timer, each of which asks for the next one.
unfoldable pub fires : ℕ → Led → Option Led
fires zero led = some led
fires (suc n) led = do
  led' ← fires n led
  (ret, led'') ← do_timer led'
  if ret == 0 then none else some led''

-- The step of the index is the next number modulo the number of bits.
next-mod : (i n : ℕ) → i < n → (if leb n (i + 1) then 0 else i + 1) ≡ (i + 1) % n
next-mod i n inside = elim (Bool-cases (leb n (i + 1))) [
  | inl e ↦ let last : i + 1 ≡ n = ground (arith, e, inside) in rw (e, last) (sym (mod_self n))
  | inr e ↦ let less : i + 1 < n = ground (arith, e) in rw e (sym (mod-eq_of_lt less))
]

waits : (led : Led) → Flashes led → (led.flash_period / led.flash_bits == 0) ≡ false
waits led f =
    let bits = f.some_bits in
    let slow = f.slow in
    let one : 1 ≤ led.flash_period / led.flash_bits =
      (le-div_iff_mul-le bits).1 (omega (arith, slow)) in
    ground (arith, one)

do_timer-Flashes :
    (led : Led)
    → Flashes led
    → do_timer led
      ≡ some (
        led.flash_period / led.flash_bits,
        record led {
          flash_index = (led.flash_index + 1) % led.flash_bits;
          shown = is_lit led.flash_pattern led.flash_index ∷ led.shown;
        },
      )
unfolding do_timer show_bit next_bit set_led is_lit
do_timer-Flashes led f =
    let bits = f.some_bits in
    let few = f.few_bits in
    let inside = f.inside in
    let slow = f.slow in
    let runs : ltb 0 led.flash_period ≡ true = ground (arith, bits, slow) in
    let some_bits : (led.flash_bits == 0) ≡ false = ground (arith, bits) in
    let small : ltb led.flash_index 32 ≡ true = ground (arith, inside, few) in
    rw
      (
        do_timer,
        runs,
        some_bits,
        show_bit,
        small,
        waits led f,
        next_bit,
        next-mod led.flash_index led.flash_bits inside,
      )
      refl

-- A LED has a pattern of up to 32 bits, and with a period of at least as many milliseconds. Each call of its timer
-- asks for the next one, and after any number of them it has shown the bits of its pattern in turn, from the one at its
-- index, and again from the first after the last.
pub fires_lem :
    (n : ℕ) (led : Led)
    → Flashes led
    → fires n led
      ≡ some (record led {
        flash_index = (led.flash_index + n) % led.flash_bits;
        shown = history led.flash_pattern led.flash_bits led.flash_index n ++ led.shown;
      })
unfolding fires history
fires_lem zero led f =
    let inside = f.inside in
    let same : (led.flash_index + 0) % led.flash_bits ≡ led.flash_index =
      ap (λ (i : ℕ). i % led.flash_bits) (omega arith) ∙ mod-eq_of_lt inside in
    rw same refl
fires_lem (suc n) led f =
    let bits = f.some_bits in
    let led' : Led = record led {
      flash_index = (led.flash_index + n) % led.flash_bits;
      shown = history led.flash_pattern led.flash_bits led.flash_index n ++ led.shown;
    } in
    let f' : Flashes led' = record {
      some_bits = f.some_bits;
      few_bits = f.few_bits;
      inside = mod-lt (led.flash_index + n) bits;
      slow = f.slow;
    } in
    let later : ((led.flash_index + n) % led.flash_bits + 1) % led.flash_bits
        ≡ (led.flash_index + suc n) % led.flash_bits =
      mod-add-mod (led.flash_index + n) led.flash_bits 1
      ∙ ap (λ (i : ℕ). i % led.flash_bits) (omega arith) in
    rw (fires, fires_lem n led f, do_timer-Flashes led' f', waits led' f', later) refl

flash_mask-bits : (bits mask : ℕ) → flash_mask bits ≡ some mask → (0 < bits) × (bits ≤ 32)
unfolding flash_mask
flash_mask-bits bits mask e = (ground arith, ground arith)

-- What `check_flash` answers to a pattern that is not constant.
check_flash-mixed :
    (led : Led) (mask : ℕ)
    → flash_mask led.flash_bits ≡ some mask
    → (bit_and led.flash_pattern mask == 0) ≡ false
    → (bit_and led.flash_pattern mask == mask) ≡ false
    → check_flash led ≡ some (true, led)
unfolding check_flash
check_flash-mixed led mask e off on = rw (check_flash, e, off, on) refl

-- What follows when `set_flash` has stored the period and has brought the index into the pattern.
check_flash-arms :
    (granted : AlarmId) (mask : ℕ) (led : Led)
    → flash_mask led.flash_bits ≡ some mask
    → (bit_and led.flash_pattern mask == 0) ≡ false
    → (bit_and led.flash_pattern mask == mask) ≡ false
    → led.flash_bits < led.flash_period
    → led.flash_index < led.flash_bits
    → (led' : Led) × ((check_flash led >>= λ (r : Bool × Led). some (arm_flash granted (r.0) (r.1)))
        ≡ some (true, led'))
      × Flashes led'
      × (led'.flash_period ≡ led.flash_period)
      × (led'.flasher ≡ (if is_set led.flasher then led.flasher else granted))
      × (is_set led'.flasher ≡ (is_set led.flasher || is_set granted))
      × (led'.shown ≡ led.shown)
unfolding arm_flash
check_flash-arms granted mask led m off on slow inside =
    let (bits, few) = flash_mask-bits led.flash_bits mask m in
    let runs : (led.flash_period == 0) ≡ false = ground (arith, slow) in
    let slow' : ltb led.flash_bits led.flash_period ≡ true = ground (arith, slow) in
    let checked = check_flash-mixed led mask m off on in
    let f : Flashes led = record {
      some_bits = bits;
      few_bits = few;
      inside = inside;
      slow = omega (arith, slow);
    } in
    elim (Bool-cases (is_set led.flasher)) [
      | inl e ↦
          (led, rw (checked, arm_flash, runs, slow', e) refl, f, refl, rw e refl, rw e refl, refl)
      | inr e ↦ (
        record led { flasher = granted },
        rw (checked, arm_flash, runs, slow', e) refl,
        record { some_bits = f.some_bits; few_bits = f.few_bits; inside = f.inside; slow = f.slow },
        refl,
        rw e refl,
        rw e refl,
        refl,
      )
    ]

-- `setFlash` with a pattern of 1 to 32 bits that are not all the same, and with a period of more milliseconds than bits,
-- answers true, shows nothing yet, and leaves the members as flashing with this period needs them. Its timer is the one
-- that it had; if it had none, it is what the SDK grants, and if that is none, too, no timer runs and the LED stays steady:
-- the answer is true even then.
pub set_flash-Flashes :
    (granted : AlarmId) (period mask : ℕ) (led : Led)
    → flash_mask led.flash_bits ≡ some mask
    → (bit_and led.flash_pattern mask == 0) ≡ false
    → (bit_and led.flash_pattern mask == mask) ≡ false
    → led.flash_bits < period
    → (led' : Led) × (set_flash granted period led ≡ some (true, led'))
      × Flashes led'
      × (led'.flash_period ≡ period)
      × (led'.flasher ≡ (if is_set led.flasher then led.flasher else granted))
      × (is_set led'.flasher ≡ (is_set led.flasher || is_set granted))
      × (led'.shown ≡ led.shown)
unfolding set_flash
set_flash-Flashes granted period mask led m off on slow =
    let (bits, few) = flash_mask-bits led.flash_bits mask m in
    elim (Bool-cases (leb led.flash_bits led.flash_index)) [
      | inl e ↦
          rw (set_flash, e)
            (check_flash-arms granted mask (record led { flash_period = period; flash_index = 0 }) m
              off on slow bits)
      | inr e ↦
          let less : led.flash_index < led.flash_bits = ground (arith, e) in
          rw (set_flash, e)
            (check_flash-arms granted mask (record led { flash_period = period }) m off on slow
              less)
    ]
