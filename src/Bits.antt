-- ===== src/Bits.antt =====
-- The bit operations at variables: masks of one bit and of a byte, and exclusive or on bytes.
mod Digit
pub mod Each
use native.Mathlib.Nat.{pow-suc, two-pow-succ}
use picolibs.Base.{ℕ, zero, suc, ◌+◌, ◌-◌, ◌*◌, ◌/◌, ◌%◌, ◌^◌, ◌≤◌, ◌<◌, bit_and, bit_or, bit_xor}
use picolibs.Base.{◌≡◌, refl, sym, ap, ◌∙◌, Bool, true, ◌&&◌, arith, ◌==◌, ==_iff}
use Digit.{and_digit, or_digit, xor_digit, zero-bit_or, zero-bit_xor}

-- Bit `j` of a number, by halving.
abbrev pub bit : ℕ → ℕ → ℕ
bit x zero = x % 2
bit x (suc j) = bit (x / 2) j

-- The number that the lowest `k` bits stand for, by halving.
abbrev pub low_bits : ℕ → ℕ → ℕ
low_bits zero x = 0
low_bits (suc k) x = x % 2 + 2 * low_bits k (x / 2)

pub bit-lt : (j x : ℕ) → bit x j < 2
bit-lt zero x = omega arith
bit-lt (suc j) x = bit-lt j (x / 2)

pub low_bits-lt : (k x : ℕ) → low_bits k x < 2 ^ k
low_bits-lt zero x = omega arith
low_bits-lt (suc k) x = omega (arith, low_bits-lt k (x / 2), pow-suc 2 k)

pub low_bits-eq : (k x : ℕ) → x < 2 ^ k → low_bits k x ≡ x
low_bits-eq zero x h = omega arith
low_bits-eq (suc k) x h = omega (arith, low_bits-eq k (x / 2) (omega (arith, pow-suc 2 k)))

-- Bit `k` is the next one behind the lowest `k`.
pub low_bits-suc : (k x : ℕ) → low_bits (suc k) x ≡ low_bits k x + bit x k * 2 ^ k
low_bits-suc zero x = omega arith
low_bits-suc (suc k) x =
    omega (arith, low_bits-suc k (x / 2), ap (λ (t : ℕ). bit (x / 2) k * t) (pow-suc 2 k))

bit_and-zero_fuel : (n x : ℕ) → x ≤ n → bit_and x 0 ≡ 0
bit_and-zero_fuel n zero h = refl
bit_and-zero_fuel zero (suc x) h = absurd (omega arith)
bit_and-zero_fuel (suc n) (suc x) h =
    omega (arith, and_digit (suc x) 0, bit_and-zero_fuel n (suc x / 2) (omega arith))

pub bit_and-zero : (x : ℕ) → bit_and x 0 ≡ 0
bit_and-zero x = bit_and-zero_fuel x x (omega arith)

bit_or-zero_fuel : (n x : ℕ) → x ≤ n → bit_or x 0 ≡ x
bit_or-zero_fuel n zero h = refl
bit_or-zero_fuel zero (suc x) h = absurd (omega arith)
bit_or-zero_fuel (suc n) (suc x) h =
    omega (arith, or_digit (suc x) 0, bit_or-zero_fuel n (suc x / 2) (omega arith))

pub bit_or-zero : (x : ℕ) → bit_or x 0 ≡ x
bit_or-zero x = bit_or-zero_fuel x x (omega arith)

pub bit_and-one : (x : ℕ) → bit_and x 1 ≡ x % 2
bit_and-one x = omega (arith, and_digit x 1, bit_and-zero (x / 2))

halve_double : (m : ℕ) → (m + m) / 2 ≡ m
halve_double m = omega arith

bit_and-double : (x m : ℕ) → bit_and x (m + m) ≡ bit_and (x / 2) m * 2
bit_and-double x m = omega (arith, and_digit x (m + m), ap (bit_and (x / 2)) (halve_double m))

bit_or-double : (x m : ℕ) → bit_or x (m + m) ≡ bit_or (x / 2) m * 2 + x % 2
bit_or-double x m = omega (arith, or_digit x (m + m), ap (bit_or (x / 2)) (halve_double m))

-- A mask of one bit tests that bit.
pub bit_and-pow : (j x : ℕ) → bit_and x (2 ^ j) ≡ bit x j * 2 ^ j
bit_and-pow zero x = omega (arith, bit_and-one x)
bit_and-pow (suc j) x =
    rw (two-pow-succ j) (omega (arith, bit_and-double x (2 ^ j), bit_and-pow j (x / 2)))

-- Setting a bit above all others adds its weight.
pub bit_or-pow : (j r : ℕ) → r < 2 ^ j → bit_or r (2 ^ j) ≡ r + 2 ^ j
bit_or-pow zero zero h = refl
bit_or-pow zero (suc r) h = absurd (omega arith)
bit_or-pow (suc j) r h = rw (two-pow-succ j) (
    omega (
      arith,
      bit_or-double r (2 ^ j),
      two-pow-succ j,
      bit_or-pow j (r / 2) (omega (arith, two-pow-succ j)),
    ))

-- A mask of ones that is twice as wide.
bit_and-wider : (x m : ℕ) → bit_and x (m + m + 1) ≡ bit_and (x / 2) m * 2 + x % 2
bit_and-wider x m =
    let half : (m + m + 1) / 2 ≡ m = omega arith in
    omega (arith, and_digit x (m + m + 1), ap (bit_and (x / 2)) half)

bit_and_two_bits : (x : ℕ) → bit_and x 3 ≡ x % 4
bit_and_two_bits x = omega (arith, bit_and-wider x 1, bit_and-one (x / 2))

bit_and_three_bits : (x : ℕ) → bit_and x 7 ≡ x % 8
bit_and_three_bits x = omega (arith, bit_and-wider x 3, bit_and_two_bits (x / 2))

bit_and_four_bits : (x : ℕ) → bit_and x 15 ≡ x % 16
bit_and_four_bits x = omega (arith, bit_and-wider x 7, bit_and_three_bits (x / 2))

bit_and_five_bits : (x : ℕ) → bit_and x 31 ≡ x % 32
bit_and_five_bits x = omega (arith, bit_and-wider x 15, bit_and_four_bits (x / 2))

bit_and_six_bits : (x : ℕ) → bit_and x 63 ≡ x % 64
bit_and_six_bits x = omega (arith, bit_and-wider x 31, bit_and_five_bits (x / 2))

bit_and_seven_bits : (x : ℕ) → bit_and x 127 ≡ x % 128
bit_and_seven_bits x = omega (arith, bit_and-wider x 63, bit_and_six_bits (x / 2))

-- The mask `0xff` takes a remainder.
pub bit_and_byte : (x : ℕ) → bit_and x 255 ≡ x % 256
bit_and_byte x = omega (arith, bit_and-wider x 127, bit_and_seven_bits (x / 2))

bit_xor-halves : (x y : ℕ) → bit_xor x y / 2 ≡ bit_xor (x / 2) (y / 2)
bit_xor-halves x y = omega (arith, xor_digit x y)

bit_xor_cancel_fuel : (n x y : ℕ) → x ≤ n → bit_xor x (bit_xor x y) ≡ y
bit_xor_cancel_fuel n zero y h = zero-bit_xor _ ∙ zero-bit_xor y
bit_xor_cancel_fuel zero (suc x) y h = absurd (omega arith)
bit_xor_cancel_fuel (suc n) (suc x) y h = omega (
  arith,
  xor_digit (suc x) (bit_xor (suc x) y),
  xor_digit (suc x) y,
  ap (bit_xor (suc x / 2)) (bit_xor-halves (suc x) y),
  bit_xor_cancel_fuel n (suc x / 2) (y / 2) (omega arith),
)

pub bit_xor_cancel : (x y : ℕ) → bit_xor x (bit_xor x y) ≡ y
bit_xor_cancel x y = bit_xor_cancel_fuel x x y (omega arith)

bit_xor-zero_fuel : (n x : ℕ) → x ≤ n → bit_xor x 0 ≡ x
bit_xor-zero_fuel n zero h = refl
bit_xor-zero_fuel zero (suc x) h = absurd (omega arith)
bit_xor-zero_fuel (suc n) (suc x) h =
    omega (arith, xor_digit (suc x) 0, bit_xor-zero_fuel n (suc x / 2) (omega arith))

bit_xor_comm_fuel : (n x y : ℕ) → x ≤ n → bit_xor x y ≡ bit_xor y x
bit_xor_comm_fuel n zero y h = omega (arith, zero-bit_xor y, bit_xor-zero_fuel y y (omega arith))
bit_xor_comm_fuel zero (suc x) y h = absurd (omega arith)
bit_xor_comm_fuel (suc n) (suc x) y h = omega (
  arith,
  xor_digit (suc x) y,
  xor_digit y (suc x),
  bit_xor_comm_fuel n (suc x / 2) (y / 2) (omega arith),
)

-- A mask that is applied twice is gone.
pub bit_xor_twice : (x k : ℕ) → bit_xor (bit_xor x k) k ≡ x
bit_xor_twice x k =
    bit_xor_comm_fuel (bit_xor x k) (bit_xor x k) k (omega arith)
    ∙ ap (bit_xor k) (bit_xor_comm_fuel x x k (omega arith))
    ∙ bit_xor_cancel k x

-- The number whose `k` lowest bits are set.
abbrev pub ones : ℕ → ℕ
ones zero = 0
ones (suc k) = ones k + ones k + 1

bit_xor-wider : (x m : ℕ) → bit_xor x (m + m + 1) ≡ bit_xor (x / 2) m * 2 + (x % 2 + 1) % 2
bit_xor-wider x m =
    let half : (m + m + 1) / 2 ≡ m = omega arith in
    omega (arith, xor_digit x (m + m + 1), ap (bit_xor (x / 2)) half)

bit_xor-ones : (k x : ℕ) → x ≤ ones k → bit_xor x (ones k) ≡ ones k - x
bit_xor-ones zero zero h = refl
bit_xor-ones zero (suc x) h = absurd (omega arith)
bit_xor-ones (suc k) x h =
    omega (arith, bit_xor-wider x (ones k), bit_xor-ones k (x / 2) (omega arith))

pub bit_xor_ff : (x : ℕ) → x < 256 → bit_xor x 255 ≡ 255 - x
bit_xor_ff x h = bit_xor-ones 8 x (omega arith)

xor_ff_left : (x y : ℕ) → x < 256 → bit_xor x y ≡ 255 → x + y ≡ 255
xor_ff_left x y h e = omega (arith, sym (bit_xor_cancel x y), ap (bit_xor x) e, bit_xor_ff x h)

xor_ff_right : (x y : ℕ) → x < 256 → x + y ≡ 255 → bit_xor x y ≡ 255
xor_ff_right x y h e =
    let other : y ≡ bit_xor x 255 = omega (arith, bit_xor_ff x h) in rw other (bit_xor_cancel x 255)

-- Two bytes have exclusive or `0xff` exactly when they add up to it.
pub xor_ff_test : (x y : ℕ) → x < 256 → (bit_xor x y == 255) ≡ (x + y == 255)
xor_ff_test x y h = ground (arith, xor_ff_left x y h, xor_ff_right x y h)

bit_or-even : (x d : ℕ) → bit_or (x + x) d ≡ bit_or x (d / 2) * 2 + d % 2
bit_or-even x d =
    omega (arith, or_digit (x + x) d, ap (λ (y : ℕ). bit_or y (d / 2)) (halve_double x))

-- The digit of base 16 behind a number.
pub bit_or_nibble : (m d : ℕ) → d < 16 → bit_or (m * 16) d ≡ m * 16 + d
bit_or_nibble m d h =
    let e : m * 16 ≡ m * 8 + m * 8 = omega arith in
    let e8 : m * 8 ≡ m * 4 + m * 4 = omega arith in
    let e4 : m * 4 ≡ m * 2 + m * 2 = omega arith in
    let e2 : m * 2 ≡ m + m = omega arith in
    let none_left : d / 2 / 2 / 2 / 2 ≡ 0 = omega (arith, h) in
    omega (
      arith,
      ap (λ (y : ℕ). bit_or y d) e,
      bit_or-even (m * 8) d,
      ap (λ (y : ℕ). bit_or y (d / 2)) e8,
      bit_or-even (m * 4) (d / 2),
      ap (λ (y : ℕ). bit_or y (d / 2 / 2)) e4,
      bit_or-even (m * 2) (d / 2 / 2),
      ap (λ (y : ℕ). bit_or y (d / 2 / 2 / 2)) e2,
      bit_or-even m (d / 2 / 2 / 2),
      ap (bit_or m) none_left,
      bit_or-zero m,
    )
