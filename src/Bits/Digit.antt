-- ===== src/Bits/Digit.antt =====
-- One equation for the lowest binary digit of each native bit operation.
use Prim.Native.Nat.{digits, bitwise, differ, bit_and-bitwise, bit_or-bitwise, bit_xor-bitwise}
use picolibs.Base.{
  ℕ, zero, suc, ◌+◌, ◌*◌, ◌/◌, ◌%◌, ◌≤◌, ◌<◌, min, max, bit_and, bit_or, bit_xor, ◌≡◌, refl, ap,
  ◌∙◌, arith,
}

module _ (tail_of : ℕ → ℕ) (join : ℕ → ℕ → ℕ) where
  -- Fuel beyond the first operand changes nothing.
  fuel_irrelevant :
      (x y k l : ℕ) → x ≤ k → x ≤ l → digits tail_of join k x y ≡ digits tail_of join l x y
  fuel_irrelevant zero y zero zero p q = refl
  fuel_irrelevant zero y zero (suc l) p q = refl
  fuel_irrelevant zero y (suc k) zero p q = refl
  fuel_irrelevant zero y (suc k) (suc l) p q = refl
  fuel_irrelevant (suc x) y zero l p q = absurd (omega arith)
  fuel_irrelevant (suc x) y (suc k) zero p q = absurd (omega arith)
  fuel_irrelevant (suc x) y (suc k) (suc l) p q =
      rw (fuel_irrelevant (suc x / 2) (y / 2) k l (omega arith) (omega arith))

  digits-suc :
      (x y : ℕ)
      → digits tail_of join (suc x) (suc x) y
        ≡ digits tail_of join (suc x / 2) (suc x / 2) (y / 2) * 2 + join (suc x % 2) (y % 2)
  digits-suc x y =
      rw (fuel_irrelevant (suc x / 2) (y / 2) x (suc x / 2) (omega arith) (omega arith))

differ_digits : (x y : ℕ) → x < 2 → y < 2 → differ x y ≡ (x + y) % 2
differ_digits zero y p q = omega arith
differ_digits (suc zero) zero p q = refl
differ_digits (suc zero) (suc zero) p q = refl
differ_digits (suc zero) (suc (suc y)) p q = absurd (omega arith)
differ_digits (suc (suc x)) y p q = absurd (omega arith)

zero-bit_and : (y : ℕ) → bit_and 0 y ≡ 0
zero-bit_and y = bit_and-bitwise 0 y

pub zero-bit_or : (y : ℕ) → bit_or 0 y ≡ y
zero-bit_or y = bit_or-bitwise 0 y

pub zero-bit_xor : (y : ℕ) → bit_xor 0 y ≡ y
zero-bit_xor y = bit_xor-bitwise 0 y

pub and_digit : (x y : ℕ) → bit_and x y ≡ bit_and (x / 2) (y / 2) * 2 + min (x % 2) (y % 2)
and_digit zero y = omega (arith, zero-bit_and y, zero-bit_and (y / 2))
and_digit (suc x) y =
    rw (bit_and-bitwise (suc x) y, bit_and-bitwise (suc x / 2) (y / 2))
      (digits-suc (λ _. 0) min x y)

pub or_digit : (x y : ℕ) → bit_or x y ≡ bit_or (x / 2) (y / 2) * 2 + max (x % 2) (y % 2)
or_digit zero y = omega (arith, zero-bit_or y, zero-bit_or (y / 2))
or_digit (suc x) y =
    rw (bit_or-bitwise (suc x) y, bit_or-bitwise (suc x / 2) (y / 2)) (digits-suc (λ b. b) max x y)

pub xor_digit : (x y : ℕ) → bit_xor x y ≡ bit_xor (x / 2) (y / 2) * 2 + (x % 2 + y % 2) % 2
xor_digit zero y = omega (arith, zero-bit_xor y, zero-bit_xor (y / 2))
xor_digit (suc x) y =
    rw (bit_xor-bitwise (suc x) y, bit_xor-bitwise (suc x / 2) (y / 2))
      (digits-suc (λ b. b) differ x y
        ∙ ap (λ (t : ℕ). bitwise (λ b. b) differ (suc x / 2) (y / 2) * 2 + t)
            (differ_digits (suc x % 2) (y % 2) (omega arith) (omega arith)))
