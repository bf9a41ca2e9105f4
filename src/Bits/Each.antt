-- ===== src/Bits/Each.antt =====
-- Each bit of what the native bit operations make.
use picolibs.Base.{
  ℕ, zero, suc, ◌+◌, ◌-◌, ◌/◌, ◌<◌, ◌≡◌, ap, ◌∙◌, arith, min, max, bit_and, bit_or, bit_xor,
}
use picolibs.Bits.{bit, ones}
use picolibs.Bits.Digit.{and_digit, or_digit, xor_digit}

pub bit-bit_and : (j x y : ℕ) → bit (bit_and x y) j ≡ min (bit x j) (bit y j)
bit-bit_and zero x y = ground (arith, and_digit x y)
bit-bit_and (suc j) x y =
    let half : bit_and x y / 2 ≡ bit_and (x / 2) (y / 2) = ground (arith, and_digit x y) in
    ap (λ (n : ℕ). bit n j) half ∙ bit-bit_and j (x / 2) (y / 2)

pub bit-bit_or : (j x y : ℕ) → bit (bit_or x y) j ≡ max (bit x j) (bit y j)
bit-bit_or zero x y = ground (arith, or_digit x y)
bit-bit_or (suc j) x y =
    let half : bit_or x y / 2 ≡ bit_or (x / 2) (y / 2) = ground (arith, or_digit x y) in
    ap (λ (n : ℕ). bit n j) half ∙ bit-bit_or j (x / 2) (y / 2)

-- Exclusive or with the number whose `k` lowest bits are set turns these bits over.
pub bit-bit_xor-ones : (j k x : ℕ) → j < k → bit (bit_xor x (ones k)) j ≡ 1 - bit x j
bit-bit_xor-ones j zero x h = absurd (omega arith)
bit-bit_xor-ones zero (suc k) x h = omega (arith, xor_digit x (ones k + ones k + 1))
bit-bit_xor-ones (suc j) (suc k) x h =
    let below : (ones k + ones k + 1) / 2 ≡ ones k = omega arith in
    let half : bit_xor x (ones k + ones k + 1) / 2 ≡ bit_xor (x / 2) (ones k) =
      omega (arith, xor_digit x (ones k + ones k + 1), ap (λ (n : ℕ). bit_xor (x / 2) n) below) in
    ap (λ (n : ℕ). bit n j) half ∙ bit-bit_xor-ones j k (x / 2) (omega arith)
