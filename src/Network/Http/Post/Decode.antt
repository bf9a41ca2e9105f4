-- ===== src/Network/Http/Post/Decode.antt =====
-- URI decoding: it gives an encoded text back, and it is never longer than what it decodes.
use picolibs.Base.{
  ℕ, zero, suc, ◌+◌, ◌*◌, ◌/◌, ◌%◌, ◌<◌, ◌≤◌, ◌≡◌, refl, ap, ◌∙◌, Bool, true, false, Option, some,
  List, [], ◌∷◌, arith, ltb, ◌==◌, if◌then◌else◌, length, Bool-cases, inl, inr,
}
use picolibs.Network.Http.Post.{decode_step, decode_loop, uri_decode}

-- The digits of `%x`.
abbrev pub hex_digit : ℕ → ℕ
hex_digit d = if ltb d 10 then 48 + d else 55 + d

-- The reference encoding: each byte as a per cent sign and two digits, or as it is where that is safe.
abbrev pub encode : (ℕ → Bool) → List ℕ → List ℕ
encode safe [] = []
encode safe (x ∷ xs) =
    let rest = encode safe xs in
    if x == 32
    then 43 ∷ rest
    else if safe x
    then x ∷ rest
    else 37 ∷ hex_digit (x / 16) ∷ hex_digit (x % 16) ∷ rest

abbrev pub AllBytes : List ℕ → Type 0
AllBytes [] = Unit
AllBytes (x ∷ xs) = (x < 256) × AllBytes xs

module _ (sscanf_x : List ℕ → Option ℕ) (unset : ℕ) where
  decode_loop-length :
      (ii skip : ℕ) (xs : List ℕ) → length (decode_loop sscanf_x unset ii skip xs) ≤ length xs
  unfolding decode_loop
  decode_loop-length ii skip [] = omega arith
  decode_loop-length ii (suc skip) (x ∷ xs) = omega (arith, decode_loop-length ii skip xs)
  decode_loop-length ii zero (x ∷ xs) =
      let (ch, ii', skip) = decode_step sscanf_x unset ii x xs in
      omega (arith, decode_loop-length ii' skip xs)

  pub length-uri_decode : (xs : List ℕ) → length (uri_decode sscanf_x unset xs) ≤ length xs
  unfolding uri_decode
  length-uri_decode xs = decode_loop-length unset 0 xs

  -- What a character of each kind decodes to.
  decode-other :
      (ii x : ℕ) (xs : List ℕ)
      → (x == 37) ≡ false
      → (x == 43) ≡ false
      → decode_loop sscanf_x unset ii 0 (x ∷ xs) ≡ x ∷ decode_loop sscanf_x unset ii 0 xs
  unfolding decode_loop decode_step
  decode-other ii x xs a b = rw (a, b) refl

  decode-plus :
      (ii : ℕ) (xs : List ℕ)
      → decode_loop sscanf_x unset ii 0 (43 ∷ xs) ≡ 32 ∷ decode_loop sscanf_x unset ii 0 xs
  unfolding decode_loop decode_step
  decode-plus ii xs = refl

  decode-percent :
      (ii a b v : ℕ) (xs : List ℕ)
      → sscanf_x (a ∷ b ∷ []) ≡ some v
      → decode_loop sscanf_x unset ii 0 (37 ∷ a ∷ b ∷ xs)
        ≡ v % 256 ∷ decode_loop sscanf_x unset v 0 xs
  unfolding decode_loop decode_step
  decode-percent ii a b v xs e = rw e refl

  -- What the safe characters and the digits must be.
  module _ (safe : ℕ → Bool)
      (plain : (x : ℕ) → safe x ≡ true → ((x == 37) ≡ false) × ((x == 43) ≡ false))
      (reads : (d e : ℕ)
        → d < 16
        → e < 16
        → sscanf_x (hex_digit d ∷ hex_digit e ∷ []) ≡ some (16 * d + e)) where
    decode_loop-encode :
        (ii : ℕ) (xs : List ℕ) → AllBytes xs → decode_loop sscanf_x unset ii 0 (encode safe xs) ≡ xs
    unfolding decode_loop
    decode_loop-encode ii [] h = refl
    decode_loop-encode ii (x ∷ xs) (byte, h) = elim (Bool-cases (x == 32)) [
      | inl space ↦
          let same : 32 ≡ x = ground (arith, space) in
          rw space (
            decode-plus ii (encode safe xs)
            ∙ ap (◌∷◌ 32) (decode_loop-encode ii xs h)
            ∙ ap (λ (y : ℕ). y ∷ xs) same)
      | inr solid ↦ elim (Bool-cases (safe x)) [
        | inl kept ↦
            let (a, b) = plain x kept in
            rw (solid, kept)
              (decode-other ii x (encode safe xs) a b ∙ ap (◌∷◌ x) (decode_loop-encode ii xs h))
        | inr coded ↦
            let v = 16 * (x / 16) + x % 16 in
            let same : v % 256 ≡ x = omega arith in
            rw (solid, coded)
              (decode-percent ii (hex_digit (x / 16)) (hex_digit (x % 16)) v (encode safe xs)
                  (reads (x / 16) (x % 16) (omega arith) (omega arith))
                ∙ ap (◌∷◌ (v % 256)) (decode_loop-encode v xs h)
                ∙ ap (λ (y : ℕ). y ∷ xs) same)
      ]
    ]

    -- Decoding gives the bytes of an encoded text back, where `sscanf` reads two upper case digits as their number and the
    -- characters that are not encoded are neither per cent nor plus signs.
    pub uri_decode-encode :
        (xs : List ℕ) → AllBytes xs → uri_decode sscanf_x unset (encode safe xs) ≡ xs
    unfolding uri_decode
    uri_decode-encode xs h = decode_loop-encode unset xs h
