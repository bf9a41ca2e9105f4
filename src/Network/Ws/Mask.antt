-- ===== src/Network/Ws/Mask.antt =====
-- The mask: the loop in place is a map over the payload, and undoes itself.
use picolibs.Base.{
  ℕ, suc, ◌+◌, ◌%◌, ◌<◌, ◌≡◌, refl, ap, ap₂, some, List, [], ◌∷◌, ◌++◌, append_assoc, bit_xor,
  arith, length, length-append, get_elem?-append_at, set-append_at,
}
use picolibs.Bits.{bit_xor_twice}
use picolibs.Network.Ws.{Key, xor_loop}

-- The payload under the mask, from the `i`th byte on.
abbrev pub mask_from : Key → ℕ → List ℕ → List ℕ
mask_from key i [] = []
mask_from key i (x ∷ xs) = bit_xor x (key (i % 4)) ∷ mask_from key (i + 1) xs

pub length-mask_from : (key : Key) (i : ℕ) (xs : List ℕ) → length (mask_from key i xs) ≡ length xs
length-mask_from key i [] = refl
length-mask_from key i (x ∷ xs) = ap suc (length-mask_from key (i + 1) xs)

-- Two masks that agree on the four bytes that are read.
pub mask_twice :
    (key key' : Key) (i : ℕ) (xs : List ℕ)
    → ((j : ℕ) → j < 4 → key' j ≡ key j)
    → mask_from key' i (mask_from key i xs) ≡ xs
mask_twice key key' i [] same = refl
mask_twice key key' i (x ∷ xs) same =
    ap₂ ◌∷◌ (rw (same (i % 4) (omega arith)) (bit_xor_twice x (key (i % 4))))
      (mask_twice key key' (i + 1) xs same)

-- The loop masks what lies between two parts of a packet and leaves these alone.
pub xor_loop_lem :
    (key : Key) (xs pre post : List ℕ) (i index : ℕ)
    → index + i ≡ length pre
    → xor_loop key (length xs) i index (pre ++ (xs ++ post))
      ≡ some (pre ++ (mask_from key i xs ++ post))
unfolding xor_loop
xor_loop_lem key [] pre post i index e = refl
xor_loop_lem key (x ∷ xs) pre post i index e =
    let v = bit_xor x (key (i % 4)) in
    rw
      (
        get_elem?-append_at pre x (xs ++ post) (index + i) e,
        set-append_at pre x (xs ++ post) (index + i) v e,
        xor_loop_lem key xs (pre ++ (v ∷ [])) post (i + 1) index
            (omega (arith, length-append pre (v ∷ []))),
        append_assoc pre (v ∷ []) (mask_from key (i + 1) xs ++ post),
      )
      refl
