-- ===== src/Network/Http/Post/Round.antt =====
-- One round over a body of fields: a field is decoded over itself, and the loop goes on behind it.
use picolibs.Base.{
  ℕ, suc, ◌+◌, ◌<◌, ◌≤◌, ◌≡◌, refl, sym, ap, ◌∙◌, Bool, true, false, Option, some, List, [], ◌∷◌,
  ◌++◌, append_assoc, arith, ltb, length, length-append, take, take-append_eq,
}
use picolibs.Util.Memory.{write}
use picolibs.Util.Memory.Laws.{split_at, write-append, store-append}
use picolibs.Util.Text.Find.{Without}
use picolibs.Network.Http.{PostData, insert_entry}
use picolibs.Network.Http.Post.{take_value, urlencoded, uri_decode, decode_loop}
use picolibs.Network.Http.Multipart.{scan_to, span}
use picolibs.Network.Http.Post.Decode.{length-uri_decode}
use picolibs.Network.Http.Post.Fields.{scan_to-hit, span-append, PointsTo}

module _ (sscanf_x : List ℕ → Option ℕ) (unset : ℕ) where
  take_value-write :
      (memory memory' value raw : List ℕ) (last cp : ℕ)
      → cp + 1 < last
      → span (cp + 1) last memory ≡ raw
      → scan_to 38 raw ≡ length value
      → take (length value) raw ≡ value
      → write memory (cp + 1) (uri_decode sscanf_x unset value ++ (0 ∷ [])) ≡ some memory'
      → take_value sscanf_x unset last cp memory ≡ some (memory', cp + 1, cp + 1 + length value + 1)
  unfolding take_value
  take_value-write memory memory' value raw last cp more raw_is stop whole wrote =
      let inside : ltb (cp + 1) last ≡ true = ground arith in
      rw (take_value, inside, raw_is, stop, whole, wrote) refl

  -- The value is decoded over itself.
  value_lem :
      (pre value raw back : List ℕ) (s last cp : ℕ)
      → cp + 1 ≡ length pre
      → cp + 1 < last
      → span (cp + 1) last (pre ++ (value ++ (s ∷ back))) ≡ raw
      → scan_to 38 raw ≡ length value
      → take (length value) raw ≡ value
      → (left : List ℕ) × (take_value sscanf_x unset last cp (pre ++ (value ++ (s ∷ back)))
          ≡ some (
            pre ++ ((uri_decode sscanf_x unset value ++ (0 ∷ left)) ++ back),
            cp + 1,
            cp + 1 + length value + 1,
          ))
        × (length (uri_decode sscanf_x unset value ++ (0 ∷ left)) ≡ length value + 1)
  value_lem pre value raw back s last cp start more raw_is stop whole =
      let text = uri_decode sscanf_x unset value in
      let n = length text in
      let short = length-uri_decode sscanf_x unset value in
      let old = value ++ (s ∷ []) in
      let size_old : length old ≡ length value + 1 = length-append value (s ∷ []) in
      let (front, left, e, len) = split_at (n + 1) old (omega (arith, size_old, short)) in
      let memory : pre ++ (value ++ (s ∷ back)) ≡ pre ++ (front ++ (left ++ back)) =
        ap (λ (m : List ℕ). pre ++ m)
          (sym (append_assoc value (s ∷ []) back)
            ∙ ap (λ (m : List ℕ). m ++ back) e
            ∙ append_assoc front left back) in
      let wrote =
        write-append (text ++ (0 ∷ [])) front pre (left ++ back) (cp + 1) start
          (omega (arith, len, length-append text (0 ∷ []))) in
      let shape : pre ++ ((text ++ (0 ∷ [])) ++ (left ++ back))
          ≡ pre ++ ((text ++ (0 ∷ left)) ++ back) =
        simp (append_assoc) in
      (
        left,
        take_value-write (pre ++ (value ++ (s ∷ back))) (pre ++ ((text ++ (0 ∷ left)) ++ back))
            value raw last cp more raw_is stop whole
            (ap (λ (m : List ℕ). write m (cp + 1) (text ++ (0 ∷ []))) memory
              ∙ wrote
              ∙ ap (λ (m : List ℕ). some m) shape),
        omega (
          arith,
          length-append text (0 ∷ left),
          size_old,
          len,
          ap length e,
          length-append front left,
        ),
      )

  -- A round of the loop, from what it makes of the key and of the value.
  urlencoded-step :
      (fuel last ptr place next : ℕ) (memory memory' raw key : List ℕ) (entries : PostData)
      (ret : Bool)
      → ptr + length key < last
      → span ptr last memory ≡ raw
      → scan_to 61 raw ≡ length key
      → take (length key) raw ≡ key
      → take_value sscanf_x unset last (ptr + length key) memory ≡ some (memory', place, next)
      → urlencoded sscanf_x unset (suc fuel) last ptr memory entries ret
        ≡ urlencoded sscanf_x unset fuel last next memory'
            (insert_entry (uri_decode sscanf_x unset key) place entries)
            ret
  unfolding urlencoded
  urlencoded-step fuel last ptr place next memory memory' raw key entries ret more raw_is stop whole
        taken =
      let left : ltb ptr last ≡ true = ground arith in
      let inside : ltb (ptr + length key) last ≡ true = ground arith in
      rw (urlencoded, left, raw_is, stop, inside, raw_is, stop, whole, taken) refl

  pub urlencoded-end :
      (fuel last ptr : ℕ) (memory : List ℕ) (entries : PostData) (ret : Bool)
      → last ≤ ptr
      → urlencoded sscanf_x unset (suc fuel) last ptr memory entries ret
        ≡ some (memory, entries, ret)
  unfolding urlencoded
  urlencoded-end fuel last ptr memory entries ret h =
      let over : ltb ptr last ≡ false = ground arith in rw (urlencoded, over) refl

  -- What a field becomes: the loop goes on behind it, at `next`, and its entry points to the decoded value, whatever is
  -- behind.
  abbrev pub Advances : ℕ → ℕ → List ℕ → List ℕ → List ℕ → List ℕ → List ℕ → Type 0
  Advances last next pre key value rest back =
      (done : List ℕ) × (place : ℕ) × ((fuel : ℕ) (entries : PostData) (ret : Bool)
        → urlencoded sscanf_x unset (suc fuel) last (length pre) (pre ++ (rest ++ back)) entries ret
          ≡ urlencoded sscanf_x unset fuel last next ((pre ++ done) ++ back)
              (insert_entry (uri_decode sscanf_x unset key) place entries) ret)
      × ((tail : List ℕ) → PointsTo ((pre ++ done) ++ tail) place (uri_decode sscanf_x unset value))
      × (length (pre ++ done) ≡ next)

  -- A field whose value has a byte behind it that is written over.
  pub value-Advances :
      (pre key value raw back : List ℕ) (s last : ℕ)
      → Without (61 ∷ []) key
      → length pre + length key + 1 < last
      → span (length pre) last (pre ++ ((key ++ (61 ∷ (value ++ (s ∷ [])))) ++ back))
        ≡ key ++ (61 ∷ raw)
      → span
          (length pre + length key + 1)
          last
          (pre ++ ((key ++ (61 ∷ (value ++ (s ∷ [])))) ++ back))
        ≡ raw
      → scan_to 38 raw ≡ length value
      → take (length value) raw ≡ value
      → Advances last
          (length pre + length key + 1 + length value + 1)
          pre
          key
          value
          (key ++ (61 ∷ (value ++ (s ∷ []))))
          back
  value-Advances pre key value raw back s last k more raw_is raw'_is stop whole =
      let text = uri_decode sscanf_x unset value in
      let front = pre ++ (key ++ (61 ∷ [])) in
      let memory : pre ++ ((key ++ (61 ∷ (value ++ (s ∷ [])))) ++ back)
          ≡ front ++ (value ++ (s ∷ back)) =
        simp (append_assoc) in
      let size : length pre + length key + 1 ≡ length front =
        omega (arith, length-append pre (key ++ (61 ∷ [])), length-append key (61 ∷ [])) in
      let (left, taken, len) =
        value_lem front value raw back s last (length pre + length key) size more
          (ap (span (length pre + length key + 1) last) (sym memory) ∙ raw'_is) stop whole in
      let done = key ++ (61 ∷ (text ++ (0 ∷ left))) in
      let shape : (tail : List ℕ)
          → front ++ ((text ++ (0 ∷ left)) ++ tail) ≡ (pre ++ done) ++ tail =
        (λ tail. simp (append_assoc)) in
      (
        done,
        length pre + length key + 1,
        (λ fuel entries ret.
            urlencoded-step fuel last (length pre) (length pre + length key + 1)
              (length pre + length key + 1 + length value + 1)
              (pre ++ ((key ++ (61 ∷ (value ++ (s ∷ [])))) ++ back)) ((pre ++ done) ++ back)
              (key ++ (61 ∷ raw)) key entries ret (omega arith) raw_is (scan_to-hit 61 key raw k)
              (take-append_eq (length key) key (61 ∷ raw) refl)
              (ap (take_value sscanf_x unset last (length pre + length key)) memory
                ∙ taken
                ∙ ap
                    (λ (m : List ℕ). some (
                      m,
                      length pre + length key + 1,
                      length pre + length key + 1 + length value + 1,
                    ))
                    (shape back))),
        (λ tail. (
          front,
          left ++ tail,
          sym (shape tail) ∙ ap (λ (m : List ℕ). front ++ m) (append_assoc text (0 ∷ left) tail),
          size,
        )),
        omega (arith, length-append pre done, length-append key (61 ∷ (text ++ (0 ∷ left))), len),
      )

  -- A last field without a value: the equals sign becomes the terminator.
  pub empty-Advances :
      (pre key back : List ℕ) (last : ℕ)
      → Without (61 ∷ []) key
      → last ≡ length pre + length key + 1
      → Advances last last pre key [] (key ++ (61 ∷ [])) back
  unfolding take_value uri_decode decode_loop
  empty-Advances pre key back last k end =
      let memory : pre ++ ((key ++ (61 ∷ [])) ++ back) ≡ (pre ++ key) ++ (61 ∷ back) =
        simp (append_assoc) in
      let size : length pre + length key ≡ length (pre ++ key) = sym (length-append pre key) in
      let over : ltb (length pre + length key + 1) last ≡ false = ground arith in
      let stored = store-append (pre ++ key) back 61 (length pre + length key) 0 size in
      let shape : (tail : List ℕ)
          → (pre ++ (key ++ (0 ∷ []))) ++ tail ≡ (pre ++ key) ++ (0 ∷ tail) =
        (λ tail. simp (append_assoc)) in
      let raw =
        span-append pre (key ++ (61 ∷ [])) back (length pre) last refl
          (omega (arith, end, length-append key (61 ∷ []))) in
      let taken : take_value sscanf_x unset last (length pre + length key)
            (pre ++ ((key ++ (61 ∷ [])) ++ back))
          ≡ some ((pre ++ (key ++ (0 ∷ []))) ++ back, length pre + length key, last) =
        rw (take_value, over, memory, stored, shape back, end) refl in
      (
        key ++ (0 ∷ []),
        length pre + length key,
        (λ fuel entries ret.
            urlencoded-step fuel last (length pre) (length pre + length key) last
              (pre ++ ((key ++ (61 ∷ [])) ++ back)) ((pre ++ (key ++ (0 ∷ []))) ++ back)
              (key ++ (61 ∷ [])) key entries ret (omega (arith, end)) raw (scan_to-hit 61 key [] k)
              (take-append_eq (length key) key (61 ∷ []) refl) taken),
        (λ tail. (pre ++ key, tail, shape tail, size)),
        omega (arith, end, length-append pre (key ++ (0 ∷ [])), length-append key (0 ∷ [])),
      )
