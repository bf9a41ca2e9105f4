-- ===== src/Network/Http/Post/Form.antt =====
-- Whole bodies of `application/x-www-form-urlencoded`.
use picolibs.Base.{
  ℕ, zero, suc, ◌+◌, ◌<◌, ◌≤◌, ◌≡◌, refl, sym, ap, subst, ◌∙◌, Bool, true, Option, some, List, [],
  ◌∷◌, ◌++◌, append-nil, append_assoc, arith, length, length-append, take, take-append_eq,
}
use picolibs.Util.Text.Find.{Without}
use picolibs.Network.Http.{PostData, insert_entry}
use picolibs.Network.Http.Post.{urlencoded, uri_decode}
use picolibs.Network.Http.Multipart.{span}
use picolibs.Network.Http.Post.{post_body, body_start, form_urlencoded, post_array}
use picolibs.Network.Http.Post.Entries.{
  insert_all, IsByKey, places_of, insert_all-IsByKey, post_array-insert_all,
}
use picolibs.Network.Http.Post.Fields.{
  scan_to-Without, scan_to-hit, span-append, PointsTo, AllFields, print_fields,
}
use picolibs.Network.Http.Post.Round.{Advances, value-Advances, empty-Advances, urlencoded-end}

length-print_fields :
    (fields : List (List ℕ × List ℕ)) → length fields ≤ length (print_fields fields)
length-print_fields [] = omega arith
length-print_fields ((key, value) ∷ []) = omega (arith, length-append key (61 ∷ value))
length-print_fields ((key, value) ∷ field ∷ fields) =
    let others = print_fields (field ∷ fields) in
    omega (
      arith,
      length-append key (61 ∷ (value ++ (38 ∷ others))),
      length-append value (38 ∷ others),
      length-print_fields (field ∷ fields),
    )

module _ (sscanf_x : List ℕ → Option ℕ) (unset : ℕ) where
  -- The entries of the fields: their decoded keys, and pointers to their decoded values.
  abbrev pub Stored : List ℕ → List (List ℕ × List ℕ) → PostData → Type 0
  Stored memory [] [] = Unit
  Stored memory [] (entry ∷ entries) = ⊥
  Stored memory (field ∷ fields) [] = ⊥
  Stored memory ((key, value) ∷ fields) ((k, place) ∷ entries) =
      (k ≡ uri_decode sscanf_x unset key)
      × PointsTo memory place (uri_decode sscanf_x unset value)
      × Stored memory fields entries

  abbrev Results : ℕ → ℕ → List ℕ → List (List ℕ × List ℕ) → List ℕ → Type 0
  Results fuel last pre fields rest =
      (entries : PostData) (ret : Bool)
      → (tail : List ℕ) × (added : PostData) × (urlencoded sscanf_x unset fuel last (length pre)
            (pre ++ rest) entries ret
          ≡ some (pre ++ tail, insert_all added entries, ret))
        × Stored (pre ++ tail) fields added

  last-Results :
      (fuel last next : ℕ) (pre key value rest back : List ℕ)
      → Advances sscanf_x unset last next pre key value rest back
      → last ≤ next
      → Results (suc (suc fuel)) last pre ((key, value) ∷ []) (rest ++ back)
  last-Results fuel last next pre key value rest back (done, place, goes, points, len) over entries
        ret =
      (
        done ++ back,
        (uri_decode sscanf_x unset key, place) ∷ [],
        goes (suc fuel) entries ret
            ∙ urlencoded-end sscanf_x unset fuel last next ((pre ++ done) ++ back)
                (insert_entry (uri_decode sscanf_x unset key) place entries) ret over
            ∙ ap
                (λ (m : List ℕ).
                  some (m, insert_entry (uri_decode sscanf_x unset key) place entries, ret))
                (append_assoc pre done back),
        (
          refl,
          subst (λ (m : List ℕ). PointsTo m place (uri_decode sscanf_x unset value))
              (append_assoc pre done back) (points back),
          tt,
        ),
      )

  next-Results :
      (fuel last next : ℕ) (pre key value rest back : List ℕ) (fields : List (List ℕ × List ℕ))
      (moves : Advances sscanf_x unset last next pre key value rest back)
      → Results fuel last (pre ++ moves.0) fields back
      → Results (suc fuel) last pre ((key, value) ∷ fields) (rest ++ back)
  next-Results fuel last next pre key value rest back fields (done, place, goes, points, len) more
        entries ret =
      let entry : List ℕ × ℕ = (uri_decode sscanf_x unset key, place) in
      let (tail, added, result, stored) = more (insert_entry (entry.0) place entries) ret in
      (
        done ++ tail,
        entry ∷ added,
        goes fuel entries ret
            ∙ ap
                (λ (n : ℕ).
                  urlencoded sscanf_x unset fuel last n ((pre ++ done) ++ back)
                    (insert_entry (entry.0) place entries) ret)
                (sym len)
            ∙ result
            ∙ ap
                (λ (m : List ℕ).
                  some (m, insert_all added (insert_entry (entry.0) place entries), ret))
                (append_assoc pre done tail),
        (
          refl,
          subst (λ (m : List ℕ). PointsTo m place (uri_decode sscanf_x unset value))
              (append_assoc pre done tail) (points tail),
          subst (λ (m : List ℕ). Stored m fields added) (append_assoc pre done tail) stored,
        ),
      )

  -- The spans that a round looks at.
  spans :
      (pre key raw rear memory : List ℕ) (last : ℕ)
      → memory ≡ pre ++ ((key ++ (61 ∷ raw)) ++ rear)
      → last ≡ length pre + length (key ++ (61 ∷ raw))
      → (span (length pre) last memory ≡ key ++ (61 ∷ raw))
        × (span (length pre + length key + 1) last memory ≡ raw)
        × (length pre + length key + 1 + length raw ≡ last)
  spans pre key raw rear memory last e end =
      let front = pre ++ (key ++ (61 ∷ [])) in
      let size : length pre + length key + 1 ≡ length front =
        omega (arith, length-append pre (key ++ (61 ∷ [])), length-append key (61 ∷ [])) in
      let all : length pre + length key + 1 + length raw ≡ last =
        omega (arith, end, length-append key (61 ∷ raw)) in
      let whole : memory ≡ front ++ (raw ++ rear) = e ∙ simp (append_assoc) in
      (
        ap (span (length pre) last) e
            ∙ span-append pre (key ++ (61 ∷ raw)) rear (length pre) last refl end,
        ap (span (length pre + length key + 1) last) whole
            ∙ span-append front raw rear (length pre + length key + 1) last size
                (omega (arith, size, all)),
        all,
      )

  -- The last field, with a value.
  last_value :
      (fuel : ℕ) (pre key value : List ℕ) (x : ℕ) (back : List ℕ)
      → Without (61 ∷ []) key
      → Without (38 ∷ []) value
      → 0 < length value
      → Results
          (suc (suc fuel))
          (length pre + length (key ++ (61 ∷ value)))
          pre
          ((key, value) ∷ [])
          ((key ++ (61 ∷ value)) ++ (x ∷ back))
  last_value fuel pre key value x back k v more =
      let last = length pre + length (key ++ (61 ∷ value)) in
      let rest = key ++ (61 ∷ (value ++ (x ∷ []))) in
      let shape : rest ++ back ≡ (key ++ (61 ∷ value)) ++ (x ∷ back) = simp (append_assoc) in
      let (raw, raw', all) =
        spans pre key value (x ∷ back) (pre ++ (rest ++ back)) last
          (ap (λ (m : List ℕ). pre ++ m) shape) refl in
      let whole : take (length value) value ≡ value =
        ap (take (length value)) (sym (append-nil value))
        ∙ take-append_eq (length value) value [] refl in
      subst (Results (suc (suc fuel)) last pre ((key, value) ∷ [])) shape (
        last-Results fuel last (length pre + length key + 1 + length value + 1) pre key value rest
          back
          (value-Advances sscanf_x unset pre key value value back x last k (omega (arith, all)) raw
            raw' (scan_to-Without 38 value v) whole)
          (omega (arith, all)))

  -- A field in front of others.
  next_value :
      (fuel : ℕ) (pre key value others : List ℕ) (fields : List (List ℕ × List ℕ)) (x : ℕ)
      (back : List ℕ)
      → Without (61 ∷ []) key
      → Without (38 ∷ []) value
      → ((pre' : List ℕ)
          → Results fuel (length pre' + length others) pre' fields (others ++ (x ∷ back)))
      → Results
          (suc fuel)
          (length pre + length (key ++ (61 ∷ (value ++ (38 ∷ others)))))
          pre
          ((key, value) ∷ fields)
          ((key ++ (61 ∷ (value ++ (38 ∷ others)))) ++ (x ∷ back))
  next_value fuel pre key value others fields x back k v more =
      let raw = value ++ (38 ∷ others) in
      let last = length pre + length (key ++ (61 ∷ raw)) in
      let rest = key ++ (61 ∷ (value ++ (38 ∷ []))) in
      let shape : rest ++ (others ++ (x ∷ back)) ≡ (key ++ (61 ∷ raw)) ++ (x ∷ back) =
        simp (append_assoc) in
      let (first, second, all) =
        spans pre key raw (x ∷ back) (pre ++ (rest ++ (others ++ (x ∷ back)))) last
          (ap (λ (m : List ℕ). pre ++ m) shape) refl in
      let size = length-append value (38 ∷ others) in
      let moves : Advances sscanf_x unset last (length pre + length key + 1 + length value + 1) pre
          key value rest (others ++ (x ∷ back)) =
        value-Advances sscanf_x unset pre key value raw (others ++ (x ∷ back)) 38 last k
          (omega (arith, all, size)) first second (scan_to-hit 38 value others v)
          (take-append_eq (length value) value (38 ∷ others) refl) in
      let len = moves.4 in
      let end : length (pre ++ moves.0) + length others ≡ last = omega (arith, all, size, len) in
      subst (Results (suc fuel) last pre ((key, value) ∷ fields)) shape (
        next-Results fuel last (length pre + length key + 1 + length value + 1) pre key value rest
          (others ++ (x ∷ back)) fields moves
          (subst (λ (n : ℕ). Results fuel n (pre ++ moves.0) fields (others ++ (x ∷ back))) end
            (more (pre ++ moves.0))))

  form-Results :
      (fuel : ℕ) (pre : List ℕ) (fields : List (List ℕ × List ℕ)) (x : ℕ) (back : List ℕ)
      → AllFields fields
      → length fields < fuel
      → Results fuel
          (length pre + length (print_fields fields))
          pre
          fields
          (print_fields fields ++ (x ∷ back))
  form-Results zero pre fields x back h enough = absurd (omega arith)
  form-Results (suc fuel) pre [] x back h enough = λ entries ret. (
    x ∷ back,
    [],
    urlencoded-end sscanf_x unset fuel (length pre + 0) (length pre) (pre ++ (x ∷ back)) entries ret
        (omega arith),
    tt,
  )
  form-Results (suc zero) pre (field ∷ fields) x back h enough = absurd (omega arith)
  form-Results (suc (suc fuel)) pre ((key, []) ∷ []) x back (k, v, _) enough =
      let last = length pre + length (key ++ (61 ∷ [])) in
      last-Results fuel last last pre key [] (key ++ (61 ∷ [])) (x ∷ back)
        (empty-Advances sscanf_x unset pre key (x ∷ back) last k
          (omega (arith, length-append key (61 ∷ []))))
        (omega arith)
  form-Results (suc (suc fuel)) pre ((key, y ∷ value) ∷ []) x back (k, v, _) enough =
      last_value fuel pre key (y ∷ value) x back k v (omega arith)
  form-Results (suc (suc fuel)) pre ((key, value) ∷ field ∷ fields) x back (k, v, h) enough =
      next_value (suc fuel) pre key value (print_fields (field ∷ fields)) (field ∷ fields) x back k
        v (λ pre'. form-Results (suc fuel) pre' (field ∷ fields) x back h (omega arith))

  -- On a body of fields, whose keys hold no equals signs and whose values no ampersands, reading a form ends and succeeds.
  -- What is in front of the body stays, and there is an entry for each field: its decoded key, and a pointer to its decoded
  -- value, with a terminator behind it. The entries are in the order of their keys, and `postArray` gives those of any one
  -- key in the order of the fields. The byte behind the body may be written over.
  pub post_body-print_fields :
      (pre : List ℕ) (fields : List (List ℕ × List ℕ)) (x : ℕ) (back key : List ℕ)
      → AllFields fields
      → (tail : List ℕ) × (entries result : PostData) × (post_body sscanf_x unset form_urlencoded
            (some (length pre))
            (length (print_fields fields))
            (pre ++ (print_fields fields ++ (x ∷ back)))
          ≡ some (pre ++ tail, result, true))
        × Stored (pre ++ tail) fields entries
        × IsByKey result
        × (post_array key result ≡ places_of key entries)
  unfolding post_body body_start post_array
  post_body-print_fields pre fields x back key h =
      let (tail, added, read, stored) =
        form-Results (suc (length pre + length (print_fields fields))) pre fields x back h
          (omega (arith, length-print_fields fields)) [] true in
      (
        tail,
        added,
        insert_all added [],
        read,
        stored,
        insert_all-IsByKey added [] tt,
        post_array-insert_all key added [] tt,
      )
