-- ===== src/Network/Http/Parse/Front.antt =====
-- What is done to the front of a request that is not complete.
use picolibs.Base.{
  ℕ, zero, suc, ◌+◌, ◌<◌, ◌≤◌, ◌≡◌, refl, ◌∙◌, Bool, true, false, ◌&&◌, Option, none, some, List,
  [], ◌∷◌, ◌++◌, arith, ltb, ◌==◌, length, length-append, drop-append_eq, Bool-cases, inl, inr,
}
use picolibs.Util.Txt.{find_text}
use picolibs.Util.Text.{contains}
use picolibs.Util.Text.Find.{Without, find_first_of-Without, find_first_of-none}
use picolibs.Network.Http.{HttpRequest, clear, is_complete}
use picolibs.Network.Http.Parse.{is_method, front_step, drop_front, parse_request, crlf}

drop_front-step :
    (fuel : ℕ) (rqst rqst' : List ℕ) (i1 i1' : ℕ)
    → i1 < length rqst
    → front_step rqst i1 ≡ (rqst', i1')
    → drop_front (suc fuel) rqst i1 ≡ drop_front fuel rqst' i1'
unfolding drop_front
drop_front-step fuel rqst rqst' i1 i1' inside same =
    let more : (ltb 0 (length rqst) && ltb i1 (length rqst)) ≡ true = ground arith in
    rw (drop_front, more, same) refl

drop_front-end :
    (fuel : ℕ) (rqst : List ℕ) (i1 : ℕ)
    → length rqst ≤ i1
    → drop_front (suc fuel) rqst i1 ≡ some rqst
unfolding drop_front
drop_front-end fuel rqst i1 h =
    let over : (ltb 0 (length rqst) && ltb i1 (length rqst)) ≡ false = ground arith in
    rw (drop_front, over) refl

-- A text that the round does not change keeps the loop going.
drop_front-stuck :
    (fuel : ℕ) (rqst : List ℕ) (i1 : ℕ)
    → i1 < length rqst
    → front_step rqst i1 ≡ (rqst, i1)
    → drop_front fuel rqst i1 ≡ none
unfolding drop_front
drop_front-stuck zero rqst i1 inside same = refl
drop_front-stuck (suc fuel) rqst i1 inside same =
    drop_front-step fuel rqst rqst i1 i1 inside same ∙ drop_front-stuck fuel rqst i1 inside same

and_head : (a b : Bool) → (a && b) ≡ true → a ≡ true
and_head true b h = refl
and_head false b h = absurd (cc)

method-nil : is_method [] 0 ≡ true → ⊥
unfolding is_method
method-nil h = cc

method_first :
    (c : ℕ) (rest : List ℕ) → is_method (c ∷ rest) 0 ≡ true → contains (71 ∷ 80 ∷ []) c ≡ true
unfolding is_method
method_first c rest h = elim (Bool-cases (contains (71 ∷ 80 ∷ []) c)) [
  | inl here ↦ here
  | inr absent ↦
      let g : (c == 71) ≡ false = ground (arith, absent) in
      let p : (c == 80) ≡ false = ground (arith, absent) in absurd (ground (arith, rw (g, p) at h))
]

front_step-method :
    (c : ℕ) (rest : List ℕ)
    → is_method (c ∷ rest) 0 ≡ true
    → front_step (c ∷ rest) 0 ≡ (c ∷ rest, 0)
unfolding front_step
front_step-method c rest h =
    rw (front_step, find_first_of-Without (71 ∷ 80 ∷ []) [] c rest tt (method_first c rest h), h)
      refl

-- A request that begins with its method, but is not complete, keeps `parseRequest` in its loop for ever: whatever
-- the fuel, there is no result.
pub parse_request-stuck :
    (stoul sscanf_x : List ℕ → Option ℕ) (unset fuel : ℕ) (rqst : List ℕ) (flag : Bool)
    (r : HttpRequest)
    → find_text (13 ∷ 10 ∷ crlf) rqst ≡ none
    → is_method rqst 0 ≡ true
    → parse_request stoul sscanf_x unset fuel rqst flag r ≡ none
unfolding parse_request
parse_request-stuck stoul sscanf_x unset fuel [] flag r incomplete method =
    absurd (method-nil method)
parse_request-stuck stoul sscanf_x unset fuel (c ∷ rest) flag r incomplete method =
    let stuck : drop_front fuel (c ∷ rest) 0 ≡ none =
      drop_front-stuck fuel (c ∷ rest) 0 (omega arith) (front_step-method c rest method) in
    rw (parse_request, incomplete, stuck) refl

-- A text without a `G` and a `P` is cleared.
drop_front-none :
    (fuel : ℕ) (rqst : List ℕ)
    → Without (71 ∷ 80 ∷ []) rqst
    → drop_front (suc (suc fuel)) rqst 0 ≡ some []
unfolding front_step
drop_front-none fuel [] h = drop_front-end (suc fuel) [] 0 (omega arith)
drop_front-none fuel (x ∷ xs) h =
    let cleared : front_step (x ∷ xs) 0 ≡ ([], 0) =
      rw (front_step, find_first_of-none (71 ∷ 80 ∷ []) (x ∷ xs) h) in
    drop_front-step (suc fuel) (x ∷ xs) [] 0 0 (omega arith) cleared
    ∙ drop_front-end fuel [] 0 (omega arith)

is_method-append : (pre rqst : List ℕ) → is_method (pre ++ rqst) (length pre) ≡ is_method rqst 0
unfolding is_method
is_method-append pre rqst =
    let whole = length-append pre rqst in
    let four : ltb (length pre + 4) (length (pre ++ rqst)) ≡ ltb 4 (length rqst) =
      ground (arith, whole) in
    let five : ltb (length pre + 5) (length (pre ++ rqst)) ≡ ltb 5 (length rqst) =
      ground (arith, whole) in
    rw (is_method, four, five, drop-append_eq (length pre) pre rqst refl) refl

length-pos : (x : ℕ) (xs ys : List ℕ) → 0 < length ((x ∷ xs) ++ ys)
length-pos x xs ys = omega arith

-- What stands in front of a method is erased.
drop_front-method :
    (fuel : ℕ) (x : ℕ) (junk rqst : List ℕ)
    → Without (71 ∷ 80 ∷ []) (x ∷ junk)
    → is_method rqst 0 ≡ true
    → drop_front (suc (suc fuel)) ((x ∷ junk) ++ rqst) 0 ≡ some rqst
unfolding front_step
drop_front-method fuel x junk [] h method = absurd (method-nil method)
drop_front-method fuel x junk (c ∷ rest) h method =
    let here =
      find_first_of-Without (71 ∷ 80 ∷ []) (x ∷ junk) c rest h (method_first c rest method) in
    let index : 0 + length (x ∷ junk) ≡ length (x ∷ junk) = omega arith in
    let positive : ltb 0 (length (x ∷ junk)) ≡ true = ground arith in
    let erased : front_step ((x ∷ junk) ++ (c ∷ rest)) 0 ≡ (c ∷ rest, length (c ∷ rest)) =
      rw
        (
          front_step,
          here,
          index,
          is_method-append (x ∷ junk) (c ∷ rest),
          method,
          drop-append_eq (length (x ∷ junk)) (x ∷ junk) (c ∷ rest) refl,
          positive,
        )
        refl in
    drop_front-step (suc fuel) ((x ∷ junk) ++ (c ∷ rest)) (c ∷ rest) 0 (length (c ∷ rest))
      (length-pos x junk (c ∷ rest)) erased
    ∙ drop_front-end fuel (c ∷ rest) (length (c ∷ rest)) (omega arith)

-- A text without an empty line leaves a cleared request, if it does not begin with a method: without `G` and `P`, it is
-- cleared; in front of a method, characters other than these are erased.
parse_request-front :
    (stoul sscanf_x : List ℕ → Option ℕ) (unset fuel : ℕ) (x : ℕ) (junk rqst : List ℕ) (flag : Bool)
    (r : HttpRequest)
    → Without (71 ∷ 80 ∷ []) (x ∷ junk)
    → is_method rqst 0 ≡ true
    → find_text (13 ∷ 10 ∷ crlf) (x ∷ junk) ≡ none
    → find_text (13 ∷ 10 ∷ crlf) ((x ∷ junk) ++ rqst) ≡ none
    → (parse_request stoul sscanf_x unset (suc (suc fuel)) (x ∷ junk) flag r
        ≡ some ([], clear r, false))
      × (parse_request stoul sscanf_x unset (suc (suc fuel)) ((x ∷ junk) ++ rqst) flag r
          ≡ some (rqst, clear r, false))
unfolding parse_request is_complete clear
parse_request-front stoul sscanf_x unset fuel x junk rqst flag r h method alone together = (
  rw (parse_request, alone, drop_front-none fuel (x ∷ junk) h) refl,
  rw (parse_request, together, drop_front-method fuel x junk rqst h method) refl,
)
