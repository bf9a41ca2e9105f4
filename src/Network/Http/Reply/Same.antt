-- ===== src/Network/Http/Reply/Same.antt =====
-- The header that a response gets, and that the functions for `TXT` do what those for strings do.
use picolibs.Base.{
  ℕ, ◌+◌, ◌<◌, ◌^◌, ◌≡◌, refl, sym, ap, subst, ◌∙◌, Option, none, some, List, [], ◌++◌, arith,
  length, length-append, drop-append_eq, Option-cases, inl, inr,
}
use picolibs.Util.Memory.Laws.{AllNonzero, c_text-append}
use picolibs.Util.Txt.{Txt, find, find_text, replace}
use picolibs.Util.Txt.Holds.{Holds, Allocates}
use picolibs.Util.Txt.Edit.{replace_refines}
use picolibs.Util.Txt.Search.{find_text_sound}
use picolibs.Network.Http.Reply.{empty_line, replace_header, replace_header_txt}

pub find-Holds :
    (str text : List ℕ) (t : Txt)
    → Holds t text
    → AllNonzero text
    → find str t ≡ some (find_text str text)
unfolding find
find-Holds str text t h nonzero = rw (find, h.memory, c_text-append text h.junk nonzero) refl

replace_header-at :
    (new_header head body : List ℕ) (i : ℕ)
    → find_text empty_line new_header ≡ none
    → find_text empty_line (head ++ body) ≡ some i
    → i ≡ length head
    → replace_header new_header (head ++ body) ≡ new_header ++ body
unfolding replace_header
replace_header-at new_header head body i single found index =
    rw (replace_header, found, single, drop-append_eq i head body index) refl

replace_header-none :
    (new_header rqst : List ℕ)
    → find_text empty_line rqst ≡ none
    → replace_header new_header rqst ≡ rqst
unfolding replace_header
replace_header-none new_header rqst missing = rw (replace_header, missing) refl

replace_header_txt-at :
    (fresh : ℕ → List ℕ) (new_header : List ℕ) (t t' : Txt) (i : ℕ)
    → find empty_line t ≡ some (some i)
    → replace fresh 0 i new_header t ≡ some t'
    → replace_header_txt fresh new_header t ≡ some t'
unfolding replace_header_txt
replace_header_txt-at fresh new_header t t' i found replaced =
    rw (replace_header_txt, found) replaced

module _ (fresh : ℕ → List ℕ) (allocates : Allocates fresh) where
  -- On a text without a terminator in it, and a header without an empty line, the function for `TXT` succeeds, and what
  -- the buffer holds is what the function for strings gives.
  pub replace_header_refines :
      (t : Txt) (text new_header : List ℕ)
      → Holds t text
      → AllNonzero text
      → find_text empty_line new_header ≡ none
      → length text + length new_header + 2048 < 2 ^ 32
      → (t' : Txt) × (replace_header_txt fresh new_header t ≡ some t')
        × Holds t' (replace_header new_header text)
  unfolding replace_header_txt
  replace_header_refines t text new_header h nonzero single fits =
      let seen = find-Holds empty_line text t h nonzero in
      elim (Option-cases (find_text empty_line text)) [
        | inl missing ↦ (
          t,
          rw (replace_header_txt, seen, missing) refl,
          subst (Holds t) (sym (replace_header-none new_header text missing)) h,
        )
        | inr (i, found) ↦
            let (pre, post, whole, index) = find_text_sound empty_line text i found in
            let body = empty_line ++ post in
            let size : length text ≡ length pre + length body =
              omega (arith, ap length whole, length-append pre body) in
            let (t', replaced, h') =
              replace_refines fresh allocates t [] pre body new_header (subst (Holds t) whole h)
                (omega (arith, size)) in
            (
              t',
              replace_header_txt-at fresh new_header t t' i
                  (seen ∙ ap (λ (o : Option ℕ). some o) found)
                  (ap (λ (n : ℕ). replace fresh 0 n new_header t) index ∙ replaced),
              subst (Holds t')
                  (sym (
                    ap (replace_header new_header) whole
                    ∙ replace_header-at new_header pre body i single
                        (ap (find_text empty_line) (sym whole) ∙ found) index))
                  h',
            )
      ]
