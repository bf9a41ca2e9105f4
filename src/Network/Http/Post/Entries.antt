-- ===== src/Network/Http/Post/Entries.antt =====
-- The entries of the data of a POST request: a `std::multimap`.
use picolibs.Base.{
  ℕ, ◌≡◌, refl, sym, ap, ◌∙◌, inl, inr, true, false, Bool-cases, List, [], ◌∷◌, ◌++◌, append-nil,
  append_assoc, if◌then◌else◌,
}
use picolibs.Network.Http.{PostData, insert_entry, same_text, text_less}
use picolibs.Network.Http.Order.{same_text_eq, text_less_trans, text_less_irrefl, text_less_asym}
use picolibs.Network.Http.Post.{post_array}

-- No key is less than this one.
abbrev pub NoneLess : List ℕ → PostData → Type 0
NoneLess key [] = Unit
NoneLess key ((k, v) ∷ entries) = (text_less k key ≡ false) × NoneLess key entries

-- The entries are in the order of their keys.
abbrev pub IsByKey : PostData → Type 0
IsByKey [] = Unit
IsByKey ((k, v) ∷ entries) = NoneLess k entries × IsByKey entries

abbrev pub insert_all : PostData → PostData → PostData
insert_all [] entries = entries
insert_all ((key, value) ∷ added) entries = insert_all added (insert_entry key value entries)

-- The values of a key among the entries that are inserted, in their order.
abbrev pub places_of : List ℕ → PostData → List ℕ
places_of key [] = []
places_of key ((k, place) ∷ entries) =
    (if same_text k key then place ∷ [] else []) ++ places_of key entries

not_less :
    (k key other : List ℕ)
    → text_less key k ≡ true
    → text_less other k ≡ false
    → text_less other key ≡ false
not_less k key other less none_less = elim (Bool-cases (text_less other key)) [
  | inr e ↦ e
  | inl e ↦ let both : true ≡ false = sym (text_less_trans other key k e less) ∙ none_less in cc
]

NoneLess-less :
    (k key : List ℕ) (entries : PostData)
    → text_less key k ≡ true
    → NoneLess k entries
    → NoneLess key entries
NoneLess-less k key [] less h = tt
NoneLess-less k key ((other, v) ∷ entries) less (here, h) =
    (not_less k key other less here, NoneLess-less k key entries less h)

NoneLess-insert :
    (k key : List ℕ) (value : ℕ) (entries : PostData)
    → text_less key k ≡ false
    → NoneLess k entries
    → NoneLess k (insert_entry key value entries)
unfolding insert_entry
NoneLess-insert k key value [] last h = (last, tt)
NoneLess-insert k key value ((other, v) ∷ entries) last (here, h) =
    elim (Bool-cases (text_less key other)) [
      | inl e ↦ rw (insert_entry, e) (last, (here, h))
      | inr e ↦ rw (insert_entry, e) (here, NoneLess-insert k key value entries last h)
    ]

insert_entry-IsByKey :
    (key : List ℕ) (value : ℕ) (entries : PostData)
    → IsByKey entries
    → IsByKey (insert_entry key value entries)
unfolding insert_entry
insert_entry-IsByKey key value [] h = (tt, tt)
insert_entry-IsByKey key value ((k, v) ∷ entries) (least, h) = elim (Bool-cases (text_less key k)) [
  | inl e ↦
      rw (insert_entry, e)
        ((text_less_asym key k e, NoneLess-less k key entries e least), (least, h))
  | inr e ↦
      rw (insert_entry, e)
        (NoneLess-insert k key value entries e least, insert_entry-IsByKey key value entries h)
]

pub insert_all-IsByKey :
    (added entries : PostData) → IsByKey entries → IsByKey (insert_all added entries)
insert_all-IsByKey [] entries h = h
insert_all-IsByKey ((key, value) ∷ added) entries h =
    insert_all-IsByKey added (insert_entry key value entries)
      (insert_entry-IsByKey key value entries h)

-- A key that is less than all others has no values.
post_array-less :
    (k key : List ℕ) (entries : PostData)
    → text_less key k ≡ true
    → NoneLess k entries
    → post_array key entries ≡ []
unfolding post_array
post_array-less k key [] less h = refl
post_array-less k key ((other, v) ∷ entries) less (here, h) =
    elim (Bool-cases (same_text other key)) [
      | inr e ↦ rw (post_array, e) (post_array-less k key entries less h)
      | inl e ↦
          let same : text_less other k ≡ text_less key k =
            ap (λ (t : List ℕ). text_less t k) (same_text_eq other key e) in
          let both : false ≡ true = sym here ∙ same ∙ less in cc
    ]

differs : (key k : List ℕ) → text_less key k ≡ true → same_text k key ≡ false
differs key k less = elim (Bool-cases (same_text k key)) [
  | inr e ↦ e
  | inl e ↦
      let same : text_less key k ≡ text_less key key =
        ap (λ (t : List ℕ). text_less key t) (same_text_eq k key e) in
      let both : true ≡ false = sym less ∙ same ∙ text_less_irrefl key in cc
]

post_array-insert_entry :
    (key' key : List ℕ) (value : ℕ) (entries : PostData)
    → IsByKey entries
    → post_array key' (insert_entry key value entries)
      ≡ post_array key' entries ++ (if same_text key key' then value ∷ [] else [])
unfolding insert_entry post_array
post_array-insert_entry key' key value [] h = refl
post_array-insert_entry key' key value ((k, v) ∷ entries) (least, h) =
    elim (Bool-cases (text_less key k)) [
      | inl e ↦ elim (Bool-cases (same_text key key')) [
        | inr f ↦ rw (insert_entry, e, post_array, f) (sym (append-nil _))
        | inl f ↦
            let same : key ≡ key' = same_text_eq key key' f in
            let less : text_less key' k ≡ true =
              ap (λ (t : List ℕ). text_less t k) (sym same) ∙ e in
            let nothing : post_array key' ((k, v) ∷ entries) ≡ [] =
              rw (post_array, differs key' k less) (post_array-less k key' entries less least) in
            rw (insert_entry, e, f, nothing) refl
      ]
      | inr e ↦
          let later = post_array-insert_entry key' key value entries h in
          elim (Bool-cases (same_text k key')) [
            | inl f ↦ rw (insert_entry, e, post_array, f, later) refl
            | inr f ↦ rw (insert_entry, e, post_array, f, later) refl
          ]
    ]

pub post_array-insert_all :
    (key : List ℕ) (added entries : PostData)
    → IsByKey entries
    → post_array key (insert_all added entries) ≡ post_array key entries ++ places_of key added
post_array-insert_all key [] entries h = sym (append-nil (post_array key entries))
post_array-insert_all key ((k, place) ∷ added) entries h =
    post_array-insert_all key added (insert_entry k place entries)
      (insert_entry-IsByKey k place entries h)
    ∙ ap (λ (ps : List ℕ). ps ++ places_of key added)
        (post_array-insert_entry key k place entries h)
    ∙ append_assoc (post_array key entries) (if same_text k key then place ∷ [] else [])
        (places_of key added)
