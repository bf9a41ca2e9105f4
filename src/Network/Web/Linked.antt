-- ===== src/Network/Web/Linked.antt =====
-- The two maps of the server agree: a connection leads to a client of its own, which has not another one, and each client
-- has a connection.
pub mod Steps
pub mod Serving
pub mod Callbacks
pub mod Reach
use picolibs.Base.{
  ℕ, zero, suc, ◌+◌, ◌<◌, ◌≡◌, refl, sym, ap, subst, ◌∙◌, ◌⊎◌, inl, inr, Bool, true, false, Option,
  none, some, List, [], ◌∷◌, arith, ◌==◌, ==_iff, if◌then◌else◌, ◌>>=◌, Bool-cases, Option-cases,
  find_key, emplace, erase_key, modify_key, find_key-emplaced, find_key-emplace, find_key-erase_key,
  find_key-erased, find_key-modify_key, find_key-differ,
}
use picolibs.Network.Web.{
  Effect, WebClient, Web, note, modify, delete_client, new_client, find_client, advance, next_free,
  next_handle, add_client,
}

-- A connection's client: it has this connection, or none, and is then marked for closing.
abbrev pub HasClient : Web → ℕ → ℕ → Type 0
HasClient web p h =
    (client : WebClient) × (find_key h web.clients ≡ some client)
    × (client.handle ≡ h)
    × ((client.pcb ≡ some p) ⊎ ((client.pcb ≡ none) × (client.closed ≡ true)))

pub record IsLinked (web : Web) : Type 0 where
  pub to_client : (p h : ℕ) → find_key p web.pcbs ≡ some h → HasClient web p h
  pub to_pcb :
      (h : ℕ) (client : WebClient)
      → find_key h web.clients ≡ some client
      → (p : ℕ) × (find_key p web.pcbs ≡ some h)
  pub one_pcb : (p q h : ℕ) → find_key p web.pcbs ≡ some h → find_key q web.pcbs ≡ some h → p ≡ q

pub note-IsLinked : (e : Effect) (web : Web) → IsLinked web → IsLinked (note e web)
unfolding note
note-IsLinked e web l = record { to_client = l.to_client; to_pcb = l.to_pcb; one_pcb = l.one_pcb }

-- A change that keeps a client's handle, and its connection and its mark, unless it takes the one away and sets the
-- other.
abbrev pub Keeps : Web → ℕ → (WebClient → WebClient) → Type 0
Keeps web h f =
    (client : WebClient)
    → find_key h web.clients ≡ some client
    → ((f client).handle ≡ client.handle)
      × ((((f client).pcb ≡ client.pcb) × ((f client).closed ≡ client.closed))
          ⊎ (((f client).pcb ≡ none) × ((f client).closed ≡ true)))

pub find_key-same :
    (h : ℕ) (f : WebClient → WebClient) (web : Web) (client : WebClient)
    → find_key h web.clients ≡ some client
    → find_key h (modify_key h f web.clients) ≡ some (f client)
find_key-same h f web client e =
    let same : (h == h) ≡ true = (==_iff h h).1 refl in
    find_key-modify_key h h f web.clients ∙ rw (same, e) refl

find_key-other :
    (i h : ℕ) (f : WebClient → WebClient) (web : Web)
    → (h == i) ≡ false
    → find_key i (modify_key h f web.clients) ≡ find_key i web.clients
find_key-other i h f web other = find_key-modify_key i h f web.clients ∙ rw other refl

modify-HasClient :
    (h : ℕ) (f : WebClient → WebClient) (web : Web) (p i : ℕ)
    → Keeps web h f
    → HasClient web p i
    → HasClient (modify h f web) p i
unfolding modify
modify-HasClient h f web p i keeps (client, found, named, pcb) = elim (Bool-cases (h == i)) [
  | inr other ↦ (client, find_key-other i h f web other ∙ found, named, pcb)
  | inl same ↦
      let e : i ≡ h = sym ((==_iff h i).0 same) in
      let here : find_key h web.clients ≡ some client =
        ap (λ (j : ℕ). find_key j web.clients) (sym e) ∙ found in
      let (handle, kept) = keeps client here in
      (
        f client,
        ap (λ (j : ℕ). find_key j (modify_key h f web.clients)) e
            ∙ find_key-same h f web client here,
        handle ∙ named,
        elim kept [
          | inr gone ↦ inr gone
          | inl (stays, mark) ↦ elim pcb [
            | inl has ↦ inl (stays ∙ has)
            | inr (lost, marked) ↦ inr (stays ∙ lost, mark ∙ marked)
          ]
        ],
      )
]

-- Whoever is in the list after a change was there before.
modify-before :
    (h : ℕ) (f : WebClient → WebClient) (web : Web) (i : ℕ) (client : WebClient)
    → find_key i (modify_key h f web.clients) ≡ some client
    → (old : WebClient) × (find_key i web.clients ≡ some old)
modify-before h f web i client e = elim (Option-cases (find_key i web.clients)) [
  | inr old ↦ old
  | inl missing ↦ absurd (elim (Bool-cases (h == i)) [
    | inr other ↦ contrary (sym (find_key-other i h f web other ∙ missing) ∙ e)
    | inl same ↦
        contrary (sym (find_key-modify_key i h f web.clients ∙ rw (same, missing) refl) ∙ e)
  ])
]
  where
    contrary : {c : WebClient} → none ≡ some c → ⊥
    contrary h = cc

pub modify-IsLinked :
    (h : ℕ) (f : WebClient → WebClient) (web : Web)
    → Keeps web h f
    → IsLinked web
    → IsLinked (modify h f web)
unfolding modify
modify-IsLinked h f web keeps l = record {
  to_client = λ p i e. modify-HasClient h f web p i keeps (l.to_client p i e);
  to_pcb =
      λ i client e. let (old, found) = modify-before h f web i client e in l.to_pcb i old found;
  one_pcb = l.one_pcb;
}

-- A client of one server stays in another one, where the entry of its handle is the same.
moved-HasClient :
    (web web' : Web) (p h : ℕ)
    → find_key h web'.clients ≡ find_key h web.clients
    → HasClient web p h
    → HasClient web' p h
moved-HasClient web web' p h same (client, found, named, pcb) = (client, same ∙ found, named, pcb)

-- Two connections that differ have clients that differ.
other-pcb :
    (web : Web) (p q h i : ℕ)
    → IsLinked web
    → find_key p web.pcbs ≡ some h
    → find_key q web.pcbs ≡ some i
    → (p == q) ≡ false
    → (h == i) ≡ false
other-pcb web p q h i l eh ei differ = elim (Bool-cases (h == i)) [
  | inr e ↦ e
  | inl e ↦
      let same : h ≡ i = (==_iff h i).0 e in
      let one : p ≡ q = l.one_pcb p q h eh (ei ∙ ap some (sym same)) in ground (arith, one, differ)
]

other-client :
    (web : Web) (p q h i : ℕ)
    → find_key p web.pcbs ≡ some h
    → find_key q web.pcbs ≡ some i
    → (h == i) ≡ false
    → (p == q) ≡ false
other-client web p q h i eh ei differ = elim (Bool-cases (p == q)) [
  | inr e ↦ e
  | inl e ↦
      let same : p ≡ q = (==_iff p q).0 e in
      let both : some h ≡ some i = sym eh ∙ ap (λ (k : ℕ). find_key k web.pcbs) same ∙ ei in
      ground (arith, both, differ)
]

-- Without a connection and its client.
abbrev pub erased : ℕ → ℕ → Web → Web
erased p h web = record web { clients = erase_key h web.clients; pcbs = erase_key p web.pcbs }

erase-IsLinked :
    (p h : ℕ) (web : Web) → find_key p web.pcbs ≡ some h → IsLinked web → IsLinked (erased p h web)
erase-IsLinked p h web eh l = record {
  to_client = λ q i e.
      let (differ, found) = find_key-erased q p i web.pcbs e in
      let other = other-pcb web p q h i l eh found differ in
      moved-HasClient web (erased p h web) q i (find_key-erase_key i h web.clients ∙ rw other refl)
        (l.to_client q i found);
  to_pcb = λ i client e.
      let (differ, found) = find_key-erased i h client web.clients e in
      let (q, eq) = l.to_pcb i client found in
      let other = other-client web p q h i eh eq differ in
      (q, find_key-erase_key q p web.pcbs ∙ rw other eq);
  one_pcb = λ q r i eq er.
      l.one_pcb q r i (find_key-erased q p i web.pcbs eq).1 (find_key-erased r p i web.pcbs er).1;
}

pub delete-IsLinked : (pcb : Option ℕ) (web : Web) → IsLinked web → IsLinked (delete_client pcb web)
unfolding delete_client
delete-IsLinked none web l = l
delete-IsLinked (some p) web l = elim (Option-cases (find_key p web.pcbs)) [
  | inl e ↦ rw (delete_client, e) l
  | inr (h, e) ↦ rw (delete_client, e) (erase-IsLinked p h web e l)
]

-- With a new client.
abbrev pub entered : ℕ → ℕ → Web → Web
entered p h web = record web {
  clients = emplace h (new_client p h) web.clients;
  pcbs = emplace p h web.pcbs;
  next_handle = h;
}

-- What the server has to know of a new connection and of a new handle.
module _ (p h : ℕ) (web : Web) (new_pcb : find_key p web.pcbs ≡ none)
    (unused : find_key h web.clients ≡ none) where
  new-HasClient : HasClient (entered p h web) p h
  unfolding new_client
  new-HasClient =
      let same : (h == h) ≡ true = (==_iff h h).1 refl in
      (
        new_client p h,
        find_key-emplace h h (new_client p h) web.clients unused ∙ rw same refl,
        refl,
        inl refl,
      )

  enter-to_client :
      (q i : ℕ)
      → IsLinked web
      → find_key q (emplace p h web.pcbs) ≡ some i
      → HasClient (entered p h web) q i
  enter-to_client q i l e = elim (find_key-emplaced q p h i web.pcbs new_pcb e) [
    | inl (same, handle) ↦
        subst (λ (r : ℕ). HasClient (entered p h web) r i) ((==_iff p q).0 same)
          (subst (λ (j : ℕ). HasClient (entered p h web) p j) handle new-HasClient)
    | inr (differ, found) ↦
        let old = l.to_client q i found in
        let other = find_key-differ i h (old.0) web.clients unused (old.1) in
        moved-HasClient web (entered p h web) q i
          (find_key-emplace i h (new_client p h) web.clients unused ∙ rw other refl) old
  ]

  enter-to_pcb :
      (i : ℕ) (client : WebClient)
      → IsLinked web
      → find_key i (emplace h (new_client p h) web.clients) ≡ some client
      → (q : ℕ) × (find_key q (emplace p h web.pcbs) ≡ some i)
  enter-to_pcb i client l e =
      elim (find_key-emplaced i h (new_client p h) client web.clients unused e) [
        | inl (same, _) ↦
            let here : (p == p) ≡ true = (==_iff p p).1 refl in
            (p, find_key-emplace p p h web.pcbs new_pcb ∙ rw here (ap some ((==_iff h i).0 same)))
        | inr (differ, found) ↦
            let (q, eq) = l.to_pcb i client found in
            let other = find_key-differ q p i web.pcbs new_pcb eq in
            (q, find_key-emplace q p h web.pcbs new_pcb ∙ rw other eq)
      ]

  -- A connection that was there does not lead to the new client.
  not_new : (q : ℕ) → IsLinked web → find_key q web.pcbs ≡ some h → ⊥
  not_new q l e =
      let (old, found, _, _) = l.to_client q h e in
      let both : none ≡ some old = sym unused ∙ found in cc

  enter-one_pcb :
      (q r i : ℕ)
      → IsLinked web
      → find_key q (emplace p h web.pcbs) ≡ some i
      → find_key r (emplace p h web.pcbs) ≡ some i
      → q ≡ r
  enter-one_pcb q r i l eq er = elim (find_key-emplaced q p h i web.pcbs new_pcb eq) [
    | inl (pq, hi) ↦ elim (find_key-emplaced r p h i web.pcbs new_pcb er) [
      | inl (pr, _) ↦ sym ((==_iff p q).0 pq) ∙ (==_iff p r).0 pr
      | inr (_, found) ↦ absurd (not_new r l (found ∙ ap some (sym hi)))
    ]
    | inr (_, fq) ↦ elim (find_key-emplaced r p h i web.pcbs new_pcb er) [
      | inl (_, hi) ↦ absurd (not_new q l (fq ∙ ap some (sym hi)))
      | inr (_, fr) ↦ l.one_pcb q r i fq fr
    ]
  ]

  enter-IsLinked : IsLinked web → IsLinked (entered p h web)
  enter-IsLinked l = record {
    to_client = λ q i e. enter-to_client q i l e;
    to_pcb = λ i client e. enter-to_pcb i client l e;
    one_pcb = λ q r i eq er. enter-one_pcb q r i l eq er;
  }

next_free_unused :
    (fuel : ℕ) (clients : List (ℕ × WebClient)) (n h : ℕ)
    → next_free fuel clients n ≡ some h
    → find_key h clients ≡ none
unfolding next_free
next_free_unused zero clients n h e = cc
next_free_unused (suc fuel) clients n h e =
    ground (arith, next_free_unused fuel clients (advance n) h)

pub next_handle_unused :
    (web : Web) (h : ℕ) → next_handle web ≡ some h → find_key h web.clients ≡ none
unfolding next_handle
next_handle_unused web h e = next_free_unused _ _ _ h e
