-- ===== src/Network/Web/Handles.antt =====
-- The handles of clients (`nextHandle`, network/web.{h,cpp}).
use picolibs.Base.{
  ℕ, zero, suc, ◌+◌, ◌-◌, ◌<◌, ◌≤◌, ◌≡◌, refl, inl, inr, none, some, List, [], ◌∷◌, arith, leb,
  if◌then◌else◌, Option-cases, find_key, length, ◌^◌,
}
use picolibs.Network.Web.{WebClient, Web, advance, next_free, next_handle}

-- How many clients have a handle from `n` on.
handles_from : ℕ → List (ℕ × WebClient) → ℕ
handles_from n [] = 0
handles_from n ((k, client) ∷ clients) =
    if leb n k then suc (handles_from n clients) else handles_from n clients

handles_from_bound :
    (n : ℕ) (clients : List (ℕ × WebClient)) → handles_from n clients ≤ length clients
unfolding handles_from
handles_from_bound n [] = omega arith
handles_from_bound n ((k, client) ∷ clients) = ground (arith, handles_from_bound n clients)

handles_from_suc :
    (n : ℕ) (clients : List (ℕ × WebClient)) → handles_from (n + 1) clients ≤ handles_from n clients
unfolding handles_from
handles_from_suc n [] = omega arith
handles_from_suc n ((k, client) ∷ clients) = ground (arith, handles_from_suc n clients)

handles_from_used :
    (n : ℕ) (client : WebClient) (clients : List (ℕ × WebClient))
    → find_key n clients ≡ some client
    → handles_from (n + 1) clients < handles_from n clients
unfolding handles_from
handles_from_used n client [] e = cc
handles_from_used n client ((k, c) ∷ clients) e =
    ground (arith, handles_from_suc n clients, handles_from_used n client clients)

advance-small : (n : ℕ) → n + 1 < 2 ^ 32 → advance n ≡ n + 1
unfolding advance
advance-small n h = ground arith

next_free_found :
    (fuel : ℕ) (clients : List (ℕ × WebClient)) (n : ℕ)
    → handles_from n clients < fuel
    → n + handles_from n clients < 2 ^ 32 - 1
    → (h : ℕ) × (next_free fuel clients n ≡ some h)
      × (find_key h clients ≡ none)
      × (n ≤ h)
      × (h ≤ n + handles_from n clients)
unfolding next_free
next_free_found zero clients n enough room = absurd (omega arith)
next_free_found (suc fuel) clients n enough room = elim (Option-cases (find_key n clients)) [
  | inl e ↦ (n, rw (next_free, e) refl, e, omega arith, omega arith)
  | inr (client, e) ↦
      let less = handles_from_used n client clients e in
      let (h, found, unused, from_n, bound) =
        next_free_found fuel clients (n + 1) (omega arith) (omega arith) in
      (h, rw (next_free, e, advance-small n (omega arith)) found, unused, omega arith, omega arith)
]

-- While the counter does not come near its end, a new handle is always found: it is none of those in use, it is greater
-- than the last one that was given, so none is given twice, and by at most one more than there are clients.
pub next_handle_returns :
    (web : Web)
    → web.next_handle + 1 + length web.clients < 2 ^ 32 - 1
    → (h : ℕ) × (next_handle web ≡ some h)
      × (find_key h web.clients ≡ none)
      × (web.next_handle < h)
      × (h ≤ web.next_handle + 1 + length web.clients)
unfolding next_handle
next_handle_returns web room =
    let bound = handles_from_bound (web.next_handle + 1) web.clients in
    let (h, found, unused, from_n, upper) =
      next_free_found (suc (length web.clients)) web.clients (web.next_handle + 1) (omega arith)
        (omega arith) in
    (h, rw (advance-small web.next_handle (omega arith)) found, unused, omega arith, omega arith)
