-- ===== src/Network/Web/Linked/Steps.antt =====
-- Every callback of the server keeps the two maps of the server in agreement.
use picolibs.Base.{
  ℕ, suc, ◌≡◌, refl, inl, inr, Bool, true, false, Option, none, some, List, if◌then◌else◌,
  Bool-cases, Option-cases, find_key, length, Holds, Holds-some, Holds-if, Holds-bind,
}
use picolibs.Network.Send.{acknowledge_queue, get_next_queue}
use picolibs.Network.Web.{
  Host, WebClient, Web, modify, set_closed, find_client, next_handle, add_client,
  acknowledge_client, mark_for_close, close_idle, close_client, write_bytes, write_next,
  send_buffer, segment,
}
use picolibs.Network.Web.Linked.{
  IsLinked, note-IsLinked, modify-IsLinked, delete-IsLinked, enter-IsLinked, next_handle_unused,
}

-- What an operation gives agrees.
abbrev pub Links : Option Web → Type 0
Links = Holds IsLinked

-- A change that leaves the handle, the connection and the mark as they are.
pub kept :
    (h : ℕ) (f : WebClient → WebClient) (web : Web)
    → ((client : WebClient) → (f client).handle ≡ client.handle)
    → ((client : WebClient) → (f client).pcb ≡ client.pcb)
    → ((client : WebClient) → (f client).closed ≡ client.closed)
    → IsLinked web
    → IsLinked (modify h f web)
kept h f web handle pcb mark l = modify-IsLinked h f web (λ c e. (handle c, inl (pcb c, mark c))) l

pub closed-IsLinked : (h : ℕ) (web : Web) → IsLinked web → IsLinked (modify h set_closed web)
unfolding set_closed
closed-IsLinked h web l = modify-IsLinked h set_closed web (λ c e. (refl, inr (refl, refl))) l

pub acknowledge_client-IsLinked :
    (h count : ℕ) (web : Web) → IsLinked web → Links (acknowledge_client h count web)
unfolding acknowledge_client
acknowledge_client-IsLinked h count web l =
    Holds-bind IsLinked (find_key h web.clients) _ (λ client found.
      Holds-bind IsLinked (acknowledge_queue (suc (length client.sendbuf)) count client.sendbuf) _
        (λ queue e. Holds-some IsLinked _ (kept h _ web (λ c. refl) (λ c. refl) (λ c. refl) l)))

pub mark_for_close-IsLinked :
    (pcb : Option ℕ) (web : Web) → IsLinked web → IsLinked (mark_for_close pcb web)
unfolding mark_for_close
mark_for_close-IsLinked pcb web l = elim (Option-cases (find_client pcb web)) [
  | inl e ↦ rw (mark_for_close, e) l
  | inr (h, e) ↦ rw (mark_for_close, e) (closed-IsLinked h web l)
]

pub add_client-IsLinked :
    (pcb : ℕ) (web : Web)
    → IsLinked web
    → Holds (λ (r : Option ℕ × Web). IsLinked (r.1)) (add_client pcb web)
unfolding add_client
add_client-IsLinked pcb web l = elim (Option-cases (find_key pcb web.pcbs)) [
  | inr (h, e) ↦ rw (add_client, e) (Holds-some _ (none, web) l)
  | inl new_pcb ↦
      rw (add_client, new_pcb)
        (Holds-bind _ (next_handle web) _
          (λ h e. Holds-some _ _ (enter-IsLinked pcb h web new_pcb (next_handle_unused web h e) l)))
]

pub if-IsLinked :
    (b : Bool) (web web' : Web) → IsLinked web → IsLinked web' → IsLinked (if b then web else web')
if-IsLinked true web web' l l' = l
if-IsLinked false web web' l l' = l'

module _ (host : Host) where
  close_idle-IsLinked :
      (pcb : Option ℕ) (h : ℕ) (web : Web) → IsLinked web → Links (close_idle host pcb h web)
  unfolding close_idle
  close_idle-IsLinked pcb h web l = Holds-bind IsLinked (find_key h web.clients) _ (λ client found.
      Holds-if IsLinked _ _ _ (Holds-some IsLinked _ l) (
        Holds-if IsLinked _ _ _
          (Holds-some IsLinked _ (delete-IsLinked pcb _ (note-IsLinked _ web l)))
          (Holds-some IsLinked _ (note-IsLinked _ web l))))

  pub close_client-IsLinked :
      (pcb : Option ℕ) (is_closed : Bool) (web : Web)
      → IsLinked web
      → Links (close_client host pcb is_closed web)
  unfolding close_client
  close_client-IsLinked pcb true web l = elim (Option-cases (find_client pcb web)) [
    | inl e ↦ rw (close_client, e) (Holds-some IsLinked _ l)
    | inr (h, e) ↦
        rw (close_client, e)
          (Holds-some IsLinked _
            (delete-IsLinked pcb _ (note-IsLinked _ _ (closed-IsLinked h web l))))
  ]
  close_client-IsLinked pcb false web l = elim (Option-cases (find_client pcb web)) [
    | inl e ↦ rw (close_client, e) (Holds-some IsLinked _ (note-IsLinked _ web l))
    | inr (h, e) ↦
        rw (close_client, e)
          (Holds-bind IsLinked (acknowledge_client h 0 (modify h set_closed web)) _ (λ web' a.
            close_idle-IsLinked pcb h web'
              (acknowledge_client-IsLinked h 0 _ (closed-IsLinked h web l) web' a)))
  ]

  write_bytes-IsLinked :
      (pcb h : ℕ) (bytes : List ℕ) (web : Web)
      → IsLinked web
      → IsLinked (write_bytes host pcb h bytes web)
  unfolding write_bytes
  write_bytes-IsLinked pcb h bytes web l = elim (Bool-cases (host.write_ok web.log pcb bytes)) [
    | inl e ↦ rw e (note-IsLinked _ web l)
    | inr e ↦ rw e (kept h _ _ (λ c. refl) (λ c. refl) (λ c. refl) (note-IsLinked _ web l))
  ]

  pub write_next-IsLinked :
      (pcb : Option ℕ) (web : Web) → IsLinked web → Links (write_next host pcb web)
  unfolding write_next
  write_next-IsLinked none web l = Holds-some IsLinked _ l
  write_next-IsLinked (some pcb) web l = elim (Option-cases (find_client (some pcb) web)) [
    | inl e ↦ rw (write_next, e) (Holds-some IsLinked _ l)
    | inr (h, e) ↦
        rw (write_next, e)
          (Holds-bind IsLinked (find_key h web.clients) _ (λ client found.
            Holds-bind IsLinked (get_next_queue (segment host web.log pcb) client.sendbuf) _
              (λ (ret, bytes, queue) got.
                let l1 =
                  kept h (λ c. record c { sendbuf = queue }) web (λ c. refl) (λ c. refl) (λ c. refl)
                    l in
                let l2 = if-IsLinked ret _ _ (write_bytes-IsLinked pcb h bytes _ l1) l1 in
                Holds-bind IsLinked (find_key h _) _ (λ client2 found2.
                  Holds-if IsLinked _ _ _ (close_client-IsLinked (some pcb) false _ l2)
                    (Holds-some IsLinked _ l2)))))
  ]

  pub send_buffer-IsLinked :
      (pcb : Option ℕ) (bytes : List ℕ) (web : Web)
      → IsLinked web
      → Links (send_buffer host pcb bytes web)
  unfolding send_buffer
  send_buffer-IsLinked pcb bytes web l = elim (Option-cases (find_client pcb web)) [
    | inl e ↦ rw (send_buffer, e) (Holds-some IsLinked _ l)
    | inr (h, e) ↦
        rw (send_buffer, e)
          (write_next-IsLinked pcb _ (kept h _ web (λ c. refl) (λ c. refl) (λ c. refl) l))
  ]
