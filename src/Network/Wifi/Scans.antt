-- ===== src/Network/Wifi/Scans.antt =====
-- Who is told of the networks that a scan has found.
use picolibs.Base.{
  ℕ, ◌≡◌, refl, sym, ap, ◌∙◌, true, false, inl, inr, Bool-cases, Option, none, some, List, [], ◌∷◌,
  ◌++◌, append-nil, append_assoc, if◌then◌else◌,
}
use picolibs.Network.Http.{same_text, text_less}
use picolibs.Network.Http.Order.{same_text_eq, same_text_comm}
use picolibs.Network.Wifi.{
  Ask, start_scan, scan_done, ask, ScanRqst, Wifi, scan_wifi, scan_cb, set_ssid, call_scans,
  check_scan_finished,
}

-- The calls of the callbacks, one for each request that has one, newest first.
unfoldable pub calls_of : List (List ℕ × ℕ) → List ScanRqst → List Ask
calls_of ssids [] = []
calls_of ssids (rqst ∷ scans) =
    calls_of ssids scans ++ (if rqst.has_callback then scan_done rqst.client ssids ∷ [] else [])

-- Requests while a scan is active.
unfoldable pub scan_more : List ScanRqst → Wifi → Wifi
scan_more [] w = w
scan_more (rqst ∷ rqsts) w = scan_more rqsts (scan_wifi true rqst w)

-- Networks that the driver reports.
unfoldable pub scan_results : List (List ℕ × ℕ) → Wifi → Wifi
scan_results [] w = w
scan_results (found ∷ rest) w = scan_results rest (scan_cb (some found) w)

call_scans_asked :
    (scans : List ScanRqst) (w : Wifi)
    → (call_scans scans w).asked ≡ calls_of w.ssids scans ++ w.asked
unfolding call_scans calls_of
call_scans_asked [] w = refl
call_scans_asked (rqst ∷ scans) w = elim (Bool-cases rqst.has_callback) [
  | inl e ↦
      rw (call_scans, calls_of, e)
        (call_scans_asked scans (ask (scan_done rqst.client w.ssids) w)
          ∙ sym
              (append_assoc (calls_of w.ssids scans) (scan_done rqst.client w.ssids ∷ []) w.asked))
  | inr e ↦
      rw (call_scans, calls_of, e)
        (call_scans_asked scans w
          ∙ ap (λ (l : List Ask). l ++ w.asked) (sym (append-nil (calls_of w.ssids scans))))
]

scan_more_same :
    (rqsts : List ScanRqst) (w : Wifi) → scan_more rqsts w ≡ record w { scans = w.scans ++ rqsts }
unfolding scan_more scan_wifi
scan_more_same [] w = ap (λ (l : List ScanRqst). record w { scans = l }) (sym (append-nil w.scans))
scan_more_same (rqst ∷ rqsts) w =
    scan_more_same rqsts (record w { scans = w.scans ++ (rqst ∷ []) })
    ∙ ap (λ (l : List ScanRqst). record w { scans = l }) (append_assoc w.scans (rqst ∷ []) rqsts)

-- The networks that are known after results.
unfoldable pub found_in : List (List ℕ × ℕ) → List (List ℕ × ℕ) → List (List ℕ × ℕ)
found_in [] ssids = ssids
found_in ((name, strength) ∷ rest) ssids = found_in rest (set_ssid name strength ssids)

-- The strength of a network among some.
unfoldable pub strength_of : List ℕ → List (List ℕ × ℕ) → Option ℕ
strength_of name [] = none
strength_of name ((other, strength) ∷ found) =
    if same_text other name then some strength else strength_of name found

-- The strength that a network was last reported with; `old` is what was known before.
unfoldable pub last_reported : List ℕ → List (List ℕ × ℕ) → Option ℕ → Option ℕ
last_reported name [] old = old
last_reported name ((other, strength) ∷ rest) old =
    last_reported name rest (if same_text other name then some strength else old)

strength_of-set_ssid :
    (name key : List ℕ) (strength : ℕ) (found : List (List ℕ × ℕ))
    → strength_of name (set_ssid key strength found)
      ≡ (if same_text key name then some strength else strength_of name found)
unfolding strength_of set_ssid
strength_of-set_ssid name key strength [] = refl
strength_of-set_ssid name key strength ((other, s) ∷ found) =
    elim (Bool-cases (same_text other key)) [
      | inl e ↦
          let same : other ≡ key = same_text_eq other key e in
          rw (set_ssid, e, strength_of, same)
            (elim (Bool-cases (same_text key name)) [ inl f ↦ rw f refl | inr f ↦ rw f refl ])
      | inr e ↦ elim (Bool-cases (text_less key other)) [
        | inl l ↦ rw (set_ssid, e, l) refl
        | inr l ↦
            rw (set_ssid, e, l, strength_of-set_ssid name key strength found)
              (elim (Bool-cases (same_text other name)) [
                | inr f ↦ rw f refl
                | inl f ↦
                    let same : other ≡ name = same_text_eq other name f in
                    let differ : same_text key name ≡ false =
                      same_text_comm key name
                      ∙ ap (λ (t : List ℕ). same_text t key) (sym same)
                      ∙ e in
                    rw (f, differ) refl
              ])
      ]
    ]

strength_of-found_in :
    (name : List ℕ) (results ssids : List (List ℕ × ℕ))
    → strength_of name (found_in results ssids)
      ≡ last_reported name results (strength_of name ssids)
unfolding found_in last_reported
strength_of-found_in name [] ssids = refl
strength_of-found_in name ((key, strength) ∷ rest) ssids =
    strength_of-found_in name rest (set_ssid key strength ssids)
    ∙ ap (last_reported name rest) (strength_of-set_ssid name key strength ssids)

scan_results_same :
    (results : List (List ℕ × ℕ)) (w : Wifi)
    → scan_results results w ≡ record w { ssids = found_in results w.ssids }
unfolding scan_results scan_cb found_in
scan_results_same [] w = refl
scan_results_same ((name, strength) ∷ rest) w =
    scan_results_same rest (record w { ssids = set_ssid name strength w.ssids })

check_scan_finished_asked :
    (rqst : ScanRqst) (scans : List ScanRqst) (w : Wifi)
    → w.scans ≡ rqst ∷ scans
    → ((check_scan_finished false w).asked ≡ calls_of w.ssids (rqst ∷ scans) ++ w.asked)
      × ((check_scan_finished false w).scans ≡ [])
      × ((check_scan_finished false w).ssids ≡ [])
unfolding check_scan_finished
check_scan_finished_asked rqst scans w e = (
  rw (check_scan_finished, e) (call_scans_asked (rqst ∷ scans) w),
  rw (check_scan_finished, e) refl,
  rw (check_scan_finished, e) refl,
)

-- A request starts a scan, others follow while it is active, and the driver reports networks. When the timer then finds
-- the scan finished, each of these requests that has a callback is answered, in their order and with the same networks: each
-- with the strength that it was last reported with, or that it had before, and no others. Nothing is kept. Requests that were pending when the scan started are not answered, whatever they were.
pub scans_answered :
    (rqst : ScanRqst) (rqsts : List ScanRqst) (results : List (List ℕ × ℕ)) (w : Wifi)
    (name : List ℕ)
    → let w1 = scan_results results (scan_more rqsts (scan_wifi false rqst w)) in
      ((check_scan_finished false w1).asked
        ≡ calls_of (found_in results w.ssids) (rqst ∷ rqsts) ++ (start_scan ∷ w.asked))
      × (strength_of name (found_in results w.ssids)
          ≡ last_reported name results (strength_of name w.ssids))
      × ((check_scan_finished false w1).scans ≡ [])
      × ((check_scan_finished false w1).ssids ≡ [])
unfolding scan_wifi
scans_answered rqst rqsts results w name =
    let w0 : Wifi = scan_wifi false rqst w in
    let same =
      scan_results_same results (scan_more rqsts w0)
      ∙ ap (λ (v : Wifi). record v { ssids = found_in results v.ssids })
          (scan_more_same rqsts w0) in
    let last = record (record w0 { scans = rqst ∷ rqsts }) { ssids = found_in results w0.ssids } in
    let (asked, none_left, forgotten) = check_scan_finished_asked rqst rqsts last refl in
    rw same (asked, strength_of-found_in name results w.ssids, none_left, forgotten)
