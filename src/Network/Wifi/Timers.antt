-- ===== src/Network/Wifi/Timers.antt =====
-- What the timer of the WiFi does as long as the link stays as it is.
use picolibs.Base.{
  ℕ, zero, suc, ◌+◌, ◌-◌, ◌*◌, ◌^◌, ◌<◌, ◌≡◌, refl, ap, ◌∙◌, true, false, List, ◌∷◌, arith, ltb,
  ◌==◌, ==_iff, Bool-cases, inl, inr, u32,
}
use picolibs.Network.Wifi.{
  link_down, link_join, link_noip, link_up, link_fail, link_nonet, link_badauth, link_other,
  set_hostname, start_connect, ap_is_inactive, disable_ap_mode, Link, link_number, Wifi,
  send_notice, sta_disconnected, ap_is_active, enable_ap_mode, ask, is_empty, is_lost,
  connect_to_wifi, reconnect, check_reconnect, check_link, link_changed, linked_down, count_ap,
  is_positive, start_ap, stop_ap, check_ap, check_wifi, enable_ap,
}

-- `check_wifi` as often as the timer calls it, with a link that stays.
unfoldable pub ticks : ℕ → Wifi → Wifi
ticks zero w = w
ticks (suc n) w = ticks n (check_wifi w.state w.addr w)

check_link-same : (w : Wifi) → check_link w.state w.addr w ≡ w
unfolding check_link
check_link-same w =
    let state : (link_number w.state == link_number w.state) ≡ true =
      (==_iff (link_number w.state) (link_number w.state)).1 refl in
    let addr : (w.addr == w.addr) ≡ true = (==_iff w.addr w.addr).1 refl in
    rw (check_link, state, addr) refl

-- With a time to the next attempt, and no access point.
abbrev pub waiting : ℕ → Wifi → Wifi
waiting n w = record w { reconnect_time = n; ap_active = 0; ap_requested = 0 }

more : (n : ℕ) → (suc n == 0) ≡ false
more n = ground arith

check_wifi-waiting :
    (n : ℕ) (w : Wifi) → check_wifi w.state w.addr (waiting (suc (suc n)) w) ≡ waiting (suc n) w
unfolding check_wifi check_reconnect check_ap count_ap
check_wifi-waiting n w = rw (check_wifi, check_link-same (waiting (suc (suc n)) w), more n) refl

check_ap-connect :
    (w : Wifi)
    → is_empty w.ssid ≡ false
    → check_ap (connect_to_wifi w.hostname w.ssid w.pwd (waiting 0 w))
      ≡ connect_to_wifi w.hostname w.ssid w.pwd (waiting 0 w)
unfolding check_ap count_ap connect_to_wifi set_hostname start_connect
check_ap-connect w named = elim (Bool-cases (is_empty w.hostname)) [
  | inl e ↦ rw (check_ap, connect_to_wifi, set_hostname, start_connect, e, named) refl
  | inr e ↦ rw (check_ap, connect_to_wifi, set_hostname, start_connect, e, named) refl
]

check_wifi-last :
    (w : Wifi)
    → is_lost w.state ≡ true
    → is_empty w.ssid ≡ false
    → check_wifi w.state w.addr (waiting 1 w)
      ≡ connect_to_wifi w.hostname w.ssid w.pwd (waiting 0 w)
unfolding check_wifi check_reconnect reconnect
check_wifi-last w lost named =
    rw (check_wifi, check_link-same (waiting 1 w), lost, named) (check_ap-connect w named)

ticks-waiting : (k n : ℕ) (w : Wifi) → ticks k (waiting (k + suc n) w) ≡ waiting (suc n) w
unfolding ticks
ticks-waiting zero n w = let e : 0 + suc n ≡ suc n = omega arith in ap (λ (i : ℕ). waiting i w) e
ticks-waiting (suc k) n w =
    let e : suc k + suc n ≡ suc (suc (k + n)) = omega arith in
    let e' : suc (k + n) ≡ k + suc n = omega arith in
    ap (λ (i : ℕ). ticks (suc k) (waiting i w)) e
    ∙ ap (ticks k) (check_wifi-waiting (k + n) w ∙ ap (λ (i : ℕ). waiting i w) e')
    ∙ ticks-waiting k n w

ticks-last :
    (n : ℕ) (w : Wifi)
    → is_lost w.state ≡ true
    → is_empty w.ssid ≡ false
    → ticks (suc n) (waiting (suc n) w) ≡ connect_to_wifi w.hostname w.ssid w.pwd (waiting 0 w)
unfolding ticks
ticks-last zero w lost named = check_wifi-last w lost named
ticks-last (suc n) w lost named =
    ap (ticks (suc n)) (check_wifi-waiting n w) ∙ ticks-last n w lost named

-- The server after it has seen that the connection is lost, at its first look.
check_wifi-lost :
    (sts : Link) (address : ℕ) (w : Wifi)
    → (link_number sts == link_number w.state) ≡ false
    → is_lost sts ≡ true
    → check_wifi sts address (waiting 0 w)
      ≡ waiting 599 (ask (send_notice sta_disconnected) (record w { state = sts; addr = address }))
unfolding check_wifi check_link link_changed linked_down check_reconnect check_ap count_ap
check_wifi-lost link_down address w differ lost = rw (check_wifi, check_link, differ) refl
check_wifi-lost link_join address w differ lost = cc
check_wifi-lost link_noip address w differ lost = cc
check_wifi-lost link_up address w differ lost = cc
check_wifi-lost link_fail address w differ lost = rw (check_wifi, check_link, differ) refl
check_wifi-lost link_nonet address w differ lost = rw (check_wifi, check_link, differ) refl
check_wifi-lost link_badauth address w differ lost = cc
check_wifi-lost (link_other n) address w differ lost = cc

-- The connection is lost while no access point runs: the link goes down, fails or finds no network, with a name of a
-- network known. The application is told at once; if the link stays, nothing more is asked for 599 calls of the timer, and
-- the next call, 300 seconds after the loss, connects again with the same names.
pub reconnects :
    (sts : Link) (address : ℕ) (w : Wifi) (k : ℕ)
    → (link_number sts == link_number w.state) ≡ false
    → is_lost sts ≡ true
    → is_empty w.ssid ≡ false
    → k < 599
    → let seen = ask (send_notice sta_disconnected) (record w { state = sts; addr = address }) in
      ((ticks k (check_wifi sts address (waiting 0 w))).asked ≡ seen.asked)
      × (ticks 599 (check_wifi sts address (waiting 0 w))
          ≡ connect_to_wifi w.hostname w.ssid w.pwd (waiting 0 seen))
reconnects sts address w k differ lost named early =
    let seen : Wifi =
      ask (send_notice sta_disconnected) (record w { state = sts; addr = address }) in
    let rest : 599 ≡ k + suc (598 - k) = omega (arith, early) in
    let first = check_wifi-lost sts address w differ lost in
    (
      ap (λ (v : Wifi). (ticks k v).asked) (first ∙ ap (λ (i : ℕ). waiting i seen) rest)
          ∙ ap (λ (v : Wifi). v.asked) (ticks-waiting k (598 - k) seen),
      ap (ticks 599) first ∙ ticks-last 598 seen lost named,
    )

-- With an access point for so many calls of the timer, and no attempt to connect.
abbrev pub running : ℕ → Wifi → Wifi
running n w = record w { reconnect_time = 0; ap_active = n; ap_requested = 0 }

positive : (n : ℕ) → suc n < 2 ^ 31 → is_positive (suc n) ≡ true
positive n h = ground (arith, h)

check_wifi-running :
    (n : ℕ) (w : Wifi)
    → suc (suc n) < 2 ^ 31
    → check_wifi w.state w.addr (running (suc (suc n)) w) ≡ running (suc n) w
unfolding check_wifi check_reconnect check_ap count_ap
check_wifi-running n w small =
    let one_less : suc (suc n) - 1 ≡ suc n = omega arith in
    rw
      (
        check_wifi,
        check_link-same (running (suc (suc n)) w),
        positive (suc n) small,
        one_less,
        more n,
      )
      refl

check_wifi-stop : (w : Wifi) → check_wifi w.state w.addr (running 1 w) ≡ stop_ap (running 0 w)
unfolding check_wifi check_reconnect check_ap count_ap stop_ap
check_wifi-stop w = rw (check_wifi, check_link-same (running 1 w)) refl

check_wifi-enable :
    (m : ℕ) (name : List ℕ) (w : Wifi)
    → suc m * 60 * 2 < 2 ^ 31
    → check_wifi w.state w.addr (enable_ap (suc m) name (running 0 w))
      ≡ running
          (suc m * 60 * 2)
          (ask (send_notice ap_is_active) (ask (enable_ap_mode name) (record w { ap_name = name })))
unfolding check_wifi check_reconnect check_ap count_ap enable_ap start_ap
check_wifi-enable m name w small =
    let some_minutes : ltb 0 (suc m) ≡ true = ground arith in
    let whole : u32 (suc m * 60 * 2) ≡ suc m * 60 * 2 = omega (arith, small) in
    rw (check_wifi, check_link-same (enable_ap (suc m) name (running 0 w)), some_minutes, whole)
      refl

ticks-running :
    (k n : ℕ) (w : Wifi) → k + suc n < 2 ^ 31 → ticks k (running (k + suc n) w) ≡ running (suc n) w
unfolding ticks
ticks-running zero n w small =
    let e : 0 + suc n ≡ suc n = omega arith in ap (λ (i : ℕ). running i w) e
ticks-running (suc k) n w small =
    let e : suc k + suc n ≡ suc (suc (k + n)) = omega arith in
    let e' : suc (k + n) ≡ k + suc n = omega arith in
    ap (λ (i : ℕ). ticks (suc k) (running i w)) e
    ∙ ap (ticks k)
        (check_wifi-running (k + n) w (omega (arith, small)) ∙ ap (λ (i : ℕ). running i w) e')
    ∙ ticks-running k n w (omega (arith, small))

ticks-stop :
    (n : ℕ) (w : Wifi) → suc n < 2 ^ 31 → ticks (suc n) (running (suc n) w) ≡ stop_ap (running 0 w)
unfolding ticks
ticks-stop zero w small = check_wifi-stop w
ticks-stop (suc n) w small =
    ap (ticks (suc n)) (check_wifi-running n w small) ∙ ticks-stop n w (omega (arith, small))

-- An access point is enabled for some minutes, whose half seconds an `int` can count, while none runs and no attempt to connect is pending, and the link stays.
-- The next call of the timer starts it; it runs, with nothing else asked, for 120 calls of the timer for each minute, and the
-- last of them stops it.
pub access_point_stops :
    (m : ℕ) (name : List ℕ) (w : Wifi) (k : ℕ)
    → suc m * 60 * 2 < 2 ^ 31
    → k < suc m * 60 * 2
    → let started = check_wifi w.state w.addr (enable_ap (suc m) name (running 0 w)) in
      let asked = send_notice ap_is_active ∷ enable_ap_mode name ∷ w.asked in
      ((ticks k started).ap_active ≡ suc m * 60 * 2 - k)
      × ((ticks k started).asked ≡ asked)
      × ((ticks (suc m * 60 * 2) started).ap_active ≡ 0)
      × ((ticks (suc m * 60 * 2) started).asked
          ≡ send_notice ap_is_inactive ∷ disable_ap_mode ∷ asked)
unfolding stop_ap
access_point_stops m name w k small early =
    let w1 : Wifi =
      ask (send_notice ap_is_active) (ask (enable_ap_mode name) (record w { ap_name = name })) in
    let n = suc m * 60 * 2 in
    let rest : n ≡ k + suc (n - k - 1) = omega (arith, early) in
    let left : suc (n - k - 1) ≡ n - k = omega (arith, early) in
    let all : n ≡ suc (n - 1) = omega (arith, early) in
    let first = check_wifi-enable m name w small in
    let then_k : ticks k (running n w1) ≡ running (suc (n - k - 1)) w1 =
      ap (λ (i : ℕ). ticks k (running i w1)) rest
      ∙ ticks-running k (n - k - 1) w1 (omega (arith, small, early)) in
    let at_end : ticks n (running n w1) ≡ stop_ap (running 0 w1) =
      ap (λ (i : ℕ). ticks i (running i w1)) all
      ∙ ticks-stop (n - 1) w1 (omega (arith, small, early)) in
    (
      ap (λ (v : Wifi). (ticks k v).ap_active) first ∙ ap (λ (v : Wifi). v.ap_active) then_k ∙ left,
      ap (λ (v : Wifi). (ticks k v).asked) first ∙ ap (λ (v : Wifi). v.asked) then_k,
      ap (λ (v : Wifi). (ticks n v).ap_active) first ∙ ap (λ (v : Wifi). v.ap_active) at_end,
      ap (λ (v : Wifi). (ticks n v).asked) first ∙ ap (λ (v : Wifi). v.asked) at_end,
    )
