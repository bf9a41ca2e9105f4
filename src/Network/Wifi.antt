-- ===== src/Network/Wifi.antt =====
-- The WiFi side of `WEB` (network/web.{h,cpp}): connecting, the timer that follows the link and the access point, and
-- scans. What the driver answers is an argument; what is asked of it, and the notices, are a log, newest first. The
-- log's messages are left out.
pub mod Timers
pub mod Scans
mod Tests
use picolibs.Base.{
  ℕ, zero, suc, ◌+◌, ◌-◌, ◌*◌, ◌^◌, Bool, true, false, not, ◌&&◌, ◌||◌, Option, none, some, List,
  [], ◌∷◌, ◌++◌, ltb, ◌==◌, if◌then◌else◌, length, u32,
}
use picolibs.Network.Http.{same_text, text_less}

-- `CYW43_LINK_*`, and any other number.
pub data Link : Type 0 where
  link_down : Link
  link_join : Link
  link_noip : Link
  link_up : Link
  link_fail : Link
  link_nonet : Link
  link_badauth : Link
  link_other : ℕ → Link

abbrev pub link_number : Link → ℕ
link_number link_down = 0
link_number link_join = 1
link_number link_noip = 2
link_number link_up = 3
link_number link_fail = 4
link_number link_nonet = 5
link_number link_badauth = 6
link_number (link_other n) = 7 + n

-- `STA_*` and `AP_*`
pub data Notice : Type 0 where
  sta_initializing : Notice
  sta_connected : Notice
  sta_disconnected : Notice
  ap_is_active : Notice
  ap_is_inactive : Notice

pub data Ask : Type 0 where
  set_name : List ℕ → Ask
  connect_async : List ℕ → List ℕ → Ask
  leave : Ask
  mdns_remove : Ask
  mdns_add : List ℕ → Ask
  enable_ap_mode : List ℕ → Ask
  disable_ap_mode : Ask
  start_scan : Ask
  scan_done : ℕ → List (List ℕ × ℕ) → Ask
  send_notice : Notice → Ask

-- `ScanRqst`: whether it has a callback. What a callback does is left out.
pub record ScanRqst : Type 0 where
  pub client : ℕ
  pub has_callback : Bool

-- The members of `WEB` for the WiFi. An address is a number, and so is a strength. The minutes of an access point are not
-- negative; `ap_active` is an `int` as its 32-bit pattern.
pub record Wifi : Type 0 where
  pub hostname : List ℕ
  pub ssid : List ℕ
  pub pwd : List ℕ
  pub state : Link
  pub addr : ℕ
  pub reconnect_time : ℕ
  pub ap_name : List ℕ
  pub ap_active : ℕ
  pub ap_requested : ℕ
  pub mdns_active : Bool
  pub scans : List ScanRqst
  pub ssids : List (List ℕ × ℕ)
  pub asked : List Ask

abbrev pub ask : Ask → Wifi → Wifi
ask a w = record w { asked = a ∷ w.asked }

abbrev pub reconnect_interval : ℕ
reconnect_interval = 600

abbrev pub is_empty : List ℕ → Bool
is_empty [] = true
is_empty (x ∷ xs) = false

unfoldable pub set_hostname : List ℕ → Wifi → Wifi
set_hostname name w = if is_empty name then w else ask (set_name name) w

unfoldable pub start_connect : Wifi → Wifi
start_connect w = if is_empty w.ssid then w else ask (connect_async w.ssid w.pwd) w

unfoldable pub connect_to_wifi : List ℕ → List ℕ → List ℕ → Wifi → Wifi
connect_to_wifi name id password w =
    start_connect
      (record (set_hostname name (record w { hostname = name })) { ssid = id; pwd = password })

-- What `update_wifi` says of a link that stays.
unfoldable pub repeat_notice : Wifi → Wifi
repeat_notice w = elim w.state [
  | link_down ↦ ask (send_notice sta_disconnected) w
  | link_join ↦ ask (send_notice sta_initializing) w
  | link_noip ↦ ask (send_notice sta_initializing) w
  | link_up ↦ ask (send_notice sta_connected) w
  | link_fail ↦ ask (send_notice sta_disconnected) w
  | link_nonet ↦ ask (send_notice sta_disconnected) w
  | link_badauth ↦ ask (send_notice sta_disconnected) w
  | link_other n ↦ w
]

unfoldable pub update_wifi : List ℕ → List ℕ → List ℕ → Wifi → Wifi
update_wifi name id password w =
    if not (same_text name w.hostname && same_text id w.ssid && same_text password w.pwd)
    then connect_to_wifi name id password (ask leave w)
    else repeat_notice w

-- A link that comes up. The address that is announced is not modelled.
unfoldable pub linked_up : Wifi → Wifi
linked_up w =
    let w1 : Wifi = if w.mdns_active then ask mdns_remove w else w in
    record (ask (send_notice sta_connected) (ask (mdns_add w.hostname) w1)) {
      mdns_active = true;
      reconnect_time = 0;
    }

unfoldable pub linked_down : Wifi → Wifi
linked_down w = record (ask (send_notice sta_disconnected) w) {
  reconnect_time = reconnect_interval;
}

-- What `check_wifi` does with a link that has changed.
unfoldable pub link_changed : Wifi → Wifi
link_changed w = elim w.state [
  | link_down ↦ linked_down w
  | link_join ↦ ask (send_notice sta_initializing) w
  | link_noip ↦ ask (send_notice sta_initializing) w
  | link_up ↦ linked_up w
  | link_fail ↦ linked_down w
  | link_nonet ↦ linked_down w
  | link_badauth ↦ ask (send_notice sta_disconnected) w
  | link_other n ↦ w
]

unfoldable pub check_link : Link → ℕ → Wifi → Wifi
check_link sts address w =
    if not (link_number sts == link_number w.state) || not (address == w.addr)
    then link_changed (record w { state = sts; addr = address })
    else w

-- The states in which a connection is tried again.
abbrev pub is_lost : Link → Bool
is_lost link_down = true
is_lost link_join = false
is_lost link_noip = false
is_lost link_up = false
is_lost link_fail = true
is_lost link_nonet = true
is_lost link_badauth = false
is_lost (link_other n) = false

unfoldable pub reconnect : Wifi → Wifi
reconnect w =
    if is_lost w.state && not (is_empty w.ssid)
    then connect_to_wifi w.hostname w.ssid w.pwd w
    else w

unfoldable pub check_reconnect : Wifi → Wifi
check_reconnect w = elim w.reconnect_time [
  | zero ↦ w
  | suc n ↦ let w1 : Wifi = record w { reconnect_time = n } in if n == 0 then reconnect w1 else w1
]

abbrev pub is_positive : ℕ → Bool
is_positive n = ltb 0 n && ltb n (2 ^ 31)

-- A product that overflows wraps.
unfoldable pub start_ap : Wifi → Wifi
start_ap w =
    let w1 : Wifi = if w.ap_active == 0 then ask (enable_ap_mode w.ap_name) w else w in
    ask (send_notice ap_is_active)
      (record w1 { ap_active = u32 (w.ap_requested * 60 * 2); ap_requested = 0 })

unfoldable pub stop_ap : Wifi → Wifi
stop_ap w = ask (send_notice ap_is_inactive) (ask disable_ap_mode w)

unfoldable pub count_ap : Wifi → Wifi
count_ap w =
    let w1 : Wifi = record w { ap_active = w.ap_active - 1 } in
    if is_positive w.ap_active then (if w1.ap_active == 0 then stop_ap w1 else w1) else w

unfoldable pub check_ap : Wifi → Wifi
check_ap w = let w1 = count_ap w in if ltb 0 w1.ap_requested then start_ap w1 else w1

-- `check_wifi`, with the state and the address of the link.
unfoldable pub check_wifi : Link → ℕ → Wifi → Wifi
check_wifi sts address w = check_ap (check_reconnect (check_link sts address w))

unfoldable pub enable_ap : ℕ → List ℕ → Wifi → Wifi
enable_ap minutes name w = record w { ap_requested = minutes; ap_name = name }

-- `scan_wifi`, with whether a scan is active.
unfoldable pub scan_wifi : Bool → ScanRqst → Wifi → Wifi
scan_wifi active rqst w =
    let w1 : Wifi = if active then w else record (ask start_scan w) { scans = [] } in
    record w1 { scans = w1.scans ++ (rqst ∷ []) }

-- `ssids_[name] = strength`; the entries of the map are in the order of their names.
unfoldable pub set_ssid : List ℕ → ℕ → List (List ℕ × ℕ) → List (List ℕ × ℕ)
set_ssid name strength [] = (name, strength) ∷ []
set_ssid name strength ((other, s) ∷ found) =
    if same_text other name
    then (other, strength) ∷ found
    else if text_less name other
    then (name, strength) ∷ (other, s) ∷ found
    else (other, s) ∷ set_ssid name strength found

unfoldable pub scan_cb : Option (List ℕ × ℕ) → Wifi → Wifi
scan_cb none w = w
scan_cb (some (name, strength)) w = record w { ssids = set_ssid name strength w.ssids }

-- The calls of `check_scan_finished`.
unfoldable pub call_scans : List ScanRqst → Wifi → Wifi
call_scans [] w = w
call_scans (rqst ∷ scans) w =
    call_scans scans (if rqst.has_callback then ask (scan_done rqst.client w.ssids) w else w)

unfoldable pub check_scan_finished : Bool → Wifi → Wifi
check_scan_finished active w = elim w.scans [
  | [] ↦ w
  | rqst ∷ scans ↦
      if active then w else record (call_scans (rqst ∷ scans) w) { scans = []; ssids = [] }
]

unfoldable pub timer_callback : Link → ℕ → Bool → Wifi → Wifi
timer_callback sts address active w = check_scan_finished active (check_wifi sts address w)
