-- ===== src/Network/Wifi/Tests.antt =====
-- A server at home, whose connection is lost, which has an access point, and which is asked for the networks.
use picolibs.Base.{◌-◌, ◌*◌, ◌≡◌, refl, true, false, some, [], ◌∷◌, ◌++◌, arith, codes}
use picolibs.Network.Wifi.{
  Wifi, ScanRqst, link_up, link_down, send_notice, sta_disconnected, ap_is_active, ap_is_inactive,
  enable_ap_mode, disable_ap_mode, start_scan, ask, check_wifi, connect_to_wifi, enable_ap,
  scan_wifi, check_scan_finished,
}
use picolibs.Network.Wifi.Timers.{ticks, waiting, running, reconnects, access_point_stops}
use picolibs.Network.Wifi.Scans.{
  calls_of, scan_more, scan_results, found_in, strength_of, last_reported, scans_answered,
}

abbrev home : Wifi
home = record {
  hostname = codes "pico";
  ssid = codes "home";
  pwd = codes "secret";
  state = link_up;
  addr = 7;
  reconnect_time = 0;
  ap_name = [];
  ap_active = 0;
  ap_requested = 0;
  mdns_active = true;
  scans = record { client = 9; has_callback = true } ∷ [];
  ssids = [];
  asked = [];
}

reconnects_example :
    let seen = ask (send_notice sta_disconnected) (record home { state = link_down; addr = 0 }) in
    ((ticks 3 (check_wifi link_down 0 (waiting 0 home))).asked ≡ seen.asked)
    × (ticks 599 (check_wifi link_down 0 (waiting 0 home))
        ≡ connect_to_wifi (codes "pico") (codes "home") (codes "secret") (waiting 0 seen))
reconnects_example = reconnects link_down 0 home 3 refl refl refl (omega arith)

access_point_stops_example :
    let started = check_wifi link_up 7 (enable_ap 2 (codes "ap") (running 0 home)) in
    let asked = send_notice ap_is_active ∷ enable_ap_mode (codes "ap") ∷ [] in
    ((ticks 5 started).ap_active ≡ 2 * 60 * 2 - 5)
    × ((ticks 5 started).asked ≡ asked)
    × ((ticks (2 * 60 * 2) started).ap_active ≡ 0)
    × ((ticks (2 * 60 * 2) started).asked ≡ send_notice ap_is_inactive ∷ disable_ap_mode ∷ asked)
access_point_stops_example = access_point_stops 1 (codes "ap") home 5 (omega arith) (omega arith)

abbrev first : ScanRqst
first = record { client = 1000; has_callback = true }

abbrev second : ScanRqst
second = record { client = 1001; has_callback = true }

scans_answered_example :
    let w1 =
      scan_results
        ((codes "home", 50) ∷ [])
        (scan_more (second ∷ []) (scan_wifi false first home)) in
    ((check_scan_finished false w1).asked
      ≡ calls_of (found_in ((codes "home", 50) ∷ []) []) (first ∷ second ∷ []) ++ (start_scan ∷ []))
    × (strength_of (codes "home") (found_in ((codes "home", 50) ∷ []) []) ≡ some 50)
    × ((check_scan_finished false w1).scans ≡ [])
    × ((check_scan_finished false w1).ssids ≡ [])
unfolding strength_of last_reported
scans_answered_example =
    scans_answered first (second ∷ []) ((codes "home", 50) ∷ []) home (codes "home")
