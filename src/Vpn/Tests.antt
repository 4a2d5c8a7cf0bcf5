-- ===== src/Vpn/Tests.antt =====
-- Runs of the VPN manager, and the theorems at concrete inputs.
use brup_http_proxy.Prelude.{◌≡◌, refl, arith, true, false, some, List, [], ◌∷◌}
use brup_http_proxy.Bytes.{Bytes, codes, lower, bytes_eq}
use brup_http_proxy.Result.{ok}
use brup_http_proxy.Vpn.Profile.{
  openvpn, wireguard, detect_kind, wg_sections, named, endpoints, dns_servers,
}
use brup_http_proxy.Vpn.Lines.{splitlines}
use brup_http_proxy.Vpn.Host.{finished, timed_out}
use brup_http_proxy.Vpn.Tunnel.{Environment}
use brup_http_proxy.Vpn.Manager.{
  VpnManager, connecting, failed, initial, Attempt, connect, killswitch_error,
}
use brup_http_proxy.Vpn.Invariant.{WellFormed}
use brup_http_proxy.Vpn.Ends.{Ends}
use brup_http_proxy.Vpn.Steps.{
  Action, connect_to, disconnect_by, found_exit_ip, openvpn_exited, run, exited_in, at_start,
  run-WellFormed,
}

abbrev config : Bytes
config =
    codes
      "[Interface]\nPrivateKey = k # secret\nDNS = 1.1.1.1, 9.9.9.9\n\n[Peer]\r\nEndpoint = vpn:51820\nAllowedIPs = 0.0.0.0/0\n"

kind_found : detect_kind lower config ≡ ok wireguard
unfolding detect_kind lower
kind_found = refl

peers_found :
    endpoints lower (named lower (codes "peer") (wg_sections lower config)) ≡ codes "vpn:51820" ∷ []
unfolding endpoints named wg_sections lower bytes_eq
peers_found = refl

servers_found : dns_servers lower (splitlines config) ≡ codes "1.1.1.1" ∷ codes "9.9.9.9" ∷ []
unfolding dns_servers splitlines lower
servers_found = refl

-- Every command succeeds without output, or every command times out.
abbrev succeeds : Environment
succeeds n argv = finished 0 []

abbrev hangs : Environment
hangs n argv = timed_out

abbrev attempt_in : Environment → Attempt
attempt_in environment = record {
  profile = ok (
      some
        record { id = codes "p"; kind = wireguard; config = config; username = []; password = [] });
  equipped = true;
  openvpn_run = record { spawned = false; output = [] };
  writable = true;
  override_dns = true;
  auto_check_exit_ip = true;
  execute = environment;
  lower_text = lower;
}

abbrev actions : List Action
actions =
    found_exit_ip (some (codes "192.0.2.1"))
    ∷ disconnect_by (attempt_in hangs)
    ∷ connect_to (attempt_in succeeds)
    ∷ []

-- The connection at the start ends.
not_connecting : ¬ ((connect (attempt_in succeeds) initial).1.state ≡ connecting)
unfolding connect lower
not_connecting e = absurd (ground (arith, e))

run-WellFormed_example :
    WellFormed (exited_in actions false) (run actions (at_start (codes "p") (attempt_in succeeds)))
run-WellFormed_example = run-WellFormed (codes "p") (attempt_in succeeds) actions not_connecting

-- Openvpn comes up and exits by itself: the kill switch still lets requests pass.
abbrev openvpn_attempt : Attempt
openvpn_attempt = record (attempt_in succeeds) {
  profile =
      ok
        (some record { id = codes "o"; kind = openvpn; config = []; username = []; password = [] });
  openvpn_run = record { spawned = true; output = codes "Initialization Sequence Completed" ∷ [] };
}

abbrev exited : VpnManager
exited = run (connect_to openvpn_attempt ∷ openvpn_exited [] ∷ []) initial

exited_passes : (exited.host.process ≡ false) × (killswitch_error true exited ≡ false)
unfolding run killswitch_error lower
exited_passes = (refl, refl)

-- The routes cannot be read at the start: the manager has failed, and the profile stays live.
hung_at_start :
    ((at_start (codes "p") (attempt_in hangs)).state ≡ failed)
    × ((at_start (codes "p") (attempt_in hangs)).active_profile_id ≡ some (codes "p"))
unfolding at_start lower
hung_at_start = (refl, refl)
