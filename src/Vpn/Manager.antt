-- ===== src/Vpn/Manager.antt =====
-- `VpnManager` of backend/brup/vpn.py: `connect`, `_teardown`, `disconnect`, `shutdown`,
-- `delete_profile`, `check_exit_ip`, `autoconnect` and the kill switch. Times are left out:
-- `connected_at` and `exit_ip_checked` tell whether a time is set.
use brup_http_proxy.Prelude.{
  Bool, true, false, not, ◌&&◌, Option, none, some, List, [], ◌∷◌, if◌then◌else◌, is_empty,
}
use brup_http_proxy.Bytes.{Bytes, codes, bytes_eq}
use brup_http_proxy.Result.{Error, Result, ok, err, vpn_error}
use brup_http_proxy.Vpn.Profile.{VpnProfile, Kind, openvpn, wireguard}
use brup_http_proxy.Vpn.Host.{Host, Call, emit, emit_all}
use brup_http_proxy.Vpn.Tunnel.{
  Environment, Openvpn, connect_openvpn, connect_wireguard, read_default_route,
  install_inbound_bypass, tear_down_host,
}

pub data State : Type 0 where
  disconnected connecting connected failed : State

pub record VpnManager : Type 0 where
  pub state : State
  pub active_profile_id : Option Bytes
  pub connected_at : Bool
  pub exit_ip : Option Bytes
  pub exit_ip_checked : Bool
  pub kind : Option Kind
  pub bypass : Option (Bytes × Bytes)
  pub check_task : Bool
  pub host : Host
  pub published : List State

abbrev pub initial : VpnManager
initial = record {
  state = disconnected;
  active_profile_id = none;
  connected_at = false;
  exit_ip = none;
  exit_ip_checked = false;
  kind = none;
  bypass = none;
  check_task = false;
  host = record { commands = []; log = []; process = false; reader = false; saved = false };
  published = [];
}

-- What a connection meets: what the database answers for the profile, whether the tools and the tun device are
-- there, what openvpn does, and the settings. `lower_text` is `str.lower`.
pub record Attempt : Type 0 where
  pub profile : Result (Option VpnProfile)
  pub equipped : Bool
  pub openvpn_run : Openvpn
  pub writable : Bool
  pub override_dns : Bool
  pub auto_check_exit_ip : Bool
  pub execute : Environment
  pub lower_text : Bytes → Bytes

unfoldable pub is_connected : VpnManager → Bool
is_connected m = elim m.state [
  | connected ↦ true
  | disconnected ↦ false
  | connecting ↦ false
  | failed ↦ false
]

-- `killswitch_error`: whether a request must be refused
unfoldable pub killswitch_error : Bool → VpnManager → Bool
unfolding is_connected
killswitch_error vpn_required m =
    if not vpn_required then false else if is_connected m then false else true

-- `self.state in ("connecting", "connected")`
unfoldable pub is_busy : State → Bool
is_busy disconnected = false
is_busy connecting = true
is_busy connected = true
is_busy failed = false

abbrev pub publish : VpnManager → VpnManager
publish m = record m { published = m.state ∷ m.published }

-- the exit address is checked in the background
unfoldable pub start_auto_check : Attempt → VpnManager → VpnManager
start_auto_check a m = if a.auto_check_exit_ip then record m { check_task = true } else m

unfoldable pub teardown : Attempt → VpnManager → VpnManager
unfolding tear_down_host
teardown a m = record m {
  check_task = false;
  host = (tear_down_host a.execute a.lower_text a.writable m.kind m.bypass m.host).1;
  connected_at = false;
  exit_ip = none;
  exit_ip_checked = false;
  active_profile_id = none;
}

unfoldable pub begin_connect : VpnProfile → VpnManager → VpnManager
begin_connect profile m = publish (record m {
  host = record m.host { log = [] };
  state = connecting;
  exit_ip = none;
  exit_ip_checked = false;
  active_profile_id = some profile.id;
  kind = some profile.kind;
})

-- An exception of `_install_inbound_bypass` is not caught.
unfoldable pub after_bypass :
    Attempt → VpnManager → Result (Unit {0}) × Host → Result (Unit {0}) × VpnManager
unfolding emit start_auto_check
after_bypass a m (err e, h) = (err e, record m { host = h })
after_bypass a m (ok done, h) = (
  ok tt,
  start_auto_check a (
      publish (record m {
        state = connected;
        connected_at = true;
        host = emit (codes "tunnel is up") h;
      })),
)

-- the log of an exception that is not a VpnError
unfoldable pub log_error : Error → Host → Host
unfolding emit
log_error vpn_error h = h
log_error e h = emit (codes "error: ") h

unfoldable pub after_tunnel :
    Attempt → VpnManager → Result (Unit {0}) × Host → Result (Unit {0}) × VpnManager
unfolding install_inbound_bypass after_bypass log_error teardown
after_tunnel a m (err e, h) =
    (err vpn_error, publish (teardown a (record m { state = failed; host = log_error e h })))
after_tunnel a m (ok done, h) =
    after_bypass a (record m { host = h })
      (install_inbound_bypass a.execute a.lower_text m.bypass h)

unfoldable pub connect_kind : Attempt → VpnProfile → Call (Unit {0})
unfolding connect_wireguard connect_openvpn
connect_kind a profile h = elim profile.kind [
  | wireguard ↦ connect_wireguard a.execute a.lower_text a.writable a.override_dns profile h
  | openvpn ↦ connect_openvpn a.openvpn_run profile h
]

-- An exception of `_read_default_route` is not caught.
unfoldable pub after_route :
    Attempt
    → VpnProfile
    → VpnManager
    → Result (Option (Bytes × Bytes)) × Host
    → Result (Unit {0}) × VpnManager
unfolding connect_kind after_tunnel
after_route a profile m (err e, h) = (err e, record m { host = h })
after_route a profile m (ok route, h) =
    after_tunnel a (record m { bypass = route; host = h }) (connect_kind a profile h)

unfoldable pub connect_profile : Attempt → VpnProfile → VpnManager → Result (Unit {0}) × VpnManager
unfolding begin_connect read_default_route after_route
connect_profile a profile m =
    let begun = begin_connect profile m in
    after_route a profile begun (read_default_route a.execute a.lower_text begun.host)

unfoldable pub connect : Attempt → VpnManager → Result (Unit {0}) × VpnManager
unfolding is_busy connect_profile
connect a m = if is_busy m.state then (err vpn_error, m) else elim a.profile [
  | err e ↦ (err e, m)
  | ok none ↦ (err vpn_error, m)
  | ok (some profile) ↦ if a.equipped then connect_profile a profile m else (err vpn_error, m)
]

-- The rest of `pump` once a tunnel is up: openvpn prints its last lines and exits by itself. The manager
-- does not hear of it.
unfoldable pub openvpn_exits : List Bytes → VpnManager → VpnManager
unfolding emit_all
openvpn_exits lines m = elim m.host.process [
  | false ↦ m
  | true ↦ record m { host = record (emit_all lines m.host) { process = false; reader = false } }
]

unfoldable pub disconnect : Attempt → VpnManager → VpnManager
unfolding teardown emit
disconnect a m =
    let down = teardown a m in
    publish (record down {
      state = disconnected;
      kind = none;
      host = emit (codes "tunnel is down") down.host;
    })

unfoldable pub shutdown : Attempt → VpnManager → VpnManager
unfolding disconnect
shutdown a m = elim m.state [
  | disconnected ↦ m
  | connecting ↦ disconnect a m
  | connected ↦ disconnect a m
  | failed ↦ disconnect a m
]

-- `delete_profile`: whether it is refused; the profile is deleted in the database otherwise
unfoldable pub delete_refused : Bytes → VpnManager → Bool
unfolding bytes_eq
delete_refused profile_id m = elim m.active_profile_id [
  | none ↦ false
  | some id ↦ bytes_eq profile_id id && (elim m.state [
    | disconnected ↦ false
    | connecting ↦ true
    | connected ↦ true
    | failed ↦ true
  ])
]

-- the end of a successful `check_exit_ip`, with the address that the answer shows
unfoldable pub exit_ip_found : Option Bytes → VpnManager → VpnManager
unfolding emit
exit_ip_found address m = publish (record m {
  exit_ip = address;
  exit_ip_checked = true;
  host = emit (codes "exit IP looks like ") m.host;
})

-- the except clause of `autoconnect`
unfoldable pub autoconnected : Result (Unit {0}) × VpnManager → Result (Unit {0}) × VpnManager
autoconnected (ok done, m) = (ok tt, m)
autoconnected (err vpn_error, m) = (ok tt, publish (record m { state = failed }))
autoconnected (err e, m) = (err e, m)

unfoldable pub autoconnect : Bytes → Attempt → VpnManager → Result (Unit {0}) × VpnManager
unfolding connect autoconnected
autoconnect profile_id a m = if is_empty profile_id then (ok tt, m) else autoconnected (connect a m)
