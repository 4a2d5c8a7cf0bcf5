-- ===== src/Vpn/Tunnel.antt =====
-- How backend/brup/vpn.py brings a tunnel up and takes it down: `_connect_wireguard`,
-- `_connect_openvpn`, `_read_default_route`, `_install_inbound_bypass`, `_remove_inbound_bypass` and the
-- part of `_teardown` that acts on the machine. Files are written before the commands run, and their
-- contents are not part of the state.
pub mod Keeps
pub mod Laws
pub mod Connects
use brup_http_proxy.Prelude.{
  ℕ, Bool, true, false, not, ◌&&◌, ◌||◌, Option, none, some, List, [], ◌∷◌, ◌++◌, ◌==◌,
  if◌then◌else◌, is_empty,
}
use brup_http_proxy.Bytes.{Bytes, codes, bytes_eq, contains, words, join}
use brup_http_proxy.Result.{Result, ok, err, vpn_error, other_error}
use brup_http_proxy.Vpn.Lines.{splitlines}
use brup_http_proxy.Vpn.Profile.{VpnProfile, Kind, openvpn, wireguard, dns_servers, wg_lines}
use brup_http_proxy.Vpn.Host.{
  Host, Call, pure, raise, change, suppressed, emit, say, Execution, run, stop_process,
  restore_resolv_conf, write_resolv_conf, ◌>>=◌, ◌>>◌,
}

-- What openvpn does until the connect timeout or until it exits: the lines that it prints. `spawned` is
-- false where the program does not start.
pub record Openvpn : Type 0 where
  pub spawned : Bool
  pub output : List Bytes

-- the first line that decides
pub data Signal : Type 0 where
  up refused no_device : Signal

unfoldable pub signal_of : Bytes → Option Signal
unfolding contains
signal_of line =
    if contains (codes "Initialization Sequence Completed") line
    then some up
    else if contains (codes "AUTH_FAILED") line
    then some refused
    else if contains (codes "Cannot open TUN/TAP") line
    then some no_device
    else none

-- `pump` until `ready` is set: the lines are logged
unfoldable pub pump : List Bytes → Host → Option Signal × Host
unfolding signal_of emit
pump [] h = (none, h)
pump (line ∷ lines) h =
    let rest = pump lines (emit line h) in
    elim (signal_of line) [ none ↦ rest | some s ↦ (some s, emit line h) ]

unfoldable pub set_process : Host → Host
set_process h = record h { process = true; reader = true }

-- how the wait for `ready` ends; without a signal openvpn has exited, or the time is over
unfoldable pub openvpn_ends : Option Signal × Host → Result (Unit {0}) × Host
unfolding stop_process
openvpn_ends (some up, h) = (ok tt, h)
openvpn_ends (some refused, h) = (stop_process >> raise vpn_error) h
openvpn_ends (some no_device, h) = (stop_process >> raise vpn_error) h
openvpn_ends (none, h) = (stop_process >> raise vpn_error) h

unfoldable pub openvpn_argv : VpnProfile → List Bytes
openvpn_argv profile =
    codes "openvpn"
    ∷ codes "--config"
    ∷ codes "/run/brup-vpn/openvpn.conf"
    ∷ ((if not (is_empty profile.username) || not (is_empty profile.password)
          then codes "--auth-user-pass" ∷ codes "/run/brup-vpn/openvpn.auth" ∷ []
          else [])
        ++ codes "--verb" ∷ codes "3" ∷ [])

unfoldable pub connect_openvpn : Openvpn → VpnProfile → Call (Unit {0})
unfolding emit join openvpn_argv set_process pump openvpn_ends
connect_openvpn vpn profile h =
    let h' = emit (codes "$ " ++ join (codes " ") (openvpn_argv profile)) h in
    if vpn.spawned then openvpn_ends (pump vpn.output (set_process h')) else (err other_error, h')

abbrev pub wg_interface : Bytes
wg_interface = codes "brup0"

abbrev pub wg_up : List Bytes
wg_up = codes "wg-quick" ∷ codes "up" ∷ wg_interface ∷ []

abbrev pub wg_down : List Bytes
wg_down = codes "wg-quick" ∷ codes "down" ∷ wg_interface ∷ []

-- a kernel without WireGuard
unfoldable pub kernel_lacks : Bytes → Bool
unfolding contains
kernel_lacks lowered =
    contains (codes "module") lowered
    || (contains (codes "not supported") lowered
        || contains (codes "protocol not supported") lowered)

abbrev pub Environment : Type 0
Environment = ℕ → List Bytes → Execution

module _ (execute : Environment) (lower_text : Bytes → Bytes) where
  -- the second attempt
  unfoldable pub retry_userspace : ℕ × Bytes → Call (ℕ × Bytes)
  unfolding run emit kernel_lacks
  retry_userspace (code, text) =
      if code == 0
      then pure (code, text)
      else if kernel_lacks (lower_text text)
      then (say (codes "kernel WireGuard unavailable, retrying with wireguard-go")
          >> (suppressed (run execute wg_down) >> run execute wg_up))
      else pure (code, text)

  -- `writable` tells whether /etc/resolv.conf can be written, `override_dns` is the setting
  unfoldable pub connect_wireguard : Bool → Bool → VpnProfile → Call (Unit {0})
  unfolding run retry_userspace write_resolv_conf dns_servers splitlines
  connect_wireguard writable override_dns profile =
      let servers = dns_servers lower_text (splitlines profile.config) in
      do
        first ← run execute wg_up
        second ← retry_userspace first
        if second.0 == 0 then pure tt else raise vpn_error
        if not (is_empty servers) && override_dns
            then write_resolv_conf writable servers
            else pure tt

  -- the word behind the first `name`
  unfoldable pub word_after : Bytes → List Bytes → Option Bytes
  unfolding bytes_eq
  word_after name [] = none
  word_after name (w ∷ []) = none
  word_after name (w ∷ v ∷ ws) =
      let rest = word_after name (v ∷ ws) in if bytes_eq w name then some v else rest

  unfoldable pub member_word : Bytes → List Bytes → Bool
  unfolding bytes_eq
  member_word name [] = false
  member_word name (w ∷ ws) = bytes_eq w name || member_word name ws

  -- the words behind "via" and "dev"; one that is missing is an IndexError
  unfoldable pub found_route : Option Bytes → Option Bytes → Call (Option (Bytes × Bytes))
  unfolding emit
  found_route none interface = raise other_error
  found_route (some gateway) none = raise other_error
  found_route (some gateway) (some interface) =
      say (codes "host route is via " ++ (gateway ++ (codes " dev " ++ interface)))
      >> pure (some (gateway, interface))

  -- the loop over the lines
  unfoldable pub route_of : List Bytes → Call (Option (Bytes × Bytes))
  unfolding words found_route member_word word_after
  route_of [] = pure none
  route_of (line ∷ lines) =
      let parts = words line in
      let rest = route_of lines in
      if member_word (codes "via") parts && member_word (codes "dev") parts
      then found_route (word_after (codes "via") parts) (word_after (codes "dev") parts)
      else rest

  unfoldable pub read_default_route : Call (Option (Bytes × Bytes))
  unfolding run route_of splitlines
  read_default_route = do
    answer ←
        run execute (codes "ip" ∷ codes "-4" ∷ codes "route" ∷ codes "show" ∷ codes "default" ∷ [])
    if answer.0 == 0 then route_of (splitlines answer.1) else pure none

  abbrev pub bypass_mark : Bytes
  bypass_mark = codes "0x4252"

  abbrev pub bypass_table : Bytes
  bypass_table = codes "51821"

  -- the rules on marks, to be added or deleted
  abbrev pub restore_rule : Bytes → List Bytes
  restore_rule flag =
      codes "iptables"
      ∷ codes "-t"
      ∷ codes "mangle"
      ∷ flag
      ∷ codes "OUTPUT"
      ∷ codes "-m"
      ∷ codes "connmark"
      ∷ codes "--mark"
      ∷ bypass_mark
      ∷ codes "-j"
      ∷ codes "MARK"
      ∷ codes "--set-mark"
      ∷ bypass_mark
      ∷ []

  abbrev pub mark_rule : Bytes → Bytes → List Bytes
  mark_rule flag interface =
      codes "iptables"
      ∷ codes "-t"
      ∷ codes "mangle"
      ∷ flag
      ∷ codes "PREROUTING"
      ∷ codes "-i"
      ∷ interface
      ∷ codes "-m"
      ∷ codes "conntrack"
      ∷ codes "--ctstate"
      ∷ codes "NEW"
      ∷ codes "-j"
      ∷ codes "CONNMARK"
      ∷ codes "--set-mark"
      ∷ bypass_mark
      ∷ []

  abbrev pub fwmark_rule : Bytes → List Bytes
  fwmark_rule verb =
      codes "ip"
      ∷ codes "rule"
      ∷ verb
      ∷ codes "fwmark"
      ∷ bypass_mark
      ∷ codes "lookup"
      ∷ bypass_table
      ∷ codes "pref"
      ∷ codes "100"
      ∷ []

  unfoldable pub install_steps : Bytes → Bytes → List (List Bytes)
  install_steps gateway interface =
      (codes "ip"
        ∷ codes "route"
        ∷ codes "replace"
        ∷ codes "default"
        ∷ codes "via"
        ∷ gateway
        ∷ codes "dev"
        ∷ interface
        ∷ codes "table"
        ∷ bypass_table
        ∷ [])
      ∷ fwmark_rule (codes "add")
      ∷ mark_rule (codes "-A") interface
      ∷ restore_rule (codes "-A")
      ∷ []

  unfoldable pub remove_steps : Bytes → List (List Bytes)
  remove_steps interface =
      restore_rule (codes "-D")
      ∷ mark_rule (codes "-D") interface
      ∷ fwmark_rule (codes "del")
      ∷ (codes "ip" ∷ codes "route" ∷ codes "flush" ∷ codes "table" ∷ bypass_table ∷ [])
      ∷ []

  unfoldable pub run_each : List (List Bytes) → Call (Unit {0})
  unfolding run
  run_each [] = pure tt
  run_each (argv ∷ steps) = suppressed (run execute argv) >> run_each steps

  unfoldable pub remove_inbound_bypass : Option (Bytes × Bytes) → Call (Unit {0})
  unfolding run_each remove_steps
  remove_inbound_bypass none = pure tt
  remove_inbound_bypass (some (gateway, interface)) = run_each (remove_steps interface)

  -- the loop over the steps: at the first that fails, what is there is removed
  unfoldable pub install_each : Option (Bytes × Bytes) → List (List Bytes) → Call (Unit {0})
  unfolding run emit remove_inbound_bypass
  install_each bypass [] = say (codes "inbound connections will reply via the host route")
  install_each bypass (argv ∷ steps) = do
    answer ← run execute argv
    if answer.0 == 0
        then install_each bypass steps
        else say (codes "inbound bypass could not be installed") >> remove_inbound_bypass bypass

  unfoldable pub install_inbound_bypass : Option (Bytes × Bytes) → Call (Unit {0})
  unfolding emit install_each install_steps
  install_inbound_bypass none = say (codes "no host default route found; skipping inbound bypass")
  install_inbound_bypass (some (gateway, interface)) =
      install_each (some (gateway, interface)) (install_steps gateway interface)

  unfoldable pub take_down : Option Kind → Call (Unit {0})
  unfolding run
  take_down (some wireguard) = suppressed (run execute wg_down)
  take_down (some openvpn) = pure tt
  take_down none = pure tt

  -- the part of `_teardown` that acts on the machine
  unfoldable pub tear_down_host : Bool → Option Kind → Option (Bytes × Bytes) → Call (Unit {0})
  unfolding remove_inbound_bypass take_down stop_process restore_resolv_conf
  tear_down_host writable kind bypass = do
    remove_inbound_bypass bypass
    take_down kind
    stop_process
    restore_resolv_conf writable
