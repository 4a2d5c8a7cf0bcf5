-- ===== src/Vpn/Invariant.antt =====
-- What holds of the VPN manager of backend/brup/vpn.py in each of its states.
use brup_http_proxy.Prelude.{◌≡◌, refl, ◌∙◌, ap, Bool, true, false, Option, none, some, arith}
use brup_http_proxy.Bytes.{Bytes}
use brup_http_proxy.Vpn.Profile.{Kind, openvpn, wireguard}
use brup_http_proxy.Vpn.Host.{Host}
use brup_http_proxy.Vpn.Tunnel.Laws.{Idle, Guarded, Guarded-Down, tear_down_host-Idle}
use brup_http_proxy.Vpn.Interface.{is_up, interface, standing, Same}
use brup_http_proxy.Vpn.Manager.{
  State, disconnected, connecting, connected, failed, VpnManager, Attempt, is_busy, teardown,
}

-- A profile is live while a connection is made or up; otherwise nothing of a tunnel is left: no openvpn
-- process, and a wg-quick down has been run since the last wg-quick up.
abbrev pub Live : VpnManager → Type 0
Live m = (id : Bytes) × (m.active_profile_id ≡ some id)

abbrev pub Down : VpnManager → Type 0
Down m =
    (m.active_profile_id ≡ none)
    × (m.connected_at ≡ false)
    × (is_up (interface m.host) ≡ false)
    × Idle m.host

-- The tunnel of a connection: the last wg-quick up has succeeded, without a wg-quick down since then, or
-- openvpn runs, unless it may have exited by itself.
abbrev pub OpenvpnRuns : Bool → Host → Type 0
OpenvpnRuns false h = h.process ≡ true
OpenvpnRuns true h = Unit {0}

abbrev pub Carries : Bool → Option Kind → Host → Type 0
Carries exited (some wireguard) h = interface h ≡ standing
Carries exited (some openvpn) h = (is_up (interface h) ≡ false) × OpenvpnRuns exited h
Carries exited none h = ⊥

abbrev pub At : Bool → State → VpnManager → Type 0
At exited disconnected m = Down m
At exited connecting m = Live m × Guarded m.kind m.host
At exited connected m = Live m × (m.connected_at ≡ true) × Carries exited m.kind m.host
At exited failed m = Down m

abbrev pub WellFormed : Bool → VpnManager → Type 0
WellFormed exited m = At exited m.state m

pub Carries-Guarded :
    (exited : Bool) (kind : Option Kind) (h : Host) → Carries exited kind h → Guarded kind h
Carries-Guarded exited (some wireguard) h c = tt
Carries-Guarded exited (some openvpn) h c = c.0
Carries-Guarded exited none h c = absurd c

At-Guarded : (exited : Bool) (s : State) (m : VpnManager) → At exited s m → Guarded m.kind m.host
At-Guarded exited disconnected m w = Guarded-Down m.kind m.host w.2
At-Guarded exited connecting m w = w.1
At-Guarded exited connected m w = Carries-Guarded exited m.kind m.host w.2
At-Guarded exited failed m w = Guarded-Down m.kind m.host w.2

pub WellFormed-Guarded :
    (exited : Bool) (m : VpnManager) → WellFormed exited m → Guarded m.kind m.host
WellFormed-Guarded exited m = At-Guarded exited m.state m

pub idle-Down :
    (exited : Bool) (m : VpnManager) → is_busy m.state ≡ false → WellFormed exited m → Down m
unfolding is_busy
idle-Down exited m b = of m.state b
  where
    of : (s : State) → is_busy s ≡ false → At exited s m → Down m
    of disconnected q w = w
    of connecting q w = absurd (ground (arith, q))
    of connected q w = absurd (ground (arith, q))
    of failed q w = w

pub teardown-Down : (a : Attempt) (m : VpnManager) → Guarded m.kind m.host → Down (teardown a m)
unfolding teardown
teardown-Down a m g =
    let down = tear_down_host-Idle a.execute a.lower_text a.writable m.kind m.bypass m.host g in
    (refl, refl, down.0, down.1)

OpenvpnRuns-Same :
    (exited : Bool) (h h' : Host) → Same h h' → OpenvpnRuns exited h → OpenvpnRuns exited h'
OpenvpnRuns-Same false h h' s r = s.1 ∙ r
OpenvpnRuns-Same true h h' s r = tt

pub Carries-Same :
    (exited : Bool) (kind : Option Kind) (h h' : Host)
    → Same h h'
    → Carries exited kind h
    → Carries exited kind h'
Carries-Same exited (some wireguard) h h' s c = s.0 ∙ c
Carries-Same exited (some openvpn) h h' s c =
    (ap is_up s.0 ∙ c.0, OpenvpnRuns-Same exited h h' s c.1)
Carries-Same exited none h h' s c = c

pub Carries-true :
    (exited : Bool) (kind : Option Kind) (h h' : Host)
    → interface h' ≡ interface h
    → Carries exited kind h
    → Carries true kind h'
Carries-true exited (some wireguard) h h' s c = s ∙ c
Carries-true exited (some openvpn) h h' s c = (ap is_up s ∙ c.0, tt)
Carries-true exited none h h' s c = c

OpenvpnRuns-false : (exited : Bool) (h : Host) → h.process ≡ true → OpenvpnRuns exited h
OpenvpnRuns-false false h r = r
OpenvpnRuns-false true h r = tt

pub Carries-false :
    (exited : Bool) (kind : Option Kind) (h : Host) → Carries false kind h → Carries exited kind h
Carries-false exited (some wireguard) h c = c
Carries-false exited (some openvpn) h c = (c.0, OpenvpnRuns-false exited h c.1)
Carries-false exited none h c = c
