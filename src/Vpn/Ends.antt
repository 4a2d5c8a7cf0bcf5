-- ===== src/Vpn/Ends.antt =====
-- How `VpnManager.connect` of backend/brup/vpn.py ends.
use mathlib.Core.Path.{subst}
use brup_http_proxy.Prelude.{
  ◌≡◌, sym, inl, inr, refl, ◌∙◌, ap, Bool, true, false, Option, some, Bool-cases, Option-cases,
}
use brup_http_proxy.Bytes.{Bytes, codes}
use brup_http_proxy.Result.{
  Error, Result, ok, err, parse_error, http2_error, template_error, value_error, incomplete_read,
  limit_overrun, index_error, timeout_error, os_error, vpn_error, project_error, assertion_error,
  other_error, Result-cases,
}
use brup_http_proxy.Vpn.Profile.{VpnProfile, Kind, openvpn, wireguard}
use brup_http_proxy.Vpn.Host.{Host, emit}
use brup_http_proxy.Vpn.Tunnel.{read_default_route, install_inbound_bypass}
use brup_http_proxy.Vpn.Tunnel.Laws.{Guarded, Guarded-Down, Guarded-Same}
use brup_http_proxy.Vpn.Tunnel.Keeps.{read_default_route-Keeps, install_inbound_bypass-Keeps}
use brup_http_proxy.Vpn.Tunnel.Connects.{
  Ensures, Runs, connect_wireguard-Stands, connect_openvpn-Runs,
}
use brup_http_proxy.Vpn.Interface.{is_up, interface, Same, Keeps-Same}
use brup_http_proxy.Vpn.Invariant.{
  Live, Down, Carries, WellFormed, Carries-Guarded, Carries-Same, idle-Down, teardown-Down,
}
use brup_http_proxy.Vpn.Manager.{
  connecting, connected, failed, VpnManager, Attempt, is_busy, start_auto_check, teardown,
  begin_connect, after_bypass, log_error, after_tunnel, connect_kind, after_route, connect_profile,
  connect,
}

-- How `connect` ends: it refuses and changes nothing, it is connected, it has failed with nothing left
-- up, or an exception from outside its try statement leaves it connecting.
pub data Ends (m : VpnManager) : Result (Unit {0}) × VpnManager → Type 0 where
  refuses : (e : Error) → Ends m (err e, m)
  connects :
      (m' : VpnManager)
      → m'.state ≡ connected
      → Live m'
      → m'.connected_at ≡ true
      → Carries false m'.kind m'.host
      → Ends m (ok tt, m')
  fails : (m' : VpnManager) → m'.state ≡ failed → Down m' → Ends m (err vpn_error, m')
  breaks :
      (e : Error) (m' : VpnManager)
      → m'.state ≡ connecting
      → Live m'
      → Guarded m'.kind m'.host
      → Ends m (err e, m')

after_bypass-Ends :
    (a : Attempt) (m m' : VpnManager) (r : Result (Unit {0}) × Host)
    → m'.state ≡ connecting
    → Live m'
    → Carries false m'.kind r.1
    → Ends m (after_bypass a m' r)
unfolding after_bypass start_auto_check emit
after_bypass-Ends a m m' (err e, h) s l c = breaks e _ s l (Carries-Guarded false m'.kind h c)
after_bypass-Ends a m m' (ok done, h) s l c =
    let h' = emit (codes "tunnel is up") h in
    let c' = Carries-Same false m'.kind h h' (refl, refl) c in
    elim (Bool-cases a.auto_check_exit_ip) [
      | inl b ↦ rw (b, after_bypass) (connects _ refl l refl c')
      | inr b ↦ rw (b, after_bypass) (connects _ refl l refl c')
    ]

-- what a client has done
Reached : Option Kind → Result (Unit {0}) × Host → Type 0
Reached kind r = Guarded kind r.1 × Ensures (λ done h. Carries false kind h) r

log_error-Same : (e : Error) (h : Host) → Same h (log_error e h)
unfolding log_error emit
log_error-Same parse_error h = (refl, refl)
log_error-Same http2_error h = (refl, refl)
log_error-Same template_error h = (refl, refl)
log_error-Same value_error h = (refl, refl)
log_error-Same incomplete_read h = (refl, refl)
log_error-Same limit_overrun h = (refl, refl)
log_error-Same index_error h = (refl, refl)
log_error-Same timeout_error h = (refl, refl)
log_error-Same os_error h = (refl, refl)
log_error-Same vpn_error h = (refl, refl)
log_error-Same project_error h = (refl, refl)
log_error-Same assertion_error h = (refl, refl)
log_error-Same other_error h = (refl, refl)

after_tunnel-Ends :
    (a : Attempt) (m m' : VpnManager) (r : Result (Unit {0}) × Host)
    → m'.state ≡ connecting
    → Live m'
    → Reached m'.kind r
    → Ends m (after_tunnel a m' r)
unfolding after_tunnel teardown Reached
after_tunnel-Ends a m m' (err e, h) s l c = fails _ refl (
    teardown-Down a (record m' { state = failed; host = log_error e h })
      (Guarded-Same m'.kind h (log_error e h) (log_error-Same e h).0 c.0))
after_tunnel-Ends a m m' (ok done, h) s l c =
    after_bypass-Ends a m (record m' { host = h })
      (install_inbound_bypass a.execute a.lower_text m'.bypass h) s l
      (Carries-Same false m'.kind h _
        (Keeps-Same (install_inbound_bypass-Keeps a.execute a.lower_text m'.bypass) h) c.1)

Runs-Reached :
    (h : Host) (r : Result (Unit {0}) × Host)
    → is_up (interface h) ≡ false
    → Runs h r
    → Reached (some openvpn) r
unfolding Reached
Runs-Reached h (ok done, h') d s = (ap is_up s.0 ∙ d, (ap is_up s.0 ∙ d, s.1))
Runs-Reached h (err e, h') d s = (ap is_up s.0 ∙ d, tt)

connect_kind-Reached :
    (a : Attempt) (profile : VpnProfile) (h : Host)
    → is_up (interface h) ≡ false
    → Reached (some profile.kind) (connect_kind a profile h)
unfolding connect_kind Reached
connect_kind-Reached a profile h d = of profile.kind refl
  where
    of : (k : Kind) → profile.kind ≡ k → Reached (some profile.kind) (connect_kind a profile h)
    of wireguard e =
        simp (e, connect_kind)
          (tt, connect_wireguard-Stands a.execute a.lower_text a.writable a.override_dns profile h)
    of openvpn e =
        simp (e, connect_kind) (Runs-Reached h _ d (connect_openvpn-Runs a.openvpn_run profile h))

after_route-Ends :
    (a : Attempt) (profile : VpnProfile) (m m' : VpnManager)
    (r : Result (Option (Bytes × Bytes)) × Host)
    → m'.state ≡ connecting
    → Live m'
    → m'.kind ≡ some profile.kind
    → is_up (interface r.1) ≡ false
    → Ends m (after_route a profile m' r)
unfolding after_route
after_route-Ends a profile m m' (err e, h) s l k d = breaks e _ s l (Guarded-Down m'.kind h d)
after_route-Ends a profile m m' (ok route, h) s l k d =
    after_tunnel-Ends a m (record m' { bypass = route; host = h }) (connect_kind a profile h) s l
      (subst (λ kind. Reached kind (connect_kind a profile h)) (sym k)
        (connect_kind-Reached a profile h d))

pub connect-Ends :
    (a : Attempt) (exited : Bool) (m : VpnManager) → WellFormed exited m → Ends m (connect a m)
unfolding connect connect_profile begin_connect
connect-Ends a exited m w = elim (Bool-cases (is_busy m.state)) [
  | inl b ↦ simp (b, connect) (refuses vpn_error)
  | inr b ↦ elim (Result-cases a.profile) [
    | inr (e, p) ↦ simp (b, p, connect) (refuses e)
    | inl (found, p) ↦ elim (Option-cases found) [
      | inl n ↦ simp (b, p, n, connect) (refuses vpn_error)
      | inr (profile, n) ↦ elim (Bool-cases a.equipped) [
        | inr q ↦ simp (b, p, n, q, connect) (refuses vpn_error)
        | inl q ↦
            let begun = begin_connect profile m in
            let down = (idle-Down exited m b w).2 in
            simp (b, p, n, q, connect)
              (after_route-Ends a profile m begun
                (read_default_route a.execute a.lower_text begun.host) refl (profile.id, refl) refl
                (ap is_up
                    (Keeps-Same (read_default_route-Keeps a.execute a.lower_text) begun.host).0
                  ∙ down))
      ]
    ]
  ]
]
