-- ===== src/Vpn/Steps.antt =====
-- The states that the VPN manager of backend/brup/vpn.py reaches, from the start of the program on.
use mathlib.Core.Path.{subst}
use brup_http_proxy.Prelude.{
  ◌≡◌, refl, sym, ◌∙◌, ap, inl, inr, Bool, true, false, ◌||◌, List, [], ◌∷◌, Option, Bool-cases,
  is_empty,
}
use brup_http_proxy.Bytes.{Bytes}
use brup_http_proxy.Result.{
  Error, Result, err, parse_error, http2_error, template_error, value_error, incomplete_read,
  limit_overrun, index_error, timeout_error, os_error, vpn_error, project_error, assertion_error,
  other_error,
}
use brup_http_proxy.Vpn.Host.{Host, emit, emit_all}
use brup_http_proxy.Vpn.Interface.{is_up, interface, interface_of, emit_all-Same}
use brup_http_proxy.Vpn.Tunnel.Laws.{Idle, Guarded-Same}
use brup_http_proxy.Vpn.Invariant.{
  Down, At, WellFormed, teardown-Down, WellFormed-Guarded, Carries-Same, Carries-true,
  Carries-false,
}
use brup_http_proxy.Vpn.Ends.{Ends, refuses, connects, fails, breaks, connect-Ends}
use brup_http_proxy.Vpn.Manager.{
  State, disconnected, connecting, connected, failed, VpnManager, initial, Attempt, connect,
  disconnect, shutdown, openvpn_exits, exit_ip_found, autoconnected, autoconnect,
}

Ends-WellFormed :
    (exited : Bool) (m : VpnManager) (r : Result (Unit {0}) × VpnManager)
    → Ends m r
    → WellFormed exited m
    → WellFormed exited r.1
Ends-WellFormed exited m _ (refuses e) w = w
Ends-WellFormed exited m _ (connects m' s l c k) w =
    subst (λ t. At exited t m') (sym s) (l, c, Carries-false exited m'.kind m'.host k)
Ends-WellFormed exited m _ (fails m' s d) w = subst (λ t. At exited t m') (sym s) d
Ends-WellFormed exited m _ (breaks e m' s l g) w = subst (λ t. At exited t m') (sym s) (l, g)

disconnect-WellFormed :
    (a : Attempt) (exited : Bool) (m : VpnManager)
    → WellFormed exited m
    → WellFormed exited (disconnect a m)
unfolding disconnect emit
disconnect-WellFormed a exited m w = teardown-Down a m (WellFormed-Guarded exited m w)

shutdown-WellFormed :
    (a : Attempt) (exited : Bool) (m : VpnManager)
    → WellFormed exited m
    → WellFormed exited (shutdown a m)
unfolding shutdown
shutdown-WellFormed a exited m w = of m.state refl
  where
    of : (s : State) → m.state ≡ s → WellFormed exited (shutdown a m)
    of disconnected e = simp (e, shutdown) (subst (λ s. At exited s m) e w)
    of connecting e = simp (e, shutdown) (disconnect-WellFormed a exited m w)
    of connected e = simp (e, shutdown) (disconnect-WellFormed a exited m w)
    of failed e = simp (e, shutdown) (disconnect-WellFormed a exited m w)

exit_ip_found-WellFormed :
    (address : Option Bytes) (exited : Bool) (m : VpnManager) (s : State)
    → At exited s m
    → At exited s (exit_ip_found address m)
unfolding exit_ip_found emit
exit_ip_found-WellFormed address exited m disconnected w = w
exit_ip_found-WellFormed address exited m connecting w =
    (w.0, Guarded-Same m.kind m.host (exit_ip_found address m).host refl w.1)
exit_ip_found-WellFormed address exited m connected w =
    (w.0, w.1, Carries-Same exited m.kind m.host (exit_ip_found address m).host (refl, refl) w.2)
exit_ip_found-WellFormed address exited m failed w = w

-- Openvpn's end leaves WireGuard and the manager's own fields alone.
At-true :
    (exited : Bool) (m : VpnManager) (h : Host) (s : State)
    → interface h ≡ interface m.host
    → Idle h
    → At exited s m
    → At true s (record m { host = h })
At-true exited m h disconnected e i w = (w.0, w.1, ap is_up e ∙ w.2, i)
At-true exited m h connecting e i w = (w.0, Guarded-Same m.kind m.host h e w.1)
At-true exited m h connected e i w = (w.0, w.1, Carries-true exited m.kind m.host h e w.2)
At-true exited m h failed e i w = (w.0, w.1, ap is_up e ∙ w.2, i)

At-later : (exited : Bool) (m : VpnManager) (s : State) → At exited s m → At true s m
At-later exited m disconnected w = w
At-later exited m connecting w = w
At-later exited m connected w = (w.0, w.1, Carries-true exited m.kind m.host m.host refl w.2)
At-later exited m failed w = w

openvpn_exits-WellFormed :
    (lines : List Bytes) (exited : Bool) (m : VpnManager)
    → WellFormed exited m
    → WellFormed true (openvpn_exits lines m)
unfolding openvpn_exits
openvpn_exits-WellFormed lines exited m w = elim (Bool-cases m.host.process) [
  | inr p ↦ simp (p, openvpn_exits) (At-later exited m m.state w)
  | inl p ↦
      simp (p, openvpn_exits)
        (At-true exited m (record (emit_all lines m.host) { process = false; reader = false })
          m.state (emit_all-Same lines m.host).0 (refl, refl) w)
]

-- What happens after the start, one after the other (the manager's lock keeps connections and
-- disconnections apart): the operator connects and disconnects, the background check finds an address,
-- openvpn exits by itself, the program shuts down.
pub data Action : Type 0 where
  connect_to disconnect_by shut_down : Attempt → Action
  found_exit_ip : Option Bytes → Action
  openvpn_exited : List Bytes → Action

unfoldable pub act : Action → VpnManager → VpnManager
unfolding connect disconnect shutdown exit_ip_found openvpn_exits
act (connect_to a) m = (connect a m).1
act (disconnect_by a) m = disconnect a m
act (shut_down a) m = shutdown a m
act (found_exit_ip address) m = exit_ip_found address m
act (openvpn_exited lines) m = openvpn_exits lines m

unfoldable pub run : List Action → VpnManager → VpnManager
unfolding act
run [] m = m
run (action ∷ actions) m = run actions (act action m)

-- Openvpn has exited by itself, before or in these actions.
abbrev pub exits : Action → Bool
exits (connect_to a) = false
exits (disconnect_by a) = false
exits (shut_down a) = false
exits (found_exit_ip address) = false
exits (openvpn_exited lines) = true

unfoldable pub exited_in : List Action → Bool → Bool
exited_in [] exited = exited
exited_in (action ∷ actions) exited = exited_in actions (exits action || exited)

-- the manager after the start of the program
unfoldable pub at_start : Bytes → Attempt → VpnManager
unfolding autoconnect
at_start profile_id a = (autoconnect profile_id a initial).1

act-WellFormed :
    (action : Action) (exited : Bool) (m : VpnManager)
    → WellFormed exited m
    → WellFormed (exits action || exited) (act action m)
unfolding act exit_ip_found emit
act-WellFormed (connect_to a) exited m w =
    Ends-WellFormed exited m (connect a m) (connect-Ends a exited m w) w
act-WellFormed (disconnect_by a) exited m w = disconnect-WellFormed a exited m w
act-WellFormed (shut_down a) exited m w = shutdown-WellFormed a exited m w
act-WellFormed (found_exit_ip address) exited m w =
    exit_ip_found-WellFormed address exited m m.state w
act-WellFormed (openvpn_exited lines) exited m w = openvpn_exits-WellFormed lines exited m w

steps-WellFormed :
    (actions : List Action) (exited : Bool) (m : VpnManager)
    → WellFormed exited m
    → WellFormed (exited_in actions exited) (run actions m)
unfolding run exited_in
steps-WellFormed [] exited m w = w
steps-WellFormed (action ∷ actions) exited m w =
    steps-WellFormed actions (exits action || exited) (act action m)
      (act-WellFormed action exited m w)

initial-Down : Down initial
unfolding interface_of
initial-Down = (refl, refl, refl, (refl, refl))

-- Whatever error refuses the connection at the start, the manager is disconnected or has failed.
refused-WellFormed : (e : Error) → WellFormed false (autoconnected (err e, initial)).1
unfolding autoconnected
refused-WellFormed parse_error = initial-Down
refused-WellFormed http2_error = initial-Down
refused-WellFormed template_error = initial-Down
refused-WellFormed value_error = initial-Down
refused-WellFormed incomplete_read = initial-Down
refused-WellFormed limit_overrun = initial-Down
refused-WellFormed index_error = initial-Down
refused-WellFormed timeout_error = initial-Down
refused-WellFormed os_error = initial-Down
refused-WellFormed vpn_error = initial-Down
refused-WellFormed project_error = initial-Down
refused-WellFormed assertion_error = initial-Down
refused-WellFormed other_error = initial-Down

autoconnected-WellFormed :
    (r : Result (Unit {0}) × VpnManager)
    → Ends initial r
    → ¬ (r.1.state ≡ connecting)
    → WellFormed false (autoconnected r).1
unfolding autoconnected
autoconnected-WellFormed _ (refuses e) n = refused-WellFormed e
autoconnected-WellFormed _ (connects m s l c k) n = subst (λ t. At false t m) (sym s) (l, c, k)
autoconnected-WellFormed _ (fails m s d) n = d
autoconnected-WellFormed _ (breaks e m s l g) n = absurd (n s)

at_start-WellFormed :
    (profile_id : Bytes) (a : Attempt)
    → ¬ ((connect a initial).1.state ≡ connecting)
    → WellFormed false (at_start profile_id a)
unfolding at_start
at_start-WellFormed profile_id a n = elim (Bool-cases (is_empty profile_id)) [
  | inl e ↦ simp (at_start, autoconnect, e) initial-Down
  | inr e ↦
      simp (at_start, autoconnect, e)
        (autoconnected-WellFormed (connect a initial) (connect-Ends a false initial initial-Down) n)
]

-- From a start of the program on whose connection no exception leaves connecting, whatever connections and
-- disconnections are tried and however they end, also where openvpn exits by itself: a profile is live
-- only while the tunnel is coming up or up; while the state is connected, the last wg-quick up has
-- succeeded, without a wg-quick down since then, or openvpn runs, unless it has exited by itself; after a
-- failure or a disconnection no profile, no connection time and no openvpn process is left, and a
-- wg-quick down has been run since the last wg-quick up.
pub run-WellFormed :
    (profile_id : Bytes) (a : Attempt) (actions : List Action)
    → ¬ ((connect a initial).1.state ≡ connecting)
    → WellFormed (exited_in actions false) (run actions (at_start profile_id a))
run-WellFormed profile_id a actions n =
    steps-WellFormed actions false (at_start profile_id a) (at_start-WellFormed profile_id a n)
