-- ===== src/Vpn/Tunnel/Laws.antt =====
-- What taking a tunnel down leaves running.
use mathlib.Core.Path.{subst}
use brup_http_proxy.Prelude.{
  ◌≡◌, refl, Bool, false, Option, none, some, List, [], ◌∷◌, sym, ◌∙◌, ap, arith, inl, inr,
  Bool-cases, length,
}
use brup_http_proxy.Bytes.{Bytes, bytes_eq}
use brup_http_proxy.Result.{ok}
use brup_http_proxy.Vpn.Profile.{Kind, openvpn, wireguard}
use brup_http_proxy.Vpn.Host.{Host, Call, run, emit, stop_process, restore_resolv_conf, ◌>>=◌, ◌>>◌}
use brup_http_proxy.Vpn.Tunnel.{
  Environment, wg_down, run_each, remove_steps, remove_inbound_bypass, take_down, tear_down_host,
}
use brup_http_proxy.Vpn.Tunnel.Keeps.{remove_inbound_bypass-Keeps, restore-Keeps}
use brup_http_proxy.Vpn.Interface.{
  Interface, absent, left, tried, standing, is_up, interface, interface_of, same_words, succeeded,
  after_down, Keeps-Same, run-record,
}

-- Nothing of openvpn runs.
abbrev pub Idle : Host → Type 0
Idle h = (h.process ≡ false) × (h.reader ≡ false)

-- WireGuard is up only where it is the kind of the connection.
abbrev pub Guarded : Option Kind → Host → Type 0
Guarded (some wireguard) h = Unit {0}
Guarded (some openvpn) h = is_up (interface h) ≡ false
Guarded none h = is_up (interface h) ≡ false

pub Guarded-Down : (kind : Option Kind) (h : Host) → is_up (interface h) ≡ false → Guarded kind h
Guarded-Down (some wireguard) h d = tt
Guarded-Down (some openvpn) h d = d
Guarded-Down none h d = d

pub Guarded-Same :
    (kind : Option Kind) (h h' : Host)
    → interface h' ≡ interface h
    → Guarded kind h
    → Guarded kind h'
Guarded-Same (some wireguard) h h' s g = tt
Guarded-Same (some openvpn) h h' s g = ap is_up s ∙ g
Guarded-Same none h h' s g = ap is_up s ∙ g

restore-Idle : (writable : Bool) (h : Host) → Idle h → Idle (restore_resolv_conf writable h).1
unfolding restore_resolv_conf emit
restore-Idle writable h i = (ground (arith, i), ground (arith, i))

run_each-ok :
    (execute : Environment) (lower_text : Bytes → Bytes) (steps : List (List Bytes)) (h : Host)
    → (run_each execute lower_text steps h).0 ≡ ok tt
unfolding run_each
run_each-ok execute lower_text [] h = refl
run_each-ok execute lower_text (argv ∷ steps) h =
    run_each-ok execute lower_text steps (run execute argv h).1

remove_inbound_bypass-ok :
    (execute : Environment) (lower_text : Bytes → Bytes) (bypass : Option (Bytes × Bytes))
    (h : Host)
    → (remove_inbound_bypass execute lower_text bypass h).0 ≡ ok tt
unfolding remove_inbound_bypass
remove_inbound_bypass-ok execute lower_text none h = refl
remove_inbound_bypass-ok execute lower_text (some (gateway, interface)) h =
    run_each-ok execute lower_text (remove_steps execute lower_text interface) h

take_down-ok :
    (execute : Environment) (lower_text : Bytes → Bytes) (kind : Option Kind) (h : Host)
    → (take_down execute lower_text kind h).0 ≡ ok tt
unfolding take_down
take_down-ok execute lower_text none h = refl
take_down-ok execute lower_text (some openvpn) h = refl
take_down-ok execute lower_text (some wireguard) h = refl

is_up-after_down : (i : Interface) → is_up (after_down i) ≡ false
is_up-after_down absent = refl
is_up-after_down left = refl
is_up-after_down tried = refl
is_up-after_down standing = refl

-- After a wg-quick down, whatever becomes of it, the interface is not up.
run-wg_down :
    (execute : Environment) (h : Host) → is_up (interface (run execute wg_down h).1) ≡ false
unfolding interface_of same_words bytes_eq
run-wg_down execute h =
    let e = execute (length h.commands) wg_down in
    ap is_up (run-record execute wg_down h).0 ∙ elim (Bool-cases (succeeded e)) [
      | inl s ↦ rw (s) refl
      | inr s ↦ rw (s) (is_up-after_down (interface h))
    ]

take_down-Guarded :
    (execute : Environment) (lower_text : Bytes → Bytes) (kind : Option Kind) (h : Host)
    → Guarded kind h
    → is_up (interface (take_down execute lower_text kind h).1) ≡ false
unfolding take_down
take_down-Guarded execute lower_text none h g = g
take_down-Guarded execute lower_text (some openvpn) h g = g
take_down-Guarded execute lower_text (some wireguard) h g = run-wg_down execute h

-- A chain goes on after a call that returns.
then_ok :
    (m : Call (Unit {0})) (k : Call (Unit {0})) (h : Host)
    → (m h).0 ≡ ok tt
    → (m >> k) h ≡ k (m h).1
then_ok m k h e = rw (e, ◌>>=◌) refl

-- Taking a tunnel down leaves nothing of openvpn running and no interface up, whatever the commands do.
pub tear_down_host-Idle :
    (execute : Environment) (lower_text : Bytes → Bytes) (writable : Bool) (kind : Option Kind)
    (bypass : Option (Bytes × Bytes)) (h : Host)
    → Guarded kind h
    → (is_up (interface (tear_down_host execute lower_text writable kind bypass h).1) ≡ false)
      × Idle (tear_down_host execute lower_text writable kind bypass h).1
unfolding tear_down_host stop_process
tear_down_host-Idle execute lower_text writable kind bypass h g =
    let first = remove_inbound_bypass execute lower_text bypass in
    let second = take_down execute lower_text kind in
    let last = stop_process >> restore_resolv_conf writable in
    let same = Keeps-Same (remove_inbound_bypass-Keeps execute lower_text bypass) h in
    let down =
      take_down-Guarded execute lower_text kind (first h).1
        (Guarded-Same kind h (first h).1 same.0 g) in
    subst (λ r. (is_up (interface r.1) ≡ false) × Idle r.1)
      (sym (
        then_ok first (second >> last) h (remove_inbound_bypass-ok execute lower_text bypass h)
        ∙ then_ok second last (first h).1 (take_down-ok execute lower_text kind (first h).1)))
      (
        ap is_up (Keeps-Same (restore-Keeps writable) _).0 ∙ down,
        restore-Idle writable _ (refl, refl),
      )
