-- ===== src/Vpn/Tunnel/Connects.antt =====
-- What bringing a tunnel up leaves: how `_connect_wireguard` and `_connect_openvpn` end.
use brup_http_proxy.Prelude.{
  ℕ, ◌≡◌, refl, ◌∙◌, Bool, true, false, not, ◌&&◌, Option, none, some, List, [], ◌∷◌, ◌++◌, inl,
  inr, Bool-cases, Option-cases, ◌==◌, is_empty, length, if◌then◌else◌,
}
use brup_http_proxy.Bytes.{Bytes, codes, bytes_eq, join}
use brup_http_proxy.Result.{Result, ok, err, vpn_error}
use brup_http_proxy.Vpn.Lines.{splitlines}
use brup_http_proxy.Vpn.Profile.{VpnProfile, dns_servers}
use brup_http_proxy.Vpn.Host.{
  Execution, finished, timed_out, not_started, Host, Call, pure, raise, suppressed, say, emit, run,
  outcome, write_resolv_conf, stop_process, ◌>>=◌, ◌>>◌,
}
use brup_http_proxy.Vpn.Tunnel.{
  Environment, wg_up, wg_down, retry_userspace, kernel_lacks, connect_wireguard, Openvpn, Signal,
  up, refused, no_device, signal_of, pump, set_process, openvpn_ends, openvpn_argv, connect_openvpn,
}
use brup_http_proxy.Vpn.Tunnel.Keeps.{write-Keeps}
use brup_http_proxy.Vpn.Interface.{
  standing, interface, interface_of, same_words, succeeded, Same, Keeps, Keeps-Same, emit_all-Same,
  pure-Keeps, if-Keeps,
}

-- what holds of a call that returns
abbrev pub Ensures {ℓ} : {A : Type ℓ} → (A → Host → Type 0) → Result A × Host → Type 0
Ensures P (ok a, h) = P a h
Ensures P (err e, h) = Unit {0}

Ensures-bind {ℓ κ} :
    {A : Type ℓ} {B : Type κ} (P : A → Host → Type 0) (Q : B → Host → Type 0) (m : Call A)
    (f : A → Call B) (h : Host)
    → Ensures P (m h)
    → ((a : A) (h' : Host) → P a h' → Ensures Q (f a h'))
    → Ensures Q ((m >>= f) h)
Ensures-bind P Q m f h p g = continued (m h) p
  where
    continued :
        (r : Result _ × Host)
        → Ensures P r
        → Ensures Q (elim r.0 [ ok a ↦ f a r.1 | err e ↦ (err e, r.1) ])
    continued (ok a, h') q = g a h' q
    continued (err e, h') q = tt

Ensures-Any {ℓ} : {A : Type ℓ} (r : Result A × Host) → Ensures (λ _ _. Unit {0}) r
Ensures-Any (ok a, h) = tt
Ensures-Any (err e, h) = tt

-- the answer to a wg-quick up: the interface is up if the return code is 0
abbrev Answered : ℕ × Bytes → Host → Type 0
Answered answer h = ((answer.0 == 0) ≡ true) → interface h ≡ standing

abbrev pub Stands : Unit {0} → Host → Type 0
Stands done h = interface h ≡ standing

outcome-Answered :
    (e : Execution) (h : Host)
    → (succeeded e ≡ true → interface h ≡ standing)
    → Ensures Answered (outcome e h)
unfolding outcome
outcome-Answered (finished code text) h s = λ c. (emit_all-Same (splitlines text) h).0 ∙ s c
outcome-Answered timed_out h s = tt
outcome-Answered not_started h s = tt

if-Ensures {ℓ} :
    {A : Type ℓ} (P : A → Host → Type 0) (b : Bool) (m k : Call A) (h : Host)
    → (b ≡ true → Ensures P (m h))
    → (b ≡ false → Ensures P (k h))
    → Ensures P ((if b then m else k) h)
if-Ensures P true m k h p q = p refl
if-Ensures P false m k h p q = q refl

Keeps-Ensures :
    {m : Call (Unit {0})} → Keeps m → (h : Host) → interface h ≡ standing → Ensures Stands (m h)
Keeps-Ensures {m = m} k h s = of (m h) (Keeps-Same k h)
  where
    of : (r : Result (Unit {0}) × Host) → Same h r.1 → Ensures Stands r
    of (ok a, h') t = t.0 ∙ s
    of (err e, h') t = tt

module _ (execute : Environment) (lower_text : Bytes → Bytes) where
  run-Answered : (h : Host) → Ensures Answered (run execute wg_up h)
  unfolding run interface_of same_words bytes_eq
  run-Answered h =
      let e = execute (length h.commands) wg_up in outcome-Answered e _ (λ s. rw (s) refl)

  retry_userspace-Answered :
      (answer : ℕ × Bytes) (h : Host)
      → Answered answer h
      → Ensures Answered (retry_userspace execute lower_text answer h)
  unfolding retry_userspace
  retry_userspace-Answered (code, text) h a =
      let warning = say (codes "kernel WireGuard unavailable, retrying with wireguard-go") in
      let down = suppressed (run execute wg_down) in
      if-Ensures Answered (code == 0) _ _ h (λ _. a)
        (λ _.
          if-Ensures Answered (kernel_lacks (lower_text text)) _ _ h
            (λ _.
              Ensures-bind (λ _ _. Unit {0}) Answered warning (λ _. down >> run execute wg_up) h
                (Ensures-Any (warning h))
                (λ _ h'. λ _.
                  Ensures-bind (λ _ _. Unit {0}) Answered down (λ _. run execute wg_up) h'
                    (Ensures-Any (down h')) (λ _ h''. λ _. run-Answered h'')))
            (λ _. a))

  pub connect_wireguard-Stands :
      (writable override_dns : Bool) (profile : VpnProfile) (h : Host)
      → Ensures Stands (connect_wireguard execute lower_text writable override_dns profile h)
  unfolding connect_wireguard
  connect_wireguard-Stands writable override_dns profile h =
      let servers = dns_servers lower_text (splitlines profile.config) in
      let with_dns = not (is_empty servers) && override_dns in
      let resolve : Call (Unit {0}) =
        if with_dns then write_resolv_conf writable servers else pure tt in
      let decide : ℕ × Bytes → Call (Unit {0}) =
        λ second. if second.0 == 0 then pure tt else raise vpn_error in
      let finish : ℕ × Bytes → Call (Unit {0}) = λ second. decide second >> resolve in
      let retry = retry_userspace execute lower_text in
      Ensures-bind Answered Stands (run execute wg_up) (λ first. retry first >>= finish) h
        (run-Answered h)
        (λ first h'. λ a.
          Ensures-bind Answered Stands (retry first) finish h' (retry_userspace-Answered first h' a)
            (λ second h''. λ b.
              Ensures-bind Stands Stands (decide second) (λ _. resolve) h''
                (if-Ensures Stands (second.0 == 0) (pure tt) (raise vpn_error) h'' b (λ _. tt))
                (λ _ h3. λ s.
                  Keeps-Ensures (if-Keeps with_dns (write-Keeps writable servers) (pure-Keeps tt))
                    h3 s)))

pump-Same : (lines : List Bytes) (h : Host) → Same h (pump lines h).1
unfolding pump emit
pump-Same [] h = (refl, refl)
pump-Same (line ∷ lines) h = elim (Option-cases (signal_of line)) [
  | inl e ↦ rw (e, pump) (pump-Same lines (emit line h))
  | inr (s, e) ↦ rw (e, pump) (refl, refl)
]

-- Ending the wait for openvpn leaves WireGuard alone, and openvpn runs if the wait ends well.
Waited : Host → Result (Unit {0}) × Host → Type 0
Waited h r = (interface r.1 ≡ interface h) × Ensures (λ done h'. h'.process ≡ h.process) r

openvpn_ends-Waited : (s : Option Signal) (h : Host) → Waited h (openvpn_ends (s, h))
unfolding openvpn_ends stop_process Waited
openvpn_ends-Waited (some up) h = (refl, refl)
openvpn_ends-Waited (some refused) h = (refl, tt)
openvpn_ends-Waited (some no_device) h = (refl, tt)
openvpn_ends-Waited none h = (refl, tt)

abbrev pub Runs : Host → Result (Unit {0}) × Host → Type 0
Runs h r = (interface r.1 ≡ interface h) × Ensures (λ done h'. h'.process ≡ true) r

Waited-Runs :
    (h h' : Host) (r : Result (Unit {0}) × Host)
    → interface h' ≡ interface h
    → h'.process ≡ true
    → Waited h' r
    → Runs h r
unfolding Waited
Waited-Runs h h' (ok done, h'') s p w = (w.0 ∙ s, w.1 ∙ p)
Waited-Runs h h' (err e, h'') s p w = (w.0 ∙ s, tt)

pub connect_openvpn-Runs :
    (vpn : Openvpn) (profile : VpnProfile) (h : Host) → Runs h (connect_openvpn vpn profile h)
unfolding connect_openvpn set_process emit
connect_openvpn-Runs vpn profile h =
    let h' = emit (codes "$ " ++ join (codes " ") (openvpn_argv profile)) h in
    let pumped = pump vpn.output (set_process h') in
    let same = pump-Same vpn.output (set_process h') in
    elim (Bool-cases vpn.spawned) [
      | inl s ↦
          simp (s, connect_openvpn)
            (Waited-Runs h pumped.1 (openvpn_ends pumped) same.0 same.1
              (openvpn_ends-Waited pumped.0 pumped.1))
      | inr s ↦ simp (s, connect_openvpn) (refl, tt)
    ]
