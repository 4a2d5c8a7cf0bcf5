-- ===== src/Vpn/Tunnel/Keeps.antt =====
-- The calls around a tunnel that leave the tunnel itself alone.
use brup_http_proxy.Prelude.{
  refl, Bool, true, false, Option, none, some, List, [], ◌∷◌, ◌++◌, inl, inr, Bool-cases, ◌==◌,
}
use brup_http_proxy.Bytes.{Bytes, codes, bytes_eq}
use brup_http_proxy.Vpn.Lines.{splitlines}
use brup_http_proxy.Vpn.Host.{
  pure, suppressed, emit, say, run, restore_resolv_conf, write_resolv_conf,
}
use brup_http_proxy.Vpn.Tunnel.{
  Environment, run_each, remove_steps, remove_inbound_bypass, install_steps, install_each,
  install_inbound_bypass, read_default_route, found_route, route_of,
}
use brup_http_proxy.Vpn.Interface.{
  Keeps, keeps, pure-Keeps, raise-Keeps, suppressed-Keeps, if-Keeps, Harmless, same_words,
  Keeps-bind, say-Keeps, run-Keeps,
}

pub write-Keeps :
    (writable : Bool) (servers : List Bytes) → Keeps (write_resolv_conf writable servers)
unfolding write_resolv_conf emit
write-Keeps true servers = keeps (λ h. (refl, refl))
write-Keeps false servers = keeps (λ h. (refl, refl))

pub restore-Keeps : (writable : Bool) → Keeps (restore_resolv_conf writable)
unfolding restore_resolv_conf emit
restore-Keeps writable = keeps (λ h. elim (Bool-cases h.saved) [
  | inr s ↦ simp (s, restore_resolv_conf) (refl, refl)
  | inl s ↦ elim (Bool-cases writable) [
    | inl w ↦ simp (s, w, restore_resolv_conf) (refl, refl)
    | inr w ↦ simp (s, w, restore_resolv_conf) (refl, refl)
  ]
])

AllHarmless : List (List Bytes) → Type 0
AllHarmless [] = Unit
AllHarmless (argv ∷ steps) = Harmless argv × AllHarmless steps

module _ (execute : Environment) (lower_text : Bytes → Bytes) where
  found-Keeps :
      (gateway interface : Option Bytes) → Keeps (found_route execute lower_text gateway interface)
  unfolding found_route
  found-Keeps none interface = raise-Keeps _
  found-Keeps (some gateway) none = raise-Keeps _
  found-Keeps (some gateway) (some interface) =
      let line = codes "host route is via " ++ (gateway ++ (codes " dev " ++ interface)) in
      Keeps-bind (say line) (λ _. pure (some (gateway, interface))) (say-Keeps line)
        (λ _. pure-Keeps _)

  route_of-Keeps : (lines : List Bytes) → Keeps (route_of execute lower_text lines)
  unfolding route_of
  route_of-Keeps [] = pure-Keeps _
  route_of-Keeps (line ∷ lines) = if-Keeps _ (found-Keeps _ _) (route_of-Keeps lines)

  pub read_default_route-Keeps : Keeps (read_default_route execute lower_text)
  unfolding read_default_route same_words bytes_eq
  read_default_route-Keeps =
      Keeps-bind _ _ (run-Keeps execute _ (refl, refl))
        (λ answer. if-Keeps (answer.0 == 0) (route_of-Keeps (splitlines answer.1)) (pure-Keeps _))

  run_each-Keeps :
      (steps : List (List Bytes)) → AllHarmless steps → Keeps (run_each execute lower_text steps)
  unfolding run_each AllHarmless
  run_each-Keeps [] a = pure-Keeps _
  run_each-Keeps (argv ∷ steps) a =
      Keeps-bind (suppressed (run execute argv)) (λ _. run_each execute lower_text steps)
        (suppressed-Keeps (run-Keeps execute argv a.0)) (λ _. run_each-Keeps steps a.1)

  pub remove_inbound_bypass-Keeps :
      (bypass : Option (Bytes × Bytes)) → Keeps (remove_inbound_bypass execute lower_text bypass)
  unfolding remove_inbound_bypass remove_steps AllHarmless same_words bytes_eq
  remove_inbound_bypass-Keeps none = pure-Keeps _
  remove_inbound_bypass-Keeps (some (gateway, interface)) =
      run_each-Keeps (remove_steps execute lower_text interface)
        ((refl, refl), ((refl, refl), ((refl, refl), ((refl, refl), tt))))

  install_each-Keeps :
      (bypass : Option (Bytes × Bytes)) (steps : List (List Bytes))
      → AllHarmless steps
      → Keeps (install_each execute lower_text bypass steps)
  unfolding install_each AllHarmless
  install_each-Keeps bypass [] a =
      say-Keeps (codes "inbound connections will reply via the host route")
  install_each-Keeps bypass (argv ∷ steps) a =
      let warning = codes "inbound bypass could not be installed" in
      Keeps-bind _ _ (run-Keeps execute argv a.0) (λ answer.
        if-Keeps (answer.0 == 0) (install_each-Keeps bypass steps a.1) (
          Keeps-bind (say warning) (λ _. remove_inbound_bypass execute lower_text bypass)
            (say-Keeps warning) (λ _. remove_inbound_bypass-Keeps bypass)))

  pub install_inbound_bypass-Keeps :
      (bypass : Option (Bytes × Bytes)) → Keeps (install_inbound_bypass execute lower_text bypass)
  unfolding install_inbound_bypass install_steps AllHarmless same_words bytes_eq
  install_inbound_bypass-Keeps none =
      say-Keeps (codes "no host default route found; skipping inbound bypass")
  install_inbound_bypass-Keeps (some (gateway, interface)) =
      install_each-Keeps (some (gateway, interface))
        (install_steps execute lower_text gateway interface)
        ((refl, refl), ((refl, refl), ((refl, refl), ((refl, refl), tt))))
