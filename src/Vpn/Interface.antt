-- ===== src/Vpn/Interface.antt =====
-- The WireGuard interface, as the commands that the VPN manager has run tell of it: wg-quick brings it up
-- and takes it down, and returns 0 where it has.
use brup_http_proxy.Prelude.{
  ◌≡◌, refl, ◌∙◌, Bool, true, false, ◌&&◌, List, [], ◌∷◌, inl, inr, if◌then◌else◌, length, ◌==◌,
}
use brup_http_proxy.Bytes.{Bytes, bytes_eq}
use brup_http_proxy.Result.{Error, Result-cases}
use brup_http_proxy.Vpn.Lines.{splitlines}
use brup_http_proxy.Vpn.Host.{
  Execution, finished, timed_out, not_started, Host, Call, pure, raise, suppressed, say, emit,
  emit_all, run, record_command, ◌>>=◌, outcome,
}
use brup_http_proxy.Vpn.Tunnel.{Environment, wg_up, wg_down}

-- There is none; it may be left, since a wg-quick down has failed; it may be there, since a wg-quick up
-- has failed, without a wg-quick down since then; it is up.
pub data Interface : Type 0 where
  absent left tried standing : Interface

unfoldable pub same_words : List Bytes → List Bytes → Bool
unfolding bytes_eq
same_words [] [] = true
same_words [] (w ∷ ws) = false
same_words (v ∷ vs) [] = false
same_words (v ∷ vs) (w ∷ ws) = bytes_eq v w && same_words vs ws

abbrev pub succeeded : Execution → Bool
succeeded (finished code text) = code == 0
succeeded timed_out = false
succeeded not_started = false

abbrev pub after_down : Interface → Interface
after_down absent = absent
after_down left = left
after_down tried = left
after_down standing = left

unfoldable pub interface_of : List (List Bytes × Execution) → Interface
unfolding same_words
interface_of [] = absent
interface_of ((argv, e) ∷ older) =
    let before = interface_of older in
    if same_words argv wg_up
    then (if succeeded e then standing else tried)
    else if same_words argv wg_down
    then (if succeeded e then absent else after_down before)
    else before

-- No wg-quick down has been run since the last wg-quick up.
abbrev pub is_up : Interface → Bool
is_up absent = false
is_up left = false
is_up tried = true
is_up standing = true

abbrev pub interface : Host → Interface
interface h = interface_of h.commands

-- Neither the interface nor openvpn changes.
abbrev pub Same : Host → Host → Type 0
Same h h' = (interface h' ≡ interface h) × (h'.process ≡ h.process)

pub data Keeps {ℓ} {A : Type ℓ} (m : Call A) : Type ℓ where
  keeps : ((h : Host) → Same h (m h).1) → Keeps m

pub Keeps-Same {ℓ} : {A : Type ℓ} {m : Call A} → Keeps m → (h : Host) → Same h (m h).1
Keeps-Same (keeps k) = k

-- a command that is neither of the two
abbrev pub Harmless : List Bytes → Type 0
Harmless argv = (same_words argv wg_up ≡ false) × (same_words argv wg_down ≡ false)

pub Same-trans : (a b c : Host) → Same a b → Same b c → Same a c
Same-trans a b c s t = (t.0 ∙ s.0, t.1 ∙ s.1)

pub Keeps-bind {ℓ κ} :
    {A : Type ℓ} {B : Type κ} (m : Call A) (f : A → Call B)
    → Keeps m
    → ((a : A) → Keeps (f a))
    → Keeps (m >>= f)
Keeps-bind m f (keeps k) g = keeps (λ h. elim (Result-cases (m h).0) [
  | inl (a, e) ↦
      rw (e, ◌>>=◌) (Same-trans h (m h).1 (f a (m h).1).1 (k h) (Keeps-Same (g a) (m h).1))
  | inr (e', e) ↦ rw (e, ◌>>=◌) (k h)
])

pub pure-Keeps {ℓ} : {A : Type ℓ} (a : A) → Keeps (pure a)
pure-Keeps a = keeps (λ h. (refl, refl))

pub raise-Keeps {ℓ} : {A : Type ℓ} (e : Error) → Keeps (raise {A = A} e)
raise-Keeps e = keeps (λ h. (refl, refl))

pub suppressed-Keeps {ℓ} : {A : Type ℓ} {m : Call A} → Keeps m → Keeps (suppressed m)
suppressed-Keeps (keeps k) = keeps k

pub if-Keeps {ℓ} :
    {A : Type ℓ} (b : Bool) {m k : Call A} → Keeps m → Keeps k → Keeps (if b then m else k)
if-Keeps true p q = p
if-Keeps false p q = q

pub emit_all-Same : (lines : List Bytes) (h : Host) → Same h (emit_all lines h)
unfolding emit_all emit
emit_all-Same [] h = (refl, refl)
emit_all-Same (line ∷ lines) h = emit_all-Same lines (emit line h)

pub say-Keeps : (line : Bytes) → Keeps (say line)
unfolding emit
say-Keeps line = keeps (λ h. (refl, refl))

outcome-Same : (e : Execution) (h : Host) → Same h (outcome e h).1
unfolding outcome emit_all emit splitlines
outcome-Same (finished code text) h = emit_all-Same (splitlines text) h
outcome-Same timed_out h = (refl, refl)
outcome-Same not_started h = (refl, refl)

-- A command leaves what its record says.
pub run-record :
    (execute : Environment) (argv : List Bytes) (h : Host)
    → Same (record_command argv (execute (length h.commands) argv) h) (run execute argv h).1
unfolding run emit
run-record execute argv h = outcome-Same (execute (length h.commands) argv) _

pub run-Keeps :
    (execute : Environment) (argv : List Bytes) → Harmless argv → Keeps (run execute argv)
unfolding interface_of
run-Keeps execute argv (u, d) = keeps (λ h.
    Same-trans h (record_command argv (execute (length h.commands) argv) h) (run execute argv h).1
      (simp (u, d, interface_of) refl, refl) (run-record execute argv h))
