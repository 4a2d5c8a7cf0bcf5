-- ===== src/Vpn/Host.antt =====
-- What the VPN manager of backend/brup/vpn.py does to the machine: `_emit`, `_run`, `_stop_process`, and
-- exceptions that leave what was done in place. What a command answers is a parameter.
use brup_http_proxy.Prelude.{ℕ, ◌-◌, Bool, true, false, List, [], ◌∷◌, ◌++◌, length, drop}
use brup_http_proxy.Bytes.{Bytes, codes, join, rstrip_by, is_space_text}
use brup_http_proxy.Vpn.Lines.{splitlines}
use brup_http_proxy.Result.{Error, Result, ok, err, vpn_error, other_error}

abbrev pub log_lines : ℕ
log_lines = 400

-- what becomes of a command: its return code and its output, a timeout, or a program that does not start
pub data Execution : Type 0 where
  finished : ℕ → Bytes → Execution
  timed_out not_started : Execution

-- `commands` are those run so far with what became of them, the newest first; `process` and `reader` tell
-- whether openvpn and the task that reads its output run; `saved` whether the original resolv.conf is
-- set aside. Log lines have no time stamps.
pub record Host : Type 0 where
  pub commands : List (List Bytes × Execution)
  pub log : List Bytes
  pub process : Bool
  pub reader : Bool
  pub saved : Bool

-- A call: what was changed stays changed when it raises.
abbrev pub Call {ℓ} : Type ℓ → Type ℓ
Call A = Host → Result A × Host

module _ {ℓ} {A : Type ℓ} where
  abbrev pub pure : A → Call A
  pure a h = (ok a, h)

  abbrev pub raise : Error → Call A
  raise e h = (err e, h)

abbrev pub change : (Host → Host) → Call (Unit {0})
change f h = (ok tt, f h)

infixl 5 ◌>>=◌ ◌>>◌
abbrev pub ◌>>=◌ {ℓ κ} : {A : Type ℓ} {B : Type κ} → Call A → (A → Call B) → Call B
(m >>= f) h = let (r, h') = m h in elim r [ ok a ↦ f a h' | err e ↦ (err e, h') ]

abbrev pub ◌>>◌ {κ} : {B : Type κ} → Call (Unit {0}) → Call B → Call B
m >> k = m >>= λ _. k

-- `with contextlib.suppress(Exception): ...`
abbrev pub suppressed {ℓ} : {A : Type ℓ} → Call A → Call (Unit {0})
suppressed m h = (ok tt, (m h).1)

-- `_emit`: the log keeps its newest lines
unfoldable pub emit : Bytes → Host → Host
unfolding rstrip_by is_space_text
emit line h =
    let lines = h.log ++ rstrip_by is_space_text line ∷ [] in
    record h { log = drop (length lines - log_lines) lines }

unfoldable pub emit_all : List Bytes → Host → Host
unfolding emit
emit_all [] h = h
emit_all (line ∷ lines) h = emit_all lines (emit line h)

abbrev pub say : Bytes → Call (Unit {0})
say line = change (emit line)

unfoldable pub outcome : Execution → Host → Result (ℕ × Bytes) × Host
unfolding splitlines emit_all
outcome (finished code text) h = (ok (code, text), emit_all (splitlines text) h)
outcome timed_out h = (err vpn_error, h)
outcome not_started h = (err other_error, h)

abbrev pub record_command : List Bytes → Execution → Host → Host
record_command argv e h = record h { commands = (argv, e) ∷ h.commands }

-- `_run`; `execute n argv` is what becomes of `argv` after `n` commands
unfoldable pub run : (ℕ → List Bytes → Execution) → List Bytes → Call (ℕ × Bytes)
unfolding emit join outcome
run execute argv h =
    let e = execute (length h.commands) argv in
    outcome e (record_command argv e (emit (codes "$ " ++ join (codes " ") argv) h))

-- `_stop_process`: the process is terminated, killed if it does not end, and its reader cancelled
unfoldable pub stop_process : Call (Unit {0})
stop_process = change (λ h. record h { process = false; reader = false })

-- `_restore_resolv_conf`; `writable` tells whether /etc/resolv.conf can be written
unfoldable pub restore_resolv_conf : Bool → Call (Unit {0})
unfolding emit
restore_resolv_conf writable h = elim h.saved [
  | false ↦ (ok tt, h)
  | true ↦ elim writable [
    | true ↦ (ok tt, emit (codes "DNS restored") (record h { saved = false }))
    | false ↦ (ok tt, emit (codes "could not restore /etc/resolv.conf") h)
  ]
]

-- `_write_resolv_conf`
unfoldable pub write_resolv_conf : Bool → List Bytes → Call (Unit {0})
unfolding emit join
write_resolv_conf writable servers h = elim writable [
  | true ↦
      (ok tt, emit (codes "DNS set to " ++ join (codes ", ") servers) (record h { saved = true }))
  | false ↦ (ok tt, emit (codes "could not update /etc/resolv.conf") h)
]
