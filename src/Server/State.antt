-- ===== src/Server/State.antt =====
-- The state of the proxy server (backend/brup/proxy/server.py), and what an exchange meets: the settings,
-- the operator, the kill switch and the origin.
use brup_http_proxy.Prelude.{ℕ, suc, Bool, false, Option, none, some, List, ◌∷◌, leb, if◌then◌else◌}
use brup_http_proxy.Bytes.{Bytes}
use brup_http_proxy.Bytes.Int.{ℤ}
use brup_http_proxy.Result.{Result}
use brup_http_proxy.Upstream.Outcome.{UpstreamResult}
use brup_http_proxy.HttpMessage.Headers.{Headers}
use brup_http_proxy.Config.HeaderRules.{HeaderRule, Side}
use brup_http_proxy.Config.Scope.{ScopeSettings}
use brup_http_proxy.Interceptor.{Decision}
use brup_http_proxy.Vpn.Manager.{VpnManager, killswitch_error}

-- the fields of Settings that the server reads
pub record ServerSettings : Type 0 where
  pub scope : ScopeSettings
  pub header_rules : List HeaderRule
  pub intercept_requests : Bool
  pub intercept_responses : Bool
  pub logging_enabled : Bool
  pub log_out_of_scope : Bool
  pub vpn_required : Bool
  pub invisible_proxy : Bool
  pub invisible_default_host : Bytes
  pub tls_passthrough_hosts : List Bytes
  pub max_stored_body : ℕ
  pub max_history : ℕ

-- a row of the history when it is inserted
pub record Flow : Type 0 where
  pub project_id : Bytes
  pub host : Bytes
  pub port : ℤ
  pub tls : Bool
  pub method : Bytes
  pub target : Bytes
  pub url : Bytes
  pub was_edited : Bool
  pub in_scope : Bool
  pub raw_request : Bytes
  pub error : Option Bytes

-- what is written into a row later
pub data FlowUpdate : Type 0 where
  failed : Bytes → FlowUpdate
  response_dropped : FlowUpdate
  answered : Option ℤ → Bytes → Bytes → ℕ → Bytes → FlowUpdate

-- What an exchange does outside the server. `sent` is a call of `send_request` or `send_h2_request`,
-- with the host, the port, whether TLS is used, and the request as bytes or as fields and a body; or the
-- tunnel of a CONNECT that is passed through, with what the client writes into it.
pub data Message : Type 0 where
  raw_message : Bytes → Message
  h2_message : Headers → Bytes → Message
  tunnel_message : Bytes → Message

pub data Effect : Type 0 where
  written : Bytes → Effect
  sent : Bytes → ℤ → Bool → Message → Effect
  held : Side → Bytes → Effect
  inserted : ℕ → Flow → Effect
  updated : ℕ → FlowUpdate → Effect
  flow_new flow_update : ℕ → Effect
  trimmed : Bytes → ℕ → Effect

-- `effects` has the newest first; `next_flow` is the identifier of the next row.
pub record Server : Type 0 where
  pub requests : ℕ
  pub responses : ℕ
  pub dropped : ℕ
  pub errors : ℕ
  pub since_trim : ℕ
  pub next_flow : ℕ
  pub effects : List Effect

abbrev pub note : Effect → Server → Server
note e s = record s { effects = e ∷ s.effects }

-- One exchange: the settings when the request arrives and those read later, the project, the VPN
-- manager if there is one, the operator's decisions on the bytes shown, the origin's answers, whether the
-- client still takes the response, whether a host that is passed through takes a connection, and the
-- texts of three errors.
pub record World : Type 0 where
  pub settings : ServerSettings
  pub later : ServerSettings
  pub project_id : Bytes
  pub vpn : Option VpnManager
  pub decide : Side → Bytes → Decision × Bytes
  pub send_request : Bytes → ℤ → Bool → Bytes → Result UpstreamResult
  pub send_h2_request : Bytes → ℤ → Headers → Bytes → Result UpstreamResult
  pub client_open : Bool
  pub reachable : Bytes → ℤ → Bool
  pub blocked_text : Bytes
  pub unreachable_text : Bytes → ℤ → Bytes → Bytes
  pub passthrough_text : Bytes → ℤ → Bytes

-- `self.vpn.killswitch_error(settings) if self.vpn else None`
unfoldable pub blocked : World → Bool
unfolding killswitch_error
blocked w = elim w.vpn [ none ↦ false | some m ↦ killswitch_error w.settings.vpn_required m ]

abbrev pub trim_every : ℕ
trim_every = 500

-- `_maybe_trim`
unfoldable pub maybe_trim : World → Server → Server
maybe_trim w s =
    if leb trim_every (suc s.since_trim)
    then note (trimmed w.project_id w.later.max_history) (record s { since_trim = 0 })
    else record s { since_trim = suc s.since_trim }

-- `insert_flow` and the event behind it
unfoldable pub insert_flow : Flow → Server → ℕ × Server
insert_flow flow s = (
  s.next_flow,
  note (flow_new s.next_flow)
      (note (inserted s.next_flow flow) (record s { next_flow = suc s.next_flow })),
)

-- `update_flow` and the event behind it, of a request that is logged
unfoldable pub update_flow : Option ℕ → FlowUpdate → Server → Server
update_flow none u s = s
update_flow (some id) u s = note (flow_update id) (note (updated id u) s)
