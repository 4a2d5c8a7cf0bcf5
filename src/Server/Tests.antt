-- ===== src/Server/Tests.antt =====
-- Runs of the server, and the theorems at concrete inputs.
use brup_http_proxy.Prelude.{◌≡◌, ◌≢◌, refl, Bool, true, false, Option, none, some, [], ◌∷◌, ◌++◌}
use brup_http_proxy.Bytes.{Bytes, codes, crlf, blank_line, lower, contains, bytes_eq}
use brup_http_proxy.Bytes.Int.{pos}
use brup_http_proxy.Result.{Result, ok}
use brup_http_proxy.HttpMessage.Headers.{Headers}
use brup_http_proxy.HttpMessage.Message.{Request}
use brup_http_proxy.Interceptor.{decide_forward}
use brup_http_proxy.Vpn.Manager.{initial}
use brup_http_proxy.Upstream.Outcome.{UpstreamResult}
use brup_http_proxy.Server.State.{Server, ServerSettings, World, tunnel_message}
use brup_http_proxy.Server.Exchange.{exchange}
use brup_http_proxy.Server.Serve.{Ending, serve_requests}
use brup_http_proxy.Server.Serve.Ends.{serve_requests-ne_none}
use brup_http_proxy.Server.Sends.{sent_by, approved, goes_out, sent_by-exchange}

abbrev compile : Bytes → Option Bytes
compile pattern = some pattern

abbrev search : Bytes → Bytes → Bool
search pattern url = contains pattern url

abbrev settings_with : Bool → ServerSettings
settings_with required = record {
  scope = record {
    scope_include = [];
    scope_exclude = [];
    intercept_enabled = true;
    intercept_skip_extensions = [];
  };
  header_rules = [];
  intercept_requests = true;
  intercept_responses = false;
  logging_enabled = true;
  log_out_of_scope = true;
  vpn_required = required;
  invisible_proxy = false;
  invisible_default_host = [];
  tls_passthrough_hosts = [];
  max_stored_body = 1000;
  max_history = 10;
}

abbrev no_reply : UpstreamResult
no_reply = record {
  raw_response = [];
  response = none;
  error = some (codes "unreachable");
  is_h2 = false;
  h2_headers = none;
  h2_body = [];
}

-- The operator forwards what is shown; no origin can be reached; the VPN is not connected.
abbrev world_with : Bool → World
world_with required = record {
  settings = settings_with required;
  later = settings_with required;
  project_id = codes "p";
  vpn = some initial;
  decide = λ side raw. (decide_forward, raw);
  send_request = λ host port tls raw. ok no_reply;
  send_h2_request = λ host port headers body. ok no_reply;
  client_open = true;
  blocked_text = codes "blocked";
  unreachable_text = λ host port error. error;
  reachable = λ host port. true;
  passthrough_text = λ host port. [];
}

abbrev fresh : Server
fresh = record {
  requests = 0;
  responses = 0;
  dropped = 0;
  errors = 0;
  since_trim = 0;
  next_flow = 1;
  effects = [];
}

abbrev get_a : Request
get_a = record {
  method = codes "GET";
  target = codes "/a";
  version = codes "HTTP/1.1";
  headers = (codes "Host", codes "a.b") ∷ [];
  body = [];
}

abbrev fields_a : Headers × Bytes
fields_a = ((codes ":method", codes "GET") ∷ (codes ":path", codes "/a") ∷ [], [])

abbrev request_a : Bytes
request_a = codes "GET /a HTTP/1.1" ++ (crlf ++ (codes "Host: a.b" ++ blank_line))

sent_by-exchange_example :
    sent_by
      (exchange compile search lower (world_with false) (codes "a.b") (pos 80) false get_a fresh).1
    ≡ goes_out compile search lower
        (world_with false)
        (codes "a.b")
        (pos 80)
        false
        (approved compile search lower (world_with false) (codes "a.b") (pos 80) false get_a)
      ++ sent_by fresh
sent_by-exchange_example =
    sent_by-exchange compile search lower (world_with false) (codes "a.b") (pos 80) false get_a
      fresh

serve_requests-ne_none_example :
    serve_requests compile search lower
      (λ n. world_with false)
      false
      none
      (request_a ++ request_a)
      fresh
    ≢ none
serve_requests-ne_none_example =
    serve_requests-ne_none compile search lower (λ n. world_with false) false none
      (request_a ++ request_a) fresh

-- the server after a connection, whatever its ending
abbrev after : Option (Result Ending × Server) → Server
after none = fresh
after (some (r, s)) = s

abbrev served : Option (Result Ending × Server)
unfolding serve_requests
served = serve_requests compile search lower (λ n. world_with true) false none request_a fresh

-- The kill switch does not stop a tunnel.
abbrev connect_a : Bytes
connect_a = codes "CONNECT a.b:443 HTTP/1.1" ++ blank_line

abbrev passing_world : World
passing_world = record (world_with true) {
  settings = record (settings_with true) { tls_passthrough_hosts = codes "a.b" ∷ [] };
}

tunnel_sent :
    sent_by (
      after (
        serve_requests compile search lower
          (λ n. passing_world)
          false
          none
          (connect_a ++ codes "hello")
          fresh))
    ≡ (codes "a.b", pos 443, false, tunnel_message (codes "hello")) ∷ []
unfolding serve_requests lower bytes_eq
tunnel_sent = refl
