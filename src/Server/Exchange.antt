-- ===== src/Server/Exchange.antt =====
-- `_exchange`, `_log_dropped` and `_maybe_trim` of backend/brup/proxy/server.py: one request and its
-- response over HTTP/1.1. Bytes decoded as Latin-1 are their own code points.
use brup_http_proxy.Prelude.{
  ℕ, suc, Bool, true, false, not, ◌&&◌, ◌||◌, Option, none, some, [], ◌==◌, if◌then◌else◌, length,
  take,
}
use brup_http_proxy.Bytes.{Bytes, codes, bytes_eq, split_once, strip_text}
use brup_http_proxy.Bytes.Int.{ℤ}
use brup_http_proxy.Result.{Result, ok, err, assertion_error}
use brup_http_proxy.HttpMessage.Headers.{Headers}
use brup_http_proxy.HttpMessage.Message.{Request, Response, request_raw, response_raw}
use brup_http_proxy.HttpMessage.Headers.{get_header}
use brup_http_proxy.HttpMessage.Parse.{parse_request, parse_response}
use brup_http_proxy.HttpMessage.Authority.{build_url}
use brup_http_proxy.HttpMessage.Rules.{apply_header_rules}
use brup_http_proxy.Config.HeaderRules.{request, response}
use brup_http_proxy.Config.Scope.{in_scope, should_intercept}
use brup_http_proxy.Interceptor.{Decision, decide_forward, decide_drop}
use brup_http_proxy.Server.Answers.{error_response, wants_close}
use brup_http_proxy.Upstream.Outcome.{UpstreamResult, is_ok}
use brup_http_proxy.Server.State.{
  Flow, failed, response_dropped, answered, written, sent, held, raw_message, Server, note, World,
  blocked, maybe_trim, insert_flow, update_flow,
}

-- the request with what is known of it
pub record Round : Type 0 where
  pub req : Request
  pub raw : Bytes
  pub edited : Bool
  pub url : Bytes
  pub scoped : Bool

-- the part of the media type before the first `;`
unfoldable pub mime_of : Headers → Bytes
unfolding get_header split_once strip_text
mime_of headers = elim (get_header headers (codes "content-type")) [
  | none ↦ []
  | some value ↦ strip_text (split_once (codes ";") value).0
]

abbrev pub with_headers : Request → Headers → Request
with_headers req headers = record req { headers = headers }

module _ {ℓ} {P : Type ℓ} (compile : Bytes → Option P) (search : P → Bytes → Bool)
    (lower_text : Bytes → Bytes) (w : World) (host : Bytes) (port : ℤ) (tls : Bool) where
  -- what is known of a request, before it is shown to the operator
  unfoldable pub first_round : Request → Round
  unfolding apply_header_rules build_url in_scope request_raw
  first_round req =
      let url = build_url tls host port req.target in
      let ruled =
        with_headers req (apply_header_rules w.settings.header_rules request req.headers).0 in
      record {
        req = ruled;
        raw = request_raw ruled;
        edited = false;
        url = url;
        scoped = in_scope compile search lower_text w.settings.scope url;
      }

  -- the request as the operator left it; bytes that do not parse leave the rest as it was
  unfoldable pub edit_round : Round → Bytes → Round
  unfolding bytes_eq parse_request build_url in_scope
  edit_round round new = if bytes_eq new round.raw then round else elim (parse_request new) [
    | err e ↦ record round { raw = new; edited = true }
    | ok req ↦
        let url = build_url tls host port req.target in
        record {
          req = req;
          raw = new;
          edited = true;
          url = url;
          scoped = in_scope compile search lower_text w.settings.scope url;
        }
  ]

  abbrev pub flow_of : Round → Option Bytes → Flow
  flow_of round error = record {
    project_id = w.project_id;
    host = host;
    port = port;
    tls = tls;
    method = round.req.method;
    target = round.req.target;
    url = round.url;
    was_edited = round.edited;
    in_scope = round.scoped;
    raw_request = round.raw;
    error = error;
  }

  -- The columns that are not given have their defaults.
  unfoldable pub log_dropped : Round → Server → Server
  unfolding insert_flow
  log_dropped round s =
      let flow = flow_of round (some (codes "dropped by operator")) in
      if w.later.logging_enabled
      then (insert_flow (record flow { was_edited = false; in_scope = true }) s).1
      else s

  -- the round that goes on, or `none` for a request that is dropped
  unfoldable pub decided : Round → Decision × Bytes → Server → Option Round × Server
  unfolding log_dropped edit_round
  decided round (decide_drop, new) s =
      (none, log_dropped round (record s { dropped = suc s.dropped }))
  decided round (decide_forward, new) s = (some (edit_round round new), s)

  unfoldable pub intercept_request : Round → Server → Option Round × Server
  unfolding should_intercept decided
  intercept_request round s =
      if w.settings.intercept_requests
        && should_intercept compile search lower_text w.settings.scope round.url
      then decided round (w.decide request round.raw) (note (held request round.raw) s)
      else (some round, s)

  -- the row for the request, if requests are logged
  unfoldable pub log_request : Round → Server → Option ℕ × Server
  unfolding insert_flow
  log_request round s =
      if w.settings.logging_enabled && (round.scoped || w.settings.log_out_of_scope)
      then (let logged = insert_flow (flow_of round none) s in (some logged.0, logged.1))
      else (none, s)

  -- a request that fails
  unfoldable pub fail : Option ℕ → Bytes → Bytes → Server → Server
  unfolding error_response update_flow
  fail flow_id error detail s =
      note (written (error_response 502 (codes "Bad Gateway") detail))
        (update_flow flow_id (failed error) (record s { errors = suc s.errors }))

  -- the response with its bytes, after the header rules
  unfoldable pub ruled_response : Response → Bytes → Response × Bytes
  unfolding apply_header_rules response_raw
  ruled_response resp raw =
      let applied = apply_header_rules w.settings.header_rules response resp.headers in
      let ruled = record resp { headers = applied.0 } in
      (ruled, if applied.1 == 0 then raw else response_raw ruled)

  unfoldable pub edit_response : Response × Bytes → Bytes → Response × Bytes
  unfolding bytes_eq parse_response
  edit_response (resp, raw) new =
      if bytes_eq new raw
      then (resp, raw)
      else elim (parse_response new) [ err e ↦ (resp, new) | ok edited ↦ (edited, new) ]

  unfoldable pub decided_response :
      Option ℕ → Response × Bytes → Decision × Bytes → Server → Option (Response × Bytes) × Server
  unfolding edit_response update_flow
  decided_response flow_id shown (decide_drop, new) s =
      (none, update_flow flow_id response_dropped (record s { dropped = suc s.dropped }))
  decided_response flow_id shown (decide_forward, new) s = (some (edit_response shown new), s)

  unfoldable pub intercept_response :
      Round → Option ℕ → Response × Bytes → Server → Option (Response × Bytes) × Server
  unfolding should_intercept decided_response
  intercept_response round flow_id shown s =
      if w.settings.intercept_responses
        && should_intercept compile search lower_text w.settings.scope round.url
      then decided_response flow_id shown (w.decide response shown.1)
          (note (held response shown.1) s)
      else (some shown, s)

  -- the row of a request that is answered
  unfoldable pub log_response : Option ℕ → Response × Bytes → Server → Server
  unfolding update_flow mime_of maybe_trim
  log_response none answer s = s
  log_response (some id) (resp, raw) s = maybe_trim w (
      update_flow (some id)
        (answered (some resp.status) resp.reason (mime_of resp.headers) (length raw)
          (take w.settings.max_stored_body raw))
        s)

  unfoldable pub deliver :
      Round → Option ℕ → Option (Response × Bytes) × Server → Result Bool × Server
  unfolding log_response wants_close
  deliver round flow_id (none, s) = (ok false, s)
  deliver round flow_id (some (resp, raw), s) =
      if w.client_open
      then (
        ok (not (wants_close round.req (some resp))),
        log_response flow_id (resp, raw)
            (record (note (written raw) s) { responses = suc s.responses }),
      )
      else (ok false, s)

  unfoldable pub answer : Round → Option ℕ → Result UpstreamResult → Server → Result Bool × Server
  unfolding is_ok ruled_response intercept_response deliver
  answer round flow_id (err e) s = (err e, s)
  answer round flow_id (ok result) s =
      if is_ok result
      then (elim result.response [
        | none ↦ (err assertion_error, s)
        | some resp ↦
            deliver round flow_id
              (intercept_response round flow_id (ruled_response resp result.raw_response) s)
      ])
      else (elim result.error [
        | none ↦ (ok false, fail flow_id [] (w.unreachable_text host port []) s)
        | some e ↦ (ok false, fail flow_id e (w.unreachable_text host port e) s)
      ])

  -- the kill switch, and the request itself
  unfoldable pub send : Round → Option ℕ × Server → Result Bool × Server
  unfolding blocked answer update_flow
  send round (flow_id, s) =
      if blocked w
      then (ok false, fail flow_id w.blocked_text w.blocked_text s)
      else answer round flow_id (w.send_request host port tls round.raw)
          (note (sent host port tls (raw_message round.raw)) s)

  unfoldable pub go_on : Option Round × Server → Result Bool × Server
  unfolding log_request send
  go_on (none, s) = (ok false, s)
  go_on (some round, s) = send round (log_request round s)

  unfoldable pub exchange : Request → Server → Result Bool × Server
  unfolding first_round intercept_request go_on
  exchange req s =
      go_on (intercept_request (first_round req) (record s { requests = suc s.requests }))
