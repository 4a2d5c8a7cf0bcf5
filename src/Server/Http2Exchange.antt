-- ===== src/Server/Http2Exchange.antt =====
-- `_exchange_h2` of backend/brup/proxy/server.py: one request stream of an HTTP/2 connection. The stream is
-- dropped where the result is `none`.
pub mod Sends
use brup_http_proxy.Prelude.{
  ℕ, suc, Bool, true, false, not, ◌&&◌, ◌||◌, Option, none, some, List, [], ◌∷◌, ◌++◌,
  if◌then◌else◌, is_empty, length, take,
}
use brup_http_proxy.Bytes.{Bytes, codes, bytes_eq, split_once, strip_text}
use brup_http_proxy.Bytes.Int.{ℤ, pos, int_of}
use brup_http_proxy.Result.{Result, ok, err}
use brup_http_proxy.HttpMessage.Headers.{Headers}
use brup_http_proxy.HttpMessage.Authority.{build_url, split_authority}
use brup_http_proxy.HttpMessage.Rules.{apply_header_rules}
use brup_http_proxy.Http2.Fields.{get, strip_for_h2, or_else}
use brup_http_proxy.Http2.Text.{
  request_to_text, request_from_text, response_to_text, response_from_text,
}
use brup_http_proxy.Config.HeaderRules.{request, response}
use brup_http_proxy.Config.Scope.{in_scope, should_intercept}
use brup_http_proxy.Interceptor.{Decision, decide_forward, decide_drop}
use brup_http_proxy.Server.Answers.{h2_error}
use brup_http_proxy.Upstream.Outcome.{UpstreamResult, is_ok}
use brup_http_proxy.Server.State.{
  Flow, failed, response_dropped, answered, Effect, sent, held, updated, flow_update, Message,
  h2_message, Server, note, World, blocked, maybe_trim, insert_flow, update_flow,
}

abbrev pub Fields : Type 0
Fields = Headers × Bytes

abbrev pub Reply : Type 0
Reply = Option Fields

pub record Stream : Type 0 where
  pub method : Bytes
  pub path : Bytes
  pub fields : Fields
  pub edited : Bool
  pub url : Bytes
  pub scoped : Bool

-- `list(result.h2_headers or [])`
abbrev pub fields_of : Option Headers → Headers
fields_of none = []
fields_of (some headers) = headers

abbrev is_none : Option Headers → Bool
is_none none = true
is_none (some headers) = false

-- `UpstreamResult.status`
unfoldable pub result_status : UpstreamResult → Option ℤ
unfolding get int_of
result_status result =
    if result.is_h2 && not (is_none result.h2_headers)
    then (elim (get (fields_of result.h2_headers) (codes ":status")) [
      | none ↦ none
      | some raw ↦ int_of 10 raw
    ])
    else (elim result.response [ none ↦ none | some resp ↦ some resp.status ])

-- the media type, without its parameters
unfoldable pub h2_mime : Headers → Bytes
unfolding get split_once strip_text
h2_mime headers =
    strip_text (split_once (codes ";") (or_else (get headers (codes "content-type")) [])).0

abbrev same_headers : Headers → Headers → Bool
unfolding bytes_eq
same_headers [] [] = true
same_headers [] (h ∷ hs) = false
same_headers (h ∷ hs) [] = false
same_headers ((n, v) ∷ hs) ((n', v') ∷ hs') =
    (bytes_eq n n' && bytes_eq v v') && same_headers hs hs'

unfoldable pub same_fields : Fields → Fields → Bool
unfolding bytes_eq
same_fields (h, b) (h', b') = same_headers h h' && bytes_eq b b'

module _ {ℓ} {P : Type ℓ} (compile : Bytes → Option P) (search : P → Bytes → Bool)
    (lower_text : Bytes → Bytes) (w : World) (host : Bytes) (port : ℤ) where
  unfoldable pub first_stream : Fields → Stream
  unfolding get build_url in_scope apply_header_rules
  first_stream (headers, body) =
      let path = or_else (get headers (codes ":path")) (codes "/") in
      let url = build_url true host port path in
      record {
        method = or_else (get headers (codes ":method")) (codes "GET");
        path = path;
        fields = ((apply_header_rules w.settings.header_rules request headers).0, body);
        edited = false;
        url = url;
        scoped = in_scope compile search lower_text w.settings.scope url;
      }

  -- the stream as the operator left it
  unfoldable pub edit_stream : Stream → Fields → Stream
  unfolding same_fields get build_url in_scope
  edit_stream stream fields =
      let path = or_else (get fields.0 (codes ":path")) stream.path in
      let url = build_url true host port path in
      if same_fields fields stream.fields then stream else record {
        method = stream.method;
        path = path;
        fields = fields;
        edited = true;
        url = url;
        scoped = in_scope compile search lower_text w.settings.scope url;
      }

  unfoldable pub decided_stream : Stream → Decision × Bytes → Server → Option Stream × Server
  unfolding request_from_text edit_stream
  decided_stream stream (decide_drop, new) s = (none, record s { dropped = suc s.dropped })
  decided_stream stream (decide_forward, new) s = elim (request_from_text new) [
    | err e ↦ (none, s)
    | ok fields ↦ (some (edit_stream stream fields), s)
  ]

  abbrev pub shown_request : Stream → Bytes
  unfolding request_to_text
  shown_request stream = request_to_text stream.fields.0 stream.fields.1

  unfoldable pub intercept_stream : Stream → Server → Option Stream × Server
  unfolding should_intercept decided_stream shown_request
  intercept_stream stream s =
      if w.settings.intercept_requests
        && should_intercept compile search lower_text w.settings.scope stream.url
      then decided_stream stream (w.decide request (shown_request stream))
          (note (held request (shown_request stream)) s)
      else (some stream, s)

  unfoldable pub log_stream : Stream → Server → Option ℕ × Server
  unfolding insert_flow shown_request
  log_stream stream s =
      if w.settings.logging_enabled && (stream.scoped || w.settings.log_out_of_scope)
      then (let logged =
            insert_flow
              (record {
                project_id = w.project_id;
                host = host;
                port = port;
                tls = true;
                method = stream.method;
                target = stream.path;
                url = stream.url;
                was_edited = stream.edited;
                in_scope = stream.scoped;
                raw_request = shown_request stream;
                error = none;
              })
              s in
          (some logged.0, logged.1))
      else (none, s)

  unfoldable pub fail_stream : Option ℕ → Bytes → Bytes → Server → Result Reply × Server
  unfolding update_flow h2_error
  fail_stream flow_id error detail s = (
    ok (some (h2_error 502 detail)),
    update_flow flow_id (failed error) (record s { errors = suc s.errors }),
  )

  -- a dropped response changes its row, without an event
  unfoldable pub drop_reply : Option ℕ → Server → Server
  drop_reply none s = record s { dropped = suc s.dropped }
  drop_reply (some id) s = note (updated id response_dropped) (record s { dropped = suc s.dropped })

  unfoldable pub decided_reply : Option ℕ → Decision × Bytes → Server → Reply × Server
  unfolding response_from_text drop_reply
  decided_reply flow_id (decide_drop, new) s = (none, drop_reply flow_id s)
  decided_reply flow_id (decide_forward, new) s = elim (response_from_text new) [
    | err e ↦ (none, s)
    | ok fields ↦ (some fields, s)
  ]

  unfoldable pub intercept_reply : Stream → Option ℕ → Fields → Server → Reply × Server
  unfolding should_intercept decided_reply response_to_text
  intercept_reply stream flow_id fields s =
      let shown = response_to_text fields.0 fields.1 in
      if w.settings.intercept_responses
        && should_intercept compile search lower_text w.settings.scope stream.url
      then decided_reply flow_id (w.decide response shown) (note (held response shown) s)
      else (some fields, s)

  unfoldable pub log_reply : Option ℕ → Option ℤ → Fields → Server → Server
  unfolding update_flow h2_mime maybe_trim response_to_text
  log_reply none status fields s = s
  log_reply (some id) status (headers, body) s =
      let raw = response_to_text headers body in
      maybe_trim w (
        update_flow (some id)
          (answered status [] (h2_mime headers) (length raw) (take w.settings.max_stored_body raw))
          s)

  unfoldable pub deliver_reply : Option ℕ → Option ℤ → Reply × Server → Result Reply × Server
  unfolding log_reply strip_for_h2
  deliver_reply flow_id status (none, s) = (ok none, s)
  deliver_reply flow_id status (some (headers, body), s) = (
    ok (some (strip_for_h2 headers, body)),
    log_reply flow_id status (headers, body) (record s { responses = suc s.responses }),
  )

  unfoldable pub answer_stream :
      Stream → Option ℕ → Result UpstreamResult → Server → Result Reply × Server
  unfolding is_ok apply_header_rules intercept_reply deliver_reply result_status fail_stream
  answer_stream stream flow_id (err e) s = (err e, s)
  answer_stream stream flow_id (ok result) s =
      let ruled =
        (apply_header_rules w.settings.header_rules response (fields_of result.h2_headers)).0 in
      if is_ok result
      then deliver_reply flow_id (result_status result)
          (intercept_reply stream flow_id (ruled, result.h2_body) s)
      else (elim result.error [
        | none ↦ fail_stream flow_id [] (w.unreachable_text host port []) s
        | some e ↦ fail_stream flow_id e (w.unreachable_text host port e) s
      ])

  unfoldable pub send_stream : Stream → Option ℕ × Server → Result Reply × Server
  unfolding blocked answer_stream fail_stream
  send_stream stream (flow_id, s) =
      if blocked w
      then fail_stream flow_id w.blocked_text w.blocked_text s
      else answer_stream stream flow_id
          (w.send_h2_request host port stream.fields.0 stream.fields.1)
          (note (sent host port true (h2_message stream.fields.0 stream.fields.1)) s)

  unfoldable pub go_on_stream : Option Stream × Server → Result Reply × Server
  unfolding log_stream send_stream
  go_on_stream (none, s) = (ok none, s)
  go_on_stream (some stream, s) = send_stream stream (log_stream stream s)

  unfoldable pub exchange_at : Fields → Server → Result Reply × Server
  unfolding first_stream intercept_stream go_on_stream
  exchange_at fields s = go_on_stream (intercept_stream (first_stream fields) s)

-- The host of the connection is used, and `:authority` where it is not known.
unfoldable pub stream_host : Bytes → Headers → Result Bytes
unfolding get split_authority
stream_host host headers =
    if not (is_empty host)
    then ok host
    else (elim (split_authority (or_else (get headers (codes ":authority")) []) (pos 443)) [
      | err e ↦ err e
      | ok (found, port) ↦ ok found
    ])

module _ {ℓ} {P : Type ℓ} (compile : Bytes → Option P) (search : P → Bytes → Bool)
    (lower_text : Bytes → Bytes) (w : World) (host : Bytes) (port : ℤ) where
  unfoldable pub exchange_h2 : Fields → Server → Result Reply × Server
  unfolding stream_host exchange_at
  exchange_h2 fields s =
      let counted = record s { requests = suc s.requests } in
      elim (stream_host host fields.0) [
        | err e ↦ (err e, counted)
        | ok found ↦ exchange_at compile search lower_text w found port fields counted
      ]
