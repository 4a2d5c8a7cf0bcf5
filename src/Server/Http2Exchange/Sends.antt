-- ===== src/Server/Http2Exchange/Sends.antt =====
-- What the exchange of one HTTP/2 stream sends to the origin.
use brup_http_proxy.Prelude.{
  ℕ, suc, ◌≡◌, refl, ◌∙◌, ap, Bool, true, ◌&&◌, ◌||◌, Option, none, some, List, [], ◌∷◌, ◌++◌,
  Bool-cases, Option-cases, inl, inr, if◌then◌else◌, length, take,
}
use brup_http_proxy.Bytes.{Bytes}
use brup_http_proxy.Bytes.Int.{ℤ}
use brup_http_proxy.Result.{Result, ok, err, Result-cases}
use brup_http_proxy.HttpMessage.Rules.{apply_header_rules}
use brup_http_proxy.Http2.Text.{request_from_text, response_to_text, response_from_text}
use brup_http_proxy.Config.HeaderRules.{request, response}
use brup_http_proxy.Config.Scope.{should_intercept}
use brup_http_proxy.Interceptor.{Decision, decide_forward, decide_drop}
use brup_http_proxy.Upstream.Outcome.{UpstreamResult, is_ok}
use brup_http_proxy.Server.State.{
  sent, held, Message, h2_message, Server, World, note, blocked, insert_flow, update_flow, failed,
  answered,
}
use brup_http_proxy.Server.Sends.{sent_by, sent_by-update_flow, sent_by-maybe_trim}
use brup_http_proxy.Server.Http2Exchange.{
  Fields, Reply, Stream, fields_of, result_status, h2_mime, first_stream, edit_stream,
  decided_stream, shown_request, intercept_stream, log_stream, fail_stream, drop_reply,
  decided_reply, intercept_reply, log_reply, deliver_reply, answer_stream, send_stream,
  go_on_stream, exchange_at,
}

module _ {ℓ} {P : Type ℓ} (compile : Bytes → Option P) (search : P → Bytes → Bool)
    (lower_text : Bytes → Bytes) (w : World) (host : Bytes) (port : ℤ) where
  -- The operator is asked about the stream.
  abbrev pub asked : Stream → Bool
  asked stream =
      w.settings.intercept_requests
      && should_intercept compile search lower_text w.settings.scope stream.url

  -- the stream that goes on after a decision
  abbrev pub forwarded : Stream → Decision × Bytes → Option Stream
  forwarded stream (decide_drop, new) = none
  forwarded stream (decide_forward, new) = elim (request_from_text new) [
    | err e ↦ none
    | ok fields ↦ some (edit_stream compile search lower_text w host port stream fields)
  ]

  abbrev pub approved : Fields → Option Stream
  approved fields =
      let stream = first_stream compile search lower_text w host port fields in
      if asked stream
      then forwarded stream
          (w.decide request (shown_request compile search lower_text w host port stream))
      else some stream

  sent_by-log_stream :
      (stream : Stream) (s : Server)
      → sent_by (log_stream compile search lower_text w host port stream s).1 ≡ sent_by s
  unfolding log_stream insert_flow
  sent_by-log_stream stream s =
      elim (Bool-cases
        (w.settings.logging_enabled && (stream.scoped || w.settings.log_out_of_scope))) [
          | inl e ↦ simp (e, log_stream) refl
          | inr e ↦ simp (e, log_stream) refl
        ]

  sent_by-drop_reply :
      (id : Option ℕ) (s : Server)
      → sent_by (drop_reply compile search lower_text w host port id s) ≡ sent_by s
  unfolding drop_reply
  sent_by-drop_reply none s = refl
  sent_by-drop_reply (some id) s = refl

  sent_by-decided_reply :
      (id : Option ℕ) (d : Decision × Bytes) (s : Server)
      → sent_by (decided_reply compile search lower_text w host port id d s).1 ≡ sent_by s
  unfolding decided_reply
  sent_by-decided_reply id (decide_drop, new) s = sent_by-drop_reply id s
  sent_by-decided_reply id (decide_forward, new) s = elim (Result-cases (response_from_text new)) [
    | inl (fields, e) ↦ simp (e, decided_reply) refl
    | inr (x, e) ↦ simp (e, decided_reply) refl
  ]

  sent_by-intercept_reply :
      (stream : Stream) (id : Option ℕ) (fields : Fields) (s : Server)
      → sent_by (intercept_reply compile search lower_text w host port stream id fields s).1
        ≡ sent_by s
  unfolding intercept_reply
  sent_by-intercept_reply stream id fields s =
      let shown = response_to_text fields.0 fields.1 in
      elim (Bool-cases (
        w.settings.intercept_responses
        && should_intercept compile search lower_text w.settings.scope stream.url)) [
          | inl e ↦
              simp (e, intercept_reply)
                (sent_by-decided_reply id (w.decide response shown) (note (held response shown) s))
          | inr e ↦ simp (e, intercept_reply) refl
        ]

  sent_by-log_reply :
      (id : Option ℕ) (status : Option ℤ) (fields : Fields) (s : Server)
      → sent_by (log_reply compile search lower_text w host port id status fields s) ≡ sent_by s
  unfolding log_reply
  sent_by-log_reply none status fields s = refl
  sent_by-log_reply (some id) status (headers, body) s =
      let raw = response_to_text headers body in
      let u =
        answered status [] (h2_mime headers) (length raw) (take w.settings.max_stored_body raw) in
      sent_by-maybe_trim w (update_flow (some id) u s) ∙ sent_by-update_flow (some id) u s

  sent_by-deliver_reply :
      (id : Option ℕ) (status : Option ℤ) (r : Reply × Server)
      → sent_by (deliver_reply compile search lower_text w host port id status r).1 ≡ sent_by r.1
  unfolding deliver_reply
  sent_by-deliver_reply id status (none, s) = refl
  sent_by-deliver_reply id status (some (headers, body), s) =
      sent_by-log_reply id status (headers, body) (record s { responses = suc s.responses })

  sent_by-fail_stream :
      (id : Option ℕ) (error detail : Bytes) (s : Server)
      → sent_by (fail_stream compile search lower_text w host port id error detail s).1 ≡ sent_by s
  unfolding fail_stream
  sent_by-fail_stream id error detail s =
      sent_by-update_flow id (failed error) (record s { errors = suc s.errors })

  sent_by-answer_stream :
      (stream : Stream) (id : Option ℕ) (r : Result UpstreamResult) (s : Server)
      → sent_by (answer_stream compile search lower_text w host port stream id r s).1 ≡ sent_by s
  unfolding answer_stream
  sent_by-answer_stream stream id (err e) s = refl
  sent_by-answer_stream stream id (ok result) s = elim (Bool-cases (is_ok result)) [
    | inl k ↦
        let fields : Fields = (
          (apply_header_rules w.settings.header_rules response (fields_of result.h2_headers)).0,
          result.h2_body,
        ) in
        simp (k, answer_stream)
          (sent_by-deliver_reply id (result_status result)
              (intercept_reply compile search lower_text w host port stream id fields s)
            ∙ sent_by-intercept_reply stream id fields s)
    | inr k ↦ elim (Option-cases result.error) [
      | inl e ↦
          simp (k, e, answer_stream) (sent_by-fail_stream id [] (w.unreachable_text host port []) s)
      | inr (x, e) ↦
          simp (k, e, answer_stream) (sent_by-fail_stream id x (w.unreachable_text host port x) s)
    ]
  ]

  -- what goes out, of the stream that may
  abbrev pub goes_out : Option Stream → List (Bytes × ℤ × Bool × Message)
  goes_out none = []
  goes_out (some stream) =
      if blocked w then [] else (host, port, true, h2_message stream.fields.0 stream.fields.1) ∷ []

  sent_by-go_on_stream :
      (stream : Option Stream) (s : Server)
      → sent_by (go_on_stream compile search lower_text w host port (stream, s)).1
        ≡ goes_out stream ++ sent_by s
  unfolding go_on_stream send_stream
  sent_by-go_on_stream none s = refl
  sent_by-go_on_stream (some stream) s =
      let logged = log_stream compile search lower_text w host port stream s in
      let message = h2_message stream.fields.0 stream.fields.1 in
      elim (Bool-cases (blocked w)) [
        | inl e ↦
            simp (e, go_on_stream)
              (sent_by-fail_stream logged.0 w.blocked_text w.blocked_text logged.1
                ∙ sent_by-log_stream stream s)
        | inr e ↦
            simp (e, go_on_stream)
              (sent_by-answer_stream stream logged.0
                  (w.send_h2_request host port stream.fields.0 stream.fields.1)
                  (note (sent host port true message) logged.1)
                ∙ ap (λ t. (host, port, true, message) ∷ t) (sent_by-log_stream stream s))
      ]

  sent_by-decided_stream :
      (stream : Stream) (d : Decision × Bytes) (s : Server)
      → sent_by
          (go_on_stream compile search lower_text w host port
            (decided_stream compile search lower_text w host port stream d s)).1
        ≡ goes_out (forwarded stream d) ++ sent_by s
  unfolding decided_stream
  sent_by-decided_stream stream (decide_drop, new) s =
      sent_by-go_on_stream none (record s { dropped = suc s.dropped })
  sent_by-decided_stream stream (decide_forward, new) s =
      elim (Result-cases (request_from_text new)) [
        | inl (fields, e) ↦
            simp (e, decided_stream, forwarded)
              (sent_by-go_on_stream
                (some (edit_stream compile search lower_text w host port stream fields)) s)
        | inr (x, e) ↦ simp (e, decided_stream, forwarded) (sent_by-go_on_stream none s)
      ]

  pub sent_by-exchange_at :
      (fields : Fields) (s : Server)
      → sent_by (exchange_at compile search lower_text w host port fields s).1
        ≡ goes_out (approved fields) ++ sent_by s
  unfolding exchange_at intercept_stream
  sent_by-exchange_at fields s =
      let stream = first_stream compile search lower_text w host port fields in
      let shown = shown_request compile search lower_text w host port stream in
      elim (Bool-cases (asked stream)) [
        | inl e ↦
            simp (e, exchange_at)
              (sent_by-decided_stream stream (w.decide request shown) (note (held request shown) s))
        | inr e ↦ simp (e, exchange_at) (sent_by-go_on_stream (some stream) s)
      ]

module _ {ℓ} {P : Type ℓ} (compile : Bytes → Option P) (search : P → Bytes → Bool)
    (lower_text : Bytes → Bytes) (w : World) (host : Bytes) (port : ℤ) where
  -- what a stream sends, once its host is known
  abbrev pub stream_sends : Result Bytes → Fields → List (Bytes × ℤ × Bool × Message)
  stream_sends (err e) fields = []
  stream_sends (ok found) fields =
      goes_out compile search lower_text w found port
        (approved compile search lower_text w found port fields)
