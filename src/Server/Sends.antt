-- ===== src/Server/Sends.antt =====
-- What an exchange sends to the origin.
use brup_http_proxy.Prelude.{
  ℕ, suc, ◌≡◌, refl, sym, ◌∙◌, ap, Bool, ◌&&◌, ◌||◌, Option, none, some, List, [], ◌∷◌, ◌++◌,
  Bool-cases, Option-cases, inl, inr, if◌then◌else◌, leb, length, take,
}
use brup_http_proxy.Bytes.{Bytes, bytes_eq}
use brup_http_proxy.Bytes.Int.{ℤ}
use brup_http_proxy.Bytes.Laws.{bytes_eq_iff}
use brup_http_proxy.Result.{Result, ok, err, Result-cases}
use brup_http_proxy.HttpMessage.Message.{Request, Response}
use brup_http_proxy.HttpMessage.Parse.{parse_request}
use brup_http_proxy.Config.HeaderRules.{request, response}
use brup_http_proxy.Config.Scope.{should_intercept}
use brup_http_proxy.Interceptor.{Decision, decide_forward, decide_drop}
use brup_http_proxy.Upstream.Outcome.{UpstreamResult, is_ok}
use brup_http_proxy.Server.State.{
  Effect, written, sent, held, inserted, updated, flow_new, flow_update, trimmed, Message,
  raw_message, Server, World, note, blocked, maybe_trim, trim_every, insert_flow, update_flow, Flow,
  FlowUpdate, failed, response_dropped, answered,
}
use brup_http_proxy.Server.Exchange.{
  Round, mime_of, first_round, edit_round, log_dropped, decided, intercept_request, log_request,
  ruled_response, decided_response, intercept_response, log_response, deliver, fail, answer, send,
  go_on, exchange,
}

-- the requests sent, the newest first
abbrev pub sends : List Effect → List (Bytes × ℤ × Bool × Message)
sends [] = []
sends (sent host port tls message ∷ effects) = (host, port, tls, message) ∷ sends effects
sends (written raw ∷ effects) = sends effects
sends (held side raw ∷ effects) = sends effects
sends (inserted id flow ∷ effects) = sends effects
sends (updated id u ∷ effects) = sends effects
sends (flow_new id ∷ effects) = sends effects
sends (flow_update id ∷ effects) = sends effects
sends (trimmed id keep ∷ effects) = sends effects

abbrev pub sent_by : Server → List (Bytes × ℤ × Bool × Message)
sent_by s = sends s.effects

pub sent_by-update_flow :
    (id : Option ℕ) (u : FlowUpdate) (s : Server) → sent_by (update_flow id u s) ≡ sent_by s
unfolding update_flow
sent_by-update_flow none u s = refl
sent_by-update_flow (some id) u s = refl

pub sent_by-maybe_trim : (w : World) (s : Server) → sent_by (maybe_trim w s) ≡ sent_by s
unfolding maybe_trim
sent_by-maybe_trim w s = elim (Bool-cases (leb trim_every (suc s.since_trim))) [
  | inl e ↦ simp (e, maybe_trim) refl
  | inr e ↦ simp (e, maybe_trim) refl
]

pub sent_by-insert_flow : (flow : Flow) (s : Server) → sent_by (insert_flow flow s).1 ≡ sent_by s
unfolding insert_flow
sent_by-insert_flow flow s = refl

module _ {ℓ} {P : Type ℓ} (compile : Bytes → Option P) (search : P → Bytes → Bool)
    (lower_text : Bytes → Bytes) (w : World) (host : Bytes) (port : ℤ) (tls : Bool) where
  -- The operator is asked about the message.
  abbrev pub asked : Round → Bool
  asked round =
      w.settings.intercept_requests
      && should_intercept compile search lower_text w.settings.scope round.url

  abbrev pub forwarded : Decision × Bytes → Option Bytes
  forwarded (decide_forward, raw) = some raw
  forwarded (decide_drop, raw) = none

  -- the bytes that may be sent: those of the request, or those that the operator forwards
  abbrev pub approved : Request → Option Bytes
  approved req =
      let round = first_round compile search lower_text w host port tls req in
      if asked round then forwarded (w.decide request round.raw) else some round.raw

  raw_of_edit :
      (round : Round) (new : Bytes)
      → (edit_round compile search lower_text w host port tls round new).raw ≡ new
  unfolding edit_round
  raw_of_edit round new = elim (Bool-cases (bytes_eq new round.raw)) [
    | inl e ↦ simp (e, edit_round) (sym ((bytes_eq_iff new round.raw).0 e))
    | inr e ↦ elim (Result-cases (parse_request new)) [
      | inl (req, p) ↦ simp (e, p, edit_round) refl
      | inr (x, p) ↦ simp (e, p, edit_round) refl
    ]
  ]

  sent_by-log_dropped :
      (round : Round) (s : Server)
      → sent_by (log_dropped compile search lower_text w host port tls round s) ≡ sent_by s
  unfolding log_dropped insert_flow
  sent_by-log_dropped round s = elim (Bool-cases w.later.logging_enabled) [
    | inl e ↦ simp (e, log_dropped) refl
    | inr e ↦ simp (e, log_dropped) refl
  ]

  sent_by-log_request :
      (round : Round) (s : Server)
      → sent_by (log_request compile search lower_text w host port tls round s).1 ≡ sent_by s
  unfolding log_request insert_flow
  sent_by-log_request round s =
      elim (Bool-cases
        (w.settings.logging_enabled && (round.scoped || w.settings.log_out_of_scope))) [
          | inl e ↦ simp (e, log_request) refl
          | inr e ↦ simp (e, log_request) refl
        ]

  sent_by-log_response :
      (id : Option ℕ) (shown : Response × Bytes) (s : Server)
      → sent_by (log_response compile search lower_text w host port tls id shown s) ≡ sent_by s
  unfolding log_response
  sent_by-log_response none shown s = refl
  sent_by-log_response (some id) (resp, raw) s =
      let u =
        answered (some resp.status) resp.reason (mime_of resp.headers) (length raw)
          (take w.settings.max_stored_body raw) in
      sent_by-maybe_trim w (update_flow (some id) u s) ∙ sent_by-update_flow (some id) u s

  sent_by-deliver :
      (round : Round) (id : Option ℕ) (shown : Option (Response × Bytes) × Server)
      → sent_by (deliver compile search lower_text w host port tls round id shown).1
        ≡ sent_by shown.1
  unfolding deliver
  sent_by-deliver round id (none, s) = refl
  sent_by-deliver round id (some (resp, raw), s) = elim (Bool-cases w.client_open) [
    | inl e ↦
        simp (e, deliver)
          (sent_by-log_response id (resp, raw)
            (record (note (written raw) s) { responses = suc s.responses }))
    | inr e ↦ simp (e, deliver) refl
  ]

  sent_by-decided_response :
      (id : Option ℕ) (shown : Response × Bytes) (d : Decision × Bytes) (s : Server)
      → sent_by (decided_response compile search lower_text w host port tls id shown d s).1
        ≡ sent_by s
  unfolding decided_response
  sent_by-decided_response id shown (decide_drop, new) s =
      sent_by-update_flow id response_dropped (record s { dropped = suc s.dropped })
  sent_by-decided_response id shown (decide_forward, new) s = refl

  sent_by-intercept_response :
      (round : Round) (id : Option ℕ) (shown : Response × Bytes) (s : Server)
      → sent_by (intercept_response compile search lower_text w host port tls round id shown s).1
        ≡ sent_by s
  unfolding intercept_response
  sent_by-intercept_response round id shown s =
      elim (Bool-cases (
        w.settings.intercept_responses
        && should_intercept compile search lower_text w.settings.scope round.url)) [
          | inl e ↦
              simp (e, intercept_response)
                (sent_by-decided_response id shown (w.decide response shown.1)
                  (note (held response shown.1) s))
          | inr e ↦ simp (e, intercept_response) refl
        ]

  sent_by-fail :
      (id : Option ℕ) (error detail : Bytes) (s : Server)
      → sent_by (fail compile search lower_text w host port tls id error detail s) ≡ sent_by s
  unfolding fail
  sent_by-fail id error detail s =
      sent_by-update_flow id (failed error) (record s { errors = suc s.errors })

  sent_by-answer :
      (round : Round) (id : Option ℕ) (r : Result UpstreamResult) (s : Server)
      → sent_by (answer compile search lower_text w host port tls round id r s).1 ≡ sent_by s
  unfolding answer
  sent_by-answer round id (err e) s = refl
  sent_by-answer round id (ok result) s = elim (Bool-cases (is_ok result)) [
    | inl k ↦ elim (Option-cases result.response) [
      | inl e ↦ simp (k, e, answer) refl
      | inr (resp, e) ↦
          let shown =
            ruled_response compile search lower_text w host port tls resp result.raw_response in
          simp (k, e, answer)
            (sent_by-deliver round id
                (intercept_response compile search lower_text w host port tls round id shown s)
              ∙ sent_by-intercept_response round id shown s)
    ]
    | inr k ↦ elim (Option-cases result.error) [
      | inl e ↦ simp (k, e, answer) (sent_by-fail id [] (w.unreachable_text host port []) s)
      | inr (x, e) ↦ simp (k, e, answer) (sent_by-fail id x (w.unreachable_text host port x) s)
    ]
  ]

  -- what goes out, of what may
  abbrev pub goes_out : Option Bytes → List (Bytes × ℤ × Bool × Message)
  goes_out none = []
  goes_out (some raw) = if blocked w then [] else (host, port, tls, raw_message raw) ∷ []

  sent_by-go_on :
      (round : Round) (s : Server)
      → sent_by (go_on compile search lower_text w host port tls (some round, s)).1
        ≡ goes_out (some round.raw) ++ sent_by s
  unfolding go_on send
  sent_by-go_on round s =
      let logged = log_request compile search lower_text w host port tls round s in
      elim (Bool-cases (blocked w)) [
        | inl e ↦
            simp (e, go_on)
              (sent_by-fail logged.0 w.blocked_text w.blocked_text logged.1
                ∙ sent_by-log_request round s)
        | inr e ↦
            simp (e, go_on)
              (sent_by-answer round logged.0 (w.send_request host port tls round.raw)
                  (note (sent host port tls (raw_message round.raw)) logged.1)
                ∙ ap (λ t. (host, port, tls, raw_message round.raw) ∷ t)
                    (sent_by-log_request round s))
      ]

  dropped_round :
      (round : Round) (s : Server)
      → sent_by
          (go_on compile search lower_text w host port tls (
            none,
            log_dropped compile search lower_text w host port tls round
                (record s { dropped = suc s.dropped }),
          )).1
        ≡ sent_by s
  unfolding go_on
  dropped_round round s = sent_by-log_dropped round (record s { dropped = suc s.dropped })

  sent_by-decided :
      (round : Round) (d : Decision × Bytes) (s : Server)
      → sent_by
          (go_on compile search lower_text w host port tls
            (decided compile search lower_text w host port tls round d s)).1
        ≡ goes_out (forwarded d) ++ sent_by s
  unfolding decided
  sent_by-decided round (decide_drop, new) s = dropped_round round s
  sent_by-decided round (decide_forward, new) s =
      sent_by-go_on (edit_round compile search lower_text w host port tls round new) s
      ∙ ap (λ raw. goes_out (some raw) ++ sent_by s) (raw_of_edit round new)

  -- An exchange sends exactly one request, and none if the operator drops it or the kill switch refuses
  -- it: to the target that was given, with the bytes that the operator forwards, or those of the request
  -- after the header rules where the operator is not asked.
  pub sent_by-exchange :
      (req : Request) (s : Server)
      → sent_by (exchange compile search lower_text w host port tls req s).1
        ≡ goes_out (approved req) ++ sent_by s
  unfolding exchange intercept_request
  sent_by-exchange req s =
      let round = first_round compile search lower_text w host port tls req in
      let counted = record s { requests = suc s.requests } in
      elim (Bool-cases (asked round)) [
        | inl e ↦
            simp (e, exchange)
              (sent_by-decided round (w.decide request round.raw)
                (note (held request round.raw) counted))
        | inr e ↦ simp (e, exchange) (sent_by-go_on round counted)
      ]
