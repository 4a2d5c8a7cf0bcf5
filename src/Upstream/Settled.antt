-- ===== src/Upstream/Settled.antt =====
-- What sending a request comes to.
use brup_http_proxy.Prelude.{
  ◌≡◌, refl, Bool, true, false, Option, none, some, ◌++◌, ◌⊎◌, inl, inr, Bool-cases,
}
use mathlib.Core.Path.{subst}
use brup_http_proxy.Bytes.{Bytes, codes}
use brup_http_proxy.Bytes.Int.{ℤ}
use brup_http_proxy.Result.{
  Error, parse_error, http2_error, value_error, timeout_error, os_error, Result, ok, err, ◌>>=◌,
  Result-cases,
}
use brup_http_proxy.HttpMessage.Headers.{Headers}
use brup_http_proxy.HttpMessage.Message.{Response, response_raw}
use brup_http_proxy.HttpMessage.Parse.{parse_request}
use brup_http_proxy.HttpMessage.Parse.Errors.{OnlyParses, OnlyParses-bind, parse_request-OnlyParses}
use brup_http_proxy.HttpMessage.Read.{read_body}
use brup_http_proxy.HttpMessage.Read.Framing.{read_body-ne_none, body-cases}
use brup_http_proxy.Http2.Fields.{strip_for_h2}
use brup_http_proxy.Http2.Translate.{to_h1_request, from_h1_response}
use brup_http_proxy.Upstream.{prepare}
use brup_http_proxy.Upstream.Outcome.{UpstreamResult, is_ok}
use brup_http_proxy.Upstream.Send.{
  Network, Origin, stream_limit, response_head, framed, read_response, settled, unprepared,
  send_request, settled_h2, downgraded_result, downgraded, h2_result, performed, send_h2_request,
  open_origin, uses_proxy,
}

-- A result is either a response whose bytes are those of its parts, or an error without a response.
abbrev pub Answered : UpstreamResult → Type 0
unfolding is_ok
Answered result =
    (is_ok result ≡ true)
    × (resp : Response) × (result.response ≡ some resp)
    × (result.raw_response ≡ response_raw resp)

abbrev pub Failed : UpstreamResult → Type 0
unfolding is_ok
Failed result =
    (is_ok result ≡ false) × (text : Bytes) × (result.error ≡ some text) × (result.response ≡ none)

-- The errors that become results.
abbrev pub caught : Error → Bool
caught parse_error = true
caught os_error = true
caught value_error = true
caught timeout_error = true
caught e = false

-- Only an error that is not caught is passed on.
abbrev pub Settled : Result UpstreamResult → Type 0
unfolding is_ok
Settled (ok result) = Answered result ⊎ Failed result
Settled (err e) = caught e ≡ false

-- The reader has not run out of fuel.
abbrev pub SettledRun : Option (Result UpstreamResult) → Type 0
unfolding is_ok
SettledRun none = ⊥
SettledRun (some r) = Settled r

settled-Settled : (net : Network) (e : Error) → Settled (settled net e)
unfolding settled is_ok
settled-Settled net timeout_error = inr (refl, net.timeout_text, refl, refl)
settled-Settled net parse_error = inr (refl, net.describe parse_error, refl, refl)
settled-Settled net os_error = inr (refl, net.describe os_error, refl, refl)
settled-Settled net value_error = inr (refl, net.describe value_error, refl, refl)
settled-Settled net _ = refl

read_response-cases :
    (origin : Origin) (wire method : Bytes)
    → ((resp : Response) × (read_response origin wire method ≡ some (ok resp)))
      ⊎ ((e : Error) × (read_response origin wire method ≡ some (err e)))
unfolding read_response
read_response-cases origin wire method =
    elim (Result-cases (origin.answers wire >>= response_head)) [
      | inr (x, e) ↦ inr (x, rw (e, read_response) refl)
      | inl ((resp, rest), e) ↦
          let body =
            read_body stream_limit resp.headers true (some resp.status) (some method) rest in
          elim (body-cases body) [
            | inl b ↦ absurd (
                read_body-ne_none stream_limit resp.headers true (some resp.status) (some method)
                  rest b)
            | inr (inl (found, rest', b)) ↦ inl (framed resp found, rw (e, b, read_response) refl)
            | inr (inr (x, b)) ↦ inr (x, rw (e, b, read_response) refl)
          ]
    ]

prepare-OnlyParses :
    (raw : Bytes) (tls via : Bool) (host : Bytes) (port : ℤ)
    → OnlyParses (prepare raw tls via host port)
unfolding prepare
prepare-OnlyParses raw tls via host port =
    OnlyParses-bind (parse_request raw) _ (parse_request-OnlyParses raw) (λ parsed. tt)

unprepared-Settled : (net : Network) (e : Error) → e ≡ parse_error → Settled (unprepared net e)
unfolding unprepared is_ok
unprepared-Settled net e p =
    rw p (inr (refl, codes "could not parse request: " ++ net.detail parse_error, refl, refl))

-- Sending a request ends, on every network: with a response whose bytes are those of its parts, with an
-- error and no response, or with an exception that is no ParseError, OSError, ValueError or timeout.
pub send_request-Settled :
    (net : Network) (host : Bytes) (port : ℤ) (tls : Bool) (raw : Bytes)
    → SettledRun (send_request net host port tls raw)
unfolding send_request is_ok
send_request-Settled net host port tls raw =
    elim (Result-cases (prepare raw tls (uses_proxy net) host port)) [
      | inr (x, e) ↦
          rw (e, send_request)
            (unprepared-Settled net x
              (subst OnlyParses e (prepare-OnlyParses raw tls (uses_proxy net) host port)))
      | inl ((req, wire), e) ↦ elim (Result-cases (open_origin net host port tls false)) [
        | inr (x, o) ↦ rw (e, o, send_request) (settled-Settled net x)
        | inl (origin, o) ↦ elim (read_response-cases origin wire req.method) [
          | inl (resp, r) ↦ rw (e, o, r, send_request) (inl (refl, resp, refl, refl))
          | inr (x, r) ↦ rw (e, o, r, send_request) (settled-Settled net x)
        ]
      ]
    ]

-- the same over HTTP/2, where a response has fields in place of its parts
abbrev pub caught_h2 : Error → Bool
caught_h2 http2_error = true
caught_h2 e = caught e

abbrev pub SettledH2 : Option (Result UpstreamResult) → Type 0
unfolding is_ok
SettledH2 none = ⊥
SettledH2 (some (err e)) = caught_h2 e ≡ false
SettledH2 (some (ok result)) =
    ((is_ok result ≡ true) × (headers : Headers) × (result.h2_headers ≡ some headers))
    ⊎ Failed result

settled_h2-SettledH2 :
    (net : Network) (is_h2 : Bool) (e : Error) → SettledH2 (some (settled_h2 net is_h2 e))
unfolding settled_h2 is_ok
settled_h2-SettledH2 net is_h2 timeout_error = inr (refl, net.timeout_text, refl, refl)
settled_h2-SettledH2 net is_h2 http2_error = inr (refl, net.detail http2_error, refl, refl)
settled_h2-SettledH2 net is_h2 parse_error = inr (refl, net.detail parse_error, refl, refl)
settled_h2-SettledH2 net is_h2 os_error = inr (refl, net.describe os_error, refl, refl)
settled_h2-SettledH2 net is_h2 value_error = inr (refl, net.describe value_error, refl, refl)
settled_h2-SettledH2 net is_h2 _ = refl

downgraded_result-SettledH2 : (resp : Response) → SettledH2 (some (ok (downgraded_result resp)))
unfolding downgraded_result is_ok
downgraded_result-SettledH2 resp = inl (refl, (from_h1_response resp).0, refl)

downgraded-SettledH2 :
    (net : Network) (origin : Origin) (headers : Headers) (body : Bytes)
    → SettledH2 (downgraded net origin headers body)
unfolding downgraded
downgraded-SettledH2 net origin headers body =
    elim (Result-cases (parse_request (to_h1_request headers body))) [
      | inr (x, e) ↦ rw (e, downgraded) (settled_h2-SettledH2 net false x)
      | inl (request, e) ↦
          elim (read_response-cases origin (to_h1_request headers body) request.method) [
            | inl (resp, r) ↦ rw (e, r, downgraded) (downgraded_result-SettledH2 resp)
            | inr (x, r) ↦ rw (e, r, downgraded) (settled_h2-SettledH2 net false x)
          ]
    ]

performed-SettledH2 :
    (net : Network) (origin : Origin) (headers : Headers) (body : Bytes)
    → SettledH2 (some (performed net origin headers body))
unfolding performed h2_result is_ok
performed-SettledH2 net origin headers body =
    elim (Result-cases (origin.perform (strip_for_h2 headers) body)) [
      | inr (x, e) ↦ rw (e, performed) (settled_h2-SettledH2 net true x)
      | inl ((fields, (trailers, found)), e) ↦
          rw (e, performed) (inl (refl, fields ++ trailers, refl))
    ]

-- Sending a request over HTTP/2 ends, on every network, whether the origin takes HTTP/2 or the request is
-- translated: with fields of a response, with an error and no response, or with an exception that is
-- no ParseError, Http2Error, OSError, ValueError or timeout.
pub send_h2_request-SettledH2 :
    (net : Network) (host : Bytes) (port : ℤ) (headers : Headers) (body : Bytes)
    → SettledH2 (send_h2_request net host port headers body)
unfolding send_h2_request
send_h2_request-SettledH2 net host port headers body =
    elim (Result-cases (open_origin net host port true net.upstream_http2)) [
      | inr (x, e) ↦ rw (e, send_h2_request) (settled_h2-SettledH2 net net.upstream_http2 x)
      | inl (origin, e) ↦ elim (Bool-cases origin.http2) [
        | inl h ↦ simp (e, h, send_h2_request) (performed-SettledH2 net origin headers body)
        | inr h ↦ simp (e, h, send_h2_request) (downgraded-SettledH2 net origin headers body)
      ]
    ]
