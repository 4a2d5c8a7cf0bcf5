-- ===== src/Upstream/Send.antt =====
-- `send_request`, `send_h2_request`, `_open_direct` and `_open_via_proxy` of
-- backend/brup/proxy/upstream.py. Times are left out, and connections are not closed: a timeout is the
-- error `timeout_error` of what is waited for.
use brup_http_proxy.Prelude.{
  ℕ, zero, suc, Bool, true, false, not, Option, none, some, [], ◌++◌, ◌*◌, if◌then◌else◌, is_empty,
}
use brup_http_proxy.Bytes.{Bytes, codes, crlf, blank_line, encode, strip_text}
use brup_http_proxy.Bytes.Int.{ℤ, pos, negsuc, decimal_ℤ}
use brup_http_proxy.Result.{
  Error, parse_error, http2_error, value_error, timeout_error, os_error, Result, ok, err, ◌>>=◌,
}
use brup_http_proxy.HttpMessage.Headers.{Headers}
use brup_http_proxy.HttpMessage.Message.{Response, response_raw}
use brup_http_proxy.HttpMessage.Parse.{parse_request, parse_response}
use brup_http_proxy.HttpMessage.Read.{Body, read_head, read_body, normalise_framing}
use brup_http_proxy.HttpMessage.Authority.{same_ℤ}
use brup_http_proxy.Http2.Fields.{strip_for_h2}
use brup_http_proxy.Http2.Text.{response_to_text}
use brup_http_proxy.Http2.Translate.{to_h1_request, from_h1_response}
use brup_http_proxy.Upstream.{prepare}
use brup_http_proxy.Upstream.Outcome.{UpstreamResult, failed_with}

abbrev pub stream_limit : ℕ
stream_limit = 4 * 1024 * 1024

-- A connection: whether HTTP/2 was negotiated, what arrives until EOF when bytes are written, and the
-- fields, the trailers and the body that `H2Exchange.perform` gives.
pub record Origin : Type 0 where
  pub http2 : Bool
  pub answers : Bytes → Result Bytes
  pub perform : Headers → Bytes → Result (Headers × (Headers × Bytes))

-- The network: `asyncio.open_connection` to a host and a port, with TLS that offers HTTP/2 or not;
-- `upgrade_to_tls` for a host inside a tunnel; and the settings of the upstream proxy, with the host name,
-- the port and whether the scheme is https that `urlparse` finds. `describe` is the text of an error with
-- its type, `detail` without it, `timeout_text` that of a timeout.
pub record Network : Type 0 where
  pub open_connection : Bytes → ℤ → Option Bool → Result Origin
  pub upgrade_to_tls : Bytes → Bool → Result Origin
  pub upstream_proxy : Bytes
  pub parsed_proxy : Result (Bytes × (Option ℤ × Bool))
  pub upstream_http2 : Bool
  pub describe : Error → Bytes
  pub detail : Error → Bytes
  pub timeout_text : Bytes

unfoldable pub open_direct : Network → Bytes → ℤ → Bool → Bool → Result Origin
open_direct net host port tls alpn =
    if tls then net.open_connection host port (some alpn) else net.open_connection host port none

-- `parsed.port or (443 if parsed.scheme == "https" else 8080)`
unfoldable pub proxy_port : Option ℤ → Bool → ℤ
proxy_port (some (pos (suc n))) https = pos (suc n)
proxy_port (some (negsuc n)) https = negsuc n
proxy_port (some (pos zero)) https = if https then pos 443 else pos 8080
proxy_port none https = if https then pos 443 else pos 8080

unfoldable pub connect_text : Bytes → ℤ → Bytes
unfolding encode
connect_text host port =
    let authority = host ++ (codes ":" ++ decimal_ℤ port) in
    encode (
      codes "CONNECT "
      ++ (authority
          ++ (codes " HTTP/1.1"
              ++ (crlf
                  ++ (codes "Host: "
                      ++ (authority
                          ++ (crlf ++ (codes "Proxy-Connection: keep-alive" ++ blank_line))))))))

-- the head of a response on a connection, and what follows it; `closed` where there is none
unfoldable pub response_head : Bytes → Result (Response × Bytes)
unfolding read_head parse_response
response_head stream = elim (read_head stream_limit stream) [
  | err e ↦ err e
  | ok (none, rest) ↦ err os_error
  | ok (some head, rest) ↦ elim (parse_response (head ++ blank_line)) [
    | err e ↦ err e
    | ok resp ↦ ok (resp, rest)
  ]
]

-- the tunnel through the proxy
unfoldable pub open_tunnel : Network → Origin → Bytes → ℤ → Bool → Result Origin
unfolding connect_text response_head
open_tunnel net proxy host port alpn =
    elim (proxy.answers (connect_text host port) >>= response_head) [
      | err e ↦ err e
      | ok (resp, rest) ↦
          if same_ℤ resp.status 200 then net.upgrade_to_tls host alpn else err os_error
    ]

unfoldable pub open_via_proxy : Network → Bytes → ℤ → Bool → Bool → Result Origin
unfolding open_tunnel proxy_port
open_via_proxy net host port tls alpn = elim net.parsed_proxy [
  | err e ↦ err e
  | ok (proxy_host, (parsed_port, https)) ↦
      if is_empty proxy_host
      then err os_error
      else elim (net.open_connection proxy_host (proxy_port parsed_port https) none) [
        | err e ↦ err e
        | ok proxy ↦ if tls then open_tunnel net proxy host port alpn else ok proxy
      ]
]

-- `bool(settings.upstream_proxy.strip())`
unfoldable pub uses_proxy : Network → Bool
unfolding strip_text
uses_proxy net = not (is_empty (strip_text net.upstream_proxy))

unfoldable pub open_origin : Network → Bytes → ℤ → Bool → Bool → Result Origin
unfolding open_direct open_via_proxy uses_proxy
open_origin net host port tls alpn =
    if uses_proxy net
    then open_via_proxy net host port tls alpn
    else open_direct net host port tls alpn

-- the response with the body that was read, in the framing of a plain body
unfoldable pub framed : Response → Body → Response
unfolding normalise_framing
framed resp (body, was_chunked) = record resp {
  headers = normalise_framing resp.headers body was_chunked;
  body = body;
}

-- The response to what is written, or none where the reader runs out of fuel.
unfoldable pub read_response : Origin → Bytes → Bytes → Option (Result Response)
unfolding response_head read_body framed
read_response origin wire method = elim (origin.answers wire >>= response_head) [
  | err e ↦ some (err e)
  | ok (resp, rest) ↦
      elim (read_body stream_limit resp.headers true (some resp.status) (some method) rest) [
        | none ↦ none
        | some (err e) ↦ some (err e)
        | some (ok (body, rest')) ↦ some (ok (framed resp body))
      ]
]

abbrev pub h1_result : Response → UpstreamResult
h1_result resp = record {
  raw_response = response_raw resp;
  response = some resp;
  error = none;
  is_h2 = false;
  h2_headers = none;
  h2_body = [];
}

-- the result of an exception, where the code catches it
unfoldable pub settled : Network → Error → Result UpstreamResult
settled net timeout_error = ok (failed_with false net.timeout_text)
settled net parse_error = ok (failed_with false (net.describe parse_error))
settled net os_error = ok (failed_with false (net.describe os_error))
settled net value_error = ok (failed_with false (net.describe value_error))
settled net e = err e

abbrev pub settled_response : Network → Option (Result Response) → Option (Result UpstreamResult)
unfolding settled
settled_response net none = none
settled_response net (some (err e)) = some (settled net e)
settled_response net (some (ok resp)) = some (ok (h1_result resp))

-- a request that cannot be prepared
unfoldable pub unprepared : Network → Error → Result UpstreamResult
unprepared net parse_error =
    ok (failed_with false (codes "could not parse request: " ++ net.detail parse_error))
unprepared net e = err e

unfoldable pub send_request : Network → Bytes → ℤ → Bool → Bytes → Option (Result UpstreamResult)
unfolding prepare unprepared open_origin read_response settled uses_proxy
send_request net host port tls raw = elim (prepare raw tls (uses_proxy net) host port) [
  | err e ↦ some (unprepared net e)
  | ok (req, wire) ↦ elim (open_origin net host port tls false) [
    | err e ↦ some (settled net e)
    | ok origin ↦ settled_response net (read_response origin wire req.method)
  ]
]

-- the same for HTTP/2, with the protocol that is spoken
unfoldable pub settled_h2 : Network → Bool → Error → Result UpstreamResult
settled_h2 net is_h2 timeout_error = ok (failed_with is_h2 net.timeout_text)
settled_h2 net is_h2 http2_error = ok (failed_with is_h2 (net.detail http2_error))
settled_h2 net is_h2 parse_error = ok (failed_with is_h2 (net.detail parse_error))
settled_h2 net is_h2 os_error = ok (failed_with is_h2 (net.describe os_error))
settled_h2 net is_h2 value_error = ok (failed_with is_h2 (net.describe value_error))
settled_h2 net is_h2 e = err e

-- a response over HTTP/1.1, translated back
unfoldable pub downgraded_result : Response → UpstreamResult
unfolding from_h1_response
downgraded_result resp =
    let translated = from_h1_response resp in
    record (h1_result resp) { h2_headers = some translated.0; h2_body = translated.1 }

unfoldable pub downgraded : Network → Origin → Headers → Bytes → Option (Result UpstreamResult)
unfolding to_h1_request parse_request read_response settled_h2 downgraded_result
downgraded net origin headers body =
    let wire = to_h1_request headers body in
    elim (parse_request wire) [
      | err e ↦ some (settled_h2 net false e)
      | ok request ↦ elim (read_response origin wire request.method) [
        | none ↦ none
        | some (err e) ↦ some (settled_h2 net false e)
        | some (ok resp) ↦ some (ok (downgraded_result resp))
      ]
    ]

unfoldable pub h2_result : Headers × (Headers × Bytes) → UpstreamResult
unfolding response_to_text
h2_result (headers, (trailers, body)) = record {
  raw_response = response_to_text headers body;
  response = none;
  error = none;
  is_h2 = true;
  h2_headers = some (headers ++ trailers);
  h2_body = body;
}

unfoldable pub performed : Network → Origin → Headers → Bytes → Result UpstreamResult
unfolding strip_for_h2 settled_h2 h2_result
performed net origin headers body = elim (origin.perform (strip_for_h2 headers) body) [
  | err e ↦ settled_h2 net true e
  | ok response ↦ ok (h2_result response)
]

unfoldable pub send_h2_request :
    Network → Bytes → ℤ → Headers → Bytes → Option (Result UpstreamResult)
unfolding open_origin downgraded performed settled_h2
send_h2_request net host port headers body =
    elim (open_origin net host port true net.upstream_http2) [
      | err e ↦ some (settled_h2 net net.upstream_http2 e)
      | ok origin ↦
          if origin.http2
          then some (performed net origin headers body)
          else downgraded net origin headers body
    ]
