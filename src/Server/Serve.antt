-- ===== src/Server/Serve.antt =====
-- `_serve_requests` and `_handle_connect` of backend/brup/proxy/server.py: the requests of one client
-- connection. The loop takes fuel, and `none` means that it ran out; `worlds n` is what the exchange
-- after `n` exchanges meets. The answer to a malformed request is without the text of the error.
pub mod Ends
pub mod Silent
use brup_http_proxy.Prelude.{
  ℕ, zero, suc, ◌+◌, ◌*◌, Bool, true, false, not, ◌&&◌, Option, none, some, List, [], ◌∷◌, ◌++◌,
  if◌then◌else◌, is_empty, length,
}
use brup_http_proxy.Bytes.{Bytes, codes, crlf, blank_line, bytes_eq, upper, lower, contains}
use brup_http_proxy.Bytes.Int.{ℤ, pos}
use brup_http_proxy.Result.{Error, Result, ok, err, parse_error, incomplete_read}
use brup_http_proxy.HttpMessage.Message.{Request, header}
use brup_http_proxy.HttpMessage.Parse.{parse_request}
use brup_http_proxy.HttpMessage.Read.{Body, read_head, read_body, normalise_framing}
use brup_http_proxy.HttpMessage.Authority.{split_authority}
use brup_http_proxy.Server.Answers.{error_response, is_passthrough}
use brup_http_proxy.Server.Target.{Destination, resolve_target}
use brup_http_proxy.Server.State.{Server, World, note, written, sent, tunnel_message}
use brup_http_proxy.Server.Exchange.{exchange}

abbrev pub stream_limit : ℕ
stream_limit = 4 * 1024 * 1024

-- How the loop ends: the connection is done, or a CONNECT takes it over, as TLS that is intercepted or as
-- bytes that are passed through.
pub data Ending : Type 0 where
  finished : Ending
  upgraded passed_through : Bytes → ℤ → Ending

abbrev pub Served : Type 0
Served = Option (Result Ending × Server)

abbrev bad_request : Bytes → Server → Result Ending × Server
unfolding error_response
bad_request detail s =
    (ok finished, note (written (error_response 400 (codes "Bad Request") detail)) s)

abbrev established : Bytes → Bytes
established extra = codes "HTTP/1.1 200 Connection established" ++ (extra ++ blank_line)

-- `_passthrough`: no kill switch is asked. `rest` is what the client writes after its CONNECT.
unfoldable pub passthrough : World → Bytes → ℤ → Bytes → Server → Result Ending × Server
unfolding error_response
passthrough w host port rest s =
    if w.reachable host port
    then (
      ok (passed_through host port),
      note (sent host port false (tunnel_message rest)) (note (written (established [])) s),
    )
    else (
      ok finished,
      note (written (error_response 502 (codes "Bad Gateway") (w.passthrough_text host port))) s,
    )

-- `_handle_connect`, up to the TLS handshake
unfoldable pub handle_connect :
    (Bytes → Bytes) → World → Request → Bytes → Server → Result Ending × Server
unfolding split_authority is_passthrough error_response passthrough
handle_connect lower_text w req rest s = elim (split_authority req.target (pos 443)) [
  | err e ↦ (err e, s)
  | ok (host, port) ↦
      if is_empty host
      then bad_request (codes "CONNECT needs host:port") s
      else if is_passthrough lower_text w.settings.tls_passthrough_hosts host
      then passthrough w host port rest s
      else (
        ok (upgraded host port),
        note (written (established (crlf ++ codes "Proxy-Agent: BRUP"))) s,
      )
]

unfoldable pub is_connect : Request → Bool
unfolding bytes_eq upper
is_connect req = bytes_eq (upper req.method) (codes "CONNECT")

-- the answer to a client that wants to be told before it sends a body
unfoldable pub tell_continue : Request → Server → Server
unfolding header contains lower
tell_continue req s = elim (header req (codes "expect")) [
  | none ↦ s
  | some value ↦
      if contains (codes "100-continue") (lower value)
      then note (written (codes "HTTP/1.1 100 Continue" ++ blank_line)) s
      else s
]

unfoldable pub with_body : Request → Body → Request
unfolding normalise_framing
with_body req (body, was_chunked) = record req {
  headers = normalise_framing req.headers body was_chunked;
  body = body;
}

-- an exception while a body is read: some end the connection, the others are logged
unfoldable pub body_error : Error → Server → Result Ending × Server
body_error parse_error s = (ok finished, s)
body_error incomplete_read s = (ok finished, s)
body_error e s = (err e, s)

-- the parsed request, or none at a clean end of the stream; `err` for a request that is malformed
unfoldable pub next_request : Bytes → Result (Option (Result Request) × Bytes)
unfolding read_head parse_request
next_request stream = elim (read_head stream_limit stream) [
  | err e ↦ err e
  | ok (none, rest) ↦ ok (none, rest)
  | ok (some head, rest) ↦ ok (some (parse_request (head ++ blank_line)), rest)
]

abbrev no_target_text : Bytes
no_target_text =
    codes "This request has no absolute URI and no Host header, so BRUP "
    ++ (codes "cannot tell where to send it. Configure the client to use BRUP "
        ++ codes "as its HTTP proxy, or enable invisible proxying in Settings.")

-- the loop goes on after an exchange that keeps the connection alive
unfoldable pub after_exchange : (Bytes → Server → Served) → Bytes → Result Bool × Server → Served
after_exchange next rest (err e, s) = some (err e, s)
after_exchange next rest (ok keep_alive, s) =
    if keep_alive then next rest s else some (ok finished, s)

module _ {ℓ} {P : Type ℓ} (compile : Bytes → Option P) (search : P → Bytes → Bool)
    (lower_text : Bytes → Bytes) (worlds : ℕ → World) (tls : Bool)
    (fixed_host : Option (Bytes × ℤ)) where
  -- the body of a request, then the exchange; `next` serves what is left of the stream
  unfoldable pub serve_body :
      ℕ → Request → Destination → Bytes → Server → (Bytes → Server → Served) → Served
  unfolding read_body tell_continue body_error with_body after_exchange exchange
  serve_body n req (host, port, is_tls) stream s next =
      let told = tell_continue req s in
      elim (read_body stream_limit req.headers false none none stream) [
        | none ↦ none
        | some (err e) ↦ some (body_error e told)
        | some (ok (body, rest)) ↦ after_exchange next rest (
            exchange compile search lower_text (worlds n) host port is_tls (with_body req body)
              told)
      ]

  unfoldable pub serve_request : ℕ → Request → Bytes → Server → (Bytes → Server → Served) → Served
  unfolding is_connect handle_connect resolve_target serve_body error_response
  serve_request n req stream s next =
      if is_connect req
      then some (handle_connect lower_text (worlds n) req stream s)
      else elim (resolve_target (worlds n).settings tls fixed_host req) [
        | err e ↦ some (err e, s)
        | ok none ↦ some (bad_request no_target_text s)
        | ok (some target) ↦ serve_body n req target stream s next
      ]

  unfoldable pub serve_from : ℕ → ℕ → Bytes → Server → Served
  unfolding next_request serve_request error_response
  serve_from zero n stream s = none
  serve_from (suc fuel) n stream s =
      let next = serve_from fuel (suc n) in
      elim (next_request stream) [
        | err e ↦ some (ok finished, s)
        | ok (none, rest) ↦ some (ok finished, s)
        | ok (some (err e), rest) ↦ some (bad_request (codes "Malformed request: ") s)
        | ok (some (ok req), rest) ↦ serve_request n req rest s next
      ]

  -- Each round reads a head, so one more than the length of the stream is enough fuel.
  unfoldable pub serve_requests : Bytes → Server → Served
  unfolding serve_from
  serve_requests stream s = serve_from (suc (length stream)) 0 stream s
