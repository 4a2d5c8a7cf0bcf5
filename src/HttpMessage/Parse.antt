-- ===== src/HttpMessage/Parse.antt =====
-- `_split_head_lines`, `_parse_headers`, `parse_request` and `parse_response` of
-- backend/brup/http_message.py.
pub mod Lines
pub mod RoundTrip
pub mod Errors
use brup_http_proxy.Prelude.{
  ℕ, zero, suc, ◌+◌, Bool, true, false, not, ◌&&◌, ◌||◌, Option, none, some, List, [], ◌∷◌, ◌++◌,
  map, ◌==◌, if◌then◌else◌, is_empty, take, drop,
}
use brup_http_proxy.Bytes.{
  Bytes, codes, blank_line, find, split_on, chop_cr, strip, words, split_max,
}
use brup_http_proxy.Bytes.Int.{ℤ, int_of}
use brup_http_proxy.Result.{Result, ok, err, parse_error, ◌>>=◌}
use brup_http_proxy.HttpMessage.Headers.{Header, Headers}
use brup_http_proxy.HttpMessage.Message.{Request, Response}

-- The head and the body: cut at the first CRLF CRLF, else at the first LF LF, else all is head.
unfoldable pub split_raw : Bytes → Bytes × Bytes
unfolding find
split_raw raw = elim (find blank_line raw) [
  | some sep ↦ (take sep raw, drop (sep + 4) raw)
  | none ↦ elim (find (10 ∷ 10 ∷ []) raw) [
    | some sep ↦ (take sep raw, drop (sep + 2) raw)
    | none ↦ (raw, [])
  ]
]

unfoldable pub split_head_lines : Bytes → List Bytes
unfolding split_on chop_cr
split_head_lines head = map chop_cr (split_on 10 head)

-- `ln[:1] in (b" ", b"\t")`
unfoldable pub is_folded : Bytes → Bool
is_folded [] = false
is_folded (c ∷ ln) = c == 32 || c == 9

-- `headers[-1] = (name, value + b" " + ln.strip())`
unfoldable pub extend_last : Headers → Bytes → Headers
extend_last [] extra = []
extend_last ((name, value) ∷ []) extra = (name, value ++ (32 ∷ extra)) ∷ []
extend_last (h ∷ g ∷ hs) extra = h ∷ extend_last (g ∷ hs) extra

unfoldable pub split_header : Bytes → Result Header
unfolding find strip
split_header ln = elim (find (codes ":") ln) [
  | none ↦ err parse_error
  | some zero ↦ err parse_error
  | some (suc i) ↦ ok (take (suc i) ln, strip (drop (suc i + 1) ln))
]

-- one round of the loop
unfoldable pub header_step : Headers → Bytes → Result Headers
unfolding is_folded extend_last split_header
header_step headers ln =
    if is_empty ln
    then ok headers
    else if is_folded ln && not (is_empty headers)
    then ok (extend_last headers (strip ln))
    else do h ← split_header ln; ok (headers ++ h ∷ [])

unfoldable pub parse_headers_from : Headers → List Bytes → Result Headers
unfolding header_step
parse_headers_from headers [] = ok headers
parse_headers_from headers (ln ∷ lines) =
    header_step headers ln >>= λ headers'. parse_headers_from headers' lines

unfoldable pub parse_headers : List Bytes → Result Headers
unfolding parse_headers_from
parse_headers lines = parse_headers_from [] lines

abbrev make_request : Bytes → Bytes → Bytes → List Bytes → Bytes → Result Request
unfolding parse_headers
make_request method target version lines body = do
  headers ← parse_headers lines
  ok (record {
    method = method;
    target = target;
    version = version;
    headers = headers;
    body = body;
  })

unfoldable pub request_of_bits : List Bytes → List Bytes → Bytes → Result Request
unfolding parse_headers
request_of_bits [] lines body = err parse_error
request_of_bits (method ∷ []) lines body = err parse_error
request_of_bits (method ∷ target ∷ []) lines body =
    make_request method target (codes "HTTP/1.1") lines body
request_of_bits (method ∷ target ∷ version ∷ _) lines body =
    make_request method target version lines body

unfoldable pub request_of_lines : List Bytes → Bytes → Result Request
unfolding request_of_bits strip words
request_of_lines [] body = err parse_error
request_of_lines (first ∷ lines) body =
    if is_empty (strip first) then err parse_error else request_of_bits (words first) lines body

unfoldable pub parse_request : Bytes → Result Request
unfolding split_raw split_head_lines request_of_lines
parse_request raw =
    let (head, body) = split_raw raw in request_of_lines (split_head_lines head) body

abbrev make_response : Bytes → Option ℤ → Bytes → List Bytes → Bytes → Result Response
unfolding parse_headers
make_response version none reason lines body = err parse_error
make_response version (some status) reason lines body = do
  headers ← parse_headers lines
  ok (record {
    version = version;
    status = status;
    reason = reason;
    headers = headers;
    body = body;
  })

unfoldable pub response_of_bits : List Bytes → List Bytes → Bytes → Result Response
unfolding parse_headers int_of
response_of_bits [] lines body = err parse_error
response_of_bits (version ∷ []) lines body = err parse_error
response_of_bits (version ∷ status ∷ []) lines body =
    make_response version (int_of 10 status) [] lines body
response_of_bits (version ∷ status ∷ reason ∷ _) lines body =
    make_response version (int_of 10 status) reason lines body

unfoldable pub response_of_lines : List Bytes → Bytes → Result Response
unfolding response_of_bits split_max
response_of_lines [] body = err parse_error
response_of_lines (first ∷ lines) body = response_of_bits (split_max 2 first) lines body

unfoldable pub parse_response : Bytes → Result Response
unfolding split_raw split_head_lines response_of_lines
parse_response raw =
    let (head, body) = split_raw raw in response_of_lines (split_head_lines head) body
