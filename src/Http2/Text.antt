-- ===== src/Http2/Text.antt =====
-- `request_to_text`, `request_from_text`, `response_to_text`, `response_from_text`, `_split`,
-- `_head_lines`, `_field` and `looks_like_h2_text` of backend/brup/http2.py.
pub mod Lines
pub mod RoundTrip
use brup_http_proxy.Prelude.{
  ℕ, zero, suc, ◌+◌, String, ◌==◌, Bool, true, false, not, ◌||◌, Option, none, some, List, [], ◌∷◌,
  ◌++◌, map, if◌then◌else◌, is_empty, take, drop, keep,
}
use brup_http_proxy.Bytes.{
  Bytes, codes, crlf, blank_line, bytes_eq, starts_with, find, contains, split_on, split_once,
  chop_cr, strip, words, join,
}
use brup_http_proxy.Bytes.Int.{ℤ, pos, negsuc, int_of}
use brup_http_proxy.Result.{Result, ok, err, http2_error, ◌>>=◌}
use brup_http_proxy.HttpMessage.Headers.{Header, Headers}
use brup_http_proxy.HttpMessage.Message.{header_line}
use brup_http_proxy.Http2.Fields.{
  one_of, request_pseudo_order, get, is_pseudo, split_pseudo, or_else,
}

-- `b"\r\n".join(lines) + b"\r\n\r\n" + body`
unfoldable pub text_of : List Bytes → Bytes → Bytes
text_of lines body = join crlf lines ++ (blank_line ++ body)

abbrev pub first_line_names : List Bytes
first_line_names = codes ":method" ∷ codes ":path" ∷ []

unfoldable pub request_first_line : Headers → Bytes
request_first_line pseudo = join (codes " ") (
    or_else (get pseudo (codes ":method")) (codes "GET")
    ∷ or_else (get pseudo (codes ":path")) (codes "/")
    ∷ codes "HTTP/2"
    ∷ [])

unfoldable pub request_to_text : Headers → Bytes → Bytes
unfolding request_first_line text_of split_pseudo
request_to_text headers body =
    let (pseudo, regular) = split_pseudo headers in
    let shown = keep (λ h. not (one_of first_line_names h.0)) pseudo in
    text_of (request_first_line pseudo ∷ (map header_line shown ++ map header_line regular)) body

unfoldable pub split : Bytes → Bytes × Bytes
unfolding find
split raw = elim (find blank_line raw) [
  | some index ↦ (take index raw, drop (index + 4) raw)
  | none ↦ elim (find (10 ∷ 10 ∷ []) raw) [
    | some index ↦ (take index raw, drop (index + 2) raw)
    | none ↦ (raw, [])
  ]
]

unfoldable pub head_lines : Bytes → List Bytes
unfolding split_on chop_cr strip
head_lines head = keep (λ ln. not (is_empty (strip ln))) (map chop_cr (split_on 10 head))

-- `line.find(b":", 1)`
unfoldable pub find_colon : Bytes → Option ℕ
unfolding find
find_colon [] = none
find_colon (c ∷ line) = elim (find (codes ":") line) [ none ↦ none | some i ↦ some (suc i) ]

unfoldable pub field : Bytes → Result Header
unfolding find_colon strip
field line = elim (find_colon line) [
  | none ↦ err http2_error
  | some i ↦ ok (strip (take i line), strip (drop (i + 1) line))
]

-- `pseudo[name] = value` of a dict: an old key keeps its place
unfoldable pub put : Bytes → Bytes → Headers → Headers
put name value [] = (name, value) ∷ []
put name value ((n, v) ∷ hs) =
    if bytes_eq n name then (n, value) ∷ hs else (n, v) ∷ put name value hs

-- the loop over the lines: the pseudo-headers and the regular ones
unfoldable pub fields_from : Headers → Headers → List Bytes → Result (Headers × Headers)
unfolding field put
fields_from pseudo regular [] = ok (pseudo, regular)
fields_from pseudo regular (line ∷ lines) = do
  h ← field line
  elim (is_pseudo h) [
    | true ↦ fields_from (put h.0 h.1 pseudo) regular lines
    | false ↦ fields_from pseudo (regular ++ h ∷ []) lines
  ]

-- `[(name, pseudo[name]) for name in order if name in pseudo]`
unfoldable pub in_order : List Bytes → Headers → Headers
unfolding get
in_order [] pseudo = []
in_order (name ∷ names) pseudo =
    let rest = in_order names pseudo in
    elim (get pseudo name) [ none ↦ rest | some v ↦ (name, v) ∷ rest ]

unfoldable pub arranged : Headers × Headers → Headers
unfolding in_order
arranged (pseudo, regular) =
    in_order request_pseudo_order pseudo
    ++ (keep (λ h. not (one_of request_pseudo_order h.0)) pseudo ++ regular)

-- the last check of `request_from_text`
unfoldable pub with_authority : Headers → Bytes → Result (Headers × Bytes)
unfolding get
with_authority headers body = elim (get headers (codes ":authority")) [
  | some a ↦ ok (headers, body)
  | none ↦ elim (get headers (codes "host")) [
    | some h ↦ ok (headers, body)
    | none ↦ err http2_error
  ]
]

unfoldable pub request_of_bits : List Bytes → List Bytes → Bytes → Result (Headers × Bytes)
unfolding fields_from arranged with_authority
request_of_bits (method ∷ path ∷ _) lines body = do
  groups ← fields_from ((codes ":method", method) ∷ (codes ":path", path) ∷ []) [] lines
  with_authority (arranged groups) body
request_of_bits _ lines body = err http2_error

unfoldable pub request_of_lines : List Bytes → Bytes → Result (Headers × Bytes)
unfolding request_of_bits words
request_of_lines [] body = err http2_error
request_of_lines (first ∷ lines) body = request_of_bits (words first) lines body

unfoldable pub request_from_text : Bytes → Result (Headers × Bytes)
unfolding split head_lines request_of_lines
request_from_text raw = let (head, body) = split raw in request_of_lines (head_lines head) body

-- `REASONS.get(status, b"")`
abbrev pub reasons : List (ℕ × String)
reasons =
    (200, "OK")
    ∷ (201, "Created")
    ∷ (202, "Accepted")
    ∷ (204, "No Content")
    ∷ (301, "Moved Permanently")
    ∷ (302, "Found")
    ∷ (303, "See Other")
    ∷ (304, "Not Modified")
    ∷ (307, "Temporary Redirect")
    ∷ (308, "Permanent Redirect")
    ∷ (400, "Bad Request")
    ∷ (401, "Unauthorized")
    ∷ (403, "Forbidden")
    ∷ (404, "Not Found")
    ∷ (405, "Method Not Allowed")
    ∷ (408, "Request Timeout")
    ∷ (409, "Conflict")
    ∷ (410, "Gone")
    ∷ (413, "Payload Too Large")
    ∷ (418, "I'm a teapot")
    ∷ (422, "Unprocessable Entity")
    ∷ (429, "Too Many Requests")
    ∷ (500, "Internal Server Error")
    ∷ (501, "Not Implemented")
    ∷ (502, "Bad Gateway")
    ∷ (503, "Service Unavailable")
    ∷ (504, "Gateway Timeout")
    ∷ []

unfoldable pub reason_in : List (ℕ × String) → ℕ → Bytes
reason_in [] status = []
reason_in ((n, text) ∷ more) status = if n == status then codes text else reason_in more status

-- `int(status_raw)`, or 0
unfoldable pub status_number : Bytes → ℕ
unfolding int_of
status_number raw = elim (int_of 10 raw) [ some (pos n) ↦ n | _ ↦ 0 ]

unfoldable pub status_line : Bytes → Bytes
unfolding reason_in status_number
status_line raw =
    let reason = reason_in reasons (status_number raw) in
    codes "HTTP/2 " ++ (raw ++ (if is_empty reason then [] else 32 ∷ reason))

unfoldable pub response_to_text : Headers → Bytes → Bytes
unfolding status_line text_of split_pseudo
response_to_text headers body =
    let (pseudo, regular) = split_pseudo headers in
    let raw = or_else (get pseudo (codes ":status")) (codes "0") in
    let shown = keep (λ h. not (bytes_eq h.0 (codes ":status"))) pseudo in
    text_of (status_line raw ∷ (map header_line shown ++ map header_line regular)) body

-- `headers[0] = (":status", value)`, `headers.insert(1, h)` or `headers.append(h)`
unfoldable pub place : Header → Headers → Headers
place h [] = h ∷ []
place h (first ∷ more) =
    if bytes_eq h.0 (codes ":status")
    then h ∷ more
    else if is_pseudo h
    then first ∷ h ∷ more
    else first ∷ (more ++ h ∷ [])

unfoldable pub place_all : Headers → List Bytes → Result Headers
unfolding field place
place_all headers [] = ok headers
place_all headers (line ∷ lines) = do h ← field line; place_all (place h headers) lines

unfoldable pub response_of_bits : List Bytes → List Bytes → Bytes → Result (Headers × Bytes)
unfolding place_all
response_of_bits (version ∷ status ∷ _) lines body = do
  headers ← place_all ((codes ":status", status) ∷ []) lines
  ok (headers, body)
response_of_bits _ lines body = err http2_error

unfoldable pub response_of_lines : List Bytes → Bytes → Result (Headers × Bytes)
unfolding response_of_bits words
response_of_lines [] body = err http2_error
response_of_lines (first ∷ lines) body = response_of_bits (words first) lines body

unfoldable pub response_from_text : Bytes → Result (Headers × Bytes)
unfolding split head_lines response_of_lines
response_from_text raw = let (head, body) = split raw in response_of_lines (head_lines head) body

unfoldable pub looks_like_h2_text : Bytes → Bool
unfolding contains split_once
looks_like_h2_text raw = contains (codes "HTTP/2") (split_once (10 ∷ []) raw).0
