-- ===== src/Server/Answers.antt =====
-- `_error_response`, `_wants_close`, `_h2_error` and `_is_passthrough` of backend/brup/proxy/server.py.
-- The details of an error are texts, which are encoded in UTF-8.
use brup_http_proxy.Prelude.{
  ℕ, ◌-◌, Bool, true, false, not, ◌&&◌, ◌||◌, Option, none, some, List, [], ◌∷◌, ◌++◌,
  if◌then◌else◌, is_empty, any, length, drop,
}
use brup_http_proxy.Bytes.{
  Bytes, codes, crlf, blank_line, bytes_eq, contains, starts_with, lower, upper, encode, strip_text,
}
use brup_http_proxy.Bytes.Int.{decimal}
use brup_http_proxy.HttpMessage.Headers.{Headers, get_header}
use brup_http_proxy.HttpMessage.Message.{Request, Response}

-- the page for an error, whose heading is `title`
unfoldable pub error_page : ℕ → Bytes → Bytes → Bytes
unfolding encode decimal
error_page status title detail =
    codes "<!doctype html><html><head><title>BRUP "
    ++ (decimal status
        ++ (codes "</title></head><body style=\"font:14px system-ui;padding:2rem\"><h1>"
            ++ (title
                ++ (codes "</h1><p>"
                    ++ (encode detail
                        ++ codes
                            "</p><p style=\"color:#888\">BRUP intercepting proxy</p></body></html>")))))

unfoldable pub error_response : ℕ → Bytes → Bytes → Bytes
unfolding error_page decimal
error_response status reason detail =
    let title = decimal status ++ (codes " " ++ reason) in
    let body = error_page status title detail in
    codes "HTTP/1.1 "
    ++ (title
        ++ (crlf
            ++ (codes "Content-Type: text/html; charset=utf-8"
                ++ (crlf
                    ++ (codes "Content-Length: "
                        ++ (decimal (length body)
                            ++ (crlf ++ (codes "Connection: close" ++ (blank_line ++ body)))))))))

unfoldable pub h2_error : ℕ → Bytes → Headers × Bytes
unfolding error_page decimal
h2_error status detail =
    let body = error_page status (decimal status) detail in
    (
      (codes ":status", decimal status)
          ∷ (codes "content-type", codes "text/html; charset=utf-8")
          ∷ (codes "content-length", decimal (length body))
          ∷ [],
      body,
    )

-- `token in (message.header("connection") or b"").lower()`
unfoldable pub connection_has : Bytes → Headers → Bool
unfolding get_header contains lower
connection_has token headers = elim (get_header headers (codes "connection")) [
  | none ↦ false
  | some value ↦ contains token (lower value)
]

-- An HTTP/1.0 message closes the connection unless it asks to keep it.
unfoldable pub old_version : Bytes → Headers → Bool
unfolding bytes_eq upper connection_has
old_version version headers =
    bytes_eq (upper version) (codes "HTTP/1.0") && not (connection_has (codes "keep-alive") headers)

unfoldable pub wants_close : Request → Option Response → Bool
unfolding old_version connection_has
wants_close req none =
    old_version req.version req.headers || connection_has (codes "close") req.headers
wants_close req (some resp) =
    old_version req.version req.headers
    || (connection_has (codes "close") req.headers
        || (connection_has (codes "close") resp.headers || old_version resp.version resp.headers))

-- `s.endswith(suffix)`
unfoldable pub ends_with : Bytes → Bytes → Bool
unfolding bytes_eq
ends_with suffix s =
    let short = length s - length suffix in
    if is_empty suffix then true else bytes_eq (drop short s) suffix

-- one rule, and `lower_text` is `str.lower`
unfoldable pub passes : (Bytes → Bytes) → Bytes → Bytes → Bool
unfolding strip_text bytes_eq starts_with ends_with
passes lower_text host raw =
    let rule = lower_text (strip_text raw) in
    if is_empty rule
    then false
    else if starts_with (codes "*.") rule
    then bytes_eq host (drop 2 rule) || ends_with (drop 1 rule) host
    else bytes_eq host rule

unfoldable pub is_passthrough : (Bytes → Bytes) → List Bytes → Bytes → Bool
unfolding passes
is_passthrough lower_text rules host = any (passes lower_text (lower_text host)) rules
