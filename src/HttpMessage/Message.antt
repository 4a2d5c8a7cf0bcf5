-- ===== src/HttpMessage/Message.antt =====
-- `Request`, `Response` and `_serialise` of backend/brup/http_message.py.
use brup_http_proxy.Prelude.{
  Bool, ◌||◌, Option, none, some, [], ◌∷◌, ◌++◌, if◌then◌else◌, is_empty, drop,
}
use brup_http_proxy.Bytes.{Bytes, codes, crlf, lower, starts_with, split_once, find, join}
use brup_http_proxy.Bytes.Int.{ℤ, decimal_ℤ}
use brup_http_proxy.HttpMessage.Headers.{Header, Headers, get_header}

pub record Request : Type 0 where
  pub method : Bytes
  pub target : Bytes
  pub version : Bytes
  pub headers : Headers
  pub body : Bytes

pub record Response : Type 0 where
  pub version : Bytes
  pub status : ℤ
  pub reason : Bytes
  pub headers : Headers
  pub body : Bytes

-- one line of the head, without its line end
unfoldable pub header_line : Header → Bytes
header_line (name, value) = name ++ (codes ": " ++ value)

-- the loop over the headers in `_serialise`
unfoldable pub serialise_headers : Headers → Bytes
unfolding header_line
serialise_headers [] = []
serialise_headers (h ∷ hs) = header_line h ++ (crlf ++ serialise_headers hs)

unfoldable pub serialise : Bytes → Headers → Bytes → Bytes
unfolding serialise_headers
serialise start_line headers body =
    start_line ++ (crlf ++ (serialise_headers headers ++ (crlf ++ body)))

unfoldable pub request_start_line : Request → Bytes
unfolding join
request_start_line r = join (codes " ") (r.method ∷ r.target ∷ r.version ∷ [])

unfoldable pub request_raw : Request → Bytes
unfolding serialise request_start_line
request_raw r = serialise (request_start_line r) r.headers r.body

unfoldable pub header : Request → Bytes → Option Bytes
unfolding get_header
header r name = get_header r.headers name

unfoldable pub is_absolute_form : Request → Bool
unfolding starts_with lower
is_absolute_form r =
    let low = lower r.target in
    starts_with (codes "http://") low || starts_with (codes "https://") low

-- `self.target.split(b"//", 1)[1]`, where `is_absolute_form` has found the two slashes
unfoldable pub after_scheme : Request → Bytes
unfolding split_once
after_scheme r = elim (split_once (codes "//") r.target).1 [ none ↦ [] | some rest ↦ rest ]

unfoldable pub authority : Request → Option Bytes
unfolding is_absolute_form after_scheme header
authority r =
    if is_absolute_form r
    then some (split_once (codes "/") (after_scheme r)).0
    else header r (codes "host")

unfoldable pub origin_form_target : Request → Bytes
unfolding is_absolute_form after_scheme find
origin_form_target r =
    if is_absolute_form r
    then (elim (find (codes "/") (after_scheme r)) [
      | none ↦ codes "/"
      | some slash ↦ drop slash (after_scheme r)
    ])
    else r.target

unfoldable pub response_start_line : Response → Bytes
unfolding decimal_ℤ
response_start_line r =
    let line = r.version ++ (codes " " ++ decimal_ℤ r.status) in
    if is_empty r.reason then line else line ++ (codes " " ++ r.reason)

unfoldable pub response_raw : Response → Bytes
unfolding serialise response_start_line
response_raw r = serialise (response_start_line r) r.headers r.body
