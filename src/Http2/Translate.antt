-- ===== src/Http2/Translate.antt =====
-- `to_h1_request`, `from_h1_response` and `to_h2_request` of backend/brup/http2.py.
pub mod Laws
use brup_http_proxy.Prelude.{
  Bool, true, false, not, ◌||◌, ◌&&◌, Option, none, some, List, [], ◌∷◌, if◌then◌else◌, is_empty,
  length,
}
use brup_http_proxy.Bytes.{Bytes, codes, bytes_eq, lower}
use brup_http_proxy.Bytes.Int.{decimal, decimal_ℤ}
use brup_http_proxy.HttpMessage.Headers.{Header, Headers, get_header, set_header}
use brup_http_proxy.HttpMessage.Message.{Request, Response, request_raw, origin_form_target}
use brup_http_proxy.Http2.Fields.{one_of, connection_specific, get, split_pseudo, or_else}

-- the loop over the regular fields; `seen_host` is the source's variable
unfoldable pub h1_fields : Bool → Headers → Headers
h1_fields seen_host [] = []
h1_fields seen_host ((n, v) ∷ hs) =
    let skipped = h1_fields seen_host hs in
    let host = (n, v) ∷ h1_fields true hs in
    let other = (n, v) ∷ skipped in
    if one_of connection_specific (lower n)
    then skipped
    else if bytes_eq (lower n) (codes "host")
    then (if seen_host then skipped else host)
    else other

-- `Host` from `:authority`, unless that is missing or empty
abbrev pub host_first : Option Bytes → Headers → Headers
host_first none regular = h1_fields false regular
host_first (some []) regular = h1_fields false regular
host_first (some (c ∷ a)) regular = (codes "Host", c ∷ a) ∷ h1_fields true regular

-- the request object that is then serialised
unfoldable pub h1_request : Headers → Bytes → Request
unfolding split_pseudo get h1_fields
h1_request headers body =
    let (pseudo, regular) = split_pseudo headers in
    let out = host_first (get pseudo (codes ":authority")) regular in
    record {
      method = or_else (get pseudo (codes ":method")) (codes "GET");
      target = or_else (get pseudo (codes ":path")) (codes "/");
      version = codes "HTTP/1.1";
      headers =
          if is_empty body
          then out
          else set_header out (codes "Content-Length") (decimal (length body));
      body = body;
    }

unfoldable pub to_h1_request : Headers → Bytes → Bytes
unfolding h1_request request_raw
to_h1_request headers body = request_raw (h1_request headers body)

-- the loops that keep the fields which HTTP/2 allows, under their lowercase names
unfoldable pub h2_fields : (Bytes → Bool) → Headers → Headers
h2_fields dropped [] = []
h2_fields dropped ((n, v) ∷ hs) =
    let rest = h2_fields dropped hs in if dropped (lower n) then rest else (lower n, v) ∷ rest

unfoldable pub from_h1_response : Response → Headers × Bytes
unfolding h2_fields decimal_ℤ
from_h1_response r = (
  (codes ":status", decimal_ℤ r.status) ∷ h2_fields (one_of connection_specific) r.headers,
  r.body,
)

unfoldable pub to_h2_request : Request → Bytes → Headers × Bytes
unfolding h2_fields get_header origin_form_target
to_h2_request r scheme =
    let authority = or_else (get_header r.headers (codes "host")) [] in
    (
      (codes ":method", r.method)
          ∷ (codes ":scheme", scheme)
          ∷ (codes ":authority", authority)
          ∷ (codes ":path", origin_form_target r)
          ∷ h2_fields (λ low. one_of connection_specific low || bytes_eq low (codes "host"))
              r.headers,
      r.body,
    )
