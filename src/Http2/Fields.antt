-- ===== src/Http2/Fields.antt =====
-- `get`, `split_pseudo`, `REQUEST_PSEUDO_ORDER`, `CONNECTION_SPECIFIC` and `strip_for_h2` of
-- backend/brup/http2.py.
pub mod Laws
use brup_http_proxy.Prelude.{
  Bool, true, false, not, ◌||◌, Option, none, some, List, [], ◌∷◌, if◌then◌else◌, keep, any,
}
use brup_http_proxy.Bytes.{Bytes, codes, bytes_eq, starts_with, lower}
use brup_http_proxy.HttpMessage.Headers.{Header, Headers}

-- `name in names`
unfoldable pub one_of : List Bytes → Bytes → Bool
unfolding bytes_eq
one_of names name = any (λ n. bytes_eq n name) names

abbrev pub request_pseudo_order : List Bytes
request_pseudo_order = codes ":method" ∷ codes ":scheme" ∷ codes ":authority" ∷ codes ":path" ∷ []

abbrev pub connection_specific : List Bytes
connection_specific =
    codes "connection"
    ∷ codes "keep-alive"
    ∷ codes "proxy-connection"
    ∷ codes "transfer-encoding"
    ∷ codes "upgrade"
    ∷ codes "proxy-authenticate"
    ∷ []

unfoldable pub get : Headers → Bytes → Option Bytes
get [] name = none
get ((n, v) ∷ hs) name = if bytes_eq n name then some v else get hs name

unfoldable pub is_pseudo : Header → Bool
unfolding starts_with
is_pseudo (n, v) = starts_with (codes ":") n

unfoldable pub split_pseudo : Headers → Headers × Headers
split_pseudo headers = (keep is_pseudo headers, keep (λ h. not (is_pseudo h)) headers)

-- `x or default` of an optional text
abbrev pub or_else : Option Bytes → Bytes → Bytes
or_else none d = d
or_else (some []) d = d
or_else (some (c ∷ s)) d = c ∷ s

unfoldable pub strip_for_h2 : Headers → Headers
strip_for_h2 [] = []
strip_for_h2 ((n, v) ∷ hs) =
    let rest = strip_for_h2 hs in
    if is_pseudo (n, v)
    then (n, v) ∷ rest
    else if one_of connection_specific (lower n)
    then rest
    else (lower n, v) ∷ rest
