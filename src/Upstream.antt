-- ===== src/Upstream.antt =====
-- `_prepare` of backend/brup/proxy/upstream.py: the request as it is sent to its destination.
pub mod Prepared
pub mod Outcome
pub mod Send
pub mod Settled
mod Tests
use brup_http_proxy.Prelude.{
  ℕ, Bool, true, false, not, ◌&&◌, Option, none, some, List, [], ◌∷◌, ◌++◌, if◌then◌else◌, is_empty,
}
use brup_http_proxy.Bytes.{Bytes, codes, encode}
use brup_http_proxy.Bytes.Int.{ℤ, decimal_ℤ}
use brup_http_proxy.Result.{Result, ok, err, ◌>>=◌}
use brup_http_proxy.HttpMessage.Headers.{remove_header}
use brup_http_proxy.HttpMessage.Message.{
  Request, header, is_absolute_form, origin_form_target, request_raw,
}
use brup_http_proxy.HttpMessage.Parse.{parse_request}

-- `req.header("host") or f"{host}:{port}".encode()`
unfoldable pub named_authority : Request → Bytes → ℤ → Bytes
unfolding header encode
named_authority req host port =
    let fallback = encode (host ++ (codes ":" ++ decimal_ℤ port)) in
    elim (header req (codes "host")) [
      | none ↦ fallback
      | some value ↦ if is_empty value then fallback else value
    ]

-- what becomes of the target
unfoldable pub prepared_target : Request → Bool → Bool → Bytes → ℤ → Bytes
unfolding is_absolute_form origin_form_target named_authority
prepared_target req tls via_http_proxy host port =
    if via_http_proxy && not tls
    then (if is_absolute_form req
        then req.target
        else codes "http://" ++ (named_authority req host port ++ origin_form_target req))
    else origin_form_target req

-- without the hop-by-hop header
unfoldable pub cleaned_request : Request → Request
unfolding remove_header
cleaned_request req = record {
  method = req.method;
  target = req.target;
  version = req.version;
  headers = remove_header req.headers (codes "proxy-connection");
  body = req.body;
}

abbrev pub with_target : Request → Bytes → Request
with_target req target = record {
  method = req.method;
  target = target;
  version = req.version;
  headers = req.headers;
  body = req.body;
}

unfoldable pub prepare : Bytes → Bool → Bool → Bytes → ℤ → Result (Request × Bytes)
unfolding parse_request cleaned_request prepared_target request_raw
prepare raw_request tls via_http_proxy host port = do
  parsed ← parse_request raw_request
  let req = cleaned_request parsed
  let sent = with_target req (prepared_target req tls via_http_proxy host port)
  ok (sent, request_raw sent)
