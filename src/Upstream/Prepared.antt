-- ===== src/Upstream/Prepared.antt =====
-- What `_prepare` keeps and what it changes.
use brup_http_proxy.Prelude.{
  ◌≡◌, refl, ◌∙◌, Bool, true, false, not, ◌&&◌, ◌||◌, [], ◌++◌, Bool-cases, inl, inr, if◌then◌else◌,
}
use brup_http_proxy.Bytes.{Bytes, codes, lower, lower_byte, starts_with}
use brup_http_proxy.Bytes.Int.{ℤ}
use brup_http_proxy.Result.{ok}
use brup_http_proxy.HttpMessage.Headers.{get_all_headers, same_name}
use brup_http_proxy.HttpMessage.Headers.Laws.{get_all_headers-remove_header}
use brup_http_proxy.HttpMessage.Message.{Request, is_absolute_form, origin_form_target, request_raw}
use brup_http_proxy.HttpMessage.Parse.{parse_request}
use brup_http_proxy.Upstream.{
  named_authority, prepared_target, cleaned_request, with_target, prepare,
}

http-IsAbsolute :
    (req : Request) (rest : Bytes)
    → is_absolute_form (with_target req (codes "http://" ++ rest)) ≡ true
unfolding is_absolute_form starts_with lower lower_byte
http-IsAbsolute req rest = refl

same_target : (req : Request) → is_absolute_form (with_target req req.target) ≡ is_absolute_form req
unfolding is_absolute_form
same_target req = refl

prepared-IsAbsolute :
    (req : Request) (tls via_http_proxy : Bool) (host : Bytes) (port : ℤ)
    → (not (via_http_proxy && not tls)
        || is_absolute_form (with_target req (prepared_target req tls via_http_proxy host port)))
      ≡ true
unfolding prepared_target
prepared-IsAbsolute req tls false host port = refl
prepared-IsAbsolute req true true host port = refl
prepared-IsAbsolute req false true host port = elim (Bool-cases (is_absolute_form req)) [
  | inl e ↦ rw (e, prepared_target) (same_target req ∙ e)
  | inr e ↦
      rw (e, prepared_target)
        (http-IsAbsolute req (named_authority req host port ++ origin_form_target req))
]

-- A request that parses is prepared: what is sent is the request's own bytes, with the method, the
-- version and the body that were parsed, without Proxy-Connection, and with every other header's values
-- in their order; a plain-HTTP proxy is always given an absolute target.
pub prepare_lem :
    (raw : Bytes) (parsed : Request) (tls via_http_proxy : Bool) (host other : Bytes) (port : ℤ)
    → parse_request raw ≡ ok parsed
    → (sent : Request) × (prepare raw tls via_http_proxy host port ≡ ok (sent, request_raw sent))
      × ((sent.method ≡ parsed.method)
          × (sent.version ≡ parsed.version)
          × (sent.body ≡ parsed.body))
      × (get_all_headers sent.headers other ≡ (
          if same_name (codes "proxy-connection") other
          then []
          else get_all_headers parsed.headers other))
      × ((not (via_http_proxy && not tls) || is_absolute_form sent) ≡ true)
unfolding prepare cleaned_request
prepare_lem raw parsed tls via_http_proxy host other port e = (
  with_target (cleaned_request parsed)
      (prepared_target (cleaned_request parsed) tls via_http_proxy host port),
  rw e refl,
  (refl, refl, refl),
  get_all_headers-remove_header parsed.headers (codes "proxy-connection") other,
  prepared-IsAbsolute (cleaned_request parsed) tls via_http_proxy host port,
)
