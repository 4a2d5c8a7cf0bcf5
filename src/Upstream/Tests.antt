-- ===== src/Upstream/Tests.antt =====
-- Requests that are prepared and sent, and the theorems at those inputs.
use brup_http_proxy.Prelude.{
  some, none, ◌≡◌, refl, true, false, not, ◌&&◌, ◌||◌, [], ◌∷◌, if◌then◌else◌,
}
use brup_http_proxy.Bytes.{Bytes, codes, lower}
use brup_http_proxy.Bytes.Int.{pos}
use brup_http_proxy.Result.{ok, err, os_error, incomplete_read}
use brup_http_proxy.HttpMessage.Headers.{get_all_headers, same_name}
use brup_http_proxy.HttpMessage.Message.{Request, is_absolute_form, request_raw}
use brup_http_proxy.HttpMessage.Parse.{parse_request}
use brup_http_proxy.Upstream.{prepared_target, prepare}
use brup_http_proxy.HttpMessage.Read.{
  bodiless_status, is_head, is_chunked, read_chunked, size_token, read_chunk,
}
use brup_http_proxy.Upstream.Send.{Origin, Network, send_request, send_h2_request}
use brup_http_proxy.Upstream.Settled.{
  SettledRun, SettledH2, send_request-Settled, send_h2_request-SettledH2,
}
use brup_http_proxy.Upstream.Prepared.{prepare_lem}

abbrev raw : Bytes
raw = codes "GET /a HTTP/1.1\r\nHost: h\r\nProxy-Connection: close\r\nA: b\r\n\r\n"

abbrev parsed : Request
parsed = record {
  method = codes "GET";
  target = codes "/a";
  version = codes "HTTP/1.1";
  headers =
      (codes "Host", codes "h")
      ∷ (codes "Proxy-Connection", codes "close")
      ∷ (codes "A", codes "b")
      ∷ [];
  body = [];
}

raw_parses : parse_request raw ≡ ok parsed
unfolding parse_request
raw_parses = refl

-- for a plain-HTTP proxy
absolute_target : prepared_target parsed false true (codes "up") (pos 81) ≡ codes "http://h/a"
unfolding prepared_target is_absolute_form same_name
absolute_target = refl

prepare_lem_example :
    (sent : Request) × (prepare raw false true (codes "up") (pos 81) ≡ ok (sent, request_raw sent))
    × ((sent.method ≡ codes "GET") × (sent.version ≡ codes "HTTP/1.1") × (sent.body ≡ []))
    × (get_all_headers sent.headers (codes "A") ≡ (
        if same_name (codes "proxy-connection") (codes "A")
        then []
        else get_all_headers parsed.headers (codes "A")))
    × ((not (true && not false) || is_absolute_form sent) ≡ true)
prepare_lem_example = prepare_lem raw parsed false true (codes "up") (codes "A") (pos 81) raw_parses

-- Every connection answers with a short response; the proxy is set where a name is given.
abbrev origin : Origin
origin = record {
  http2 = false;
  answers = λ wire. ok (codes "HTTP/1.1 200 OK\r\nContent-Length: 2\r\n\r\nhi");
  perform = λ headers body. err os_error;
}

abbrev network : Bytes → Network
network proxy = record {
  open_connection = λ host port tls. ok origin;
  upgrade_to_tls = λ host alpn. ok origin;
  upstream_proxy = proxy;
  parsed_proxy = ok (proxy, (none, false));
  upstream_http2 = true;
  describe = λ e. [];
  detail = λ e. [];
  timeout_text = [];
}

send_request-Settled_example :
    SettledRun (send_request (network (codes "up")) (codes "h") (pos 443) true raw)
send_request-Settled_example =
    send_request-Settled (network (codes "up")) (codes "h") (pos 443) true raw

send_h2_request-SettledH2_example :
    SettledH2
      (send_h2_request (network []) (codes "h") (pos 443) ((codes ":path", codes "/") ∷ []) [])
send_h2_request-SettledH2_example =
    send_h2_request-SettledH2 (network []) (codes "h") (pos 443) ((codes ":path", codes "/") ∷ [])
      []

-- A chunked body that ends early raises IncompleteReadError, which `send_request` does not catch.
abbrev cut_short : Origin
cut_short = record origin {
  answers = λ wire. ok (codes "HTTP/1.1 200 OK\r\nTransfer-Encoding: chunked\r\n\r\n5\r\nab");
}

cut_short_raises :
    send_request
      (record (network []) { open_connection = λ host port tls. ok cut_short })
      (codes "h")
      (pos 80)
      false
      raw
    ≡ some (err incomplete_read)
unfolding send_request lower bodiless_status is_head is_chunked same_name read_chunked size_token
    read_chunk
cut_short_raises = refl
