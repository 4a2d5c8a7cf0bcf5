-- ===== src/Http2/Tests.antt =====
-- Tests of the HTTP/2 model on concrete inputs, and the theorems applied to such inputs.
use mathlib.Core.List.{tail}
use brup_http_proxy.Prelude.{◌≡◌, ◌⊎◌, refl, true, false, none, some, [], ◌∷◌, ◌++◌, arith, All}
use brup_http_proxy.Bytes.{codes, crlf, is_space, lstrip_by, rstrip_by, bytes_eq, starts_with, join}
use brup_http_proxy.Bytes.Int.{pos}
use brup_http_proxy.Result.{ok, err, http2_error}
use brup_http_proxy.HttpMessage.Headers.{Headers}
use brup_http_proxy.HttpMessage.Message.{header_line, Response}
use brup_http_proxy.HttpMessage.Read.{read_body}
use brup_http_proxy.Http2.Fields.{is_pseudo, one_of, strip_for_h2, get}
use brup_http_proxy.Http2.Fields.Laws.{IsAllowed, strip_for_h2_idem, strip_for_h2-IsAllowed}
use brup_http_proxy.Http2.Text.{request_to_text, request_from_text}
use brup_http_proxy.Http2.Text.Lines.{IsField, IsRegular}
use brup_http_proxy.Http2.Text.RoundTrip.{
  Parts, fields_of, IsEditable, request_from_text-request_to_text,
}
use brup_http_proxy.Http2.Translate.{h1_request, from_h1_response}
use brup_http_proxy.Http2.Translate.Laws.{read_body-h1_request, from_h1_response-IsAllowed}

abbrev parts : Parts
parts = record {
  method = codes "GET";
  scheme = codes "https";
  authority = codes "example.com";
  path = codes "/s?q=1";
  regular = (codes "accept", codes "*/*") ∷ [];
}

text_shown :
    request_to_text (fields_of parts) (codes "b")
    ≡ codes "GET /s?q=1 HTTP/2"
      ++ crlf
      ++ codes ":scheme: https"
      ++ crlf
      ++ codes ":authority: example.com"
      ++ crlf
      ++ codes "accept: */*"
      ++ crlf
      ++ crlf
      ++ codes "b"
unfolding request_to_text join is_pseudo one_of get header_line bytes_eq starts_with
text_shown = refl

scheme_field : IsField (codes ":scheme", codes "https")
unfolding is_space lstrip_by rstrip_by
scheme_field = record {
  name = record { filled = λ e. cc e; solid = ground arith };
  no_colon = omega arith;
  name_no_lf = omega arith;
  value_no_lf = omega arith;
  trimmed = record { lead = refl; trail = refl };
}

authority_field : IsField (codes ":authority", codes "example.com")
unfolding is_space lstrip_by rstrip_by
authority_field = record {
  name = record { filled = λ e. cc e; solid = ground arith };
  no_colon = omega arith;
  name_no_lf = omega arith;
  value_no_lf = omega arith;
  trimmed = record { lead = refl; trail = refl };
}

accept_field : IsRegular (codes "accept", codes "*/*")
unfolding is_space lstrip_by rstrip_by is_pseudo starts_with
accept_field = record {
  fits = record {
    name = record { filled = λ e. cc e; solid = ground arith };
    no_colon = omega arith;
    name_no_lf = omega arith;
    value_no_lf = omega arith;
    trimmed = record { lead = refl; trail = refl };
  };
  plain = refl;
}

parts-IsEditable : IsEditable parts
unfolding is_space
parts-IsEditable = record {
  method = record { filled = λ e. cc e; solid = ground arith };
  path = record { filled = λ e. cc e; solid = ground arith };
  scheme = scheme_field;
  authority = authority_field;
  regular = (accept_field, tt);
}

request_from_text-request_to_text_example :
    request_from_text (request_to_text (fields_of parts) (codes "b"))
    ≡ ok (fields_of parts, codes "b")
request_from_text-request_to_text_example =
    request_from_text-request_to_text parts parts-IsEditable (codes "b")

-- an unknown pseudo-header goes before the regular fields, and a request without authority is
-- refused, also if its Host field is not in lowercase
parsed_texts :
    (request_from_text (codes "GET / HTTP/2" ++ crlf ++ codes "host: a" ++ crlf ++ codes ":x: y")
      ≡ ok (
        (codes ":method", codes "GET")
            ∷ (codes ":path", codes "/")
            ∷ (codes ":x", codes "y")
            ∷ (codes "host", codes "a")
            ∷ [],
        [],
      ))
    × (request_from_text (codes "GET / HTTP/2") ≡ err http2_error)
    × (request_from_text (codes "GET / HTTP/2" ++ crlf ++ codes "Host: a") ≡ err http2_error)
unfolding request_from_text is_pseudo one_of bytes_eq starts_with
parsed_texts = (refl, refl, refl)

abbrev given : Headers
given =
    (codes ":method", codes "POST")
    ∷ (codes ":authority", codes "a.b")
    ∷ (codes "host", codes "evil")
    ∷ (codes "Transfer-Encoding", codes "chunked")
    ∷ (codes "content-length", codes "99")
    ∷ []

strip_for_h2-IsAllowed_example : All (λ h. (is_pseudo h ≡ true) ⊎ IsAllowed h) (strip_for_h2 given)
strip_for_h2-IsAllowed_example = strip_for_h2-IsAllowed given

strip_for_h2_idem_example : strip_for_h2 (strip_for_h2 given) ≡ strip_for_h2 given
strip_for_h2_idem_example = strip_for_h2_idem given

read_body-h1_request_example :
    read_body 100
      (h1_request given (codes "abc")).headers
      false
      none
      none
      (codes "abc" ++ codes "GET")
    ≡ some (ok ((codes "abc", false), codes "GET"))
read_body-h1_request_example =
    read_body-h1_request 100 given (codes "abc") none none (codes "GET") (λ e. cc e) (omega arith)

abbrev reply : Response
reply = record {
  version = codes "HTTP/1.1";
  status = pos 200;
  reason = codes "OK";
  headers = (codes "Connection", codes "close") ∷ (codes "X-A", codes "1") ∷ [];
  body = [];
}

from_h1_response-IsAllowed_example : All IsAllowed (tail (from_h1_response reply).0)
from_h1_response-IsAllowed_example = from_h1_response-IsAllowed reply
