-- ===== src/HttpMessage/Tests.antt =====
-- Tests of the message model on concrete inputs, and the theorems applied to such inputs.
use brup_http_proxy.Prelude.{
  ◌≡◌, ◌≢◌, ◌≤◌, refl, true, false, none, some, List, [], ◌∷◌, ◌++◌, arith, length, All, inr,
}
use brup_http_proxy.Bytes.{
  Bytes, codes, crlf, is_space, is_space_text, lstrip_by, rstrip_by, strip_text, encode,
  encode_latin,
}
use brup_http_proxy.Bytes.Int.{pos, decimal, int_of}
use brup_http_proxy.Result.{ok, err, value_error, incomplete_read}
use brup_http_proxy.Config.HeaderRules.{
  HeaderRule, request, response, set, add, remove, is_token, is_protected, validate_header_rules,
}
use brup_http_proxy.HttpMessage.Headers.{
  Headers, same_name, get_header, get_all_headers, set_header, remove_header,
}
use brup_http_proxy.HttpMessage.Headers.Laws.{get_all_headers-set_header}
use brup_http_proxy.HttpMessage.Message.{Request, request_raw}
use brup_http_proxy.HttpMessage.Parse.{parse_request, parse_response, is_folded}
use brup_http_proxy.HttpMessage.Parse.Lines.{IsPlain}
use brup_http_proxy.HttpMessage.Parse.RoundTrip.{IsSendable, parse_request-request_raw}
use brup_http_proxy.HttpMessage.Read.{
  read_chunked, read_until, read_chunk, read_body, normalise_framing, max_body, size_token,
  is_chunked, content_length, read_sized, bodiless_status, is_head,
}
use brup_http_proxy.HttpMessage.Read.Chunks.{
  Chunk, chunks_wire, trailers_wire, read_chunked-chunks_wire,
}
use brup_http_proxy.HttpMessage.Read.Framing.{
  read_body-normalise_framing, read_body-bounded, read_body-ne_none,
}
use brup_http_proxy.HttpMessage.Authority.{split_authority, host_part, build_url}
use brup_http_proxy.HttpMessage.Authority.RoundTrip.{split_authority-host_part}
use brup_http_proxy.HttpMessage.Rules.{apply_header_rules, apply_rule, fire}
use brup_http_proxy.HttpMessage.Rules.Safety.{
  raw_rules, UnbrokenHeader, apply_header_rules_protected, apply_header_rules-Unbroken,
}

abbrev search_request : Request
search_request = record {
  method = codes "POST";
  target = codes "/search";
  version = codes "HTTP/1.1";
  headers = (codes "Host", codes "example.com") ∷ (codes "X-Empty", []) ∷ [];
  body = codes "q=1";
}

parse_search : parse_request (request_raw search_request) ≡ ok search_request
unfolding request_raw parse_request
parse_search = refl

-- a folded line, bare LF line ends and a trailing blank in the reason
parse_folded :
    parse_response (
      codes "HTTP/1.1 200 Not quite  "
      ++ crlf
      ++ codes "A: b"
      ++ crlf
      ++ codes " c"
      ++ crlf
      ++ crlf
      ++ codes "x")
    ≡ ok (record {
      version = codes "HTTP/1.1";
      status = pos 200;
      reason = codes "Not quite  ";
      headers = (codes "A", codes "b c") ∷ [];
      body = codes "x";
    })
unfolding parse_response
parse_folded = refl

IsPlain-host : IsPlain (codes "Host", codes "example.com")
unfolding is_space lstrip_by rstrip_by is_folded
IsPlain-host = record {
  named = λ e. cc e;
  no_colon = omega arith;
  name_no_lf = omega arith;
  not_folded = refl;
  value_no_lf = omega arith;
  trimmed = record { lead = refl; trail = refl };
}

IsPlain-empty : IsPlain (codes "X-Empty", [])
unfolding is_space lstrip_by rstrip_by is_folded
IsPlain-empty = record {
  named = λ e. cc e;
  no_colon = omega arith;
  name_no_lf = omega arith;
  not_folded = refl;
  value_no_lf = tt;
  trimmed = record { lead = refl; trail = refl };
}

search_request-IsSendable : IsSendable search_request
unfolding is_space
search_request-IsSendable = record {
  method = record { filled = λ e. cc e; solid = ground arith };
  target = record { filled = λ e. cc e; solid = ground arith };
  version = record { filled = λ e. cc e; solid = ground arith };
  headers = (IsPlain-host, (IsPlain-empty, tt));
}

parse_request-request_raw_example : parse_request (request_raw search_request) ≡ ok search_request
parse_request-request_raw_example =
    parse_request-request_raw search_request search_request-IsSendable

abbrev twice : Headers
twice = (codes "a", codes "1") ∷ (codes "B", codes "2") ∷ (codes "A", codes "3") ∷ []

get_all_headers-set_header_example :
    get_all_headers (set_header twice (codes "A") (codes "4")) (codes "a") ≡ codes "4" ∷ []
unfolding same_name
get_all_headers-set_header_example =
    get_all_headers-set_header twice (codes "A") (codes "4") (codes "a")

abbrev two_chunks : List Chunk
two_chunks =
    record { line = codes "3;x=y"; content = codes "abc" }
    ∷ record { line = codes "0a "; content = codes "0123456789" }
    ∷ []

abbrev chunked_stream : Bytes
chunked_stream =
    chunks_wire two_chunks
      (codes "0" ++ (13 ∷ 10 ∷ trailers_wire (codes "T: v" ∷ []) (codes "GET")))

read_chunked-chunks_wire_example :
    read_chunked 4194304 chunked_stream ≡ some (ok (codes "abc0123456789", codes "GET"))
unfolding size_token int_of
read_chunked-chunks_wire_example =
    read_chunked-chunks_wire 4194304 (codes "0") (codes "T: v" ∷ []) (codes "GET")
      (record { no_cr = omega arith; short = omega arith }) refl
      (
        record { fits = record { no_cr = omega arith; short = omega arith }; filled = λ e. cc e },
        tt,
      )
      two_chunks
      (
        record {
          fits = record { no_cr = omega arith; short = omega arith };
          filled = λ e. cc e;
          sized = refl;
        },
        (
          record {
            fits = record { no_cr = omega arith; short = omega arith };
            filled = λ e. cc e;
            sized = refl;
          },
          tt,
        ),
      )
      (omega arith)

-- a chunked body that is cut off raises IncompleteReadError
chunked_cut_off : read_chunked 100 (codes "5" ++ crlf ++ codes "ab") ≡ some (err incomplete_read)
unfolding read_chunked size_token int_of read_until read_chunk
chunked_cut_off = refl

abbrev chunked_headers : Headers
chunked_headers = (codes "Transfer-Encoding", codes "chunked") ∷ (codes "X", codes "1") ∷ []

read_body-normalise_framing_example :
    read_body 100
      (normalise_framing chunked_headers (codes "abc") true)
      true
      (some (pos 200))
      none
      (codes "abc" ++ codes "rest")
    ≡ some (ok ((codes "abc", false), codes "rest"))
unfolding bodiless_status is_head
read_body-normalise_framing_example =
    read_body-normalise_framing chunked_headers (codes "abc") 100 true (some (pos 200)) none
      (codes "rest") (omega arith) refl

abbrev sized_headers : Headers
sized_headers = (codes "Content-Length", codes "3") ∷ []

read_sized_stream :
    read_body 100 sized_headers true (some (pos 200)) none (codes "abcdef")
    ≡ some (ok ((codes "abc", false), codes "def"))
unfolding read_body bodiless_status is_head is_chunked get_header content_length read_sized
    same_name
read_sized_stream = refl

read_body-bounded_example : length (codes "abc") ≤ max_body
unfolding get_header same_name
read_body-bounded_example =
    read_body-bounded 100 sized_headers true (some (pos 200)) none (codes "abcdef") (codes "abc")
      (codes "def") false read_sized_stream (inr (inr (λ e. cc e)))

read_body-ne_none_example :
    read_body 100 chunked_headers true (some (pos 200)) none (codes "zz") ≢ none
read_body-ne_none_example =
    read_body-ne_none 100 chunked_headers true (some (pos 200)) none (codes "zz")

urls :
    (build_url true (codes "a.b") (pos 443) (codes "x") ≡ codes "https://a.b/x")
    × (build_url false (codes "a.b") (pos 8080) (codes "/x") ≡ codes "http://a.b:8080/x")
    × (build_url true (codes "a.b") (pos 443) (codes "HTTP://c/") ≡ codes "HTTP://c/")
unfolding build_url decimal
urls = (refl, refl, refl)

-- no `]`, a port that is no number, and a bracketed address whose port is none
odd_authorities :
    (split_authority (codes "[::1") (pos 80) ≡ ok (codes "::", pos 80))
    × (split_authority (codes " a:b ") (pos 80) ≡ ok (codes "a:b", pos 80))
    × (split_authority (codes "[::1]:x") (pos 80) ≡ err value_error)
unfolding split_authority
odd_authorities = (refl, refl, refl)

split_authority-host_part_example :
    split_authority (host_part true (codes "a.b") (pos 8443)) (pos 443) ≡ ok (codes "a.b", pos 8443)
unfolding is_space_text decimal
split_authority-host_part_example =
    split_authority-host_part true (codes "a.b") 8443
      (record {
        filled = λ e. cc e;
        solid = ground arith;
        no_colon = omega arith;
        no_bracket = omega arith;
      })
      (omega arith)

abbrev rule_list : List HeaderRule
rule_list =
    record {
      enabled = true;
      target = request;
      action = set;
      name = codes " X-Forwarded-For ";
      value = codes "1.2.3.4";
    }
    ∷ record {
      enabled = true;
      target = request;
      action = remove;
      name = codes "accept";
      value = [];
    }
    ∷ record {
      enabled = true;
      target = response;
      action = add;
      name = codes "a";
      value = codes "b";
    }
    ∷ []

abbrev framed : Headers
framed = (codes "Content-Length", codes "3") ∷ (codes "Accept", codes "*/*") ∷ []

rules_valid : validate_header_rules (raw_rules rule_list) ≡ ok tt
unfolding validate_header_rules strip_text is_token is_protected
rules_valid = refl

rules_applied :
    apply_header_rules rule_list request framed
    ≡ ((codes "Content-Length", codes "3") ∷ (codes "X-Forwarded-For", codes "1.2.3.4") ∷ [], 2)
unfolding apply_header_rules apply_rule fire strip_text encode encode_latin remove_header set_header
    same_name
rules_applied = refl

apply_header_rules_protected_example :
    get_all_headers (apply_header_rules rule_list request framed).0 (codes "content-length")
    ≡ get_all_headers framed (codes "content-length")
unfolding is_protected
apply_header_rules_protected_example =
    apply_header_rules_protected rule_list request framed (codes "content-length") rules_valid refl

apply_header_rules-Unbroken_example :
    All UnbrokenHeader (apply_header_rules rule_list request framed).0
apply_header_rules-Unbroken_example =
    apply_header_rules-Unbroken rule_list request framed rules_valid (
      ((omega arith, omega arith), (omega arith, omega arith)),
      (((omega arith, omega arith), (omega arith, omega arith)), tt),
    )
