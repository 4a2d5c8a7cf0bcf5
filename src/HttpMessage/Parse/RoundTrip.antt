-- ===== src/HttpMessage/Parse/RoundTrip.antt =====
-- Parsing a serialised request gives the request back.
use brup_http_proxy.Prelude.{
  ◌≡◌, refl, ◌∙◌, ap, [], ◌∷◌, ◌++◌, map, arith, All, All-append, append_assoc, append-ne_nil,
}
use brup_http_proxy.Bytes.{join, words, is_space, chop_cr}
use brup_http_proxy.Bytes.Lines.{IsLine}
use brup_http_proxy.Bytes.Trim.{
  IsWord, IsTrimmed-of_IsWord, NoByte-of_solid, chop_cr-append_space, words-append, words_one,
  strip-append_ne,
}
use brup_http_proxy.Result.{ok}
use brup_http_proxy.HttpMessage.Message.{Request, header_line, request_start_line, request_raw}
use brup_http_proxy.HttpMessage.Parse.{
  parse_headers, request_of_bits, request_of_lines, parse_request,
}
use brup_http_proxy.HttpMessage.Parse.Lines.{
  IsPlain, serialise-join, header_lines-IsLine, split_raw-join, split_head_lines-join,
  parse_headers_from-map,
}

-- a request that HTTP/1.1 syntax can carry unchanged; the body is any bytes
pub record IsSendable (r : Request) : Type 0 where
  pub method : IsWord r.method
  pub target : IsWord r.target
  pub version : IsWord r.version
  pub headers : All IsPlain r.headers

module _ (r : Request) (s : IsSendable r) where
  start_words : words (request_start_line r) ≡ r.method ∷ r.target ∷ r.version ∷ []
  unfolding request_start_line join
  start_words =
      words-append r.method (r.target ++ 32 ∷ r.version) s.method
      ∙ ap (λ w. r.method ∷ w)
          (words-append r.target r.version s.target
            ∙ ap (λ w. r.target ∷ w) (words_one r.version s.version))

  start-IsLine : IsLine (request_start_line r)
  unfolding request_start_line join is_space
  start-IsLine = record {
    no_lf =
        All-append _ r.method (32 ∷ (r.target ++ 32 ∷ r.version))
          (NoByte-of_solid 10 r.method refl s.method.solid)
          (
            omega arith,
            All-append _ r.target (32 ∷ r.version) (NoByte-of_solid 10 r.target refl s.target.solid)
                (omega arith, NoByte-of_solid 10 r.version refl s.version.solid),
          );
    filled = append-ne_nil r.method _ s.method.filled;
  }

  start-clean : chop_cr (request_start_line r) ≡ request_start_line r
  unfolding request_start_line join
  start-clean = rw (← append_assoc r.method (32 ∷ r.target) (32 ∷ r.version)) (
      chop_cr-append_space (r.method ++ 32 ∷ r.target) r.version
        (IsTrimmed-of_IsWord r.version s.version))

  -- Parsing the bytes that a request is written as gives the same request back, for every request
  -- whose method, target and version are words without whitespace and whose headers fit on a line each:
  -- names not empty and without colon, LF or leading blank, values trimmed and without LF. The body is
  -- arbitrary.
  pub parse_request-request_raw : parse_request (request_raw r) ≡ ok r
  unfolding parse_request request_raw
  parse_request-request_raw =
      let start = request_start_line r in
      rw
        (
          serialise-join start r.headers r.body,
          split_raw-join start (map header_line r.headers) r.body
              (start-IsLine, header_lines-IsLine r.headers s.headers),
          split_head_lines-join start r.headers start-IsLine start-clean s.headers,
        )
        (unfold request_of_lines request_of_bits parse_headers in
          rw (
            start_words,
            strip-append_ne r.method (32 ∷ (r.target ++ 32 ∷ r.version)) s.method,
            parse_headers_from-map [] r.headers s.headers,
          ))
