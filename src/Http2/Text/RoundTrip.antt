-- ===== src/Http2/Text/RoundTrip.antt =====
-- Parsing the text form of an HTTP/2 message gives the message back.
use mathlib.Core.Path.{ap₂}
use brup_http_proxy.Prelude.{
  ◌≡◌, refl, ◌∙◌, ap, some, List, [], ◌∷◌, ◌++◌, map, arith, All, All-append, append_assoc,
  append-ne_nil,
}
use brup_http_proxy.Bytes.{
  Bytes, codes, join, words, bytes_eq, is_space, lstrip_by, rstrip_by, starts_with,
}
use brup_http_proxy.Bytes.Trim.{
  IsWord, NoByte-of_solid, chop_cr-append_space, words-append, strip-append_ne,
}
use brup_http_proxy.Result.{ok}
use brup_http_proxy.HttpMessage.Headers.{Headers}
use brup_http_proxy.HttpMessage.Message.{header_line}
use brup_http_proxy.Http2.Fields.{is_pseudo, get, or_else, one_of}
use brup_http_proxy.Http2.Text.{
  text_of, fields_from, request_first_line, request_to_text, request_of_bits, request_of_lines,
  request_from_text, put, arranged, in_order, with_authority,
}
use brup_http_proxy.Http2.Text.Lines.{
  IsField, IsRegular, IsHeadLine, field-header_line, fields_from-map, keep_pseudo_lem,
  keep_regular_lem, header_line-IsHeadLine, header_lines-IsHeadLine, split-text_of, head_lines-join,
}

-- an HTTP/2 request: its four pseudo-headers, and its regular fields in wire order
pub record Parts : Type 0 where
  pub method : Bytes
  pub scheme : Bytes
  pub authority : Bytes
  pub path : Bytes
  pub regular : Headers

-- in the order that `request_from_text` writes
abbrev pub fields_of : Parts → Headers
fields_of r =
    (codes ":method", r.method)
    ∷ (codes ":scheme", r.scheme)
    ∷ (codes ":authority", r.authority)
    ∷ (codes ":path", r.path)
    ∷ r.regular

pub record IsEditable (r : Parts) : Type 0 where
  pub method : IsWord r.method
  pub path : IsWord r.path
  pub scheme : IsField (codes ":scheme", r.scheme)
  pub authority : IsField (codes ":authority", r.authority)
  pub regular : All IsRegular r.regular

or_else_word : (w d : Bytes) → IsWord w → or_else (some w) d ≡ w
or_else_word [] d h = absurd (h.filled refl)
or_else_word (c ∷ w) d h = refl

module _ (r : Parts) (e : IsEditable r) where
  abbrev first_line : Bytes
  first_line = r.method ++ (32 ∷ (r.path ++ (32 ∷ codes "HTTP/2")))

  abbrev lines : List Bytes
  lines =
      header_line (codes ":scheme", r.scheme)
      ∷ header_line (codes ":authority", r.authority)
      ∷ map header_line r.regular

  request_to_text_lem :
      (body : Bytes) → request_to_text (fields_of r) body ≡ text_of (first_line ∷ lines) body
  unfolding request_to_text request_first_line is_pseudo get bytes_eq one_of join starts_with
  request_to_text_lem body =
      rw (keep_pseudo_lem r.regular e.regular, keep_regular_lem r.regular e.regular)
        (ap (λ w. text_of (w ∷ lines) body)
          (ap₂ (λ m p. m ++ (32 ∷ (p ++ (32 ∷ codes "HTTP/2"))))
            (or_else_word r.method (codes "GET") e.method)
            (or_else_word r.path (codes "/") e.path)))

  first_line-IsHeadLine : IsHeadLine first_line
  unfolding is_space
  first_line-IsHeadLine = record {
    line = record {
      no_lf =
          All-append _ r.method (32 ∷ (r.path ++ (32 ∷ codes "HTTP/2")))
            (NoByte-of_solid 10 r.method refl e.method.solid)
            (
              omega arith,
              All-append _ r.path (32 ∷ codes "HTTP/2")
                  (NoByte-of_solid 10 r.path refl e.path.solid) (omega arith),
            );
      filled = append-ne_nil r.method (32 ∷ (r.path ++ (32 ∷ codes "HTTP/2"))) e.method.filled;
    };
    shown = strip-append_ne r.method (32 ∷ (r.path ++ (32 ∷ codes "HTTP/2"))) e.method;
    clean = rw (← append_assoc r.method (32 ∷ r.path) (32 ∷ codes "HTTP/2")) (
        chop_cr-append_space (r.method ++ 32 ∷ r.path) (codes "HTTP/2")
          (record { lead = unfold lstrip_by in refl; trail = unfold rstrip_by in refl }));
  }

  first_words : words first_line ≡ r.method ∷ r.path ∷ codes "HTTP/2" ∷ []
  unfolding is_space words
  first_words =
      words-append r.method (r.path ++ 32 ∷ codes "HTTP/2") e.method
      ∙ ap (λ w. r.method ∷ w) (words-append r.path (codes "HTTP/2") e.path)

  read_fields :
      fields_from ((codes ":method", r.method) ∷ (codes ":path", r.path) ∷ []) [] lines
      ≡ ok (
        (codes ":method", r.method)
            ∷ (codes ":path", r.path)
            ∷ (codes ":scheme", r.scheme)
            ∷ (codes ":authority", r.authority)
            ∷ [],
        r.regular,
      )
  unfolding fields_from is_pseudo bytes_eq put starts_with
  read_fields =
      rw
        (
          field-header_line (codes ":scheme", r.scheme) e.scheme,
          field-header_line (codes ":authority", r.authority) e.authority,
        )
        (fields_from-map
          ((codes ":method", r.method)
            ∷ (codes ":path", r.path)
            ∷ (codes ":scheme", r.scheme)
            ∷ (codes ":authority", r.authority)
            ∷ [])
          [] r.regular e.regular)

  lines-IsHeadLine : All IsHeadLine (first_line ∷ lines)
  lines-IsHeadLine = (
    first_line-IsHeadLine,
    (
      header_line-IsHeadLine (codes ":scheme", r.scheme) e.scheme,
      (
        header_line-IsHeadLine (codes ":authority", r.authority) e.authority,
        header_lines-IsHeadLine r.regular e.regular,
      ),
    ),
  )

  -- Parsing the text that an HTTP/2 request is shown as gives the same fields in the same order, and
  -- the same body, for every request with the four pseudo-headers in the conventional order whose method
  -- and path are words without whitespace and whose other fields fit on a line each: names that are
  -- words with no colon but a leading one, values trimmed and without LF. The body is arbitrary.
  pub request_from_text-request_to_text :
      (body : Bytes)
      → request_from_text (request_to_text (fields_of r) body) ≡ ok (fields_of r, body)
  unfolding request_from_text
  request_from_text-request_to_text body =
      rw
        (
          request_to_text_lem body,
          split-text_of first_line lines body lines-IsHeadLine,
          head_lines-join first_line lines lines-IsHeadLine,
        )
        (unfold request_of_lines request_of_bits in
          rw (first_words, read_fields)
            (unfold arranged in_order with_authority get bytes_eq one_of in refl))
