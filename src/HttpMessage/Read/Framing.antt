-- ===== src/HttpMessage/Read/Framing.antt =====
-- Bounds on the bodies that are read, and the framing headers that `normalise_framing` writes.
use brup_http_proxy.Prelude.{
  ℕ, zero, suc, ◌≤◌, ◌≡◌, ◌≢◌, ◌⊎◌, refl, ◌∙◌, Bool, true, false, ◌&&◌, ◌||◌, Option, none, some,
  [], ◌∷◌, ◌++◌, arith, All, length, length-append, length-take, take-append, drop-append,
  leb_of_le, ltb_of_le, ==_ne, Option-cases, Bool-cases, inl, inr, ◌==◌,
}
use brup_http_proxy.Bytes.{Bytes, codes, crlf, split_on}
use brup_http_proxy.Bytes.Lines.{split_by_none}
use brup_http_proxy.Bytes.Trim.{strip_of_IsTrimmed, IsTrimmed-of_IsWord}
use brup_http_proxy.Bytes.Int.{ℤ, pos, negsuc, int_of, decimal}
use brup_http_proxy.Bytes.Int.RoundTrip.{
  IsDigit, decimal-IsDigit, decimal-IsWord, length-decimal, int_of-decimal,
}
use brup_http_proxy.Result.{Error, Result-cases, Result, ok, err}
use brup_http_proxy.HttpMessage.Headers.{Headers, same_name, get_header, remove_header}
use brup_http_proxy.HttpMessage.Headers.Laws.{get_header-set_header, get_header-remove_header}
use brup_http_proxy.HttpMessage.Read.{
  Body, read_until, read_exactly, read_chunk, read_chunked_from, read_chunked, content_length,
  read_sized, bodiless_status, is_head, read_body, normalise_framing, size_token, max_body,
  is_chunked, with_flag,
}
use brup_http_proxy.HttpMessage.Read.Fuel.{Reading-cases, size-cases, read_chunked-ne_none}

digits-ne_comma : (s : Bytes) → All IsDigit s → All (λ x. (x == 44) ≡ false) s
digits-ne_comma [] h = tt
digits-ne_comma (x ∷ s) h = (==_ne x 44 (omega arith), digits-ne_comma s h.1)

content_length-decimal : (n : ℕ) → n ≤ max_body → content_length (decimal n) ≡ some (pos n)
unfolding content_length split_on
content_length-decimal n h =
    rw
      (
        split_by_none (λ x. x == 44) (decimal n) (digits-ne_comma (decimal n) (decimal-IsDigit n)),
        content_length,
      )
      (rw (strip_of_IsTrimmed (decimal n) (IsTrimmed-of_IsWord (decimal n) (decimal-IsWord n)))
        (int_of-decimal n (omega (arith, length-decimal n h))))

length-read_chunk :
    (n : ℕ) (stream chunk rest : Bytes) → read_chunk n stream ≡ ok (chunk, rest) → length chunk ≤ n
unfolding read_chunk read_exactly
length-read_chunk n stream chunk rest h = ground (arith, length-take n stream)

-- A Content-Length that is the body's length, and no Transfer-Encoding, frame the body.
pub read_body-sized :
    (limit : ℕ) (headers : Headers) (body : Bytes) (is_response : Bool) (status : Option ℤ)
    (method : Option Bytes) (rest : Bytes)
    → get_header headers (codes "transfer-encoding") ≡ none
    → get_header headers (codes "content-length") ≡ some (decimal (length body))
    → length body ≤ max_body
    → (is_response && (bodiless_status status || is_head method)) ≡ false
    → read_body limit headers is_response status method (body ++ rest)
      ≡ some (ok ((body, false), rest))
unfolding read_body read_sized read_exactly is_chunked
read_body-sized limit headers body is_response status method rest no_encoding right_length fits
      has_body =
    rw (has_body, no_encoding, right_length)
      (rw (content_length-decimal (length body) fits) (
        rw (ltb_of_le max_body (length body) fits) (
          rw (
            leb_of_le (length body) (length (body ++ rest))
                (omega (arith, length-append body rest)),
            take-append body rest,
            drop-append body rest,
          ))))

module _ (headers : Headers) (body : Bytes) where
  no_encoding : get_header (normalise_framing headers body true) (codes "transfer-encoding") ≡ none
  unfolding normalise_framing
  no_encoding =
      get_header-set_header (remove_header headers (codes "transfer-encoding"))
        (codes "Content-Length") (decimal (length body)) (codes "transfer-encoding")
      ∙ (unfold same_name in
          get_header-remove_header headers (codes "transfer-encoding") (codes "transfer-encoding"))

  right_length :
      get_header (normalise_framing headers body true) (codes "content-length")
      ≡ some (decimal (length body))
  unfolding normalise_framing
  right_length =
      get_header-set_header (remove_header headers (codes "transfer-encoding"))
        (codes "Content-Length") (decimal (length body)) (codes "content-length")
      ∙ (unfold same_name in refl)

  -- After a chunked body is read, the message with its normalised headers frames exactly that body:
  -- reading it again gives the body, unchunked, and leaves whatever follows. The conditions: the body
  -- is within `max_body`, and the message is not a response that never has a body.
  pub read_body-normalise_framing :
      (limit : ℕ) (is_response : Bool) (status : Option ℤ) (method : Option Bytes) (rest : Bytes)
      → length body ≤ max_body
      → (is_response && (bodiless_status status || is_head method)) ≡ false
      → read_body limit
          (normalise_framing headers body true)
          is_response
          status
          method
          (body ++ rest)
        ≡ some (ok ((body, false), rest))
  read_body-normalise_framing limit is_response status method rest fits has_body =
      read_body-sized limit (normalise_framing headers body true) body is_response status method
        rest no_encoding right_length fits has_body

read_chunked_from-bounded :
    (fuel limit : ℕ) (out stream body rest : Bytes)
    → length out ≤ max_body
    → read_chunked_from fuel limit out stream ≡ some (ok (body, rest))
    → length body ≤ max_body
unfolding read_chunked_from
read_chunked_from-bounded zero limit out stream body rest h e = cc e
read_chunked_from-bounded (suc fuel) limit out stream body rest h e =
    elim (Reading-cases (read_until limit crlf stream)) [
      | inl (line, next, r) ↦ elim (size-cases (int_of 16 (size_token line))) [
        | inl size ↦ ground arith
        | inr (inl size) ↦ ground arith
        | inr (inr (inr (n, size))) ↦ ground arith
        | inr (inr (inl (n, size))) ↦ elim (Result-cases (read_chunk (suc n) next)) [
          | inl ((chunk, next'), c) ↦ ground (
            arith,
            length-read_chunk (suc n) next chunk next' c,
            length-append out chunk,
            read_chunked_from-bounded fuel limit (out ++ chunk) next' body rest,
          )
          | inr (x, c) ↦ ground arith
        ]
      ]
      | inr (inl (partial, r)) ↦ ground arith
      | inr (inr r) ↦ ground arith
    ]

read_chunked-bounded :
    (limit : ℕ) (stream body rest : Bytes)
    → read_chunked limit stream ≡ some (ok (body, rest))
    → length body ≤ max_body
unfolding read_chunked
read_chunked-bounded limit stream body rest e =
    read_chunked_from-bounded (suc (length stream)) limit [] stream body rest (omega arith) e

read_sized-bounded :
    (o : Option ℤ) (stream body rest : Bytes) (flag : Bool)
    → read_sized o stream ≡ ok ((body, flag), rest)
    → length body ≤ max_body
unfolding read_sized read_exactly
read_sized-bounded none stream body rest flag e = cc e
read_sized-bounded (some (negsuc n)) stream body rest flag e = cc e
read_sized-bounded (some (pos n)) stream body rest flag e = ground (arith, length-take n stream)

with_flag-eq :
    (r : Option (Result (Bytes × Bytes))) (body rest : Bytes) (flag : Bool)
    → with_flag r ≡ some (ok ((body, flag), rest))
    → r ≡ some (ok (body, rest))
with_flag-eq none body rest flag e = cc e
with_flag-eq (some (err x)) body rest flag e = cc e
with_flag-eq (some (ok (b, r))) body rest flag e = cc e

module _ (limit : ℕ) (headers : Headers) (is_response : Bool) (status : Option ℤ)
    (method : Option Bytes) (stream : Bytes) where
  -- A body that was read has at most `max_body` bytes, unless the message is a response that has
  -- neither chunked coding nor a Content-Length, whose body is all that arrives before EOF.
  pub read_body-bounded :
      (body rest : Bytes) (flag : Bool)
      → read_body limit headers is_response status method stream ≡ some (ok ((body, flag), rest))
      → (is_response ≡ false)
        ⊎ ((is_chunked (get_header headers (codes "transfer-encoding")) ≡ true)
            ⊎ (get_header headers (codes "content-length") ≢ none))
      → length body ≤ max_body
  unfolding read_body
  read_body-bounded body rest flag e framed =
      let sized = λ (cl : Bytes). read_sized-bounded (content_length cl) stream body rest flag in
      elim (Bool-cases (is_response && (bodiless_status status || is_head method))) [
        | inl bodiless ↦ ground arith
        | inr other ↦
            elim (Bool-cases (is_chunked (get_header headers (codes "transfer-encoding")))) [
              | inl chunked ↦
                  read_chunked-bounded limit stream body rest
                    (with_flag-eq (read_chunked limit stream) body rest flag (ground arith))
              | inr plain ↦ elim (Option-cases (get_header headers (codes "content-length"))) [
                | inl absent ↦ ground arith
                | inr (cl, present) ↦ sized cl (ground arith)
              ]
            ]
      ]

  -- Reading a body always ends, with a body or an exception.
  pub read_body-ne_none : read_body limit headers is_response status method stream ≢ none
  unfolding read_body
  read_body-ne_none = ground (arith, read_chunked-ne_none limit stream)

pub body-cases :
    (o : Option (Result (Body × Bytes)))
    → (o ≡ none)
      ⊎ (((b : Body) × (rest : Bytes) × (o ≡ some (ok (b, rest))))
          ⊎ ((x : Error) × (o ≡ some (err x))))
body-cases none = inl refl
body-cases (some (ok (b, rest))) = inr (inl (b, rest, refl))
body-cases (some (err x)) = inr (inr (x, refl))
