-- ===== src/HttpMessage/Parse/Errors.antt =====
-- The errors of the parsers.
use brup_http_proxy.Prelude.{
  zero, suc, ◌≡◌, refl, not, ◌&&◌, List, [], ◌∷◌, ◌++◌, Bool-cases, Option-cases, inl, inr,
  is_empty,
}
use brup_http_proxy.Bytes.{Bytes, codes, find, strip, words}
use brup_http_proxy.Result.{Result, ok, err, parse_error, ◌>>=◌}
use brup_http_proxy.HttpMessage.Headers.{Headers}
use brup_http_proxy.HttpMessage.Parse.{
  is_folded, split_header, header_step, parse_headers_from, parse_headers, request_of_bits,
  request_of_lines, parse_request, split_raw, split_head_lines,
}

-- There is no error but a ParseError.
abbrev pub OnlyParses {ℓ} : {A : Type ℓ} → Result A → Type 0
OnlyParses (ok a) = Unit
OnlyParses (err e) = e ≡ parse_error

pub OnlyParses-bind {ℓ κ} :
    {A : Type ℓ} {B : Type κ} (r : Result A) (f : A → Result B)
    → OnlyParses r
    → ((a : A) → OnlyParses (f a))
    → OnlyParses (r >>= f)
OnlyParses-bind (ok a) f p q = q a
OnlyParses-bind (err e) f p q = p

split_header-OnlyParses : (ln : Bytes) → OnlyParses (split_header ln)
unfolding split_header
split_header-OnlyParses ln = elim (Option-cases (find (codes ":") ln)) [
  | inl e ↦ rw (e, split_header) refl
  | inr (zero, e) ↦ rw (e, split_header) refl
  | inr (suc i, e) ↦ rw (e, split_header) tt
]

header_step-OnlyParses : (headers : Headers) (ln : Bytes) → OnlyParses (header_step headers ln)
unfolding header_step
header_step-OnlyParses headers ln = elim (Bool-cases (is_empty ln)) [
  | inl e ↦ rw (e, header_step) tt
  | inr e ↦ elim (Bool-cases (is_folded ln && not (is_empty headers))) [
    | inl f ↦ rw (e, f, header_step) tt
    | inr f ↦
        rw (e, f, header_step)
          (OnlyParses-bind (split_header ln) (λ h. ok (headers ++ h ∷ []))
            (split_header-OnlyParses ln) (λ h. tt))
  ]
]

parse_headers_from-OnlyParses :
    (headers : Headers) (lines : List Bytes) → OnlyParses (parse_headers_from headers lines)
unfolding parse_headers_from
parse_headers_from-OnlyParses headers [] = tt
parse_headers_from-OnlyParses headers (ln ∷ lines) =
    OnlyParses-bind (header_step headers ln) (λ headers'. parse_headers_from headers' lines)
      (header_step-OnlyParses headers ln) (λ headers'. parse_headers_from-OnlyParses headers' lines)

request_of_bits-OnlyParses :
    (bits lines : List Bytes) (body : Bytes) → OnlyParses (request_of_bits bits lines body)
unfolding request_of_bits parse_headers
request_of_bits-OnlyParses [] lines body = refl
request_of_bits-OnlyParses (method ∷ []) lines body = refl
request_of_bits-OnlyParses (method ∷ target ∷ []) lines body =
    OnlyParses-bind (parse_headers_from [] lines) _ (parse_headers_from-OnlyParses [] lines)
      (λ headers. tt)
request_of_bits-OnlyParses (method ∷ target ∷ version ∷ more) lines body =
    OnlyParses-bind (parse_headers_from [] lines) _ (parse_headers_from-OnlyParses [] lines)
      (λ headers. tt)

request_of_lines-OnlyParses :
    (lines : List Bytes) (body : Bytes) → OnlyParses (request_of_lines lines body)
unfolding request_of_lines
request_of_lines-OnlyParses [] body = refl
request_of_lines-OnlyParses (first ∷ lines) body = elim (Bool-cases (is_empty (strip first))) [
  | inl e ↦ rw (e, request_of_lines) refl
  | inr e ↦ rw (e, request_of_lines) (request_of_bits-OnlyParses (words first) lines body)
]

pub parse_request-OnlyParses : (raw : Bytes) → OnlyParses (parse_request raw)
unfolding parse_request
parse_request-OnlyParses raw =
    request_of_lines-OnlyParses (split_head_lines (split_raw raw).0) (split_raw raw).1
