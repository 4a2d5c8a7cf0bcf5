-- ===== src/Http2/Translate/Laws.antt =====
-- What a translated message keeps, and how an HTTP/1.1 origin frames it.
use brup_http_proxy.Prelude.{
  ℕ, ◌≤◌, ◌≡◌, ◌≢◌, ◌⊎◌, inl, inr, refl, ◌∙◌, ap, Bool, true, false, ◌||◌, Option, none, some, [],
  ◌∷◌, ◌++◌, arith, All, Bool-cases, is_empty, length, if◌then◌else◌, drop,
}
use mathlib.Core.List.{tail}
use brup_http_proxy.Bytes.{Bytes, codes, lower, bytes_eq}
use brup_http_proxy.Bytes.Int.{ℤ, decimal}
use brup_http_proxy.Result.{ok}
use brup_http_proxy.HttpMessage.Headers.{
  Headers, same_name, get_header, get_all_headers, set_header,
}
use brup_http_proxy.HttpMessage.Headers.Laws.{
  first, get_header-eq-first, get_header-set_header, get_all_headers-set_header, same_name_iff,
}
use brup_http_proxy.HttpMessage.Message.{Request, Response}
use brup_http_proxy.HttpMessage.Read.{read_body, max_body}
use brup_http_proxy.HttpMessage.Read.Framing.{read_body-sized}
use brup_http_proxy.Http2.Fields.{one_of, connection_specific, get, split_pseudo}
use brup_http_proxy.Http2.Fields.Laws.{IsAllowed, lower_idem}
use brup_http_proxy.Http2.Translate.{
  h1_fields, host_first, h1_request, h2_fields, from_h1_response, to_h2_request,
}

h2_fields-IsAllowed :
    (dropped : Bytes → Bool) (hs : Headers)
    → ((n : Bytes) → dropped n ≡ false → one_of connection_specific n ≡ false)
    → All IsAllowed (h2_fields dropped hs)
unfolding h2_fields
h2_fields-IsAllowed dropped [] f = tt
h2_fields-IsAllowed dropped ((n, v) ∷ hs) f = elim (Bool-cases (dropped (lower n))) [
  | inl d ↦ rw (d, h2_fields) (h2_fields-IsAllowed dropped hs f)
  | inr k ↦
      rw (k, h2_fields)
        (
          record { lowercase = lower_idem n; end_to_end = f (lower n) k },
          h2_fields-IsAllowed dropped hs f,
        )
]

abbrev pub is_host : Bytes → Bool
is_host n = bytes_eq (lower n) (codes "host")

-- Every field that is kept was given, and is not specific to a connection.
h1_fields-cases :
    (seen : Bool) (n v : Bytes) (hs : Headers)
    → (h1_fields seen ((n, v) ∷ hs) ≡ h1_fields seen hs)
      ⊎ ((one_of connection_specific (lower n) ≡ false)
          × ((is_host n ≡ true)
                × (seen ≡ false)
                × (h1_fields seen ((n, v) ∷ hs) ≡ (n, v) ∷ h1_fields true hs)
              ⊎ (is_host n ≡ false) × (h1_fields seen ((n, v) ∷ hs) ≡ (n, v) ∷ h1_fields seen hs)))
unfolding h1_fields
h1_fields-cases seen n v hs = elim (Bool-cases (one_of connection_specific (lower n))) [
  | inl c ↦ inl (rw (c, h1_fields))
  | inr e ↦ elim (Bool-cases (is_host n)) [
    | inl h ↦ elim (Bool-cases seen) [
      | inl s ↦ inl (rw (e, h, s, h1_fields))
      | inr s ↦ inr (e, inl (h, s, rw (e, h, s, h1_fields)))
    ]
    | inr h ↦ inr (e, inr (h, rw (e, h, h1_fields)))
  ]
]

host_name : (n : Bytes) → same_name n (codes "host") ≡ is_host n
unfolding same_name
host_name n = refl

hosts_seen : (hs : Headers) → get_all_headers (h1_fields true hs) (codes "host") ≡ []
unfolding get_all_headers
hosts_seen [] = unfold h1_fields in refl
hosts_seen ((n, v) ∷ hs) = elim (h1_fields-cases true n v hs) [
  | inl e ↦ rw e (hosts_seen hs)
  | inr (k, inl (h, s, e)) ↦ cc s
  | inr (k, inr (h, e)) ↦ rw (e, host_name n, h) (hosts_seen hs)
]

hosts_unseen : (hs : Headers) → length (get_all_headers (h1_fields false hs) (codes "host")) ≤ 1
unfolding get_all_headers
hosts_unseen [] = unfold h1_fields in omega arith
hosts_unseen ((n, v) ∷ hs) = elim (h1_fields-cases false n v hs) [
  | inl e ↦ rw e (hosts_unseen hs)
  | inr (k, inl (h, s, e)) ↦ rw (e, host_name n, h, hosts_seen hs) (omega arith)
  | inr (k, inr (h, e)) ↦ rw (e, host_name n, h) (hosts_unseen hs)
]

abbrev encoding : Bytes
encoding = codes "transfer-encoding"

not_encoding :
    (n : Bytes) → one_of connection_specific (lower n) ≡ false → same_name n encoding ≡ false
unfolding one_of same_name
not_encoding n h = elim (Bool-cases (same_name n encoding)) [
  | inl e ↦ cc (ap (one_of connection_specific) ((same_name_iff n encoding).0 e), h)
  | inr e ↦ e
]

no_encodings : (seen : Bool) (hs : Headers) → get_all_headers (h1_fields seen hs) encoding ≡ []
unfolding get_all_headers
no_encodings seen [] = unfold h1_fields in refl
no_encodings seen ((n, v) ∷ hs) = elim (h1_fields-cases seen n v hs) [
  | inl e ↦ rw e (no_encodings seen hs)
  | inr (k, inl (h, s, e)) ↦ rw (e, not_encoding n k) (no_encodings true hs)
  | inr (k, inr (h, e)) ↦ rw (e, not_encoding n k) (no_encodings seen hs)
]

no_encodings_first :
    (a : Option Bytes) (hs : Headers) → get_all_headers (host_first a hs) encoding ≡ []
unfolding get_all_headers same_name
no_encodings_first none hs = no_encodings false hs
no_encodings_first (some []) hs = no_encodings false hs
no_encodings_first (some (c ∷ a)) hs = no_encodings true hs

-- What `Content-Length` is set to does not matter to another header.
with_length :
    (hs : Headers) (body m : Bytes)
    → same_name (codes "Content-Length") m ≡ false
    → get_all_headers
        (if is_empty body
          then hs
          else set_header hs (codes "Content-Length") (decimal (length body)))
        m
      ≡ get_all_headers hs m
with_length hs [] m e = refl
with_length hs (x ∷ body) m e = rw (get_all_headers-set_header, e)

at_most_one :
    (a : Option Bytes) (hs : Headers)
    → length (get_all_headers (host_first a hs) (codes "host")) ≤ 1
unfolding get_all_headers same_name
at_most_one none hs = hosts_unseen hs
at_most_one (some []) hs = hosts_unseen hs
at_most_one (some (c ∷ a)) hs = rw (hosts_seen hs) (omega arith)

-- The HTTP/1.1 request made of an HTTP/2 request has at most one Host header, whatever its fields.
pub length-h1_request_host :
    (headers : Headers) (body : Bytes)
    → length (get_all_headers (h1_request headers body).headers (codes "host")) ≤ 1
unfolding h1_request
length-h1_request_host headers body =
    let (pseudo, regular) = split_pseudo headers in
    let a = get pseudo (codes ":authority") in
    rw (with_length (host_first a regular) body (codes "host") (unfold same_name in refl))
      (at_most_one a regular)

-- Where the HTTP/2 request has an authority that is not empty, that is the one value of Host in the
-- HTTP/1.1 request, also if a Host field disagrees.
pub h1_request_authority :
    (headers : Headers) (body : Bytes) (c : ℕ) (a : Bytes)
    → get (split_pseudo headers).0 (codes ":authority") ≡ some (c ∷ a)
    → get_all_headers (h1_request headers body).headers (codes "host") ≡ (c ∷ a) ∷ []
unfolding h1_request get_all_headers same_name
h1_request_authority headers body c a e =
    let (pseudo, regular) = split_pseudo headers in
    with_length (host_first (get pseudo (codes ":authority")) regular) body (codes "host") refl
    ∙ rw e (rw (hosts_seen regular))

no_encoding_set :
    (hs : Headers) (value : Bytes)
    → get_all_headers hs encoding ≡ []
    → get_header (set_header hs (codes "Content-Length") value) encoding ≡ none
unfolding same_name
no_encoding_set hs value e =
    get_header-set_header hs (codes "Content-Length") value encoding
    ∙ get_header-eq-first hs encoding
    ∙ ap first e

-- An origin that frames the HTTP/1.1 request by its headers reads exactly the body of the HTTP/2
-- request and leaves what follows, whatever framing fields that request carried. The conditions: the
-- body is not empty and within `max_body`.
pub read_body-h1_request :
    (limit : ℕ) (headers : Headers) (body : Bytes) (status : Option ℤ) (method : Option Bytes)
    (rest : Bytes)
    → body ≢ []
    → length body ≤ max_body
    → read_body limit (h1_request headers body).headers false status method (body ++ rest)
      ≡ some (ok ((body, false), rest))
unfolding h1_request
read_body-h1_request limit headers [] status method rest ne fits = absurd (ne refl)
read_body-h1_request limit headers (x ∷ xs) status method rest ne fits =
    let (pseudo, regular) = split_pseudo headers in
    let out = host_first (get pseudo (codes ":authority")) regular in
    read_body-sized limit (set_header out (codes "Content-Length") (decimal (length (x ∷ xs))))
      (x ∷ xs) false status method rest
      (no_encoding_set out (decimal (length (x ∷ xs)))
        (no_encodings_first (get pseudo (codes ":authority")) regular))
      (get_header-set_header out (codes "Content-Length") (decimal (length (x ∷ xs)))
          (codes "content-length")
        ∙ (unfold same_name in refl))
      fits refl

-- The fields made of an HTTP/1.1 response or request are a status or the four pseudo-headers, and
-- then only fields that HTTP/2 allows; a request's Host is not among them.
pub from_h1_response-IsAllowed : (r : Response) → All IsAllowed (tail (from_h1_response r).0)
unfolding from_h1_response
from_h1_response-IsAllowed r = h2_fields-IsAllowed (one_of connection_specific) r.headers (λ n e. e)

pub to_h2_request-IsAllowed :
    (r : Request) (scheme : Bytes) → All IsAllowed (drop 4 (to_h2_request r scheme).0)
unfolding to_h2_request
to_h2_request-IsAllowed r scheme =
    h2_fields-IsAllowed (λ low. one_of connection_specific low || bytes_eq low (codes "host"))
      r.headers (λ n e. ground arith)
