-- ===== src/HttpMessage/Read/Shorter.antt =====
-- What a read leaves of the stream.
use brup_http_proxy.Prelude.{
  ℕ, zero, suc, ◌+◌, ◌≤◌, ◌<◌, ◌≡◌, refl, false, Option, none, some, [], ◌∷◌, ◌++◌, arith, length,
  Bool-cases, Option-cases, inl, inr, ◌⊎◌, length-drop,
}
use brup_http_proxy.Bytes.{Bytes, codes, crlf, blank_line, find}
use brup_http_proxy.Bytes.Int.{ℤ, pos, negsuc, int_of}
use brup_http_proxy.Result.{Error, Result, Result-cases, ok, err}
use brup_http_proxy.HttpMessage.Headers.{Headers, get_header}
use brup_http_proxy.HttpMessage.Read.{
  read_until, read_exactly, read_head, read_trailers, read_chunk, read_chunked_from, read_chunked,
  size_token, content_length, read_sized, is_chunked, read_body, Body,
}
use brup_http_proxy.HttpMessage.Read.Fuel.{
  find-lt-length, read_until-shorter, read_chunk-shorter, Reading-cases, size-cases,
}

-- A head that was read shortens the stream.
pub read_head-shorter :
    (limit : ℕ) (stream head rest : Bytes)
    → read_head limit stream ≡ ok (some head, rest)
    → length rest < length stream
unfolding read_head read_until
read_head-shorter limit [] head rest h = ground arith
read_head-shorter limit (x ∷ stream) head rest h =
    elim (Option-cases (find blank_line (x ∷ stream))) [
      | inl e ↦ ground arith
      | inr (i, e) ↦ ground (
        arith,
        find-lt-length 13 (10 ∷ 13 ∷ 10 ∷ []) (x ∷ stream) i e,
        length-drop (i + 4) (x ∷ stream),
      )
    ]

read_trailers-shorter :
    (fuel limit : ℕ) (stream rest : Bytes)
    → read_trailers fuel limit stream ≡ some (ok rest)
    → length rest ≤ length stream
unfolding read_trailers
read_trailers-shorter zero limit stream rest h = absurd (cc h)
read_trailers-shorter (suc fuel) limit stream rest h =
    elim (Reading-cases (read_until limit crlf stream)) [
      | inl (line, after, e) ↦ ground (
        arith,
        read_until-shorter limit stream line after e,
        read_trailers-shorter fuel limit after rest,
      )
      | inr (inl (partial, e)) ↦ ground arith
      | inr (inr e) ↦ ground arith
    ]

trailers-cases :
    (o : Option (Result Bytes))
    → (o ≡ none) ⊎ (((r : Bytes) × (o ≡ some (ok r))) ⊎ ((x : Error) × (o ≡ some (err x))))
trailers-cases none = inl refl
trailers-cases (some (ok r)) = inr (inl (r, refl))
trailers-cases (some (err x)) = inr (inr (x, refl))

chunked-cases :
    (o : Option (Result (Bytes × Bytes)))
    → (o ≡ none)
      ⊎ (((b : Bytes) × (r : Bytes) × (o ≡ some (ok (b, r)))) ⊎ ((x : Error) × (o ≡ some (err x))))
chunked-cases none = inl refl
chunked-cases (some (ok (b, r))) = inr (inl (b, r, refl))
chunked-cases (some (err x)) = inr (inr (x, refl))

read_chunked_from-shorter :
    (fuel limit : ℕ) (out stream body rest : Bytes)
    → read_chunked_from fuel limit out stream ≡ some (ok (body, rest))
    → length rest ≤ length stream
unfolding read_chunked_from
read_chunked_from-shorter zero limit out stream body rest h = absurd (cc h)
read_chunked_from-shorter (suc fuel) limit out stream body rest h =
    elim (Reading-cases (read_until limit crlf stream)) [
      | inr (inl (partial, e)) ↦ ground arith
      | inr (inr e) ↦ ground arith
      | inl (line, after, e) ↦
          let shorter = read_until-shorter limit stream line after e in
          elim (size-cases (int_of 16 (size_token line))) [
            | inl size ↦ ground arith
            | inr (inl size) ↦ elim (trailers-cases (read_trailers fuel limit after)) [
              | inl t ↦ ground arith
              | inr (inl (r, t)) ↦ ground (arith, read_trailers-shorter fuel limit after r t)
              | inr (inr (x, t)) ↦ ground arith
            ]
            | inr (inr (inr (n, size))) ↦ ground arith
            | inr (inr (inl (n, size))) ↦ elim (Result-cases (read_chunk (suc n) after)) [
              | inl ((chunk, rest'), e') ↦ ground (
                arith,
                read_chunk-shorter (suc n) after chunk rest' e',
                read_chunked_from-shorter fuel limit (out ++ chunk) rest' body rest,
              )
              | inr (x, e') ↦ ground arith
            ]
          ]
    ]

read_sized-shorter :
    (size : Option ℤ) (stream rest : Bytes) (body : Body)
    → read_sized size stream ≡ ok (body, rest)
    → length rest ≤ length stream
unfolding read_sized read_exactly
read_sized-shorter none stream rest body h = absurd (cc h)
read_sized-shorter (some (negsuc n)) stream rest body h = absurd (cc h)
read_sized-shorter (some (pos n)) stream rest body h = ground (arith, length-drop n stream)

-- A body that was read leaves no more of the stream than there was.
pub read_body-shorter :
    (limit : ℕ) (headers : Headers) (stream rest : Bytes) (body : Body)
    → read_body limit headers false none none stream ≡ some (ok (body, rest))
    → length rest ≤ length stream
unfolding read_body read_chunked
read_body-shorter limit headers stream rest body h =
    elim (Bool-cases (is_chunked (get_header headers (codes "transfer-encoding")))) [
      | inl c ↦ elim (chunked-cases (read_chunked_from (suc (length stream)) limit [] stream)) [
        | inl e ↦ ground arith
        | inr (inl (b, r, e)) ↦
            ground (arith, read_chunked_from-shorter (suc (length stream)) limit [] stream b r e)
        | inr (inr (x, e)) ↦ ground arith
      ]
      | inr c ↦ elim (Option-cases (get_header headers (codes "content-length"))) [
        | inl e ↦ ground arith
        | inr (cl, e) ↦ ground (arith, read_sized-shorter (content_length cl) stream rest body)
      ]
    ]
