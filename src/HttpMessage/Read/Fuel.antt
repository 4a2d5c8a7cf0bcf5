-- ===== src/HttpMessage/Read/Fuel.antt =====
-- The loops of `_read_chunked` end, whatever the stream holds.
use brup_http_proxy.Prelude.{
  ℕ, zero, suc, ◌+◌, ◌≤◌, ◌<◌, ◌≡◌, ◌≢◌, refl, Option, none, some, [], ◌∷◌, arith, length, ◌⊎◌,
  ◌++◌, drop, Option-cases, inl, inr, length-drop,
}
use brup_http_proxy.Bytes.{Bytes, crlf, find}
use brup_http_proxy.Bytes.Int.{ℤ, pos, negsuc, int_of}
use brup_http_proxy.Result.{Result-cases, ok}
use brup_http_proxy.HttpMessage.Read.{
  found, incomplete, overrun, read_until, read_exactly, read_trailers, read_chunk,
  read_chunked_from, read_chunked, Reading, size_token,
}

pub find-lt-length : (x : ℕ) (p s : Bytes) (i : ℕ) → find (x ∷ p) s ≡ some i → i < length s
unfolding find
find-lt-length x p [] i h = cc
find-lt-length x p (y ∷ s) i h = elim (Option-cases (find (x ∷ p) s)) [
  | inl e ↦ ground arith
  | inr (j, e) ↦ ground (arith, find-lt-length x p s j e)
]

-- A line that is found shortens the stream.
pub read_until-shorter :
    (limit : ℕ) (stream line rest : Bytes)
    → read_until limit crlf stream ≡ found line rest
    → length rest < length stream
unfolding read_until
read_until-shorter limit stream line rest h = elim (Option-cases (find crlf stream)) [
  | inl e ↦ ground arith
  | inr (i, e) ↦ ground (arith, find-lt-length 13 (10 ∷ []) stream i e, length-drop (i + 2) stream)
]

pub read_chunk-shorter :
    (n : ℕ) (stream chunk rest : Bytes)
    → read_chunk n stream ≡ ok (chunk, rest)
    → length rest ≤ length stream
unfolding read_chunk read_exactly
read_chunk-shorter n stream chunk rest h =
    ground (arith, length-drop n stream, length-drop 2 (drop n stream))

-- To split on a read and keep the equation.
pub Reading-cases :
    (r : Reading)
    → ((line : Bytes) × (rest : Bytes) × (r ≡ found line rest))
      ⊎ (((partial : Bytes) × (r ≡ incomplete partial)) ⊎ (r ≡ overrun))
Reading-cases (found line rest) = inl (line, rest, refl)
Reading-cases (incomplete partial) = inr (inl (partial, refl))
Reading-cases overrun = inr (inr refl)

read_trailers-ne_none :
    (fuel limit : ℕ) (stream : Bytes)
    → length stream < fuel
    → read_trailers fuel limit stream ≢ none
unfolding read_trailers
read_trailers-ne_none zero limit stream h = elim h [ ]
read_trailers-ne_none (suc fuel) limit stream h =
    elim (Reading-cases (read_until limit crlf stream)) [
      | inl (line, rest, e) ↦ ground (
        arith,
        read_until-shorter limit stream line rest e,
        read_trailers-ne_none fuel limit rest,
      )
      | inr (inl (partial, e)) ↦ ground arith
      | inr (inr e) ↦ ground arith
    ]

pub size-cases :
    (o : Option ℤ)
    → (o ≡ none)
      ⊎ ((o ≡ some (pos zero))
          ⊎ (((n : ℕ) × (o ≡ some (pos (suc n)))) ⊎ ((n : ℕ) × (o ≡ some (negsuc n)))))
size-cases none = inl refl
size-cases (some (pos zero)) = inr (inl refl)
size-cases (some (pos (suc n))) = inr (inr (inl (n, refl)))
size-cases (some (negsuc n)) = inr (inr (inr (n, refl)))

read_chunked_from-ne_none :
    (fuel limit : ℕ) (out stream : Bytes)
    → length stream < fuel
    → read_chunked_from fuel limit out stream ≢ none
unfolding read_chunked_from
read_chunked_from-ne_none zero limit out stream h = elim h [ ]
read_chunked_from-ne_none (suc fuel) limit out stream h =
    elim (Reading-cases (read_until limit crlf stream)) [
      | inl (line, rest, e) ↦
          let shorter = read_until-shorter limit stream line rest e in
          elim (size-cases (int_of 16 (size_token line))) [
            | inl size ↦ ground arith
            | inr (inl size) ↦ ground (arith, read_trailers-ne_none fuel limit rest)
            | inr (inr (inr (n, size))) ↦ ground arith
            | inr (inr (inl (n, size))) ↦ elim (Result-cases (read_chunk (suc n) rest)) [
              | inl ((chunk, rest'), e') ↦ ground (
                arith,
                read_chunk-shorter (suc n) rest chunk rest' e',
                read_chunked_from-ne_none fuel limit (out ++ chunk) rest',
              )
              | inr (x, e') ↦ ground arith
            ]
          ]
      | inr (inl (partial, e)) ↦ ground arith
      | inr (inr e) ↦ ground arith
    ]

-- `_read_chunked` ends on every stream, with a body or an exception.
pub read_chunked-ne_none : (limit : ℕ) (stream : Bytes) → read_chunked limit stream ≢ none
unfolding read_chunked
read_chunked-ne_none limit stream =
    read_chunked_from-ne_none (suc (length stream)) limit [] stream (omega arith)
