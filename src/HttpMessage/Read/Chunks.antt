-- ===== src/HttpMessage/Read/Chunks.antt =====
-- Reading a body that is written in chunks gives the contents of the chunks.
use mathlib.Core.Path.{ap₂}
use brup_http_proxy.Prelude.{
  ℕ, zero, suc, ◌+◌, ◌≤◌, ◌<◌, ◌≡◌, ◌≢◌, refl, ◌∙◌, ap, false, some, List, [], ◌∷◌, ◌++◌, arith,
  All, length, length-append, take-append, drop-append, append_assoc, append-nil, take-append_add,
  drop-append_add, ltb_of_le, leb_of_le,
}
use brup_http_proxy.Bytes.{Bytes, crlf, find, bytes_eq}
use brup_http_proxy.Bytes.Lines.{NoByte}
use brup_http_proxy.Bytes.Int.{pos, int_of}
use brup_http_proxy.Result.{ok}
use brup_http_proxy.HttpMessage.Read.{
  found, read_until, read_exactly, read_trailers, read_chunk, read_chunked_from, read_chunked,
  size_token, max_body,
}

-- a chunk on the wire: the line with its size and extensions, and its content
pub record Chunk : Type 0 where
  pub line : Bytes
  pub content : Bytes

-- The wire form of chunks, the last chunk's line, and the trailers, before `rest`.
abbrev pub trailers_wire : List Bytes → Bytes → Bytes
trailers_wire [] rest = 13 ∷ 10 ∷ rest
trailers_wire (t ∷ ts) rest = t ++ (13 ∷ 10 ∷ trailers_wire ts rest)

abbrev pub chunks_wire : List Chunk → Bytes → Bytes
chunks_wire [] tail = tail
chunks_wire (c ∷ cs) tail = c.line ++ (13 ∷ 10 ∷ (c.content ++ (13 ∷ 10 ∷ chunks_wire cs tail)))

abbrev pub contents : List Chunk → Bytes
contents [] = []
contents (c ∷ cs) = c.content ++ contents cs

-- a line that the reader takes in one piece
pub record Fits (limit : ℕ) (l : Bytes) : Type 0 where
  pub no_cr : NoByte 13 l
  pub short : length l ≤ limit

pub record IsChunk (limit : ℕ) (c : Chunk) : Type 0 where
  pub fits : Fits limit c.line
  pub filled : c.content ≢ []
  pub sized : int_of 16 (size_token (c.line ++ crlf)) ≡ some (pos (length c.content))

pub record IsTrailer (limit : ℕ) (t : Bytes) : Type 0 where
  pub fits : Fits limit t
  pub filled : t ≢ []

find-crlf : (l rest : Bytes) → NoByte 13 l → find crlf (l ++ (13 ∷ 10 ∷ rest)) ≡ some (length l)
unfolding find
find-crlf [] rest h = refl
find-crlf (x ∷ l) rest h = ground (arith, find-crlf l rest h.1)

read_until-line :
    (limit : ℕ) (l rest : Bytes)
    → Fits limit l
    → read_until limit crlf (l ++ (13 ∷ 10 ∷ rest)) ≡ found (l ++ crlf) rest
unfolding read_until
read_until-line limit l rest h =
    rw (find-crlf l rest h.no_cr, read_until)
      (rw (ltb_of_le limit (length l) h.short)
        (ap₂ found (take-append_add l (13 ∷ 10 ∷ rest) 2) (drop-append_add l (13 ∷ 10 ∷ rest) 2)))

not_blank : (t : Bytes) → t ≢ [] → bytes_eq (t ++ crlf) crlf ≡ false
unfolding bytes_eq
not_blank [] h = absurd (h refl)
not_blank (x ∷ []) h = ground arith
not_blank (x ∷ y ∷ []) h = ground arith
not_blank (x ∷ y ∷ z ∷ t) h = ground arith

read_trailers-wire :
    (limit : ℕ) (ts : List Bytes) (rest : Bytes) (fuel : ℕ)
    → All (IsTrailer limit) ts
    → length ts < fuel
    → read_trailers fuel limit (trailers_wire ts rest) ≡ some (ok rest)
unfolding read_trailers
read_trailers-wire limit ts rest zero h k = elim k [ ]
read_trailers-wire limit [] rest (suc fuel) h k =
    rw (read_until-line limit [] rest (record { no_cr = tt; short = omega arith }), read_trailers)
read_trailers-wire limit (t ∷ ts) rest (suc fuel) h k =
    rw (read_until-line limit t (trailers_wire ts rest) h.0.fits, read_trailers)
      (rw (not_blank t h.0.filled) (read_trailers-wire limit ts rest fuel h.1 (omega arith)))

read_chunk-wire :
    (content rest : Bytes)
    → read_chunk (length content) (content ++ (13 ∷ 10 ∷ rest)) ≡ ok (content, rest)
unfolding read_chunk read_exactly
read_chunk-wire content rest =
    rw
      (
        leb_of_le (length content) (length (content ++ (13 ∷ 10 ∷ rest)))
            (omega (arith, length-append content (13 ∷ 10 ∷ rest))),
        drop-append content (13 ∷ 10 ∷ rest),
        take-append content (13 ∷ 10 ∷ rest),
      )
      (rw (leb_of_le 2 (suc (suc (length rest))) (omega arith)))

chunk_round :
    (limit : ℕ) (line content next : Bytes) (fuel : ℕ) (out : Bytes)
    → Fits limit line
    → content ≢ []
    → int_of 16 (size_token (line ++ crlf)) ≡ some (pos (length content))
    → length out + length content ≤ max_body
    → read_chunked_from (suc fuel) limit out (line ++ (13 ∷ 10 ∷ (content ++ (13 ∷ 10 ∷ next))))
      ≡ read_chunked_from fuel limit (out ++ content) next
unfolding read_chunked_from
chunk_round limit line [] next fuel out l ne size fits = absurd (ne refl)
chunk_round limit line (x ∷ xs) next fuel out l ne size fits =
    rw (read_until-line limit line (x ∷ xs ++ (13 ∷ 10 ∷ next)) l, read_chunked_from)
      (rw (size, read_chunked_from)
        (rw (ltb_of_le max_body (length out + suc (length xs)) fits)
          (rw (read_chunk-wire (x ∷ xs) next, read_chunked_from))))

module _ (limit : ℕ) (last : Bytes) (ts : List Bytes) (rest : Bytes) (last_fits : Fits limit last)
    (last_size : int_of 16 (size_token (last ++ crlf)) ≡ some (pos 0))
    (trailers : All (IsTrailer limit) ts) where
  abbrev tail : Bytes
  tail = last ++ (13 ∷ 10 ∷ trailers_wire ts rest)

  read_chunked_from-wire :
      (cs : List Chunk) (fuel : ℕ) (out : Bytes)
      → All (IsChunk limit) cs
      → length cs + (length ts + 1) < fuel
      → length (out ++ contents cs) ≤ max_body
      → read_chunked_from fuel limit out (chunks_wire cs tail)
        ≡ some (ok (out ++ contents cs, rest))
  unfolding read_chunked_from
  read_chunked_from-wire cs zero out h k fits = elim k [ ]
  read_chunked_from-wire [] (suc fuel) out h k fits =
      rw (read_until-line limit last (trailers_wire ts rest) last_fits, read_chunked_from)
        (rw (last_size, read_chunked_from)
          (rw (read_trailers-wire limit ts rest fuel trailers (omega arith)) (rw append-nil)))
  read_chunked_from-wire (c ∷ cs) (suc fuel) out h k fits =
      chunk_round limit c.line c.content (chunks_wire cs tail) fuel out h.0.fits h.0.filled
        h.0.sized
        (omega (
          arith,
          length-append out (c.content ++ contents cs),
          length-append c.content (contents cs),
        ))
      ∙ read_chunked_from-wire cs fuel (out ++ c.content) h.1 (omega arith) (rw append_assoc fits)
      ∙ ap (λ b. some (ok (b, rest))) (append_assoc out c.content (contents cs))

  length-trailers_wire : (us : List Bytes) → length us + 2 ≤ length (trailers_wire us rest)
  length-trailers_wire [] = omega arith
  length-trailers_wire (u ∷ us) =
      omega (arith, length-append u (13 ∷ 10 ∷ trailers_wire us rest), length-trailers_wire us)

  length-chunks_wire :
      (cs : List Chunk) → length cs + (length ts + 2) ≤ length (chunks_wire cs tail)
  length-chunks_wire [] =
      omega (arith, length-append last (13 ∷ 10 ∷ trailers_wire ts rest), length-trailers_wire ts)
  length-chunks_wire (c ∷ cs) = omega (
    arith,
    length-append c.line (13 ∷ 10 ∷ (c.content ++ (13 ∷ 10 ∷ chunks_wire cs tail))),
    length-append c.content (13 ∷ 10 ∷ chunks_wire cs tail),
    length-chunks_wire cs,
  )

  -- Reading chunks, a last chunk of size 0 and trailers gives the contents of the chunks in order, and
  -- leaves exactly what follows the final blank line. The conditions: each size line is within the
  -- reader's limit, has no CR and reads as the length of its content, which is not empty; each trailer
  -- line is within the limit, has no CR and is not empty; and the contents together are within
  -- `max_body`.
  pub read_chunked-chunks_wire :
      (cs : List Chunk)
      → All (IsChunk limit) cs
      → length (contents cs) ≤ max_body
      → read_chunked limit (chunks_wire cs (last ++ (13 ∷ 10 ∷ trailers_wire ts rest)))
        ≡ some (ok (contents cs, rest))
  unfolding read_chunked
  read_chunked-chunks_wire cs h fits =
      read_chunked_from-wire cs (suc (length (chunks_wire cs tail))) [] h
        (omega (arith, length-chunks_wire cs)) fits
