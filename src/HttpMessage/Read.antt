-- ===== src/HttpMessage/Read.antt =====
-- `read_head`, `_read_chunked`, `read_body` and `normalise_framing` of backend/brup/http_message.py.
-- A `StreamReader` is the list of bytes that still arrive before EOF; a read returns what is left.
-- `limit` is the reader's buffer limit. Loops take fuel, and `none` means that it ran out.
pub mod Fuel
pub mod Shorter
pub mod Chunks
pub mod Framing
use brup_http_proxy.Prelude.{
  ℕ, zero, suc, ◌+◌, ◌-◌, ◌*◌, ◌/◌, Bool, true, false, not, ◌&&◌, ◌||◌, Option, none, some, List,
  [], ◌∷◌, ◌++◌, ◌==◌, ltb, leb, if◌then◌else◌, is_empty, take, drop, length,
}
use brup_http_proxy.Bytes.{
  Bytes, codes, crlf, blank_line, find, contains, split_on, split_once, strip, lower, upper,
  bytes_eq,
}
use brup_http_proxy.Bytes.Int.{ℤ, pos, negsuc, int_of, decimal}
use brup_http_proxy.Result.{
  Result, ok, err, parse_error, value_error, incomplete_read, limit_overrun, ◌>>=◌,
}
use brup_http_proxy.HttpMessage.Headers.{Headers, get_header, remove_header, set_header}

abbrev pub max_body : ℕ
max_body = 64 * 1024 * 1024

-- What a read of the stream gives: the data and the rest, the partial data before EOF, or
-- LimitOverrunError.
pub data Reading : Type 0 where
  found : Bytes → Bytes → Reading
  incomplete : Bytes → Reading
  overrun : Reading

-- `reader.readuntil(sep)`
unfoldable pub read_until : ℕ → Bytes → Bytes → Reading
unfolding find
read_until limit sep stream = elim (find sep stream) [
  | none ↦ if ltb limit (length stream + 1 - length sep) then overrun else incomplete stream
  | some i ↦
      if ltb limit i
      then overrun
      else found (take (i + length sep) stream) (drop (i + length sep) stream)
]

-- `reader.readexactly(n)`
unfoldable pub read_exactly : ℕ → Bytes → Reading
read_exactly n stream =
    if leb n (length stream) then found (take n stream) (drop n stream) else incomplete stream

-- a read whose error is passed on
abbrev pub or_raise : Reading → Result (Bytes × Bytes)
or_raise (found got rest) = ok (got, rest)
or_raise (incomplete partial) = err incomplete_read
or_raise overrun = err limit_overrun

-- `data[:-n]`
abbrev pub drop_end : ℕ → Bytes → Bytes
drop_end n data' = take (length data' - n) data'

abbrev head_of : Reading → Result (Option Bytes × Bytes)
unfolding find
head_of (found got rest) = ok (some (drop_end 4 got), rest)
head_of (incomplete partial) =
    if is_empty partial then ok (none, []) else elim (find (10 ∷ 10 ∷ []) partial) [
      | none ↦ err parse_error
      | some i ↦ ok (some (take i partial), [])
    ]
head_of overrun = err parse_error

unfoldable pub read_head : ℕ → Bytes → Result (Option Bytes × Bytes)
unfolding read_until find
read_head limit stream = head_of (read_until limit blank_line stream)

-- The inner loop of `_read_chunked`: lines up to an empty one.
unfoldable pub read_trailers : ℕ → ℕ → Bytes → Option (Result Bytes)
unfolding read_until bytes_eq
read_trailers zero limit stream = none
read_trailers (suc fuel) limit stream = elim (read_until limit crlf stream) [
  | found line rest ↦
      let more = read_trailers fuel limit rest in
      elim (bytes_eq line crlf) [ true ↦ some (ok rest) | false ↦ more ]
  | incomplete partial ↦ some (err incomplete_read)
  | overrun ↦ some (err limit_overrun)
]

-- `line.strip().split(b";", 1)[0]`
unfoldable pub size_token : Bytes → Bytes
unfolding split_once strip
size_token line = (split_once (codes ";") (strip line)).0

-- `out += await reader.readexactly(size)`, and the two bytes behind the chunk
unfoldable pub read_chunk : ℕ → Bytes → Result (Bytes × Bytes)
unfolding read_exactly
read_chunk size stream = do
  chunk ← or_raise (read_exactly size stream)
  ending ← or_raise (read_exactly 2 chunk.1)
  ok (chunk.0, ending.1)

abbrev finish : Bytes → Option (Result Bytes) → Option (Result (Bytes × Bytes))
finish out none = none
finish out (some (err e)) = some (err e)
finish out (some (ok rest)) = some (ok (out, rest))

-- The outer loop of `_read_chunked`.
unfoldable pub read_chunked_from : ℕ → ℕ → Bytes → Bytes → Option (Result (Bytes × Bytes))
read_chunked_from zero limit out stream = none
read_chunked_from (suc fuel) limit out stream = elim (or_raise (read_until limit crlf stream)) [
  | err e ↦ some (err e)
  | ok (line, rest) ↦ elim (int_of 16 (size_token line)) [
    | none ↦ some (err parse_error)
    | some (pos zero) ↦ finish out (read_trailers fuel limit rest)
    | some (pos (suc n)) ↦
        if ltb max_body (length out + suc n)
        then some (err parse_error)
        else elim (read_chunk (suc n) rest) [
          | err e ↦ some (err e)
          | ok (chunk, rest') ↦ read_chunked_from fuel limit (out ++ chunk) rest'
        ]
    | some (negsuc n) ↦
        if ltb (max_body + suc n) (length out)
        then some (err parse_error)
        else some (err value_error)
  ]
]

-- Each round reads a line end, so one more than the length of the stream is enough fuel.
unfoldable pub read_chunked : ℕ → Bytes → Option (Result (Bytes × Bytes))
unfolding read_chunked_from
read_chunked limit stream = read_chunked_from (suc (length stream)) limit [] stream

-- `int(cl.split(b",")[0].strip())`
unfoldable pub content_length : Bytes → Option ℤ
unfolding split_on strip int_of
content_length cl = elim (split_on 44 cl) [
  | [] ↦ int_of 10 []
  | first ∷ more ↦ int_of 10 (strip first)
]

abbrev pub Body : Type 0
Body = Bytes × Bool

-- the body, whether it was chunked, and the rest of the stream
abbrev with_flag : Option (Result (Bytes × Bytes)) → Option (Result (Body × Bytes))
with_flag none = none
with_flag (some (err e)) = some (err e)
with_flag (some (ok (body, rest))) = some (ok ((body, true), rest))

unfoldable pub read_sized : Option ℤ → Bytes → Result (Body × Bytes)
unfolding read_exactly
read_sized none stream = err parse_error
read_sized (some (negsuc n)) stream = err parse_error
read_sized (some (pos n)) stream =
    if ltb max_body n then err parse_error else elim (read_exactly n stream) [
      | found got rest ↦ ok ((got, false), rest)
      | incomplete partial ↦ ok ((partial, false), [])
      | overrun ↦ err limit_overrun
    ]

unfoldable pub is_chunked : Option Bytes → Bool
unfolding contains lower
is_chunked none = false
is_chunked (some te) = not (is_empty te) && contains (codes "chunked") (lower te)

-- `status // 100 == 1 or status in (204, 304)`
unfoldable pub bodiless_status : Option ℤ → Bool
bodiless_status (some (pos n)) = n / 100 == 1 || (n == 204 || n == 304)
bodiless_status status = false

unfoldable pub is_head : Option Bytes → Bool
unfolding bytes_eq upper
is_head none = false
is_head (some method) = not (is_empty method) && bytes_eq (upper method) (codes "HEAD")

unfoldable pub read_body :
    ℕ → Headers → Bool → Option ℤ → Option Bytes → Bytes → Option (Result (Body × Bytes))
read_body limit headers is_response status method stream =
    if is_response && (bodiless_status status || is_head method)
    then some (ok (([], false), stream))
    else if is_chunked (get_header headers (codes "transfer-encoding"))
    then with_flag (read_chunked limit stream)
    else elim (get_header headers (codes "content-length")) [
      | some cl ↦ some (read_sized (content_length cl) stream)
      | none ↦
          if is_response then some (ok ((stream, false), [])) else some (ok (([], false), stream))
    ]

unfoldable pub normalise_framing : Headers → Bytes → Bool → Headers
unfolding remove_header set_header
normalise_framing headers body was_chunked =
    if was_chunked
    then set_header (remove_header headers (codes "transfer-encoding")) (codes "Content-Length")
        (decimal (length body))
    else headers
