-- ===== src/HttpMessage/Parse/Lines.antt =====
-- How a serialised head is cut into its lines, and its header lines are read back.
use mathlib.Core.Path.{ap₂}
use brup_http_proxy.Prelude.{
  sym, ◌≡◌, ◌≢◌, refl, ◌∙◌, ap, false, some, List, [], ◌∷◌, ◌++◌, map, arith, All, All-append,
  length, append_assoc, append-nil, take-append, drop-append_add,
}
use brup_http_proxy.Bytes.{Bytes, codes, crlf, blank_line, find, starts_with, join, strip, chop_cr}
use brup_http_proxy.Bytes.Lines.{IsLine, NoByte, EndsClean, find-join, split_on-join}
use brup_http_proxy.Bytes.Trim.{IsTrimmed, strip-space, chop_cr-append_space}
use brup_http_proxy.Result.{ok}
use brup_http_proxy.HttpMessage.Headers.{Header, Headers}
use brup_http_proxy.HttpMessage.Message.{header_line, serialise_headers, serialise}
use brup_http_proxy.HttpMessage.Parse.{
  split_raw, split_head_lines, is_folded, split_header, header_step, parse_headers_from,
}

-- a header that can be written on a line of its own
pub record IsPlain (h : Header) : Type 0 where
  pub named : h.0 ≢ []
  pub no_colon : NoByte 58 h.0
  pub name_no_lf : NoByte 10 h.0
  pub not_folded : is_folded h.0 ≡ false
  pub value_no_lf : NoByte 10 h.1
  pub trimmed : IsTrimmed h.1

pub serialise-join :
    (start : Bytes) (hs : Headers) (body : Bytes)
    → serialise start hs body ≡ join crlf (start ∷ map header_line hs) ++ (blank_line ++ body)
unfolding serialise join
serialise-join start [] body = refl
serialise-join start (h ∷ hs) body =
    ap (λ s. start ++ (crlf ++ s))
      (append_assoc (header_line h) (crlf ++ serialise_headers hs) (crlf ++ body)
        ∙ serialise-join (header_line h) hs body)
    ∙ sym (append_assoc start (crlf ++ join crlf (map header_line (h ∷ hs))) (blank_line ++ body))

header_line-IsLine : (h : Header) → IsPlain h → IsLine (header_line h)
unfolding header_line
header_line-IsLine ([], v) p = absurd (p.named refl)
header_line-IsLine (c ∷ n, v) p = record {
  no_lf =
      All-append _ (c ∷ n) (codes ": " ++ v) p.name_no_lf
        (omega arith, (omega arith, p.value_no_lf));
  filled = λ e. cc e;
}

pub header_lines-IsLine : (hs : Headers) → All IsPlain hs → All IsLine (map header_line hs)
header_lines-IsLine [] p = tt
header_lines-IsLine (h ∷ hs) p = (header_line-IsLine h p.0, header_lines-IsLine hs p.1)

-- The head and the body of a serialised message are found again, whatever the body holds.
pub split_raw-join :
    (l : Bytes) (ls : List Bytes) (body : Bytes)
    → All IsLine (l ∷ ls)
    → split_raw (join crlf (l ∷ ls) ++ (blank_line ++ body)) ≡ (join crlf (l ∷ ls), body)
unfolding split_raw
split_raw-join l ls body h =
    let J = join crlf (l ∷ ls) in
    rw (find-join l ls body h, split_raw)
      (ap₂ (λ a b. (a, b)) (take-append J (blank_line ++ body))
        (drop-append_add J (blank_line ++ body) 4))

lines_no_lf : (ls : List Bytes) → All IsLine ls → All (NoByte 10) ls
lines_no_lf [] h = tt
lines_no_lf (l ∷ ls) h = (h.0.no_lf, lines_no_lf ls h.1)

header_line-EndsClean : (h : Header) → IsPlain h → chop_cr (header_line h) ≡ header_line h
unfolding header_line
header_line-EndsClean (n, v) p =
    rw (← append_assoc n (58 ∷ []) (32 ∷ v)) (chop_cr-append_space (n ++ 58 ∷ []) v p.trimmed)

head-EndsClean :
    (start : Bytes) (hs : Headers)
    → chop_cr start ≡ start
    → All IsPlain hs
    → EndsClean (start ∷ map header_line hs)
head-EndsClean start [] e p = e
head-EndsClean start (h ∷ hs) e p =
    head-EndsClean (header_line h) hs (header_line-EndsClean h p.0) p.1

-- A serialised head is cut into its start line and header lines.
pub split_head_lines-join :
    (start : Bytes) (hs : Headers)
    → IsLine start
    → chop_cr start ≡ start
    → All IsPlain hs
    → split_head_lines (join crlf (start ∷ map header_line hs)) ≡ start ∷ map header_line hs
unfolding split_head_lines
split_head_lines-join start hs l e p =
    split_on-join start (map header_line hs)
      (lines_no_lf (start ∷ map header_line hs) (l, header_lines-IsLine hs p))
      (head-EndsClean start hs e p)

find-colon : (n rest : Bytes) → NoByte 58 n → find (codes ":") (n ++ 58 ∷ rest) ≡ some (length n)
unfolding find starts_with
find-colon [] rest h = refl
find-colon (c ∷ n) rest h = ground (arith, find-colon n rest h.1)

split_header_lem : (h : Header) → IsPlain h → split_header (header_line h) ≡ ok h
unfolding split_header header_line
split_header_lem ([], v) p = absurd (p.named refl)
split_header_lem (c ∷ n, v) p =
    rw (find-colon (c ∷ n) (32 ∷ v) p.no_colon, split_header)
      (ap₂ (λ a b. ok (c ∷ a, b)) (take-append n (58 ∷ 32 ∷ v))
        (ap strip (drop-append_add (c ∷ n) (58 ∷ 32 ∷ v) 1) ∙ strip-space v p.trimmed))

header_step_lem :
    (acc : Headers) (h : Header) → IsPlain h → header_step acc (header_line h) ≡ ok (acc ++ h ∷ [])
unfolding header_step header_line
header_step_lem acc ([], v) p = absurd (p.named refl)
header_step_lem acc (c ∷ n, v) p =
    let e : split_header (c ∷ n ++ (codes ": " ++ v)) ≡ ok (c ∷ n, v) =
      split_header_lem (c ∷ n, v) p in
    rw (p.not_folded, e)

-- Header lines are parsed into the headers that they were written from.
pub parse_headers_from-map :
    (acc hs : Headers)
    → All IsPlain hs
    → parse_headers_from acc (map header_line hs) ≡ ok (acc ++ hs)
unfolding parse_headers_from
parse_headers_from-map acc [] p = rw append-nil
parse_headers_from-map acc (h ∷ hs) p =
    rw (header_step_lem acc h p.0)
      (parse_headers_from-map (acc ++ h ∷ []) hs p.1 ∙ ap ok (append_assoc acc (h ∷ []) hs))
