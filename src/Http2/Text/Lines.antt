-- ===== src/Http2/Text/Lines.antt =====
-- How the lines of the text form are read back as fields.
use mathlib.Core.Path.{ap₂}
use mathlib.Core.List.{tail}
use brup_http_proxy.Prelude.{
  ◌≡◌, refl, ◌∙◌, ap, false, not, some, List, [], ◌∷◌, ◌++◌, map, arith, All, All-append, length,
  append_assoc, append-nil, take-append, drop-append_add, keep, is_empty,
}
use brup_http_proxy.Bytes.{Bytes, codes, crlf, find, join, strip, chop_cr}
use brup_http_proxy.Bytes.Lines.{IsLine, NoByte, EndsClean, split_on-join}
use brup_http_proxy.Bytes.Trim.{
  IsTrimmed, IsWord, IsTrimmed-of_IsWord, strip-space, strip_of_IsTrimmed, chop_cr-append_space,
  strip-append_ne,
}
use brup_http_proxy.Result.{ok}
use brup_http_proxy.HttpMessage.Headers.{Header, Headers}
use brup_http_proxy.HttpMessage.Message.{header_line}
use brup_http_proxy.HttpMessage.Parse.{split_raw}
use brup_http_proxy.HttpMessage.Parse.Lines.{split_raw-join}
use brup_http_proxy.Http2.Fields.{is_pseudo}
use brup_http_proxy.Http2.Text.{text_of, split, head_lines, find_colon, field, fields_from}

-- a field that fits on a line of the text form; only the first byte of its name may be a colon
pub record IsField (h : Header) : Type 0 where
  pub name : IsWord h.0
  pub no_colon : NoByte 58 (tail h.0)
  pub name_no_lf : NoByte 10 h.0
  pub value_no_lf : NoByte 10 h.1
  pub trimmed : IsTrimmed h.1

-- a field that is no pseudo-header
pub record IsRegular (h : Header) : Type 0 where
  pub fits : IsField h
  pub plain : is_pseudo h ≡ false

find_colon-line :
    (n rest : Bytes) → NoByte 58 n → find (codes ":") (n ++ 58 ∷ rest) ≡ some (length n)
unfolding find
find_colon-line [] rest h = refl
find_colon-line (c ∷ n) rest h = ground (arith, find_colon-line n rest h.1)

pub field-header_line : (h : Header) → IsField h → field (header_line h) ≡ ok h
unfolding field header_line find_colon
field-header_line ([], v) p = absurd (p.name.filled refl)
field-header_line (c ∷ n, v) p =
    rw (find_colon-line n (32 ∷ v) p.no_colon, field)
      (ap₂ (λ a b. ok (a, b))
        (ap strip (ap (λ t. c ∷ t) (take-append n (58 ∷ 32 ∷ v)))
          ∙ strip_of_IsTrimmed (c ∷ n) (IsTrimmed-of_IsWord (c ∷ n) p.name))
        (ap strip (drop-append_add (c ∷ n) (58 ∷ 32 ∷ v) 1) ∙ strip-space v p.trimmed))

pub fields_from-map :
    (pseudo acc hs : Headers)
    → All IsRegular hs
    → fields_from pseudo acc (map header_line hs) ≡ ok (pseudo, acc ++ hs)
unfolding fields_from is_pseudo
fields_from-map pseudo acc [] p = rw append-nil
fields_from-map pseudo acc (h ∷ hs) p =
    rw (field-header_line h p.0.fits, fields_from)
      (rw (p.0.plain, fields_from)
        (fields_from-map pseudo (acc ++ h ∷ []) hs p.1
          ∙ ap (λ t. ok (pseudo, t)) (append_assoc acc (h ∷ []) hs)))

pub keep_pseudo_lem : (hs : Headers) → All IsRegular hs → keep is_pseudo hs ≡ []
keep_pseudo_lem [] p = refl
keep_pseudo_lem (h ∷ hs) p = rw (p.0.plain, keep) (keep_pseudo_lem hs p.1)

pub keep_regular_lem : (hs : Headers) → All IsRegular hs → keep (λ h. not (is_pseudo h)) hs ≡ hs
keep_regular_lem [] p = refl
keep_regular_lem (h ∷ hs) p = rw (p.0.plain, keep) (ap (λ t. h ∷ t) (keep_regular_lem hs p.1))

pub header_line-IsLine : (h : Header) → IsField h → IsLine (header_line h)
unfolding header_line
header_line-IsLine ([], v) p = absurd (p.name.filled refl)
header_line-IsLine (c ∷ n, v) p = record {
  no_lf =
      All-append _ (c ∷ n) (codes ": " ++ v) p.name_no_lf
        (omega arith, (omega arith, p.value_no_lf));
  filled = λ e. cc e;
}

header_line-clean : (h : Header) → IsField h → chop_cr (header_line h) ≡ header_line h
unfolding header_line
header_line-clean (n, v) p =
    rw (← append_assoc n (58 ∷ []) (32 ∷ v)) (chop_cr-append_space (n ++ 58 ∷ []) v p.trimmed)

-- the lines of a head: not empty, without LF, not blank, and with no CR at the end
pub record IsHeadLine (l : Bytes) : Type 0 where
  pub line : IsLine l
  pub shown : is_empty (strip l) ≡ false
  pub clean : chop_cr l ≡ l

pub header_line-IsHeadLine : (h : Header) → IsField h → IsHeadLine (header_line h)
unfolding header_line
header_line-IsHeadLine h p = record {
  line = header_line-IsLine h p;
  shown = strip-append_ne h.0 (codes ": " ++ h.1) p.name;
  clean = header_line-clean h p;
}

pub header_lines-IsHeadLine :
    (hs : Headers) → All IsRegular hs → All IsHeadLine (map header_line hs)
header_lines-IsHeadLine [] p = tt
header_lines-IsHeadLine (h ∷ hs) p =
    (header_line-IsHeadLine h p.0.fits, header_lines-IsHeadLine hs p.1)

lines-IsLine : (ls : List Bytes) → All IsHeadLine ls → All IsLine ls
lines-IsLine [] h = tt
lines-IsLine (l ∷ ls) h = (h.0.line, lines-IsLine ls h.1)

lines_no_lf : (ls : List Bytes) → All IsHeadLine ls → All (NoByte 10) ls
lines_no_lf [] h = tt
lines_no_lf (l ∷ ls) h = (h.0.line.no_lf, lines_no_lf ls h.1)

lines-EndsClean : (ls : List Bytes) → All IsHeadLine ls → EndsClean ls
lines-EndsClean [] h = tt
lines-EndsClean (l ∷ []) h = h.0.clean
lines-EndsClean (l ∷ m ∷ ls) h = lines-EndsClean (m ∷ ls) h.1

keep_shown : (ls : List Bytes) → All IsHeadLine ls → keep (λ ln. not (is_empty (strip ln))) ls ≡ ls
keep_shown [] h = refl
keep_shown (l ∷ ls) h = rw (h.0.shown, keep) (ap (λ t. l ∷ t) (keep_shown ls h.1))

-- The head and the body of a text are found again.
pub split-text_of :
    (l : Bytes) (ls : List Bytes) (body : Bytes)
    → All IsHeadLine (l ∷ ls)
    → split (text_of (l ∷ ls) body) ≡ (join crlf (l ∷ ls), body)
unfolding text_of split split_raw
split-text_of l ls body h = split_raw-join l ls body (lines-IsLine (l ∷ ls) h)

pub head_lines-join :
    (l : Bytes) (ls : List Bytes)
    → All IsHeadLine (l ∷ ls)
    → head_lines (join crlf (l ∷ ls)) ≡ l ∷ ls
unfolding head_lines
head_lines-join l ls h =
    rw (split_on-join l ls (lines_no_lf (l ∷ ls) h) (lines-EndsClean (l ∷ ls) h))
      (keep_shown (l ∷ ls) h)
